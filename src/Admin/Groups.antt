-- ===== src/Admin/Groups.antt =====
-- The groups of main.py: `_create_sub_core`, `update_sub`, `delete_sub` and `assign_link_to_sub`. The
-- configurations of other panels in a group, `foreign_links`, are left out.
pub mod Members
pub mod Membership
pub mod Requests
pub mod Runs
use rvg_sever.Prelude.{
  ℕ, List, [], ◌∷◌, Bool, true, false, not, ◌==◌, ◌&&◌, ◌||◌, if◌then◌else◌, Option, none, some,
  Key, Dict, get, put, remove, ite, Result, ok, err,
}
use rvg_sever.Wire.Text.{Text}
use rvg_sever.Wire.Strings.{strip, or_else}
use rvg_sever.Admin.{Config, Group, Admin, add_to_group, remove_from_group}
use rvg_sever.Admin.Creation.{cut, map_text, nonempty}
use rvg_sever.Admin.Editing.{Reply, done, refused, changed}

-- The body of a new group, and that of a change, whose missing keys are `none`.
pub record NewGroup : Type 0 where
  pub name : Option Text
  pub desc : Option Text
  pub password : Option Text

pub record GroupEdit : Type 0 where
  pub name : Option Text
  pub desc : Option Text
  pub password : Option Text
  pub link_ids : Option (List Text)
  pub node_link_ids : Option (List Text)

abbrev pub default_name : Text
default_name = 1711 ∷ 1585 ∷ 1608 ∷ 1607 ∷ 32 ∷ 1580 ∷ 1583 ∷ 1740 ∷ 1583 ∷ []

-- "::" in text
unfoldable pub has_colons : Text → Bool
has_colons [] = false
has_colons (c ∷ []) = false
has_colons (c ∷ d ∷ t) = (c == 58 && d == 58) || has_colons (d ∷ t)

unfoldable pub with_colons : List Text → List Text
unfolding has_colons
with_colons [] = []
with_colons (t ∷ ts) = let rest = with_colons ts in if has_colons t then t ∷ rest else rest

module _ (hash_password : Text → Text) ⦃by_text : Key Text⦄ where
  -- hash_password(password) if password else None
  abbrev pub hashed : Text → Option Text
  hashed [] = none
  hashed (c ∷ t) = some (hash_password (c ∷ t))

  -- The group's id and its public key are drawn at random.
  unfoldable pub create_sub : Text → Text → NewGroup → Admin → Admin
  create_sub sub_id uuid_key body v =
      let group : Group = record {
        name = cut 60 (strip (or_else default_name body.name));
        desc = cut 200 (strip (or_else [] body.desc));
        password_hash = hashed (strip (or_else [] body.password));
        uuid_key = uuid_key;
        link_ids = [];
        node_link_ids = [];
      } in
      record v { subs = put sub_id group v.subs }

  unfoldable pub edit_group : GroupEdit → Group → Group
  unfolding with_colons
  edit_group body g = record g {
    name = elim body.name [ none ↦ g.name | some t ↦ cut 60 t ];
    desc = elim body.desc [ none ↦ g.desc | some t ↦ cut 200 t ];
    password_hash = elim body.password [ none ↦ g.password_hash | some t ↦ hashed (strip t) ];
    link_ids = elim body.link_ids [ none ↦ g.link_ids | some ids ↦ ids ];
    node_link_ids = elim body.node_link_ids [ none ↦ g.node_link_ids | some ids ↦ with_colons ids ];
  }

  abbrev pub update_found : Text → GroupEdit → Option Group → Admin → Reply × Admin
  update_found sid body none v = (refused 404, v)
  update_found sid body (some g) v = (done, record v { subs = put sid (edit_group body g) v.subs })

  unfoldable pub update_sub : Text → GroupEdit → Admin → Reply × Admin
  unfolding edit_group
  update_sub sid body v = update_found sid body (get sid v.subs) v

module _ ⦃by_text : Key Text⦄ where
  abbrev pub is_sub : Text → Option Text → Bool
  is_sub sid none = false
  is_sub sid (some other) = ite (by_text.dec other sid) true false

  -- The entries of a group that is gone belong to none.
  unfoldable pub forget_group : Text → Dict Text Config → Dict Text Config
  forget_group sid [] = []
  forget_group sid ((uid, d) ∷ links) =
      (uid, record d { sub_id = if is_sub sid d.sub_id then none else d.sub_id })
      ∷ forget_group sid links

  abbrev pub delete_found : Text → Option Group → Admin → Reply × Admin
  delete_found sid none v = (refused 404, v)
  delete_found sid (some g) v =
      (done, record v { subs = remove sid v.subs; links = forget_group sid v.links })

  unfoldable pub delete_sub : Text → Admin → Reply × Admin
  unfolding forget_group
  delete_sub sid v = delete_found sid (get sid v.subs) v

  -- LINKS[link_id]["sub_id"] = …, if there is such an entry
  abbrev pub set_sub : Text → Option Text → Option Config → Dict Text Config → Dict Text Config
  set_sub uid sub none links = links
  set_sub uid sub (some d) links = put uid (record d { sub_id = sub }) links

  -- `adds` is whether the action is "add".
  abbrev pub assign_found : Text → Text → Bool → Option Group → Admin → Reply × Admin
  assign_found sid uid adds none v = (refused 404, v)
  assign_found sid uid adds (some g) v = (
    done,
    record v {
      subs = if adds then add_to_group sid uid v.subs else remove_from_group sid uid v.subs;
      links = set_sub uid (if adds then some sid else none) (get uid v.links) v.links;
    },
  )

  unfoldable pub assign_link_to_sub : Text → Text → Bool → Admin → Reply × Admin
  unfolding add_to_group remove_from_group
  assign_link_to_sub sid uid adds v = assign_found sid uid adds (get sid v.subs) v
