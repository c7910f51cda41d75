-- ===== src/Admin/Serving/Runs.antt =====
-- Every sequence of requests, and the ports of the configurations.
use rvg_sever.Prelude.{
  ℕ, ◌≤◌, ◌≡◌, refl, arith, List, [], ◌∷◌, Bool, ◌==◌, if◌then◌else◌, if_holds, Option, none, some,
  Option-cases, inl, inr, Key, Dict, get,
}
use rvg_sever.Wire.Text.{Text}
use rvg_sever.Admin.{Config, Group, Admin, Settings}
use rvg_sever.Admin.Allocation.Distinct.{
  port_at, port_at-put, IsDistinct, remove-IsDistinct, same-IsDistinct,
}
use rvg_sever.Admin.Creation.{Numbers}
use rvg_sever.Admin.Editing.Distinct.{IsObedient}
use rvg_sever.Admin.Deletion.{delete_link}
use rvg_sever.Admin.Groups.{
  GroupEdit, forget_group, create_sub, update_sub, delete_sub, set_sub, assign_found,
  assign_link_to_sub,
}
use rvg_sever.Admin.Serving.{
  Request, creates, edits, deletes, creates_group, edits_group, deletes_group, assigns, serve,
  serve_all,
}
use rvg_sever.Admin.Serving.Distinct.{KeepsAsleep, create_link-IsDistinct, update_link-IsDistinct}

module _ (c : Settings) ⦃by_text : Key Text⦄ ⦃by_port : Key ℕ⦄ where
  delete_link-IsDistinct :
      (uid : Text) (v : Admin) → IsDistinct c v.links → IsDistinct c (delete_link uid v).1.links
  unfolding delete_link
  delete_link-IsDistinct uid v all = elim (Option-cases (get uid v.links)) [
    | inl e ↦ rw (e, delete_link) all
    | inr (d, e) ↦
        let P = λ (k : Admin). IsDistinct c k.links in
        let gone = remove-IsDistinct c uid v.links all in
        rw (e, delete_link) (if_holds P (d.listen_port == 0) gone (if_holds P _ gone gone))
  ]

  forget_group-ports :
      (sid u : Text) (links : Dict Text Config)
      → port_at u (forget_group sid links) ≡ port_at u links
  unfolding forget_group get
  forget_group-ports sid u [] = refl
  forget_group-ports sid u ((x, d) ∷ links) = ground (arith, forget_group-ports sid u links)

  delete_sub-IsDistinct :
      (sid : Text) (v : Admin) → IsDistinct c v.links → IsDistinct c (delete_sub sid v).1.links
  unfolding delete_sub
  delete_sub-IsDistinct sid v all = elim (Option-cases (get sid v.subs)) [
    | inl e ↦ rw (e, delete_sub) all
    | inr (g, e) ↦
        rw (e, delete_sub)
          (same-IsDistinct c v.links (forget_group sid v.links)
            (λ u. forget_group-ports sid u v.links) all)
  ]

  set_sub-ports :
      (uid u : Text) (sub : Option Text) (links : Dict Text Config)
      → port_at u (set_sub uid sub (get uid links) links) ≡ port_at u links
  set_sub-ports uid u sub links = elim (Option-cases (get uid links)) [
    | inl e ↦ rw e
    | inr (d, e) ↦
        let d' = record d { sub_id = sub } in rw e (ground (arith, e, port_at-put uid u d' links))
  ]

  assign_found-IsDistinct :
      (sid uid : Text) (adds : Bool) (g : Option Group) (v : Admin)
      → IsDistinct c v.links
      → IsDistinct c (assign_found sid uid adds g v).1.links
  assign_found-IsDistinct sid uid adds none v all = all
  assign_found-IsDistinct sid uid adds (some g) v all =
      same-IsDistinct c v.links (set_sub uid _ (get uid v.links) v.links)
        (λ u. set_sub-ports uid u (if adds then some sid else none) v.links) all

module _ (n : Numbers) (c : Settings) (hash_password : Text → Text) ⦃by_text : Key Text⦄
    ⦃by_port : Key ℕ⦄ where
  update_sub-links :
      (sid : Text) (body : GroupEdit) (v : Admin)
      → (update_sub hash_password sid body v).1.links ≡ v.links
  unfolding update_sub
  update_sub-links sid body v = elim (Option-cases (get sid v.subs)) [
    | inl e ↦ rw (e, update_sub)
    | inr (g, e) ↦ rw (e, update_sub)
  ]

  -- MTProto instances run on the port that they are asked for, and a configuration that has no port of its
  -- own is not switched on or off.
  abbrev pub IsTame : Request n → Admin → Type 0
  IsTame (creates w now r body) v = IsObedient r.start_instance
  IsTame (edits w now start_instance uid body) v =
      IsObedient start_instance
      × ((before : Config) → get uid v.links ≡ some before → KeepsAsleep n c body before)
  IsTame _ v = Unit {0}

  abbrev pub AllTame : List (Request n) → Admin → Type 0
  AllTame [] v = Unit {0}
  AllTame (request ∷ requests) v =
      IsTame request v × AllTame requests (serve n c hash_password request v)

  serve-IsDistinct :
      (request : Request n) (v : Admin)
      → c.low ≤ c.high
      → c.high ≤ 65536
      → IsTame request v
      → IsDistinct c v.links
      → IsDistinct c (serve n c hash_password request v).links
  unfolding serve create_sub assign_link_to_sub
  serve-IsDistinct (creates w now r body) v order high tame all =
      create_link-IsDistinct n c w now r body v order high tame all
  serve-IsDistinct (edits w now start_instance uid body) v order high tame all =
      update_link-IsDistinct n c w now start_instance uid body v tame.0 tame.1 all
  serve-IsDistinct (deletes uid) v order high tame all = delete_link-IsDistinct c uid v all
  serve-IsDistinct (creates_group sid uuid_key body) v order high tame all = all
  serve-IsDistinct (edits_group sid body) v order high tame all =
      rw (update_sub-links sid body v) all
  serve-IsDistinct (deletes_group sid) v order high tame all = delete_sub-IsDistinct c sid v all
  serve-IsDistinct (assigns sid uid adds) v order high tame all =
      assign_found-IsDistinct c sid uid adds (get sid v.subs) v all

  -- After any requests, the failed ones included, no two configurations have the same port of their own,
  -- each such port is at most 65535, and none is the panel's, if it was so before; provided that the range
  -- of ports ends there, that MTProto instances run on the port that they are asked for, and that no
  -- update switches a configuration without a port on or off.
  pub serve_all-IsDistinct :
      (requests : List (Request n)) (v : Admin)
      → c.low ≤ c.high
      → c.high ≤ 65536
      → AllTame requests v
      → IsDistinct c v.links
      → IsDistinct c (serve_all n c hash_password requests v).links
  unfolding serve_all
  serve_all-IsDistinct [] v order high tame all = all
  serve_all-IsDistinct (request ∷ requests) v order high tame all =
      serve_all-IsDistinct requests (serve n c hash_password request v) order high tame.1
        (serve-IsDistinct request v order high tame.0 all)
