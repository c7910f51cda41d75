-- ===== src/Admin/Groups/Membership.antt =====
-- The group of a configuration and the ids of the group, over every request that changes them.
use mathlib.Core.Path.{subst}
use rvg_sever.Prelude.{
  ◌≡◌, ◌≢◌, sym, ap, ◌∙◌, arith, true, Option, none, some, Key, Dict, get, put, remove, get-put,
  get-remove,
}
use rvg_sever.Wire.Text.{Text}
use rvg_sever.Admin.{Config, Group}
use rvg_sever.Admin.Groups.Members.{is_member}

pub none-ne-some {ℓ} : {A : Type ℓ} {x : A} → none ≢ some x
none-ne-some e = cc (e)

module _ ⦃by_text : Key Text⦄ where
  abbrev pub sub_in : Option Config → Option Text
  sub_in none = none
  sub_in (some d) = d.sub_id

  -- The group that an entry names.
  abbrev pub sub_of : Text → Dict Text Config → Option Text
  sub_of uid links = sub_in (get uid links)

  -- A group that an entry names has it, if the group is there.
  abbrev pub IsGrouped : Dict Text Config → Dict Text Group → Type 0
  IsGrouped links subs =
      (uid sid : Text) → sub_of uid links ≡ some sid → is_member sid uid subs ≡ true

  pub put-IsGrouped :
      (uid : Text) (d : Config) (links : Dict Text Config) (subs subs' : Dict Text Group)
      → IsGrouped links subs
      → ((q u : Text) → u ≢ uid → is_member q u subs ≡ true → is_member q u subs' ≡ true)
      → ((sid : Text) → d.sub_id ≡ some sid → is_member sid uid subs' ≡ true)
      → IsGrouped (put uid d links) subs'
  put-IsGrouped uid d links subs subs' all keeps own u sid e = elim (by_text.dec uid u) [
    | yes p ↦
        let found : get u (put uid d links) ≡ some d = ground (arith, p, get-put uid u d links) in
        subst (λ k. is_member sid k subs' ≡ true) p (own sid (sym (ap sub_in found) ∙ e))
    | no p ↦
        let same : get u (put uid d links) ≡ get u links =
          ground (arith, p, get-put uid u d links) in
        keeps sid u (λ q. p (sym q)) (all u sid (sym (ap sub_in same) ∙ e))
  ]

  -- An entry changes in other things.
  pub put_same-IsGrouped :
      (uid : Text) (d : Config) (links : Dict Text Config) (subs : Dict Text Group)
      → IsGrouped links subs
      → d.sub_id ≡ sub_of uid links
      → IsGrouped (put uid d links) subs
  put_same-IsGrouped uid d links subs all same =
      put-IsGrouped uid d links subs subs all (λ q u _ h. h) (λ sid e. all uid sid (sym same ∙ e))

  pub remove-IsGrouped :
      (uid : Text) (links : Dict Text Config) (subs subs' : Dict Text Group)
      → IsGrouped links subs
      → ((q u : Text) → u ≢ uid → is_member q u subs ≡ true → is_member q u subs' ≡ true)
      → IsGrouped (remove uid links) subs'
  remove-IsGrouped uid links subs subs' all keeps u sid e = elim (by_text.dec uid u) [
    | yes p ↦
        let gone : get u (remove uid links) ≡ none = ground (arith, p, get-remove uid u links) in
        absurd (none-ne-some (sym (ap sub_in gone) ∙ e))
    | no p ↦
        let same : get u (remove uid links) ≡ get u links =
          ground (arith, p, get-remove uid u links) in
        keeps sid u (λ q. p (sym q)) (all u sid (sym (ap sub_in same) ∙ e))
  ]
