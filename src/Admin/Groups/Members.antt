-- ===== src/Admin/Groups/Members.antt =====
-- The ids of a group under the two changes that the handlers make.
use rvg_sever.Prelude.{
  ◌≡◌, ◌≢◌, arith, List, [], ◌∷◌, Bool, true, Option, none, some, Option-cases, inl, inr, Key, Dict,
  get, put, get-put,
}
use rvg_sever.Wire.Text.{Text}
use rvg_sever.Wire.Strings.{same_text_iff, is_one_of}
use rvg_sever.Admin.{
  Group, append_new, remove_first, change_group, add_to_group, remove_from_group, leave, join,
}

pub append_new-mem : (uid : Text) (xs : List Text) → is_one_of uid (append_new uid xs) ≡ true
unfolding append_new
append_new-mem uid [] = ground (arith, same_text_iff uid uid)
append_new-mem uid (x ∷ xs) = ground (arith, append_new-mem uid xs)

append_new-keeps :
    (uid u : Text) (xs : List Text) → is_one_of u xs ≡ true → is_one_of u (append_new uid xs) ≡ true
unfolding append_new
append_new-keeps uid u [] h = ground (arith, h)
append_new-keeps uid u (x ∷ xs) h = ground (arith, h, append_new-keeps uid u xs)

remove_first-keeps :
    (uid u : Text) (xs : List Text)
    → u ≢ uid
    → is_one_of u xs ≡ true
    → is_one_of u (remove_first uid xs) ≡ true
unfolding remove_first
remove_first-keeps uid u [] other h = ground (arith, h)
remove_first-keeps uid u (x ∷ xs) other h =
    ground
      (arith, h, other, same_text_iff uid x, same_text_iff u x, remove_first-keeps uid u xs other)

module _ ⦃by_text : Key Text⦄ where
  -- Whether a group, if it is there, has an id.
  abbrev pub lists : Text → Option Group → Bool
  lists uid none = true
  lists uid (some g) = is_one_of uid g.link_ids

  abbrev pub is_member : Text → Text → Dict Text Group → Bool
  is_member sid uid subs = lists uid (get sid subs)

  lists-change :
      (sid q u : Text) (f : Group → Group) (subs : Dict Text Group)
      → ((g : Group) → is_one_of u g.link_ids ≡ true → is_one_of u (f g).link_ids ≡ true)
      → is_member q u subs ≡ true
      → is_member q u (change_group sid f (get sid subs) subs) ≡ true
  lists-change sid q u f subs keeps h = elim (Option-cases (get sid subs)) [
    | inl e ↦ rw e h
    | inr (g, e) ↦ elim (by_text.dec sid q) [
      | yes p ↦
          let found : get q (put sid (f g) subs) ≡ some (f g) =
            ground (arith, p, get-put sid q (f g) subs) in
          rw (e, found) (keeps g (ground (arith, h, e, p)))
      | no p ↦
          let same : get q (put sid (f g) subs) ≡ get q subs =
            ground (arith, p, get-put sid q (f g) subs) in
          rw (e, same) h
    ]
  ]

  pub add_to_group-keeps :
      (sid uid q u : Text) (subs : Dict Text Group)
      → is_member q u subs ≡ true
      → is_member q u (add_to_group sid uid subs) ≡ true
  unfolding add_to_group
  add_to_group-keeps sid uid q u subs h =
      lists-change sid q u _ subs (λ g. append_new-keeps uid u g.link_ids) h

  pub remove_from_group-keeps :
      (sid uid q u : Text) (subs : Dict Text Group)
      → u ≢ uid
      → is_member q u subs ≡ true
      → is_member q u (remove_from_group sid uid subs) ≡ true
  unfolding remove_from_group
  remove_from_group-keeps sid uid q u subs other h =
      lists-change sid q u _ subs (λ g. remove_first-keeps uid u g.link_ids other) h

  pub add_to_group-adds :
      (sid uid : Text) (subs : Dict Text Group)
      → is_member sid uid (add_to_group sid uid subs) ≡ true
  unfolding add_to_group
  add_to_group-adds sid uid subs = elim (Option-cases (get sid subs)) [
    | inl e ↦ rw (e, e)
    | inr (g, e) ↦
        let g' = record g { link_ids = append_new uid g.link_ids } in
        let found : get sid (put sid g' subs) ≡ some g' = ground (arith, get-put sid sid g' subs) in
        rw (e, found) (append_new-mem uid g.link_ids)
  ]

  -- An entry joins its group, and others stay in theirs.
  pub join-keeps :
      (uid q u : Text) (new : Option Text) (subs : Dict Text Group)
      → is_member q u subs ≡ true
      → is_member q u (join uid new subs) ≡ true
  join-keeps uid q u none subs h = h
  join-keeps uid q u (some sid) subs h = add_to_group-keeps sid uid q u subs h

  pub leave-keeps :
      (uid q u : Text) (old : Option Text) (subs : Dict Text Group)
      → u ≢ uid
      → is_member q u subs ≡ true
      → is_member q u (leave uid old subs) ≡ true
  leave-keeps uid q u none subs other h = h
  leave-keeps uid q u (some sid) subs other h = remove_from_group-keeps sid uid q u subs other h

  pub join-adds :
      (uid sid : Text) (new : Option Text) (subs : Dict Text Group)
      → new ≡ some sid
      → is_member sid uid (join uid new subs) ≡ true
  join-adds uid sid none subs e = absurd (cc (e))
  join-adds uid sid (some t) subs e =
      let q : t ≡ sid = cc (e) in rw q (add_to_group-adds sid uid subs)
