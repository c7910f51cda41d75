-- ===== src/Links/Accounts.antt =====
-- What `check_and_use` does to the account of a link and to those of the others.
use rvg_sever.Wire.Text.{Text}
use rvg_sever.Prelude.{
  ℕ, ◌+◌, ◌≡◌, ◌≢◌, refl, sym, ap, ◌∙◌, arith, Bool, if◌then◌else◌, Option, none, some, Key, get,
  get-put, Bool-cases, inl, inr, if_pos, if_neg,
}
use rvg_sever.Links.{
  Link, Panel, Moment, is_link_allowed, is_allowed, use_bytes, charge, check_and_use,
}

-- The bytes that are accounted to a link; none for a missing one.
abbrev pub used_or_zero : Option Link → ℕ
used_or_zero none = 0
used_or_zero (some link) = link.used_bytes

module _ ⦃by_uuid : Key Text⦄ ⦃by_hour : Key ℕ⦄ where
  abbrev pub used_of : Text → Panel → ℕ
  used_of uid p = used_or_zero (get uid p.links)

  -- What a call adds, by its answer.
  abbrev pub added : Bool → ℕ → ℕ
  added answer n = if answer then n else 0

  get_used :
      (moment : Moment) (uid : Text) (link : Link) (n : ℕ) (p : Panel)
      → used_of uid (use_bytes moment uid link n p) ≡ link.used_bytes + n
  unfolding use_bytes
  get_used moment uid link n p =
      let link' = record link { used_bytes = link.used_bytes + n } in
      ap used_or_zero (
        get-put uid uid link' p.links
        ∙ if_pos (by_uuid.dec uid uid) refl (some link') (get uid p.links))

  get_other :
      (moment : Moment) (uid other : Text) (link : Link) (n : ℕ) (p : Panel)
      → uid ≢ other
      → get other (use_bytes moment uid link n p).links ≡ get other p.links
  unfolding use_bytes
  get_other moment uid other link n p different =
      let link' = record link { used_bytes = link.used_bytes + n } in
      get-put uid other link' p.links
      ∙ if_neg (by_uuid.dec uid other) different (some link') (get other p.links)

  charge_lem :
      (moment : Moment) (uid other : Text) (n : ℕ) (l : Option Link) (p : Panel)
      → uid ≢ other
      → get uid p.links ≡ l
      → let (answer, p') = charge moment uid n l p in
        (answer ≡ is_link_allowed moment.now l)
        × (used_of uid p' ≡ used_of uid p + added answer n)
        × (p'.total_bytes ≡ p.total_bytes + added answer n)
        × (get other p'.links ≡ get other p.links)
  unfolding charge is_link_allowed
  charge_lem moment uid other n none p different e = (refl, omega arith, omega arith, refl)
  charge_lem moment uid other n (some link) p different e =
      elim (Bool-cases (is_allowed moment.now link)) [
        | inr refused ↦ rw (refused) (refl, omega arith, omega arith, refl)
        | inl allowed ↦ rw (allowed) (
          refl,
          get_used moment uid link n p ∙ ap (λ l. used_or_zero l + n) (sym e),
          unfold use_bytes in refl,
          get_other moment uid other link n p different,
        )
      ]

  -- A call answers by whether the link is allowed. The bytes are added to the link and to the total
  -- exactly if the answer is yes, and no other link changes.
  pub check_and_use_lem :
      (moment : Moment) (uid other : Text) (n : ℕ) (p : Panel)
      → uid ≢ other
      → let (answer, p') = check_and_use moment uid n p in
        (answer ≡ is_link_allowed moment.now (get uid p.links))
        × (used_of uid p' ≡ used_of uid p + added answer n)
        × (p'.total_bytes ≡ p.total_bytes + added answer n)
        × (get other p'.links ≡ get other p.links)
  unfolding check_and_use
  check_and_use_lem moment uid other n p different =
      charge_lem moment uid other n (get uid p.links) p different refl

  charge-used :
      (moment : Moment) (uid : Text) (n : ℕ) (l : Option Link) (p : Panel)
      → get uid p.links ≡ l
      → used_of uid (charge moment uid n l p).1
        ≡ used_of uid p + added (charge moment uid n l p).0 n
  unfolding charge is_link_allowed
  charge-used moment uid n none p e = omega arith
  charge-used moment uid n (some link) p e = elim (Bool-cases (is_allowed moment.now link)) [
    | inr refused ↦ rw (refused) (omega arith)
    | inl allowed ↦
        rw (allowed) (get_used moment uid link n p ∙ ap (λ l. used_or_zero l + n) (sym e))
  ]

  pub used_of-check_and_use :
      (moment : Moment) (uid : Text) (n : ℕ) (p : Panel)
      → used_of uid (check_and_use moment uid n p).1
        ≡ used_of uid p + added (check_and_use moment uid n p).0 n
  unfolding check_and_use
  used_of-check_and_use moment uid n p = charge-used moment uid n (get uid p.links) p refl
