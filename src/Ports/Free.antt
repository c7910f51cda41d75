-- ===== src/Ports/Free.antt =====
-- What `find_free_port` finds.
use rvg_sever.Prelude.{
  ℕ, zero, suc, ◌+◌, ◌-◌, ◌<◌, ◌≤◌, ◌≡◌, arith, Bool, true, false, ◌&&◌, ◌||◌, not, Option, none,
  some, Key, ℕ_discrete, Bool-cases, inl, inr,
}
use rvg_sever.Ports.{System, Ports, is_port_listening, port_free, find_from, find_free_port}

module _ ⦃by_port : Key ℕ⦄ where
  -- A port that may be taken.
  abbrev pub is_usable : System → (ℕ → Bool) → Ports → ℕ → Bool
  is_usable w exclude s port = not (exclude port || is_port_listening port s) && port_free w port s

  -- The first usable port of a range, if there is any.
  pub record IsFirst (usable : ℕ → Bool) (low high port : ℕ) : Type 0 where
    pub from : low ≤ port
    pub below : port < high
    pub is_it : usable port ≡ true
    pub first : (q : ℕ) → low ≤ q → q < port → usable q ≡ false

  abbrev pub Finds : (ℕ → Bool) → ℕ → ℕ → Option ℕ → Type 0
  Finds usable low high none = (q : ℕ) → low ≤ q → q < high → usable q ≡ false
  Finds usable low high (some port) = IsFirst usable low high port

  extend :
      (usable : ℕ → Bool) (low high : ℕ) (o : Option ℕ)
      → usable low ≡ false
      → Finds usable (low + 1) high o
      → Finds usable low high o
  extend usable low high none no_ rest = λ q from below. elim (ℕ_discrete q low) [
    | yes e ↦ rw (e) no_
    | no n ↦ rest q (omega arith) below
  ]
  extend usable low high (some port) no_ rest = record {
    from = omega (arith, rest.from);
    below = rest.below;
    is_it = rest.is_it;
    first = λ q from below. elim (ℕ_discrete q low) [
      | yes e ↦ rw (e) no_
      | no n ↦ rest.first q (omega arith) below
    ];
  }

  find_from-Finds :
      (w : System) (exclude : ℕ → Bool) (low count high : ℕ) (s : Ports)
      → low + count ≡ high
      → Finds (is_usable w exclude s) low high (find_from w exclude low count s)
  unfolding find_from
  find_from-Finds w exclude low zero high s e = λ q from below. absurd (omega (arith, e))
  find_from-Finds w exclude low (suc count) high s e =
      let usable = is_usable w exclude s in
      let rest = find_from-Finds w exclude (low + 1) count high s (omega (arith, e)) in
      let found = find_from w exclude (low + 1) count s in
      elim (Bool-cases (exclude low || is_port_listening low s)) [
        | inl taken ↦ rw (taken) (extend usable low high found (rw (taken)) rest)
        | inr open_ ↦ elim (Bool-cases (port_free w low s)) [
          | inr busy ↦ rw (open_, busy) (extend usable low high found (rw (open_, busy)) rest)
          | inl free ↦
              rw (open_, free)
                (record {
                  from = omega arith;
                  below = omega (arith, e);
                  is_it = rw (open_, free);
                  first = λ q from below. absurd (omega arith);
                })
        ]
      ]

  -- The port found is the first of the range that is not excluded, not in use by this process and free;
  -- where there is none, no port of the range is.
  pub find_free_port-Finds :
      (w : System) (exclude : ℕ → Bool) (start end : ℕ) (s : Ports)
      → start ≤ end
      → Finds (is_usable w exclude s) start end (find_free_port w exclude start end s)
  unfolding find_free_port
  find_free_port-Finds w exclude start end s fits =
      find_from-Finds w exclude start (end - start) end s (omega (arith, fits))
