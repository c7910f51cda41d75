-- ===== src/Links/Quota/Conservation.antt =====
-- What the gates of a connection account is what passed through them.
use mathlib.Core.Path.{subst}
use rvg_sever.Wire.Text.{Text}
use rvg_sever.Prelude.{
  ℕ, ◌+◌, ◌≡◌, refl, sym, ap, ◌∙◌, arith, Bool, true, false, leb, ltb, ◌||◌, if◌then◌else◌, Key,
  Bool-cases, inl, inr, ltb→ge,
}
use rvg_sever.Links.{Panel, Moment, check_and_use}
use rvg_sever.Links.Accounts.{used_of, used_of-check_and_use, added}
use rvg_sever.Links.Quota.{Instant, QuotaGate, adapt, settle, add_open, add, flush}

module _ {Rate : Type 0} (zero_rate : Rate) (target_of : Rate → ℕ) ⦃by_uuid : Key Text⦄
    ⦃by_hour : Key ℕ⦄ where
  adapt-uuid :
      (i : Instant Rate) (n : ℕ) (g : QuotaGate Rate)
      → (adapt zero_rate target_of i n g).uuid ≡ g.uuid
  unfolding adapt
  adapt-uuid i n g = elim (Bool-cases i.is_later) [ inl later ↦ rw (later) | inr now ↦ rw (now) ]

  adapt-pending :
      (i : Instant Rate) (n : ℕ) (g : QuotaGate Rate)
      → (adapt zero_rate target_of i n g).pending ≡ g.pending
  unfolding adapt
  adapt-pending i n g = elim (Bool-cases i.is_later) [ inl later ↦ rw (later) | inr now ↦ rw (now) ]

  settle-used :
      (moment : Moment) (n : ℕ) (uid : Text) (g : QuotaGate Rate) (p : Panel)
      → g.uuid ≡ uid
      → (settle zero_rate target_of moment n (g, p)).0.ok ≡ true
      → used_of uid (settle zero_rate target_of moment n (g, p)).1 ≡ used_of uid p + n
  unfolding settle
  settle-used moment n uid g p own open_ =
      subst (λ uid. used_of uid (check_and_use moment g.uuid n p).1 ≡ used_of uid p + n) own
        (used_of-check_and_use moment g.uuid n p ∙ ap (λ b. used_of g.uuid p + added b n) open_)

  pub settle-own :
      (moment : Moment) (n : ℕ) (g : QuotaGate Rate) (p : Panel)
      → ((settle zero_rate target_of moment n (g, p)).0.uuid ≡ g.uuid)
        × ((settle zero_rate target_of moment n (g, p)).0.pending ≡ g.pending)
  unfolding settle
  settle-own moment n g p = (refl, refl)

  add_open-account :
      (i : Instant Rate) (n : ℕ) (uid : Text) (g : QuotaGate Rate) (p : Panel)
      → g.uuid ≡ uid
      → (add_open zero_rate target_of i n (g, p)).0.ok ≡ true
      → let (g', p') = add_open zero_rate target_of i n (g, p) in
        (g'.uuid ≡ uid) × (used_of uid p' + g'.pending ≡ used_of uid p + g.pending + n)
  unfolding add_open
  add_open-account i n uid g p own open_ =
      let pending = g.pending + n in
      let emptied : QuotaGate Rate = record g { pending = 0 } in
      let g1 = adapt zero_rate target_of i pending emptied in
      elim (Bool-cases (leb g.batch_bytes pending || i.is_overdue)) [
        | inr wait ↦ rw (wait) (own, omega arith)
        | inl due ↦
            let own1 : g1.uuid ≡ uid = adapt-uuid i pending emptied ∙ own in
            let (own2, kept) = settle-own i.moment pending g1 p in
            rw (due) (
              own2 ∙ own1,
              omega (
                arith,
                settle-used i.moment pending uid g1 p own1 (rw (due) at open_),
                kept,
                adapt-pending i pending emptied,
              ),
            )
      ]

  pub add-closed :
      (i : Instant Rate) (n : ℕ) (g : QuotaGate Rate) (p : Panel)
      → g.ok ≡ false
      → add zero_rate target_of i n (g, p) ≡ (g, p)
  unfolding add
  add-closed i n g p closed =
      ap (λ b. if b then add_open zero_rate target_of i n (g, p) else (g, p)) closed

  pub add-opened :
      (i : Instant Rate) (n : ℕ) (g : QuotaGate Rate) (p : Panel)
      → g.ok ≡ true
      → add zero_rate target_of i n (g, p) ≡ add_open zero_rate target_of i n (g, p)
  unfolding add
  add-opened i n g p opened =
      ap (λ b. if b then add_open zero_rate target_of i n (g, p) else (g, p)) opened

  -- A gate that is open after `add` was open before, and the bytes are accounted or pending.
  pub add-account :
      (i : Instant Rate) (n : ℕ) (uid : Text) (g : QuotaGate Rate) (p : Panel)
      → g.uuid ≡ uid
      → (add zero_rate target_of i n (g, p)).0.ok ≡ true
      → let (g', p') = add zero_rate target_of i n (g, p) in
        (g.ok ≡ true)
        × (g'.uuid ≡ uid)
        × (used_of uid p' + g'.pending ≡ used_of uid p + g.pending + n)
  add-account i n uid g p own open_ = elim (Bool-cases g.ok) [
    | inr closed ↦ absurd (
        cc (closed, ap (λ (r : QuotaGate Rate × Panel). r.0.ok) (add-closed i n g p closed), open_))
    | inl before ↦
        let same = add-opened i n g p before in
        let (own', account) =
          subst
            (λ (r : QuotaGate Rate × Panel).
              (r.0.uuid ≡ uid) × (used_of uid r.1 + r.0.pending ≡ used_of uid p + g.pending + n))
            (sym same)
            (add_open-account i n uid g p own
              (sym (ap (λ (r : QuotaGate Rate × Panel). r.0.ok) same) ∙ open_)) in
        (before, own', account)
  ]

  add_open-uuid :
      (i : Instant Rate) (n : ℕ) (g : QuotaGate Rate) (p : Panel)
      → (add_open zero_rate target_of i n (g, p)).0.uuid ≡ g.uuid
  unfolding add_open
  add_open-uuid i n g p =
      let pending = g.pending + n in
      let emptied : QuotaGate Rate = record g { pending = 0 } in
      let g1 = adapt zero_rate target_of i pending emptied in
      elim (Bool-cases (leb g.batch_bytes pending || i.is_overdue)) [
        | inr wait ↦ rw (wait)
        | inl due ↦ rw (due) ((settle-own i.moment pending g1 p).0 ∙ adapt-uuid i pending emptied)
      ]

  pub add-uuid :
      (i : Instant Rate) (n : ℕ) (g : QuotaGate Rate) (p : Panel)
      → (add zero_rate target_of i n (g, p)).0.uuid ≡ g.uuid
  add-uuid i n g p = elim (Bool-cases g.ok) [
    | inr closed ↦ ap (λ (r : QuotaGate Rate × Panel). r.0.uuid) (add-closed i n g p closed)
    | inl before ↦
        ap (λ (r : QuotaGate Rate × Panel). r.0.uuid) (add-opened i n g p before)
        ∙ add_open-uuid i n g p
  ]

  -- A gate that is open after `flush` was open before, and all its bytes are accounted.
  pub flush-account :
      (moment : Moment) (uid : Text) (g : QuotaGate Rate) (p : Panel)
      → g.uuid ≡ uid
      → (flush zero_rate target_of moment (g, p)).0.ok ≡ true
      → let (g', p') = flush zero_rate target_of moment (g, p) in
        (g.ok ≡ true) × (used_of uid p' ≡ used_of uid p + g.pending)
  unfolding flush
  flush-account moment uid g p own open_ =
      let emptied : QuotaGate Rate = record g { pending = 0 } in
      let result : Bool → Bool → QuotaGate Rate × Panel = λ any ok_.
        if any
        then (if ok_
            then settle zero_rate target_of moment g.pending (emptied, p)
            else (emptied, p))
        else (g, p) in
      let by : (any ok_ : Bool)
          → ltb 0 g.pending ≡ any
          → g.ok ≡ ok_
          → (result any ok_).0.ok ≡ true
          → (g.ok ≡ true) × (used_of uid (result any ok_).1 ≡ used_of uid p + g.pending) =
        λ any ok_.
          elim any
            as (λ any.
              ltb 0 g.pending ≡ any
              → g.ok ≡ ok_
              → (result any ok_).0.ok ≡ true
              → (g.ok ≡ true) × (used_of uid (result any ok_).1 ≡ used_of uid p + g.pending)) [
                | false ↦ λ none_ same open_. (open_, omega (arith, ltb→ge 0 g.pending none_))
                | true ↦
                    elim ok_
                      as (λ ok_.
                        ltb 0 g.pending ≡ true
                        → g.ok ≡ ok_
                        → (result true ok_).0.ok ≡ true
                        → (g.ok ≡ true)
                          × (used_of uid (result true ok_).1 ≡ used_of uid p + g.pending)) [
                            | true ↦ λ some_ same open_.
                                (same, settle-used moment g.pending uid emptied p own open_)
                            | false ↦ λ some_ same open_. absurd (cc (same, open_))
                          ]
              ] in
      by (ltb 0 g.pending) g.ok refl refl open_
