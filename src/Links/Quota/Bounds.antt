-- ===== src/Links/Quota/Bounds.antt =====
-- The batches of a gate stay between their limits, and so do the bytes that it has not accounted.
use rvg_sever.Wire.Text.{Text}
use rvg_sever.Prelude.{
  ℕ, ◌+◌, ◌<◌, ◌≤◌, ◌≡◌, sym, arith, false, leb, ◌||◌, Key, Bool-cases, inl, inr,
}
use mathlib.Core.Path.{subst}
use rvg_sever.Links.{Panel, Moment}
use rvg_sever.Links.Quota.{
  quota_min_batch, quota_max_batch, Instant, QuotaGate, batch_for, adapt, settle, add_open, add,
}
use rvg_sever.Links.Quota.Conservation.{add-closed, add-opened}

-- The batch size is within its limits, and less than the largest batch is pending.
pub record IsBounded {Rate : Type 0} (g : QuotaGate Rate) : Type 0 where
  pub at_least : quota_min_batch ≤ g.batch_bytes
  pub at_most : g.batch_bytes ≤ quota_max_batch
  pub few : g.pending < quota_max_batch

batch_for-bounds :
    (target : ℕ) → (quota_min_batch ≤ batch_for target) × (batch_for target ≤ quota_max_batch)
unfolding batch_for
batch_for-bounds target = (omega arith, ground arith)

module _ {Rate : Type 0} (zero_rate : Rate) (target_of : Rate → ℕ) ⦃by_uuid : Key Text⦄
    ⦃by_hour : Key ℕ⦄ where
  adapt-IsBounded :
      (i : Instant Rate) (n : ℕ) (g : QuotaGate Rate)
      → IsBounded g
      → IsBounded (adapt zero_rate target_of i n g)
  unfolding adapt
  adapt-IsBounded i n g b =
      let (low, high) = batch_for-bounds (target_of (i.next_rate g.rate_ewma n)) in
      elim (Bool-cases i.is_later) [
        | inl later ↦ rw (later) (record { at_least = low; at_most = high; few = b.few })
        | inr now ↦ rw (now) b
      ]

  settle-IsBounded :
      (moment : Moment) (n : ℕ) (g : QuotaGate Rate) (p : Panel)
      → IsBounded g
      → IsBounded (settle zero_rate target_of moment n (g, p)).0
  unfolding settle
  settle-IsBounded moment n g p b = record {
    at_least = b.at_least;
    at_most = b.at_most;
    few = b.few;
  }

  waiting :
      (i : Instant Rate) (n : ℕ) (g : QuotaGate Rate)
      → (leb g.batch_bytes (g.pending + n) || i.is_overdue) ≡ false
      → g.pending + n < g.batch_bytes
  waiting i n g wait = ground (arith, wait)

  add_open-IsBounded :
      (i : Instant Rate) (n : ℕ) (g : QuotaGate Rate) (p : Panel)
      → IsBounded g
      → IsBounded (add_open zero_rate target_of i n (g, p)).0
  unfolding add_open
  add_open-IsBounded i n g p b =
      let pending = g.pending + n in
      let emptied : QuotaGate Rate = record g { pending = 0 } in
      elim (Bool-cases (leb g.batch_bytes pending || i.is_overdue)) [
        | inl due ↦ rw (due) (
            settle-IsBounded i.moment pending (adapt zero_rate target_of i pending emptied) p (
              adapt-IsBounded i pending emptied
                (record { at_least = b.at_least; at_most = b.at_most; few = omega arith })))
        | inr wait ↦ rw (wait) (record {
          at_least = b.at_least;
          at_most = b.at_most;
          few = omega (arith, waiting i n g wait, b.at_most);
        })
      ]

  -- Every call keeps the batch size within its limits, and leaves less than two megabytes that are not
  -- accounted, whatever the sizes, the rates and the times.
  pub add-IsBounded :
      (i : Instant Rate) (n : ℕ) (g : QuotaGate Rate) (p : Panel)
      → IsBounded g
      → IsBounded (add zero_rate target_of i n (g, p)).0
  add-IsBounded i n g p b = elim (Bool-cases g.ok) [
    | inr closed ↦
        subst (λ (r : QuotaGate Rate × Panel). IsBounded r.0)
          (sym (add-closed zero_rate target_of i n g p closed)) b
    | inl opened ↦
        subst (λ (r : QuotaGate Rate × Panel). IsBounded r.0)
          (sym (add-opened zero_rate target_of i n g p opened)) (add_open-IsBounded i n g p b)
  ]
