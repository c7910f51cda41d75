-- ===== src/Links/Quota.antt =====
-- `_QuotaGate` of protocol/vless/vless.py and protocol/trojan/trojan.py: a connection accounts its bytes
-- in batches. The rate is a float, so its type and the two computations with it are parameters.
pub mod Conservation
pub mod Sessions
pub mod Bounds
use rvg_sever.Wire.Text.{Text}
use rvg_sever.Prelude.{
  ℕ, ◌+◌, ◌*◌, ◌≤◌, min, max, Bool, true, false, leb, ltb, ◌==◌, ◌||◌, if◌then◌else◌, Key,
}
use rvg_sever.Links.{Panel, Moment, check_and_use}

abbrev pub quota_min_batch : ℕ
quota_min_batch = 32 * 1024

abbrev pub quota_max_batch : ℕ
quota_max_batch = 2 * 1024 * 1024

abbrev pub quota_start_batch : ℕ
quota_start_batch = 128 * 1024

-- The instant of a call: what `check_and_use` sees, and of the time since the last check whether it is
-- positive and whether it reaches QUOTA_CHECK_INTERVAL. `last_check` itself is only seen through them.
pub record Instant (Rate : Type 0) : Type 0 where
  pub moment : Moment
  pub is_later : Bool
  pub is_overdue : Bool
  -- The new rate by the old one and the bytes that are flushed.
  pub next_rate : Rate → ℕ → Rate

pub record QuotaGate (Rate : Type 0) : Type 0 where
  pub uuid : Text
  pub pending : ℕ
  pub ok : Bool
  pub batch_bytes : ℕ
  pub rate_ewma : Rate

-- max(QUOTA_MIN_BATCH, min(QUOTA_MAX_BATCH, target or QUOTA_MIN_BATCH))
unfoldable pub batch_for : ℕ → ℕ
batch_for target =
    max quota_min_batch (min quota_max_batch (if target == 0 then quota_min_batch else target))

module _ {Rate : Type 0} (zero_rate : Rate) (target_of : Rate → ℕ) where
  unfoldable pub new_gate : Text → QuotaGate Rate
  new_gate uuid = record {
    uuid = uuid;
    pending = 0;
    ok = true;
    batch_bytes = quota_start_batch;
    rate_ewma = zero_rate;
  }

  -- The batch size adapts to the rate.
  unfoldable pub adapt : Instant Rate → ℕ → QuotaGate Rate → QuotaGate Rate
  adapt i flushed g =
      let rate = i.next_rate g.rate_ewma flushed in
      if i.is_later
      then record g { rate_ewma = rate; batch_bytes = batch_for (target_of rate) }
      else g

  module _ ⦃by_uuid : Key Text⦄ ⦃by_hour : Key ℕ⦄ where
    -- Accounts `flushed` bytes; the answer is kept.
    unfoldable pub settle : Moment → ℕ → QuotaGate Rate × Panel → QuotaGate Rate × Panel
    settle moment flushed (g, p) =
        let (answer, p') = check_and_use moment g.uuid flushed p in (record g { ok = answer }, p')

    -- `add`, once the gate is known to be open
    unfoldable pub add_open : Instant Rate → ℕ → QuotaGate Rate × Panel → QuotaGate Rate × Panel
    add_open i nbytes (g, p) =
        let pending = g.pending + nbytes in
        if leb g.batch_bytes pending || i.is_overdue
        then settle i.moment pending (adapt i pending (record g { pending = 0 }), p)
        else (record g { pending = pending }, p)

    -- `add`; the answer is the gate's `ok` afterwards.
    unfoldable pub add : Instant Rate → ℕ → QuotaGate Rate × Panel → QuotaGate Rate × Panel
    add i nbytes (g, p) = let opened = add_open i nbytes (g, p) in if g.ok then opened else (g, p)

    -- `flush`; a closed gate loses its pending bytes.
    unfoldable pub flush : Moment → QuotaGate Rate × Panel → QuotaGate Rate × Panel
    flush moment (g, p) =
        let emptied = record g { pending = 0 } in
        let settled = settle moment g.pending (emptied, p) in
        if ltb 0 g.pending then (if g.ok then settled else (emptied, p)) else (g, p)
