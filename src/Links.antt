-- ===== src/Links.antt =====
-- The links of main.py as the protocols see them: `is_link_expired`, `is_link_allowed`, and the
-- accounting of `check_and_use` of protocol/vless/vless.py.
pub mod Accounts
pub mod Quota
pub mod Hashes
mod Tests
use rvg_sever.Wire.Text.{Text}
use rvg_sever.Prelude.{
  ℕ, ◌+◌, ◌<◌, ◌≤◌, Bool, true, false, ltb, leb, ◌&&◌, not, if◌then◌else◌, Option, none, some, Key,
  Dict, get, put,
}

-- link["expires_at"]: a time, or a text that `fromisoformat` rejects.
pub data Expiry : Type 0 where
  never unreadable : Expiry
  at : ℕ → Expiry

pub record Link : Type 0 where
  pub active : Bool
  pub expires_at : Expiry
  pub limit_bytes : ℕ
  pub used_bytes : ℕ

unfoldable pub is_link_expired : ℕ → Link → Bool
is_link_expired now link = elim link.expires_at [
  | never ↦ false
  | at time ↦ ltb time now
  | unreadable ↦ false
]

unfoldable pub is_allowed : ℕ → Link → Bool
unfolding is_link_expired
is_allowed now link =
    if not link.active
    then false
    else if is_link_expired now link
    then false
    else if ltb 0 link.limit_bytes && leb link.limit_bytes link.used_bytes
    then false
    else true

unfoldable pub is_link_allowed : ℕ → Option Link → Bool
is_link_allowed now none = false
is_link_allowed now (some link) = is_allowed now link

-- LINKS, stats["total_bytes"] and hourly_traffic, by uuid and by hour.
pub record Panel : Type 0 where
  pub links : Dict Text Link
  pub total_bytes : ℕ
  pub hourly : Dict ℕ ℕ

abbrev pub or_zero : Option ℕ → ℕ
or_zero none = 0
or_zero (some n) = n

-- The time and the hour at which a call runs.
pub record Moment : Type 0 where
  pub now : ℕ
  pub hour : ℕ

module _ ⦃by_uuid : Key Text⦄ ⦃by_hour : Key ℕ⦄ where
  -- The additions of `check_and_use`.
  unfoldable pub use_bytes : Moment → Text → Link → ℕ → Panel → Panel
  use_bytes moment uid link n p = record {
    links = put uid (record link { used_bytes = link.used_bytes + n }) p.links;
    total_bytes = p.total_bytes + n;
    hourly = put moment.hour (or_zero (get moment.hour p.hourly) + n) p.hourly;
  }

  unfoldable pub charge : Moment → Text → ℕ → Option Link → Panel → Bool × Panel
  charge moment uid n none p = (false, p)
  charge moment uid n (some link) p =
      if is_link_allowed moment.now (some link)
      then (true, use_bytes moment uid link n p)
      else (false, p)

  unfoldable pub check_and_use : Moment → Text → ℕ → Panel → Bool × Panel
  check_and_use moment uid n p = charge moment uid n (get uid p.links) p
