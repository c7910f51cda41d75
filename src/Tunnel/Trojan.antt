-- ===== src/Tunnel/Trojan.antt =====
-- The WebSocket tunnel of Trojan: `trojan_ws_tunnel` of protocol/trojan/websocket.py, whose relays are those of
-- VLESS without the answer's two bytes. The user is the one that the hash in the header stands for.
pub mod Delivery
use rvg_sever.Prelude.{
  ℕ, ◌+◌, List, [], ◌∷◌, Bool, true, false, Option, none, some, Key, length, Result, ok, err,
}
use rvg_sever.Wire.{Bytes}
use rvg_sever.Wire.Text.{Text}
use rvg_sever.Links.{Moment, check_and_use}
use rvg_sever.Links.Hashes.{HashCache, Authorized, resolve_and_authorize}
use rvg_sever.Tunnel.{
  Message, disconnect, received, Turn, Stats, Outcome, stopped, relays, not_authorized, left,
  over_quota, failed, count_error, opened, relay_turns, run_outcome,
}

module _ {Rate : Type 0} (zero_rate : Rate) (target_of : Rate → ℕ) (trojan_hash : Text → Text)
    (connects : Text → ℕ → Bool) ⦃by_uuid : Key Text⦄ ⦃by_hour : Key ℕ⦄ where
  abbrev pub connect_user : Authorized → Stats → Outcome Rate
  connect_user a s = elim (connects a.address a.port) [
    | true ↦ relays (opened zero_rate target_of false a.uuid a.consumed a.payload s)
    | false ↦ stopped failed (count_error (record s { total_requests = s.total_requests + 1 }))
  ]

  abbrev pub charge_user : Moment → Option Authorized → Stats → Outcome Rate
  charge_user moment none s = stopped not_authorized s
  charge_user moment (some a) s =
      let (answer, panel) = check_and_use moment a.uuid a.consumed s.panel in
      elim answer [
        | true ↦ connect_user a (record s { panel = panel })
        | false ↦ stopped over_quota (record s { panel = panel })
      ]

  abbrev pub resolved :
      Moment → Result (Option Authorized × HashCache) → HashCache → Stats → Outcome Rate × HashCache
  resolved moment (err problem) c s = (stopped failed (count_error s), c)
  resolved moment (ok (found, c')) c s = (charge_user moment found s, c')

  -- The first message, or none in time.
  unfoldable pub open_trojan :
      Moment → Moment → Option Message → HashCache → Stats → Outcome Rate × HashCache
  unfolding opened check_and_use resolve_and_authorize
  open_trojan start moment none c s = (stopped failed (count_error s), c)
  open_trojan start moment (some disconnect) c s = (stopped left s, c)
  open_trojan start moment (some (received [])) c s = (stopped left s, c)
  open_trojan start moment (some (received (b ∷ bs))) c s =
      let chunk = b ∷ bs in
      resolved moment (resolve_and_authorize trojan_hash start.now s.panel.links chunk c) c s

  unfoldable pub trojan_ws_tunnel :
      Moment
      → Moment
      → Option Message
      → List (Turn Rate)
      → Moment
      → Moment
      → HashCache
      → Stats
      → Outcome Rate × HashCache
  unfolding open_trojan relay_turns
  trojan_ws_tunnel start moment first turns flush1 flush2 c s =
      let (outcome, c') = open_trojan start moment first c s in
      (run_outcome zero_rate target_of turns flush1 flush2 outcome, c')
