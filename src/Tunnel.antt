-- ===== src/Tunnel.antt =====
-- The WebSocket tunnel of VLESS: `websocket_tunnel` of protocol/vless/websocket.py with the two relays of
-- protocol/vless/vless.py. A turn of a relay is one step, and the turns come in any order; what the
-- destination answers and the clock are arguments. The entry of `connections` is its number of bytes.
pub mod Trojan
pub mod Turns
pub mod Delivery
mod Tests
use rvg_sever.Prelude.{
  ℕ, ◌+◌, List, [], ◌∷◌, ◌++◌, Bool, true, false, not, if◌then◌else◌, Option, none, some, Key, get,
  length, Result, ok, err,
}
use rvg_sever.Wire.{Bytes}
use rvg_sever.Wire.Text.{Text}
use rvg_sever.Header.Vless.{VlessHeader, parse_vless_header}
use rvg_sever.Links.{Panel, Moment, is_link_allowed, check_and_use}
use rvg_sever.Links.Quota.{Instant}
use rvg_sever.Links.Quota.Sessions.{up, down, Relay, act, open_relay, close}

-- What `ws.receive` gives: the end, or the bytes of a message, which may be empty.
pub data Message : Type 0 where
  disconnect : Message
  received : Bytes → Message

-- A turn of `relay_ws_to_tcp`, or of `relay_tcp_to_ws`, where no bytes are the end.
pub data Turn (Rate : Type 0) : Type 0 where
  from_client : Instant Rate → Message → Turn Rate
  from_remote : Instant Rate → Bytes → Turn Rate

-- The panel with stats["total_requests"] and stats["total_errors"].
pub record Stats : Type 0 where
  pub panel : Panel
  pub total_requests : ℕ
  pub total_errors : ℕ

-- The relays of a connection, with what was written to the destination, the messages that were sent to the
-- client, and whether one of the relays is over.
pub record Tunnel (Rate : Type 0) : Type 0 where
  pub relay : Relay Rate
  pub total_requests : ℕ
  pub total_errors : ℕ
  pub counted : ℕ
  pub written : Bytes
  pub messages : List Bytes
  pub prefixes : Bool
  pub is_over : Bool

-- How a connection ends before it relays.
pub data Ending : Type 0 where
  not_authorized left over_quota failed : Ending

pub data Outcome (Rate : Type 0) : Type 0 where
  stopped : Ending → Stats → Outcome Rate
  relays : Tunnel Rate → Outcome Rate

abbrev pub count_error : Stats → Stats
count_error s = record s { total_errors = s.total_errors + 1 }

-- b"\x00\x00" in front of the first bytes that the client gets
abbrev pub framed : Bool → Bytes → Bytes
framed true chunk = 0 ∷ 0 ∷ chunk
framed false chunk = chunk

module _ {Rate : Type 0} (zero_rate : Rate) (target_of : Rate → ℕ) ⦃by_uuid : Key Text⦄
    ⦃by_hour : Key ℕ⦄ where
  -- Behind the gate, with its answer: the bytes are passed on, or the relay is over.
  abbrev pub pass_up : Bool → Bytes → Relay Rate → Tunnel Rate → Tunnel Rate
  pass_up false chunk r t = record t { relay = r; is_over = true }
  pass_up true chunk r t = record t {
    relay = r;
    total_requests = t.total_requests + 1;
    counted = t.counted + length chunk;
    written = t.written ++ chunk;
  }

  abbrev pub pass_down : Bool → Bytes → Relay Rate → Tunnel Rate → Tunnel Rate
  pass_down false chunk r t = record t { relay = r; is_over = true }
  pass_down true chunk r t = record t {
    relay = r;
    counted = t.counted + length chunk;
    messages = t.messages ++ (framed t.prefixes chunk ∷ []);
    prefixes = false;
  }

  unfoldable pub turn : Turn Rate → Tunnel Rate → Tunnel Rate
  unfolding act
  turn (from_client i disconnect) t = record t { is_over = true }
  turn (from_client i (received [])) t = t
  turn (from_client i (received (b ∷ bs))) t =
      let chunk = b ∷ bs in
      let r = act zero_rate target_of (up i (length chunk)) t.relay in pass_up r.upward.ok chunk r t
  turn (from_remote i []) t = record t { is_over = true }
  turn (from_remote i (b ∷ bs)) t =
      let chunk = b ∷ bs in
      let r = act zero_rate target_of (down i (length chunk)) t.relay in
      pass_down r.downward.ok chunk r t

  -- The turns up to the first end of a relay.
  unfoldable pub relay_turns : List (Turn Rate) → Tunnel Rate → Tunnel Rate
  unfolding turn
  relay_turns [] t = t
  relay_turns (e ∷ es) t = elim t.is_over [ true ↦ t | false ↦ relay_turns es (turn e t) ]

  -- The flushes of both gates, at the end of their relays: the upward one first, where the code takes the
  -- relay that ended first.
  abbrev pub close_tunnel : Moment → Moment → Tunnel Rate → Tunnel Rate
  close_tunnel first second t = record t { relay = close zero_rate target_of first second t.relay }

  -- The connection to the destination, with the bytes of the first message accounted. `prefixes` is
  -- `vless_prefix` of `relay_tcp_to_ws`.
  unfoldable pub opened : Bool → Text → ℕ → Bytes → Stats → Tunnel Rate
  opened prefixes uid nbytes payload s = record {
    relay = open_relay zero_rate target_of uid s.panel;
    total_requests = s.total_requests + 1;
    total_errors = s.total_errors;
    counted = nbytes;
    written = payload;
    messages = [];
    prefixes = prefixes;
    is_over = false;
  }

  abbrev pub connect_to : (Text → ℕ → Bool) → Text → ℕ → VlessHeader → Stats → Outcome Rate
  connect_to connects uid nbytes h s = elim (connects h.address h.port) [
    | true ↦ relays (opened true uid nbytes h.payload s)
    | false ↦ stopped failed (count_error (record s { total_requests = s.total_requests + 1 }))
  ]

  abbrev pub charge_first :
      (Text → ℕ → Bool) → Moment → Text → ℕ → Result VlessHeader → Stats → Outcome Rate
  charge_first connects moment uid nbytes (err problem) s = stopped failed (count_error s)
  charge_first connects moment uid nbytes (ok h) s =
      let (answer, panel) = check_and_use moment uid nbytes s.panel in
      elim answer [
        | true ↦ connect_to connects uid nbytes h (record s { panel = panel })
        | false ↦ stopped over_quota (record s { panel = panel })
      ]

  -- The first message, or none in time.
  abbrev pub read_first : (Text → ℕ → Bool) → Moment → Text → Option Message → Stats → Outcome Rate
  read_first connects moment uid none s = stopped failed (count_error s)
  read_first connects moment uid (some disconnect) s = stopped left s
  read_first connects moment uid (some (received [])) s = stopped left s
  read_first connects moment uid (some (received (b ∷ bs))) s =
      let chunk = b ∷ bs in
      charge_first connects moment uid (length chunk) (parse_vless_header chunk) s

  unfoldable pub open_tunnel :
      (Text → ℕ → Bool) → Moment → Moment → Text → Option Message → Stats → Outcome Rate
  unfolding opened is_link_allowed check_and_use parse_vless_header
  open_tunnel connects start moment uid first s =
      if not (is_link_allowed start.now (get uid s.panel.links))
      then stopped not_authorized s
      else read_first connects moment uid first s

  abbrev pub run_outcome : List (Turn Rate) → Moment → Moment → Outcome Rate → Outcome Rate
  run_outcome turns first second (stopped e s) = stopped e s
  run_outcome turns first second (relays t) =
      relays (close_tunnel first second (relay_turns turns t))

  -- The whole connection: its opening, the turns of its relays, and the two flushes.
  unfoldable pub websocket_tunnel :
      (Text → ℕ → Bool)
      → Moment
      → Moment
      → Text
      → Option Message
      → List (Turn Rate)
      → Moment
      → Moment
      → Stats
      → Outcome Rate
  unfolding open_tunnel relay_turns close
  websocket_tunnel connects start moment uid first turns flush1 flush2 s =
      run_outcome turns flush1 flush2 (open_tunnel connects start moment uid first s)
