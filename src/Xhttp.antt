-- ===== src/Xhttp.antt =====
-- The XHTTP transport of protocol/vless/xhttp_core.py and protocol/vless/xhttshadpacketup.py: the
-- session of a client, the high-water mark of its writer, and the packets that arrive in any order.
pub mod Packets
pub mod Sessions
mod Tests
use rvg_sever.Prelude.{
  ℕ, zero, suc, ◌+◌, ◌*◌, ◌/◌, List, [], ◌∷◌, ◌++◌, Bool, true, false, ltb, ◌==◌, if◌then◌else◌,
  Option, none, some, Key, Dict, get, put, remove, length, min, max,
}
use rvg_sever.Wire.{Bytes}
use rvg_sever.Wire.Text.{Text}

-- The transport of a destination: what was written to it, and whether it is closing.
pub record Writer : Type 0 where
  pub out : Bytes
  pub closing : Bool

unfoldable pub write : Bytes → Writer → Writer
write bs w = record w { out = w.out ++ bs }

-- A session without its tasks and its gate; `down_q` holds chunks and the end, `none`.
pub record Session : Type 0 where
  pub uuid : Text
  pub mode : Text
  pub conn_id : Text
  pub writer : Option Writer
  pub down_q : List (Option Bytes)
  pub last_seen : ℕ
  pub tcp_open : Bool
  pub closed : Bool
  pub seq_buf : Dict ℕ Bytes
  pub next_seq : ℕ

unfoldable pub new_session : Text → Text → Text → ℕ → Session
new_session uuid mode conn_id now = record {
  uuid = uuid;
  mode = mode;
  conn_id = conn_id;
  writer = none;
  down_q = [];
  last_seen = now;
  tcp_open = false;
  closed = false;
  seq_buf = [];
  next_seq = 0;
}

abbrev pub flow_min_hw : ℕ
flow_min_hw = 256 * 1024

abbrev pub flow_max_hw : ℕ
flow_max_hw = 32 * 1024 * 1024

abbrev pub flow_start_hw : ℕ
flow_start_hw = 2 * 1024 * 1024

-- `_AdaptiveFlow.drain`: the next mark by the time that a drain took, in nanoseconds.
unfoldable pub next_high_water : ℕ → ℕ → ℕ
next_high_water elapsed high_water =
    if ltb elapsed 12000000
    then min flow_max_hw (high_water * 2 + 65536)
    else if ltb 40000000 elapsed
    then max flow_min_hw (high_water / 2)
    else high_water

unfoldable pub should_drain : ℕ → ℕ → Bool
should_drain buf_size high_water = ltb high_water buf_size

-- What an upload comes to: it is done, it waits for its destination, or its transport failed.
pub data Upload : Type 0 where
  stored kept connecting broken : Session → Upload

module _ ⦃by_seq : Key ℕ⦄ where
  -- The loop that writes the packets which are next in turn, on fuel: whether the transport stayed open,
  -- the number of the next packet, those that wait, and the writer.
  unfoldable pub drain_buffer : ℕ → ℕ → Dict ℕ Bytes → Writer → Bool × ℕ × Dict ℕ Bytes × Writer
  unfolding write
  drain_buffer zero nxt buf w = (true, nxt, buf, w)
  drain_buffer (suc fuel) nxt buf w = elim (get nxt buf) [
    | none ↦ (true, nxt, buf, w)
    | some pending ↦ elim w.closing [
      | true ↦ (false, nxt, remove nxt buf, w)
      | false ↦ drain_buffer fuel (nxt + 1) (remove nxt buf) (write pending w)
    ]
  ]

  abbrev pub wait_for : ℕ → Bytes → Session → Session
  wait_for seq body s = record s { seq_buf = put seq body s.seq_buf }

  -- A packet that is next in turn, and all that it lets through.
  unfoldable pub advance : Bytes → Writer → Session → Upload
  unfolding drain_buffer
  advance body w s =
      let (ok, nxt, buf, w') =
        drain_buffer (length s.seq_buf) (s.next_seq + 1) s.seq_buf (write body w) in
      let s' = record s { next_seq = nxt; seq_buf = buf; writer = some w' } in
      if w.closing then broken s else if ok then stored s' else broken s'

  -- A packet on a session without a writer, or with one.
  unfoldable pub receive_by : Option Writer → ℕ → Bytes → Session → Upload
  unfolding advance
  receive_by none seq body s = if seq == 0 then connecting s else kept (wait_for seq body s)
  receive_by (some w) seq body s =
      if seq == s.next_seq then advance body w s else stored (wait_for seq body s)

  unfoldable pub receive : ℕ → Bytes → Session → Upload
  unfolding receive_by
  receive seq body s = receive_by s.writer seq body s

  -- The destination is connected: `w` is its writer, with the payload behind the header of packet 0.
  unfoldable pub connected : Writer → Session → Upload
  unfolding drain_buffer
  connected w s =
      let (ok, nxt, buf, w') = drain_buffer (length s.seq_buf) 1 s.seq_buf w in
      let s' = record s { writer = some w'; tcp_open = true; seq_buf = buf } in
      if ok then stored (record s' { next_seq = nxt }) else broken s'
