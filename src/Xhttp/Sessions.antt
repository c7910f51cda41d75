-- ===== src/Xhttp/Sessions.antt =====
-- The sessions of protocol/vless/xhttp_core.py: `xhttp_sessions`, `connections` and the session objects,
-- which handlers hold on to while they wait. A handler is cut where it waits: an object may be torn down
-- in between. `spawn`, tasks and logs are left out.
pub mod Live
pub mod Steps
pub mod Runs
pub mod Reaping
use rvg_sever.Prelude.{
  ℕ, ◌+◌, ◌-◌, List, [], ◌∷◌, ◌++◌, Bool, true, false, ltb, leb, ◌==◌, not, ◌&&◌, if◌then◌else◌,
  Option, none, some, Key, Dict, get, put, remove, length, map,
}
use rvg_sever.Wire.{Bytes}
use rvg_sever.Wire.Text.{Text}
use rvg_sever.Xhttp.{
  Writer, Session, new_session, Upload, stored, kept, connecting, broken, receive, connected,
}

-- An entry of `connections`.
pub record Connection : Type 0 where
  pub uuid : Text
  pub ip : Text
  pub bytes : ℕ
  pub transport : Text

-- The tables, and the session objects by their `conn_id`, which no two of them share.
pub record Server : Type 0 where
  pub sessions : Dict Text Text
  pub objects : Dict Text Session
  pub connections : Dict Text Connection

-- What a handler answers; it may also wait for its destination, or end in a KeyError.
pub data Reply : Type 0 where
  fine waiting key_error : Reply
  http_error : ℕ → Reply

abbrev pub downlink_queue_max : ℕ
downlink_queue_max = 512

abbrev pub closing : Option Writer → Option Writer
closing none = none
closing (some w) = some (record w { closing = true })

-- `put_nowait` into a queue that is full is given up.
abbrev pub put_nowait : Option Bytes → List (Option Bytes) → List (Option Bytes)
put_nowait x q = if ltb (length q) downlink_queue_max then q ++ (x ∷ []) else q

-- The object as `_teardown` leaves it.
unfoldable pub shut : Session → Session
shut s = record s { closed = true; writer = closing s.writer; down_q = put_nowait none s.down_q }

unfoldable pub is_idle : ℕ → Session → Bool
is_idle now s = let idle = now - s.last_seen in if s.tcp_open then ltb 90 idle else ltb 30 idle

-- "packet-up"
abbrev pub packet_up : Text
packet_up = b'p' ∷ b'a' ∷ b'c' ∷ b'k' ∷ b'e' ∷ b't' ∷ b'-' ∷ b'u' ∷ b'p' ∷ []

-- f"xhttp-{mode}"
abbrev pub transport_of : Text → Text
transport_of mode = b'x' ∷ b'h' ∷ b't' ∷ b't' ∷ b'p' ∷ b'-' ∷ mode

abbrev pub new_connection : Text → Text → Text → Connection
new_connection uuid mode ip = record {
  uuid = uuid;
  ip = ip;
  bytes = 0;
  transport = transport_of mode;
}

module _ ⦃by_text : Key Text⦄ ⦃by_seq : Key ℕ⦄ where
  abbrev pub set_object : Text → Session → Server → Server
  set_object ref s v = record v { objects = put ref s v.objects }

  abbrev pub create : Text → Text → Text → Text → ℕ → Text → Server → Server
  create uuid mode sid ip now conn_id v = record {
    sessions = put sid conn_id v.sessions;
    objects = put conn_id (new_session uuid mode conn_id now) v.objects;
    connections = put conn_id (new_connection uuid mode ip) v.connections;
  }

  abbrev pub touch : ℕ → Text → Option Session → Server → Server
  touch now ref none v = v
  touch now ref (some s) v = set_object ref (record s { last_seen = now }) v

  abbrev pub get_or_create :
      Text → Text → Text → Text → ℕ → Text → Option Text → Server → Text × Server
  get_or_create uuid mode sid ip now conn_id (some ref) v =
      (ref, touch now ref (get ref v.objects) v)
  get_or_create uuid mode sid ip now conn_id none v =
      (conn_id, create uuid mode sid ip now conn_id v)

  -- `conn_id` is the token that is drawn for a new session.
  unfoldable pub get_or_create_session :
      Text → Text → Text → Text → ℕ → Text → Server → Text × Server
  get_or_create_session uuid mode sid ip now conn_id v =
      get_or_create uuid mode sid ip now conn_id (get sid v.sessions) v

  abbrev pub shut_object : Text → Option Session → Server → Server
  shut_object ref none v = v
  shut_object ref (some s) v = record v {
    objects = put ref (shut s) v.objects;
    connections = remove s.conn_id v.connections;
  }

  abbrev pub teardown_of : Text → Option Text → Server → Server
  teardown_of sid none v = v
  teardown_of sid (some ref) v =
      shut_object ref (get ref v.objects) (record v { sessions = remove sid v.sessions })

  -- One step: no handler runs at the awaits of the tasks and of the writer in it.
  unfoldable pub teardown : Text → Server → Server
  teardown sid v = teardown_of sid (get sid v.sessions) v

  abbrev pub is_idle_object : ℕ → Option Session → Bool
  is_idle_object now none = false
  is_idle_object now (some s) = is_idle now s

  -- The object that a session id stands for.
  abbrev pub object_of : Option Text → Server → Option Session
  object_of none v = none
  object_of (some ref) v = get ref v.objects

  -- The sessions that a turn of `_reaper` finds, and the turn.
  unfoldable pub stale : ℕ → Dict Text Text → Server → List Text
  unfolding is_idle
  stale now [] v = []
  stale now ((sid, _) ∷ d) v =
      let rest = stale now d v in
      if is_idle_object now (object_of (get sid v.sessions) v) then sid ∷ rest else rest

  unfoldable pub teardown_all : List Text → Server → Server
  unfolding teardown
  teardown_all [] v = v
  teardown_all (sid ∷ sids) v = teardown_all sids (teardown sid v)

  unfoldable pub reap : ℕ → Server → Server
  unfolding stale teardown_all
  reap now v = teardown_all (stale now v.sessions v) v

  -- A handler goes on with the object that it holds.
  abbrev pub with_object : Option Session → Server → (Session → Reply × Server) → Reply × Server
  with_object none v next = (key_error, v)
  with_object (some s) v next = next s

  -- `packet_up_upload` up to the wait for the body: the object that it holds, and whether it goes on.
  abbrev pub hold : ℕ → Text → Server → Reply × Server
  hold now ref v = with_object (get ref v.objects) v λ s.
      if s.closed
      then (http_error 404, v)
      else (fine, set_object ref (record s { last_seen = now }) v)

  unfoldable pub begin_packet : Text → Text → Text → ℕ → Text → Server → Text × Reply × Server
  unfolding get_or_create_session
  begin_packet uuid sid ip now conn_id v =
      let (ref, v') = get_or_create_session uuid packet_up sid ip now conn_id v in
      let (reply, v2) = hold now ref v' in (ref, reply, v2)

  abbrev pub count_bytes : ℕ → Connection → Connection
  count_bytes n c = record c { bytes = c.bytes + n }

  -- How an upload ends; a failure tears the session down.
  abbrev pub settle : Text → Text → Upload → Server → Reply × Server
  settle sid ref (stored s) v = (fine, set_object ref s v)
  settle sid ref (kept s) v = (fine, set_object ref s v)
  settle sid ref (connecting s) v = (waiting, v)
  settle sid ref (broken s) v = (http_error 502, teardown sid (set_object ref s v))

  abbrev pub count :
      Text → ℕ → Option Connection → Server → (Server → Reply × Server) → Reply × Server
  count conn_id n none v next = (key_error, v)
  count conn_id n (some c) v next =
      next (record v { connections = put conn_id (count_bytes n c) v.connections })

  -- `packet_up_upload` behind the gate's answer, which is any.
  unfoldable pub finish_packet : Text → Text → Bool → ℕ → Bytes → Server → Reply × Server
  unfolding receive teardown
  finish_packet sid ref allowed seq [] v = (fine, v)
  finish_packet sid ref allowed seq (b ∷ bs) v =
      let body = b ∷ bs in
      if not allowed
      then (http_error 403, teardown sid v)
      else with_object (get ref v.objects) v λ s.
        count s.conn_id (length body) (get s.conn_id v.connections) v
          λ v'. settle sid ref (receive seq body s) v'

  -- `packet_up_upload` behind `_open_tcp_for_session`: the destination's writer, or its failure.
  unfoldable pub connect_packet : Text → Text → Option Writer → Server → Reply × Server
  unfolding connected teardown
  connect_packet sid ref none v = (http_error 502, teardown sid v)
  connect_packet sid ref (some w) v =
      with_object (get ref v.objects) v λ s. settle sid ref (connected w s) v
