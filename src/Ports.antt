-- ===== src/Ports.antt =====
-- port_manager.py: the listeners of the links that have a port of their own, and their
-- reconstruction from the links. What the operating system answers is a parameter.
pub mod Free
pub mod Sync
mod Tests
use rvg_sever.Prelude.{
  ℕ, zero, suc, ◌+◌, ◌-◌, List, [], ◌∷◌, Bool, true, false, ◌==◌, ◌&&◌, ◌||◌, not, if◌then◌else◌,
  Option, none, some, is_some, Key, Dict, get, put, remove,
}
use rvg_sever.Wire.Text.{Text}

-- The protocols that the port manager tells apart, and whether a core of its own serves the link.
pub data Protocol : Type 0 where
  vmess_tcp shadowsocks_tcp mtproto other : Protocol

pub data Core : Type 0 where
  unicorn external : Core

pub record PortLink : Type 0 where
  pub core : Core
  pub protocol : Protocol
  pub active : Bool
  pub listen_port : ℕ

pub data Kind : Type 0 where
  vmess ss : Kind

-- What listens on a port: the application, or a TCP server of a kind for a uuid.
pub data Listener : Type 0 where
  http : Listener
  tcp : Kind → Text → Listener

-- Why the last attempt for a port failed.
pub data Failure : Type 0 where
  occupied failed : Failure

-- `_uvicorn_servers`, `_tcp_servers` and `port_errors`
pub record Ports : Type 0 where
  pub uvicorn_servers : Dict ℕ Listener
  pub tcp_servers : Dict ℕ Listener
  pub port_errors : Dict ℕ Failure

-- The other processes' ports, and whether a server that may bind comes up.
pub record System : Type 0 where
  pub is_free : ℕ → Bool
  pub comes_up : ℕ → Bool

unfoldable pub tcp_kind : Protocol → Option Kind
tcp_kind vmess_tcp = some vmess
tcp_kind shadowsocks_tcp = some ss
tcp_kind mtproto = none
tcp_kind other = none

abbrev pub is_external : Core → Bool
is_external unicorn = false
is_external external = true

abbrev pub is_mtproto : Protocol → Bool
is_mtproto mtproto = true
is_mtproto _ = false

-- A link that this process serves on a port of its own.
abbrev pub is_served_here : ℕ → PortLink → Bool
is_served_here panel_port d =
    d.active
    && (not (is_external d.core)
        && (not (is_mtproto d.protocol)
            && (not (d.listen_port == 0) && not (d.listen_port == panel_port))))

module _ ⦃by_port : Key ℕ⦄ where
  -- port in d
  abbrev pub has : {V : Type 0} → ℕ → Dict ℕ V → Bool
  has port d = is_some (get port d)

  unfoldable pub is_port_listening : ℕ → Ports → Bool
  is_port_listening port s = has port s.uvicorn_servers || has port s.tcp_servers

  -- `_port_free`: a port that this process listens on is not free either.
  unfoldable pub port_free : System → ℕ → Ports → Bool
  unfolding is_port_listening
  port_free w port s = w.is_free port && not (is_port_listening port s)

  unfoldable pub start_uvicorn_port : System → ℕ → Ports → Bool × Ports
  unfolding port_free
  start_uvicorn_port w port s =
      if has port s.uvicorn_servers
      then (true, s)
      else if not (port_free w port s)
      then (false, record s { port_errors = put port occupied s.port_errors })
      else if w.comes_up port
      then (
        true,
        record s {
          uvicorn_servers = put port http s.uvicorn_servers;
          port_errors = remove port s.port_errors;
        },
      )
      else (false, record s { port_errors = put port failed s.port_errors })

  unfoldable pub stop_uvicorn_port : ℕ → Ports → Bool × Ports
  stop_uvicorn_port port s =
      if has port s.uvicorn_servers
      then (true, record s { uvicorn_servers = remove port s.uvicorn_servers })
      else (false, s)

  unfoldable pub start_tcp_port : System → ℕ → Listener → Ports → Bool × Ports
  unfolding port_free
  start_tcp_port w port server s =
      if has port s.tcp_servers
      then (true, s)
      else if not (port_free w port s)
      then (false, record s { port_errors = put port occupied s.port_errors })
      else if w.comes_up port
      then (
        true,
        record s {
          tcp_servers = put port server s.tcp_servers;
          port_errors = remove port s.port_errors;
        },
      )
      else (false, record s { port_errors = put port failed s.port_errors })

  unfoldable pub stop_tcp_port : ℕ → Ports → Bool × Ports
  stop_tcp_port port s =
      if has port s.tcp_servers
      then (true, record s { tcp_servers = remove port s.tcp_servers })
      else (false, s)

  -- `_sync_link`
  unfoldable pub sync_tcp_link : System → Kind → PortLink → Text → ℕ → Ports → Ports
  unfolding start_tcp_port stop_tcp_port
  sync_tcp_link w kind link uid panel_port s =
      let port = link.listen_port in
      if link.active && (not (port == 0) && not (port == panel_port))
      then (start_tcp_port w port (tcp kind uid) s).1
      else (stop_tcp_port port s).1

  unfoldable pub sync_http_link : System → PortLink → ℕ → Ports → Ports
  unfolding start_uvicorn_port
  sync_http_link w link panel_port s =
      let port = link.listen_port in
      if not (port == 0) && not (port == panel_port) && link.active
      then (start_uvicorn_port w port s).1
      else s

  unfoldable pub sync_by_kind : System → Option Kind → PortLink → Text → ℕ → Ports → Ports
  unfolding sync_tcp_link sync_http_link
  sync_by_kind w (some kind) link uid panel_port s = sync_tcp_link w kind link uid panel_port s
  sync_by_kind w none link uid panel_port s = sync_http_link w link panel_port s

  unfoldable pub sync_link : System → PortLink → Text → ℕ → Ports → Ports
  unfolding sync_by_kind tcp_kind
  sync_link w link uid panel_port s =
      if is_external link.core || is_mtproto link.protocol
      then s
      else sync_by_kind w (tcp_kind link.protocol) link uid panel_port s

  -- The ports that the links want: for the application, and for TCP servers.
  pub record Needed : Type 0 where
    pub needed_http : Dict ℕ Listener
    pub needed_tcp : Dict ℕ Listener

  unfoldable pub want : Option Kind → ℕ → Text → Needed → Needed
  want (some kind) port uid n = record n { needed_tcp = put port (tcp kind uid) n.needed_tcp }
  want none port uid n = record n { needed_http = put port http n.needed_http }

  unfoldable pub needed : ℕ → List (Text × PortLink) → Needed → Needed
  unfolding want tcp_kind
  needed panel_port [] n = n
  needed panel_port ((uid, d) ∷ links) n =
      let n' = want (tcp_kind d.protocol) d.listen_port uid n in
      needed panel_port links (if is_served_here panel_port d then n' else n)

  -- for port in list(d.keys())
  abbrev pub keys : {V : Type 0} → Dict ℕ V → List ℕ
  keys [] = []
  keys ((port, _) ∷ d) = port ∷ keys d

  unfoldable pub stop_unused_tcp : Dict ℕ Listener → List ℕ → Ports → Ports
  unfolding stop_tcp_port
  stop_unused_tcp wanted [] s = s
  stop_unused_tcp wanted (port ∷ ports) s =
      stop_unused_tcp wanted ports (if has port wanted then s else (stop_tcp_port port s).1)

  unfoldable pub stop_unused_uvicorn : Dict ℕ Listener → List ℕ → Ports → Ports
  unfolding stop_uvicorn_port
  stop_unused_uvicorn wanted [] s = s
  stop_unused_uvicorn wanted (port ∷ ports) s =
      stop_unused_uvicorn wanted ports (if has port wanted then s else (stop_uvicorn_port port s).1)

  unfoldable pub start_all_tcp : System → Dict ℕ Listener → Ports → Ports
  start_all_tcp w [] s = s
  start_all_tcp w ((port, server) ∷ wanted) s =
      start_all_tcp w wanted (start_tcp_port w port server s).1

  unfoldable pub start_all_uvicorn : System → Dict ℕ Listener → Ports → Ports
  start_all_uvicorn w [] s = s
  start_all_uvicorn w ((port, _) ∷ wanted) s =
      start_all_uvicorn w wanted (start_uvicorn_port w port s).1

  unfoldable pub restore : System → Needed → Ports → Ports
  unfolding stop_unused_tcp stop_unused_uvicorn
  restore w n s =
      let s1 = stop_unused_tcp n.needed_tcp (keys s.tcp_servers) s in
      let s2 = stop_unused_uvicorn n.needed_http (keys s1.uvicorn_servers) s1 in
      start_all_uvicorn w n.needed_http (start_all_tcp w n.needed_tcp s2)

  -- The ports to serve are in the order of the links, where the code has a set without an order.
  unfoldable pub sync_all : System → List (Text × PortLink) → ℕ → Ports → Ports
  unfolding needed
  sync_all w links panel_port s =
      restore w (needed panel_port links (record { needed_http = []; needed_tcp = [] })) s

  -- `find_free_port`, for the ports `start`, `start + 1`, … , `count` of them
  unfoldable pub find_from : System → (ℕ → Bool) → ℕ → ℕ → Ports → Option ℕ
  unfolding port_free is_port_listening
  find_from w exclude start zero s = none
  find_from w exclude start (suc count) s =
      let rest = find_from w exclude (start + 1) count s in
      if exclude start || is_port_listening start s
      then rest
      else if port_free w start s
      then some start
      else rest

  unfoldable pub find_free_port : System → (ℕ → Bool) → ℕ → ℕ → Ports → Option ℕ
  unfolding find_from
  find_free_port w exclude start end s = find_from w exclude start (end - start) s
