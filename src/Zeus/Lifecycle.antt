-- ===== src/Zeus/Lifecycle.antt =====
-- The start and the end of the proxy in zeussocks5.py: `create_zeus_proxy`, `delete_zeus_proxy` and
-- `update_zeus_config`. The answers of the system are a parameter (Host). None of them ends the
-- connections that are open, as with asyncio before Python 3.12, whose `wait_closed` does not wait for them.
pub mod Restart
use rvg_sever.Prelude.{
  ℕ, ◌+◌, List, [], ◌∷◌, Bool, true, false, not, ◌==◌, ◌&&◌, leb, if◌then◌else◌, Option, none, some,
  Key, Dict, Result, ok, err, runtime_error,
}
use rvg_sever.Wire.Text.{Text}
use rvg_sever.Zeus.Admission.{Proxy, clear}

pub data Phase : Type 0 where
  idle starting done error : Phase

abbrev pub is_done : Phase → Bool
is_done done = true
is_done _ = false

-- `zeus_proxy_state`, `_creds` and the port of `_server`.
pub record Zeus : Type 0 where
  pub running : Bool
  pub phase : Phase
  pub user : Option Text
  pub password : Option Text
  pub server : Option ℕ
  pub proxy : Proxy

-- Which ports are free, the one that the system picks, what is drawn, and whether the server comes up.
pub record Host : Type 0 where
  pub is_free : ℕ → Bool
  pub picked : ℕ
  pub drawn_user : Text
  pub drawn_password : Text
  pub comes_up : ℕ → Bool

-- The limits of a request; a negative one is as 0.
pub record Limits : Type 0 where
  pub traffic_limit : Option ℕ
  pub expires_days : Option ℕ
  pub max_connections_per_ip : Option ℕ

abbrev pub or_kept : Option ℕ → ℕ → ℕ
or_kept none old = old
or_kept (some new) old = new

unfoldable pub set_limits : Limits → Proxy → Proxy
set_limits l p = record p {
  traffic_limit = or_kept l.traffic_limit p.traffic_limit;
  expires_days = or_kept l.expires_days p.expires_days;
  max_connections_per_ip = or_kept l.max_connections_per_ip p.max_connections_per_ip;
}

unfoldable pub update_zeus_config : Limits → Zeus → Zeus
unfolding set_limits
update_zeus_config l z = record z { proxy = set_limits l z.proxy }

unfoldable pub pick_free_port : Host → Option ℕ → Result ℕ
pick_free_port h none = ok h.picked
pick_free_port h (some port) =
    if port == 0
    then ok h.picked
    else if not (leb 1 port && leb port 65535)
    then err runtime_error
    else if not (h.is_free port)
    then err runtime_error
    else ok port

unfoldable pub delete_zeus_proxy : Zeus → Zeus
unfolding clear
delete_zeus_proxy z = record {
  running = false;
  phase = idle;
  user = none;
  password = none;
  server = none;
  proxy = clear z.proxy;
}

abbrev pub failed : Zeus → Zeus
failed z = record z { running = false; phase = error }

-- With the port; the credentials are drawn in front of the server's start.
abbrev pub serve_on : Host → ℕ → Result ℕ → Zeus → Result ℕ × Zeus
serve_on h now (err problem) z = (err problem, failed z)
serve_on h now (ok port) z =
    let z' = record z { user = some h.drawn_user; password = some h.drawn_password } in
    if h.comes_up port
    then (
      ok port,
      record z' {
        phase = done;
        server = some port;
        proxy = record z.proxy { created_at = some now };
      },
    )
    else (err runtime_error, failed z')

unfoldable pub create_zeus_proxy : Host → ℕ → Option ℕ → Limits → Zeus → Result ℕ × Zeus
unfolding delete_zeus_proxy set_limits pick_free_port
create_zeus_proxy h now listen_port l z =
    let z1 = if z.running && is_done z.phase then delete_zeus_proxy z else z in
    let z2 = record z1 {
      running = true;
      phase = starting;
      proxy = record (set_limits l z1.proxy) {
        bytes_used = 0;
        active_connections = 0;
        connections_by_ip = [];
      };
    } in
    serve_on h now (pick_free_port h listen_port) z2
