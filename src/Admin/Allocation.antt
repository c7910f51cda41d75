-- ===== src/Admin/Allocation.antt =====
-- `_allocate_listen_port` of main.py.
pub mod Distinct
use rvg_sever.Prelude.{
  ℕ, Bool, true, false, not, ◌==◌, ◌&&◌, ◌||◌, leb, if◌then◌else◌, Option, none, some, Key, Dict,
  Result, ok, err, http_error, of_option,
}
use rvg_sever.Wire.Text.{Text}
use rvg_sever.Wire.Strings.{is_one_of}
use rvg_sever.Ports.{Ports, System, has, find_free_port, is_port_listening}
use rvg_sever.Admin.{
  Core, is_unicorn, Config, Admin, Settings, Requested, absent, unreadable, negative, number,
  has_port, own_port_protocols,
}

module _ ⦃by_port : Key ℕ⦄ where
  -- The ports in `used`.
  unfoldable pub is_used : Settings → Admin → ℕ → Bool
  unfolding has_port is_port_listening
  is_used c v p = has_port p v.links || is_port_listening p v.ports || p == c.port

  unfoldable pub pick : Settings → Admin → ℕ → Result ℕ
  unfolding is_used
  pick c v p =
      if not (leb 1 p && leb p 65535)
      then err (http_error 400)
      else if is_used c v p
      then err (http_error 409)
      else ok p

  unfoldable pub allocate_listen_port :
      System → Settings → Text → Requested → Core → Admin → Result ℕ
  unfolding pick find_free_port
  allocate_listen_port w c protocol (number p) core v = pick c v p
  allocate_listen_port w c protocol absent core v =
      if not (is_unicorn core) || is_one_of protocol own_port_protocols
      then of_option (find_free_port w (is_used c v) c.low c.high v.ports) (http_error 503)
      else ok 0
  allocate_listen_port w c protocol _ core v = err (http_error 400)
