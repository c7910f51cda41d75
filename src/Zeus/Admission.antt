-- ===== src/Zeus/Admission.antt =====
-- The limits of zeussocks5.py and its counters of connections by address: the start and the end of
-- `_handle_client`.
pub mod Counts
use rvg_sever.Prelude.{
  ℕ, zero, suc, ◌+◌, ◌-◌, ◌*◌, ◌<◌, ◌≤◌, List, [], ◌∷◌, Bool, true, false, ltb, leb, ◌==◌, ◌&&◌,
  ◌||◌, not, if◌then◌else◌, Option, none, some, Key, Dict, get, put, remove, max,
}
use rvg_sever.Wire.Text.{Text}

-- `zeus_proxy_state` and `_connections_by_ip`; `traffic_limit` is the limit in bytes, rounded up, and
-- `created_at` that of `result`.
pub record Proxy : Type 0 where
  pub max_connections_per_ip : ℕ
  pub traffic_limit : ℕ
  pub expires_days : ℕ
  pub created_at : Option ℕ
  pub bytes_used : ℕ
  pub active_connections : ℕ
  pub connections_by_ip : Dict Text ℕ

unfoldable pub is_older : ℕ → ℕ → Option ℕ → Bool
is_older now expires_days none = false
is_older now expires_days (some created_at) =
    if expires_days == 0 then false else ltb (expires_days * 86400) (now - created_at)

unfoldable pub is_expired : ℕ → Proxy → Bool
unfolding is_older
is_expired now p = is_older now p.expires_days p.created_at

unfoldable pub is_traffic_exceeded : Proxy → Bool
is_traffic_exceeded p = if p.traffic_limit == 0 then false else leb p.traffic_limit p.bytes_used

-- What `delete_zeus_proxy` makes of it; `_auto_delete` calls that.
unfoldable pub clear : Proxy → Proxy
clear p = record p {
  created_at = none;
  bytes_used = 0;
  active_connections = 0;
  connections_by_ip = [];
}

abbrev pub or_default : ℕ → Option ℕ → ℕ
or_default n none = n
or_default n (some m) = m

module _ ⦃by_ip : Key Text⦄ where
  -- Whether a connection is accepted, and the counters then.
  unfoldable pub admit : ℕ → Text → Proxy → Bool × Proxy
  admit now peer_ip p =
      let count = or_default 0 (get peer_ip p.connections_by_ip) in
      if is_expired now p
      then (false, p)
      else if is_traffic_exceeded p
      then (false, p)
      else if not (p.max_connections_per_ip == 0) && leb p.max_connections_per_ip count
      then (false, p)
      else (
        true,
        record p {
          connections_by_ip = put peer_ip (count + 1) p.connections_by_ip;
          active_connections = p.active_connections + 1;
        },
      )

  -- The end of an accepted connection; with whether the end starts a task of `_auto_delete`.
  unfoldable pub release : ℕ → Text → Proxy → Bool × Proxy
  release now peer_ip p =
      let count = or_default 1 (get peer_ip p.connections_by_ip) - 1 in
      let p' = record p {
        connections_by_ip =
            if count == 0
            then remove peer_ip p.connections_by_ip
            else put peer_ip count p.connections_by_ip;
        active_connections = p.active_connections - 1;
      } in
      (is_traffic_exceeded p' || is_expired now p', p')
