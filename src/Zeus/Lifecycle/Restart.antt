-- ===== src/Zeus/Lifecycle/Restart.antt =====
-- What a new start of the proxy does to the limit of connections.
use mathlib.Core.Path.{subst}
use rvg_sever.Prelude.{
  ℕ, zero, suc, ◌+◌, ◌-◌, ◌<◌, ◌≤◌, ◌≡◌, refl, sym, ap, ◌∙◌, arith, [], Bool, true, false, not,
  ◌==◌, ◌&&◌, leb, if◌then◌else◌, Option, some, Key, get, put, get-put, get-remove, if_pos,
  Bool-cases, inl, inr, Result, ok, err,
}
use rvg_sever.Wire.Text.{Text}
use rvg_sever.Zeus.Admission.{
  Proxy, clear, is_expired, is_traffic_exceeded, or_default, admit, release,
}
use rvg_sever.Zeus.Lifecycle.{
  Zeus, is_done, delete_zeus_proxy, Host, Limits, or_kept, set_limits, serve_on, pick_free_port,
  create_zeus_proxy,
}

-- The proxy with the open connections of one address: the ones from before its start, and those that it has
-- accepted since.
pub record Shared : Type 0 where
  pub proxy : Proxy
  pub older : ℕ
  pub newer : ℕ

module _ ⦃by_ip : Key Text⦄ where
  -- A connection of the address arrives.
  pub attempt : ℕ → Text → Shared → Shared
  attempt now ip s =
      let (accepted, p) = admit now ip s.proxy in
      record s { proxy = p; newer = if accepted then s.newer + 1 else s.newer }

  pub attempts : ℕ → ℕ → Text → Shared → Shared
  attempts zero now ip s = s
  attempts (suc n) now ip s = attempts n now ip (attempt now ip s)

  -- A connection from before the start ends, if one is open; the deletion that this starts runs at once.
  pub older_ends : ℕ → Text → Shared → Shared
  older_ends now ip s =
      let (deletes, p) = release now ip s.proxy in
      if s.older == 0
      then s
      else record s { proxy = if deletes then clear p else p; older = s.older - 1 }

  -- A proxy that is neither expired nor used up, with `m` connections of an address at most, of which it
  -- counts `k`.
  record IsReady (now m k : ℕ) (ip : Text) (p : Proxy) : Type 0 where
    fresh : is_expired now p ≡ false
    unused : is_traffic_exceeded p ≡ false
    limit : p.max_connections_per_ip ≡ m
    counted : or_default 0 (get ip p.connections_by_ip) ≡ k

  -- The proxy that has accepted a connection of the address, and counts `n` of them.
  abbrev counting : ℕ → Text → ℕ → Proxy → Proxy
  counting n ip active p = record p {
    connections_by_ip = put ip n p.connections_by_ip;
    active_connections = active;
  }

  counting-IsReady :
      (now m k n active : ℕ) (ip : Text) (p : Proxy)
      → IsReady now m k ip p
      → IsReady now m n ip (counting n ip active p)
  unfolding is_expired is_traffic_exceeded
  counting-IsReady now m k n active ip p h = record {
    fresh = h.fresh;
    unused = h.unused;
    limit = h.limit;
    counted = ap (or_default 0) (
        get-put ip ip n p.connections_by_ip
        ∙ if_pos (by_ip.dec ip ip) refl (some n) (get ip p.connections_by_ip));
  }

  has_room : (m k : ℕ) → k < m → (not (m == 0) && leb m k) ≡ false
  has_room m k room = ground (arith, room)

  admit-eq :
      (now m k : ℕ) (ip : Text) (p : Proxy)
      → k < m
      → IsReady now m k ip p
      → admit now ip p ≡ (true, counting (k + 1) ip (p.active_connections + 1) p)
  unfolding admit
  admit-eq now m k ip p room h = rw (h.fresh, h.unused, h.limit, h.counted, has_room m k room)

  -- The proxy is ready with `k` connections counted, and so many are open.
  record Reached (now m k older newer : ℕ) (ip : Text) (s : Shared) : Type 0 where
    ready : IsReady now m k ip s.proxy
    older_eq : s.older ≡ older
    newer_eq : s.newer ≡ newer

  recount :
      {now m k k' older newer newer' : ℕ} {ip : Text} {s : Shared}
      → k ≡ k'
      → newer ≡ newer'
      → Reached now m k older newer ip s
      → Reached now m k' older newer' ip s
  recount {now} {m} {ip = ip} {s = s} counted opened r = record {
    ready = subst (λ j. IsReady now m j ip s.proxy) counted r.ready;
    older_eq = r.older_eq;
    newer_eq = r.newer_eq ∙ opened;
  }

  attempt-Reached :
      (now m k older newer : ℕ) (ip : Text) (s : Shared)
      → k < m
      → Reached now m k older newer ip s
      → Reached now m (k + 1) older (newer + 1) ip (attempt now ip s)
  unfolding attempt
  attempt-Reached now m k older newer ip s room r =
      rw (admit-eq now m k ip s.proxy room r.ready) (record {
        ready =
            counting-IsReady now m k (k + 1) (s.proxy.active_connections + 1) ip s.proxy r.ready;
        older_eq = r.older_eq;
        newer_eq = ap (λ n. n + 1) r.newer_eq;
      })

  attempts-Reached :
      (now m k older newer n : ℕ) (ip : Text) (s : Shared)
      → k + n ≤ m
      → Reached now m k older newer ip s
      → Reached now m (k + n) older (newer + n) ip (attempts n now ip s)
  unfolding attempts
  attempts-Reached now m k older newer zero ip s room r = recount (omega arith) (omega arith) r
  attempts-Reached now m k older newer (suc n) ip s room r =
      let next = attempt-Reached now m k older newer ip s (omega (arith, room)) r in
      let later =
        attempts-Reached now m (k + 1) older (newer + 1) n ip (attempt now ip s)
          (omega (arith, room)) next in
      recount (omega arith) (omega arith) later

  release-IsReady :
      (now m k : ℕ) (ip : Text) (p : Proxy)
      → 0 < k
      → IsReady now m k ip p
      → IsReady now m (k - 1) ip (release now ip p).1
  unfolding release is_expired is_traffic_exceeded
  release-IsReady now m k ip p some_ h = record {
    fresh = h.fresh;
    unused = h.unused;
    limit = h.limit;
    counted =
        let count = or_default 1 (get ip p.connections_by_ip) - 1 in
        ground (
          arith,
          h.counted,
          some_,
          get-put ip ip count p.connections_by_ip,
          get-remove ip ip p.connections_by_ip,
        );
  }

  keeps_on :
      (now m k : ℕ) (ip : Text) (p : Proxy) → IsReady now m k ip p → (release now ip p).0 ≡ false
  unfolding release is_expired is_traffic_exceeded
  keeps_on now m k ip p h = rw (h.unused, h.fresh) refl

  older_ends-Reached :
      (now m k older newer : ℕ) (ip : Text) (s : Shared)
      → 0 < k
      → 0 < older
      → Reached now m k older newer ip s
      → Reached now m (k - 1) (older - 1) newer ip (older_ends now ip s)
  unfolding older_ends
  older_ends-Reached now m k older newer ip s some_ open_ r =
      let still : (s.older == 0) ≡ false = ground (arith, r.older_eq, open_) in
      rw (still, keeps_on now m k ip s.proxy r.ready)
        (record {
          ready = release-IsReady now m k ip s.proxy some_ r.ready;
          older_eq = ap (λ n. n - 1) r.older_eq;
          newer_eq = r.newer_eq;
        })

  full-refuses :
      (now m : ℕ) (ip : Text) (p : Proxy)
      → 0 < m
      → IsReady now m m ip p
      → (admit now ip p).0 ≡ false
  unfolding admit
  full-refuses now m ip p some_ h =
      let full : (not (m == 0) && leb m m) ≡ true = ground (arith, some_) in
      rw (h.fresh, h.unused, h.limit, h.counted, full)

  -- The proxy of a server that has come up.
  abbrev started : ℕ → Proxy → Proxy
  started now p = record p {
    created_at = some now;
    bytes_used = 0;
    active_connections = 0;
    connections_by_ip = [];
  }

  proxy-serve_on :
      (h : Host) (now port : ℕ) (r : Result ℕ) (z : Zeus)
      → (serve_on h now r z).0 ≡ ok port
      → (serve_on h now r z).1.proxy ≡ record z.proxy { created_at = some now }
  proxy-serve_on h now port (err problem) z e = absurd (cc (e))
  proxy-serve_on h now port (ok q) z e = elim (Bool-cases (h.comes_up q)) [
    | inl up ↦ rw (up)
    | inr down ↦ absurd (cc (rw down at e))
  ]

  started-IsReady :
      (now later m : ℕ) (ip : Text) (p : Proxy)
      → is_expired later (started now p) ≡ false
      → p.max_connections_per_ip ≡ m
      → IsReady later m 0 ip (started now p)
  unfolding get is_traffic_exceeded
  started-IsReady now later m ip p fresh limit = record {
    fresh = fresh;
    unused = ground arith;
    limit = limit;
    counted = refl;
  }

  kept_limit :
      (z : Zeus) (b : Bool)
      → (if b then delete_zeus_proxy z else z).proxy.max_connections_per_ip
        ≡ z.proxy.max_connections_per_ip
  unfolding delete_zeus_proxy
  kept_limit z true = refl
  kept_limit z false = refl

  create_zeus_proxy-IsReady :
      (h : Host) (now later m port : ℕ) (listen_port : Option ℕ) (l : Limits) (z : Zeus) (ip : Text)
      → let (answer, z') = create_zeus_proxy h now listen_port l z in
        answer ≡ ok port
        → is_expired later z'.proxy ≡ false
        → or_kept l.max_connections_per_ip z.proxy.max_connections_per_ip ≡ m
        → IsReady later m 0 ip z'.proxy
  unfolding create_zeus_proxy set_limits
  create_zeus_proxy-IsReady h now later m port listen_port l z ip made fresh limit =
      let z1 = if z.running && is_done z.phase then delete_zeus_proxy z else z in
      let p = set_limits l z1.proxy in
      let same = proxy-serve_on h now port (pick_free_port h listen_port) _ made in
      subst (IsReady later m 0 ip) (sym same) (
        started-IsReady now later m ip p (subst (λ k. is_expired later k ≡ false) same fresh) (
          ap (or_kept l.max_connections_per_ip) (kept_limit z (z.running && is_done z.phase))
          ∙ limit))

  -- After a start of the proxy that succeeds, with a limit of `m` connections for an address and at a time when
  -- the proxy is not expired, `m` connections of an address are accepted and the next one is refused. But
  -- the start has forgotten the connections of the address that were open and counted before it: when one
  -- of them ends, the counter loses one of the new connections, and the next is accepted, so that
  -- `m + 1` connections that were all accepted since the start are open at once.
  pub create_zeus_proxy-forgets :
      (h : Host) (now later m port : ℕ) (listen_port : Option ℕ) (l : Limits) (z : Zeus) (ip : Text)
      → let (answer, z') = create_zeus_proxy h now listen_port l z in
        let older = or_default 0 (get ip z.proxy.connections_by_ip) in
        answer ≡ ok port
        → is_expired later z'.proxy ≡ false
        → or_kept l.max_connections_per_ip z.proxy.max_connections_per_ip ≡ m
        → 0 < m
        → 0 < older
        → let full = attempts m later ip (record { proxy = z'.proxy; older = older; newer = 0 }) in
          (full.newer ≡ m)
          × ((attempt later ip full).newer ≡ m)
          × ((attempt later ip (older_ends later ip full)).newer ≡ m + 1)
  unfolding attempt
  create_zeus_proxy-forgets h now later m port listen_port l z ip made fresh limit some_ open_ =
      let older = or_default 0 (get ip z.proxy.connections_by_ip) in
      let p = (create_zeus_proxy h now listen_port l z).1.proxy in
      let s : Shared = record { proxy = p; older = older; newer = 0 } in
      let start : Reached later m 0 older 0 ip s = record {
        ready = create_zeus_proxy-IsReady h now later m port listen_port l z ip made fresh limit;
        older_eq = refl;
        newer_eq = refl;
      } in
      let full = attempts m later ip s in
      let reached : Reached later m m older m ip full =
        recount (omega arith) (omega arith)
          (attempts-Reached later m 0 older 0 m ip s (omega arith) start) in
      let after = older_ends-Reached later m m older m ip full some_ open_ reached in
      let room : m - 1 < m = omega (arith, some_) in
      let again =
        attempt-Reached later m (m - 1) (older - 1) m ip (older_ends later ip full) room after in
      (
        reached.newer_eq,
        rw (full-refuses later m ip full.proxy some_ reached.ready) reached.newer_eq,
        again.newer_eq,
      )
