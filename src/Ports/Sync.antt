-- ===== src/Ports/Sync.antt =====
-- What `sync_all` reaches from any listeners: nothing listens that no link wants, and every port that a
-- link wants is listened on or has its error.
pub mod Settles
pub mod Tables
use mathlib.Core.Path.{subst}
use rvg_sever.Prelude.{
  ℕ, zero, suc, ◌+◌, ◌≡◌, refl, sym, ap, ◌∙◌, arith, List, [], ◌∷◌, Bool, true, false, ◌==◌, ◌&&◌,
  ◌||◌, not, if◌then◌else◌, Option, none, some, Key, Dict, get, put, remove, get-put, get-remove,
  Bool-cases, ◌⊎◌, inl, inr, ite,
}
use rvg_sever.Wire.Text.{Text}
use rvg_sever.Ports.{
  PortLink, Listener, http, Failure, occupied, failed, Ports, System, Needed, is_some, has, keys,
  is_port_listening, port_free, start_uvicorn_port, stop_uvicorn_port, start_tcp_port,
  stop_tcp_port, stop_unused_tcp, stop_unused_uvicorn, start_all_tcp, start_all_uvicorn, restore,
  needed, sync_all,
}
use rvg_sever.Ports.{Kind, vmess, ss, tcp, want, tcp_kind, is_served_here}
use rvg_sever.Ports.Sync.Settles.{
  has-put, is_settled, start_all_tcp-settles, start_all_uvicorn-settles,
}
use rvg_sever.Ports.Sync.Tables.{
  member-keys, has-stop_unused_tcp, has-stop_unused_uvicorn, start_all_tcp-gains,
  start_all_uvicorn-gains, start_all_tcp-uvicorn, start_all_uvicorn-tcp, stop_unused_uvicorn-tcp,
}

-- Whether some link that is served here wants a TCP server on the port, or the application.
abbrev pub wants_tcp : ℕ → ℕ → List (Text × PortLink) → Bool
wants_tcp panel_port q [] = false
wants_tcp panel_port q ((_, d) ∷ links) =
    is_served_here panel_port d && (is_some (tcp_kind d.protocol) && d.listen_port == q)
    || wants_tcp panel_port q links

abbrev pub wants_http : ℕ → ℕ → List (Text × PortLink) → Bool
wants_http panel_port q [] = false
wants_http panel_port q ((_, d) ∷ links) =
    is_served_here panel_port d && (not (is_some (tcp_kind d.protocol)) && d.listen_port == q)
    || wants_http panel_port q links

module _ ⦃by_port : Key ℕ⦄ where
  restore-settles :
      (w : System) (n : Needed) (q : ℕ) (s : Ports)
      → (has q n.needed_http || has q n.needed_tcp) ≡ true
      → is_settled q (restore w n s) ≡ true
  unfolding restore
  restore-settles w n q s h =
      let s1 = stop_unused_tcp n.needed_tcp (keys s.tcp_servers) s in
      let s2 = stop_unused_uvicorn n.needed_http (keys s1.uvicorn_servers) s1 in
      let s3 = start_all_tcp w n.needed_tcp s2 in
      elim (Bool-cases (has q n.needed_http)) [
        | inl web ↦ start_all_uvicorn-settles w n.needed_http q s3 (ground (arith, web))
        | inr no_web ↦
            let raw : has q n.needed_tcp ≡ true = ground (arith, h, no_web) in
            start_all_uvicorn-settles w n.needed_http q s3 (
              ap (λ b. b || has q n.needed_http)
                (start_all_tcp-settles w n.needed_tcp q s2 (ground (arith, raw))))
      ]

  restore-tcp :
      (w : System) (n : Needed) (q : ℕ) (s : Ports)
      → has q (restore w n s).tcp_servers ≡ true
      → has q n.needed_tcp ≡ true
  unfolding restore
  restore-tcp w n q s h =
      let s1 = stop_unused_tcp n.needed_tcp (keys s.tcp_servers) s in
      let s2 = stop_unused_uvicorn n.needed_http (keys s1.uvicorn_servers) s1 in
      let s3 = start_all_tcp w n.needed_tcp s2 in
      ground (
        arith,
        h,
        ap (has q) (start_all_uvicorn-tcp w n.needed_http s3),
        start_all_tcp-gains w n.needed_tcp q s2,
        ap (has q) (stop_unused_uvicorn-tcp n.needed_http (keys s1.uvicorn_servers) s1),
        has-stop_unused_tcp n.needed_tcp (keys s.tcp_servers) q s,
        member-keys q s.tcp_servers,
      )

  restore-http :
      (w : System) (n : Needed) (q : ℕ) (s : Ports)
      → has q (restore w n s).uvicorn_servers ≡ true
      → has q n.needed_http ≡ true
  unfolding restore
  restore-http w n q s h =
      let s1 = stop_unused_tcp n.needed_tcp (keys s.tcp_servers) s in
      let s2 = stop_unused_uvicorn n.needed_http (keys s1.uvicorn_servers) s1 in
      let s3 = start_all_tcp w n.needed_tcp s2 in
      ground (
        arith,
        h,
        start_all_uvicorn-gains w n.needed_http q s3,
        ap (has q) (start_all_tcp-uvicorn w n.needed_tcp s2),
        has-stop_unused_uvicorn n.needed_http (keys s1.uvicorn_servers) q s1,
        member-keys q s1.uvicorn_servers,
      )

  has-needed_tcp :
      (panel_port q : ℕ) (links : List (Text × PortLink)) (n : Needed)
      → has q (needed panel_port links n).needed_tcp
        ≡ (has q n.needed_tcp || wants_tcp panel_port q links)
  unfolding needed want tcp_kind
  has-needed_tcp panel_port q [] n = ground arith
  has-needed_tcp panel_port q ((uid, d) ∷ links) n =
      let port = d.listen_port in
      ground (
        arith,
        has-needed_tcp panel_port q links n,
        has-needed_tcp panel_port q links (want (tcp_kind d.protocol) port uid n),
        has-put q port (tcp vmess uid) n.needed_tcp,
        has-put q port (tcp ss uid) n.needed_tcp,
      )

  has-needed_http :
      (panel_port q : ℕ) (links : List (Text × PortLink)) (n : Needed)
      → has q (needed panel_port links n).needed_http
        ≡ (has q n.needed_http || wants_http panel_port q links)
  unfolding needed want tcp_kind
  has-needed_http panel_port q [] n = ground arith
  has-needed_http panel_port q ((uid, d) ∷ links) n =
      let port = d.listen_port in
      ground (
        arith,
        has-needed_http panel_port q links n,
        has-needed_http panel_port q links (want (tcp_kind d.protocol) port uid n),
        has-put q port http n.needed_http,
      )

  -- From any listeners and errors, and whatever the system answers: a port that some active link of this
  -- process wants is listened on afterwards or has its error.
  pub sync_all-settles :
      (w : System) (links : List (Text × PortLink)) (panel_port q : ℕ) (s : Ports)
      → (wants_http panel_port q links || wants_tcp panel_port q links) ≡ true
      → is_settled q (sync_all w links panel_port s) ≡ true
  unfolding sync_all get
  sync_all-settles w links panel_port q s h =
      let none_ : Needed = record { needed_http = []; needed_tcp = [] } in
      restore-settles w (needed panel_port links none_) q s (
        ground (
          arith,
          h,
          has-needed_http panel_port q links none_,
          has-needed_tcp panel_port q links none_,
        ))

  -- From any listeners and errors: a port that is listened on afterwards, by the application or by a TCP
  -- server, is wanted so by some active link of this process.
  pub sync_all-wanted :
      (w : System) (links : List (Text × PortLink)) (panel_port q : ℕ) (s : Ports)
      → is_port_listening q (sync_all w links panel_port s) ≡ true
      → ((has q (sync_all w links panel_port s).uvicorn_servers ≡ true)
          × (wants_http panel_port q links ≡ true))
        ⊎ ((has q (sync_all w links panel_port s).tcp_servers ≡ true)
            × (wants_tcp panel_port q links ≡ true))
  unfolding sync_all is_port_listening get
  sync_all-wanted w links panel_port q s h =
      let none_ : Needed = record { needed_http = []; needed_tcp = [] } in
      let n = needed panel_port links none_ in
      elim (Bool-cases (has q (restore w n s).uvicorn_servers)) [
        | inl web ↦ inl (
          web,
          ground (arith, restore-http w n q s web, has-needed_http panel_port q links none_),
        )
        | inr no_web ↦
            let raw : has q (restore w n s).tcp_servers ≡ true = ground (arith, h, no_web) in
            inr (
              raw,
              ground (arith, restore-tcp w n q s raw, has-needed_tcp panel_port q links none_),
            )
      ]
