-- ===== src/Ports/Sync/Tables.antt =====
-- The two tables of listeners while `sync_all` stops and starts: what leaves them and what they gain.
use rvg_sever.Prelude.{
  ℕ, ◌≡◌, refl, ap, ◌∙◌, arith, List, [], ◌∷◌, Bool, true, false, ◌&&◌, ◌||◌, not, if◌then◌else◌,
  Key, Dict, get, ite,
}
use rvg_sever.Ports.{
  Listener, http, Ports, System, has, keys, start_uvicorn_port, stop_uvicorn_port, start_tcp_port,
  stop_tcp_port, stop_unused_tcp, stop_unused_uvicorn, start_all_tcp, start_all_uvicorn,
}
use rvg_sever.Ports.Sync.Settles.{has-put, has-remove}

module _ ⦃by_port : Key ℕ⦄ where
  pub member : ℕ → List ℕ → Bool
  member q [] = false
  member q (port ∷ ports) = ite (by_port.dec port q) true (member q ports)

  pub member-keys : {V : Type 0} (q : ℕ) (d : Dict ℕ V) → member q (keys d) ≡ has q d
  unfolding member get
  member-keys q [] = refl
  member-keys q ((port, _) ∷ d) = ground (arith, member-keys q d)

  has-stop_tcp_port :
      (port q : ℕ) (s : Ports)
      → has q (stop_tcp_port port s).1.tcp_servers
        ≡ ite (by_port.dec port q) false (has q s.tcp_servers)
  unfolding stop_tcp_port
  has-stop_tcp_port port q s = ground (arith, has-remove q port s.tcp_servers)

  pub has-stop_unused_tcp :
      (wanted : Dict ℕ Listener) (ports : List ℕ) (q : ℕ) (s : Ports)
      → has q (stop_unused_tcp wanted ports s).tcp_servers
        ≡ (has q s.tcp_servers && (has q wanted || not (member q ports)))
  unfolding stop_unused_tcp member
  has-stop_unused_tcp wanted [] q s = ground arith
  has-stop_unused_tcp wanted (port ∷ ports) q s =
      let t = (stop_tcp_port port s).1 in
      elim (by_port.dec port q) [
        | yes e ↦ ground (
          arith,
          ap (λ port. has port wanted) e,
          has-stop_unused_tcp wanted ports q s,
          has-stop_unused_tcp wanted ports q t,
          has-stop_tcp_port port q s,
          e,
        )
        | no n ↦ ground (
          arith,
          has-stop_unused_tcp wanted ports q s,
          has-stop_unused_tcp wanted ports q t,
          has-stop_tcp_port port q s,
          n,
        )
      ]

  has-stop_uvicorn_port :
      (port q : ℕ) (s : Ports)
      → has q (stop_uvicorn_port port s).1.uvicorn_servers
        ≡ ite (by_port.dec port q) false (has q s.uvicorn_servers)
  unfolding stop_uvicorn_port
  has-stop_uvicorn_port port q s = ground (arith, has-remove q port s.uvicorn_servers)

  pub has-stop_unused_uvicorn :
      (wanted : Dict ℕ Listener) (ports : List ℕ) (q : ℕ) (s : Ports)
      → has q (stop_unused_uvicorn wanted ports s).uvicorn_servers
        ≡ (has q s.uvicorn_servers && (has q wanted || not (member q ports)))
  unfolding stop_unused_uvicorn member
  has-stop_unused_uvicorn wanted [] q s = ground arith
  has-stop_unused_uvicorn wanted (port ∷ ports) q s =
      let t = (stop_uvicorn_port port s).1 in
      elim (by_port.dec port q) [
        | yes e ↦ ground (
          arith,
          ap (λ port. has port wanted) e,
          has-stop_unused_uvicorn wanted ports q s,
          has-stop_unused_uvicorn wanted ports q t,
          has-stop_uvicorn_port port q s,
          e,
        )
        | no n ↦ ground (
          arith,
          has-stop_unused_uvicorn wanted ports q s,
          has-stop_unused_uvicorn wanted ports q t,
          has-stop_uvicorn_port port q s,
          n,
        )
      ]

  -- The ports that a table gains are wanted.
  pub start_all_tcp-gains :
      (w : System) (wanted : Dict ℕ Listener) (q : ℕ) (s : Ports)
      → (has q (start_all_tcp w wanted s).tcp_servers && not (has q s.tcp_servers || has q wanted))
        ≡ false
  unfolding start_all_tcp start_tcp_port get
  start_all_tcp-gains w [] q s = ground arith
  start_all_tcp-gains w ((port, server) ∷ wanted) q s = ground (
    arith,
    start_all_tcp-gains w wanted q (start_tcp_port w port server s).1,
    has-put q port server s.tcp_servers,
  )

  pub start_all_uvicorn-gains :
      (w : System) (wanted : Dict ℕ Listener) (q : ℕ) (s : Ports)
      → (has q (start_all_uvicorn w wanted s).uvicorn_servers
          && not (has q s.uvicorn_servers || has q wanted))
        ≡ false
  unfolding start_all_uvicorn start_uvicorn_port get
  start_all_uvicorn-gains w [] q s = ground arith
  start_all_uvicorn-gains w ((port, server) ∷ wanted) q s = ground (
    arith,
    start_all_uvicorn-gains w wanted q (start_uvicorn_port w port s).1,
    has-put q port http s.uvicorn_servers,
  )

  -- The two tables do not disturb one another.
  pub start_all_tcp-uvicorn :
      (w : System) (wanted : Dict ℕ Listener) (s : Ports)
      → (start_all_tcp w wanted s).uvicorn_servers ≡ s.uvicorn_servers
  unfolding start_all_tcp start_tcp_port
  start_all_tcp-uvicorn w [] s = refl
  start_all_tcp-uvicorn w ((port, server) ∷ wanted) s =
      start_all_tcp-uvicorn w wanted (start_tcp_port w port server s).1 ∙ ground arith

  pub start_all_uvicorn-tcp :
      (w : System) (wanted : Dict ℕ Listener) (s : Ports)
      → (start_all_uvicorn w wanted s).tcp_servers ≡ s.tcp_servers
  unfolding start_all_uvicorn start_uvicorn_port
  start_all_uvicorn-tcp w [] s = refl
  start_all_uvicorn-tcp w ((port, server) ∷ wanted) s =
      start_all_uvicorn-tcp w wanted (start_uvicorn_port w port s).1 ∙ ground arith

  pub stop_unused_uvicorn-tcp :
      (wanted : Dict ℕ Listener) (ports : List ℕ) (s : Ports)
      → (stop_unused_uvicorn wanted ports s).tcp_servers ≡ s.tcp_servers
  unfolding stop_unused_uvicorn stop_uvicorn_port
  stop_unused_uvicorn-tcp wanted [] s = refl
  stop_unused_uvicorn-tcp wanted (port ∷ ports) s =
      stop_unused_uvicorn-tcp wanted ports
        (if has port wanted then s else (stop_uvicorn_port port s).1)
      ∙ ground arith
