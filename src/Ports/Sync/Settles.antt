-- ===== src/Ports/Sync/Settles.antt =====
-- The starts of `sync_all`: each ends with a listener on its port or with the port's error, and takes
-- neither from another port.
use mathlib.Core.Path.{subst}
use rvg_sever.Prelude.{
  ℕ, ◌≡◌, ap, arith, [], ◌∷◌, Bool, true, false, ◌||◌, Key, Dict, get, put, remove, get-put,
  get-remove, Bool-cases, inl, inr, ite,
}
use rvg_sever.Ports.{
  Listener, http, occupied, failed, Ports, System, has, is_port_listening, port_free,
  start_uvicorn_port, start_tcp_port, start_all_tcp, start_all_uvicorn,
}

module _ ⦃by_port : Key ℕ⦄ where
  pub has-put :
      {V : Type 0} (q port : ℕ) (v : V) (d : Dict ℕ V)
      → has q (put port v d) ≡ ite (by_port.dec port q) true (has q d)
  has-put q port v d = ground (arith, get-put port q v d)

  pub has-remove :
      {V : Type 0} (q port : ℕ) (d : Dict ℕ V)
      → has q (remove port d) ≡ ite (by_port.dec port q) false (has q d)
  has-remove q port d = ground (arith, get-remove port q d)

  -- The port is listened on, or its last failure is known.
  abbrev pub is_settled : ℕ → Ports → Bool
  is_settled q s = is_port_listening q s || has q s.port_errors

  start_tcp_port-settles :
      (w : System) (port q : ℕ) (server : Listener) (s : Ports)
      → is_settled q s ≡ true
      → is_settled q (start_tcp_port w port server s).1 ≡ true
  unfolding start_tcp_port is_port_listening port_free
  start_tcp_port-settles w port q server s h = ground (
    arith,
    h,
    has-put q port server s.tcp_servers,
    has-put q port occupied s.port_errors,
    has-put q port failed s.port_errors,
    has-remove q port s.port_errors,
  )

  start_tcp_port-own :
      (w : System) (port : ℕ) (server : Listener) (s : Ports)
      → is_settled port (start_tcp_port w port server s).1 ≡ true
  unfolding start_tcp_port is_port_listening port_free
  start_tcp_port-own w port server s = ground (
    arith,
    has-put port port server s.tcp_servers,
    has-put port port occupied s.port_errors,
    has-put port port failed s.port_errors,
  )

  start_uvicorn_port-settles :
      (w : System) (port q : ℕ) (s : Ports)
      → is_settled q s ≡ true
      → is_settled q (start_uvicorn_port w port s).1 ≡ true
  unfolding start_uvicorn_port is_port_listening port_free
  start_uvicorn_port-settles w port q s h = ground (
    arith,
    h,
    has-put q port http s.uvicorn_servers,
    has-put q port occupied s.port_errors,
    has-put q port failed s.port_errors,
    has-remove q port s.port_errors,
  )

  start_uvicorn_port-own :
      (w : System) (port : ℕ) (s : Ports) → is_settled port (start_uvicorn_port w port s).1 ≡ true
  unfolding start_uvicorn_port is_port_listening port_free
  start_uvicorn_port-own w port s = ground (
    arith,
    has-put port port http s.uvicorn_servers,
    has-put port port occupied s.port_errors,
    has-put port port failed s.port_errors,
  )

  pub start_all_tcp-settles :
      (w : System) (wanted : Dict ℕ Listener) (q : ℕ) (s : Ports)
      → (is_settled q s || has q wanted) ≡ true
      → is_settled q (start_all_tcp w wanted s) ≡ true
  unfolding start_all_tcp get
  start_all_tcp-settles w [] q s h = ground (arith, h)
  start_all_tcp-settles w ((port, server) ∷ wanted) q s h = elim (by_port.dec port q) [
    | yes e ↦ start_all_tcp-settles w wanted q (start_tcp_port w port server s).1 (
        ap (λ b. b || has q wanted)
          (subst (λ q. is_settled q (start_tcp_port w port server s).1 ≡ true) e
            (start_tcp_port-own w port server s)))
    | no n ↦ elim (Bool-cases (is_settled q s)) [
      | inl settled ↦
          start_all_tcp-settles w wanted q (start_tcp_port w port server s).1
            (ap (λ b. b || has q wanted) (start_tcp_port-settles w port q server s settled))
      | inr open_ ↦
          start_all_tcp-settles w wanted q (start_tcp_port w port server s).1
            (ground (arith, n, h, open_))
    ]
  ]

  pub start_all_uvicorn-settles :
      (w : System) (wanted : Dict ℕ Listener) (q : ℕ) (s : Ports)
      → (is_settled q s || has q wanted) ≡ true
      → is_settled q (start_all_uvicorn w wanted s) ≡ true
  unfolding start_all_uvicorn get
  start_all_uvicorn-settles w [] q s h = ground (arith, h)
  start_all_uvicorn-settles w ((port, server) ∷ wanted) q s h = elim (by_port.dec port q) [
    | yes e ↦ start_all_uvicorn-settles w wanted q (start_uvicorn_port w port s).1 (
        ap (λ b. b || has q wanted)
          (subst (λ q. is_settled q (start_uvicorn_port w port s).1 ≡ true) e
            (start_uvicorn_port-own w port s)))
    | no n ↦ elim (Bool-cases (is_settled q s)) [
      | inl settled ↦
          start_all_uvicorn-settles w wanted q (start_uvicorn_port w port s).1
            (ap (λ b. b || has q wanted) (start_uvicorn_port-settles w port q s settled))
      | inr open_ ↦
          start_all_uvicorn-settles w wanted q (start_uvicorn_port w port s).1
            (ground (arith, n, h, open_))
    ]
  ]
