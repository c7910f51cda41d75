-- ===== src/Ports/Tests.antt =====
-- The theorems on the port manager at a panel of three links.
use rvg_sever.Prelude.{
  ℕ, ◌≡◌, ◌⊎◌, refl, List, [], ◌∷◌, true, not, ◌==◌, Key, ℕ_discrete, get, put, remove,
}
use rvg_sever.Wire.Text.{Text}
use rvg_sever.Ports.{
  PortLink, unicorn, external, vmess_tcp, other, Ports, System, http, has, sync_all,
  is_port_listening, restore, needed, want, tcp_kind, stop_unused_tcp, stop_unused_uvicorn,
  start_all_tcp, start_all_uvicorn, start_tcp_port, start_uvicorn_port, stop_tcp_port,
  stop_uvicorn_port, port_free,
}
use rvg_sever.Ports.Sync.{wants_http, wants_tcp, sync_all-settles, sync_all-wanted}
use rvg_sever.Ports.Sync.Settles.{is_settled}

instance abbrev number_key : Key ℕ
number_key = record { dec = ℕ_discrete }

-- Port 6 is another process's.
abbrev system : System
system = record { is_free = λ port. not (port == 6); comes_up = λ port. true }

abbrev links : List (Text × PortLink)
links =
    ([], record { core = unicorn; protocol = vmess_tcp; active = true; listen_port = 5 })
    ∷ ([], record { core = unicorn; protocol = other; active = true; listen_port = 6 })
    ∷ ([], record { core = external; protocol = other; active = true; listen_port = 7 })
    ∷ []

abbrev ports : Ports
ports = record { uvicorn_servers = (8, http) ∷ []; tcp_servers = []; port_errors = [] }

sync_all-settles_example : is_settled 6 (sync_all system links 1 ports) ≡ true
unfolding tcp_kind
sync_all-settles_example = sync_all-settles system links 1 6 ports refl

sync_all-wanted_example :
    ((has 5 (sync_all system links 1 ports).uvicorn_servers ≡ true) × (wants_http 1 5 links ≡ true))
    ⊎ ((has 5 (sync_all system links 1 ports).tcp_servers ≡ true) × (wants_tcp 1 5 links ≡ true))
unfolding sync_all restore needed want tcp_kind stop_unused_tcp stop_unused_uvicorn start_all_tcp
    start_all_uvicorn start_tcp_port start_uvicorn_port stop_tcp_port stop_uvicorn_port port_free
    is_port_listening get put remove ℕ_discrete
sync_all-wanted_example = sync_all-wanted system links 1 5 ports refl
