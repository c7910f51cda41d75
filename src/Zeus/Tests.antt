-- ===== src/Zeus/Tests.antt =====
-- The theorems on the SOCKS5 server at a small client and at a short life of a proxy.
use rvg_sever.Prelude.{
  ltb, ◌<◌, ◌+◌, ◌*◌, false, some, ◌≡◌, refl, arith, List, [], ◌∷◌, ◌&&◌, if◌then◌else◌, true, none,
  Key, get,
}
use rvg_sever.Wire.{Bytes}
use rvg_sever.Wire.Text.{Text, utf8_ignore, text_discrete}
use rvg_sever.Wire.Strings.{same_text}
use rvg_sever.Header.{Host, ipv4}
use rvg_sever.Zeus.{Server, hang_up, relay, converse}
use rvg_sever.Zeus.Clients.{count_of, greeting, credentials, connect_request, name_of, converse_lem}
use rvg_sever.Zeus.Admission.{Proxy, or_default, is_expired}
use rvg_sever.Zeus.Traffic
use rvg_sever.Zeus.Traffic.{reads, counts, read_size, run-bytes_used}
use rvg_sever.Zeus.Lifecycle.{
  Zeus, done, Limits, create_zeus_proxy, pick_free_port, set_limits, delete_zeus_proxy,
}
use rvg_sever.Zeus.Lifecycle
use rvg_sever.Zeus.Lifecycle.Restart.{attempt, attempts, older_ends, create_zeus_proxy-forgets}
use rvg_sever.Zeus.Admission.Counts.{
  Event, arrive, leave, pass, auto_delete, Life, run, Counts, run-Counts,
}

instance abbrev text_key : Key Text
text_key = record { dec = text_discrete }

abbrev server : Server
server = record {
  user = 97 ∷ [];
  password = 98 ∷ [];
  reaches = λ address port. true;
  ipv6_name = λ address. address;
}

abbrev methods : Bytes
methods = 0 ∷ 2 ∷ []

abbrev uname : Bytes
uname = 97 ∷ []

abbrev passwd : Bytes
passwd = 98 ∷ []

abbrev host : Host
host = ipv4 (1 ∷ 2 ∷ 3 ∷ 4 ∷ [])

converse_lem_example :
    converse server (greeting methods (credentials uname passwd (connect_request host 80 (7 ∷ []))))
    ≡ (if ltb 0 (count_of 2 methods)
        then (if same_text (utf8_ignore uname) server.user
              && same_text (utf8_ignore passwd) server.password
            then (if server.reaches (name_of server host) 80
                then record {
                  replies =
                      (5 ∷ 2 ∷ [])
                      ∷ (1 ∷ 0 ∷ [])
                      ∷ (5 ∷ 0 ∷ 0 ∷ 1 ∷ 0 ∷ 0 ∷ 0 ∷ 0 ∷ 0 ∷ 0 ∷ [])
                      ∷ [];
                  outcome = relay (name_of server host) 80 (7 ∷ []);
                }
                else record {
                  replies =
                      (5 ∷ 2 ∷ [])
                      ∷ (1 ∷ 0 ∷ [])
                      ∷ (5 ∷ 5 ∷ 0 ∷ 1 ∷ 0 ∷ 0 ∷ 0 ∷ 0 ∷ 0 ∷ 0 ∷ [])
                      ∷ [];
                  outcome = hang_up;
                })
            else record { replies = (5 ∷ 2 ∷ []) ∷ (1 ∷ 1 ∷ []) ∷ []; outcome = hang_up })
        else record { replies = (5 ∷ 255 ∷ []) ∷ []; outcome = hang_up })
converse_lem_example = converse_lem server methods uname passwd host 80 (7 ∷ []) refl (omega arith)

-- A proxy with a limit of 1000 bytes, and two pipes.
abbrev limited : Proxy
limited = record {
  max_connections_per_ip = 1;
  traffic_limit = 1000;
  expires_days = 0;
  created_at = some 0;
  bytes_used = 0;
  active_connections = 0;
  connections_by_ip = [];
}

-- Two connections use the traffic up: when one of them ends, the deletion starts, and it runs.
abbrev events : List Event
events =
    arrive 5 (1 ∷ [])
    ∷ arrive 6 (1 ∷ [])
    ∷ pass 1000
    ∷ leave 7 (1 ∷ [])
    ∷ auto_delete
    ∷ arrive 8 (1 ∷ [])
    ∷ []

abbrev life : Life
life = record {
  proxy = record limited { max_connections_per_ip = 2 };
  peers = [];
  waiting = 0;
  cleared = false;
}

unused : (q : Text) → Counts q life
unfolding get
unused q = record { below = refl; exact = refl; limit = refl }

run-Counts_example : Counts (1 ∷ []) (run events life)
run-Counts_example = run-Counts events life unused (1 ∷ [])

abbrev reading : List Traffic.Event
reading = reads 5 900 ∷ reads 5 800 ∷ counts 0 ∷ counts 0 ∷ reads 6 700 ∷ []

run-bytes_used_example : (Traffic.run 2 reading (limited, [])).0.bytes_used < 1000 + read_size * 2
run-bytes_used_example = run-bytes_used 2 reading limited (omega arith) (omega arith)

-- A proxy that runs, with a connection of one address.
abbrev serving : Zeus
serving = record {
  running = true;
  phase = done;
  user = none;
  password = none;
  server = some 1080;
  proxy = record limited { active_connections = 1; connections_by_ip = ([], 1) ∷ [] };
}

abbrev machine : Lifecycle.Host
machine = record {
  is_free = λ port. true;
  picked = 40000;
  drawn_user = [];
  drawn_password = [];
  comes_up = λ port. true;
}

abbrev limits : Limits
limits = record { traffic_limit = none; expires_days = none; max_connections_per_ip = some 2 }

create_zeus_proxy-forgets_example :
    let p = (create_zeus_proxy machine 10 (some 1080) limits serving).1.proxy in
    let full = attempts 2 20 [] (record {
      proxy = p;
      older = or_default 0 (get [] serving.proxy.connections_by_ip);
      newer = 0;
    }) in
    (full.newer ≡ 2)
    × ((attempt 20 [] full).newer ≡ 2)
    × ((attempt 20 [] (older_ends 20 [] full)).newer ≡ 2 + 1)
unfolding create_zeus_proxy is_expired get text_discrete
create_zeus_proxy-forgets_example =
    create_zeus_proxy-forgets machine 10 20 2 1080 (some 1080) limits serving [] refl refl refl
      (omega arith) (omega arith)
