-- ===== src/Tunnel/Tests.antt =====
-- The theorem on the tunnel at a small conversation.
use rvg_sever.Prelude.{
  ℕ, zero, suc, All, ◌<◌, ◌+◌, ◌≡◌, refl, arith, List, [], ◌∷◌, ◌++◌, true, false, some, Key, get,
  put, length, ℕ_discrete,
}
use rvg_sever.Wire.{Bytes, be16}
use rvg_sever.Wire.Text.{Text, text_discrete}
use rvg_sever.Header.{ipv4}
use rvg_sever.Header.Vless.{VlessRequest, vless_bytes}
use rvg_sever.Links.{
  Link, never, Moment, is_link_allowed, is_allowed, is_link_expired, check_and_use, charge,
  use_bytes,
}
use rvg_sever.Links.Accounts.{used_of}
use rvg_sever.Links.Quota.{batch_for, Instant, new_gate, add, add_open, adapt, settle, flush}
use rvg_sever.Links.Quota.Sessions.{act, open_relay, close}
use rvg_sever.Tunnel.{
  Turn, from_client, from_remote, disconnect, received, Stats, relays, turn, relay_turns, opened,
  websocket_tunnel,
}
use rvg_sever.Tunnel.Turns.{until_end, upload, download, concat, answered}
use rvg_sever.Header.Trojan.{TrojanRequest, trojan_bytes}
use rvg_sever.Links.Hashes.{new_cache}
use rvg_sever.Tunnel.Trojan.{trojan_ws_tunnel}
use rvg_sever.Tunnel.Trojan.Delivery.{trojan_ws_tunnel-trojan_bytes}
use rvg_sever.Tunnel.Delivery.{charged, finished, websocket_tunnel-vless_bytes}

instance abbrev number_key : Key ℕ
number_key = record { dec = ℕ_discrete }

instance abbrev text_key : Key Text
text_key = record { dec = text_discrete }

abbrev link : Link
link = record { active = true; expires_at = never; limit_bytes = 1000; used_bytes = 10 }

abbrev moment : Moment
moment = record { now = 100; hour = 4 }

-- A rate is a number of bytes here.
abbrev instant : Instant ℕ
instant = record { moment = moment; is_later = true; is_overdue = false; next_rate = λ rate n. n }

abbrev target_of : ℕ → ℕ
target_of rate = rate

abbrev stats : Stats
stats = record {
  panel = record { links = ([], link) ∷ []; total_bytes = 0; hourly = [] };
  total_requests = 0;
  total_errors = 0;
}

abbrev request : VlessRequest
request = record {
  version = 0;
  uuid = 1 ∷ 2 ∷ 3 ∷ 4 ∷ 5 ∷ 6 ∷ 7 ∷ 8 ∷ 9 ∷ 10 ∷ 11 ∷ 12 ∷ 13 ∷ 14 ∷ 15 ∷ 16 ∷ [];
  addons = [];
  command = 1;
  port = 443;
  host = ipv4 (127 ∷ 0 ∷ 0 ∷ 1 ∷ []);
}

abbrev chunk : Bytes
chunk = vless_bytes request (7 ∷ [])

abbrev turns : List (Turn ℕ)
turns =
    from_client instant (received (8 ∷ []))
    ∷ from_remote instant (9 ∷ [])
    ∷ from_client instant disconnect
    ∷ from_remote instant (10 ∷ [])
    ∷ []

websocket_tunnel-vless_bytes_example :
    let t =
      finished 0 target_of turns moment moment
        (charged 0 target_of true moment [] chunk (7 ∷ []) stats) in
    (websocket_tunnel 0 target_of
        (λ address port. true)
        moment
        moment
        []
        (some (received chunk))
        turns
        moment
        moment
        stats
      ≡ relays t)
    × (t.written ≡ (7 ∷ []) ++ upload (until_end turns))
    × (concat t.messages ≡ answered true (download (until_end turns)))
    × (used_of [] t.relay.panel
        ≡ used_of [] stats.panel
          + length chunk
          + length (upload (until_end turns))
          + length (download (until_end turns)))
unfolding vless_bytes be16 close act open_relay new_gate add add_open adapt settle flush
    check_and_use charge use_bytes is_link_allowed is_allowed is_link_expired get put text_discrete
    ℕ_discrete batch_for turn relay_turns opened
websocket_tunnel-vless_bytes_example =
    websocket_tunnel-vless_bytes 0 target_of (λ address port. true) moment moment [] request
      (7 ∷ []) turns moment moment stats refl (omega arith) refl (omega arith) refl refl refl refl
      refl

-- The hash of the only user, as it stands in the header: 56 digits.
abbrev digits : ℕ → Bytes
digits zero = []
digits (suc n) = 48 ∷ digits n

digits-ascii : (n : ℕ) → All (λ b. b < 128) (digits n)
digits-ascii zero = tt
digits-ascii (suc n) = (omega arith, digits-ascii n)

abbrev hash : Text → Text
hash uid = digits 56

abbrev trojan_request : TrojanRequest
trojan_request = record {
  pw_hash = digits 56;
  command = 1;
  host = ipv4 (127 ∷ 0 ∷ 0 ∷ 1 ∷ []);
  port = 443;
}

trojan_ws_tunnel-trojan_bytes_example :
    let chunk = trojan_bytes trojan_request (7 ∷ []) in
    let t =
      finished 0 target_of turns moment moment
        (charged 0 target_of false moment [] chunk (7 ∷ []) stats) in
    ((trojan_ws_tunnel 0 target_of hash
        (λ address port. true)
        moment
        moment
        (some (received chunk))
        turns
        moment
        moment
        new_cache
        stats).0
      ≡ relays t)
    × (t.written ≡ (7 ∷ []) ++ upload (until_end turns))
    × (concat t.messages ≡ download (until_end turns))
    × (used_of [] t.relay.panel
        ≡ used_of [] stats.panel
          + length chunk
          + length (upload (until_end turns))
          + length (download (until_end turns)))
unfolding trojan_bytes be16 close act open_relay new_gate add add_open adapt settle flush
    check_and_use charge use_bytes is_link_allowed is_allowed is_link_expired get put text_discrete
    ℕ_discrete batch_for turn relay_turns opened
trojan_ws_tunnel-trojan_bytes_example =
    trojan_ws_tunnel-trojan_bytes 0 target_of hash (λ address port. true) moment moment [] link
      trojan_request (7 ∷ []) turns moment moment stats refl (digits-ascii 56) (omega arith) refl
      ((λ e. refl), tt) refl refl refl refl refl refl refl
