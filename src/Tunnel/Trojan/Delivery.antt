-- ===== src/Tunnel/Trojan/Delivery.antt =====
-- What the tunnel of Trojan delivers, and whom it charges.
use mathlib.Core.Path.{subst}
use rvg_sever.Prelude.{
  ℕ, ◌+◌, ◌<◌, ◌≡◌, refl, ap, ◌∙◌, arith, List, [], ◌∷◌, ◌++◌, Bool, true, false, none, some, Key,
  Dict, get, length, length-append, All, ok,
}
use rvg_sever.Wire.{Bytes}
use rvg_sever.Wire.Text.{Text}
use rvg_sever.Header.{IsWellFormed, host_text}
use rvg_sever.Header.Trojan.{TrojanRequest, trojan_bytes, parse_trojan_header-trojan_bytes}
use rvg_sever.Links.{Link, Moment, is_link_allowed, check_and_use}
use rvg_sever.Links.Accounts.{used_of}
use rvg_sever.Links.Hashes.{HashCache, new_cache, find_uuid, authorized, resolve_and_authorize}
use rvg_sever.Links.Hashes.Lookup.{IsAlone, known, find_uuid-fresh}
use rvg_sever.Tunnel.{received, Turn, Stats, relays, run_outcome}
use rvg_sever.Tunnel.Turns.{until_end, upload, download, concat, answered-false}
use rvg_sever.Tunnel.Delivery.{charged, finished, charged-delivers}
use rvg_sever.Tunnel.Trojan.{connect_user, charge_user, resolved, open_trojan, trojan_ws_tunnel}

module _ (trojan_hash : Text → Text) ⦃by_text : Key Text⦄ where
  find_uuid-known :
      (links : Dict Text Link) (uid : Text) (link : Link) (pw_hash : Text)
      → All (IsAlone trojan_hash uid) links
      → get uid links ≡ some link
      → trojan_hash uid ≡ pw_hash
      → (find_uuid trojan_hash links pw_hash new_cache).0 ≡ some uid
  find_uuid-known links uid link pw_hash alone found hash =
      subst (λ k. (find_uuid trojan_hash links k new_cache).0 ≡ some uid) hash
        (find_uuid-fresh trojan_hash links uid alone ∙ ap (λ l. known l uid none) found)

  -- The user that the header of a request stands for.
  resolve_and_authorize-trojan_bytes :
      (now : ℕ) (links : Dict Text Link) (uid : Text) (link : Link) (r : TrojanRequest)
      (payload : Bytes)
      → length r.pw_hash ≡ 56
      → All (λ b. b < 128) r.pw_hash
      → r.port < 65536
      → IsWellFormed r.host
      → All (IsAlone trojan_hash uid) links
      → get uid links ≡ some link
      → trojan_hash uid ≡ r.pw_hash
      → is_link_allowed now (some link) ≡ true
      → resolve_and_authorize trojan_hash now links (trojan_bytes r payload) new_cache
        ≡ ok (
          some (record {
            uuid = uid;
            address = host_text r.host;
            port = r.port;
            payload = payload;
            consumed = length (trojan_bytes r payload);
          }),
          (find_uuid trojan_hash links r.pw_hash new_cache).1,
        )
  unfolding resolve_and_authorize authorized
  resolve_and_authorize-trojan_bytes now links uid link r payload n ascii p v alone found hash
        allowed =
      rw (
        parse_trojan_header-trojan_bytes r payload n ascii p v,
        find_uuid-known links uid link r.pw_hash alone found hash,
        found,
        allowed,
      )

module _ {Rate : Type 0} (zero_rate : Rate) (target_of : Rate → ℕ) (trojan_hash : Text → Text)
    (connects : Text → ℕ → Bool) ⦃by_uuid : Key Text⦄ ⦃by_hour : Key ℕ⦄ where
  trojan_bytes-nonempty :
      (r : TrojanRequest) (payload : Bytes)
      → length r.pw_hash ≡ 56
      → 0 < length (trojan_bytes r payload)
  unfolding trojan_bytes
  trojan_bytes-nonempty r payload n = omega (arith, n, length-append r.pw_hash _)

  open_trojan-nonempty :
      (start moment : Moment) (chunk : Bytes) (c : HashCache) (s : Stats)
      → 0 < length chunk
      → open_trojan zero_rate target_of trojan_hash connects start moment
          (some (received chunk))
          c
          s
        ≡ resolved zero_rate target_of trojan_hash connects moment
            (resolve_and_authorize trojan_hash start.now s.panel.links chunk c)
            c
            s
  unfolding open_trojan
  open_trojan-nonempty start moment [] c s some_ = absurd (omega (arith, some_))
  open_trojan-nonempty start moment (b ∷ bs) c s some_ = refl

  open_trojan-trojan_bytes :
      (start moment : Moment) (uid : Text) (link : Link) (r : TrojanRequest) (payload : Bytes)
      (s : Stats)
      → length r.pw_hash ≡ 56
      → All (λ b. b < 128) r.pw_hash
      → r.port < 65536
      → IsWellFormed r.host
      → All (IsAlone trojan_hash uid) s.panel.links
      → get uid s.panel.links ≡ some link
      → trojan_hash uid ≡ r.pw_hash
      → is_link_allowed start.now (some link) ≡ true
      → (check_and_use moment uid (length (trojan_bytes r payload)) s.panel).0 ≡ true
      → connects (host_text r.host) r.port ≡ true
      → open_trojan zero_rate target_of trojan_hash connects start moment
          (some (received (trojan_bytes r payload)))
          new_cache
          s
        ≡ (
          relays (charged zero_rate target_of false moment uid (trojan_bytes r payload) payload s),
          (find_uuid trojan_hash s.panel.links r.pw_hash new_cache).1,
        )
  open_trojan-trojan_bytes start moment uid link r payload s n ascii p v alone found hash allowed
        paid reaches =
      open_trojan-nonempty start moment (trojan_bytes r payload) new_cache s
        (trojan_bytes-nonempty r payload n)
      ∙ rw (
        resolve_and_authorize-trojan_bytes trojan_hash start.now s.panel.links uid link r payload n
            ascii p v alone found hash allowed,
        charge_user,
        paid,
        connect_user,
        reaches,
      )

  -- A client sends the header of Trojan with the hash of a link that is allowed and within its quota, that no
  -- other link shares, to a cache of hashes that is new; the destination can be reached, then the messages of
  -- the client and the answers pass in any order until the first of both ends, and both gates are open after
  -- their last flush. Then the destination got the payload and what the client sent, the client got what
  -- the destination sent, both in order, and the link of that hash is charged exactly the bytes of the
  -- first message and those of both directions.
  pub trojan_ws_tunnel-trojan_bytes :
      (start moment : Moment) (uid : Text) (link : Link) (r : TrojanRequest) (payload : Bytes)
      (turns : List (Turn Rate)) (flush1 flush2 : Moment) (s : Stats)
      → length r.pw_hash ≡ 56
      → All (λ b. b < 128) r.pw_hash
      → r.port < 65536
      → IsWellFormed r.host
      → All (IsAlone trojan_hash uid) s.panel.links
      → get uid s.panel.links ≡ some link
      → trojan_hash uid ≡ r.pw_hash
      → is_link_allowed start.now (some link) ≡ true
      → (check_and_use moment uid (length (trojan_bytes r payload)) s.panel).0 ≡ true
      → connects (host_text r.host) r.port ≡ true
      → (finished zero_rate target_of turns flush1 flush2 (
          charged zero_rate target_of false moment uid
            (trojan_bytes r payload)
            payload
            s)).relay.upward.ok
        ≡ true
      → (finished zero_rate target_of turns flush1 flush2 (
          charged zero_rate target_of false moment uid
            (trojan_bytes r payload)
            payload
            s)).relay.downward.ok
        ≡ true
      → let chunk = trojan_bytes r payload in
        let t =
          finished zero_rate target_of turns flush1 flush2
            (charged zero_rate target_of false moment uid chunk payload s) in
        let passed = until_end turns in
        ((trojan_ws_tunnel zero_rate target_of trojan_hash connects start moment
            (some (received chunk))
            turns
            flush1
            flush2
            new_cache
            s).0
          ≡ relays t)
        × (t.written ≡ payload ++ upload passed)
        × (concat t.messages ≡ download passed)
        × (used_of uid t.relay.panel
            ≡ used_of uid s.panel
              + length chunk
              + length (upload passed)
              + length (download passed))
  unfolding trojan_ws_tunnel
  trojan_ws_tunnel-trojan_bytes start moment uid link r payload turns flush1 flush2 s n ascii p v
        alone found hash allowed paid reaches open_ open' =
      let (up_bytes, down_bytes, used) =
        charged-delivers zero_rate target_of false moment uid (trojan_bytes r payload) payload turns
          flush1 flush2 s paid open_ open' in
      let opening =
        open_trojan-trojan_bytes start moment uid link r payload s n ascii p v alone found hash
          allowed paid reaches in
      (
        ap (λ k. run_outcome zero_rate target_of turns flush1 flush2 k.0) opening,
        up_bytes,
        down_bytes ∙ answered-false (download (until_end turns)),
        used,
      )
