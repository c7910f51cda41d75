-- ===== src/Tunnel/Delivery.antt =====
-- What a tunnel delivers in both directions, and what it charges.
use rvg_sever.Prelude.{
  ℕ, ◌+◌, ◌<◌, ◌≤◌, ◌≡◌, refl, sym, ap, ◌∙◌, arith, List, ◌++◌, Bool, true, some, Key, get, length,
}
use rvg_sever.Wire.{Bytes}
use rvg_sever.Wire.Text.{Text}
use rvg_sever.Header.{IsWellFormed, host_text}
use rvg_sever.Header.Vless.{VlessRequest, vless_bytes, parse_vless_header-vless_bytes}
use rvg_sever.Links.{Moment, is_link_allowed, check_and_use}
use rvg_sever.Links.Accounts.{used_of, used_of-check_and_use, added}
use rvg_sever.Links.Quota.{flush}
use rvg_sever.Links.Quota.Conservation.{flush-account}
use rvg_sever.Links.Quota.Sessions.{Relay, total, close, close-run}
use rvg_sever.Tunnel.Turns.{until_end, actions, upload, download, concat, answered, total-actions}
use rvg_sever.Tunnel.Turns.Delivers.{Delivers, relay_turns-Delivers}
use rvg_sever.Tunnel.{
  received, Turn, Stats, Tunnel, relays, relay_turns, close_tunnel, opened, connect_to,
  charge_first, open_tunnel, run_outcome, websocket_tunnel,
}

module _ {Rate : Type 0} (zero_rate : Rate) (target_of : Rate → ℕ) ⦃by_uuid : Key Text⦄
    ⦃by_hour : Key ℕ⦄ where
  open_tunnel-vless_bytes :
      (connects : Text → ℕ → Bool) (start moment : Moment) (uid : Text) (r : VlessRequest)
      (payload : Bytes) (s : Stats)
      → length r.uuid ≡ 16
      → r.port < 65536
      → IsWellFormed r.host
      → 24 ≤ length (vless_bytes r payload)
      → is_link_allowed start.now (get uid s.panel.links) ≡ true
      → (check_and_use moment uid (length (vless_bytes r payload)) s.panel).0 ≡ true
      → connects (host_text r.host) r.port ≡ true
      → let chunk = vless_bytes r payload in
        open_tunnel zero_rate target_of connects start moment uid (some (received chunk)) s
        ≡ relays (
            opened zero_rate target_of true uid
              (length chunk)
              payload
              (record s { panel = (check_and_use moment uid (length chunk) s.panel).1 }))
  unfolding open_tunnel vless_bytes
  open_tunnel-vless_bytes connects start moment uid r payload s u p v enough allowed charged
        reaches =
      rw (
        allowed,
        parse_vless_header-vless_bytes r payload u p v enough,
        charge_first,
        charged,
        connect_to,
        reaches,
      )

  close-ok :
      (first second : Moment) (r : Relay Rate)
      → (close zero_rate target_of first second r).upward.ok ≡ true
      → (close zero_rate target_of first second r).downward.ok ≡ true
      → (r.upward.ok ≡ true) × (r.downward.ok ≡ true)
  unfolding close
  close-ok first second r open_ open' = (
    (flush-account zero_rate target_of first r.upward.uuid r.upward r.panel refl open_).0,
    (flush-account zero_rate target_of second r.downward.uuid r.downward
        (flush zero_rate target_of first (r.upward, r.panel)).1 refl open').0,
  )

  -- A tunnel after its first message, whose bytes are charged.
  abbrev pub charged : Bool → Moment → Text → Bytes → Bytes → Stats → Tunnel Rate
  charged prefixes moment uid chunk payload s =
      opened zero_rate target_of prefixes uid (length chunk) payload
        (record s { panel = (check_and_use moment uid (length chunk) s.panel).1 })

  abbrev pub finished : List (Turn Rate) → Moment → Moment → Tunnel Rate → Tunnel Rate
  finished turns flush1 flush2 t =
      close_tunnel zero_rate target_of flush1 flush2 (relay_turns zero_rate target_of turns t)

  finished-Delivers :
      (prefixes : Bool) (turns : List (Turn Rate)) (flush1 flush2 : Moment) (uid : Text)
      (nbytes : ℕ) (payload : Bytes) (s : Stats)
      → let t0 = opened zero_rate target_of prefixes uid nbytes payload s in
        let t = finished turns flush1 flush2 t0 in
        t.relay.upward.ok ≡ true
        → t.relay.downward.ok ≡ true
        → Delivers zero_rate target_of
            (until_end turns)
            t0
            (relay_turns zero_rate target_of turns t0)
          × (used_of uid t.relay.panel ≡ used_of uid s.panel + total (actions (until_end turns)))
  unfolding opened
  finished-Delivers prefixes turns flush1 flush2 uid nbytes payload s open_ open' =
      let t0 = opened zero_rate target_of prefixes uid nbytes payload s in
      let t1 = relay_turns zero_rate target_of turns t0 in
      let d =
        relay_turns-Delivers zero_rate target_of turns t0 refl
          (close-ok flush1 flush2 t1.relay open_ open') in
      let closed = close zero_rate target_of flush1 flush2 in
      let acts = actions (until_end turns) in
      (
        d,
        ap (λ (r : Relay Rate). used_of uid (closed r).panel) d.gates
            ∙ close-run zero_rate target_of uid s.panel acts flush1 flush2
                (sym (ap (λ (r : Relay Rate). (closed r).upward.ok) d.gates) ∙ open_)
                (sym (ap (λ (r : Relay Rate). (closed r).downward.ok) d.gates) ∙ open'),
      )

  -- What the relays deliver behind a first message that is charged.
  pub charged-delivers :
      (prefixes : Bool) (moment : Moment) (uid : Text) (chunk payload : Bytes)
      (turns : List (Turn Rate)) (flush1 flush2 : Moment) (s : Stats)
      → (check_and_use moment uid (length chunk) s.panel).0 ≡ true
      → let t = finished turns flush1 flush2 (charged prefixes moment uid chunk payload s) in
        let passed = until_end turns in
        t.relay.upward.ok ≡ true
        → t.relay.downward.ok ≡ true
        → (t.written ≡ payload ++ upload passed)
          × (concat t.messages ≡ answered prefixes (download passed))
          × (used_of uid t.relay.panel
              ≡ used_of uid s.panel
                + length chunk
                + length (upload passed)
                + length (download passed))
  unfolding opened
  charged-delivers prefixes moment uid chunk payload turns flush1 flush2 s paid open_ open' =
      let s1 : Stats = record s { panel = (check_and_use moment uid (length chunk) s.panel).1 } in
      let (d, used) =
        finished-Delivers prefixes turns flush1 flush2 uid (length chunk) payload s1 open_ open' in
      let first =
        used_of-check_and_use moment uid (length chunk) s.panel
        ∙ ap (λ b. used_of uid s.panel + added b (length chunk)) paid in
      (d.up_bytes, d.down_bytes, used ∙ omega (arith, first, total-actions (until_end turns)))

  -- A client that is allowed, within its quota, sends the header of a destination that can be reached,
  -- with a payload; then its messages and the answers of the destination pass in any order until the
  -- first of both ends, and both gates are open after their last flush. Then the destination got the
  -- payload and what the client sent, in order; the client got two zero bytes and what the destination
  -- sent, in order, or nothing where that sent nothing; and the link is charged exactly the bytes of the
  -- first message and those of both directions.
  pub websocket_tunnel-vless_bytes :
      (connects : Text → ℕ → Bool) (start moment : Moment) (uid : Text) (r : VlessRequest)
      (payload : Bytes) (turns : List (Turn Rate)) (flush1 flush2 : Moment) (s : Stats)
      → length r.uuid ≡ 16
      → r.port < 65536
      → IsWellFormed r.host
      → 24 ≤ length (vless_bytes r payload)
      → is_link_allowed start.now (get uid s.panel.links) ≡ true
      → (check_and_use moment uid (length (vless_bytes r payload)) s.panel).0 ≡ true
      → connects (host_text r.host) r.port ≡ true
      → (finished turns flush1 flush2
          (charged true moment uid (vless_bytes r payload) payload s)).relay.upward.ok
        ≡ true
      → (finished turns flush1 flush2
          (charged true moment uid (vless_bytes r payload) payload s)).relay.downward.ok
        ≡ true
      → let chunk = vless_bytes r payload in
        let t = finished turns flush1 flush2 (charged true moment uid chunk payload s) in
        let passed = until_end turns in
        (websocket_tunnel zero_rate target_of connects start moment uid
            (some (received chunk))
            turns
            flush1
            flush2
            s
          ≡ relays t)
        × (t.written ≡ payload ++ upload passed)
        × (concat t.messages ≡ answered true (download passed))
        × (used_of uid t.relay.panel
            ≡ used_of uid s.panel
              + length chunk
              + length (upload passed)
              + length (download passed))
  unfolding websocket_tunnel
  websocket_tunnel-vless_bytes connects start moment uid r payload turns flush1 flush2 s u p v
        enough allowed paid reaches open_ open' =
      let (up_bytes, down_bytes, used) =
        charged-delivers true moment uid (vless_bytes r payload) payload turns flush1 flush2 s paid
          open_ open' in
      (
        ap (run_outcome zero_rate target_of turns flush1 flush2) (
            open_tunnel-vless_bytes connects start moment uid r payload s u p v enough allowed paid
              reaches),
        up_bytes,
        down_bytes,
        used,
      )
