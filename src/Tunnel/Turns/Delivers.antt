-- ===== src/Tunnel/Turns/Delivers.antt =====
-- What the turns of the relays of a tunnel do to it.
use mathlib.Core.Path.{subst}
use mathlib.Core.List.{append_assoc, append-nil}
use rvg_sever.Prelude.{
  ℕ, ◌+◌, ◌≡◌, refl, sym, ap, ◌∙◌, arith, List, [], ◌∷◌, ◌++◌, Bool, true, false, Key, length,
}
use rvg_sever.Wire.{Bytes}
use rvg_sever.Wire.Text.{Text}
use rvg_sever.Links.Quota.{Instant}
use rvg_sever.Links.Quota.Sessions.{up, down, act, run, total}
use rvg_sever.Tunnel.{
  disconnect, received, Turn, from_client, from_remote, Tunnel, framed, pass_up, pass_down, turn,
  relay_turns,
}
use rvg_sever.Tunnel.Turns.{
  until_end, actions, upload, download, concat, answered, concat-append, answered-false,
  framed-append,
}

module _ {Rate : Type 0} (zero_rate : Rate) (target_of : Rate → ℕ) ⦃by_uuid : Key Text⦄
    ⦃by_hour : Key ℕ⦄ where
  -- What the turns `es` have done to a tunnel.
  pub record Delivers (es : List (Turn Rate)) (t t' : Tunnel Rate) : Type 0 where
    pub gates : t'.relay ≡ run zero_rate target_of (actions es) t.relay
    pub up_bytes : t'.written ≡ t.written ++ upload es
    pub down_bytes : concat t'.messages ≡ concat t.messages ++ answered t.prefixes (download es)
    pub bytes : t'.counted ≡ t.counted + total (actions es)

  relay_turns-over :
      (es : List (Turn Rate)) (t : Tunnel Rate)
      → t.is_over ≡ true
      → relay_turns zero_rate target_of es t ≡ t
  unfolding relay_turns
  relay_turns-over [] t over = refl
  relay_turns-over (e ∷ es) t over = rw over

  relay_turns-next :
      (e : Turn Rate) (es : List (Turn Rate)) (t : Tunnel Rate)
      → t.is_over ≡ false
      → relay_turns zero_rate target_of (e ∷ es) t
        ≡ relay_turns zero_rate target_of es (turn zero_rate target_of e t)
  unfolding relay_turns
  relay_turns-next e es t going = rw going

  relay_turns-none : (t : Tunnel Rate) → relay_turns zero_rate target_of [] t ≡ t
  unfolding relay_turns
  relay_turns-none t = refl

  nothing-Delivers : (t t' : Tunnel Rate) → t' ≡ t → Delivers [] t t'
  unfolding run
  nothing-Delivers t t' e = record {
    gates = ap (λ k. k.relay) e;
    up_bytes = ap (λ k. k.written) e ∙ sym (append-nil t.written);
    down_bytes = ap (λ k. concat k.messages) e ∙ sym (append-nil (concat t.messages));
    bytes = omega (arith, ap (λ k. k.counted) e);
  }

  over-Delivers :
      (es : List (Turn Rate)) (t : Tunnel Rate)
      → Delivers [] t (relay_turns zero_rate target_of es (record t { is_over = true }))
  over-Delivers es t =
      let over : Tunnel Rate = record t { is_over = true } in
      let d =
        nothing-Delivers over (relay_turns zero_rate target_of es over)
          (relay_turns-over es over refl) in
      record { gates = d.gates; up_bytes = d.up_bytes; down_bytes = d.down_bytes; bytes = d.bytes }

  up-Delivers :
      (i : Instant Rate) (b : ℕ) (bs : Bytes) (es : List (Turn Rate)) (t t' : Tunnel Rate)
      → let chunk = b ∷ bs in
        let r = act zero_rate target_of (up i (length chunk)) t.relay in
        Delivers es
          (record t {
            relay = r;
            total_requests = t.total_requests + 1;
            counted = t.counted + length chunk;
            written = t.written ++ chunk;
          })
          t'
        → Delivers (from_client i (received (b ∷ bs)) ∷ es) t t'
  unfolding run act
  up-Delivers i b bs es t t' d = record {
    gates = d.gates;
    up_bytes = d.up_bytes ∙ append_assoc t.written (b ∷ bs) (upload es);
    down_bytes = d.down_bytes;
    bytes = omega (arith, d.bytes);
  }

  down-Delivers :
      (i : Instant Rate) (b : ℕ) (bs : Bytes) (es : List (Turn Rate)) (t t' : Tunnel Rate)
      → let chunk = b ∷ bs in
        let r = act zero_rate target_of (down i (length chunk)) t.relay in
        Delivers es
          (record t {
            relay = r;
            counted = t.counted + length chunk;
            messages = t.messages ++ (framed t.prefixes chunk ∷ []);
            prefixes = false;
          })
          t'
        → Delivers (from_remote i (b ∷ bs) ∷ es) t t'
  unfolding run act
  down-Delivers i b bs es t t' d = record {
    gates = d.gates;
    up_bytes = d.up_bytes;
    down_bytes =
        let front = concat t.messages in
        let frame = framed t.prefixes (b ∷ bs) in
        d.down_bytes
        ∙ ap (λ k. k ++ answered false (download es)) (concat-append t.messages frame)
        ∙ ap (λ k. (front ++ frame) ++ k) (answered-false (download es))
        ∙ append_assoc front frame (download es)
        ∙ ap (λ k. front ++ k) (sym (framed-append t.prefixes (b ∷ bs) (download es)));
    bytes = omega (arith, d.bytes);
  }

  -- While both gates are open.
  abbrev pub AreOpen : Tunnel Rate → Type 0
  AreOpen t = (t.relay.upward.ok ≡ true) × (t.relay.downward.ok ≡ true)

  -- The turns `es` behind a tunnel that still relays.
  abbrev pub Later : List (Turn Rate) → Type 0
  Later es =
      (t : Tunnel Rate)
      → t.is_over ≡ false
      → AreOpen (relay_turns zero_rate target_of es t)
      → Delivers (until_end es) t (relay_turns zero_rate target_of es t)

  turn_up-Delivers :
      (i : Instant Rate) (b : ℕ) (bs : Bytes) (es : List (Turn Rate)) (t : Tunnel Rate)
      → let e = from_client i (received (b ∷ bs)) in
        t.is_over ≡ false
        → AreOpen (relay_turns zero_rate target_of es (turn zero_rate target_of e t))
        → Later es
        → Delivers
            (e ∷ until_end es)
            t
            (relay_turns zero_rate target_of es (turn zero_rate target_of e t))
  unfolding turn
  turn_up-Delivers i b bs es t going open_ later =
      let chunk = b ∷ bs in
      let r = act zero_rate target_of (up i (length chunk)) t.relay in
      let next : Bool → Tunnel Rate =
        λ w. relay_turns zero_rate target_of es (pass_up zero_rate target_of w chunk r t) in
      elim r.upward.ok
          as (λ w.
            r.upward.ok ≡ w
            → AreOpen (next w)
            → Delivers (from_client i (received chunk) ∷ until_end es) t (next w)) [
              | false ↦ λ shut open_.
                  let over =
                    relay_turns-over es (pass_up zero_rate target_of false chunk r t) refl in
                  absurd (cc (shut, ap (λ (k : Tunnel Rate). k.relay.upward.ok) over, open_.0))
              | true ↦ λ passes open_.
                  up-Delivers i b bs (until_end es) t (next true)
                    (later (pass_up zero_rate target_of true chunk r t) going open_)
            ]
        refl open_

  turn_down-Delivers :
      (i : Instant Rate) (b : ℕ) (bs : Bytes) (es : List (Turn Rate)) (t : Tunnel Rate)
      → let e = from_remote i (b ∷ bs) in
        t.is_over ≡ false
        → AreOpen (relay_turns zero_rate target_of es (turn zero_rate target_of e t))
        → Later es
        → Delivers
            (e ∷ until_end es)
            t
            (relay_turns zero_rate target_of es (turn zero_rate target_of e t))
  unfolding turn
  turn_down-Delivers i b bs es t going open_ later =
      let chunk = b ∷ bs in
      let r = act zero_rate target_of (down i (length chunk)) t.relay in
      let next : Bool → Tunnel Rate =
        λ w. relay_turns zero_rate target_of es (pass_down zero_rate target_of w chunk r t) in
      elim r.downward.ok
          as (λ w.
            r.downward.ok ≡ w
            → AreOpen (next w)
            → Delivers (from_remote i chunk ∷ until_end es) t (next w)) [
              | false ↦ λ shut open_.
                  let over =
                    relay_turns-over es (pass_down zero_rate target_of false chunk r t) refl in
                  absurd (cc (shut, ap (λ (k : Tunnel Rate). k.relay.downward.ok) over, open_.1))
              | true ↦ λ passes open_.
                  down-Delivers i b bs (until_end es) t (next true)
                    (later (pass_down zero_rate target_of true chunk r t) going open_)
            ]
        refl open_

  empty-Delivers :
      (i : Instant Rate) (es : List (Turn Rate)) (t t' : Tunnel Rate)
      → Delivers es t t'
      → Delivers (from_client i (received []) ∷ es) t t'
  empty-Delivers i es t t' d = record {
    gates = d.gates;
    up_bytes = d.up_bytes;
    down_bytes = d.down_bytes;
    bytes = d.bytes;
  }

  turn-Delivers :
      (e : Turn Rate) (es : List (Turn Rate)) (t : Tunnel Rate)
      → t.is_over ≡ false
      → AreOpen (relay_turns zero_rate target_of es (turn zero_rate target_of e t))
      → Later es
      → Delivers
          (until_end (e ∷ es))
          t
          (relay_turns zero_rate target_of es (turn zero_rate target_of e t))
  unfolding turn
  turn-Delivers (from_client i disconnect) es t going open_ later = over-Delivers es t
  turn-Delivers (from_remote i []) es t going open_ later = over-Delivers es t
  turn-Delivers (from_client i (received [])) es t going open_ later =
      empty-Delivers i (until_end es) t (relay_turns zero_rate target_of es t) (later t going open_)
  turn-Delivers (from_client i (received (b ∷ bs))) es t going open_ later =
      turn_up-Delivers i b bs es t going open_ later
  turn-Delivers (from_remote i (b ∷ bs)) es t going open_ later =
      turn_down-Delivers i b bs es t going open_ later

  pub relay_turns-Delivers : (es : List (Turn Rate)) → Later es
  relay_turns-Delivers [] t going open_ =
      nothing-Delivers t (relay_turns zero_rate target_of [] t) (relay_turns-none t)
  relay_turns-Delivers (e ∷ es) t going open_ =
      let next = relay_turns-next e es t going in
      subst (Delivers (until_end (e ∷ es)) t) (sym next)
        (turn-Delivers e es t going (subst AreOpen next open_) (relay_turns-Delivers es))
