-- ===== src/Xhttp/Packets.antt =====
-- Packets in any order against the stream that they are the pieces of.
pub mod Order
use mathlib.Core.Path.{subst}
use rvg_sever.Prelude.{
  ℕ, zero, suc, ◌+◌, ◌-◌, ◌<◌, ◌≤◌, ◌≡◌, ◌≢◌, refl, sym, ap, arith, List, [], ◌∷◌, ◌++◌, Bool, true,
  false, ltb, ◌==◌, if◌then◌else◌, Option, none, some, Option-cases, inl, inr, Key, Dict, get,
  remove, get-remove, ite, length, ℕ_discrete, if_pos, if_neg,
}
use rvg_sever.Wire.{Bytes}
use rvg_sever.Xhttp.{
  Writer, write, Session, Upload, stored, kept, connecting, broken, drain_buffer, wait_for, advance,
  receive_by, receive, connected,
}

abbrev pub bytes_of : Option Bytes → Bytes
bytes_of none = []
bytes_of (some bs) = bs

module _ ⦃by_seq : Key ℕ⦄ where
  -- The first `n` pieces of what was seen, in order.
  abbrev pub stream : Dict ℕ Bytes → ℕ → Bytes
  stream seen zero = []
  stream seen (suc n) = stream seen n ++ bytes_of (get n seen)

  abbrev pub HasAll : Dict ℕ Bytes → ℕ → Type 0
  HasAll seen n = (k : ℕ) → k < n → (bs : Bytes) × (get k seen ≡ some bs)

  -- The writer has the first `n` pieces, and the other pieces wait.
  pub record Split (seen : Dict ℕ Bytes) (n : ℕ) (buf : Dict ℕ Bytes) (w : Writer) : Type 0 where
    pub is_open : w.closing ≡ false
    pub out : w.out ≡ stream seen n
    pub has_all : HasAll seen n
    pub waiting : (k : ℕ) → get k buf ≡ (if ltb k n then none else get k seen)

  length-remove_le : (k : ℕ) (d : Dict ℕ Bytes) → length (remove k d) ≤ length d
  unfolding remove
  length-remove_le k [] = omega arith
  length-remove_le k ((j, v) ∷ d) = ground (arith, length-remove_le k d)

  length-remove :
      (k : ℕ) (d : Dict ℕ Bytes) (bs : Bytes) → get k d ≡ some bs → length (remove k d) < length d
  unfolding get remove
  length-remove k [] bs h = cc (h)
  length-remove k ((j, v) ∷ d) bs h = ground (arith, length-remove_le k d, length-remove k d bs)

  get-none : (k : ℕ) (d : Dict ℕ Bytes) → length d ≤ 0 → get k d ≡ none
  unfolding get
  get-none k [] h = refl
  get-none k (_ ∷ _) h = absurd (omega arith)

  pub HasAll-next :
      (seen : Dict ℕ Bytes) (n : ℕ) (bs : Bytes)
      → get n seen ≡ some bs
      → HasAll seen n
      → HasAll seen (n + 1)
  HasAll-next seen n bs e all k h = elim (ℕ_discrete k n) [
    | yes p ↦ (bs, rw p e)
    | no p ↦ all k (omega arith)
  ]

  -- The piece that is next in turn is written.
  pub Split-next :
      (seen : Dict ℕ Bytes) (n : ℕ) (buf rest : Dict ℕ Bytes) (w : Writer) (bs : Bytes)
      → Split seen n buf w
      → get n seen ≡ some bs
      → ((k : ℕ) → get k rest ≡ (if ltb k (n + 1) then none else get k buf))
      → Split seen (n + 1) rest (write bs w)
  unfolding write
  Split-next seen n buf rest w bs s e waits = record {
    is_open = s.is_open;
    out = let next : n + 1 ≡ suc n = omega arith in rw next (rw e (ap (λ out. out ++ bs) s.out));
    has_all = HasAll-next seen n bs e s.has_all;
    waiting = λ k. ground (arith, waits k, s.waiting k);
  }

  drain_buffer-none :
      (fuel n : ℕ) (buf : Dict ℕ Bytes) (w : Writer)
      → get n buf ≡ none
      → drain_buffer (suc fuel) n buf w ≡ (true, n, buf, w)
  unfolding drain_buffer
  drain_buffer-none fuel n buf w e = rw (e, drain_buffer)

  drain_buffer-some :
      (fuel n : ℕ) (buf : Dict ℕ Bytes) (w : Writer) (bs : Bytes)
      → get n buf ≡ some bs
      → w.closing ≡ false
      → drain_buffer (suc fuel) n buf w ≡ drain_buffer fuel (n + 1) (remove n buf) (write bs w)
  unfolding drain_buffer
  drain_buffer-some fuel n buf w bs e is_open = ground (arith, e, is_open)

  -- What the loop ends with: the transport is open, and the next piece was not seen.
  abbrev pub Drained : Dict ℕ Bytes → Bool × ℕ × Dict ℕ Bytes × Writer → Type 0
  Drained seen (ok, nxt, buf, w) = (ok ≡ true) × Split seen nxt buf w × (get nxt seen ≡ none)

  -- As much fuel as packets wait is enough.
  pub drain_buffer-Drained :
      (seen : Dict ℕ Bytes) (fuel n : ℕ) (buf : Dict ℕ Bytes) (w : Writer)
      → Split seen n buf w
      → length buf ≤ fuel
      → Drained seen (drain_buffer fuel n buf w)
  unfolding drain_buffer
  drain_buffer-Drained seen zero n buf w s h =
      (refl, s, ground (arith, s.waiting n, get-none n buf))
  drain_buffer-Drained seen (suc fuel) n buf w s h = elim (Option-cases (get n buf)) [
    | inl e ↦
        subst (Drained seen) (sym (drain_buffer-none fuel n buf w e))
          (refl, s, ground (arith, s.waiting n, e))
    | inr (bs, e) ↦
        let rest = remove n buf in
        let found : get n seen ≡ some bs = ground (arith, s.waiting n, e) in
        let waits : (k : ℕ) → get k rest ≡ (if ltb k (n + 1) then none else get k buf) =
          λ k. ground (arith, get-remove n k buf, s.waiting k) in
        subst (Drained seen) (sym (drain_buffer-some fuel n buf w bs e s.is_open)) (
          drain_buffer-Drained seen fuel (n + 1) rest (write bs w)
            (Split-next seen n buf rest w bs s found waits)
            (omega (arith, length-remove n buf bs e)))
  ]
