-- ===== src/Vmess/Source.antt =====
-- The input of a body reader: the buffer, and what the next calls of `fill` will return. Where
-- the list ends `fill` returns `b""`, the end of the connection.
use mathlib.Core.List.{append_assoc, append-nil}
use rvg_sever.Prelude.{
  ℕ, ◌<◌, ◌≤◌, ◌≡◌, refl, sym, ap, ◌∙◌, arith, List, [], ◌∷◌, ◌++◌, length, take, drop, Bool, true,
  false, leb, le→leb, lt→leb, if◌then◌else◌, All, length-append, take-append_le, take-append,
  drop-append_le, drop-append, Bool-cases, inl, inr, leb→le,
}
use rvg_sever.Wire.{Bytes}

pub record Source : Type 0 where
  pub buf : Bytes
  pub fills : List Bytes

abbrev pub is_empty : Bytes → Bool
is_empty [] = true
is_empty (_ ∷ _) = false

-- `_need` of `BodyReader`: False is the end of the connection before `n` bytes are there.
need_from : ℕ → Bytes → List Bytes → Bool × Source
need_from n buf [] = (leb n (length buf), record { buf = buf; fills = [] })
need_from n buf (chunk ∷ fills) =
    let more = need_from n (buf ++ chunk) fills in
    if leb n (length buf)
    then (true, record { buf = buf; fills = chunk ∷ fills })
    else if is_empty chunk
    then (false, record { buf = buf; fills = fills })
    else more

unfoldable pub need : ℕ → Source → Bool × Source
unfolding need_from
need n s = need_from n s.buf s.fills

-- del self._buf[:n]
abbrev pub discard : ℕ → Source → Source
discard n s = record s { buf = drop n s.buf }

abbrev pub concat : List Bytes → Bytes
concat [] = []
concat (x ∷ xs) = x ++ concat xs

-- All bytes that are still to come, however they are cut.
abbrev pub stream : Source → Bytes
stream s = s.buf ++ concat s.fills

abbrev pub IsFull : Bytes → Type 0
IsFull bs = is_empty bs ≡ false

-- No read of the connection is empty before its end.
abbrev pub IsLive : Source → Type 0
IsLive s = All IsFull s.fills

need_from-stream :
    (n : ℕ) (buf : Bytes) (fills : List Bytes)
    → All IsFull fills
    → n ≤ length (buf ++ concat fills)
    → ((need_from n buf fills).0 ≡ true)
      × (stream (need_from n buf fills).1 ≡ buf ++ concat fills)
      × (n ≤ length (need_from n buf fills).1.buf)
      × IsLive (need_from n buf fills).1
unfolding need_from
need_from-stream n buf [] full h =
    let e : n ≤ length buf = rw append-nil at h in (le→leb n (length buf) e, refl, e, tt)
need_from-stream n buf (chunk ∷ fills) full h = elim (Bool-cases (leb n (length buf))) [
  | inl enough ↦ rw enough (refl, refl, leb→le n (length buf) enough, full)
  | inr short ↦
      rw (short, full.0, ← append_assoc buf)
        (need_from-stream n (buf ++ chunk) fills full.1 (rw append_assoc h))
]

need_from-end :
    (n : ℕ) (buf : Bytes) (fills : List Bytes)
    → All IsFull fills
    → length (buf ++ concat fills) < n
    → (need_from n buf fills).0 ≡ false
unfolding need_from
need_from-end n buf [] full h = lt→leb n (length buf) (rw append-nil at h)
need_from-end n buf (chunk ∷ fills) full h =
    rw (lt→leb n (length buf) (omega (arith, length-append buf (chunk ++ concat fills))), full.0)
      (need_from-end n (buf ++ chunk) fills full.1 (rw append_assoc h))

-- Bytes that the connection will deliver are there after `_need`, and come off the stream.
pub need-stream :
    (n : ℕ) (s : Source) (xs rest : Bytes)
    → IsLive s
    → stream s ≡ xs ++ rest
    → length xs ≡ n
    → ((need n s).0 ≡ true)
      × (take n (need n s).1.buf ≡ xs)
      × (stream (discard n (need n s).1) ≡ rest)
      × IsLive (need n s).1
unfolding need
need-stream n s xs rest live e len =
    let (ready, same, long, live') =
      need_from-stream n s.buf s.fills live (rw e (omega (arith, length-append xs rest))) in
    let s' = (need_from n s.buf s.fills).1 in
    let whole : s'.buf ++ concat s'.fills ≡ xs ++ rest = same ∙ e in
    (
      ready,
      sym (take-append_le n s'.buf (concat s'.fills) long)
          ∙ (ap (take n) whole ∙ take-append n xs rest len),
      sym (drop-append_le n s'.buf (concat s'.fills) long)
          ∙ (ap (drop n) whole ∙ drop-append n xs rest len),
      live',
    )

-- At the end of the connection `_need` fails, and says so without an exception.
pub need-end : (n : ℕ) (s : Source) → IsLive s → length (stream s) < n → (need n s).0 ≡ false
unfolding need
need-end n s live short = need_from-end n s.buf s.fills live short
