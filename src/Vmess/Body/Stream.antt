-- ===== src/Vmess/Body/Stream.antt =====
-- Whole bodies: what a relay writes by `write_chunk` and ends by `write_eof` is what the other
-- side reads, piece by piece up to the end.
use mathlib.Core.List.{append_assoc, append-nil}
use rvg_sever.Prelude.{
  ℕ, zero, suc, ◌<◌, ◌≤◌, ◌≡◌, refl, sym, ap, ◌∙◌, arith, List, [], ◌∷◌, ◌++◌, length, take, drop,
  true, ok, Result, ◌>>=◌, if◌then◌else◌, All, All-append, leb, take-append-drop, length-take,
  length-drop, Bool-cases, inl, inr, leb→le,
}
use rvg_sever.Wire.{Bytes}
use rvg_sever.Crypto.{Suite}
use rvg_sever.Vmess.{max_chunk}
use rvg_sever.Vmess.Source.{Source, IsFull, concat}
use rvg_sever.Vmess.Body.{BodyWriter, pieces, write_chunk, write_eof, new_writer, new_reader}
use rvg_sever.Vmess.Body.RoundTrip.{
  IsPiece, read_all, chunks, after_all, body, seal_all-chunks, read_all-chunks, after_all-CanSeal,
}
use rvg_sever.Vmess.Body.RoundTrip.Channels.{
  Channel, writer_of, CanSeal, after, chunk_of, seal-chunk_of,
}
use rvg_sever.Vmess.Body.RoundTrip.Start.{IsSupported, can_send, start}

-- The chunks that one payload becomes.
abbrev pub split : Bytes → List Bytes
split p = if leb (length p) max_chunk then p ∷ [] else pieces (length p) p

abbrev pub splits : List Bytes → List Bytes
splits [] = []
splits (p ∷ ps) = split p ++ splits ps

concat-append : (xs ys : List Bytes) → concat (xs ++ ys) ≡ concat xs ++ concat ys
concat-append [] ys = refl
concat-append (x ∷ xs) ys = rw (concat-append xs ys) (sym (append_assoc x (concat xs) (concat ys)))

pieces-IsPiece :
    (n : ℕ) (p : Bytes) → length p ≤ n → All IsPiece (pieces n p) × (concat (pieces n p) ≡ p)
unfolding pieces
pieces-IsPiece zero [] h = (tt, refl)
pieces-IsPiece zero (b ∷ p) h = absurd (omega arith)
pieces-IsPiece (suc n) [] h = (tt, refl)
pieces-IsPiece (suc n) (b ∷ p) h =
    let (fit, whole) =
      pieces-IsPiece n (drop max_chunk (b ∷ p)) (omega (arith, length-drop max_chunk (b ∷ p))) in
    (
      (
        (
          omega (arith, length-take max_chunk (b ∷ p)),
          omega (arith, length-take max_chunk (b ∷ p)),
        ),
        fit,
      ),
      ap (λ t. take max_chunk (b ∷ p) ++ t) whole ∙ take-append-drop max_chunk (b ∷ p),
    )

-- No chunk is empty or too long, and together they are the payload.
split-IsPiece : (p : Bytes) → 0 < length p → All IsPiece (split p) × (concat (split p) ≡ p)
split-IsPiece p full = elim (Bool-cases (leb (length p) max_chunk)) [
  | inl short ↦ rw short (((full, leb→le (length p) max_chunk short), tt), append-nil p)
  | inr long ↦ rw long (pieces-IsPiece (length p) p (omega arith))
]

splits-IsPiece :
    (ps : List Bytes)
    → All (λ p. 0 < length p) ps
    → All IsPiece (splits ps) × (concat (splits ps) ≡ concat ps)
splits-IsPiece [] full = (tt, refl)
splits-IsPiece (p ∷ ps) full =
    let (fit, whole) = split-IsPiece p full.0 in
    let (fits, wholes) = splits-IsPiece ps full.1 in
    (
      All-append IsPiece (split p) (splits ps) fit fits,
      concat-append (split p) (splits ps)
          ∙ (ap (λ t. t ++ concat (splits ps)) whole ∙ ap (λ t. p ++ t) wholes),
    )

module _ (suite : Suite) (token : ℕ → Bytes) where
  -- The relay's writes, without the end.
  unfoldable pub write_chunks : BodyWriter → List Bytes → Result (Bytes × BodyWriter)
  write_chunks w [] = ok ([], w)
  write_chunks w (p ∷ ps) = do
    (bs, w') ← write_chunk suite token w p
    (rest, w'') ← write_chunks w' ps
    ok (bs ++ rest, w'')

  unfoldable pub write_body : BodyWriter → List Bytes → Result Bytes
  write_body w ps = do
    (bs, w') ← write_chunks w ps
    (end, _) ← write_eof suite token w'
    ok (bs ++ end)

  chunks-append :
      (ch : Channel) (ps qs : List Bytes)
      → chunks suite token ch (ps ++ qs)
        ≡ chunks suite token ch ps ++ chunks suite token (after_all suite token ch ps) qs
  chunks-append ch [] qs = refl
  chunks-append ch (p ∷ ps) qs =
      let ch' = after suite token p ch in
      rw (chunks-append ch' ps qs) (
        sym (
          append_assoc (chunk_of suite token p ch) (chunks suite token ch' ps)
            (chunks suite token (after_all suite token ch' ps) qs)))

  after_all-append :
      (ch : Channel) (ps qs : List Bytes)
      → after_all suite token ch (ps ++ qs) ≡ after_all suite token (after_all suite token ch ps) qs
  after_all-append ch [] qs = refl
  after_all-append ch (p ∷ ps) qs = after_all-append (after suite token p ch) ps qs

  write_chunk-chunks :
      (ch : Channel) (p : Bytes)
      → 0 < length p
      → CanSeal ch
      → write_chunk suite token (writer_of ch) p
        ≡ ok (chunks suite token ch (split p), writer_of (after_all suite token ch (split p)))
  unfolding write_chunk
  write_chunk-chunks ch p full c = elim (Bool-cases (leb (length p) max_chunk)) [
    | inl short ↦ rw (
      short,
      seal-chunk_of suite token p (leb→le (length p) max_chunk short) ch c,
      append-nil (chunk_of suite token p ch),
    )
    | inr long ↦ rw (
      long,
      seal_all-chunks suite token ch (pieces (length p) p)
          (pieces-IsPiece (length p) p (omega arith)).0 c,
    )
  ]

  write_chunks-chunks :
      (ch : Channel) (ps : List Bytes)
      → All (λ p. 0 < length p) ps
      → CanSeal ch
      → write_chunks (writer_of ch) ps
        ≡ ok (chunks suite token ch (splits ps), writer_of (after_all suite token ch (splits ps)))
  unfolding write_chunks
  write_chunks-chunks ch [] full c = refl
  write_chunks-chunks ch (p ∷ ps) full c =
      let (fit, _) = split-IsPiece p full.0 in
      let ch' = after_all suite token ch (split p) in
      rw (
        write_chunk-chunks ch p full.0 c,
        write_chunks-chunks ch' ps full.1 (after_all-CanSeal suite token ch (split p) fit c),
        chunks-append ch (split p) (splits ps),
        after_all-append ch (split p) (splits ps),
      )

  -- The writes of a body succeed.
  pub write_body-body :
      (ch : Channel) (ps : List Bytes)
      → All (λ p. 0 < length p) ps
      → CanSeal ch
      → write_body (writer_of ch) ps ≡ ok (body suite token ch (splits ps))
  unfolding write_body write_eof
  write_body-body ch ps full c =
      let (fits, _) = splits-IsPiece ps full in
      let ch' = after_all suite token ch (splits ps) in
      rw (
        write_chunks-chunks ch ps full c,
        seal-chunk_of suite token [] (omega arith) ch'
            (after_all-CanSeal suite token ch (splits ps) fits c),
      )

  module _ (key iv : Bytes) (security option : ℕ) (payloads : List Bytes) where
    -- The payloads are not empty (an empty chunk is the end of a body), the cipher is supported, and the
    -- options have no padding without a mask. However the connection cuts the bytes of a body into reads
    -- that are not empty, a reader with the same keys and options reads the payloads up to the end, in
    -- pieces that join to them.
    pub read_all-write_body :
        (fills : List Bytes)
        → IsSupported security
        → can_send option ≡ true
        → ((n : ℕ) → length (token n) ≡ n)
        → All (λ p. 0 < length p) payloads
        → All IsFull fills
        → (new_writer suite key iv security option >>= λ w. write_body w payloads)
          ≡ ok (concat fills)
        → ((new_reader suite key iv security option fills
              >>= read_all suite (suc (length (splits payloads))))
            ≡ ok (splits payloads))
          × (concat (splits payloads) ≡ concat payloads)
    read_all-write_body fills sec can len full live written =
        let (ch, c, w, r) = start suite key iv security option sec can in
        let (fits, whole) = splits-IsPiece payloads full in
        let source : Source = record { buf = []; fills = fills } in
        let at : concat fills ≡ body suite token ch (splits payloads) =
          cc (written, w, write_body-body ch payloads full c) in
        (
          rw (r fills) (
              read_all-chunks suite token len ch (splits payloads) source [] fits live
                (at ∙ sym (append-nil (body suite token ch (splits payloads))))),
          whole,
        )
