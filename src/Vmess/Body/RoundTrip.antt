-- ===== src/Vmess/Body/RoundTrip.antt =====
-- A body reader gives back what a body writer sealed, however the connection cuts the bytes.
pub mod Frames
pub mod Channels
pub mod Start
use mathlib.Core.List.{append_assoc, append-nil}
use rvg_sever.Prelude.{
  ℕ, zero, suc, ◌+◌, ◌-◌, ◌<◌, ◌≤◌, ◌≡◌, refl, sym, ap, ◌∙◌, arith, List, [], ◌∷◌, ◌++◌, length,
  take, drop, Bool, true, false, Option, none, some, ok, Result, length-append, ◌>>=◌,
  if◌then◌else◌, All, leb, take-append-drop, length-take, length-drop, ltb, Bool-cases, inl, inr,
  leb→le, ◌⊎◌, ◌||◌, not,
}
use rvg_sever.Wire.{Bytes}
use rvg_sever.Crypto.{Suite}
use rvg_sever.Vmess.{max_chunk}
use rvg_sever.Vmess.Source.{Source, stream, IsLive, is_empty, concat}
use rvg_sever.Vmess.Body.{BodyReader, BodyWriter, seal, seal_all, write_eof, read}
use rvg_sever.Vmess.Body.RoundTrip.Channels.{
  Channel, writer_of, reader_of, CanSeal, chunk_of, after, seal-chunk_of, after-CanSeal,
  read-chunk_of, read-eof,
}

-- What one chunk can carry.
abbrev pub IsPiece : Bytes → Type 0
IsPiece p = (0 < length p) × (length p ≤ max_chunk)

module _ (suite : Suite) where
  -- The loop over `read` up to the end of the body, for at most `rounds` pieces.
  unfoldable pub read_all : ℕ → BodyReader → Result (List Bytes)
  read_all zero r = ok []
  read_all (suc rounds) r = do
    (p, r') ← read suite r
    let rest = read_all rounds r'
    if is_empty p then ok [] else (do ps ← rest; ok (p ∷ ps))

  module _ (token : ℕ → Bytes) where
    -- The bytes of a body without its end, and the channel behind it.
    abbrev pub chunks : Channel → List Bytes → Bytes
    chunks ch [] = []
    chunks ch (p ∷ ps) = chunk_of suite token p ch ++ chunks (after suite token p ch) ps

    abbrev pub after_all : Channel → List Bytes → Channel
    after_all ch [] = ch
    after_all ch (p ∷ ps) = after_all (after suite token p ch) ps

    pub after_all-CanSeal :
        (ch : Channel) (ps : List Bytes) → All IsPiece ps → CanSeal ch → CanSeal (after_all ch ps)
    after_all-CanSeal ch [] fit c = c
    after_all-CanSeal ch (p ∷ ps) fit c =
        after_all-CanSeal (after suite token p ch) ps fit.1
          (after-CanSeal suite token p fit.0.1 ch c)

    pub seal_all-chunks :
        (ch : Channel) (ps : List Bytes)
        → All IsPiece ps
        → CanSeal ch
        → seal_all suite token (writer_of ch) ps ≡ ok (chunks ch ps, writer_of (after_all ch ps))
    unfolding seal_all
    seal_all-chunks ch [] fit c = refl
    seal_all-chunks ch (p ∷ ps) fit c = rw (
      seal-chunk_of suite token p fit.0.1 ch c,
      seal_all-chunks (after suite token p ch) ps fit.1 (after-CanSeal suite token p fit.0.1 ch c),
    )

    -- The sealed body with its end.
    abbrev pub body : Channel → List Bytes → Bytes
    body ch ps = chunks ch ps ++ chunk_of suite token [] (after_all ch ps)

    full_piece : (p : Bytes) → 0 < length p → is_empty p ≡ false
    full_piece [] h = absurd (omega arith)
    full_piece (b ∷ p) h = refl

    pub read_all-chunks :
        ((n : ℕ) → length (token n) ≡ n)
        → (ch : Channel) (ps : List Bytes) (source : Source) (rest : Bytes) → All IsPiece ps
        → IsLive source
        → stream source ≡ body ch ps ++ rest
        → read_all (suc (length ps)) (reader_of ch source) ≡ ok ps
    unfolding read_all
    read_all-chunks len ch [] source rest fit live at =
        let (r, e, _) = read-eof suite token [] (omega arith) len source rest live ch refl at in
        rw e
    read_all-chunks len ch (p ∷ ps) source rest fit live at =
        let first = chunk_of suite token p ch in
        let ch' = after suite token p ch in
        let (source', e, at', live') =
          read-chunk_of suite token p fit.0.1 len source (body ch' ps ++ rest) live ch fit.0.0 (
            at
            ∙ (ap (λ t. t ++ rest)
                  (append_assoc first (chunks ch' ps) (chunk_of suite token [] (after_all ch' ps)))
                ∙ append_assoc first (body ch' ps) rest)) in
        rw (e, full_piece p fit.0.0, read_all-chunks len ch' ps source' rest fit.1 live' at')
