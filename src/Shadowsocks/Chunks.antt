-- ===== src/Shadowsocks/Chunks.antt =====
-- The rounds of the decryption loop on whole chunks, and the rounds that are enough.
use mathlib.Core.List.{append_assoc}
use rvg_sever.Prelude.{
  ℕ, zero, suc, ◌+◌, ◌<◌, ◌≤◌, ◌≡◌, refl, ap, ◌∙◌, arith, List, [], ◌∷◌, ◌++◌, length, take, drop,
  ok, All, le→ltb, le→leb, length-append, take-append, drop-append,
}
use rvg_sever.Wire.{Bytes, be16}
use rvg_sever.Wire.Numbers.{length-be16, unpack_u16-be16}
use rvg_sever.Crypto.{Aead}
use rvg_sever.Shadowsocks.{
  AeadStream, max_length, nonce_bytes, stop, chunk, take_payload, round, decrypt_loop,
}

-- The receiving side at counter `n` with `bs` to read.
abbrev pub at : ℕ → Bytes → AeadStream → AeadStream
at n bs s = record s { dec_nonce = n; buf = bs }

-- The counter after the chunks `ps`.
abbrev pub nonce_after : ℕ → List Bytes → ℕ
nonce_after n [] = n
nonce_after n (p ∷ ps) = nonce_after (n + 1 + 1) ps

module _ (a : Aead) where
  abbrev pub sealed_length : ℕ → Bytes → Bytes
  sealed_length n p = a.encrypt (nonce_bytes n) (be16 (length p))

  abbrev pub chunk_bytes : ℕ → Bytes → Bytes
  chunk_bytes n p = sealed_length n p ++ a.encrypt (nonce_bytes (n + 1)) p

  abbrev pub chunks_bytes : ℕ → List Bytes → Bytes
  chunks_bytes n [] = []
  chunks_bytes n (p ∷ ps) = chunk_bytes n p ++ chunks_bytes (n + 1 + 1) ps

  pub length-sealed_length : (n : ℕ) (p : Bytes) → length (sealed_length n p) ≡ 18
  length-sealed_length n p =
      omega (arith, a.length-encrypt (nonce_bytes n) (be16 (length p)), length-be16 (length p))

  pub length-chunk_bytes : (n : ℕ) (p : Bytes) → length (chunk_bytes n p) ≡ 18 + length p + 16
  length-chunk_bytes n p = omega (
    arith,
    length-append (sealed_length n p) (a.encrypt (nonce_bytes (n + 1)) p),
    length-sealed_length n p,
    a.length-encrypt (nonce_bytes (n + 1)) p,
  )

  -- A whole chunk is decrypted, and the counter moves by two.
  pub round-chunk_bytes :
      (n : ℕ) (p rest : Bytes) (s : AeadStream)
      → length p ≤ max_length
      → round a (at n (chunk_bytes n p ++ rest) s) ≡ ok (chunk p (at (n + 1 + 1) rest s))
  unfolding round take_payload
  round-chunk_bytes n p rest s fits =
      let bs = chunk_bytes n p ++ rest in
      let body = a.encrypt (nonce_bytes (n + 1)) p in
      let long : length bs ≡ 18 + length p + 16 + length rest =
        omega (arith, length-append (chunk_bytes n p) rest, length-chunk_bytes n p) in
      let assoc = append_assoc (sealed_length n p) body rest in
      rw (
        le→ltb (length bs) 18 (omega (arith, long)),
        ap (take 18) assoc
            ∙ take-append 18 (sealed_length n p) (body ++ rest) (length-sealed_length n p),
        a.decrypt-encrypt (nonce_bytes n) (be16 (length p)),
        unpack_u16-be16 (length p) (omega arith),
        le→leb (length p) max_length fits,
        le→ltb (length bs) (18 + length p + 16) (omega (arith, long)),
        ap (drop 18) assoc
            ∙ drop-append 18 (sealed_length n p) (body ++ rest) (length-sealed_length n p),
        take-append (length p + 16) body rest (a.length-encrypt (nonce_bytes (n + 1)) p),
        a.decrypt-encrypt (nonce_bytes (n + 1)) p,
        drop-append (length p + 16) body rest (a.length-encrypt (nonce_bytes (n + 1)) p),
      )

  round-nil : (n : ℕ) (s : AeadStream) → round a (at n [] s) ≡ ok (stop (at n [] s))
  unfolding round
  round-nil n s = refl

  -- Whole chunks are decrypted one by one, and nothing is left.
  pub decrypt_loop-chunks_bytes :
      (rounds n : ℕ) (ps : List Bytes) (s : AeadStream)
      → All (λ p. length p ≤ max_length) ps
      → length ps < rounds
      → decrypt_loop a rounds (at n (chunks_bytes n ps) s) ≡ ok (ps, at (nonce_after n ps) [] s)
  unfolding decrypt_loop
  decrypt_loop-chunks_bytes zero n ps s fits enough = absurd (omega arith)
  decrypt_loop-chunks_bytes (suc rounds) n [] s fits enough = rw (round-nil n s)
  decrypt_loop-chunks_bytes (suc rounds) n (p ∷ ps) s fits enough = rw (
    round-chunk_bytes n p (chunks_bytes (n + 1 + 1) ps) s fits.0,
    decrypt_loop-chunks_bytes rounds (n + 1 + 1) ps s fits.1 (omega arith),
  )
