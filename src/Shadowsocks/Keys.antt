-- ===== src/Shadowsocks/Keys.antt =====
-- `derive_key` and `_hkdf_sha1` of protocol/shadowsocks/shadowsocks.py: keys of a wanted length from
-- digests, by loops that append digests until there are enough bytes. MD5 and HMAC-SHA1 are
-- parameters, which rely on nothing but the length of a digest.
use mathlib.Core.List.{append_assoc}
use rvg_sever.Prelude.{
  ℕ, zero, suc, ◌+◌, ◌*◌, ◌≤◌, ◌≡◌, refl, sym, arith, [], ◌∷◌, ◌++◌, length, take, ltb,
  if◌then◌else◌, Result, ok, require, ◌>>=◌, ◌>>◌, value_error, Bool-cases, inl, inr, le→ltb,
  lt→ltb, ltb→lt, ltb→ge, length-append, length-take, take-append_le,
}
use rvg_sever.Wire.{Bytes}

-- The loop of `derive_key`, for at most `rounds` rounds.
module _ (md5 : Bytes → Bytes) where
  unfoldable pub derive_loop : ℕ → Bytes → ℕ → Bytes → Bytes → Bytes
  derive_loop zero password key_len d d_prev = d
  derive_loop (suc rounds) password key_len d d_prev =
      if ltb (length d) key_len
      then (let d_next = md5 (d_prev ++ password) in
          derive_loop rounds password key_len (d ++ d_next) d_next)
      else d

  unfoldable pub derive_key : Bytes → ℕ → Bytes
  unfolding derive_loop
  derive_key password key_len = take key_len (derive_loop key_len password key_len [] [])

-- `bytes([i])`: the counter of a digest; more than 255 digests raise.
module _ (hmac_sha1 : Bytes → Bytes → Bytes) where
  unfoldable pub hkdf_loop : ℕ → Bytes → Bytes → ℕ → Bytes → Bytes → ℕ → Result Bytes
  hkdf_loop zero prk info length_ okm t i = ok okm
  hkdf_loop (suc rounds) prk info length_ okm t i =
      if ltb (length okm) length_
      then (do
        require (ltb i 256) value_error
        let t' = hmac_sha1 prk (t ++ (info ++ (i ∷ [])))
        hkdf_loop rounds prk info length_ (okm ++ t') t' (i + 1))
      else ok okm

  unfoldable pub hkdf_sha1 : Bytes → Bytes → Bytes → ℕ → Result Bytes
  unfolding hkdf_loop
  hkdf_sha1 key salt info length_ = do
    okm ← hkdf_loop length_ (hmac_sha1 salt key) info length_ [] [] 1
    ok (take length_ okm)

  -- b"ss-subkey"
  abbrev pub ss_subkey : Bytes
  ss_subkey = 115 ∷ 115 ∷ 45 ∷ 115 ∷ 117 ∷ 98 ∷ 107 ∷ 101 ∷ 121 ∷ []

  unfoldable pub subkey : Bytes → Bytes → ℕ → Result Bytes
  unfolding hkdf_sha1
  subkey master_key salt key_len = hkdf_sha1 master_key salt ss_subkey key_len

-- The digests D(1) = md5(password), D(i + 1) = md5(D(i) + password), one after the other: `count` of
-- them after the digest `d_prev`.
abbrev pub digests : (Bytes → Bytes) → Bytes → ℕ → Bytes → Bytes
digests md5 password zero d_prev = []
digests md5 password (suc count) d_prev =
    md5 (d_prev ++ password) ++ digests md5 password count (md5 (d_prev ++ password))

module _ (md5 : Bytes → Bytes) (size : (bs : Bytes) → length (md5 bs) ≡ 16) where
  -- With as many rounds as bytes are missing, the loop ends with enough bytes, and it has added to `d`.
  take-derive_loop :
      (rounds count : ℕ) (password : Bytes) (key_len : ℕ) (d d_prev : Bytes)
      → key_len ≤ rounds + length d
      → key_len ≤ count * 16 + length d
      → take key_len (derive_loop md5 rounds password key_len d d_prev)
        ≡ take key_len (d ++ digests md5 password count d_prev)
  unfolding derive_loop
  take-derive_loop zero count password key_len d d_prev enough many =
      sym (take-append_le key_len d (digests md5 password count d_prev) (omega (arith, enough)))
  take-derive_loop (suc rounds) zero password key_len d d_prev enough many =
      rw (le→ltb (length d) key_len (omega (arith, many)))
        (sym (take-append_le key_len d [] (omega (arith, many))))
  take-derive_loop (suc rounds) (suc count) password key_len d d_prev enough many =
      elim (Bool-cases (ltb (length d) key_len)) [
        | inl more ↦
            let d_next = md5 (d_prev ++ password) in
            let longer : length (d ++ d_next) ≡ length d + 16 =
              omega (arith, length-append d d_next, size (d_prev ++ password)) in
            rw (
              more,
              take-derive_loop rounds count password key_len (d ++ d_next) d_next
                  (omega (arith, enough, longer)) (omega (arith, many, longer)),
              append_assoc d d_next (digests md5 password count d_next),
            )
        | inr done ↦ rw (done) (
            sym (
              take-append_le key_len d (digests md5 password (suc count) d_prev)
                (ltb→ge (length d) key_len done)))
      ]

  -- The key is the first `key_len` bytes of any number of digests that have so many bytes.
  pub derive_key-digests :
      (password : Bytes) (key_len count : ℕ)
      → key_len ≤ count * 16
      → derive_key md5 password key_len ≡ take key_len (digests md5 password count [])
  unfolding derive_key
  derive_key-digests password key_len count many =
      take-derive_loop key_len count password key_len [] [] (omega arith) (omega (arith, many))

module _ (hmac_sha1 : Bytes → Bytes → Bytes)
    (size : (k bs : Bytes) → length (hmac_sha1 k bs) ≡ 20) where
  hkdf_loop-enough :
      (rounds : ℕ) (prk info : Bytes) (length_ : ℕ) (okm t : Bytes) (i : ℕ)
      → length_ ≤ rounds + length okm
      → length_ + 20 * i ≤ length okm + 5120
      → (okm' : Bytes) × (hkdf_loop hmac_sha1 rounds prk info length_ okm t i ≡ ok okm')
        × (length_ ≤ length okm')
  unfolding hkdf_loop
  hkdf_loop-enough zero prk info length_ okm t i enough few = (okm, refl, omega (arith, enough))
  hkdf_loop-enough (suc rounds) prk info length_ okm t i enough few =
      let t' = hmac_sha1 prk (t ++ (info ++ (i ∷ []))) in
      elim (Bool-cases (ltb (length okm) length_)) [
        | inl more ↦
            let longer : length (okm ++ t') ≡ length okm + 20 =
              omega (arith, length-append okm t', size prk (t ++ (info ++ (i ∷ [])))) in
            let less = ltb→lt (length okm) length_ more in
            let (okm', e, fits) =
              hkdf_loop-enough rounds prk info length_ (okm ++ t') t' (i + 1)
                (omega (arith, enough, longer)) (omega (arith, few, longer)) in
            (okm', rw (more, lt→ltb i 256 (omega (arith, few, less))) e, fits)
        | inr done ↦ (okm, rw (done) refl, ltb→ge (length okm) length_ done)
      ]

  -- Up to 255 digests of 20 bytes there is a key, and it has the wanted length.
  pub length-hkdf_sha1 :
      (key salt info : Bytes) (length_ : ℕ)
      → length_ ≤ 5100
      → (okm : Bytes) × (hkdf_sha1 hmac_sha1 key salt info length_ ≡ ok okm)
        × (length okm ≡ length_)
  unfolding hkdf_sha1
  length-hkdf_sha1 key salt info length_ fits =
      let (okm, e, enough) =
        hkdf_loop-enough length_ (hmac_sha1 salt key) info length_ [] [] 1 (omega arith)
          (omega (arith, fits)) in
      (take length_ okm, rw (e) refl, omega (arith, length-take length_ okm, enough))
