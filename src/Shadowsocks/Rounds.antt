-- ===== src/Shadowsocks/Rounds.antt =====
-- How many rounds of the decryption loop are enough: one more than the bytes in the buffer.
use rvg_sever.Prelude.{
  ℕ, zero, suc, ◌+◌, ◌<◌, ◌≡◌, refl, sym, ap, ◌∙◌, arith, List, [], ◌∷◌, length, take, drop, true,
  false, ltb, leb, ok, err, Result, ◌>>=◌, of_option, length-drop, value_error, Bool-cases,
  >>=-eq-ok, inl, inr, ltb→ge,
}
use rvg_sever.Wire.{Bytes, unpack_u16}
use rvg_sever.Crypto.{Aead}
use rvg_sever.Shadowsocks.{
  AeadStream, max_length, nonce_bytes, Round, stop, chunk, take_payload, round, decrypt_loop,
}

module _ (a : Aead) where
  -- The payload of a chunk, dropped from the buffer.
  abbrev taken : AeadStream → ℕ → Bytes → Round
  taken s l payload =
      chunk payload (record s { dec_nonce = s.dec_nonce + 1; buf = drop (l + 16) (drop 18 s.buf) })

  take_payload-whole :
      (s : AeadStream) (l : ℕ)
      → leb l max_length ≡ true
      → ltb (length s.buf) (18 + l + 16) ≡ false
      → take_payload a s l ≡ (
          of_option
            (a.decrypt (nonce_bytes s.dec_nonce) (take (l + 16) (drop 18 s.buf)))
            value_error
          >>= λ payload. ok (taken s l payload))
  unfolding take_payload
  take_payload-whole s l fits whole = rw (fits, whole)

  buf_of : Result Round → Bytes
  buf_of (ok (stop s)) = s.buf
  buf_of (ok (chunk _ s)) = s.buf
  buf_of (err _) = []

  take_payload-shrinks :
      (s s' : AeadStream) (l : ℕ) (p : Bytes)
      → take_payload a s l ≡ ok (chunk p s')
      → length s'.buf < length s.buf
  unfolding take_payload buf_of
  take_payload-shrinks s s' l p e = elim (Bool-cases (leb l max_length)) [
    | inr over ↦ absurd (ground (arith, over, e))
    | inl fits ↦ elim (Bool-cases (ltb (length s.buf) (18 + l + 16))) [
      | inl short ↦ absurd (ground (arith, fits, short, e))
      | inr whole ↦
          let (payload, _, done) =
            >>=-eq-ok
              (of_option (a.decrypt (nonce_bytes s.dec_nonce) (take (l + 16) (drop 18 s.buf)))
                value_error)
              (λ payload. ok (taken s l payload)) (sym (take_payload-whole s l fits whole) ∙ e) in
          let same : drop (l + 16) (drop 18 s.buf) ≡ s'.buf = ap buf_of done in
          omega (
            arith,
            ap length same,
            length-drop (l + 16) (drop 18 s.buf),
            length-drop 18 s.buf,
            ltb→ge (length s.buf) (18 + l + 16) whole,
          )
    ]
  ]

  round-long :
      (s : AeadStream)
      → ltb (length s.buf) 18 ≡ false
      → round a s ≡ (
          of_option (a.decrypt (nonce_bytes s.dec_nonce) (take 18 s.buf)) value_error >>= λ plain.
          unpack_u16 plain >>= λ l. take_payload a (record s { dec_nonce = s.dec_nonce + 1 }) l)
  unfolding round
  round-long s long = rw (long)

  -- A round that yields a chunk takes bytes off the buffer.
  pub round-shrinks :
      (s s' : AeadStream) (p : Bytes) → round a s ≡ ok (chunk p s') → length s'.buf < length s.buf
  unfolding round
  round-shrinks s s' p e = elim (Bool-cases (ltb (length s.buf) 18)) [
    | inl short ↦ absurd (ground (arith, short, e))
    | inr long ↦
        let next = take_payload a (record s { dec_nonce = s.dec_nonce + 1 }) in
        let (plain, _, e1) =
          >>=-eq-ok (of_option (a.decrypt (nonce_bytes s.dec_nonce) (take 18 s.buf)) value_error)
            (λ plain. unpack_u16 plain >>= next) (sym (round-long s long) ∙ e) in
        let (l, _, e2) = >>=-eq-ok (unpack_u16 plain) next e1 in
        take_payload-shrinks (record s { dec_nonce = s.dec_nonce + 1 }) s' l p e2
  ]

  after : ℕ → Round → Result (List Bytes × AeadStream)
  after n (stop s) = ok ([], s)
  after n (chunk p s) = do (rest, s') ← decrypt_loop a n s; ok (p ∷ rest, s')

  decrypt_loop-suc : (n : ℕ) (s : AeadStream) → decrypt_loop a (suc n) s ≡ (round a s >>= after n)
  unfolding decrypt_loop after
  decrypt_loop-suc n s = refl

  -- More rounds than the buffer has bytes change nothing.
  pub decrypt_loop-enough :
      (n m : ℕ) (s : AeadStream)
      → length s.buf < n
      → length s.buf < m
      → decrypt_loop a n s ≡ decrypt_loop a m s
  unfolding after
  decrypt_loop-enough zero m s few many = absurd (omega (arith, few))
  decrypt_loop-enough n zero s few many = absurd (omega (arith, many))
  decrypt_loop-enough (suc n) (suc m) s few many =
      let same : (r : Result Round) → round a s ≡ r → (r >>= after n) ≡ (r >>= after m) = λ r.
        elim r as (λ r. round a s ≡ r → (r >>= after n) ≡ (r >>= after m)) [
          | err e ↦ λ _. refl
          | ok (stop s') ↦ λ _. refl
          | ok (chunk p s') ↦ λ h.
              let less = round-shrinks s s' p h in
              rw (decrypt_loop-enough n m s' (omega (arith, less)) (omega (arith, less)))
        ] in
      decrypt_loop-suc n s ∙ same (round a s) refl ∙ sym (decrypt_loop-suc m s)
