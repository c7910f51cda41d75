-- ===== src/Shadowsocks/Cuts.antt =====
-- What a Shadowsocks stream does with a chunk that has not arrived whole, and with a payload that is
-- too long for one chunk.
use mathlib.Core.List.{append_assoc}
use rvg_sever.Prelude.{
  ℕ, suc, ◌+◌, ◌<◌, ◌≤◌, ◌≡◌, ap, ◌∙◌, arith, [], ◌∷◌, ◌++◌, length, true, if◌then◌else◌, some,
  none, ok, err, value_error, le→ltb, lt→ltb, le→leb, lt→leb, length-append, take-append,
}
use rvg_sever.Wire.{Bytes, be16}
use rvg_sever.Wire.Numbers.{unpack_u16-be16}
use rvg_sever.Crypto.{Aead}
use rvg_sever.Shadowsocks.{
  AeadStream, max_length, nonce_bytes, stop, take_payload, round, ensure_dec_key, encrypt_chunk,
  feed, decrypt_loop, decrypt_with, try_decrypt_chunks,
}
use rvg_sever.Shadowsocks.Chunks.{at, sealed_length, length-sealed_length}
use rvg_sever.Shadowsocks.RoundTrip.{Synced, encrypt_chunk-by, sent}

module _ (a : Aead) where
  -- A round that finds the sealed length of a payload not all there.
  round-cut :
      (p part : Bytes) (s : AeadStream)
      → length p ≤ max_length
      → length part < length p + 16
      → round a (record s { buf = sealed_length a s.dec_nonce p ++ part })
        ≡ ok (stop (at (s.dec_nonce + 1) (sealed_length a s.dec_nonce p ++ part) s))
  unfolding round take_payload
  round-cut p part s fits short =
      let n = s.dec_nonce in
      let bs = sealed_length a n p ++ part in
      let long : length bs ≡ 18 + length part =
        omega (arith, length-append (sealed_length a n p) part, length-sealed_length a n p) in
      rw (
        le→ltb (length bs) 18 (omega (arith, long)),
        take-append 18 (sealed_length a n p) part (length-sealed_length a n p),
        a.decrypt-encrypt (nonce_bytes n) (be16 (length p)),
        unpack_u16-be16 (length p) (omega (arith, fits)),
        le→leb (length p) max_length fits,
        lt→ltb (length bs) (18 + length p + 16) (omega (arith, long, short)),
      )

  round-wrong :
      (head tail : Bytes) (s : AeadStream)
      → length head ≡ 18
      → a.decrypt (nonce_bytes s.dec_nonce) head ≡ none
      → round a (record s { buf = head ++ tail }) ≡ err value_error
  unfolding round
  round-wrong head tail s size wrong = rw (
    le→ltb (length (head ++ tail)) 18 (omega (arith, length-append head tail, size)),
    take-append 18 head tail size,
    wrong,
  )

  round-over :
      (p part : Bytes) (s : AeadStream)
      → max_length < length p
      → length p ≤ 65535
      → round a (record s { buf = sealed_length a s.dec_nonce p ++ part }) ≡ err value_error
  unfolding round take_payload
  round-over p part s over fits =
      let n = s.dec_nonce in
      let bs = sealed_length a n p ++ part in
      rw (
        le→ltb (length bs) 18
            (omega (arith, length-append (sealed_length a n p) part, length-sealed_length a n p)),
        take-append 18 (sealed_length a n p) part (length-sealed_length a n p),
        a.decrypt-encrypt (nonce_bytes n) (be16 (length p)),
        unpack_u16-be16 (length p) (omega (arith, fits)),
        lt→leb (length p) max_length over,
      )

module _ (cipher_of : Bytes → Aead) where
  keyed :
      (s : AeadStream) (a : Aead) (more : Bytes)
      → s.dec_aead ≡ some a
      → try_decrypt_chunks cipher_of (feed more s)
        ≡ decrypt_loop a (suc (length (s.buf ++ more))) (record s { buf = s.buf ++ more })
  unfolding try_decrypt_chunks decrypt_with ensure_dec_key feed
  keyed s a more key = rw (key)

  -- A chunk of which only the sealed length and a part of the payload have arrived: no chunk is
  -- given, the counter moves, and the next call, which opens the same length with the moved
  -- counter, raises, whatever comes.
  pub try_decrypt_chunks-cut :
      (s : AeadStream) (a : Aead) (p part more : Bytes)
      → s.dec_aead ≡ some a
      → s.buf ≡ []
      → length p ≤ max_length
      → length part < length p + 16
      → a.decrypt (nonce_bytes (s.dec_nonce + 1)) (sealed_length a s.dec_nonce p) ≡ none
      → let bs = sealed_length a s.dec_nonce p ++ part in
        (try_decrypt_chunks cipher_of (feed bs s) ≡ ok ([], at (s.dec_nonce + 1) bs s))
        × (try_decrypt_chunks cipher_of (feed more (at (s.dec_nonce + 1) bs s)) ≡ err value_error)
  unfolding decrypt_loop
  try_decrypt_chunks-cut s a p part more key empty_ fits short wrong =
      let head = sealed_length a s.dec_nonce p in
      (
        keyed s a (head ++ part) key ∙ rw (empty_, round-cut a p part s fits short),
        keyed (at (s.dec_nonce + 1) (head ++ part) s) a more key
            ∙ rw (
              append_assoc head part more,
              round-wrong a head (part ++ more) (record s { dec_nonce = s.dec_nonce + 1 })
                  (length-sealed_length a s.dec_nonce p) wrong,
            ),
      )

  -- A payload over the limit that still fits the length field is encrypted, and the other end raises.
  pub try_decrypt_chunks-over :
      (s r : AeadStream) (p : Bytes)
      → Synced cipher_of s r
      → s.enc_salt_sent ≡ true
      → max_length < length p
      → length p ≤ 65535
      → (wire : Bytes) × (encrypt_chunk s p ≡ ok (wire, sent s (p ∷ [])))
        × (try_decrypt_chunks cipher_of (feed wire r) ≡ err value_error)
  unfolding decrypt_loop
  try_decrypt_chunks-over s r p sync is_sent over fits =
      let a = s.enc_aead in
      let n = s.enc_nonce in
      let payload : ℕ → Bytes = λ n. a.encrypt (nonce_bytes (n + 1)) p in
      let key : r.dec_aead ≡ some a = sync.cipher ∙ ap (λ b. if b then some a else none) is_sent in
      (
        sealed_length a n p ++ payload n,
        encrypt_chunk-by s p true fits is_sent,
        rw⁻¹ (sync.counters) (
            keyed r a (sealed_length a r.dec_nonce p ++ payload r.dec_nonce) key
            ∙ rw (sync.empty, round-over a p (payload r.dec_nonce) r over fits)),
      )
