-- ===== src/Shadowsocks/RoundTrip.antt =====
-- Both ends of a Shadowsocks stream: what one end encrypts, in batches of chunks, the other decrypts.
use mathlib.Core.List.{append_assoc}
use mathlib.Core.Path.{subst}
use rvg_sever.Prelude.{
  Bool-cases, inl, inr, ℕ, suc, ◌+◌, ◌≤◌, ◌≡◌, refl, sym, ap, ◌∙◌, arith, List, [], ◌∷◌, ◌++◌,
  length, Bool, true, false, if◌then◌else◌, some, none, ok, Result, ◌>>=◌, All, le→ltb,
  length-append, take-append, drop-append,
}
use rvg_sever.Wire.{Bytes}
use rvg_sever.Wire.Numbers.{pack_u16-be16}
use rvg_sever.Crypto.{Aead}
use rvg_sever.Shadowsocks.{
  AeadStream, salt_len, max_length, new_stream, ensure_dec_key, encrypt_chunk, feed, decrypt_with,
  try_decrypt_chunks,
}
use rvg_sever.Shadowsocks.Chunks.{
  at, chunk_bytes, chunks_bytes, nonce_after, decrypt_loop-chunks_bytes, length-chunk_bytes,
}

-- A batch of chunks, encrypted one after the other.
abbrev pub encrypt_all : AeadStream → List Bytes → Result (Bytes × AeadStream)
encrypt_all s [] = ok ([], s)
encrypt_all s (p ∷ ps) = do
  (one, s') ← encrypt_chunk s p
  (more, s'') ← encrypt_all s' ps
  ok (one ++ more, s'')

-- The sending end after a batch of at least one chunk.
abbrev pub sent : AeadStream → List Bytes → AeadStream
sent s ps = record s { enc_nonce = nonce_after s.enc_nonce ps; enc_salt_sent = true }

encrypt_chunk-eq :
    (s : AeadStream) (p : Bytes)
    → length p ≤ 65535
    → encrypt_chunk s p
      ≡ ok (
        (if s.enc_salt_sent then [] else s.enc_salt) ++ chunk_bytes s.enc_aead s.enc_nonce p,
        record s { enc_nonce = s.enc_nonce + 1 + 1; enc_salt_sent = true },
      )
unfolding encrypt_chunk
encrypt_chunk-eq s p fits = rw (pack_u16-be16 (length p) (omega (arith, fits)))

pub encrypt_chunk-by :
    (s : AeadStream) (p : Bytes) (b : Bool)
    → length p ≤ 65535
    → s.enc_salt_sent ≡ b
    → encrypt_chunk s p
      ≡ ok (
        (if b then [] else s.enc_salt) ++ chunk_bytes s.enc_aead s.enc_nonce p,
        record s { enc_nonce = s.enc_nonce + 1 + 1; enc_salt_sent = true },
      )
encrypt_chunk-by s p b fits e =
    encrypt_chunk-eq s p fits
    ∙ ap
        (λ b. ok (
          (if b then [] else s.enc_salt) ++ chunk_bytes s.enc_aead s.enc_nonce p,
          record s { enc_nonce = s.enc_nonce + 1 + 1; enc_salt_sent = true },
        ))
        e

encrypt_all-sent :
    (s : AeadStream) (ps : List Bytes)
    → All (λ p. length p ≤ max_length) ps
    → s.enc_salt_sent ≡ true
    → encrypt_all s ps ≡ ok (chunks_bytes s.enc_aead s.enc_nonce ps, sent s ps)
encrypt_all-sent s [] fits is_sent = ap (λ b. ok ([], record s { enc_salt_sent = b })) is_sent
encrypt_all-sent s (p ∷ ps) fits is_sent =
    let s' : AeadStream = record s { enc_nonce = s.enc_nonce + 1 + 1; enc_salt_sent = true } in
    rw (
      encrypt_chunk-by s p true (omega (arith, fits.0)) is_sent,
      encrypt_all-sent s' ps fits.1 refl,
    )

-- The first batch carries the salt.
encrypt_all-first :
    (s : AeadStream) (p : Bytes) (ps : List Bytes)
    → All (λ p. length p ≤ max_length) (p ∷ ps)
    → s.enc_salt_sent ≡ false
    → encrypt_all s (p ∷ ps)
      ≡ ok (s.enc_salt ++ chunks_bytes s.enc_aead s.enc_nonce (p ∷ ps), sent s (p ∷ ps))
encrypt_all-first s p ps fits not_sent =
    let s' : AeadStream = record s { enc_nonce = s.enc_nonce + 1 + 1; enc_salt_sent = true } in
    rw (
      encrypt_chunk-by s p false (omega (arith, fits.0)) not_sent,
      encrypt_all-sent s' ps fits.1 refl,
      append_assoc s.enc_salt (chunk_bytes s.enc_aead s.enc_nonce p)
          (chunks_bytes s.enc_aead (s.enc_nonce + 1 + 1) ps),
    )

length-chunks_bytes :
    (a : Aead) (n : ℕ) (ps : List Bytes) → length ps ≤ length (chunks_bytes a n ps)
length-chunks_bytes a n [] = omega arith
length-chunks_bytes a n (p ∷ ps) = omega (
  arith,
  length-append (chunk_bytes a n p) (chunks_bytes a (n + 1 + 1) ps),
  length-chunk_bytes a n p,
  length-chunks_bytes a (n + 1 + 1) ps,
)

module _ (cipher_of : Bytes → Aead) where
  -- The receiving end `r` has read all that the sending end `s` has sent.
  pub record Synced (s r : AeadStream) : Type 0 where
    pub own_cipher : s.enc_aead ≡ cipher_of s.enc_salt
    pub salt_length : length s.enc_salt ≡ salt_len
    pub counters : r.dec_nonce ≡ s.enc_nonce
    pub empty : r.buf ≡ []
    pub cipher : r.dec_aead ≡ (if s.enc_salt_sent then some s.enc_aead else none)

  -- A whole batch at a receiving end that has its cipher.
  try_decrypt_chunks-keyed :
      (r : AeadStream) (a : Aead) (ps : List Bytes)
      → All (λ p. length p ≤ max_length) ps
      → r.dec_aead ≡ some a
      → r.buf ≡ []
      → try_decrypt_chunks cipher_of (feed (chunks_bytes a r.dec_nonce ps) r)
        ≡ ok (ps, at (nonce_after r.dec_nonce ps) [] r)
  unfolding try_decrypt_chunks decrypt_with ensure_dec_key feed
  try_decrypt_chunks-keyed r a ps fits key empty_ =
      let bs = chunks_bytes a r.dec_nonce ps in
      rw (
        empty_,
        key,
        decrypt_loop-chunks_bytes a (suc (length bs)) r.dec_nonce ps
            (record r { dec_aead = some a }) fits
            (omega (arith, length-chunks_bytes a r.dec_nonce ps)),
      )

  -- The salt and a whole batch at a receiving end that has read nothing.
  try_decrypt_chunks-salt :
      (r : AeadStream) (salt : Bytes) (ps : List Bytes)
      → All (λ p. length p ≤ max_length) ps
      → length salt ≡ salt_len
      → r.dec_aead ≡ none
      → r.buf ≡ []
      → try_decrypt_chunks cipher_of (feed (salt ++ chunks_bytes (cipher_of salt) r.dec_nonce ps) r)
        ≡ ok (
          ps,
          record r {
            dec_aead = some (cipher_of salt);
            dec_nonce = nonce_after r.dec_nonce ps;
            buf = [];
          },
        )
  unfolding try_decrypt_chunks decrypt_with ensure_dec_key feed
  try_decrypt_chunks-salt r salt ps fits full no_key empty_ =
      let a = cipher_of salt in
      let bs = chunks_bytes a r.dec_nonce ps in
      rw (
        empty_,
        no_key,
        le→ltb (length (salt ++ bs)) salt_len (omega (arith, length-append salt bs, full)),
        take-append salt_len salt bs full,
        drop-append salt_len salt bs full,
        decrypt_loop-chunks_bytes a (suc (length bs)) r.dec_nonce ps
            (record r { dec_aead = some a }) fits
            (omega (arith, length-chunks_bytes a r.dec_nonce ps)),
      )

  try_decrypt_chunks-nothing :
      (r : AeadStream)
      → r.dec_aead ≡ none
      → r.buf ≡ []
      → try_decrypt_chunks cipher_of (feed [] r) ≡ ok ([], record r { buf = [] })
  unfolding try_decrypt_chunks decrypt_with ensure_dec_key feed
  try_decrypt_chunks-nothing r no_key empty_ = rw (empty_, no_key)

  -- Two new streams are in step.
  pub Synced-new_stream :
      (salt salt' : Bytes)
      → length salt ≡ salt_len
      → Synced (new_stream cipher_of salt) (new_stream cipher_of salt')
  unfolding new_stream
  Synced-new_stream salt salt' full = record {
    own_cipher = refl;
    salt_length = full;
    counters = refl;
    empty = refl;
    cipher = refl;
  }

  batch-sent :
      (s r : AeadStream) (ps : List Bytes)
      → Synced s r
      → s.enc_salt_sent ≡ true
      → All (λ p. length p ≤ max_length) ps
      → (wire : Bytes) × (s' : AeadStream) × (r' : AeadStream) × (encrypt_all s ps ≡ ok (wire, s'))
        × (try_decrypt_chunks cipher_of (feed wire r) ≡ ok (ps, r'))
        × Synced s' r'
  batch-sent s r ps sync is_sent fits =
      let a = s.enc_aead in
      let key : r.dec_aead ≡ some a = sync.cipher ∙ ap (λ b. if b then some a else none) is_sent in
      (
        chunks_bytes a s.enc_nonce ps,
        sent s ps,
        at (nonce_after r.dec_nonce ps) [] r,
        encrypt_all-sent s ps fits is_sent,
        rw⁻¹ (sync.counters) (try_decrypt_chunks-keyed r a ps fits key sync.empty),
        record {
          own_cipher = sync.own_cipher;
          salt_length = sync.salt_length;
          counters = ap (λ n. nonce_after n ps) sync.counters;
          empty = refl;
          cipher = key;
        },
      )

  batch-first :
      (s r : AeadStream) (p : Bytes) (ps : List Bytes)
      → Synced s r
      → s.enc_salt_sent ≡ false
      → All (λ p. length p ≤ max_length) (p ∷ ps)
      → (wire : Bytes) × (s' : AeadStream) × (r' : AeadStream) × (encrypt_all s (p ∷ ps)
          ≡ ok (wire, s'))
        × (try_decrypt_chunks cipher_of (feed wire r) ≡ ok (p ∷ ps, r'))
        × Synced s' r'
  batch-first s r p ps sync not_sent fits =
      let salt = s.enc_salt in
      let no_key : r.dec_aead ≡ none =
        sync.cipher ∙ ap (λ b. if b then some s.enc_aead else none) not_sent in
      (
        salt ++ chunks_bytes s.enc_aead s.enc_nonce (p ∷ ps),
        sent s (p ∷ ps),
        record r {
          dec_aead = some (cipher_of salt);
          dec_nonce = nonce_after r.dec_nonce (p ∷ ps);
          buf = [];
        },
        encrypt_all-first s p ps fits not_sent,
        rw⁻¹ (sync.counters) (
            subst
              (λ a.
                try_decrypt_chunks cipher_of (feed (salt ++ chunks_bytes a r.dec_nonce (p ∷ ps)) r)
                ≡ ok (
                  p ∷ ps,
                  record r {
                    dec_aead = some (cipher_of salt);
                    dec_nonce = nonce_after r.dec_nonce (p ∷ ps);
                    buf = [];
                  },
                ))
              (sym sync.own_cipher)
              (try_decrypt_chunks-salt r salt (p ∷ ps) fits sync.salt_length no_key sync.empty)),
        record {
          own_cipher = sync.own_cipher;
          salt_length = sync.salt_length;
          counters = ap (λ n. nonce_after n (p ∷ ps)) sync.counters;
          empty = refl;
          cipher = ap some (sym sync.own_cipher);
        },
      )

  -- One batch of payloads of at most 0x3FFF bytes each, from an end whose cipher is that of its salt of
  -- the right length, to one that has read all that was sent before: the sending end seals all of
  -- them, the receiving end gives back these chunks, and both are again in step.
  pub try_decrypt_chunks-encrypt_all :
      (s r : AeadStream) (ps : List Bytes)
      → Synced s r
      → All (λ p. length p ≤ max_length) ps
      → (wire : Bytes) × (s' : AeadStream) × (r' : AeadStream) × (encrypt_all s ps ≡ ok (wire, s'))
        × (try_decrypt_chunks cipher_of (feed wire r) ≡ ok (ps, r'))
        × Synced s' r'
  try_decrypt_chunks-encrypt_all s r ps sync fits = elim (Bool-cases s.enc_salt_sent) [
    | inl is_sent ↦ batch-sent s r ps sync is_sent fits
    | inr not_sent ↦ unsent ps fits not_sent
  ]
    where
      unsent :
          (ps : List Bytes)
          → All (λ p. length p ≤ max_length) ps
          → s.enc_salt_sent ≡ false
          → (wire : Bytes) × (s' : AeadStream) × (r' : AeadStream) × (encrypt_all s ps
              ≡ ok (wire, s'))
            × (try_decrypt_chunks cipher_of (feed wire r) ≡ ok (ps, r'))
            × Synced s' r'
      unsent [] fits not_sent = (
        [],
        s,
        record r { buf = [] },
        refl,
        try_decrypt_chunks-nothing r
            (sync.cipher ∙ ap (λ b. if b then some s.enc_aead else none) not_sent) sync.empty,
        record {
          own_cipher = sync.own_cipher;
          salt_length = sync.salt_length;
          counters = sync.counters;
          empty = refl;
          cipher = sync.cipher;
        },
      )
      unsent (p ∷ ps) fits not_sent = batch-first s r p ps sync not_sent fits
