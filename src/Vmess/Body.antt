-- ===== src/Vmess/Body.antt =====
-- The chunks of a VMess body: `ShakeStream`, `_ChunkNonce`, `make_body_aead`, `BodyReader` and
-- `BodyWriter` of protocol/vmess/vmess.py.
pub mod RoundTrip
pub mod Nonces
pub mod Stream
pub mod Padding
pub mod Writes
use rvg_sever.Prelude.{
  ℕ, zero, suc, ◌+◌, ◌-◌, ◌*◌, ◌/◌, ◌%◌, ◌<◌, ◌≤◌, List, [], ◌∷◌, ◌++◌, length, take, drop, Bool,
  true, false, ◌&&◌, ◌||◌, not, Option, none, some, ltb, leb, ◌==◌, if◌then◌else◌, Result, ok, err,
  ◌>>=◌, ◌>>◌, require, of_option, attribute_error, invalid_tag, vmess_error, map,
}
use rvg_sever.Wire.{Bytes, slice, from_be, be16, pack_u16, unpack_u16, xor}
use rvg_sever.Crypto.{Aead, Suite}
use rvg_sever.Vmess.{
  sec_aes128_gcm, sec_chacha20_poly1305, opt_chunk_masking, opt_global_padding, opt_auth_length,
  gcm_nonce_size, tag_size, max_chunk,
}
use rvg_sever.Vmess.Kdf.{kdf16, encode}
use rvg_sever.Vmess.Source.{Source, need, discard, is_empty}

-- option & bit, for a bit of the option byte
abbrev pub has : ℕ → ℕ → Bool
has option bit = option / bit % 2 == 1

pub record ShakeStream : Type 0 where
  pub iv : Bytes
  pub consumed : ℕ

pub record ChunkNonce : Type 0 where
  pub c : Bytes
  pub count : ℕ

-- `next` of `_ChunkNonce`: the counter goes into the first two bytes.
unfoldable pub next : ChunkNonce → Bytes × ChunkNonce
unfolding be16
next n =
    let c = be16 (n.count % 65536) ++ drop 2 n.c in
    (take gcm_nonce_size c, record { c = c; count = n.count + 1 })

abbrev pub new_nonce : Bytes → ChunkNonce
new_nonce iv = record { c = iv; count = 0 }

abbrev pub new_shake : Bytes → ShakeStream
new_shake iv = record { iv = iv; consumed = 0 }

-- `len` holds the length cipher and its nonce exactly if `_authlen` is set.
pub record BodyReader : Type 0 where
  pub aead : Aead
  pub len : Option (Aead × ChunkNonce)
  pub padding : Bool
  pub shake : Option ShakeStream
  pub payload_nonce : ChunkNonce
  pub source : Source
  pub done : Bool

pub record BodyWriter : Type 0 where
  pub aead : Aead
  pub len : Option (Aead × ChunkNonce)
  pub padding : Bool
  pub shake : Option ShakeStream
  pub payload_nonce : ChunkNonce

-- The pieces `payload[i:i + MAX_CHUNK]`, at most `rounds` of them.
pub pieces : ℕ → Bytes → List Bytes
pieces zero payload = []
pieces (suc rounds) [] = []
pieces (suc rounds) (b ∷ payload) =
    take max_chunk (b ∷ payload) ∷ pieces rounds (drop max_chunk (b ∷ payload))

module _ (suite : Suite) where
  open suite use {gcm, chacha, sha256, md5, shake}

  unfoldable pub next16 : ShakeStream → ℕ × ShakeStream
  unfolding from_be slice
  next16 s = (
    from_be (slice (shake s.iv (s.consumed + 2)) s.consumed (s.consumed + 2)),
    record s { consumed = s.consumed + 2 },
  )

  unfoldable pub next_padding_len : ShakeStream → ℕ × ShakeStream
  next_padding_len s = let (n, s') = next16 s in (n % 64, s')

  -- The ciphers take a key of any length here; the library's raise ValueError at a wrong one.
  unfoldable pub make_body_aead : Bytes → ℕ → Result Aead
  make_body_aead body_key security =
      if security == sec_aes128_gcm
      then ok (gcm body_key)
      else if security == sec_chacha20_poly1305
      then (let first = md5 body_key in ok (chacha (first ++ md5 first)))
      else err (vmess_error "unsupported security")

  -- The length cipher of `AuthenticatedLength`.
  unfoldable pub len_cipher : Bytes → Bytes → ℕ → Bool → Result (Option (Aead × ChunkNonce))
  len_cipher body_key body_iv security false = ok none
  len_cipher body_key body_iv security true = do
    a ← make_body_aead (kdf16 sha256 body_key (encode "auth_len" ∷ [])) security
    ok (some (a, new_nonce body_iv))

  -- BodyReader(body_key, body_iv, security, option, fill)
  unfoldable pub new_reader : Bytes → Bytes → ℕ → ℕ → List Bytes → Result BodyReader
  new_reader body_key body_iv security option fills = do
    aead ← make_body_aead body_key security
    let authlen = has option opt_auth_length
    let masking = has option opt_chunk_masking && not authlen
    len ← len_cipher body_key body_iv security authlen
    ok (record {
      aead = aead;
      len = len;
      padding = has option opt_global_padding && not authlen;
      shake = if masking then some (new_shake body_iv) else none;
      payload_nonce = new_nonce body_iv;
      source = record { buf = []; fills = fills };
      done = false;
    })

  -- BodyWriter(body_key, body_iv, security, option)
  unfoldable pub new_writer : Bytes → Bytes → ℕ → ℕ → Result BodyWriter
  new_writer body_key body_iv security option = do
    aead ← make_body_aead body_key security
    let authlen = has option opt_auth_length
    len ← len_cipher body_key body_iv security authlen
    ok (record {
      aead = aead;
      len = len;
      padding = has option opt_global_padding && not authlen;
      shake = if has option opt_chunk_masking then some (new_shake body_iv) else none;
      payload_nonce = new_nonce body_iv;
    })

  -- `self._shake.next_padding_len() if self._padding else 0`; without a mask there is no stream.
  unfoldable pub writer_padding : Bool → Option ShakeStream → Result (ℕ × Option ShakeStream)
  writer_padding false shake = ok (0, shake)
  writer_padding true none = err attribute_error
  writer_padding true (some s) = let (n, s') = next_padding_len s in ok (n, some s')

  unfoldable pub masked_size : ℕ → Option ShakeStream → ℕ × Option ShakeStream
  masked_size n none = (n, none)
  masked_size n (some s) = let (mask, s') = next16 s in (xor 16 n mask, some s')

  -- The length in front of a chunk, and the writer behind it.
  unfoldable pub size_field :
      BodyWriter → Option (Aead × ChunkNonce) → Bytes → ℕ → Result (Bytes × BodyWriter)
  unfolding masked_size
  size_field w (some (a, n)) payload padding_size = do
    let (nonce, n') = next n
    plain ← pack_u16 (length payload)
    ok (a.encrypt nonce plain, record w { len = some (a, n') })
  size_field w none payload padding_size = do
    let (value, shake') = masked_size (length payload + tag_size + padding_size) w.shake
    field ← pack_u16 value
    ok (field, record w { shake = shake' })

  -- `_seal`; `token n` are the n random bytes that this call draws.
  unfoldable pub seal : (ℕ → Bytes) → BodyWriter → Bytes → Result (Bytes × BodyWriter)
  unfolding writer_padding size_field next
  seal token w payload = do
    (padding_size, shake') ← writer_padding w.padding w.shake
    (field, w') ← size_field (record w { shake = shake' }) w.len payload padding_size
    let (nonce, n') = next w'.payload_nonce
    ok (
      field ++ (w.aead.encrypt nonce payload ++ token padding_size),
      record w' { payload_nonce = n' },
    )

  -- "".join(self._seal(piece) for piece in ...)
  unfoldable pub seal_all : (ℕ → Bytes) → BodyWriter → List Bytes → Result (Bytes × BodyWriter)
  seal_all token w [] = ok ([], w)
  seal_all token w (p ∷ ps) = do
    (bs, w') ← seal token w p
    (rest, w'') ← seal_all token w' ps
    ok (bs ++ rest, w'')

  unfoldable pub write_chunk : (ℕ → Bytes) → BodyWriter → Bytes → Result (Bytes × BodyWriter)
  unfolding pieces
  write_chunk token w payload =
      if leb (length payload) max_chunk
      then seal token w payload
      else seal_all token w (pieces (length payload) payload)

  unfoldable pub write_eof : (ℕ → Bytes) → BodyWriter → Result (Bytes × BodyWriter)
  write_eof token w = seal token w []

  -- The payload of a chunk of `size` bytes, the last `pad_len` of them padding.
  pub read_payload : BodyReader → ℕ → ℕ → Result (Bytes × BodyReader)
  read_payload r size pad_len = do
    let (ready, source) = need size r.source
    require ready (vmess_error "truncated chunk payload")
    let (nonce, n') = next r.payload_nonce
    plain ← of_option (r.aead.decrypt nonce (take (size - pad_len) source.buf)) invalid_tag
    ok (plain, record r { payload_nonce = n'; source = discard size source })

  -- An empty chunk is the end; `slack` is what the limit leaves for padding.
  pub read_sized : BodyReader → ℕ → ℕ → ℕ → Result (Bytes × BodyReader)
  unfolding read_payload
  read_sized r size pad_len slack =
      if size == tag_size + pad_len
      then ok ([], record r { done = true })
      else if leb (tag_size + pad_len) size && leb size (max_chunk + tag_size + slack)
      then read_payload r size pad_len
      else err (vmess_error "invalid chunk size")

  pub read_authlen : BodyReader → Aead × ChunkNonce → Result (Bytes × BodyReader)
  unfolding read_sized
  read_authlen r (a, n) =
      let (ready, source) = need (2 + tag_size) r.source in
      if not ready then ok ([], record r { source = source; done = true }) else (do
        let (nonce, n') = next n
        plain ← of_option (a.decrypt nonce (take (2 + tag_size) source.buf)) invalid_tag
        value ← unpack_u16 plain
        let size = value + tag_size
        let r' = record r { len = some (a, n'); source = discard (2 + tag_size) source }
        read_sized r' size 0 0)

  -- The padding that the reader expects: none without a mask.
  pub reader_padding : Bool → Option ShakeStream → ℕ × Option ShakeStream
  reader_padding true (some s) = let (n, s') = next_padding_len s in (n, some s')
  reader_padding true none = (0, none)
  reader_padding false shake = (0, shake)

  pub read_plain : BodyReader → Result (Bytes × BodyReader)
  unfolding read_sized reader_padding masked_size
  read_plain r =
      let (ready, source) = need 2 r.source in
      if not ready then ok ([], record r { source = source; done = true }) else (do
        let (pad_len, shake') = reader_padding r.padding r.shake
        let (size, shake'') = masked_size (from_be (take 2 source.buf)) shake'
        let r' = record r { shake = shake''; source = discard 2 source }
        read_sized r' size pad_len 64)

  read_by : BodyReader → Option (Aead × ChunkNonce) → Result (Bytes × BodyReader)
  unfolding read_authlen read_plain
  read_by r (some l) = read_authlen r l
  read_by r none = read_plain r

  -- `read`: the next piece of the payload; nothing at the end.
  unfoldable pub read : BodyReader → Result (Bytes × BodyReader)
  unfolding read_by
  read r = if r.done then ok ([], r) else read_by r r.len
