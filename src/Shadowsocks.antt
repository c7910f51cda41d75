-- ===== src/Shadowsocks.antt =====
-- `_AEADStream` of protocol/shadowsocks/shadowsocks.py: encryption and decryption of the chunks of
-- a Shadowsocks stream, each a sealed length and a sealed payload with one counter for the nonces.
pub mod Keys
pub mod Chunks
pub mod Rounds
pub mod RoundTrip
pub mod Cuts
mod Tests
use rvg_sever.Prelude.{
  ℕ, zero, suc, ◌+◌, ◌<◌, ◌≤◌, List, [], ◌∷◌, ◌++◌, length, take, drop, Bool, true, false, ltb, leb,
  if◌then◌else◌, Option, none, some, Result, ok, err, value_error, of_option, ◌>>=◌, ◌>>◌, require,
}
use rvg_sever.Wire.{Bytes, to_le, pack_u16, unpack_u16}
use rvg_sever.Crypto.{Aead}

abbrev pub tag_len : ℕ
tag_len = 16

abbrev pub salt_len : ℕ
salt_len = 32

abbrev pub nonce_len : ℕ
nonce_len = 12

abbrev pub max_length : ℕ
max_length = 0x3fff

pub record AeadStream : Type 0 where
  pub enc_salt : Bytes
  pub enc_aead : Aead
  pub enc_nonce : ℕ
  pub enc_salt_sent : Bool
  pub dec_aead : Option Aead
  pub dec_nonce : ℕ
  pub buf : Bytes

-- The cipher of a stream by its salt: `cipher_cls(_subkey(master_key, salt, key_len))`.
module _ (cipher_of : Bytes → Aead) where
  -- `_AEADStream(master_key, cipher_name)`; the salt is drawn at random.
  unfoldable pub new_stream : Bytes → AeadStream
  new_stream salt = record {
    enc_salt = salt;
    enc_aead = cipher_of salt;
    enc_nonce = 0;
    enc_salt_sent = false;
    dec_aead = none;
    dec_nonce = 0;
    buf = [];
  }

  -- `_ensure_dec_key`: the salt comes first.
  unfoldable pub ensure_dec_key : AeadStream → Bool × AeadStream
  ensure_dec_key s = elim s.dec_aead [
    | some a ↦ (true, s)
    | none ↦ if ltb (length s.buf) salt_len then (false, s) else (
      true,
      record s { dec_aead = some (cipher_of (take salt_len s.buf)); buf = drop salt_len s.buf },
    )
  ]

-- `_nonce_bytes`; a counter of 2^96 or more, at which the code raises OverflowError, wraps here.
unfoldable pub nonce_bytes : ℕ → Bytes
unfolding to_le
nonce_bytes counter = to_le nonce_len counter

unfoldable pub encrypt_chunk : AeadStream → Bytes → Result (Bytes × AeadStream)
encrypt_chunk s payload = do
  plain ← pack_u16 (length payload)
  let salt = if s.enc_salt_sent then [] else s.enc_salt
  let enc_len = s.enc_aead.encrypt (nonce_bytes s.enc_nonce) plain
  let enc_payload = s.enc_aead.encrypt (nonce_bytes (s.enc_nonce + 1)) payload
  ok (
    salt ++ (enc_len ++ enc_payload),
    record s { enc_nonce = s.enc_nonce + 1 + 1; enc_salt_sent = true },
  )

unfoldable pub feed : Bytes → AeadStream → AeadStream
feed bs s = record s { buf = s.buf ++ bs }

-- What one round of the loop comes to: the generator returns, or a chunk and the next round.
pub data Round : Type 0 where
  stop : AeadStream → Round
  chunk : Bytes → AeadStream → Round

-- The rest of a round, once the length is known: the state of the sealed length still to be dropped.
unfoldable pub take_payload : Aead → AeadStream → ℕ → Result Round
take_payload a s length_ = do
  require (leb length_ max_length) value_error
  if ltb (length s.buf) (2 + tag_len + length_ + tag_len) then ok (stop s) else do
    let rest = drop (2 + tag_len) s.buf
    payload ←
        of_option (a.decrypt (nonce_bytes s.dec_nonce) (take (length_ + tag_len) rest)) value_error
    ok (
        chunk payload
          (record s { dec_nonce = s.dec_nonce + 1; buf = drop (length_ + tag_len) rest }))

-- One round of the loop in `try_decrypt_chunks`, with the cipher `a`. When the payload is not all
-- there, the counter has moved on and the sealed length is still in the buffer.
unfoldable pub round : Aead → AeadStream → Result Round
round a s = if ltb (length s.buf) (2 + tag_len) then ok (stop s) else (do
  plain ← of_option (a.decrypt (nonce_bytes s.dec_nonce) (take (2 + tag_len) s.buf)) value_error
  length_ ← unpack_u16 plain
  take_payload a (record s { dec_nonce = s.dec_nonce + 1 }) length_)

-- The loop, for at most `rounds` rounds; each takes at least 34 bytes off the buffer.
unfoldable pub decrypt_loop : Aead → ℕ → AeadStream → Result (List Bytes × AeadStream)
decrypt_loop a zero s = ok ([], s)
decrypt_loop a (suc rounds) s = do
  r ← round a s
  elim r [
    | stop s' ↦ ok ([], s')
    | chunk payload s' ↦ do (rest, s'') ← decrypt_loop a rounds s'; ok (payload ∷ rest, s'')
  ]

-- list(stream.try_decrypt_chunks())
module _ (cipher_of : Bytes → Aead) where
  unfoldable pub decrypt_with : Bool → Option Aead → AeadStream → Result (List Bytes × AeadStream)
  decrypt_with true (some a) s = decrypt_loop a (suc (length s.buf)) s
  decrypt_with _ _ s = ok ([], s)

  unfoldable pub try_decrypt_chunks : AeadStream → Result (List Bytes × AeadStream)
  unfolding decrypt_with ensure_dec_key
  try_decrypt_chunks s =
      let (ready, s') = ensure_dec_key cipher_of s in decrypt_with ready s'.dec_aead s'
