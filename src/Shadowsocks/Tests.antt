-- ===== src/Shadowsocks/Tests.antt =====
-- The theorems on Shadowsocks streams at short streams of a sample cipher.
use rvg_sever.Prelude.{
  ◌≡◌, refl, arith, List, [], ◌∷◌, ◌++◌, take, some, ok, err, value_error, true,
}
use rvg_sever.Wire.{Bytes}
use rvg_sever.Crypto.{Aead}
use rvg_sever.Crypto.Samples.{sample_aead, zeros, length-zeros}
use rvg_sever.Shadowsocks.{
  AeadStream, new_stream, encrypt_chunk, feed, decrypt_loop, try_decrypt_chunks, nonce_bytes,
}
use rvg_sever.Shadowsocks.Chunks.{at, sealed_length}
use rvg_sever.Shadowsocks.Rounds.{decrypt_loop-enough}
use rvg_sever.Shadowsocks.RoundTrip.{
  Synced, encrypt_all, Synced-new_stream, try_decrypt_chunks-encrypt_all, sent,
}
use rvg_sever.Shadowsocks.Cuts.{try_decrypt_chunks-cut, try_decrypt_chunks-over}
use rvg_sever.Shadowsocks.Keys.{digests, derive_key, derive_key-digests}

abbrev cipher_of : Bytes → Aead
cipher_of _ = sample_aead

abbrev server : AeadStream
server = record {
  enc_salt = zeros 32;
  enc_aead = sample_aead;
  enc_nonce = 0;
  enc_salt_sent = true;
  dec_aead = some sample_aead;
  dec_nonce = 0;
  buf = [];
}

Synced-server : Synced cipher_of server server
Synced-server = record {
  own_cipher = refl;
  salt_length = refl;
  counters = refl;
  empty = refl;
  cipher = refl;
}

abbrev batch : List Bytes
batch = (1 ∷ 2 ∷ []) ∷ [] ∷ (3 ∷ []) ∷ []

try_decrypt_chunks-encrypt_all_example :
    (wire : Bytes) × (s' : AeadStream) × (r' : AeadStream) × (encrypt_all
        (new_stream cipher_of (zeros 32))
        batch
      ≡ ok (wire, s'))
    × (try_decrypt_chunks cipher_of (feed wire (new_stream cipher_of [])) ≡ ok (batch, r'))
    × Synced cipher_of s' r'
try_decrypt_chunks-encrypt_all_example =
    try_decrypt_chunks-encrypt_all cipher_of (new_stream cipher_of (zeros 32))
      (new_stream cipher_of []) batch (Synced-new_stream cipher_of (zeros 32) [] refl)
      (omega arith, (omega arith, (omega arith, tt)))

decrypt_loop-enough_example : decrypt_loop sample_aead 1 server ≡ decrypt_loop sample_aead 9 server
decrypt_loop-enough_example = decrypt_loop-enough sample_aead 1 9 server (omega arith) (omega arith)

abbrev head : Bytes
head = sealed_length sample_aead 0 (1 ∷ 2 ∷ []) ++ (1 ∷ [])

try_decrypt_chunks-cut_example :
    (try_decrypt_chunks cipher_of (feed head server) ≡ ok ([], at 1 head server))
    × (try_decrypt_chunks cipher_of (feed [] (at 1 head server)) ≡ err value_error)
unfolding nonce_bytes
try_decrypt_chunks-cut_example =
    try_decrypt_chunks-cut cipher_of server sample_aead (1 ∷ 2 ∷ []) (1 ∷ []) [] refl refl
      (omega arith) (omega arith) refl

abbrev long_payload : Bytes
long_payload = zeros 16384

try_decrypt_chunks-over_example :
    (wire : Bytes) × (encrypt_chunk server long_payload
      ≡ ok (wire, sent server (long_payload ∷ [])))
    × (try_decrypt_chunks cipher_of (feed wire server) ≡ err value_error)
try_decrypt_chunks-over_example =
    try_decrypt_chunks-over cipher_of server server long_payload Synced-server refl
      (omega (arith, length-zeros 16384)) (omega (arith, length-zeros 16384))

abbrev sample_md5 : Bytes → Bytes
sample_md5 bs = zeros 16

derive_key-digests_example :
    derive_key sample_md5 (112 ∷ []) 32 ≡ take 32 (digests sample_md5 (112 ∷ []) 2 [])
derive_key-digests_example =
    derive_key-digests sample_md5 (λ _. length-zeros 16) (112 ∷ []) 32 2 (omega arith)
