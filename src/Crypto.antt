-- ===== src/Crypto.antt =====
-- What the codecs take from `cryptography` and `hashlib`: authenticated encryption, the block
-- cipher of the VMess auth id, and the digests. They are parameters of the model, with the
-- behaviour that those libraries document.
pub mod Samples
use rvg_sever.Prelude.{ℕ, ◌+◌, ◌≡◌, Option, some, none, length}
use rvg_sever.Wire.{Bytes}

-- A key of AESGCM or ChaCha20Poly1305, without associated data. `none` is `InvalidTag`.
pub record Aead : Type 0 where
  pub encrypt : Bytes → Bytes → Bytes
  pub decrypt : Bytes → Bytes → Option Bytes
  pub decrypt-encrypt : (nonce plain : Bytes) → decrypt nonce (encrypt nonce plain) ≡ some plain
  pub length-encrypt : (nonce plain : Bytes) → length (encrypt nonce plain) ≡ length plain + 16

-- The ciphers by their key, and the digests.
pub record Suite : Type 0 where
  pub gcm : Bytes → Aead
  pub chacha : Bytes → Aead
  pub sha256 : Bytes → Bytes
  pub md5 : Bytes → Bytes
  -- shake_128(iv).digest(n)
  pub shake : Bytes → ℕ → Bytes
