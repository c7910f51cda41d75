-- ===== src/Vmess/Body/Writes.antt =====
-- The writer of a body with keys and nonces of the lengths that AESGCM and ChaCha20Poly1305 accept, which raise
-- ValueError at others.
use rvg_sever.Prelude.{ℕ, ◌≡◌, [], ◌∷◌, length, ok, ◌⊎◌}
use rvg_sever.Wire.{Bytes}
use rvg_sever.Crypto.{Suite}
use rvg_sever.Vmess.Kdf.{kdf16, encode}
use rvg_sever.Vmess.Body.{make_body_aead}

abbrev pub auth_len_key : (Bytes → Bytes) → Bytes → Bytes
auth_len_key sha256 key = kdf16 sha256 key (encode "auth_len" ∷ [])

module _ (suite : Suite) where
  open suite use {gcm, chacha, sha256, md5}

  -- The cipher that a body key gives is made from a key of the length that it takes.
  abbrev pub IsKeyed : Bytes → ℕ → Type 0
  IsKeyed key security =
      (k : Bytes) × (((make_body_aead suite key security ≡ ok (gcm k)) × (length k ≡ 16))
        ⊎ ((make_body_aead suite key security ≡ ok (chacha k)) × (length k ≡ 32)))
