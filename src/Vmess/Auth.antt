-- ===== src/Vmess/Auth.antt =====
-- The users' keys and the auth ids of protocol/vmess/vmess.py: `cmd_key_for`, `create_auth_id` and
-- `decode_auth_id`. AES and CRC-32 are parameters; the signed times of `struct` are integers.
pub mod Ids
pub mod Validator
pub mod Serving
use rvg_sever.Prelude.{
  ℕ, zero, suc, ◌+◌, ◌-◌, ◌*◌, ◌/◌, ◌%◌, ◌^◌, ◌<◌, ◌≤◌, ◌≡◌, List, [], ◌∷◌, ◌++◌, length, take,
  drop, Bool, true, false, ltb, leb, ◌==◌, ◌&&◌, ◌||◌, if◌then◌else◌, Option, none, some, Result,
  ok, err, value_error, struct_error, ◌>>=◌, ◌>>◌, require, String,
}
use rvg_sever.Wire.{Bytes, be32, from_be, slice}
use rvg_sever.Crypto.{Aead, Suite}
use rvg_sever.Vmess.Kdf.{kdf, kdf16, encode}

pub data ℤ : Type 0 where
  pos negsuc : ℕ → ℤ

-- The digests, AES on a block of 16 bytes, CRC-32 and AESGCM with associated data, by the key and the
-- associated data. `none` is what the decryption of a block raises.
pub record Primitives : Type 0 where
  pub suite : Suite
  pub encrypt_block : Bytes → Bytes → Bytes
  pub decrypt_block : Bytes → Bytes → Option Bytes
  pub crc32 : Bytes → ℕ
  pub gcm_with : Bytes → Bytes → Aead
  pub decrypt-encrypt_block :
      (key block : Bytes)
      → length block ≡ 16
      → decrypt_block key (encrypt_block key block) ≡ some block
  pub length-encrypt_block :
      (key block : Bytes) → length block ≡ 16 → length (encrypt_block key block) ≡ 16
  pub crc32-lt : (bs : Bytes) → crc32 bs < 2 ^ 32

-- struct.pack(">q", t)
abbrev pub be64 : ℕ → Bytes
be64 n = be32 (n / 2 ^ 32) ++ be32 (n % 2 ^ 32)

unfoldable pub pack_i64 : ℤ → Result Bytes
unfolding be32
pack_i64 (pos n) = if ltb n (2 ^ 63) then ok (be64 n) else err struct_error
pack_i64 (negsuc n) = if ltb n (2 ^ 63) then ok (be64 (2 ^ 64 - 1 - n)) else err struct_error

-- struct.unpack(">q", bs)[0] of eight bytes
unfoldable pub unpack_i64 : Bytes → ℤ
unfolding from_be
unpack_i64 bs = let n = from_be bs in if ltb n (2 ^ 63) then pos n else negsuc (2 ^ 64 - 1 - n)

-- bytes.fromhex(text), with text in lower case: white space between the pairs is skipped.
unfoldable pub hex_digit : ℕ → Result ℕ
hex_digit c =
    if leb 48 c && leb c 57
    then ok (c - 48)
    else if leb 97 c && leb c 102
    then ok (c - 87)
    else err value_error

abbrev pub is_space : ℕ → Bool
is_space c = c == 32 || (leb 9 c && leb c 13)

unfoldable pub from_hex : Bytes → Result Bytes
unfolding hex_digit
from_hex [] = ok []
from_hex (c ∷ []) = if is_space c then ok [] else err value_error
from_hex (c ∷ d ∷ text) =
    let rest = from_hex text in
    let skipped = from_hex (d ∷ text) in
    if is_space c
    then skipped
    else do high ← hex_digit c; low ← hex_digit d; bs ← rest; ok ((high * 16 + low) ∷ bs)

-- uuid_str.replace("-", "").lower()
unfoldable pub plain_hex : Bytes → Bytes
plain_hex [] = []
plain_hex (c ∷ text) =
    let rest = plain_hex text in
    if c == 45 then rest else (if leb 65 c && leb c 90 then c + 32 else c) ∷ rest

abbrev pub cmd_key_tail : Bytes
cmd_key_tail = encode "c48619fe-8f02-49e0-b9e9-edf763e17e21"

abbrev pub kdf_salt_auth_id_enc_key : Bytes
kdf_salt_auth_id_enc_key = encode "AES Auth ID Encryption"

module _ (p : Primitives) where
  open p use {suite, encrypt_block, decrypt_block, crc32}
  open suite use {sha256, md5}

  -- `cmd_key_for`; its cache only keeps what it has computed.
  unfoldable pub cmd_key_for : String → Result Bytes
  unfolding from_hex plain_hex
  cmd_key_for uuid_str = do
    raw ← from_hex (plain_hex (encode uuid_str))
    ok (md5 (raw ++ cmd_key_tail))

  -- `create_auth_id`; `random` are the four bytes that it draws.
  unfoldable pub create_auth_id : Bytes → Bytes → ℤ → Result Bytes
  create_auth_id random cmd_key t = do
    time ← pack_i64 t
    let pt = time ++ random
    ok (
        encrypt_block (kdf16 sha256 cmd_key (kdf_salt_auth_id_enc_key ∷ []))
          (pt ++ be32 (crc32 pt % 2 ^ 32)))

  -- The time in a decrypted auth id, if the checksum is right.
  unfoldable pub stamped_time : Option Bytes → Option ℤ
  stamped_time none = none
  stamped_time (some pt) =
      if length pt == 16 && from_be (slice pt 12 16) == crc32 (take 12 pt) % 2 ^ 32
      then some (unpack_i64 (take 8 pt))
      else none

  unfoldable pub decode_auth_id : Bytes → Bytes → Option ℤ
  unfolding stamped_time
  decode_auth_id cmd_key auth_id =
      stamped_time (decrypt_block (kdf16 sha256 cmd_key (kdf_salt_auth_id_enc_key ∷ [])) auth_id)
