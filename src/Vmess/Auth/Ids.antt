-- ===== src/Vmess/Auth/Ids.antt =====
-- An auth id is decoded to the time that it was created for.
use mathlib.Core.List.{append_assoc}
use rvg_sever.Prelude.{
  ℕ, ◌-◌, ◌%◌, ◌^◌, ◌<◌, ◌≡◌, refl, ap, arith, [], ◌∷◌, ◌++◌, length, take, ==_refl, some, ok,
  lt→ltb, le→ltb, length-append, take-append, drop-append,
}
use rvg_sever.Wire.{Bytes, be32, from_be, slice}
use rvg_sever.Wire.Numbers.{from_be-be32, length-be32}
use rvg_sever.Vmess.Kdf.{kdf16}
use rvg_sever.Vmess.Auth.{
  ℤ, pos, negsuc, Primitives, be64, pack_i64, unpack_i64, create_auth_id, decode_auth_id,
  stamped_time, kdf_salt_auth_id_enc_key,
}

-- The times of a signed 64-bit number.
abbrev pub Is64Bit : ℤ → Type 0
Is64Bit (pos n) = n < 2 ^ 63
Is64Bit (negsuc n) = n < 2 ^ 63

from_be-be64 : (n : ℕ) → n < 2 ^ 64 → from_be (be64 n) ≡ n
unfolding from_be be32
from_be-be64 n h = omega arith

length-be64 : (n : ℕ) → length (be64 n) ≡ 8
unfolding be32
length-be64 n = refl

-- Every time of 64 bits has its eight bytes, and they give it back.
pub unpack_i64-pack_i64 :
    (t : ℤ)
    → Is64Bit t
    → (bs : Bytes) × (pack_i64 t ≡ ok bs) × (length bs ≡ 8) × (unpack_i64 bs ≡ t)
unfolding pack_i64 unpack_i64
unpack_i64-pack_i64 (pos n) h = (
  be64 n,
  rw (lt→ltb n (2 ^ 63) h),
  length-be64 n,
  rw (from_be-be64 n (omega arith), lt→ltb n (2 ^ 63) h),
)
unpack_i64-pack_i64 (negsuc n) h =
    let m = 2 ^ 64 - 1 - n in
    (
      be64 m,
      rw (lt→ltb n (2 ^ 63) h),
      length-be64 m,
      rw (from_be-be64 m (omega arith), le→ltb m (2 ^ 63) (omega (arith, h)))
          (ap negsuc (let e : 2 ^ 64 - 1 - m ≡ n = omega (arith, h) in e)),
    )

take-be32 : (n : ℕ) → take 4 (be32 n) ≡ be32 n
unfolding be32
take-be32 n = refl

module _ (p : Primitives) where
  open p use {suite, encrypt_block, decrypt_block, crc32}
  open suite use {sha256}

  -- Every time of 64 bits, with any four random bytes, gives an auth id of 16 bytes, and the same
  -- key decodes it to that time.
  pub decode_auth_id-create_auth_id :
      (random cmd_key : Bytes) (t : ℤ)
      → length random ≡ 4
      → Is64Bit t
      → (auth_id : Bytes) × (create_auth_id p random cmd_key t ≡ ok auth_id)
        × (length auth_id ≡ 16)
        × (decode_auth_id p cmd_key auth_id ≡ some t)
  unfolding create_auth_id decode_auth_id stamped_time slice
  decode_auth_id-create_auth_id random cmd_key t four range =
      let (time, packed, eight, back) = unpack_i64-pack_i64 t range in
      let key = kdf16 sha256 cmd_key (kdf_salt_auth_id_enc_key ∷ []) in
      let pt = time ++ random in
      let sum = crc32 pt % 2 ^ 32 in
      let twelve : length pt ≡ 12 = omega (arith, length-append time random, eight, four) in
      let full : length (pt ++ be32 sum) ≡ 16 =
        omega (arith, length-append pt (be32 sum), length-be32 sum, twelve) in
      (
        encrypt_block key (pt ++ be32 sum),
        rw (packed),
        p.length-encrypt_block key (pt ++ be32 sum) full,
        rw (
          p.decrypt-encrypt_block key (pt ++ be32 sum) full,
          full,
          drop-append 12 pt (be32 sum) twelve,
          take-append 12 pt (be32 sum) twelve,
          take-be32 sum,
          from_be-be32 sum (omega arith),
          ==_refl sum,
          append_assoc time random (be32 sum),
          take-append 8 time (random ++ be32 sum) eight,
          back,
        ),
      )
