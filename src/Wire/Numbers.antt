-- ===== src/Wire/Numbers.antt =====
-- Integers in bytes read back, and the exclusive or undoes itself.
use native.Mathlib.Nat.{pow-succ'}
use rvg_sever.Prelude.{ℕ, zero, suc, ◌+◌, ◌*◌, ◌/◌, ◌%◌, ◌^◌, ◌<◌, ◌≡◌, refl, arith, length, ap}
use rvg_sever.Prelude.{ok, lt→ltb}
use rvg_sever.Wire.{pack_u16, unpack_u16, from_be, be16, be32, to_le, xor}

pub from_be-be16 : (n : ℕ) → n < 65536 → from_be (be16 n) ≡ n
unfolding from_be be16
from_be-be16 n h = omega arith

pub from_be-be32 : (n : ℕ) → n < 4294967296 → from_be (be32 n) ≡ n
unfolding from_be be32
from_be-be32 n h = omega arith

pub pack_u16-be16 : (n : ℕ) → n < 65536 → pack_u16 n ≡ ok (be16 n)
unfolding pack_u16
pack_u16-be16 n h = rw (lt→ltb n 65536 h)

pub unpack_u16-be16 : (n : ℕ) → n < 65536 → unpack_u16 (be16 n) ≡ ok n
unfolding unpack_u16 be16
unpack_u16-be16 n h = ap ok (let e : n / 256 % 256 * 256 + n % 256 ≡ n = omega arith in e)

pub length-be16 : (n : ℕ) → length (be16 n) ≡ 2
unfolding be16
length-be16 n = refl

pub length-be32 : (n : ℕ) → length (be32 n) ≡ 4
unfolding be32
length-be32 n = refl

pub length-to_le : (k n : ℕ) → length (to_le k n) ≡ k
unfolding to_le
length-to_le zero n = refl
length-to_le (suc k) n = ap suc (length-to_le k (n / 256))

-- Two different counters below 256 ^ k have different bytes.
pub to_le-injective : (k m n : ℕ) → m < 256 ^ k → n < 256 ^ k → to_le k m ≡ to_le k n → m ≡ n
unfolding to_le
to_le-injective zero m n hm hn e = omega arith
to_le-injective (suc k) m n hm hn e = omega (
  arith,
  heads,
  to_le-injective k (m / 256) (n / 256) (omega (arith, pow-succ' 256 k))
      (omega (arith, pow-succ' 256 k)) tails,
)
  where
    heads : m % 256 ≡ n % 256
    heads = ground arith

    tails : to_le k (m / 256) ≡ to_le k (n / 256)
    tails = ground arith

pub xor-lt : (w a b : ℕ) → xor w a b < 2 ^ w
unfolding xor
xor-lt zero a b = omega arith
xor-lt (suc w) a b = omega (arith, xor-lt w (a / 2) (b / 2), pow-succ' 2 w)

pub xor-xor : (w a b : ℕ) → a < 2 ^ w → xor w (xor w a b) b ≡ a
unfolding xor
xor-xor zero a b h = omega arith
xor-xor (suc w) a b h =
    let q = xor w (a / 2) (b / 2) in
    let e : ((a % 2 + b % 2) % 2 + 2 * q) / 2 ≡ q = omega arith in
    rw e (omega (arith, xor-xor w (a / 2) (b / 2) (omega (arith, pow-succ' 2 w))))
