-- ===== src/Wire.antt =====
-- Byte strings as the codecs read them: Python's indexing and slicing, big-endian integers and
-- the exclusive or of fixed width.
pub mod Numbers
pub mod Cursor
pub mod Text
pub mod Strings
use rvg_sever.Prelude.{
  ℕ, zero, suc, ◌+◌, ◌-◌, ◌*◌, ◌/◌, ◌%◌, ◌<◌, List, [], ◌∷◌, Option, none, some, All, take, drop,
  Result, ok, err, index_error, struct_error, eof_error, leb, length, ltb, if◌then◌else◌,
}

abbrev pub Bytes : Type 0
Bytes = List ℕ

abbrev pub AllBytes : Bytes → Type 0
AllBytes = All (λ b. b < 256)

abbrev first : Bytes → Result ℕ
first [] = err index_error
first (b ∷ _) = ok b

-- chunk[i]: an index out of range raises `IndexError`
unfoldable pub byte_at : Bytes → ℕ → Result ℕ
byte_at chunk i = first (drop i chunk)

-- chunk[i:j]: a slice out of range is cut short
unfoldable pub slice : Bytes → ℕ → ℕ → Bytes
slice chunk i j = take (j - i) (drop i chunk)

-- int.from_bytes(bs, "big"), of any length
unfoldable pub from_be_acc : ℕ → Bytes → ℕ
from_be_acc acc [] = acc
from_be_acc acc (b ∷ bs) = from_be_acc (acc * 256 + b) bs

unfoldable pub from_be : Bytes → ℕ
unfolding from_be_acc
from_be = from_be_acc 0

-- struct.pack(">H", n) and struct.pack(">I", n) of a value in range
unfoldable pub be16 : ℕ → Bytes
be16 n = n / 256 % 256 ∷ n % 256 ∷ []

-- struct.pack(">H", n): a value out of range is `struct.error`
unfoldable pub pack_u16 : ℕ → Result Bytes
unfolding be16
pack_u16 n = if ltb n 65536 then ok (be16 n) else err struct_error

-- struct.unpack(">H", bs)[0]: exactly two bytes
unfoldable pub unpack_u16 : Bytes → Result ℕ
unpack_u16 (a ∷ b ∷ []) = ok (a * 256 + b)
unpack_u16 _ = err struct_error

unfoldable pub be32 : ℕ → Bytes
be32 n = n / 16777216 % 256 ∷ n / 65536 % 256 ∷ n / 256 % 256 ∷ n % 256 ∷ []

-- counter.to_bytes(length, "little") of a value in range
unfoldable pub to_le : ℕ → ℕ → Bytes
to_le zero n = []
to_le (suc length) n = n % 256 ∷ to_le length (n / 256)

-- a ^ b on values of at most `width` bits
unfoldable pub xor : ℕ → ℕ → ℕ → ℕ
xor zero a b = 0
xor (suc width) a b = (a % 2 + b % 2) % 2 + 2 * xor width (a / 2) (b / 2)

-- What reads exactly `n` bytes: exactly `n` of the bytes that arrive, or the end of the connection.
unfoldable pub read_exact : ℕ → Bytes → Result (Bytes × Bytes)
read_exact n bs = if leb n (length bs) then ok (take n bs, drop n bs) else err eof_error
