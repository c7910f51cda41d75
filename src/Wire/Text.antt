-- ===== src/Wire/Text.antt =====
-- Text as the parsers build it, as a list of code points: decimal and hexadecimal numbers,
-- joined parts, and UTF-8 with the invalid bytes left out.
use mathlib.Core.Path.{ap₂}
use rvg_sever.Prelude.{
  ℕ, zero, suc, ◌+◌, ◌-◌, ◌*◌, ◌/◌, ◌%◌, ◌<◌, ◌≡◌, refl, ap, List, [], ◌∷◌, ◌++◌, map, Bool, ◌&&◌,
  ltb, leb, if◌then◌else◌, arith, All, Result, ok, ◌>>=◌, lt→ltb, ℕ_discrete,
}
use rvg_sever.Prelude.{drop, length}
use rvg_sever.Wire.{Bytes, byte_at}
use rvg_sever.Wire.Cursor.{byte_at-drop, drop-next, drop-skip}

abbrev pub Text : Type 0
Text = List ℕ

unfoldable pub text_discrete : Discrete Text
text_discrete [] [] = yes refl
text_discrete [] (y ∷ ys) = no (λ e. absurd (cc e))
text_discrete (x ∷ xs) [] = no (λ e. absurd (cc e))
text_discrete (x ∷ xs) (y ∷ ys) = elim (ℕ_discrete x y) [
  | no n ↦ no (λ e. n (cc e))
  | yes p ↦ elim (text_discrete xs ys) [ yes q ↦ yes (ap₂ ◌∷◌ p q) | no n ↦ no (λ e. n (cc e)) ]
]

-- str(b) for b < 1000
unfoldable pub decimal : ℕ → Text
decimal b =
    if ltb b 10
    then (b + 48) ∷ []
    else if ltb b 100
    then (b / 10 + 48) ∷ (b % 10 + 48) ∷ []
    else (b / 100 + 48) ∷ (b / 10 % 10 + 48) ∷ (b % 10 + 48) ∷ []

hex_digit : ℕ → ℕ
hex_digit d = if ltb d 10 then d + 48 else d + 87

-- f"{b:02x}" for b < 256
unfoldable pub hex2 : ℕ → Text
unfolding hex_digit
hex2 b = hex_digit (b / 16) ∷ hex_digit (b % 16) ∷ []

-- sep.join(parts)
unfoldable pub join : ℕ → List Text → Text
join sep [] = []
join sep (t ∷ []) = t
join sep (t ∷ u ∷ ts) = t ++ (sep ∷ join sep (u ∷ ts))

-- ".".join(str(b) for b in bs)
unfoldable pub dotted : Bytes → Text
unfolding decimal join
dotted bs = join b'.' (map decimal bs)

groups_from : Bytes → ℕ → ℕ → Result (List Text)
unfolding byte_at hex2
groups_from ab i zero = ok []
groups_from ab i (suc n) = do
  hi ← byte_at ab i
  lo ← byte_at ab (i + 1)
  rest ← groups_from ab (i + 2) n
  ok ((hex2 hi ++ hex2 lo) ∷ rest)

-- ":".join(f"{ab[i]:02x}{ab[i+1]:02x}" for i in range(0, 16, 2))
unfoldable pub ipv6_text : Bytes → Result Text
unfolding groups_from join
ipv6_text ab = do groups ← groups_from ab 0 8; ok (join b':' groups)

-- The groups of an address of whole pairs.
unfoldable pub pairs : Bytes → List Text
unfolding hex2
pairs (hi ∷ lo ∷ bs) = (hex2 hi ++ hex2 lo) ∷ pairs bs
pairs _ = []

groups_from-pairs :
    (n : ℕ) (ab : Bytes) (i : ℕ) (bs : Bytes)
    → drop i ab ≡ bs
    → length bs ≡ 2 * n
    → groups_from ab i n ≡ ok (pairs bs)
unfolding groups_from pairs
groups_from-pairs zero ab i [] h e = refl
groups_from-pairs zero ab i (_ ∷ _) h e = absurd (omega arith)
groups_from-pairs (suc n) ab i [] h e = absurd (omega arith)
groups_from-pairs (suc n) ab i (_ ∷ []) h e = absurd (omega arith)
groups_from-pairs (suc n) ab i (hi ∷ lo ∷ bs) h e = rw (
  byte_at-drop ab i hi (lo ∷ bs) h,
  byte_at-drop ab (i + 1) lo bs (drop-next ab i hi (lo ∷ bs) h),
  groups_from-pairs n ab (i + 2) bs (drop-skip ab i 2 (hi ∷ lo ∷ []) bs h refl) (omega arith),
)

-- Sixteen bytes are always written.
pub ipv6_text-pairs : (bs : Bytes) → length bs ≡ 16 → ipv6_text bs ≡ ok (join b':' (pairs bs))
unfolding ipv6_text
ipv6_text-pairs bs h = rw (groups_from-pairs 8 bs 0 bs refl h)

is_cont : ℕ → Bool
is_cont b = leb 128 b && ltb b 192

-- The code point that starts at the lead byte `b`, if the bytes behind it continue it: the
-- number of further bytes that it takes, and the point.
lead : ℕ → Bytes → ℕ × Text
unfolding is_cont
lead b (c ∷ d ∷ e ∷ _) =
    if ltb b 128
    then (0, b ∷ [])
    else if leb 194 b && ltb b 224 && is_cont c
    then (1, ((b - 192) * 64 + (c - 128)) ∷ [])
    else if leb 224 b
        && ltb b 240
        && is_cont c
        && is_cont d
        && leb (if ltb b 225 then 160 else 128) c
        && leb c (if leb 237 b && ltb b 238 then 159 else 191)
    then (2, ((b - 224) * 4096 + (c - 128) * 64 + (d - 128)) ∷ [])
    else if leb 240 b
        && ltb b 245
        && is_cont c
        && is_cont d
        && is_cont e
        && leb (if ltb b 241 then 144 else 128) c
        && leb c (if leb 244 b then 143 else 191)
    then (3, ((b - 240) * 262144 + (c - 128) * 4096 + (d - 128) * 64 + (e - 128)) ∷ [])
    else (0, [])
lead b (c ∷ d ∷ []) =
    if ltb b 128
    then (0, b ∷ [])
    else if leb 194 b && ltb b 224 && is_cont c
    then (1, ((b - 192) * 64 + (c - 128)) ∷ [])
    else if leb 224 b
        && ltb b 240
        && is_cont c
        && is_cont d
        && leb (if ltb b 225 then 160 else 128) c
        && leb c (if leb 237 b && ltb b 238 then 159 else 191)
    then (2, ((b - 224) * 4096 + (c - 128) * 64 + (d - 128)) ∷ [])
    else (0, [])
lead b (c ∷ []) =
    if ltb b 128
    then (0, b ∷ [])
    else if leb 194 b && ltb b 224 && is_cont c
    then (1, ((b - 192) * 64 + (c - 128)) ∷ [])
    else (0, [])
lead b [] = if ltb b 128 then (0, b ∷ []) else (0, [])

utf8_from : ℕ → Bytes → Text
unfolding lead
utf8_from skip [] = []
utf8_from (suc skip) (b ∷ bs) = utf8_from skip bs
utf8_from zero (b ∷ bs) = let (skip, point) = lead b bs in point ++ utf8_from skip bs

-- bs.decode("utf-8", errors="ignore")
unfoldable pub utf8_ignore : Bytes → Text
unfolding utf8_from
utf8_ignore = utf8_from 0

-- bs.decode("ascii", errors="ignore")
unfoldable pub ascii_ignore : Bytes → Text
ascii_ignore [] = []
ascii_ignore (b ∷ bs) = let rest = ascii_ignore bs in if ltb b 128 then b ∷ rest else rest

lead-ascii : (b : ℕ) (bs : Bytes) → b < 128 → lead b bs ≡ (0, b ∷ [])
unfolding lead
lead-ascii b [] h = rw (lt→ltb b 128 h)
lead-ascii b (c ∷ []) h = rw (lt→ltb b 128 h)
lead-ascii b (c ∷ d ∷ []) h = rw (lt→ltb b 128 h)
lead-ascii b (c ∷ d ∷ e ∷ _) h = rw (lt→ltb b 128 h)

-- ASCII text decodes to itself.
pub utf8_ignore-ascii : (bs : Bytes) → All (λ b. b < 128) bs → utf8_ignore bs ≡ bs
unfolding utf8_from utf8_ignore
utf8_ignore-ascii [] h = refl
utf8_ignore-ascii (b ∷ bs) h = rw (lead-ascii b bs h.0) (ap (◌∷◌ b) (utf8_ignore-ascii bs h.1))

pub ascii_ignore-ascii : (bs : Bytes) → All (λ b. b < 128) bs → ascii_ignore bs ≡ bs
unfolding ascii_ignore
ascii_ignore-ascii [] h = refl
ascii_ignore-ascii (b ∷ bs) h = ground (arith, ascii_ignore-ascii bs h.1)

ipv6_sample :
    ipv6_text (32 ∷ 1 ∷ 13 ∷ 184 ∷ 0 ∷ 0 ∷ 0 ∷ 0 ∷ 0 ∷ 0 ∷ 0 ∷ 0 ∷ 0 ∷ 0 ∷ 0 ∷ 255 ∷ [])
    ≡ ok (
        b'2' ∷ b'0' ∷ b'0' ∷ b'1' ∷ b':' ∷ b'0' ∷ b'd' ∷ b'b' ∷ b'8' ∷ b':' ∷ b'0' ∷ b'0' ∷ b'0'
        ∷ b'0' ∷ b':' ∷ b'0' ∷ b'0' ∷ b'0' ∷ b'0' ∷ b':' ∷ b'0' ∷ b'0' ∷ b'0' ∷ b'0' ∷ b':' ∷ b'0'
        ∷ b'0' ∷ b'0' ∷ b'0' ∷ b':' ∷ b'0' ∷ b'0' ∷ b'0' ∷ b'0' ∷ b':' ∷ b'0' ∷ b'0' ∷ b'f' ∷ b'f'
        ∷ [])
unfolding ipv6_text
ipv6_sample = refl

dotted_sample :
    dotted (127 ∷ 0 ∷ 0 ∷ 1 ∷ [])
    ≡ b'1' ∷ b'2' ∷ b'7' ∷ b'.' ∷ b'0' ∷ b'.' ∷ b'0' ∷ b'.' ∷ b'1' ∷ []
unfolding dotted
dotted_sample = refl

-- "é" and a stray continuation byte
utf8_sample : utf8_ignore (97 ∷ 195 ∷ 169 ∷ 169 ∷ 226 ∷ 130 ∷ 98 ∷ []) ≡ 97 ∷ 233 ∷ 98 ∷ []
unfolding utf8_ignore
utf8_sample = refl
