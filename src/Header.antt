-- ===== src/Header.antt =====
-- The address part of a proxy header, as the parsers of protocol/vless/vless.py and
-- protocol/trojan/trojan.py read it, and what the wire formats put there.
pub mod Address
pub mod Vless
pub mod Trojan
pub mod Socks
mod Tests
use rvg_sever.Prelude.{
  ℕ, ◌+◌, ◌<◌, ◌≡◌, List, [], ◌∷◌, ◌++◌, length, Result, ok, err, value_error, ◌>>=◌, ◌==◌,
  if◌then◌else◌,
}
use rvg_sever.Wire.{Bytes, byte_at, slice}
use rvg_sever.Wire.Text.{Text, dotted, ipv6_text, pairs, join, utf8_ignore}

-- A destination as the protocols carry it.
pub data Host : Type 0 where
  ipv4 domain ipv6 : Bytes → Host

abbrev pub IsWellFormed : Host → Type 0
IsWellFormed (ipv4 bs) = length bs ≡ 4
IsWellFormed (domain bs) = length bs < 256
IsWellFormed (ipv6 bs) = length bs ≡ 16

-- The bytes behind the address type.
abbrev pub host_bytes : Host → Bytes
host_bytes (ipv4 bs) = bs
host_bytes (domain bs) = length bs ∷ bs
host_bytes (ipv6 bs) = bs

-- How the panel writes the destination.
unfoldable pub host_text : Host → Text
host_text (ipv4 bs) = dotted bs
host_text (domain bs) = utf8_ignore bs
host_text (ipv6 bs) = join b':' (pairs bs)

-- The branches on the address type that VLESS and Trojan share; they differ in the numbers that
-- stand for a domain and for IPv6. The text of the address comes with the position behind it.
module _ (domain_tag ipv6_tag : ℕ) where
  unfoldable pub read_address : Bytes → ℕ → ℕ → Result (Text × ℕ)
  unfolding slice
  read_address chunk atyp pos =
      if atyp == 1
      then ok (dotted (slice chunk pos (pos + 4)), pos + 4)
      else if atyp == domain_tag
      then (do
        dlen ← byte_at chunk pos
        ok (utf8_ignore (slice chunk (pos + 1) (pos + 1 + dlen)), pos + 1 + dlen))
      else if atyp == ipv6_tag
      then (do text ← ipv6_text (slice chunk pos (pos + 16)); ok (text, pos + 16))
      else err value_error

  abbrev pub host_tag : Host → ℕ
  host_tag (ipv4 _) = 1
  host_tag (domain _) = domain_tag
  host_tag (ipv6 _) = ipv6_tag
