-- ===== src/Header/Address.antt =====
-- Reading back the address that a header carries, with the cursor behind it.
use rvg_sever.Prelude.{ℕ, ◌+◌, ◌≤◌, ◌≡◌, ◌≢◌, refl, arith, ◌++◌, length, drop, ok, ==_refl, ne→==}
use rvg_sever.Wire.{Bytes}
use rvg_sever.Wire.Cursor.{byte_at-drop, drop-next, slice-drop, drop-skip}
use rvg_sever.Wire.Text.{ipv6_text-pairs}
use rvg_sever.Header.{
  Host, ipv4, domain, ipv6, IsWellFormed, host_bytes, host_text, read_address, host_tag,
}

-- Where the address ends.
abbrev pub host_end : ℕ → Host → ℕ
host_end pos (ipv4 bs) = pos + 4
host_end pos (domain bs) = pos + 1 + length bs
host_end pos (ipv6 bs) = pos + 16

pub host_bytes-pos : (h : Host) → IsWellFormed h → 1 ≤ length (host_bytes h)
host_bytes-pos (ipv4 bs) v = omega arith
host_bytes-pos (domain bs) v = omega arith
host_bytes-pos (ipv6 bs) v = omega arith

pub host_end-length :
    (pos : ℕ) (h : Host) → IsWellFormed h → host_end pos h ≡ pos + length (host_bytes h)
host_end-length pos (ipv4 bs) v = omega arith
host_end-length pos (domain bs) v = omega arith
host_end-length pos (ipv6 bs) v = omega arith

module _ (chunk : Bytes) (pos : ℕ) (rest : Bytes) where
  pub drop-host_end :
      (h : Host)
      → IsWellFormed h
      → drop pos chunk ≡ host_bytes h ++ rest
      → drop (host_end pos h) chunk ≡ rest
  drop-host_end (ipv4 bs) v e = drop-skip chunk pos 4 bs rest e v
  drop-host_end (domain bs) v e =
      drop-skip chunk (pos + 1) (length bs) bs rest (drop-next chunk pos (length bs) (bs ++ rest) e)
        refl
  drop-host_end (ipv6 bs) v e = drop-skip chunk pos 16 bs rest e v

  module _ (domain_tag ipv6_tag : ℕ) where
    pub read_address-host :
        (h : Host)
        → domain_tag ≢ 1
        → ipv6_tag ≢ 1
        → ipv6_tag ≢ domain_tag
        → IsWellFormed h
        → drop pos chunk ≡ host_bytes h ++ rest
        → read_address domain_tag ipv6_tag chunk (host_tag domain_tag ipv6_tag h) pos
          ≡ ok (host_text h, host_end pos h)
    unfolding read_address host_text
    read_address-host (ipv4 bs) d i di v e = rw (slice-drop chunk pos 4 bs rest e v)
    read_address-host (domain bs) d i di v e = rw (
      ne→== domain_tag 1 d,
      ==_refl domain_tag,
      byte_at-drop chunk pos (length bs) (bs ++ rest) e,
      slice-drop chunk (pos + 1) (length bs) bs rest
          (drop-next chunk pos (length bs) (bs ++ rest) e) refl,
    )
    read_address-host (ipv6 bs) d i di v e = rw (
      ne→== ipv6_tag 1 i,
      ne→== ipv6_tag domain_tag di,
      ==_refl ipv6_tag,
      slice-drop chunk pos 16 bs rest e v,
      ipv6_text-pairs bs v,
    )
