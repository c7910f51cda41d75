-- ===== src/Header/Socks.antt =====
-- `parse_socks5_addr` of protocol/shadowsocks/shadowsocks.py: the destination in front of the
-- first payload of a Shadowsocks stream. Its length checks reject what is cut short.
use rvg_sever.Prelude.{
  ℕ, zero, suc, ◌+◌, ◌<◌, ◌≡◌, refl, arith, ◌∷◌, ◌++◌, length, drop, take, Result, ok, err,
  value_error, ◌>>=◌, ◌>>◌, require, leb, lt→leb, le→leb, ◌==◌, if◌then◌else◌, length-append,
  length-take,
}
use mathlib.Core.List.{append_assoc}
use rvg_sever.Wire.{Bytes, byte_at, slice, from_be, be16}
use rvg_sever.Wire.Numbers.{from_be-be16, length-be16}
use rvg_sever.Wire.Cursor.{byte_at-drop, drop-next, slice-drop}
use rvg_sever.Wire.Text.{Text, dotted, ipv6_text, ipv6_text-pairs, utf8_ignore}
use rvg_sever.Header.{Host, IsWellFormed, host_bytes, host_text, host_tag, ipv4, domain, ipv6}
use rvg_sever.Header.Address.{host_end, host_end-length, host_bytes-pos, drop-host_end}

-- The address, the port and the bytes consumed.
pub record SocksAddr : Type 0 where
  pub address : Text
  pub port : ℕ
  pub consumed : ℕ

-- The address of type `atyp` at position 1, and the position behind it.
socks_address : Bytes → ℕ → Result (Text × ℕ)
socks_address buf atyp =
    if atyp == 1
    then (do
      require (leb (1 + 4 + 2) (length buf)) value_error
      ok (dotted (slice buf 1 (1 + 4)), 1 + 4))
    else if atyp == 3
    then (do
      dlen ← byte_at buf 1
      require (leb (2 + dlen + 2) (length buf)) value_error
      ok (utf8_ignore (slice buf 2 (2 + dlen)), 2 + dlen))
    else if atyp == 4
    then (do
      require (leb (1 + 16 + 2) (length buf)) value_error
      text ← ipv6_text (slice buf 1 (1 + 16))
      ok (text, 1 + 16))
    else err value_error

unfoldable pub parse_socks5_addr : Bytes → Result SocksAddr
unfolding socks_address
parse_socks5_addr buf = do
  require (leb 2 (length buf)) value_error
  atyp ← byte_at buf 0
  (address, pos) ← socks_address buf atyp
  ok (record { address = address; port = from_be (slice buf pos (pos + 2)); consumed = pos + 2 })

-- What a client sends: type, destination, port.
unfoldable pub socks_bytes : Host → ℕ → Bytes
socks_bytes h port = host_tag 3 4 h ∷ (host_bytes h ++ be16 port)

module _ (h : Host) (port : ℕ) (rest : Bytes) (v : IsWellFormed h) where
  abbrev buf : Bytes
  buf = socks_bytes h port ++ rest

  at_tag : drop 0 buf ≡ host_tag 3 4 h ∷ ((host_bytes h ++ be16 port) ++ rest)
  unfolding socks_bytes
  at_tag = refl

  at_host : drop 1 buf ≡ host_bytes h ++ (be16 port ++ rest)
  unfolding socks_bytes
  at_host = append_assoc (host_bytes h) (be16 port) rest

  at_port : drop (host_end 1 h) buf ≡ be16 port ++ rest
  at_port = drop-host_end buf 1 (be16 port ++ rest) h v at_host

  length-buf : length buf ≡ 1 + length (host_bytes h) + 2 + length rest
  unfolding socks_bytes be16
  length-buf = omega (
    arith,
    length-append (host_bytes h ++ be16 port) rest,
    length-append (host_bytes h) (be16 port),
  )

socks_address-host :
    (h : Host) (port : ℕ) (rest : Bytes)
    → IsWellFormed h
    → socks_address (socks_bytes h port ++ rest) (host_tag 3 4 h) ≡ ok (host_text h, host_end 1 h)
unfolding socks_address host_text
socks_address-host (ipv4 bs) port rest v =
    let c = socks_bytes (ipv4 bs) port ++ rest in
    rw (
      le→leb 7 (length c) (omega (arith, length-buf (ipv4 bs) port rest v)),
      slice-drop c 1 4 bs _ (at_host (ipv4 bs) port rest v) v,
    )
socks_address-host (domain bs) port rest v =
    let c = socks_bytes (domain bs) port ++ rest in
    let at = at_host (domain bs) port rest v in
    rw (
      byte_at-drop c 1 (length bs) _ at,
      le→leb (2 + length bs + 2) (length c) (omega (arith, length-buf (domain bs) port rest v)),
      slice-drop c 2 (length bs) bs _ (drop-next c 1 (length bs) _ at) refl,
    )
socks_address-host (ipv6 bs) port rest v =
    let c = socks_bytes (ipv6 bs) port ++ rest in
    rw (
      le→leb 19 (length c) (omega (arith, length-buf (ipv6 bs) port rest v)),
      slice-drop c 1 16 bs _ (at_host (ipv6 bs) port rest v) v,
      ipv6_text-pairs bs v,
    )

socks_end-length :
    (h : Host) (port : ℕ) → IsWellFormed h → host_end 1 h + 2 ≡ length (socks_bytes h port)
unfolding socks_bytes be16
socks_end-length h port v =
    omega (arith, length-append (host_bytes h) (be16 port), host_end-length 1 h v)

-- The destination that a client writes is read back with its length, whatever follows it.
pub parse_socks5_addr-socks_bytes :
    (h : Host) (port : ℕ) (rest : Bytes)
    → IsWellFormed h
    → port < 65536
    → parse_socks5_addr (socks_bytes h port ++ rest)
      ≡ ok (record { address = host_text h; port = port; consumed = length (socks_bytes h port) })
parse_socks5_addr-socks_bytes h port rest v p =
    let c = socks_bytes h port ++ rest in
    unfold parse_socks5_addr in
    rw (
      le→leb 2 (length c) (omega (arith, length-buf h port rest v, host_bytes-pos h v)),
      byte_at-drop c 0 (host_tag 3 4 h) _ (at_tag h port rest v),
      socks_address-host h port rest v,
      slice-drop c (host_end 1 h) 2 (be16 port) rest (at_port h port rest v) (length-be16 port),
      from_be-be16 port p,
      socks_end-length h port v,
    )

socks_address-short :
    (h : Host) (port m : ℕ)
    → IsWellFormed h
    → suc (suc m) < length (socks_bytes h port)
    → socks_address (take (suc (suc m)) (socks_bytes h port)) (host_tag 3 4 h) ≡ err value_error
unfolding socks_address socks_bytes byte_at
socks_address-short (ipv4 bs) port m v short = rw (
    lt→leb 7 (length (take (suc (suc m)) (socks_bytes (ipv4 bs) port))) (
      omega (
        arith,
        length-take (suc (suc m)) (socks_bytes (ipv4 bs) port),
        socks_end-length (ipv4 bs) port v,
      )))
socks_address-short (domain bs) port m v short = rw (
    lt→leb (2 + length bs + 2) (length (take (suc (suc m)) (socks_bytes (domain bs) port))) (
      omega (
        arith,
        length-take (suc (suc m)) (socks_bytes (domain bs) port),
        socks_end-length (domain bs) port v,
      )))
socks_address-short (ipv6 bs) port m v short = rw (
    lt→leb 19 (length (take (suc (suc m)) (socks_bytes (ipv6 bs) port))) (
      omega (
        arith,
        length-take (suc (suc m)) (socks_bytes (ipv6 bs) port),
        socks_end-length (ipv6 bs) port v,
      )))

-- Any strict prefix of it is rejected with `ValueError`, never read past its end.
pub parse_socks5_addr-short :
    (h : Host) (port n : ℕ)
    → IsWellFormed h
    → n < length (socks_bytes h port)
    → parse_socks5_addr (take n (socks_bytes h port)) ≡ err value_error
unfolding parse_socks5_addr socks_bytes byte_at
parse_socks5_addr-short h port zero v short = refl
parse_socks5_addr-short h port (suc zero) v short = refl
parse_socks5_addr-short h port (suc (suc m)) v short = rw (
  le→leb 2 (length (take (suc (suc m)) (socks_bytes h port)))
      (omega (arith, length-take (suc (suc m)) (socks_bytes h port))),
  socks_address-short h port m v short,
)
