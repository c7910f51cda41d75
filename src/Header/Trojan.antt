-- ===== src/Header/Trojan.antt =====
-- `parse_trojan_header` of protocol/trojan/trojan.py, and the request header of the protocol.
use rvg_sever.Prelude.{
  ℕ, ◌+◌, ◌<◌, ◌≤◌, ◌≡◌, refl, arith, [], ◌∷◌, ◌++◌, length, drop, take, Result, ok, value_error,
  ◌>>=◌, ◌>>◌, require, leb, le→leb, All, Bool, false, ◌&&◌, ◌==◌, length-append, take-append,
}
use rvg_sever.Wire.{Bytes, byte_at, slice, from_be, be16}
use rvg_sever.Wire.Numbers.{from_be-be16, length-be16}
use rvg_sever.Wire.Cursor.{byte_at-drop, drop-next, slice-drop, drop-skip}
use rvg_sever.Wire.Text.{Text, ascii_ignore, ascii_ignore-ascii}
use rvg_sever.Header.{Host, IsWellFormed, host_bytes, host_text, read_address, host_tag}
use rvg_sever.Header.Address.{host_end, host_bytes-pos, read_address-host, drop-host_end}

-- TROJAN_HEADER_MIN
abbrev pub trojan_header_min : ℕ
trojan_header_min = 56 + 2 + 1 + 1 + 1 + 2 + 2

abbrev pub crlf : Bytes
crlf = 13 ∷ 10 ∷ []

abbrev pub is_crlf : Bytes → Bool
is_crlf (a ∷ b ∷ []) = a == 13 && b == 10
is_crlf _ = false

pub record TrojanHeader : Type 0 where
  pub pw_hash : Text
  pub command : ℕ
  pub address : Text
  pub port : ℕ
  pub payload : Bytes

unfoldable pub parse_trojan_header : Bytes → Result TrojanHeader
parse_trojan_header chunk = do
  require (leb trojan_header_min (length chunk)) value_error
  let pw_hash = ascii_ignore (take 56 chunk)
  require (is_crlf (slice chunk 56 (56 + 2))) value_error
  command ← byte_at chunk 58
  atyp ← byte_at chunk 59
  (address, pos) ← read_address 3 4 chunk atyp 60
  let port = from_be (slice chunk pos (pos + 2))
  require (is_crlf (slice chunk (pos + 2) (pos + 2 + 2))) value_error
  ok (record {
    pw_hash = pw_hash;
    command = command;
    address = address;
    port = port;
    payload = drop (pos + 2 + 2) chunk;
  })

-- What a client sends: the hash of its password in hexadecimal, command, destination, port.
pub record TrojanRequest : Type 0 where
  pub pw_hash : Bytes
  pub command : ℕ
  pub host : Host
  pub port : ℕ

unfoldable pub trojan_bytes : TrojanRequest → Bytes → Bytes
trojan_bytes r payload =
    r.pw_hash
    ++ (13
        ∷ 10
        ∷ r.command
        ∷ host_tag 3 4 r.host
        ∷ (host_bytes r.host ++ (be16 r.port ++ (13 ∷ 10 ∷ payload))))

module _ (r : TrojanRequest) (payload : Bytes) (hash : length r.pw_hash ≡ 56) where
  abbrev chunk : Bytes
  chunk = trojan_bytes r payload

  abbrev tail_port : Bytes
  tail_port = be16 r.port ++ (13 ∷ 10 ∷ payload)

  abbrev tail_command : Bytes
  tail_command = r.command ∷ host_tag 3 4 r.host ∷ (host_bytes r.host ++ tail_port)

  pw_hash-taken : take 56 chunk ≡ r.pw_hash
  unfolding trojan_bytes
  pw_hash-taken = take-append 56 r.pw_hash (13 ∷ 10 ∷ tail_command) hash

  at_crlf : drop 56 chunk ≡ 13 ∷ 10 ∷ tail_command
  unfolding trojan_bytes
  at_crlf = drop-skip chunk 0 56 r.pw_hash (13 ∷ 10 ∷ tail_command) refl hash

  at_command : drop 58 chunk ≡ tail_command
  at_command = drop-skip chunk 56 2 crlf tail_command at_crlf refl

  at_tag : drop 59 chunk ≡ host_tag 3 4 r.host ∷ (host_bytes r.host ++ tail_port)
  at_tag = drop-next chunk 58 r.command _ at_command

  at_host : drop 60 chunk ≡ host_bytes r.host ++ tail_port
  at_host = drop-next chunk 59 (host_tag 3 4 r.host) _ at_tag

  module _ (v : IsWellFormed r.host) where
    at_port : drop (host_end 60 r.host) chunk ≡ be16 r.port ++ (13 ∷ 10 ∷ payload)
    at_port = drop-host_end chunk 60 tail_port r.host v at_host

    at_end : drop (host_end 60 r.host + 2) chunk ≡ 13 ∷ 10 ∷ payload
    at_end =
        drop-skip chunk (host_end 60 r.host) 2 (be16 r.port) (13 ∷ 10 ∷ payload) at_port
          (length-be16 r.port)

    enough : trojan_header_min ≤ length chunk
    unfolding trojan_bytes
    enough = omega (
      arith,
      length-append r.pw_hash (13 ∷ 10 ∷ tail_command),
      length-append (host_bytes r.host) tail_port,
      length-append (be16 r.port) (13 ∷ 10 ∷ payload),
      length-be16 r.port,
      host_bytes-pos r.host v,
    )

-- A request that a client writes is read back: the hash, the command, the destination as text,
-- the port, and the payload behind the header.
pub parse_trojan_header-trojan_bytes :
    (r : TrojanRequest) (payload : Bytes)
    → length r.pw_hash ≡ 56
    → All (λ b. b < 128) r.pw_hash
    → r.port < 65536
    → IsWellFormed r.host
    → parse_trojan_header (trojan_bytes r payload)
      ≡ ok (record {
        pw_hash = r.pw_hash;
        command = r.command;
        address = host_text r.host;
        port = r.port;
        payload = payload;
      })
parse_trojan_header-trojan_bytes r payload hash ascii p v =
    let c = trojan_bytes r payload in
    let i = host_end 60 r.host in
    unfold parse_trojan_header in
    rw (
      le→leb trojan_header_min (length c) (enough r payload hash v),
      pw_hash-taken r payload hash,
      ascii_ignore-ascii r.pw_hash ascii,
      slice-drop c 56 2 crlf _ (at_crlf r payload hash) refl,
      byte_at-drop c 58 r.command _ (at_command r payload hash),
      byte_at-drop c 59 (host_tag 3 4 r.host) _ (at_tag r payload hash),
      read_address-host c 60 _ 3 4 r.host (omega arith) (omega arith) (omega arith) v
          (at_host r payload hash),
      slice-drop c i 2 (be16 r.port) _ (at_port r payload hash v) (length-be16 r.port),
      from_be-be16 r.port p,
      slice-drop c (i + 2) 2 crlf payload (at_end r payload hash v) refl,
      drop-skip c (i + 2) 2 crlf payload (at_end r payload hash v) refl,
    )
