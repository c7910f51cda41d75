-- ===== src/Header/Vless.antt =====
-- `parse_vless_header` of protocol/vless/vless.py, and the request header of the protocol.
use rvg_sever.Prelude.{
  ℕ, ◌+◌, ◌<◌, ◌≤◌, ◌≡◌, refl, arith, ◌∷◌, ◌++◌, length, drop, Result, ok, value_error, ◌>>=◌, ◌>>◌,
  require, leb, le→leb,
}
use rvg_sever.Wire.{Bytes, byte_at, slice, from_be, be16}
use rvg_sever.Wire.Numbers.{from_be-be16, length-be16}
use rvg_sever.Wire.Cursor.{byte_at-drop, drop-next, slice-drop, drop-skip}
use rvg_sever.Wire.Text.{Text}
use rvg_sever.Header.{Host, IsWellFormed, host_bytes, host_text, read_address, host_tag}
use rvg_sever.Header.Address.{read_address-host, drop-host_end}

pub record VlessHeader : Type 0 where
  pub command : ℕ
  pub address : Text
  pub port : ℕ
  pub payload : Bytes

unfoldable pub parse_vless_header : Bytes → Result VlessHeader
parse_vless_header chunk = do
  require (leb 24 (length chunk)) value_error
  addon_len ← byte_at chunk 17
  let pos = 17 + 1 + addon_len
  command ← byte_at chunk pos
  let port = from_be (slice chunk (pos + 1) (pos + 1 + 2))
  addr_type ← byte_at chunk (pos + 1 + 2)
  (address, end) ← read_address 2 3 chunk addr_type (pos + 1 + 2 + 1)
  ok (record { command = command; address = address; port = port; payload = drop end chunk })

-- What a client sends: version, user, additional information, command, port, destination.
pub record VlessRequest : Type 0 where
  pub version : ℕ
  pub uuid : Bytes
  pub addons : Bytes
  pub command : ℕ
  pub port : ℕ
  pub host : Host

unfoldable pub vless_bytes : VlessRequest → Bytes → Bytes
vless_bytes r payload =
    r.version
    ∷ (r.uuid
        ++ (length r.addons
            ∷ (r.addons
                ++ (r.command
                    ∷ (be16 r.port ++ (host_tag 2 3 r.host ∷ (host_bytes r.host ++ payload)))))))

module _ (r : VlessRequest) (payload : Bytes) where
  abbrev chunk : Bytes
  chunk = vless_bytes r payload

  abbrev tail_host : Bytes
  tail_host = host_bytes r.host ++ payload

  abbrev tail_tag : Bytes
  tail_tag = host_tag 2 3 r.host ∷ tail_host

  abbrev tail_command : Bytes
  tail_command = r.command ∷ (be16 r.port ++ tail_tag)

  abbrev pos : ℕ
  pos = 17 + 1 + length r.addons

  module _ (u : length r.uuid ≡ 16) where
    at_addons : drop 17 chunk ≡ length r.addons ∷ (r.addons ++ tail_command)
    unfolding vless_bytes
    at_addons = drop-skip chunk 1 16 r.uuid (length r.addons ∷ (r.addons ++ tail_command)) refl u

    at_command : drop pos chunk ≡ tail_command
    at_command =
        drop-skip chunk 18 (length r.addons) r.addons tail_command
          (drop-next chunk 17 (length r.addons) (r.addons ++ tail_command) at_addons) refl

    at_port : drop (pos + 1) chunk ≡ be16 r.port ++ tail_tag
    at_port = drop-next chunk pos r.command (be16 r.port ++ tail_tag) at_command

    at_tag : drop (pos + 1 + 2) chunk ≡ tail_tag
    at_tag = drop-skip chunk (pos + 1) 2 (be16 r.port) tail_tag at_port (length-be16 r.port)

    at_host : drop (pos + 1 + 2 + 1) chunk ≡ tail_host
    at_host = drop-next chunk (pos + 1 + 2) (host_tag 2 3 r.host) tail_host at_tag

-- A request that a client writes, of at least 24 bytes with its payload, is read back: the
-- command, the port, the destination as text, and the payload behind the header.
pub parse_vless_header-vless_bytes :
    (r : VlessRequest) (payload : Bytes)
    → length r.uuid ≡ 16
    → r.port < 65536
    → IsWellFormed r.host
    → 24 ≤ length (vless_bytes r payload)
    → parse_vless_header (vless_bytes r payload)
      ≡ ok (record {
        command = r.command;
        address = host_text r.host;
        port = r.port;
        payload = payload;
      })
parse_vless_header-vless_bytes r payload u p v enough =
    let c = vless_bytes r payload in
    let i = 17 + 1 + length r.addons in
    unfold parse_vless_header in
    rw (
      le→leb 24 (length c) enough,
      byte_at-drop c 17 (length r.addons) _ (at_addons r payload u),
      byte_at-drop c i r.command _ (at_command r payload u),
      slice-drop c (i + 1) 2 (be16 r.port) _ (at_port r payload u) (length-be16 r.port),
      from_be-be16 r.port p,
      byte_at-drop c (i + 1 + 2) (host_tag 2 3 r.host) _ (at_tag r payload u),
      read_address-host c (i + 1 + 2 + 1) payload 2 3 r.host (omega arith) (omega arith)
          (omega arith) v (at_host r payload u),
      drop-host_end c (i + 1 + 2 + 1) payload r.host v (at_host r payload u),
    )
