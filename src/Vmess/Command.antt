-- ===== src/Vmess/Command.antt =====
-- `VMessRequest`, `_fnv1a32` and `parse_command_header` of protocol/vmess/vmess.py.
pub mod RoundTrip
use rvg_sever.Prelude.{
  ℕ, zero, suc, ◌+◌, ◌-◌, ◌*◌, ◌/◌, ◌%◌, ◌^◌, ◌<◌, ◌≤◌, ◌≡◌, refl, arith, List, [], ◌∷◌, ◌++◌,
  length, take, drop, Bool, Result, ok, err, vmess_error, ◌>>=◌, ◌>>◌, require, leb, ◌==◌,
  if◌then◌else◌, String,
}
use rvg_sever.Wire.{Bytes, byte_at, slice, from_be, unpack_u16, xor}
use rvg_sever.Wire.Text.{Text, dotted, ipv6_text, utf8_ignore}

pub record VMessRequest : Type 0 where
  pub uuid : String
  pub version : ℕ
  pub body_key : Bytes
  pub body_iv : Bytes
  pub response_token : ℕ
  pub option : ℕ
  pub padding_len : ℕ
  pub security : ℕ
  pub command : ℕ
  pub address : Text
  pub port : ℕ

fnv1a32_from : ℕ → Bytes → ℕ
unfolding xor
fnv1a32_from h [] = h
fnv1a32_from h (b ∷ bytes) = fnv1a32_from (xor 32 h b * 0x01000193 % 2 ^ 32) bytes

unfoldable pub fnv1a32 : Bytes → ℕ
unfolding fnv1a32_from
fnv1a32 = fnv1a32_from 0x811c9dc5

-- The destination of type `atyp` at `pos`, and the position behind it.
pub vmess_address : Bytes → ℕ → ℕ → Result (Text × ℕ)
vmess_address payload atyp pos =
    if atyp == 1
    then (do
      require (leb (pos + 4) (length payload)) (vmess_error "short ipv4")
      ok (dotted (slice payload pos (pos + 4)), pos + 4))
    else if atyp == 2
    then (do
      require (leb (pos + 1) (length payload)) (vmess_error "short domain len")
      dlen ← byte_at payload pos
      require (leb (pos + 1 + dlen) (length payload)) (vmess_error "short domain")
      ok (utf8_ignore (slice payload (pos + 1) (pos + 1 + dlen)), pos + 1 + dlen))
    else if atyp == 3
    then (do
      require (leb (pos + 16) (length payload)) (vmess_error "short ipv6")
      text ← ipv6_text (slice payload pos (pos + 16))
      ok (text, pos + 16))
    else err (vmess_error "unknown atyp")

unfoldable pub parse_command_header : Bytes → Result VMessRequest
parse_command_header payload = do
  require (leb 38 (length payload)) (vmess_error "command header too short")
  version ← byte_at payload 0
  response_token ← byte_at payload 33
  option ← byte_at payload 34
  packed ← byte_at payload 35
  command ← byte_at payload 37
  require (leb 40 (length payload)) (vmess_error "missing port")
  port ← unpack_u16 (slice payload 38 (38 + 2))
  require (leb 41 (length payload)) (vmess_error "missing atyp")
  atyp ← byte_at payload 40
  (address, end) ← vmess_address payload atyp 41
  let pos = end + packed / 16
  require (leb (pos + 4) (length payload)) (vmess_error "missing checksum")
  require (fnv1a32 (take pos payload) == from_be (slice payload pos (pos + 4)))
      (vmess_error "invalid auth (fnv checksum mismatch)")
  ok (record {
    uuid = "";
    version = version;
    body_key = slice payload 17 (17 + 16);
    body_iv = slice payload 1 (1 + 16);
    response_token = response_token;
    option = option;
    padding_len = packed / 16;
    security = packed % 16;
    command = command;
    address = address;
    port = port;
  })

-- What a client seals: the command without its checksum. `reserved` is the byte that the server
-- skips.
pub record Command : Type 0 where
  pub version : ℕ
  pub body_iv : Bytes
  pub body_key : Bytes
  pub response_token : ℕ
  pub option : ℕ
  pub security : ℕ
  pub reserved : ℕ
  pub command : ℕ
  pub port : ℕ
