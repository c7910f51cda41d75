-- ===== src/Vmess/Command/RoundTrip.antt =====
-- A sealed command is accepted exactly if its checksum is right, and is read back then.
use mathlib.Core.List.{append_assoc, append-nil}
use rvg_sever.Prelude.{
  ℕ, ◌+◌, ◌*◌, ◌/◌, ◌%◌, ◌^◌, ◌<◌, ◌≡◌, refl, ap, arith, [], ◌∷◌, ◌++◌, length, take, drop, Bool,
  ok, err, vmess_error, ◌>>◌, require, le→leb, ◌==◌, Error, if◌then◌else◌, length-append,
  take-append, length-drop, true, false,
}
use rvg_sever.Wire.{Bytes, be16, be32, xor}
use rvg_sever.Wire.Numbers.{length-be16, length-be32, unpack_u16-be16, from_be-be32}
use rvg_sever.Wire.Cursor.{byte_at-drop, drop-next, slice-drop, drop-skip}
use rvg_sever.Wire.Text.{ipv6_text-pairs}
use rvg_sever.Header.{Host, ipv4, domain, ipv6, IsWellFormed, host_bytes, host_text, host_tag}
use rvg_sever.Header.Address.{host_end, host_end-length, drop-host_end}
use rvg_sever.Vmess.Command.{
  VMessRequest, Command, fnv1a32, fnv1a32_from, vmess_address, parse_command_header,
}

fnv1a32_from-lt : (h : ℕ) (bytes : Bytes) → h < 2 ^ 32 → fnv1a32_from h bytes < 2 ^ 32
unfolding fnv1a32_from
fnv1a32_from-lt h [] p = p
fnv1a32_from-lt h (b ∷ bytes) p =
    fnv1a32_from-lt (xor 32 h b * 0x01000193 % 2 ^ 32) bytes (omega arith)

-- The checksum fits into its four bytes.
pub fnv1a32-lt : (bytes : Bytes) → fnv1a32 bytes < 2 ^ 32
unfolding fnv1a32
fnv1a32-lt bytes = fnv1a32_from-lt 0x811c9dc5 bytes (omega arith)

vmess_address-host :
    (payload : Bytes) (pos : ℕ) (rest : Bytes) (h : Host)
    → IsWellFormed h
    → drop pos payload ≡ host_bytes h ++ rest
    → vmess_address payload (host_tag 2 3 h) pos ≡ ok (host_text h, host_end pos h)
unfolding vmess_address host_text
vmess_address-host payload pos rest (ipv4 bs) v e = rw (
  le→leb (pos + 4) (length payload)
      (omega (arith, ap length e, length-drop pos payload, length-append bs rest)),
  slice-drop payload pos 4 bs rest e v,
)
vmess_address-host payload pos rest (domain bs) v e = rw (
  le→leb (pos + 1) (length payload) (omega (arith, ap length e, length-drop pos payload)),
  byte_at-drop payload pos (length bs) (bs ++ rest) e,
  le→leb (pos + 1 + length bs) (length payload)
      (omega (arith, ap length e, length-drop pos payload, length-append bs rest)),
  slice-drop payload (pos + 1) (length bs) bs rest
      (drop-next payload pos (length bs) (bs ++ rest) e) refl,
)
vmess_address-host payload pos rest (ipv6 bs) v e = rw (
  le→leb (pos + 16) (length payload)
      (omega (arith, ap length e, length-drop pos payload, length-append bs rest)),
  slice-drop payload pos 16 bs rest e v,
  ipv6_text-pairs bs v,
)

-- The command with its padding, and what follows it.
unfoldable pub command_bytes : Command → Host → Bytes → Bytes → Bytes
command_bytes c h padding tail =
    c.version
    ∷ (c.body_iv
        ++ (c.body_key
            ++ (c.response_token
                ∷ c.option
                ∷ (length padding * 16 + c.security)
                ∷ c.reserved
                ∷ c.command
                ∷ (be16 c.port ++ (host_tag 2 3 h ∷ (host_bytes h ++ (padding ++ tail)))))))

module _ (c : Command) (h : Host) (padding tail : Bytes) where
  abbrev payload : Bytes
  payload = command_bytes c h padding tail

  command_bytes-append : payload ≡ command_bytes c h padding [] ++ tail
  unfolding command_bytes
  command_bytes-append = simp (append_assoc, append-nil)

  abbrev at41 : Bytes
  at41 = host_bytes h ++ (padding ++ tail)

  abbrev at38 : Bytes
  at38 = be16 c.port ++ (host_tag 2 3 h ∷ at41)

  abbrev at35 : Bytes
  at35 = (length padding * 16 + c.security) ∷ c.reserved ∷ c.command ∷ at38

  abbrev at33 : Bytes
  at33 = c.response_token ∷ c.option ∷ at35

  drop0 : drop 0 payload ≡ c.version ∷ (c.body_iv ++ (c.body_key ++ at33))
  unfolding command_bytes
  drop0 = refl

  drop1 : drop 1 payload ≡ c.body_iv ++ (c.body_key ++ at33)
  unfolding command_bytes
  drop1 = refl

  module _ (iv : length c.body_iv ≡ 16) (key : length c.body_key ≡ 16) where
    drop17 : drop 17 payload ≡ c.body_key ++ at33
    drop17 = drop-skip payload 1 16 c.body_iv (c.body_key ++ at33) drop1 iv

    drop33 : drop 33 payload ≡ at33
    drop33 = drop-skip payload 17 16 c.body_key at33 drop17 key

    drop34 : drop 34 payload ≡ c.option ∷ at35
    drop34 = drop-next payload 33 c.response_token (c.option ∷ at35) drop33

    drop35 : drop 35 payload ≡ at35
    drop35 = drop-next payload 34 c.option at35 drop34

    drop37 : drop 37 payload ≡ c.command ∷ at38
    drop37 =
        drop-skip payload 35 2 ((length padding * 16 + c.security) ∷ c.reserved ∷ [])
          (c.command ∷ at38) drop35 refl

    drop38 : drop 38 payload ≡ at38
    drop38 = drop-next payload 37 c.command at38 drop37

    drop40 : drop 40 payload ≡ host_tag 2 3 h ∷ at41
    drop40 =
        drop-skip payload 38 2 (be16 c.port) (host_tag 2 3 h ∷ at41) drop38 (length-be16 c.port)

    drop41 : drop 41 payload ≡ at41
    drop41 = drop-next payload 40 (host_tag 2 3 h) at41 drop40

    module _ (v : IsWellFormed h) where
      drop_padding : drop (host_end 41 h) payload ≡ padding ++ tail
      drop_padding = drop-host_end payload 41 (padding ++ tail) h v drop41

      drop_tail : drop (host_end 41 h + length padding) payload ≡ tail
      drop_tail = drop-skip payload (host_end 41 h) (length padding) padding tail drop_padding refl

-- The fields, as the server keeps them.
abbrev pub request_of : Command → Host → Bytes → VMessRequest
request_of c h padding = record {
  uuid = "";
  version = c.version;
  body_key = c.body_key;
  body_iv = c.body_iv;
  response_token = c.response_token;
  option = c.option;
  padding_len = length padding;
  security = c.security;
  command = c.command;
  address = host_text h;
  port = c.port;
}

module _ (c : Command) (h : Host) (padding : Bytes) (sum : ℕ) (rest : Bytes) where
  abbrev sent : Bytes
  sent = command_bytes c h padding (be32 sum ++ rest)

  module _ (iv : length c.body_iv ≡ 16) (key : length c.body_key ≡ 16) (v : IsWellFormed h) where
    abbrev end : ℕ
    end = host_end 41 h + length padding

    length-prefix : length (command_bytes c h padding []) ≡ end
    unfolding command_bytes be16
    length-prefix =
        let tail2 = host_tag 2 3 h ∷ at41 c h padding [] in
        omega (
          arith,
          length-append c.body_iv (c.body_key ++ at33 c h padding []),
          length-append c.body_key (at33 c h padding []),
          length-append (be16 c.port) tail2,
          length-append (host_bytes h) (padding ++ []),
          length-append padding [],
          host_end-length 41 h v,
        )

    length-sent : length sent ≡ end + 4 + length rest
    length-sent = rw (command_bytes-append c h padding (be32 sum ++ rest)) (
        omega (
          arith,
          length-prefix,
          length-append (command_bytes c h padding []) (be32 sum ++ rest),
          length-append (be32 sum) rest,
          length-be32 sum,
        ))

    take-prefix : take end sent ≡ command_bytes c h padding []
    take-prefix =
        rw (command_bytes-append c h padding (be32 sum ++ rest))
          (take-append end (command_bytes c h padding []) (be32 sum ++ rest) length-prefix)

require-if {ℓ} :
    {A : Type ℓ} (b : Bool) (e : Error) (a : A)
    → (require b e >> ok a) ≡ (if b then ok a else err e)
require-if true e a = refl
require-if false e a = refl

-- A command that a client seals, followed by any four bytes for its checksum, is read back with
-- the destination as text if they are the FNV-1a hash of what precedes them, and is rejected
-- otherwise, whatever comes behind.
pub parse_command_header-command_bytes :
    (c : Command) (h : Host) (padding : Bytes) (sum : ℕ) (rest : Bytes)
    → length c.body_iv ≡ 16
    → length c.body_key ≡ 16
    → c.security < 16
    → c.port < 65536
    → IsWellFormed h
    → sum < 2 ^ 32
    → parse_command_header (command_bytes c h padding (be32 sum ++ rest)) ≡ (
        if fnv1a32 (command_bytes c h padding []) == sum
        then ok (request_of c h padding)
        else err (vmess_error "invalid auth (fnv checksum mismatch)"))
parse_command_header-command_bytes c h padding sum rest iv key sec port v small =
    let s = sent c h padding sum rest in
    let tail = be32 sum ++ rest in
    let i = host_end 41 h + length padding in
    let long = length-sent c h padding sum rest iv key v in
    let packed : (length padding * 16 + c.security) / 16 ≡ length padding = omega arith in
    let low : (length padding * 16 + c.security) % 16 ≡ c.security = omega arith in
    unfold parse_command_header in
    rw
      (
        le→leb 38 (length s) (omega (arith, long, host_end-length 41 h v)),
        byte_at-drop s 0 c.version _ (drop0 c h padding tail),
        byte_at-drop s 33 c.response_token _ (drop33 c h padding tail iv key),
        byte_at-drop s 34 c.option _ (drop34 c h padding tail iv key),
        byte_at-drop s 35 (length padding * 16 + c.security) _ (drop35 c h padding tail iv key),
        byte_at-drop s 37 c.command _ (drop37 c h padding tail iv key),
        le→leb 40 (length s) (omega (arith, long, host_end-length 41 h v)),
        slice-drop s 38 2 (be16 c.port) _ (drop38 c h padding tail iv key) (length-be16 c.port),
        unpack_u16-be16 c.port port,
        le→leb 41 (length s) (omega (arith, long, host_end-length 41 h v)),
        byte_at-drop s 40 (host_tag 2 3 h) _ (drop40 c h padding tail iv key),
        vmess_address-host s 41 (padding ++ tail) h v (drop41 c h padding tail iv key),
        packed,
        low,
        le→leb (i + 4) (length s) (omega (arith, long)),
        take-prefix c h padding sum rest iv key v,
        slice-drop s i 4 (be32 sum) rest (drop_tail c h padding tail iv key v) (length-be32 sum),
        from_be-be32 sum small,
        slice-drop s 17 16 c.body_key _ (drop17 c h padding tail iv key) key,
        slice-drop s 1 16 c.body_iv _ (drop1 c h padding tail) iv,
      )
      (require-if (fnv1a32 (command_bytes c h padding []) == sum)
        (vmess_error "invalid auth (fnv checksum mismatch)") (request_of c h padding))
