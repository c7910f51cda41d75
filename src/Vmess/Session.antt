-- ===== src/Vmess/Session.antt =====
-- The start of a session of protocol/vmess/vmess.py: `open_aead_header`, `decode_request`, and the
-- answer, `response_header_bytes` and `response_body_writer`.
pub mod Requests
mod Tests
use rvg_sever.Prelude.{
  ℕ, ◌+◌, ◌≤◌, List, [], ◌∷◌, ◌++◌, length, take, drop, Bool, true, false, leb, ◌==◌, ◌&&◌, ◌||◌,
  not, if◌then◌else◌, Option, none, some, Result, ok, err, Error, index_error, attribute_error,
  invalid_tag, value_error, struct_error, overflow_error, runtime_error, eof_error, http_error,
  vmess_error, vmess_auth_error, ◌>>=◌, ◌>>◌, require, of_option, String,
}
use rvg_sever.Wire.{Bytes, read_exact, be16, unpack_u16}
use rvg_sever.Vmess.{
  cmd_tcp, tag_size, gcm_nonce_size, sec_aes128_gcm, sec_chacha20_poly1305, opt_global_padding,
  opt_auth_length,
}
use rvg_sever.Vmess.Kdf.{kdf, kdf16, encode}
use rvg_sever.Vmess.Command.{VMessRequest, parse_command_header}
use rvg_sever.Vmess.Body.{BodyReader, BodyWriter, has, new_reader, new_writer}
use rvg_sever.Vmess.Source.{is_empty}
use rvg_sever.Vmess.Auth.{Primitives, cmd_key_for, decode_auth_id}
use rvg_sever.Vmess.Auth.Validator.{AuthIdValidator, match_}

abbrev pub kdf_salt_hdr_payload_key : Bytes
kdf_salt_hdr_payload_key = encode "VMess Header AEAD Key"

abbrev pub kdf_salt_hdr_payload_iv : Bytes
kdf_salt_hdr_payload_iv = encode "VMess Header AEAD Nonce"

abbrev pub kdf_salt_hdr_len_key : Bytes
kdf_salt_hdr_len_key = encode "VMess Header AEAD Key_Length"

abbrev pub kdf_salt_hdr_len_iv : Bytes
kdf_salt_hdr_len_iv = encode "VMess Header AEAD Nonce_Length"

abbrev pub kdf_salt_resp_hdr_len_key : Bytes
kdf_salt_resp_hdr_len_key = encode "AEAD Resp Header Len Key"

abbrev pub kdf_salt_resp_hdr_len_iv : Bytes
kdf_salt_resp_hdr_len_iv = encode "AEAD Resp Header Len IV"

abbrev pub kdf_salt_resp_hdr_payload_key : Bytes
kdf_salt_resp_hdr_payload_key = encode "AEAD Resp Header Key"

abbrev pub kdf_salt_resp_hdr_payload_iv : Bytes
kdf_salt_resp_hdr_payload_iv = encode "AEAD Resp Header IV"

-- `except VMessError: raise`, and any other exception as `VMessAuthError`
unfoldable pub as_auth_error {ℓ} : {A : Type ℓ} → Result A → Result A
as_auth_error (ok a) = ok a
as_auth_error (err (vmess_error text)) = err (vmess_error text)
as_auth_error (err (vmess_auth_error text)) = err (vmess_auth_error text)
as_auth_error (err _) = err (vmess_auth_error "AEAD header open failed")

-- What `fill` returns: first what `read_exact` has left.
abbrev pub behind : Bytes → List Bytes → List Bytes
behind rest fills = if is_empty rest then fills else rest ∷ fills

module _ (p : Primitives) where
  open p use {suite, gcm_with}
  open suite use {sha256, gcm}

  -- A key and a nonce of the header.
  abbrev pub header_key : Bytes → Bytes → Bytes → Bytes → Bytes
  header_key cmd_key salt auth_id nonce = kdf16 sha256 cmd_key (salt ∷ auth_id ∷ nonce ∷ [])

  abbrev pub header_iv : Bytes → Bytes → Bytes → Bytes → Bytes
  header_iv cmd_key salt auth_id nonce =
      take gcm_nonce_size (kdf sha256 cmd_key (salt ∷ auth_id ∷ nonce ∷ []))

  unfoldable pub open_aead_header : Bytes → Bytes → Bytes → Result (Bytes × Bytes)
  unfolding read_exact as_auth_error
  open_aead_header cmd_key auth_id bs = as_auth_error (do
    (enc_len, bs') ← read_exact 18 bs
    (nonce, bs'') ← read_exact 8 bs'
    plain ←
        of_option
          ((gcm_with (header_key cmd_key kdf_salt_hdr_len_key auth_id nonce) auth_id).decrypt
            (header_iv cmd_key kdf_salt_hdr_len_iv auth_id nonce) enc_len)
          invalid_tag
    pt_len ← unpack_u16 plain
    (enc_payload, bs''') ← read_exact (pt_len + tag_size) bs''
    payload ←
        of_option
          ((gcm_with (header_key cmd_key kdf_salt_hdr_payload_key auth_id nonce) auth_id).decrypt
            (header_iv cmd_key kdf_salt_hdr_payload_iv auth_id nonce) enc_payload)
          invalid_tag
    ok (payload, bs'''))

  -- Whose request it is: the expected user's, or whom the validator finds. Without an expected user
  -- `expected_uuid` is empty.
  unfoldable pub identify : ℕ → String → Bytes → AuthIdValidator → Result (String × AuthIdValidator)
  identify now expected_uuid auth_id v =
      if is_empty (encode expected_uuid)
      then (do
        (found, v') ← match_ p now auth_id v
        uuid_used ← of_option found (vmess_auth_error "unknown user")
        ok (uuid_used, v'))
      else (do
        key ← cmd_key_for p expected_uuid
        _ ←
            of_option (decode_auth_id p key auth_id)
              (vmess_auth_error "unknown user or expired auth id")
        ok (expected_uuid, v))

  -- The header of a known user, the command in it, and the reader of the body.
  unfoldable pub open_request :
      String → Bytes → Bytes → List Bytes → Result (VMessRequest × BodyReader)
  unfolding open_aead_header
  open_request uuid_used auth_id bs fills = do
    key ← cmd_key_for p uuid_used
    (payload, rest) ← open_aead_header key auth_id bs
    parsed ← parse_command_header payload
    let r = record parsed { uuid = uuid_used }
    require (r.command == cmd_tcp) (vmess_error "only TCP command is supported")
    require (r.security == sec_aes128_gcm || r.security == sec_chacha20_poly1305)
        (vmess_error "unsupported security")
    require (not (has r.option opt_global_padding && has r.option opt_auth_length))
        (vmess_error "invalid option: GlobalPadding + AuthenticatedLength")
    reader ← new_reader suite r.body_key r.body_iv r.security r.option (behind rest fills)
    ok (r, reader)

  -- What the validator has accepted stays accepted when the rest raises.
  unfoldable pub decode_request :
      ℕ
      → String
      → Bytes
      → List Bytes
      → AuthIdValidator
      → Result (VMessRequest × BodyReader) × AuthIdValidator
  decode_request now expected_uuid bs fills v = elim (read_exact 16 bs) [
    | err e ↦ (err e, v)
    | ok (auth_id, rest) ↦ elim (identify now expected_uuid auth_id v) [
      | err e ↦ (err e, v)
      | ok (uuid_used, v') ↦ (open_request uuid_used auth_id rest fills, v')
    ]
  ]

  -- The keys of the answer.
  abbrev pub response_key : VMessRequest → Bytes
  response_key request = take 16 (sha256 request.body_key)

  abbrev pub response_iv : VMessRequest → Bytes
  response_iv request = take 16 (sha256 request.body_iv)

  unfoldable pub response_header_bytes : VMessRequest → Bytes
  unfolding be16
  response_header_bytes request =
      let pt = request.response_token ∷ 0 ∷ 0 ∷ 0 ∷ [] in
      let nonce : Bytes → Bytes =
        λ salt. take gcm_nonce_size (kdf sha256 (response_iv request) (salt ∷ [])) in
      let key : Bytes → Bytes = λ salt. kdf16 sha256 (response_key request) (salt ∷ []) in
      (gcm (key kdf_salt_resp_hdr_len_key)).encrypt (nonce kdf_salt_resp_hdr_len_iv)
        (be16 (length pt))
      ++ (gcm (key kdf_salt_resp_hdr_payload_key)).encrypt (nonce kdf_salt_resp_hdr_payload_iv) pt

  unfoldable pub response_body_writer : VMessRequest → Result BodyWriter
  response_body_writer request =
      new_writer suite (response_key request) (response_iv request) request.security request.option
