-- ===== src/Vmess/Session/Requests.antt =====
-- What a client sends at the start of a session is opened to the command that it sealed.
use mathlib.Core.List.{append_assoc}
use rvg_sever.Prelude.{
  ℕ, ◌+◌, ◌<◌, ◌≡◌, arith, List, [], ◌∷◌, ◌++◌, length, true, false, ◌==◌, ==_refl, ◌&&◌, ◌||◌, not,
  if◌then◌else◌, Option, none, some, inl, inr, Bool-cases, ok, String,
}
use rvg_sever.Wire.{Bytes, be16, be32}
use rvg_sever.Wire.Cursor.{read_exact-append}
use rvg_sever.Wire.Numbers.{length-be16, unpack_u16-be16}
use rvg_sever.Crypto.{Aead}
use rvg_sever.Header.{Host, IsWellFormed}
use rvg_sever.Vmess.{
  cmd_tcp, sec_aes128_gcm, sec_chacha20_poly1305, opt_chunk_masking, opt_global_padding,
  opt_auth_length,
}
use rvg_sever.Vmess.Kdf.{encode, kdf16}
use rvg_sever.Vmess.Source.{is_empty}
use rvg_sever.Vmess.Command.{Command, fnv1a32}
use rvg_sever.Vmess.Command.RoundTrip.{
  command_bytes, request_of, parse_command_header-command_bytes, fnv1a32-lt,
}
use rvg_sever.Vmess.Body.{BodyReader, ChunkNonce, new_nonce, new_shake, has, len_cipher, new_reader}
use rvg_sever.Vmess.Body.RoundTrip.Start.{IsSupported, make_body_aead_supported}
use rvg_sever.Vmess.Auth.{ℤ, Primitives, cmd_key_for, decode_auth_id}
use rvg_sever.Vmess.Auth.Validator.{AuthIdValidator}
use rvg_sever.Vmess.Session.{
  as_auth_error, behind, header_key, header_iv, open_aead_header, identify, open_request,
  decode_request, kdf_salt_hdr_len_key, kdf_salt_hdr_len_iv, kdf_salt_hdr_payload_key,
  kdf_salt_hdr_payload_iv,
}

module _ (p : Primitives) where
  open p use {suite, gcm_with}

  -- The sealed length, the nonce and the sealed payload.
  abbrev pub sealed_len : Bytes → Bytes → Bytes → Bytes → Bytes
  sealed_len key auth_id nonce payload =
      (gcm_with (header_key p key kdf_salt_hdr_len_key auth_id nonce) auth_id).encrypt
        (header_iv p key kdf_salt_hdr_len_iv auth_id nonce) (be16 (length payload))

  abbrev pub sealed_payload : Bytes → Bytes → Bytes → Bytes → Bytes
  sealed_payload key auth_id nonce payload =
      (gcm_with (header_key p key kdf_salt_hdr_payload_key auth_id nonce) auth_id).encrypt
        (header_iv p key kdf_salt_hdr_payload_iv auth_id nonce) payload

  abbrev pub seal_header : Bytes → Bytes → Bytes → Bytes → Bytes
  seal_header key auth_id nonce payload =
      sealed_len key auth_id nonce payload ++ (nonce ++ sealed_payload key auth_id nonce payload)

  -- A sealed header of up to 65535 bytes is opened, and what follows it is left.
  pub open_aead_header-seal_header :
      (key auth_id nonce payload rest : Bytes)
      → length nonce ≡ 8
      → length payload < 65536
      → open_aead_header p key auth_id (seal_header key auth_id nonce payload ++ rest)
        ≡ ok (payload, rest)
  unfolding open_aead_header as_auth_error
  open_aead_header-seal_header key auth_id nonce payload rest eight fits =
      let len_aead = gcm_with (header_key p key kdf_salt_hdr_len_key auth_id nonce) auth_id in
      let len_iv = header_iv p key kdf_salt_hdr_len_iv auth_id nonce in
      let aead = gcm_with (header_key p key kdf_salt_hdr_payload_key auth_id nonce) auth_id in
      let iv = header_iv p key kdf_salt_hdr_payload_iv auth_id nonce in
      let head = sealed_len key auth_id nonce payload in
      let body = sealed_payload key auth_id nonce payload in
      rw (
        append_assoc head (nonce ++ body) rest,
        read_exact-append 18 head ((nonce ++ body) ++ rest) (
            omega (
              arith,
              len_aead.length-encrypt len_iv (be16 (length payload)),
              length-be16 (length payload),
            )),
        append_assoc nonce body rest,
        read_exact-append 8 nonce (body ++ rest) eight,
        len_aead.decrypt-encrypt len_iv (be16 (length payload)),
        unpack_u16-be16 (length payload) fits,
        read_exact-append (length payload + 16) body rest (aead.length-encrypt iv payload),
        aead.decrypt-encrypt iv payload,
      )

  new_reader_total :
      (key iv : Bytes) (security option : ℕ) (fills : List Bytes)
      → IsSupported security
      → (r : BodyReader) × (new_reader suite key iv security option fills ≡ ok r)
  unfolding new_reader len_cipher
  new_reader_total key iv security option fills sec =
      let (aead, e) = make_body_aead_supported suite key security sec in
      let (len_aead, e') =
        make_body_aead_supported suite (kdf16 suite.sha256 key (encode "auth_len" ∷ [])) security
          sec in
      let reader : Option (Aead × ChunkNonce) → BodyReader = λ len. record {
        aead = aead;
        len = len;
        padding = has option opt_global_padding && not (has option opt_auth_length);
        shake =
            if has option opt_chunk_masking && not (has option opt_auth_length)
            then some (new_shake iv)
            else none;
        payload_nonce = new_nonce iv;
        source = record { buf = []; fills = fills };
        done = false;
      } in
      elim (Bool-cases (has option opt_auth_length)) [
        | inl on ↦ (reader (some (len_aead, new_nonce iv)), rw (e, on, e'))
        | inr off ↦ (reader none, rw (e, off))
      ]

  -- A command with its checksum, as a client seals it.
  abbrev pub signed_command : Command → Host → Bytes → Bytes
  signed_command c h padding =
      command_bytes c h padding (be32 (fnv1a32 (command_bytes c h padding [])) ++ [])

  supported-lt : (security : ℕ) → IsSupported security → security < 16
  supported-lt security (inl e) = omega (arith, e)
  supported-lt security (inr e) = omega (arith, e)

  supported-test :
      (security : ℕ)
      → IsSupported security
      → (security == sec_aes128_gcm || security == sec_chacha20_poly1305) ≡ true
  supported-test security (inl e) = rw (e)
  supported-test security (inr e) = rw (e)

  open_request-seal_header :
      (uuid : String) (key auth_id nonce padding rest : Bytes) (c : Command) (h : Host)
      (fills : List Bytes) (reader : BodyReader)
      → cmd_key_for p uuid ≡ ok key
      → length nonce ≡ 8
      → length (signed_command c h padding) < 65536
      → length c.body_iv ≡ 16
      → length c.body_key ≡ 16
      → c.command ≡ cmd_tcp
      → IsSupported c.security
      → c.port < 65536
      → IsWellFormed h
      → (has c.option opt_global_padding && has c.option opt_auth_length) ≡ false
      → new_reader suite c.body_key c.body_iv c.security c.option (behind rest fills) ≡ ok reader
      → open_request p uuid auth_id
          (seal_header key auth_id nonce (signed_command c h padding) ++ rest)
          fills
        ≡ ok (record (request_of c h padding) { uuid = uuid }, reader)
  unfolding open_request
  open_request-seal_header uuid key auth_id nonce padding rest c h fills reader known eight fits
        iv16 key16 tcp sec port wf options made =
      let sum = fnv1a32 (command_bytes c h padding []) in
      rw (
        known,
        open_aead_header-seal_header key auth_id nonce (signed_command c h padding) rest eight fits,
        parse_command_header-command_bytes c h padding sum [] iv16 key16
            (supported-lt c.security sec) port wf (fnv1a32-lt (command_bytes c h padding [])),
        ==_refl sum,
        tcp,
        supported-test c.security sec,
        options,
        made,
      )

  -- The TCP request of the one user that a connection expects, whose uuid is not empty and has a key:
  -- for an auth id of 16 bytes that gives any time under this key, and whatever the validator has seen, a
  -- header that was sealed with the key, an 8-byte nonce and a command of less than 65536 bytes gives the
  -- command as it was sealed and a reader of the body, and the validator is left as it was. The command
  -- has a 16-byte key and iv, a supported cipher, a port below 65536 and a well-formed host, and does not
  -- ask for both padding and authenticated lengths.
  pub decode_request-seal_header :
      (now : ℕ) (uuid : String) (key auth_id nonce padding rest : Bytes) (t : ℤ) (c : Command)
      (h : Host) (fills : List Bytes) (v : AuthIdValidator)
      → is_empty (encode uuid) ≡ false
      → cmd_key_for p uuid ≡ ok key
      → length auth_id ≡ 16
      → decode_auth_id p key auth_id ≡ some t
      → length nonce ≡ 8
      → length (signed_command c h padding) < 65536
      → length c.body_iv ≡ 16
      → length c.body_key ≡ 16
      → c.command ≡ cmd_tcp
      → IsSupported c.security
      → c.port < 65536
      → IsWellFormed h
      → (has c.option opt_global_padding && has c.option opt_auth_length) ≡ false
      → (reader : BodyReader) × (new_reader suite c.body_key c.body_iv c.security c.option
            (behind rest fills)
          ≡ ok reader)
        × (decode_request p now uuid
              (auth_id ++ (seal_header key auth_id nonce (signed_command c h padding) ++ rest))
              fills
              v
            ≡ (ok (record (request_of c h padding) { uuid = uuid }, reader), v))
  unfolding decode_request identify
  decode_request-seal_header now uuid key auth_id nonce padding rest t c h fills v named known
        sixteen valid eight fits iv16 key16 tcp sec port wf options =
      let (reader, made) =
        new_reader_total c.body_key c.body_iv c.security c.option (behind rest fills) sec in
      (
        reader,
        made,
        rw (
          read_exact-append 16 auth_id
              (seal_header key auth_id nonce (signed_command c h padding) ++ rest) sixteen,
          decode_request,
          named,
          known,
          valid,
          open_request-seal_header uuid key auth_id nonce padding rest c h fills reader known eight
              fits iv16 key16 tcp sec port wf options made,
        ),
      )
