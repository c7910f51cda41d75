-- ===== src/Vmess/Session/Tests.antt =====
-- The theorems on auth ids, the validator and the start of a session, with sample primitives: AES that
-- does nothing and a constant checksum.
use rvg_sever.Prelude.{◌≡◌, refl, arith, List, [], ◌∷◌, ◌++◌, length, some, ok, inl}
use rvg_sever.Wire.{Bytes, be16, be32, from_be, slice}
use rvg_sever.Header.{Host, ipv4}
use rvg_sever.Crypto.Samples.{sample_suite, sample_aead, zeros}
use rvg_sever.Vmess.Body.{BodyReader, new_reader}
use rvg_sever.Vmess.Command.{Command}
use rvg_sever.Vmess.Command.RoundTrip.{command_bytes, request_of}
use rvg_sever.Vmess.Auth.{
  pos, negsuc, Primitives, cmd_key_for, create_auth_id, decode_auth_id, stamped_time, unpack_i64,
  from_hex, hex_digit, plain_hex,
}
use rvg_sever.Vmess.Auth.Ids.{decode_auth_id-create_auth_id}
use rvg_sever.Vmess.Auth.Validator.{new_validator}
use rvg_sever.Vmess.Auth.Serving.{
  Event, register, unregister, request, serve, ideal_serve, serve-ideal,
}
use rvg_sever.Vmess.Session.{behind, decode_request}
use rvg_sever.Vmess.Session.Requests.{seal_header, signed_command, decode_request-seal_header}

abbrev primitives : Primitives
primitives = record {
  suite = sample_suite;
  encrypt_block = λ key block. block;
  decrypt_block = λ key block. some block;
  crc32 = λ bs. 7;
  gcm_with = λ key data_. sample_aead;
  decrypt-encrypt_block = λ key block h. refl;
  length-encrypt_block = λ key block h. h;
  crc32-lt = λ bs. omega arith;
}

decode_auth_id-create_auth_id_example :
    (auth_id : Bytes) × (create_auth_id primitives (zeros 4) (zeros 16) (negsuc 4) ≡ ok auth_id)
    × (length auth_id ≡ 16)
    × (decode_auth_id primitives (zeros 16) auth_id ≡ some (negsuc 4))
decode_auth_id-create_auth_id_example =
    decode_auth_id-create_auth_id primitives (zeros 4) (zeros 16) (negsuc 4) refl (omega arith)

-- The auth id of the time 5.
abbrev stamped : Bytes
stamped = zeros 7 ++ (5 ∷ (zeros 7 ++ (7 ∷ [])))

stamped_decoded : decode_auth_id primitives (zeros 16) stamped ≡ some (pos 5)
unfolding decode_auth_id stamped_time unpack_i64 from_be slice
stamped_decoded = refl

abbrev events : List Event
events =
    register "00"
    ∷ request 100 stamped
    ∷ request 101 stamped
    ∷ request 200 stamped
    ∷ unregister "00"
    ∷ request 100 stamped
    ∷ []

serve-ideal_example : serve primitives events new_validator ≡ ideal_serve primitives events [] []
serve-ideal_example = serve-ideal primitives events

abbrev command : Command
command = record {
  version = 1;
  body_iv = zeros 16;
  body_key = zeros 16;
  response_token = 7;
  option = 1;
  security = 3;
  reserved = 0;
  command = 1;
  port = 443;
}

abbrev host : Host
host = ipv4 (10 ∷ 0 ∷ 0 ∷ 1 ∷ [])

abbrev key : Bytes
key = 0 ∷ 99 ∷ 52 ∷ 56 ∷ 54 ∷ 49 ∷ 57 ∷ 102 ∷ 101 ∷ 45 ∷ 56 ∷ 102 ∷ 48 ∷ 50 ∷ 45 ∷ 52 ∷ []

key_known : cmd_key_for primitives "00" ≡ ok key
unfolding cmd_key_for from_hex hex_digit plain_hex
key_known = refl

decoded : decode_auth_id primitives key stamped ≡ some (pos 5)
unfolding decode_auth_id stamped_time unpack_i64 from_be slice
decoded = refl

decode_request-seal_header_example :
    (reader : BodyReader) × (new_reader sample_suite (zeros 16) (zeros 16) 3 1 (behind (8 ∷ []) [])
      ≡ ok reader)
    × (decode_request primitives 1000 "00"
          (stamped
            ++ (seal_header primitives key stamped
                  (zeros 8)
                  (signed_command primitives command host (9 ∷ []))
                ++ (8 ∷ [])))
          []
          new_validator
        ≡ (ok (record (request_of command host (9 ∷ [])) { uuid = "00" }, reader), new_validator))
unfolding command_bytes be16 be32
decode_request-seal_header_example =
    decode_request-seal_header primitives 1000 "00" key stamped (zeros 8) (9 ∷ []) (8 ∷ []) (pos 5)
      command host [] new_validator refl key_known refl decoded refl (omega arith) refl refl refl
      (inl refl) (omega arith) refl refl
