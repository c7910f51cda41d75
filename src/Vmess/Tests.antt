-- ===== src/Vmess/Tests.antt =====
-- The theorems on the VMess codec at short bodies and commands, with a sample suite.
use rvg_sever.Prelude.{
  ◌%◌, ◌≡◌, refl, arith, List, [], ◌∷◌, ◌++◌, ok, err, ◌>>=◌, inl, vmess_error, ◌==◌, if◌then◌else◌,
}
use rvg_sever.Wire.{Bytes, be16, be32, pack_u16}
use rvg_sever.Header.{Host, ipv4}
use rvg_sever.Crypto.Samples.{sample_suite, zeros, length-zeros}
use rvg_sever.Vmess.Kdf.{kdf, closed_form_kdf1}
use rvg_sever.Vmess.Kdf.Chain.{kdf-digest, kdf-closed_form_kdf1, digest, stack, written}
use rvg_sever.Vmess.Kdf.{pad, kdf_salt_vmess_aead_kdf}
use rvg_sever.Vmess.Source.{concat}
use rvg_sever.Vmess.Body.{
  new_writer, new_reader, seal, write_chunk, write_eof, len_cipher, size_field, masked_size,
  writer_padding, make_body_aead, next,
}
use rvg_sever.Vmess.Body.RoundTrip.{read_all}
use rvg_sever.Vmess.Body.Stream.{write_chunks, write_body, read_all-write_body}
use rvg_sever.Vmess.Body.Padding.{write_chunk-cannot_send}
use rvg_sever.Vmess.Body.{BodyReader, BodyWriter}
use rvg_sever.Prelude.{attribute_error, inr}
use rvg_sever.Vmess.Body.Nonces.{nonce_at, nonce_at-eq_iff}
use rvg_sever.Vmess.Command.{Command, fnv1a32, parse_command_header}
use rvg_sever.Vmess.Command.RoundTrip.{
  command_bytes, request_of, parse_command_header-command_bytes,
}

abbrev payloads : List Bytes
payloads = (5 ∷ 6 ∷ []) ∷ []

-- The body of `payloads` in two reads, the first of which ends inside the chunk.
abbrev fills : List Bytes
fills = ((0 ∷ 18 ∷ zeros 16) ++ (5 ∷ [])) ∷ (6 ∷ 0 ∷ 16 ∷ zeros 16) ∷ []

written_payloads :
    (new_writer sample_suite (zeros 16) (zeros 16) 3 1 >>= λ w.
    write_body sample_suite zeros w payloads)
    ≡ ok (concat fills)
unfolding new_writer make_body_aead write_body write_chunks write_chunk write_eof seal
    writer_padding size_field masked_size len_cipher next be16 pack_u16
written_payloads = refl

read_all-write_body_example :
    ((new_reader sample_suite (zeros 16) (zeros 16) 3 1 fills >>= read_all sample_suite 2)
      ≡ ok payloads)
    × (concat payloads ≡ 5 ∷ 6 ∷ [])
read_all-write_body_example =
    read_all-write_body sample_suite zeros (zeros 16) (zeros 16) 3 1 payloads fills (inl refl) refl
      length-zeros (omega arith, tt) (refl, (refl, tt)) written_payloads

nonce_at-eq_iff_example :
    (nonce_at (zeros 16) 1 ≡ nonce_at (zeros 16) 65537 → 1 % 65536 ≡ 65537 % 65536)
    × (1 % 65536 ≡ 65537 % 65536 → nonce_at (zeros 16) 1 ≡ nonce_at (zeros 16) 65537)
nonce_at-eq_iff_example = nonce_at-eq_iff (zeros 16) 1 65537

abbrev command : Command
command = record {
  version = 1;
  body_iv = zeros 16;
  body_key = zeros 16;
  response_token = 7;
  option = 1;
  security = 3;
  reserved = 0;
  command = 1;
  port = 443;
}

abbrev host : Host
host = ipv4 (10 ∷ 0 ∷ 0 ∷ 1 ∷ [])

parse_command_header-command_bytes_example :
    parse_command_header (command_bytes command host (9 ∷ 9 ∷ []) (be32 5 ++ [])) ≡ (
      if fnv1a32 (command_bytes command host (9 ∷ 9 ∷ []) []) == 5
      then ok (request_of command host (9 ∷ 9 ∷ []))
      else err (vmess_error "invalid auth (fnv checksum mismatch)"))
parse_command_header-command_bytes_example =
    parse_command_header-command_bytes command host (9 ∷ 9 ∷ []) 5 [] refl refl (omega arith)
      (omega arith) refl (omega arith)

kdf-digest_example :
    kdf sample_suite.sha256 (1 ∷ []) ((2 ∷ []) ∷ (3 ∷ []) ∷ [])
    ≡ digest sample_suite.sha256
        (pad 0x36 kdf_salt_vmess_aead_kdf)
        (pad 0x5c kdf_salt_vmess_aead_kdf)
        (stack ((2 ∷ []) ∷ (3 ∷ []) ∷ []) [])
        (written ((2 ∷ []) ∷ (3 ∷ []) ∷ []) ++ (1 ∷ []))
kdf-digest_example =
    kdf-digest sample_suite.sha256 (1 ∷ []) ((2 ∷ []) ∷ (3 ∷ []) ∷ [])
      (omega arith, (omega arith, tt))

kdf-closed_form_kdf1_example :
    kdf sample_suite.sha256 (1 ∷ []) ((2 ∷ []) ∷ [])
    ≡ closed_form_kdf1 sample_suite.sha256 (1 ∷ []) (2 ∷ [])
kdf-closed_form_kdf1_example =
    kdf-closed_form_kdf1 sample_suite.sha256 (1 ∷ []) (2 ∷ []) (omega arith)

write_chunk-cannot_send_example :
    (r : BodyReader) × (w : BodyWriter) × (new_reader sample_suite (zeros 16) (zeros 16) 4 9 fills
      ≡ ok r)
    × (new_writer sample_suite (zeros 16) (zeros 16) 4 9 ≡ ok w)
    × (write_chunk sample_suite zeros w (1 ∷ []) ≡ err attribute_error)
write_chunk-cannot_send_example =
    write_chunk-cannot_send sample_suite zeros (zeros 16) (zeros 16) 4 9 fills (1 ∷ []) (inr refl)
      refl (omega arith)
