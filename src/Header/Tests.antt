-- ===== src/Header/Tests.antt =====
-- The theorems on the headers at the requests of a client.
use rvg_sever.Prelude.{
  ℕ, zero, suc, ◌<◌, ◌≡◌, refl, arith, [], ◌∷◌, ◌++◌, take, ok, err, value_error, All,
}
use rvg_sever.Wire.{Bytes, be16}
use rvg_sever.Header.{Host, ipv4, domain, ipv6, host_text}
use rvg_sever.Header.Vless.{
  VlessRequest, vless_bytes, parse_vless_header, parse_vless_header-vless_bytes,
}
use rvg_sever.Header.Trojan.{
  TrojanRequest, trojan_bytes, parse_trojan_header, parse_trojan_header-trojan_bytes,
}
use rvg_sever.Header.Socks.{
  socks_bytes, parse_socks5_addr, parse_socks5_addr-socks_bytes, parse_socks5_addr-short,
}
use rvg_sever.Crypto.Samples.{zeros}

abbrev local_host : Host
local_host = ipv4 (127 ∷ 0 ∷ 0 ∷ 1 ∷ [])

abbrev vless_request : VlessRequest
vless_request = record {
  version = 0;
  uuid = zeros 16;
  addons = [];
  command = 1;
  port = 443;
  host = local_host;
}

parse_vless_header-vless_bytes_example :
    parse_vless_header (vless_bytes vless_request (7 ∷ []))
    ≡ ok (record { command = 1; address = host_text local_host; port = 443; payload = 7 ∷ [] })
unfolding vless_bytes be16
parse_vless_header-vless_bytes_example =
    parse_vless_header-vless_bytes vless_request (7 ∷ []) refl (omega arith) refl (omega arith)

-- The hash of a password, as it stands in the header: 56 digits.
abbrev digits : ℕ → Bytes
digits zero = []
digits (suc n) = 48 ∷ digits n

digits-ascii : (n : ℕ) → All (λ b. b < 128) (digits n)
digits-ascii zero = tt
digits-ascii (suc n) = (omega arith, digits-ascii n)

abbrev trojan_request : TrojanRequest
trojan_request = record {
  pw_hash = digits 56;
  command = 1;
  host = domain (97 ∷ 46 ∷ 98 ∷ []);
  port = 80;
}

parse_trojan_header-trojan_bytes_example :
    parse_trojan_header (trojan_bytes trojan_request (1 ∷ 2 ∷ []))
    ≡ ok (record {
      pw_hash = digits 56;
      command = 1;
      address = host_text (domain (97 ∷ 46 ∷ 98 ∷ []));
      port = 80;
      payload = 1 ∷ 2 ∷ [];
    })
parse_trojan_header-trojan_bytes_example =
    parse_trojan_header-trojan_bytes trojan_request (1 ∷ 2 ∷ []) refl (digits-ascii 56)
      (omega arith) (omega arith)

parse_socks5_addr-socks_bytes_example :
    parse_socks5_addr (socks_bytes (ipv6 (zeros 16)) 53 ++ (9 ∷ []))
    ≡ ok (record { address = host_text (ipv6 (zeros 16)); port = 53; consumed = 19 })
unfolding socks_bytes be16
parse_socks5_addr-socks_bytes_example =
    parse_socks5_addr-socks_bytes (ipv6 (zeros 16)) 53 (9 ∷ []) refl (omega arith)

parse_socks5_addr-short_example :
    parse_socks5_addr (take 5 (socks_bytes local_host 53)) ≡ err value_error
unfolding socks_bytes be16
parse_socks5_addr-short_example = parse_socks5_addr-short local_host 53 5 refl (omega arith)
