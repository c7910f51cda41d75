-- ===== src/Vmess.antt =====
-- protocol/vmess/vmess.py: the constants of the protocol and the pieces of the codec.
pub mod Kdf
pub mod Source
pub mod Body
pub mod Command
pub mod Auth
pub mod Session
pub mod Replay
mod Tests
use rvg_sever.Prelude.{ℕ}

abbrev pub sec_aes128_gcm : ℕ
sec_aes128_gcm = 3

abbrev pub sec_chacha20_poly1305 : ℕ
sec_chacha20_poly1305 = 4

abbrev pub opt_chunk_stream : ℕ
opt_chunk_stream = 1

abbrev pub opt_chunk_masking : ℕ
opt_chunk_masking = 4

abbrev pub opt_global_padding : ℕ
opt_global_padding = 8

abbrev pub opt_auth_length : ℕ
opt_auth_length = 16

abbrev pub cmd_tcp : ℕ
cmd_tcp = 1

abbrev pub gcm_nonce_size : ℕ
gcm_nonce_size = 12

abbrev pub tag_size : ℕ
tag_size = 16

abbrev pub max_chunk : ℕ
max_chunk = 16384

abbrev pub auth_id_time_tolerance : ℕ
auth_id_time_tolerance = 120
