-- ===== src/Vmess/Body/RoundTrip/Start.antt =====
-- A new writer and a new reader of the same keys and options are in step.
use mathlib.Core.Bool.{and-true, and-false}
use rvg_sever.Prelude.{
  ℕ, ◌≡◌, List, [], ◌++◌, Bool, true, false, ◌||◌, not, Option, none, some, ok, ◌∷◌, ◌⊎◌, inl, inr,
  Bool-cases, if◌then◌else◌,
}
use rvg_sever.Wire.{Bytes}
use rvg_sever.Crypto.{Aead, Suite}
use rvg_sever.Vmess.{
  sec_aes128_gcm, sec_chacha20_poly1305, opt_chunk_masking, opt_global_padding, opt_auth_length,
}
use rvg_sever.Vmess.Kdf.{kdf16, encode}
use rvg_sever.Vmess.Body.{
  ShakeStream, has, make_body_aead, len_cipher, new_nonce, new_shake, new_reader, new_writer,
}
use rvg_sever.Vmess.Body.RoundTrip.Frames.{CanPad}
use rvg_sever.Vmess.Body.RoundTrip.Channels.{Channel, plain, authlen, writer_of, reader_of, CanSeal}

abbrev pub IsSupported : ℕ → Type 0
IsSupported security = (security ≡ sec_aes128_gcm) ⊎ (security ≡ sec_chacha20_poly1305)

-- Padding needs a mask to draw its lengths from, or an authenticated length to be ignored.
abbrev pub can_send : ℕ → Bool
can_send option =
    not (has option opt_global_padding)
    || (has option opt_auth_length || has option opt_chunk_masking)

module _ (suite : Suite) where
  pub make_body_aead_supported :
      (key : Bytes) (security : ℕ)
      → IsSupported security
      → (a : Aead) × (make_body_aead suite key security ≡ ok a)
  unfolding make_body_aead
  make_body_aead_supported key security (inl e) = (suite.gcm key, rw e)
  make_body_aead_supported key security (inr e) =
      (suite.chacha (suite.md5 key ++ suite.md5 (suite.md5 key)), rw e)

  module _ (key iv : Bytes) (security option : ℕ) (sec : IsSupported security) where
    -- The mask stream that both sides make.
    abbrev mask_of : Bool → Option ShakeStream
    mask_of m = if m then some (new_shake iv) else none

    can_pad : (m p : Bool) → (not p || (false || m)) ≡ true → CanPad p (mask_of m)
    can_pad true true h = tt
    can_pad true false h = tt
    can_pad false true h = cc
    can_pad false false h = tt

    -- The channel that both sides start at.
    module _ (ea : has option opt_auth_length ≡ false) (can : can_send option ≡ true) where
      start_plain :
          (ch : Channel) × CanSeal ch
          × (new_writer suite key iv security option ≡ ok (writer_of ch))
          × ((fills : List Bytes)
              → new_reader suite key iv security option fills
                ≡ ok (reader_of ch (record { buf = []; fills = fills })))
      unfolding new_writer new_reader len_cipher
      start_plain =
          let m = has option opt_chunk_masking in
          let p = has option opt_global_padding in
          let (aead, e) = make_body_aead_supported key security sec in
          (
            plain aead p (mask_of m) (new_nonce iv),
            can_pad m p (rw ea at can),
            rw (e, ea, and-true),
            λ fills. rw (e, ea, and-true, and-true),
          )

    start_authlen :
        has option opt_auth_length ≡ true
        → (ch : Channel) × CanSeal ch
          × (new_writer suite key iv security option ≡ ok (writer_of ch))
          × ((fills : List Bytes)
              → new_reader suite key iv security option fills
                ≡ ok (reader_of ch (record { buf = []; fills = fills })))
    unfolding new_writer new_reader len_cipher
    start_authlen ea =
        let (aead, e) = make_body_aead_supported key security sec in
        let (a, e') =
          make_body_aead_supported (kdf16 suite.sha256 key (encode "auth_len" ∷ [])) security sec in
        (
          authlen aead a (new_nonce iv) (mask_of (has option opt_chunk_masking)) none
              (new_nonce iv),
          tt,
          rw (e, ea, e', and-false),
          λ fills. rw (e, ea, e', and-false, and-false),
        )

    -- A channel that both sides start at.
    pub start :
        can_send option ≡ true
        → (ch : Channel) × CanSeal ch
          × (new_writer suite key iv security option ≡ ok (writer_of ch))
          × ((fills : List Bytes)
              → new_reader suite key iv security option fills
                ≡ ok (reader_of ch (record { buf = []; fills = fills })))
    start can = elim (Bool-cases (has option opt_auth_length)) [
      | inl ea ↦ start_authlen ea
      | inr ea ↦ start_plain ea can
    ]
