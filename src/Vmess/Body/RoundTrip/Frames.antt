-- ===== src/Vmess/Body/RoundTrip/Frames.antt =====
-- The parts of a chunk: the padding length, the masked size, and the sealed payload.
use rvg_sever.Prelude.{
  ℕ, ◌+◌, ◌-◌, ◌<◌, ◌≤◌, ◌≡◌, refl, sym, ap, ◌∙◌, arith, ◌++◌, length, take, Bool, true, false,
  Option, none, some, ok, length-append, take-append, take-take, le→leb, ne→==,
}
use rvg_sever.Wire.{Bytes}
use rvg_sever.Wire.Numbers.{xor-lt, xor-xor}
use rvg_sever.Crypto.{Suite}
use rvg_sever.Vmess.{tag_size, max_chunk}
use rvg_sever.Vmess.Source.{need, discard, stream, IsLive, need-stream}
use rvg_sever.Vmess.Body.{
  BodyReader, ShakeStream, next, next16, next_padding_len, masked_size, writer_padding,
  reader_padding, read_payload, read_sized,
}

-- Padding without a mask is what the writer cannot do.
abbrev pub CanPad : Bool → Option ShakeStream → Type 0
CanPad true none = ⊥
CanPad true (some s) = Unit
CanPad false shake = Unit

module _ (suite : Suite) where
  pub writer_padding-reader_padding :
      (padding : Bool) (shake : Option ShakeStream)
      → CanPad padding shake
      → writer_padding suite padding shake ≡ ok (reader_padding suite padding shake)
  unfolding writer_padding reader_padding
  writer_padding-reader_padding false shake c = refl
  writer_padding-reader_padding true none c = absurd c
  writer_padding-reader_padding true (some s) c = refl

  pub reader_padding-lt :
      (padding : Bool) (shake : Option ShakeStream) → (reader_padding suite padding shake).0 < 64
  unfolding reader_padding next_padding_len
  reader_padding-lt false shake = omega arith
  reader_padding-lt true none = omega arith
  reader_padding-lt true (some s) = omega arith

  -- Consuming padding keeps the stream that the mask needs.
  pub CanPad-reader_padding :
      (padding : Bool) (shake : Option ShakeStream)
      → CanPad padding shake
      → CanPad padding (reader_padding suite padding shake).1
  unfolding reader_padding
  CanPad-reader_padding false shake c = tt
  CanPad-reader_padding true none c = absurd c
  CanPad-reader_padding true (some s) c = tt

  pub CanPad-masked_size :
      (n : ℕ) (padding : Bool) (shake : Option ShakeStream)
      → CanPad padding shake
      → CanPad padding (masked_size suite n shake).1
  unfolding masked_size
  CanPad-masked_size n false shake c = tt
  CanPad-masked_size n true none c = absurd c
  CanPad-masked_size n true (some s) c = tt

  pub masked_size-lt :
      (n : ℕ) (shake : Option ShakeStream) → n < 65536 → (masked_size suite n shake).0 < 65536
  unfolding masked_size
  masked_size-lt n none h = h
  masked_size-lt n (some s) h = xor-lt 16 n (next16 suite s).0

  -- Masking twice with one stream gives the size back, and moves the stream alike.
  pub masked_size-masked_size :
      (n : ℕ) (shake : Option ShakeStream)
      → n < 65536
      → masked_size suite (masked_size suite n shake).0 shake ≡ (n, (masked_size suite n shake).1)
  unfolding masked_size
  masked_size-masked_size n none h = refl
  masked_size-masked_size n (some s) h =
      ap (λ m. (m, some (next16 suite s).1)) (xor-xor 16 n (next16 suite s).0 h)

  module _ (r : BodyReader) (payload pad rest : Bytes) (k : ℕ) where
    abbrev sealed : Bytes
    sealed = r.aead.encrypt (next r.payload_nonce).0 payload

    abbrev size : ℕ
    size = length payload + tag_size + k

    -- The reader behind the chunk.
    abbrev pub after_payload : BodyReader
    after_payload = record r {
      payload_nonce = (next r.payload_nonce).1;
      source = discard size (need size r.source).1;
    }

    module _ (live : IsLive r.source) (pad_length : length pad ≡ k)
        (at : stream r.source ≡ (sealed ++ pad) ++ rest) where
      sealed_size : length (sealed ++ pad) ≡ size
      sealed_size =
          omega (
            arith,
            length-append sealed pad,
            r.aead.length-encrypt (next r.payload_nonce).0 payload,
          )

      pub read_payload-sealed :
          (read_payload suite r size k ≡ ok (payload, after_payload))
          × (stream after_payload.source ≡ rest)
          × IsLive after_payload.source
      unfolding read_payload
      read_payload-sealed =
          let (ready, taken, left, live') =
            need-stream size r.source (sealed ++ pad) rest live at sealed_size in
          let minus : size - k ≡ length payload + tag_size = omega arith in
          let body : take (size - k) (need size r.source).1.buf ≡ sealed =
            ap (λ m. take m (need size r.source).1.buf) minus
            ∙ (sym (
                  take-take (length payload + tag_size) size (need size r.source).1.buf
                    (omega arith))
                ∙ (ap (take (length payload + tag_size)) taken
                    ∙ take-append (length payload + tag_size) sealed pad
                        (r.aead.length-encrypt (next r.payload_nonce).0 payload))) in
          (rw (ready, body, r.aead.decrypt-encrypt (next r.payload_nonce).0 payload), left, live')

      -- A chunk with a payload, within the limit.
      pub read_sized-sealed :
          (slack : ℕ)
          → 0 < length payload
          → length payload + k ≤ max_chunk + slack
          → (read_sized suite r size k slack ≡ ok (payload, after_payload))
      unfolding read_sized
      read_sized-sealed slack some_bytes fits =
          rw
            (
              ne→== size (tag_size + k) (omega arith),
              le→leb (tag_size + k) size (omega arith),
              le→leb size (max_chunk + tag_size + slack) (omega arith),
            )
            read_payload-sealed.0
