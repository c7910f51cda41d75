-- ===== src/Vmess/Body/Padding.antt =====
-- The option that `can_send` excludes: padding without a mask to draw its length from.
use rvg_sever.Prelude.{
  ℕ, ◌<◌, ◌≡◌, refl, arith, List, [], ◌∷◌, length, Bool, true, false, ◌||◌, not, none, ok, err, leb,
  Bool-cases, inl, inr, attribute_error,
}
use rvg_sever.Wire.{Bytes}
use rvg_sever.Crypto.{Suite}
use rvg_sever.Vmess.{max_chunk, opt_chunk_masking, opt_global_padding, opt_auth_length}
use rvg_sever.Vmess.Body.{
  BodyReader, BodyWriter, has, new_nonce, pieces, writer_padding, len_cipher, new_reader,
  new_writer, seal, seal_all, write_chunk,
}
use rvg_sever.Vmess.Body.RoundTrip.Start.{IsSupported, can_send, make_body_aead_supported}

can_send-false :
    (p a m : Bool) → (not p || (a || m)) ≡ false → (p ≡ true) × (a ≡ false) × (m ≡ false)
can_send-false true true m e = cc
can_send-false true false true e = cc
can_send-false true false false e = (refl, refl, refl)
can_send-false false a m e = cc

module _ (suite : Suite) (token : ℕ → Bytes) where
  seal-unmasked :
      (w : BodyWriter) (payload : Bytes)
      → w.padding ≡ true
      → w.shake ≡ none
      → seal suite token w payload ≡ err attribute_error
  unfolding seal writer_padding
  seal-unmasked w payload pads unmasked = rw (pads, unmasked)

  write_chunk-unmasked :
      (w : BodyWriter) (payload : Bytes)
      → w.padding ≡ true
      → w.shake ≡ none
      → 0 < length payload
      → write_chunk suite token w payload ≡ err attribute_error
  unfolding write_chunk pieces seal_all
  write_chunk-unmasked w [] pads unmasked full = absurd (omega (arith, full))
  write_chunk-unmasked w (b ∷ payload) pads unmasked full =
      elim (Bool-cases (leb (length (b ∷ payload)) max_chunk)) [
        | inl short ↦ rw (short) (seal-unmasked w (b ∷ payload) pads unmasked)
        | inr long ↦ rw (long, seal-unmasked w _ pads unmasked)
      ]

  -- With padding but without a mask, both ends of a body can be made, and the writer raises
  -- `AttributeError` at every payload.
  pub write_chunk-cannot_send :
      (key iv : Bytes) (security option : ℕ) (fills : List Bytes) (payload : Bytes)
      → IsSupported security
      → can_send option ≡ false
      → 0 < length payload
      → (r : BodyReader) × (w : BodyWriter) × (new_reader suite key iv security option fills ≡ ok r)
        × (new_writer suite key iv security option ≡ ok w)
        × (write_chunk suite token w payload ≡ err attribute_error)
  unfolding new_writer new_reader len_cipher
  write_chunk-cannot_send key iv security option fills payload sec cannot full =
      let (pads, plain, unmasked) =
        can_send-false (has option opt_global_padding) (has option opt_auth_length)
          (has option opt_chunk_masking) cannot in
      let (aead, e) = make_body_aead_supported suite key security sec in
      let w : BodyWriter = record {
        aead = aead;
        len = none;
        padding = true;
        shake = none;
        payload_nonce = new_nonce iv;
      } in
      let r : BodyReader = record {
        aead = aead;
        len = none;
        padding = true;
        shake = none;
        payload_nonce = new_nonce iv;
        source = record { buf = []; fills = fills };
        done = false;
      } in
      (
        r,
        w,
        rw (e, plain, unmasked, pads),
        rw (e, plain, unmasked, pads),
        write_chunk-unmasked w payload refl refl full,
      )
