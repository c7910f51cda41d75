-- ===== src/Vmess/Body/RoundTrip/Channels.antt =====
-- A writer and the reader that is in step with it, and what one chunk does to both.
use mathlib.Core.List.{append_assoc}
use rvg_sever.Prelude.{
  ℕ, ◌+◌, ◌<◌, ◌≤◌, ◌≡◌, refl, ◌∙◌, arith, [], ◌++◌, length, Bool, true, false, Option, none, some,
  ok, ==_refl,
}
use rvg_sever.Wire.{Bytes, be16}
use rvg_sever.Wire.Numbers.{pack_u16-be16, unpack_u16-be16, from_be-be16, length-be16}
use rvg_sever.Crypto.{Aead, Suite}
use rvg_sever.Vmess.{tag_size, max_chunk}
use rvg_sever.Vmess.Source.{Source, need, discard, stream, IsLive, need-stream}
use rvg_sever.Vmess.Body.{
  BodyReader, BodyWriter, ChunkNonce, ShakeStream, next, masked_size, reader_padding, size_field,
  seal, read_sized, read_plain, read_authlen, read,
}
use rvg_sever.Vmess.Body.RoundTrip.Frames.{
  CanPad, writer_padding-reader_padding, reader_padding-lt, CanPad-reader_padding,
  CanPad-masked_size, masked_size-lt, masked_size-masked_size, after_payload, read_payload-sealed,
  read_sized-sealed,
}

-- The shared state: of a plain length, masked and padded or not, or of an authenticated length.
-- There the two sides may hold mask streams that neither uses.
pub data Channel : Type 0 where
  plain : Aead → Bool → Option ShakeStream → ChunkNonce → Channel
  authlen :
      Aead → Aead → ChunkNonce → Option ShakeStream → Option ShakeStream → ChunkNonce → Channel

abbrev pub writer_of : Channel → BodyWriter
writer_of (plain aead padding shake nonce) = record {
  aead = aead;
  len = none;
  padding = padding;
  shake = shake;
  payload_nonce = nonce;
}
writer_of (authlen aead a n shake _ nonce) = record {
  aead = aead;
  len = some (a, n);
  padding = false;
  shake = shake;
  payload_nonce = nonce;
}

abbrev pub reader_of : Channel → Source → BodyReader
reader_of (plain aead padding shake nonce) source = record {
  aead = aead;
  len = none;
  padding = padding;
  shake = shake;
  payload_nonce = nonce;
  source = source;
  done = false;
}
reader_of (authlen aead a n _ shake nonce) source = record {
  aead = aead;
  len = some (a, n);
  padding = false;
  shake = shake;
  payload_nonce = nonce;
  source = source;
  done = false;
}

abbrev pub CanSeal : Channel → Type 0
CanSeal (plain aead padding shake nonce) = CanPad padding shake
CanSeal (authlen _ _ _ _ _ _) = Unit

module _ (suite : Suite) (token : ℕ → Bytes) (payload : Bytes) where
  abbrev pad_of : Bool → Option ShakeStream → ℕ × Option ShakeStream
  pad_of padding shake = reader_padding suite padding shake

  -- The masked size of a plain chunk, and the mask stream behind it.
  abbrev masked : Bool → Option ShakeStream → ℕ × Option ShakeStream
  masked padding shake =
      masked_size suite (length payload + tag_size + (pad_of padding shake).0)
        (pad_of padding shake).1

  -- The bytes of a chunk, and the channel behind it.
  abbrev pub chunk_of : Channel → Bytes
  chunk_of (plain aead padding shake nonce) =
      be16 (masked padding shake).0
      ++ (aead.encrypt (next nonce).0 payload ++ token (pad_of padding shake).0)
  chunk_of (authlen aead a n ws rs nonce) =
      a.encrypt (next n).0 (be16 (length payload))
      ++ (aead.encrypt (next nonce).0 payload ++ token 0)

  abbrev pub after : Channel → Channel
  after (plain aead padding shake nonce) =
      plain aead padding (masked padding shake).1 (next nonce).1
  after (authlen aead a n ws rs nonce) = authlen aead a (next n).1 ws rs (next nonce).1

  module _ (fits : length payload ≤ max_chunk) where
    size-lt :
        (padding : Bool) (shake : Option ShakeStream)
        → length payload + tag_size + (pad_of padding shake).0 < 65536
    size-lt padding shake = omega (arith, reader_padding-lt suite padding shake)

    -- Sealing succeeds.
    pub seal-chunk_of :
        (ch : Channel)
        → CanSeal ch
        → seal suite token (writer_of ch) payload ≡ ok (chunk_of ch, writer_of (after ch))
    unfolding seal size_field
    seal-chunk_of (plain aead padding shake nonce) c = rw (
      writer_padding-reader_padding suite padding shake c,
      pack_u16-be16 (masked padding shake).0 (
          masked_size-lt suite (length payload + tag_size + (pad_of padding shake).0)
            (pad_of padding shake).1 (size-lt padding shake)),
    )
    seal-chunk_of (authlen aead a n ws rs nonce) c =
        rw (pack_u16-be16 (length payload) (omega arith))

    pub after-CanSeal : (ch : Channel) → CanSeal ch → CanSeal (after ch)
    after-CanSeal (plain aead padding shake nonce) c =
        CanPad-masked_size suite _ padding (pad_of padding shake).1
          (CanPad-reader_padding suite padding shake c)
    after-CanSeal (authlen _ _ _ _ _ _) c = tt

    module _ (length-token : (n : ℕ) → length (token n) ≡ n) (source : Source) (rest : Bytes)
        (live : IsLive source) where
      -- The reader behind the length field, whose input has lost that field.
      abbrev headed : Channel → BodyReader
      headed (plain aead padding shake nonce) =
          reader_of (plain aead padding (masked padding shake).1 nonce)
            (discard 2 (need 2 source).1)
      headed (authlen aead a n ws rs nonce) =
          reader_of (authlen aead a (next n).1 ws rs nonce)
            (discard (2 + tag_size) (need (2 + tag_size) source).1)

      abbrev padding_of : Channel → ℕ
      padding_of (plain aead padding shake nonce) = (pad_of padding shake).0
      padding_of (authlen _ _ _ _ _ _) = 0

      abbrev slack_of : Channel → ℕ
      slack_of (plain _ _ _ _) = 64
      slack_of (authlen _ _ _ _ _ _) = 0

      abbrev body_of : Channel → Bytes
      body_of ch =
          (reader_of ch source).aead.encrypt (next (reader_of ch source).payload_nonce).0 payload
          ++ token (padding_of ch)

      -- The length field is read as the size of the sealed payload and its padding.
      read-headed :
          (ch : Channel)
          → stream source ≡ chunk_of ch ++ rest
          → (read suite (reader_of ch source)
              ≡ read_sized suite
                  (headed ch)
                  (length payload + tag_size + padding_of ch)
                  (padding_of ch)
                  (slack_of ch))
            × (stream (headed ch).source ≡ body_of ch ++ rest)
            × IsLive (headed ch).source
      unfolding read read_plain read_authlen
      read-headed (plain aead padding shake nonce) at =
          let n = length payload + tag_size + (pad_of padding shake).0 in
          let v = (masked padding shake).0 in
          let body = aead.encrypt (next nonce).0 payload ++ token (pad_of padding shake).0 in
          let (ready, taken, left, live') =
            need-stream 2 source (be16 v) (body ++ rest) live (at ∙ append_assoc (be16 v) body rest)
              (length-be16 v) in
          (
            rw (
              ready,
              taken,
              from_be-be16 v
                  (masked_size-lt suite n (pad_of padding shake).1 (size-lt padding shake)),
              masked_size-masked_size suite n (pad_of padding shake).1 (size-lt padding shake),
            ),
            left,
            live',
          )
      read-headed (authlen aead a n ws rs nonce) at =
          let field = a.encrypt (next n).0 (be16 (length payload)) in
          let body = aead.encrypt (next nonce).0 payload ++ token 0 in
          let (ready, taken, left, live') =
            need-stream (2 + tag_size) source field (body ++ rest) live
              (at ∙ append_assoc field body rest)
              (omega (
                arith,
                a.length-encrypt (next n).0 (be16 (length payload)),
                length-be16 (length payload),
              )) in
          let zero_pad : length payload + tag_size + 0 ≡ length payload + tag_size = omega arith in
          (
            rw (
              zero_pad,
              ready,
              taken,
              a.decrypt-encrypt (next n).0 (be16 (length payload)),
              unpack_u16-be16 (length payload) (omega arith),
            ),
            left,
            live',
          )

      -- A chunk with a payload is read as that payload, and leaves both sides in step.
      pub read-chunk_of :
          (ch : Channel)
          → 0 < length payload
          → stream source ≡ chunk_of ch ++ rest
          → (source' : Source) × (read suite (reader_of ch source)
              ≡ ok (payload, reader_of (after ch) source'))
            × (stream source' ≡ rest)
            × IsLive source'
      read-chunk_of (plain aead padding shake nonce) full at =
          let ch = plain aead padding shake nonce in
          let k = padding_of ch in
          let (header, at', live') = read-headed ch at in
          let (_, left, live'') =
            read_payload-sealed suite (headed ch) payload (token k) rest k live' (length-token k)
              at' in
          let sized =
            read_sized-sealed suite (headed ch) payload (token k) rest k live' (length-token k) at'
              64 full (omega (arith, reader_padding-lt suite padding shake)) in
          (
            (after_payload suite (headed ch) payload (token k) rest k).source,
            header ∙ sized,
            left,
            live'',
          )
      read-chunk_of (authlen aead a n ws rs nonce) full at =
          let ch = authlen aead a n ws rs nonce in
          let (header, at', live') = read-headed ch at in
          let (_, left, live'') =
            read_payload-sealed suite (headed ch) payload (token 0) rest 0 live' (length-token 0)
              at' in
          let sized =
            read_sized-sealed suite (headed ch) payload (token 0) rest 0 live' (length-token 0) at'
              0 full (omega arith) in
          (
            (after_payload suite (headed ch) payload (token 0) rest 0).source,
            header ∙ sized,
            left,
            live'',
          )

      -- The empty chunk is read as the end.
      pub read-eof :
          (ch : Channel)
          → length payload ≡ 0
          → stream source ≡ chunk_of ch ++ rest
          → (r : BodyReader) × (read suite (reader_of ch source) ≡ ok ([], r)) × (r.done ≡ true)
      unfolding read_sized
      read-eof ch none_left at =
          let (header, _, _) = read-headed ch at in
          let size : length payload + tag_size + padding_of ch ≡ tag_size + padding_of ch =
            omega arith in
          (
            record (headed ch) { done = true },
            header ∙ (rw (size, ==_refl (tag_size + padding_of ch))),
            refl,
          )
