-- ===== src/Vmess/Kdf.antt =====
-- The key derivation of protocol/vmess/vmess.py: `_GoSHA256`, `_GoHMAC`, `kdf` and `kdf16`. An
-- HMAC of the chain above the first level has one object for its inner and its outer hash, which
-- is why its steps disturb one another; `closed_form_kdf1` writes out what one salt comes to.
pub mod Chain
use rvg_sever.Prelude.{
  ℕ, zero, suc, ◌+◌, ◌-◌, ◌<◌, ◌≤◌, ◌≡◌, refl, ap, arith, List, [], ◌∷◌, ◌++◌, map, length, take,
  drop, Option, none, some, ltb, le→ltb, if◌then◌else◌,
}
use Prim.Native.Char.{code}
use Prim.Native.String.{String}
use Prim.Native.String
use rvg_sever.Wire.{Bytes, xor}

-- v.encode() of ASCII text
abbrev pub encode : String → Bytes
encode String.[] = []
encode (String.◌∷◌ c s) = code c ∷ encode s

abbrev pub kdf_salt_vmess_aead_kdf : Bytes
kdf_salt_vmess_aead_kdf = encode "VMess AEAD KDF"

-- k.ljust(64, b"\x00")
abbrev ljust_from : ℕ → Bytes → Bytes
ljust_from zero k = k
ljust_from (suc n) [] = 0 ∷ ljust_from n []
ljust_from (suc n) (b ∷ k) = b ∷ ljust_from n k

abbrev pub block_size : ℕ
block_size = 64

-- bytes(b ^ mask for b in k.ljust(64, b"\x00"))
unfoldable pub pad : ℕ → Bytes → Bytes
unfolding xor
pad mask k = map (λ b. xor 8 b mask) (ljust_from block_size k)

-- The first HMAC, over two SHA-256 objects that hold what was written to them, with the states
-- that `reset` saved.
pub record Base : Type 0 where
  pub outer : Bytes
  pub inner : Bytes
  pub ipad : Bytes
  pub opad : Bytes
  pub marshaled : Option (Bytes × Bytes)

-- The pads of an HMAC above the first. Both of its hashes are the HMAC below it, so the chain has
-- no other state than the base; `marshal` is missing there, so it never saves states.
pub record Link : Type 0 where
  pub ipad : Bytes
  pub opad : Bytes

-- `write` goes down the inner hashes to the SHA-256 object.
unfoldable pub write : Base → Bytes → Base
write b p = record b { inner = b.inner ++ p }

reset_base : Option (Bytes × Bytes) → Base → Base
reset_base (some (ipad_state, opad_state)) b = record b { inner = ipad_state }
reset_base none b = record b { inner = b.ipad; outer = b.opad; marshaled = some (b.ipad, b.opad) }

-- The links are listed from the last HMAC down to the one above the base.
unfoldable pub reset : List Link → Base → Base
unfolding write reset_base
reset [] b = reset_base b.marshaled b
reset (l ∷ links) b = write (reset links b) l.ipad

module _ (sha256 : Bytes → Bytes) where
  outer_of : Option (Bytes × Bytes) → Base → Bytes
  outer_of (some (ipad_state, opad_state)) b = opad_state ++ sha256 b.inner
  outer_of none b = b.opad ++ sha256 b.inner

  sum_base : Base → Bytes × Base
  unfolding outer_of
  sum_base b = let outer = outer_of b.marshaled b in (sha256 outer, record b { outer = outer })

  -- h.sum(): the digest, and the state that it leaves
  unfoldable pub sum : List Link → Base → Bytes × Base
  unfolding reset sum_base
  sum [] b = sum_base b
  sum (l ∷ links) b =
      let (t, b') = sum links b in sum links (write (write (reset links b') l.opad) t)

  -- _GoHMAC(_GoSHA256, key)
  unfoldable pub new_base : Bytes → Base
  unfolding pad
  new_base key =
      let long = ltb block_size (length key) in
      let k = if long then sha256 key else key in
      record {
        outer = if long then key else [];
        inner = pad 0x36 k;
        ipad = pad 0x36 k;
        opad = pad 0x5c k;
        marshaled = none;
      }

  -- _GoHMAC(lambda: prev, salt)
  unfoldable pub new_link : Bytes → List Link × Base → List Link × Base
  unfolding sum pad
  new_link salt (links, b) =
      let hashed = sum links (write b salt) in
      let (k, b') = if ltb block_size (length salt) then hashed else (salt, b) in
      let l : Link = record { ipad = pad 0x36 k; opad = pad 0x5c k } in (l ∷ links, write b' l.ipad)

  -- the loop over the salts
  unfoldable pub chain : List Bytes → List Link × Base → List Link × Base
  chain [] h = h
  chain (salt ∷ salts) h = chain salts (new_link salt h)

  unfoldable pub kdf : Bytes → List Bytes → Bytes
  kdf key salts =
      let (links, b) = chain salts ([], new_base kdf_salt_vmess_aead_kdf) in
      (sum links (write b key)).0

  unfoldable pub kdf16 : Bytes → List Bytes → Bytes
  kdf16 key salts = take 16 (kdf key salts)

  unfoldable pub closed_form_kdf1 : Bytes → Bytes → Bytes
  unfolding pad
  closed_form_kdf1 key salt =
      let ipad_k = pad 0x36 kdf_salt_vmess_aead_kdf in
      let opad_k = pad 0x5c kdf_salt_vmess_aead_kdf in
      let s = sha256 (ipad_k ++ (pad 0x36 salt ++ key)) in
      let d_b = sha256 (opad_k ++ s) in sha256 (opad_k ++ sha256 (ipad_k ++ (pad 0x5c salt ++ d_b)))
