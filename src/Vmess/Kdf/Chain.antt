-- ===== src/Vmess/Kdf/Chain.antt =====
-- The stateful chain of HMACs computes a pure recursion over the salts.
use mathlib.Core.List.{append_assoc, append-nil}
use rvg_sever.Prelude.{
  ◌≤◌, ◌≡◌, refl, sym, ap, ◌∙◌, arith, List, [], ◌∷◌, ◌++◌, length, Option, none, some, ◌⊎◌, inl,
  inr, All, le→ltb,
}
use rvg_sever.Wire.{Bytes}
use rvg_sever.Vmess.Kdf.{
  Base, Link, block_size, pad, write, reset_base, reset, outer_of, sum, new_base, new_link, chain,
  kdf, kdf_salt_vmess_aead_kdf, closed_form_kdf1,
}

-- The pads of a state, and what it saved, belong to one key.
record IsKeyed (ip op : Bytes) (b : Base) : Type 0 where
  ipad_eq : b.ipad ≡ ip
  opad_eq : b.opad ≡ op
  saved : (b.marshaled ≡ none) ⊎ (b.marshaled ≡ some (ip, op))

-- What a reset leaves in the base: each link writes its inner pad again.
abbrev pub resets : List Link → Bytes
resets [] = []
resets (l ∷ links) = resets links ++ l.ipad

module _ (sha256 : Bytes → Bytes) (ip op : Bytes) where
  -- The digest of a chain into which `x` was written.
  abbrev pub digest : List Link → Bytes → Bytes
  digest [] x = sha256 (op ++ sha256 (ip ++ x))
  digest (l ∷ links) x = digest links ((resets links ++ l.opad) ++ digest links x)

  write-IsKeyed : (b : Base) (p : Bytes) → IsKeyed ip op b → IsKeyed ip op (write b p)
  unfolding write
  write-IsKeyed b p k = record { ipad_eq = k.ipad_eq; opad_eq = k.opad_eq; saved = k.saved }

  reset_base-IsKeyed :
      (o : Option (Bytes × Bytes)) (b : Base)
      → b.ipad ≡ ip
      → b.opad ≡ op
      → b.marshaled ≡ o
      → (o ≡ none) ⊎ (o ≡ some (ip, op))
      → IsKeyed ip op (reset_base o b) × ((reset_base o b).inner ≡ ip)
  unfolding reset_base
  reset_base-IsKeyed none b i o m s = (record { ipad_eq = i; opad_eq = o; saved = inr (cc) }, i)
  reset_base-IsKeyed (some (i', o')) b i o m (inl e) = cc
  reset_base-IsKeyed (some (i', o')) b i o m (inr e) =
      (record { ipad_eq = i; opad_eq = o; saved = inr (m ∙ e) }, ground arith)

  outer_of-keyed :
      (o : Option (Bytes × Bytes)) (b : Base)
      → b.opad ≡ op
      → (o ≡ none) ⊎ (o ≡ some (ip, op))
      → outer_of sha256 o b ≡ op ++ sha256 b.inner
  unfolding outer_of
  outer_of-keyed none b e s = rw e
  outer_of-keyed (some (i', o')) b e (inl s) = cc
  outer_of-keyed (some (i', o')) b e (inr s) =
      ap (λ (t : Bytes). t ++ sha256 b.inner) (let h : o' ≡ op = ground arith in h)

  reset-IsKeyed :
      (links : List Link) (b : Base)
      → IsKeyed ip op b
      → IsKeyed ip op (reset links b) × ((reset links b).inner ≡ ip ++ resets links)
  unfolding reset write
  reset-IsKeyed [] b k =
      rw append-nil (reset_base-IsKeyed b.marshaled b k.ipad_eq k.opad_eq refl k.saved)
  reset-IsKeyed (l ∷ links) b k =
      let (kept, content) = reset-IsKeyed links b k in
      (
        write-IsKeyed (reset links b) l.ipad kept,
        rw content (append_assoc ip (resets links) l.ipad),
      )

  sum-digest :
      (links : List Link) (b : Base) (x : Bytes)
      → IsKeyed ip op b
      → b.inner ≡ ip ++ x
      → ((sum sha256 links b).0 ≡ digest links x) × IsKeyed ip op (sum sha256 links b).1
  unfolding sum write
  sum-digest [] b x k e = (
    ap sha256
        (outer_of-keyed b.marshaled b k.opad_eq k.saved ∙ ap (λ (t : Bytes). op ++ sha256 t) e),
    record { ipad_eq = k.ipad_eq; opad_eq = k.opad_eq; saved = k.saved },
  )
  sum-digest (l ∷ links) b x k e =
      let (d, k') = sum-digest links b x k e in
      let b' = (sum sha256 links b).1 in
      let (k'', content) = reset-IsKeyed links b' k' in
      let b'' = reset links b' in
      let at : (b''.inner ++ l.opad) ++ (sum sha256 links b).0
          ≡ ip ++ ((resets links ++ l.opad) ++ digest links x) =
        rw (d, content, append_assoc, append_assoc, append_assoc) in
      sum-digest links (write (write b'' l.opad) (sum sha256 links b).0)
        ((resets links ++ l.opad) ++ digest links x)
        (write-IsKeyed (write b'' l.opad) (sum sha256 links b).0 (write-IsKeyed b'' l.opad k'')) at

-- The links that a list of salts adds, and the inner pads that building them writes.
abbrev pub link_of : Bytes → Link
link_of salt = record { ipad = pad 0x36 salt; opad = pad 0x5c salt }

abbrev pub stack : List Bytes → List Link → List Link
stack [] links = links
stack (salt ∷ salts) links = stack salts (link_of salt ∷ links)

abbrev pub written : List Bytes → Bytes
written [] = []
written (salt ∷ salts) = pad 0x36 salt ++ written salts

new_link_lem :
    (sha256 : Bytes → Bytes) (salt : Bytes) (links : List Link) (b : Base)
    → length salt ≤ block_size
    → new_link sha256 salt (links, b) ≡ (link_of salt ∷ links, write b (pad 0x36 salt))
unfolding new_link
new_link_lem sha256 salt links b h = rw (le→ltb block_size (length salt) h)

chain-cons :
    (sha256 : Bytes → Bytes) (salt : Bytes) (salts : List Bytes) (links : List Link) (b : Base)
    → length salt ≤ block_size
    → chain sha256 (salt ∷ salts) (links, b)
      ≡ chain sha256 salts (link_of salt ∷ links, write b (pad 0x36 salt))
unfolding chain
chain-cons sha256 salt salts links b h =
    ap (chain sha256 salts) (new_link_lem sha256 salt links b h)

module _ (sha256 : Bytes → Bytes) (ip op : Bytes) where
  chain-IsKeyed :
      (salts : List Bytes) (links : List Link) (b : Base) (x : Bytes)
      → All (λ salt. length salt ≤ block_size) salts
      → IsKeyed ip op b
      → b.inner ≡ ip ++ x
      → ((chain sha256 salts (links, b)).0 ≡ stack salts links)
        × IsKeyed ip op (chain sha256 salts (links, b)).1
        × ((chain sha256 salts (links, b)).1.inner ≡ ip ++ (x ++ written salts))
  chain-IsKeyed [] links b x h k e = unfold chain in (refl, k, rw append-nil e)
  chain-IsKeyed (salt ∷ salts) links b x h k e =
      rw (chain-cons sha256 salt salts links b h.0, ← append_assoc x)
        (chain-IsKeyed salts (link_of salt ∷ links) (write b (pad 0x36 salt)) (x ++ pad 0x36 salt)
          h.1 (write-IsKeyed sha256 ip op b (pad 0x36 salt) k)
          (unfold write in rw e (append_assoc ip x (pad 0x36 salt))))

abbrev ip_k : Bytes
ip_k = pad 0x36 kdf_salt_vmess_aead_kdf

abbrev op_k : Bytes
op_k = pad 0x5c kdf_salt_vmess_aead_kdf

new_base-IsKeyed :
    (sha256 : Bytes → Bytes)
    → IsKeyed ip_k op_k (new_base sha256 kdf_salt_vmess_aead_kdf)
      × ((new_base sha256 kdf_salt_vmess_aead_kdf).inner ≡ ip_k ++ [])
unfolding new_base
new_base-IsKeyed sha256 =
    (record { ipad_eq = refl; opad_eq = refl; saved = inl refl }, sym (append-nil ip_k))

-- For any salts of at most 64 bytes, the objects with their shared hashes compute the nested
-- digest of the inner pads and the key.
pub kdf-digest :
    (sha256 : Bytes → Bytes) (key : Bytes) (salts : List Bytes)
    → All (λ salt. length salt ≤ block_size) salts
    → kdf sha256 key salts
      ≡ digest sha256
          (pad 0x36 kdf_salt_vmess_aead_kdf)
          (pad 0x5c kdf_salt_vmess_aead_kdf)
          (stack salts [])
          (written salts ++ key)
unfolding kdf
kdf-digest sha256 key salts h =
    let (k, e) = new_base-IsKeyed sha256 in
    let start = new_base sha256 kdf_salt_vmess_aead_kdf in
    let (links, k', content) = chain-IsKeyed sha256 ip_k op_k salts [] start [] h k e in
    let b = (chain sha256 salts ([], start)).1 in
    rw (links, kdf)
      (sum-digest sha256 ip_k op_k (stack salts []) (write b key) (written salts ++ key)
        (write-IsKeyed sha256 ip_k op_k b key k')
        (unfold write in rw content (append_assoc ip_k (written salts) key))).0

-- With one salt of at most 64 bytes, `kdf` is its closed form.
pub kdf-closed_form_kdf1 :
    (sha256 : Bytes → Bytes) (key salt : Bytes)
    → length salt ≤ block_size
    → kdf sha256 key (salt ∷ []) ≡ closed_form_kdf1 sha256 key salt
unfolding closed_form_kdf1
kdf-closed_form_kdf1 sha256 key salt h = rw (kdf-digest sha256 key (salt ∷ []) (h, tt), append-nil)
