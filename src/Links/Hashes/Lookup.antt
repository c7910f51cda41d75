-- ===== src/Links/Hashes/Lookup.antt =====
-- What the cache of hashes answers: the right user while it is fresh, and the old ones where a link was
-- replaced by another.
use rvg_sever.Prelude.{
  ◌≡◌, refl, sym, ap, ◌∙◌, [], ◌∷◌, length, ==_refl, Option, none, some, Key, Dict, get, put,
  get-put, All, if_pos, if_neg,
}
use rvg_sever.Wire.Text.{Text}
use rvg_sever.Links.{Link}
use rvg_sever.Links.Hashes.{new_cache, hashes_from, rebuild, find_uuid}

-- The uuid, where there is a link of it.
abbrev pub known : Option Link → Text → Option Text → Option Text
known none uid other = other
known (some _) uid other = some uid

known-same : (l : Option Link) (uid : Text) → known l uid (some uid) ≡ some uid
known-same none uid = refl
known-same (some _) uid = refl

module _ (trojan_hash : Text → Text) ⦃by_text : Key Text⦄ where
  -- No other link has the hash of `uid`.
  abbrev pub IsAlone : Text → Text × Link → Type 0
  IsAlone uid entry = trojan_hash entry.0 ≡ trojan_hash uid → entry.0 ≡ uid

  hashes_from-known :
      (found : Dict Text Text) (links : Dict Text Link) (uid : Text)
      → All (IsAlone uid) links
      → get (trojan_hash uid) (hashes_from trojan_hash found links)
        ≡ known (get uid links) uid (get (trojan_hash uid) found)
  unfolding hashes_from get
  hashes_from-known found [] uid alone = refl
  hashes_from-known found ((u, l) ∷ links) uid alone =
      let h = trojan_hash uid in
      let rest = hashes_from-known (put (trojan_hash u) u found) links uid alone.1 in
      let looked = get-put (trojan_hash u) h u found in
      elim (by_text.dec u uid) [
        | yes same ↦
            rest
            ∙ ap (known (get uid links) uid) (
                looked
                ∙ if_pos (by_text.dec (trojan_hash u) h) (ap trojan_hash same) (some u)
                    (get h found)
                ∙ ap some same)
            ∙ known-same (get uid links) uid
            ∙ sym (
                ap (λ l. known l uid (get h found))
                  (if_pos (by_text.dec u uid) same (some l) (get uid links)))
        | no differ ↦
            rest
            ∙ ap (known (get uid links) uid) (
                looked
                ∙ if_neg (by_text.dec (trojan_hash u) h) (λ e. differ (alone.0 e)) (some u)
                    (get h found))
            ∙ sym (
                ap (λ l. known l uid (get h found))
                  (if_neg (by_text.dec u uid) differ (some l) (get uid links)))
      ]

  -- A fresh cache names the user of a hash exactly if there is a link of it, where no other link has the
  -- same hash.
  pub find_uuid-fresh :
      (links : Dict Text Link) (uid : Text)
      → All (IsAlone uid) links
      → (find_uuid trojan_hash links (trojan_hash uid) new_cache).0 ≡ known (get uid links) uid none
  unfolding find_uuid rebuild
  find_uuid-fresh links uid alone = hashes_from-known [] links uid alone ∙ unfold get in refl

  -- A cache that was built for as many links as there are now is not built again: it answers from the
  -- links of then, so that a user who is only in the links of now is not found.
  pub find_uuid-stale :
      (before now : Dict Text Link) (uid : Text)
      → All (IsAlone uid) before
      → get uid before ≡ none
      → length now ≡ length before
      → (find_uuid trojan_hash now (trojan_hash uid) (rebuild trojan_hash before)).0 ≡ none
  unfolding find_uuid rebuild
  find_uuid-stale before now uid alone missing same =
      rw (same, ==_refl (length before), hashes_from-known [] before uid alone, missing)
        (unfold get in refl)
