-- ===== src/Links/Hashes.antt =====
-- `_TrojanHashCache` and `_resolve_and_authorize` of protocol/trojan/trojan.py: which user the hash in a
-- Trojan header stands for. SHA-224 in hexadecimal is a parameter.
pub mod Lookup
use rvg_sever.Prelude.{
  ℕ, zero, suc, ◌+◌, ◌≡◌, List, [], ◌∷◌, length, map, Bool, true, false, ◌==◌, if◌then◌else◌,
  Option, none, some, Key, Dict, get, put, Result, ok, err, ◌>>=◌,
}
use rvg_sever.Wire.{Bytes}
use rvg_sever.Wire.Text.{Text}
use rvg_sever.Header.Trojan.{TrojanHeader, parse_trojan_header}
use rvg_sever.Links.{Link, is_link_allowed}

-- `snapshot_len` is none for -1.
pub record HashCache : Type 0 where
  pub cache : Dict Text Text
  pub snapshot_len : Option ℕ

abbrev pub new_cache : HashCache
new_cache = record { cache = []; snapshot_len = none }

abbrev pub is_snapshot : Option ℕ → ℕ → Bool
is_snapshot none n = false
is_snapshot (some m) n = m == n

-- The uuid, the address, the port, the payload and the length of the chunk.
pub record Authorized : Type 0 where
  pub uuid : Text
  pub address : Text
  pub port : ℕ
  pub payload : Bytes
  pub consumed : ℕ

module _ (trojan_hash : Text → Text) ⦃by_text : Key Text⦄ where
  -- The comprehension of `_rebuild`: a later uuid with the same hash replaces an earlier one.
  unfoldable pub hashes_from : Dict Text Text → Dict Text Link → Dict Text Text
  hashes_from found [] = found
  hashes_from found ((uid, _) ∷ links) = hashes_from (put (trojan_hash uid) uid found) links

  unfoldable pub rebuild : Dict Text Link → HashCache
  unfolding hashes_from
  rebuild links = record { cache = hashes_from [] links; snapshot_len = some (length links) }

  -- The cache is rebuilt where the number of links has changed.
  unfoldable pub find_uuid : Dict Text Link → Text → HashCache → Option Text × HashCache
  find_uuid links pw_hash c =
      let current = if is_snapshot c.snapshot_len (length links) then c else rebuild links in
      (get pw_hash current.cache, current)

  unfoldable pub link_of : Dict Text Link → Option Text → Option Link
  link_of links none = none
  link_of links (some uuid) = get uuid links

  unfoldable pub authorized :
      ℕ → Dict Text Link → TrojanHeader → ℕ → Option Text → Option Authorized
  unfolding link_of
  authorized now links h consumed none = none
  authorized now links h consumed (some uuid) =
      if is_link_allowed now (get uuid links)
      then some (record {
        uuid = uuid;
        address = h.address;
        port = h.port;
        payload = h.payload;
        consumed = consumed;
      })
      else none

  -- `_resolve_and_authorize`
  unfoldable pub resolve_and_authorize :
      ℕ → Dict Text Link → Bytes → HashCache → Result (Option Authorized × HashCache)
  resolve_and_authorize now links first_chunk c = do
    h ← parse_trojan_header first_chunk
    let (found, c') = find_uuid links h.pw_hash c
    ok (authorized now links h (length first_chunk) found, c')
