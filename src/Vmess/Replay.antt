-- ===== src/Vmess/Replay.antt =====
-- `ReplayFilter` of protocol/vmess/vmess.py, over any items with an equality. The set `_seen` is a
-- list of its members.
pub mod Window
mod Tests
use mathlib.Core.List.{reverse, append_assoc, reverse-append}
use rvg_sever.Prelude.{
  ℕ, zero, suc, ◌+◌, ◌<◌, ◌≤◌, ◌≡◌, refl, sym, ap, ◌∙◌, arith, List, [], ◌∷◌, ◌++◌, length, take,
  Bool, true, false, ltb, ite, if◌then◌else◌, Key, Bool-cases, inl, inr, length-append, length-take,
  le→ltb, lt→ltb,
}

module _ {ℓ} {A : Type ℓ} ⦃e : Key A⦄ where
  -- x in xs
  unfoldable pub contains : List A → A → Bool
  contains [] x = false
  contains (y ∷ xs) x = ite (e.dec y x) true (contains xs x)

  -- xs.discard(x)
  unfoldable pub discard : A → List A → List A
  discard x [] = []
  discard x (y ∷ xs) = let rest = discard x xs in ite (e.dec y x) rest (y ∷ rest)

pub record ReplayFilter {ℓ} (A : Type ℓ) : Type ℓ where
  pub size : ℕ
  pub seen : List A
  pub order : List A

module _ {ℓ} {A : Type ℓ} ⦃e : Key A⦄ where
  -- self._seen.discard(self._order.pop(0)), if there are more than `size`
  unfoldable pub trim : ReplayFilter A → List A → ReplayFilter A
  trim f [] = f
  trim f (oldest ∷ order) =
      if ltb f.size (length (oldest ∷ order))
      then record f { seen = discard oldest f.seen; order = order }
      else f

  -- False means a replay.
  unfoldable pub check_and_add : A → ReplayFilter A → Bool × ReplayFilter A
  check_and_add item f =
      if contains f.seen item
      then (false, f)
      else (let f' = record f { seen = f.seen ++ item ∷ []; order = f.order ++ item ∷ [] } in
          (true, trim f' f'.order))

  -- The answers to a sequence of items.
  unfoldable pub run : ReplayFilter A → List A → List Bool
  run f [] = []
  run f (x ∷ xs) = let (fresh, f') = check_and_add x f in fresh ∷ run f' xs

  -- The ideal: an item is fresh if it is none of the last `size` fresh items, listed from the
  -- newest.
  unfoldable pub ideal : ℕ → List A → List A → List Bool
  ideal size h [] = []
  ideal size h (x ∷ xs) =
      let old = contains (take size h) x in
      (if old then false else true) ∷ ideal size (if old then h else x ∷ h) xs
