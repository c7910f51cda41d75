-- ===== src/Vmess/Replay/Window.antt =====
-- The filter of replays against an ideal one that remembers everything.
use mathlib.Core.List.{reverse, reverse-cons}
use mathlib.Core.Path.{ap₂}
use rvg_sever.Prelude.{
  ℕ, zero, suc, ◌+◌, ◌<◌, ◌≤◌, ◌≡◌, refl, sym, ap, ◌∙◌, arith, List, [], ◌∷◌, ◌++◌, length, take,
  true, false, ◌||◌, ltb, if◌then◌else◌, Key, if_pos, Bool-cases, inl, inr, length-append,
  length-take, le→ltb, lt→ltb, ltb→lt,
}
use rvg_sever.Vmess.Replay.{contains, discard, ReplayFilter, trim, check_and_add, run, ideal}

abbrev trim_list {ℓ} : {A : Type ℓ} → ℕ → List A → List A
trim_list n [] = []
trim_list n (y ∷ t) = if ltb n (length (y ∷ t)) then t else y ∷ t

module _ {ℓ} {A : Type ℓ} where
  length-reverse : (l : List A) → length (reverse l) ≡ length l
  length-reverse [] = refl
  length-reverse (x ∷ l) =
      ap length (reverse-cons x l)
      ∙ (length-append (reverse l) (x ∷ [])
          ∙ (let e : length (reverse l) + 1 ≡ suc (length l) = omega (arith, length-reverse l) in
              e))

  -- The oldest of a full window comes first in it.
  oldest_first :
      (m : ℕ) (h : List A)
      → suc m ≤ length h
      → (y : A) × (reverse (take (suc m) h) ≡ y ∷ reverse (take m h))
  oldest_first m [] le = absurd (omega arith)
  oldest_first zero (x ∷ h) le = (x, refl)
  oldest_first (suc m) (x ∷ h) le =
      let (y, e) = oldest_first m h (omega arith) in
      (
        y,
        reverse-cons x (take (suc m) h)
            ∙ (ap (λ t. t ++ x ∷ []) e ∙ ap (◌∷◌ y) (sym (reverse-cons x (take m h)))),
      )

  take_all : (n : ℕ) (h : List A) → length h ≤ n → take n h ≡ h
  take_all zero [] le = refl
  take_all zero (x ∷ h) le = absurd (omega arith)
  take_all (suc n) [] le = refl
  take_all (suc n) (x ∷ h) le = ap (◌∷◌ x) (take_all n h (omega arith))

  trim_list_short : (n : ℕ) (l : List A) → length l ≤ n → trim_list n l ≡ l
  trim_list_short n [] le = refl
  trim_list_short n (y ∷ t) le = rw (le→ltb n (length (y ∷ t)) le)

  trim_list_long : (n : ℕ) (y : A) (t : List A) → n < length (y ∷ t) → trim_list n (y ∷ t) ≡ t
  trim_list_long n y t lt = rw (lt→ltb n (length (y ∷ t)) lt)

  -- A new item enters the window, and the oldest leaves a full one.
  window :
      (n : ℕ) (h : List A) (x : A)
      → trim_list n (reverse (take n h) ++ x ∷ []) ≡ reverse (take n (x ∷ h))
  window zero h x = refl
  window (suc m) h x = elim (Bool-cases (ltb m (length h))) [
    | inl full ↦
        let (y, e) = oldest_first m h (ltb→lt m (length h) full) in
        let t = reverse (take m h) in
        let long : suc m < length (y ∷ (t ++ x ∷ [])) = omega (
          arith,
          ltb→lt m (length h) full,
          length-append t (x ∷ []),
          length-reverse (take m h),
          length-take m h,
        ) in
        ap (λ l. trim_list (suc m) (l ++ x ∷ [])) e
        ∙ (trim_list_long (suc m) y (t ++ x ∷ []) long ∙ sym (reverse-cons x (take m h)))
    | inr room ↦
        let short : length h ≤ m = ground arith in
        ap (λ l. trim_list (suc m) (reverse l ++ x ∷ [])) (take_all (suc m) h (omega arith))
        ∙ (trim_list_short (suc m) (reverse h ++ x ∷ [])
              (omega (arith, length-append (reverse h) (x ∷ []), length-reverse h))
            ∙ (ap (λ l. reverse l ++ x ∷ []) (sym (take_all m h short))
                ∙ sym (reverse-cons x (take m h))))
  ]

module _ {A : Type 0} ⦃e : Key A⦄ where
  abbrev pub Distinct : List A → Type 0
  Distinct [] = Unit
  Distinct (x ∷ xs) = (contains xs x ≡ false) × Distinct xs

  contains-append :
      (xs ys : List A) (x : A) → contains (xs ++ ys) x ≡ (contains xs x || contains ys x)
  unfolding contains
  contains-append [] ys x = refl
  contains-append (y ∷ xs) ys x = ground (arith, contains-append xs ys x)

  contains-reverse : (xs : List A) (x : A) → contains (reverse xs) x ≡ contains xs x
  contains-reverse [] x = refl
  contains-reverse (y ∷ xs) x =
      rw (reverse-cons y xs, contains-append (reverse xs) (y ∷ []) x, contains-reverse xs x)
        (unfold contains in ground arith)

  discard_absent : (xs : List A) (x : A) → contains xs x ≡ false → discard x xs ≡ xs
  unfolding contains discard
  discard_absent [] x h = refl
  discard_absent (y ∷ xs) x h = ground (arith, discard_absent xs x)

  discard_head : (xs : List A) (x : A) → contains xs x ≡ false → discard x (x ∷ xs) ≡ xs
  unfolding discard
  discard_head xs x h =
      if_pos (e.dec x x) refl (discard x xs) (x ∷ discard x xs) ∙ discard_absent xs x h

  Distinct-snoc :
      (xs : List A) (x : A) → Distinct xs → contains xs x ≡ false → Distinct (xs ++ x ∷ [])
  unfolding contains
  Distinct-snoc [] x d h = (refl, tt)
  Distinct-snoc (y ∷ xs) x d h =
      (contains-append xs (x ∷ []) y ∙ ground arith, Distinct-snoc xs x d.1 (ground arith))

  -- The filter holds the last `n` items of the history `h`, which is listed from the newest.
  pub record Tracks (n : ℕ) (h : List A) (f : ReplayFilter A) : Type 0 where
    pub limit : f.size ≡ n
    pub window_eq : f.order ≡ reverse (take n h)
    pub seen_eq : f.seen ≡ f.order
    pub distinct : Distinct f.order

  trim-Distinct :
      (f : ReplayFilter A) (o : List A)
      → f.order ≡ o
      → f.seen ≡ o
      → Distinct o
      → ((trim f o).size ≡ f.size)
        × ((trim f o).order ≡ trim_list f.size o)
        × ((trim f o).seen ≡ (trim f o).order)
        × Distinct (trim f o).order
  unfolding trim discard
  trim-Distinct f [] eo es d = (refl, eo, es ∙ sym eo, rw eo tt)
  trim-Distinct f (y ∷ t) eo es d = elim (Bool-cases (ltb f.size (length (y ∷ t)))) [
    | inl long ↦ rw long (refl, refl, ap (discard y) es ∙ discard_head t y d.0, d.1)
    | inr short ↦ rw short (refl, eo, es ∙ sym eo, rw eo d)
  ]

  pub check_and_add-Tracks :
      (n : ℕ) (h : List A) (f : ReplayFilter A) (x : A)
      → Tracks n h f
      → ((check_and_add x f).0 ≡ (if contains (take n h) x then false else true))
        × Tracks n (if contains (take n h) x then h else x ∷ h) (check_and_add x f).1
  unfolding check_and_add
  check_and_add-Tracks n h f x t =
      let same : contains f.seen x ≡ contains (take n h) x =
        ap (λ l. contains l x) (t.seen_eq ∙ t.window_eq) ∙ contains-reverse (take n h) x in
      elim (Bool-cases (contains (take n h) x)) [
        | inl old ↦ rw (same, old) (refl, t)
        | inr new ↦
            let o = f.order ++ x ∷ [] in
            let f' : ReplayFilter A = record f { seen = f.seen ++ x ∷ []; order = o } in
            let absent : contains f.order x ≡ false =
              ap (λ l. contains l x) (sym t.seen_eq) ∙ (same ∙ new) in
            let (size, order, seen, distinct) =
              trim-Distinct f' o refl (ap (λ l. l ++ x ∷ []) t.seen_eq)
                (Distinct-snoc f.order x t.distinct absent) in
            rw (same, new)
              (
                refl,
                record {
                  limit = size ∙ t.limit;
                  window_eq =
                      order
                      ∙ (ap (λ k. trim_list k o) t.limit
                          ∙ (ap (λ l. trim_list n (l ++ x ∷ [])) t.window_eq ∙ window n h x));
                  seen_eq = seen;
                  distinct = distinct;
                },
              )
      ]

  run-ideal_from :
      (n : ℕ) (h : List A) (f : ReplayFilter A) (xs : List A)
      → Tracks n h f
      → run f xs ≡ ideal n h xs
  unfolding run ideal
  run-ideal_from n h f [] t = refl
  run-ideal_from n h f (x ∷ xs) t =
      let (answer, t') = check_and_add-Tracks n h f x t in
      ap₂ ◌∷◌ answer
        (run-ideal_from n (if contains (take n h) x then h else x ∷ h) (check_and_add x f).1 xs t')

  pub Tracks-new : (size : ℕ) → Tracks size [] (record { size = size; seen = []; order = [] })
  Tracks-new size = record {
    limit = refl;
    window_eq = sym (ap reverse (take_all size [] (omega arith)));
    seen_eq = refl;
    distinct = tt;
  }

  -- A new filter of any size answers every sequence as the ideal one: an item is a replay exactly
  -- if it is among the last `size` items that were accepted.
  pub run-ideal :
      (size : ℕ) (xs : List A)
      → run (record { size = size; seen = []; order = [] }) xs ≡ ideal size [] xs
  run-ideal size xs =
      run-ideal_from size [] (record { size = size; seen = []; order = [] }) xs (Tracks-new size)
