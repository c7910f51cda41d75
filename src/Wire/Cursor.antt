-- ===== src/Wire/Cursor.antt =====
-- Reading at a position: what stands there is known from the rest of the text.
use rvg_sever.Prelude.{
  ℕ, ◌+◌, ◌-◌, ◌≡◌, arith, ◌∷◌, ◌++◌, ok, length, drop, take-append, drop-append, drop-drop,
}
use rvg_sever.Prelude.{ok, le→leb, length-append}
use rvg_sever.Wire.{read_exact, Bytes, byte_at, slice}

module _ (chunk : Bytes) (pos : ℕ) where
  pub byte_at-drop : (b : ℕ) (rest : Bytes) → drop pos chunk ≡ b ∷ rest → byte_at chunk pos ≡ ok b
  unfolding byte_at
  byte_at-drop b rest h = rw h

  pub drop-next : (b : ℕ) (rest : Bytes) → drop pos chunk ≡ b ∷ rest → drop (pos + 1) chunk ≡ rest
  drop-next b rest h = rw (← drop-drop pos 1 chunk, h)

  pub slice-drop :
      (n : ℕ) (xs rest : Bytes)
      → drop pos chunk ≡ xs ++ rest
      → length xs ≡ n
      → slice chunk pos (pos + n) ≡ xs
  unfolding slice
  slice-drop n xs rest h e =
      let d : pos + n - pos ≡ n = omega arith in rw (d, h) (take-append n xs rest e)

  pub drop-skip :
      (n : ℕ) (xs rest : Bytes)
      → drop pos chunk ≡ xs ++ rest
      → length xs ≡ n
      → drop (pos + n) chunk ≡ rest
  drop-skip n xs rest h e = rw (← drop-drop pos n chunk, h) (drop-append n xs rest e)

-- A part of known length is read, and what follows it is left.
pub read_exact-append :
    (n : ℕ) (xs ys : Bytes) → length xs ≡ n → read_exact n (xs ++ ys) ≡ ok (xs, ys)
unfolding read_exact
read_exact-append n xs ys e = rw (
  le→leb n (length (xs ++ ys)) (omega (arith, length-append xs ys, e)),
  take-append n xs ys e,
  drop-append n xs ys e,
)
