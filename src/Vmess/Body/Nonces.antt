-- ===== src/Vmess/Body/Nonces.antt =====
-- The nonces that `_ChunkNonce` deals out, one for each chunk.
use rvg_sever.Prelude.{ℕ, zero, suc, ◌+◌, ◌%◌, ◌/◌, ◌≡◌, refl, ap, ◌∙◌, arith, ◌∷◌, take, drop}
use rvg_sever.Wire.{Bytes, be16}
use rvg_sever.Vmess.Body.{ChunkNonce, next, new_nonce}

-- The generator behind `k` calls.
unfoldable pub steps : ℕ → ChunkNonce → ChunkNonce
steps zero n = n
steps (suc k) n = steps k (next n).1

-- What call number `k`, counted from zero, returns.
unfoldable pub nonce_at : Bytes → ℕ → Bytes
unfolding steps
nonce_at iv k = (next (steps k (new_nonce iv))).0

steps-count : (k : ℕ) (n : ChunkNonce) → (steps k n).count ≡ n.count + k
unfolding steps next
steps-count zero n = omega arith
steps-count (suc k) n = omega (arith, steps-count k (next n).1)

steps-tail : (k : ℕ) (n : ChunkNonce) → drop 2 (steps k n).c ≡ drop 2 n.c
unfolding steps next be16
steps-tail zero n = refl
steps-tail (suc k) n = steps-tail k (next n).1

pub nonce_at_lem :
    (iv : Bytes) (k : ℕ)
    → nonce_at iv k ≡ k % 65536 / 256 % 256 ∷ k % 65536 % 256 ∷ take 10 (drop 2 iv)
unfolding nonce_at next be16
nonce_at_lem iv k =
    let count : (steps k (new_nonce iv)).count ≡ k = omega (arith, steps-count k (new_nonce iv)) in
    let rest = steps-tail k (new_nonce iv) in
    ap (λ t. t % 65536 / 256 % 256 ∷ t % 65536 % 256 ∷ take 10 (drop 2 (steps k (new_nonce iv)).c))
      count
    ∙ ap (λ t. k % 65536 / 256 % 256 ∷ k % 65536 % 256 ∷ take 10 t) rest

-- Two chunks of one body have one nonce exactly if their numbers agree modulo 65536: no nonce
-- returns before, and each returns then.
pub nonce_at-eq_iff :
    (iv : Bytes) (i j : ℕ)
    → (nonce_at iv i ≡ nonce_at iv j → i % 65536 ≡ j % 65536)
      × (i % 65536 ≡ j % 65536 → nonce_at iv i ≡ nonce_at iv j)
nonce_at-eq_iff iv i j = (forth, λ e. rw (nonce_at_lem iv i, nonce_at_lem iv j, e))
  where
    high : nonce_at iv i ≡ nonce_at iv j → i % 65536 / 256 % 256 ≡ j % 65536 / 256 % 256
    high e = cc (e, nonce_at_lem iv i, nonce_at_lem iv j)

    low : nonce_at iv i ≡ nonce_at iv j → i % 65536 % 256 ≡ j % 65536 % 256
    low e = cc (e, nonce_at_lem iv i, nonce_at_lem iv j)

    forth : nonce_at iv i ≡ nonce_at iv j → i % 65536 ≡ j % 65536
    forth e = omega (arith, high e, low e)
