-- ===== src/Crypto/Samples.antt =====
-- A cipher and a suite to run the model with: the tag of a message is the first byte of its nonce
-- and fifteen zeros, in front of the plain text.
use rvg_sever.Prelude.{
  ℕ, zero, suc, ◌≡◌, arith, [], ◌∷◌, ◌++◌, length, length-take, length-append, take, drop, Option,
  none, some, ◌==◌, ==_refl, if◌then◌else◌,
}
use rvg_sever.Wire.{Bytes}
use rvg_sever.Crypto.{Aead, Suite}

abbrev first : Bytes → ℕ
first [] = 0
first (b ∷ _) = b

abbrev seal : Bytes → Bytes → Bytes
seal nonce plain = first nonce ∷ 0 ∷ 0 ∷ 0 ∷ 0 ∷ 0 ∷ 0 ∷ 0 ∷ 0 ∷ 0 ∷ 0 ∷ 0 ∷ 0 ∷ 0 ∷ 0 ∷ 0 ∷ plain

abbrev open_ : Bytes → Bytes → Option Bytes
open_ nonce [] = none
open_ nonce (tag ∷ rest) = if tag == first nonce then some (drop 15 rest) else none

pub open_-seal : (nonce plain : Bytes) → open_ nonce (seal nonce plain) ≡ some plain
open_-seal nonce plain = rw (==_refl (first nonce))

abbrev pub sample_aead : Aead
sample_aead = record {
  encrypt = seal;
  decrypt = open_;
  decrypt-encrypt = open_-seal;
  length-encrypt = λ nonce plain. omega arith;
}

abbrev pub zeros : ℕ → Bytes
zeros zero = []
zeros (suc n) = 0 ∷ zeros n

pub length-zeros : (n : ℕ) → length (zeros n) ≡ n
length-zeros zero = omega arith
length-zeros (suc n) = omega (arith, length-zeros n)

abbrev pub sample_suite : Suite
sample_suite = record {
  gcm = λ _. sample_aead;
  chacha = λ _. sample_aead;
  sha256 = λ bs. take 32 (bs ++ zeros 32);
  md5 = λ bs. take 16 (bs ++ zeros 16);
  shake = λ bs n. zeros n;
}

pub length-md5 : (bs : Bytes) → length (sample_suite.md5 bs) ≡ 16
length-md5 bs =
    omega (arith, length-take 16 (bs ++ zeros 16), length-append bs (zeros 16), length-zeros 16)

pub length-sha256 : (bs : Bytes) → length (sample_suite.sha256 bs) ≡ 32
length-sha256 bs =
    omega (arith, length-take 32 (bs ++ zeros 32), length-append bs (zeros 32), length-zeros 32)
