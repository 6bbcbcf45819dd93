-- ===== src/Crypto/Transform.antt =====
-- The macros and sha256_transform of src/abs_crypto.c. A `uint32_t` is a number below 2 ^ 32, whose wrap-around
-- is written out. The eight words of the state are a list.
use abscom.Prelude.{
  ℕ, zero, suc, ◌+◌, ◌-◌, ◌*◌, ◌/◌, ◌%◌, ◌^◌, bit_and, bit_or, bit_xor, List, [], ◌∷◌, ◌++◌, get_or,
}

-- the sum of two words
infixl 65 ◌+₃₂◌
abbrev pub ◌+₃₂◌ : ℕ → ℕ → ℕ
x +₃₂ y = (x + y) % 2 ^ 32

unfoldable pub rotr : ℕ → ℕ → ℕ
rotr x n = bit_or (x / 2 ^ n) (x * 2 ^ (32 - n) % 2 ^ 32)

unfoldable pub ch : ℕ → ℕ → ℕ → ℕ
ch x y z = bit_xor (bit_and x y) (bit_and (2 ^ 32 - 1 - x) z)

unfoldable pub maj : ℕ → ℕ → ℕ → ℕ
maj x y z = bit_xor (bit_xor (bit_and x y) (bit_and x z)) (bit_and y z)

unfoldable pub sig0 : ℕ → ℕ
unfolding rotr
sig0 x = bit_xor (bit_xor (rotr x 2) (rotr x 13)) (rotr x 22)

unfoldable pub sig1 : ℕ → ℕ
unfolding rotr
sig1 x = bit_xor (bit_xor (rotr x 6) (rotr x 11)) (rotr x 25)

unfoldable pub gam0 : ℕ → ℕ
unfolding rotr
gam0 x = bit_xor (bit_xor (rotr x 7) (rotr x 18)) (x / 2 ^ 3)

unfoldable pub gam1 : ℕ → ℕ
unfolding rotr
gam1 x = bit_xor (bit_xor (rotr x 17) (rotr x 19)) (x / 2 ^ 10)

-- the table K
abbrev pub round_constants : List ℕ
round_constants =
    0x428a2f98 ∷ 0x71374491 ∷ 0xb5c0fbcf ∷ 0xe9b5dba5 ∷ 0x3956c25b ∷ 0x59f111f1 ∷ 0x923f82a4
    ∷ 0xab1c5ed5 ∷ 0xd807aa98 ∷ 0x12835b01 ∷ 0x243185be ∷ 0x550c7dc3 ∷ 0x72be5d74 ∷ 0x80deb1fe
    ∷ 0x9bdc06a7 ∷ 0xc19bf174 ∷ 0xe49b69c1 ∷ 0xefbe4786 ∷ 0x0fc19dc6 ∷ 0x240ca1cc ∷ 0x2de92c6f
    ∷ 0x4a7484aa ∷ 0x5cb0a9dc ∷ 0x76f988da ∷ 0x983e5152 ∷ 0xa831c66d ∷ 0xb00327c8 ∷ 0xbf597fc7
    ∷ 0xc6e00bf3 ∷ 0xd5a79147 ∷ 0x06ca6351 ∷ 0x14292967 ∷ 0x27b70a85 ∷ 0x2e1b2138 ∷ 0x4d2c6dfc
    ∷ 0x53380d13 ∷ 0x650a7354 ∷ 0x766a0abb ∷ 0x81c2c92e ∷ 0x92722c85 ∷ 0xa2bfe8a1 ∷ 0xa81a664b
    ∷ 0xc24b8b70 ∷ 0xc76c51a3 ∷ 0xd192e819 ∷ 0xd6990624 ∷ 0xf40e3585 ∷ 0x106aa070 ∷ 0x19a4c116
    ∷ 0x1e376c08 ∷ 0x2748774c ∷ 0x34b0bcb5 ∷ 0x391c0cb3 ∷ 0x4ed8aa4a ∷ 0x5b9cca4f ∷ 0x682e6ff3
    ∷ 0x748f82ee ∷ 0x78a5636f ∷ 0x84c87814 ∷ 0x8cc70208 ∷ 0x90befffa ∷ 0xa4506ceb ∷ 0xbef9a3f7
    ∷ 0xc67178f2 ∷ []

-- The first 16 words of m, of the bytes from `j` on.
unfoldable pub load_words : ℕ → ℕ → List ℕ → List ℕ
load_words zero j bytes = []
load_words (suc n) j bytes =
    bit_or
      (bit_or (bit_or (get_or bytes j 0 * 2 ^ 24) (get_or bytes (j + 1) 0 * 2 ^ 16))
        (get_or bytes (j + 2) 0 * 2 ^ 8))
      (get_or bytes (j + 3) 0)
    ∷ load_words n (j + 4) bytes

-- The loop that fills m, of which the first `i` words are there.
unfoldable pub extend_words : ℕ → ℕ → List ℕ → List ℕ
unfolding gam0 gam1
extend_words zero i m = m
extend_words (suc rounds) i m = extend_words rounds (i + 1) (
    m
    ++ (gam1 (get_or m (i - 2) 0)
        +₃₂ get_or m (i - 7) 0
        +₃₂ gam0 (get_or m (i - 15) 0)
        +₃₂ get_or m (i - 16) 0)
      ∷ [])

-- the working variables
pub record Variables : Type 0 where
  pub a : ℕ
  pub b : ℕ
  pub c : ℕ
  pub d : ℕ
  pub e : ℕ
  pub f : ℕ
  pub g : ℕ
  pub h : ℕ

-- one round, of a word of m and a constant
unfoldable pub sha_round : ℕ → ℕ → Variables → Variables
unfolding sig0 sig1 ch maj
sha_round m k v =
    let t1 = v.h +₃₂ sig1 v.e +₃₂ ch v.e v.f v.g +₃₂ k +₃₂ m in
    let t2 = sig0 v.a +₃₂ maj v.a v.b v.c in
    record { a = t1 +₃₂ t2; b = v.a; c = v.b; d = v.c; e = v.d +₃₂ t1; f = v.e; g = v.f; h = v.g }

-- the loop over the words of m and the constants
unfoldable pub sha_rounds : List ℕ → List ℕ → Variables → Variables
unfolding sha_round
sha_rounds [] ks v = v
sha_rounds (m ∷ ms) [] v = v
sha_rounds (m ∷ ms) (k ∷ ks) v = sha_rounds ms ks (sha_round m k v)

unfoldable pub sha256_transform : List ℕ → List ℕ → List ℕ
unfolding load_words extend_words sha_rounds
sha256_transform state bytes =
    let v = sha_rounds (extend_words 48 16 (load_words 16 0 bytes)) round_constants (record {
      a = get_or state 0 0;
      b = get_or state 1 0;
      c = get_or state 2 0;
      d = get_or state 3 0;
      e = get_or state 4 0;
      f = get_or state 5 0;
      g = get_or state 6 0;
      h = get_or state 7 0;
    }) in
    (get_or state 0 0 +₃₂ v.a)
    ∷ (get_or state 1 0 +₃₂ v.b)
    ∷ (get_or state 2 0 +₃₂ v.c)
    ∷ (get_or state 3 0 +₃₂ v.d)
    ∷ (get_or state 4 0 +₃₂ v.e)
    ∷ (get_or state 5 0 +₃₂ v.f)
    ∷ (get_or state 6 0 +₃₂ v.g)
    ∷ (get_or state 7 0 +₃₂ v.h)
    ∷ []
