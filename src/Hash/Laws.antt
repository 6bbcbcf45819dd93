-- ===== src/Hash/Laws.antt =====
-- Facts about the hash functions.
use abscom.Prelude.{ℕ, ◌%◌, ◌^◌, ◌<◌, ◌≡◌, refl, List, [], ◌∷◌, some, CString, arith}
use abscom.Hash.{
  fnv1a32_loop, fnv1a32, fnv1a64_loop, fnv1a64, djb2_loop, djb2, dict_hash_loop, dict_hash,
}

fnv1a32_loop-lt : (ps : List ℕ) (h : ℕ) → h < 2 ^ 32 → fnv1a32_loop h ps < 2 ^ 32
unfolding fnv1a32_loop
fnv1a32_loop-lt [] h p = p
fnv1a32_loop-lt (b ∷ ps) h p = fnv1a32_loop-lt ps _ (omega arith)

fnv1a64_loop-lt : (ps : List ℕ) (h : ℕ) → h < 2 ^ 64 → fnv1a64_loop h ps < 2 ^ 64
unfolding fnv1a64_loop
fnv1a64_loop-lt [] h p = p
fnv1a64_loop-lt (b ∷ ps) h p = fnv1a64_loop-lt ps _ (omega arith)

djb2_loop-dict_hash :
    (s : CString) (h g : ℕ) → h ≡ g % 2 ^ 32 → djb2_loop h s ≡ dict_hash_loop g s % 2 ^ 32
unfolding djb2_loop dict_hash_loop
djb2_loop-dict_hash [] h g e = e
djb2_loop-dict_hash (c ∷ s) h g e = djb2_loop-dict_hash s _ _ (omega arith)

-- The two FNV-1a hashes stay within 32 and 64 bits, on every input.
pub fnv1a_bounds : (bytes : List ℕ) → (fnv1a32 bytes < 2 ^ 32) × (fnv1a64 bytes < 2 ^ 64)
unfolding fnv1a32 fnv1a64
fnv1a_bounds bytes = (fnv1a32_loop-lt bytes _ (omega arith), fnv1a64_loop-lt bytes _ (omega arith))

-- The 32-bit djb2 hash of a string is the low half of the 64-bit hash that dictionaries use.
pub djb2-dict_hash : (s : CString) → djb2 (some s) ≡ dict_hash s % 2 ^ 32
unfolding djb2 dict_hash
djb2-dict_hash s = djb2_loop-dict_hash s 5381 5381 refl
