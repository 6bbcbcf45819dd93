-- ===== src/Hash.antt =====
-- src/abs_hash.c, and the `dict_hash` of src/abs.c. A byte is a number below 256; a `uint32_t` or
-- `uint64_t` is a number with its wrap-around written out.
pub mod Laws
use abscom.Prelude.{ℕ, ◌+◌, ◌*◌, ◌%◌, ◌^◌, bit_xor, List, [], ◌∷◌, Option, none, some, CString}

fnv1a32_loop : ℕ → List ℕ → ℕ
fnv1a32_loop h [] = h
fnv1a32_loop h (p ∷ ps) = fnv1a32_loop (bit_xor h p * 16777619 % 2 ^ 32) ps

unfoldable pub fnv1a32 : List ℕ → ℕ
unfolding fnv1a32_loop
fnv1a32 bytes = fnv1a32_loop 2166136261 bytes

fnv1a64_loop : ℕ → List ℕ → ℕ
fnv1a64_loop h [] = h
fnv1a64_loop h (p ∷ ps) = fnv1a64_loop (bit_xor h p * 1099511628211 % 2 ^ 64) ps

unfoldable pub fnv1a64 : List ℕ → ℕ
unfolding fnv1a64_loop
fnv1a64 bytes = fnv1a64_loop 14695981039346656037 bytes

-- `none` is a NULL string.
unfoldable pub fnv1a64_str : Option CString → ℕ
unfolding fnv1a64
fnv1a64_str none = 0
fnv1a64_str (some s) = fnv1a64 s

djb2_loop : ℕ → CString → ℕ
djb2_loop h [] = h
djb2_loop h (c ∷ s) = djb2_loop (((h * 2 ^ 5 % 2 ^ 32 + h) % 2 ^ 32 + c) % 2 ^ 32) s

unfoldable pub djb2 : Option CString → ℕ
unfolding djb2_loop
djb2 none = 5381
djb2 (some s) = djb2_loop 5381 s

-- `unsigned long` has 64 bits.
dict_hash_loop : ℕ → CString → ℕ
dict_hash_loop h [] = h
dict_hash_loop h (c ∷ s) = dict_hash_loop (((h * 2 ^ 5 % 2 ^ 64 + h) % 2 ^ 64 + c) % 2 ^ 64) s

unfoldable pub dict_hash : CString → ℕ
unfolding dict_hash_loop
dict_hash s = dict_hash_loop 5381 s
