-- ===== src/Tests/Hashing.antt =====
-- Hash functions on known inputs.
use abscom.Prelude.{◌≡◌, refl, ◌^◌, ◌%◌, some, codes}
use abscom.Hash.{fnv1a32, fnv1a64, djb2, dict_hash}
use abscom.Hash.Laws.{djb2-dict_hash}

fnv1a32_a : fnv1a32 (codes "a") ≡ 0xe40c292c
unfolding fnv1a32
fnv1a32_a = refl

fnv1a64_a : fnv1a64 (codes "a") ≡ 0xaf63dc4c8601ec8c
unfolding fnv1a64
fnv1a64_a = refl

djb2-dict_hash_example : djb2 (some (codes "abscom")) ≡ dict_hash (codes "abscom") % 2 ^ 32
djb2-dict_hash_example = djb2-dict_hash (codes "abscom")
