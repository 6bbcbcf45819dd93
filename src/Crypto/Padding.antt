-- ===== src/Crypto/Padding.antt =====
-- sha256_bytes of src/abs_crypto.c against the definition of the hash: the message is padded to whole blocks.
use native.Mathlib.Nat.{zero-add, suc-add}
use abscom.Prelude.{
  ℕ, zero, suc, ◌+◌, ◌-◌, ◌*◌, ◌/◌, ◌%◌, ◌≤◌, ◌<◌, ◌≡◌, refl, sym, ◌∙◌, ap, true, false, Bool-cases,
  inl, inr, List, [], ◌∷◌, ◌++◌, arith, ltb, ltb→lt, length, take, drop, replicate, length-append,
  length-replicate, length-drop, take_all,
}
use abscom.Prelude.Bytes.{take-append_le, drop-append_le, take-length_append, drop-length_append}
use abscom.Crypto.Transform.{sha256_transform}
use abscom.Crypto.Defs.{
  initial_state, whole_blocks, big_endian, last_block, finish, state_bytes, sha256_bytes,
}
use mathlib.Core.List.{append_assoc}

-- How many zeros come before the number of bits, behind `n` bytes and 0x80.
abbrev pub zeros_for : ℕ → ℕ
zeros_for n = (119 - n % 64) % 64

unfoldable pub padded : List ℕ → List ℕ
padded msg = msg ++ 0x80 ∷ (replicate (zeros_for (length msg)) 0 ++ big_endian 8 (length msg * 8))

-- The compression of `n` blocks one after the other.
unfoldable pub compress_blocks : ℕ → List ℕ → List ℕ → List ℕ
compress_blocks zero state bytes = state
compress_blocks (suc n) state bytes =
    compress_blocks n (sha256_transform state (take 64 bytes)) (drop 64 bytes)

length-big_endian : (n bits : ℕ) → length (big_endian n bits) ≡ n
unfolding big_endian
length-big_endian zero bits = refl
length-big_endian (suc n) bits = ap suc (length-big_endian n bits)

length-padded : (msg : List ℕ) → length (padded msg) % 64 ≡ 0
unfolding padded
length-padded msg =
    rw (length-append, length-append, length-replicate, length-big_endian) (omega arith)

-- A block that lies before the rest.
compress_blocks-block :
    (n : ℕ) (state block rest : List ℕ)
    → length block ≡ 64
    → compress_blocks (suc n) state (block ++ rest)
      ≡ compress_blocks n (sha256_transform state block) rest
unfolding compress_blocks
compress_blocks-block n state block rest h =
    let t : take 64 (block ++ rest) ≡ block = rw h at (take-length_append block rest) in
    let d : drop 64 (block ++ rest) ≡ rest = rw h at (drop-length_append block rest) in
    rw (t, d) refl

whole_blocks-compress :
    (n k : ℕ) (state msg tail : List ℕ)
    → n * 64 ≤ length msg
    → (compress_blocks (n + k) state (msg ++ tail)
        ≡ compress_blocks k (whole_blocks n state msg).0 ((whole_blocks n state msg).1 ++ tail))
      × (length (whole_blocks n state msg).1 ≡ length msg - n * 64)
unfolding compress_blocks whole_blocks
whole_blocks-compress zero k state msg tail h = (rw zero-add refl, omega arith)
whole_blocks-compress (suc n) k state msg tail h =
    let t = take-append_le 64 msg tail (omega (arith, h)) in
    let d = drop-append_le 64 msg tail (omega (arith, h)) in
    let (e, size) =
      whole_blocks-compress n k (sha256_transform state (take 64 msg)) (drop 64 msg) tail
        (rw (length-drop) (omega (arith, h))) in
    (rw (suc-add, compress_blocks, t, d) e, rw (length-drop) at size ∙ omega (arith, h))

one_block :
    (state block : List ℕ)
    → length block ≡ 64
    → sha256_transform state block ≡ compress_blocks 1 state block
unfolding compress_blocks
one_block state block h =
    rw h at (ap (sha256_transform state) (sym (take_all (length block) block (omega arith))))

replicate_add :
    (n m : ℕ) (rest : List ℕ)
    → replicate (n + m) 0 ++ rest ≡ replicate n 0 ++ (replicate m 0 ++ rest)
replicate_add zero m rest = rw zero-add refl
replicate_add (suc n) m rest = rw suc-add (ap (◌∷◌ 0) (replicate_add n m rest))

-- The bytes that are left fit into one block with the number of bits.
finish_short :
    (state rest : List ℕ) (bits : ℕ)
    → length rest < 56
    → finish state rest bits
      ≡ compress_blocks 1 state
          (rest ++ 0x80 ∷ (replicate (55 - length rest) 0 ++ big_endian 8 bits))
unfolding finish last_block
finish_short state rest bits h =
    let size : length (rest ++ 0x80 ∷ []) ≡ length rest + 1 = length-append rest (0x80 ∷ []) in
    let test : ltb 56 (length (rest ++ 0x80 ∷ [])) ≡ false = ground (arith, size) in
    let zeros : 56 - length (rest ++ 0x80 ∷ []) ≡ 55 - length rest = omega (arith, size) in
    rw (test, zeros, append_assoc)
      (one_block state (rest ++ 0x80 ∷ (replicate (55 - length rest) 0 ++ big_endian 8 bits))
        (rw (length-append, length-append, length-replicate, length-big_endian) (omega arith)))

finish_long :
    (state rest : List ℕ) (bits : ℕ)
    → 56 ≤ length rest
    → length rest < 64
    → finish state rest bits
      ≡ compress_blocks 2 state
          (rest ++ 0x80 ∷ (replicate (119 - length rest) 0 ++ big_endian 8 bits))
unfolding finish last_block
finish_long state rest bits h h' =
    let block = (rest ++ 0x80 ∷ []) ++ replicate (63 - length rest) 0 in
    let size : length (rest ++ 0x80 ∷ []) ≡ length rest + 1 = length-append rest (0x80 ∷ []) in
    let test : ltb 56 (length (rest ++ 0x80 ∷ [])) ≡ true = ground (arith, size) in
    let zeros : 64 - length (rest ++ 0x80 ∷ []) ≡ 63 - length rest = omega (arith, size) in
    let more : 119 - length rest ≡ (63 - length rest) + 56 = omega arith in
    let full : length block ≡ 64 =
      rw (length-append, length-append, length-replicate) (omega arith) in
    let last : length (replicate 56 0 ++ big_endian 8 bits) ≡ 64 = rw (length-append) refl in
    rw (test, zeros, more, replicate_add)
      (one_block (sha256_transform state block) (replicate 56 0 ++ big_endian 8 bits) last
        ∙ sym (compress_blocks-block 1 state block (replicate 56 0 ++ big_endian 8 bits) full)
        ∙ ap (compress_blocks 2 state) (rw (append_assoc, append_assoc) refl))

-- The last block or the last two blocks, whatever is left.
finish-compress :
    (state rest : List ℕ) (bits n : ℕ)
    → length rest ≡ n % 64
    → finish state rest bits
      ≡ compress_blocks
          ((n % 64 + 9 + zeros_for n) / 64)
          state
          (rest ++ 0x80 ∷ (replicate (zeros_for n) 0 ++ big_endian 8 bits))
finish-compress state rest bits n h = elim (Bool-cases (ltb (n % 64) 56)) [
  | inl e ↦
      let small = ltb→lt _ _ e in
      let zeros : zeros_for n ≡ 55 - length rest = omega (arith, h, small) in
      let count : (n % 64 + 9 + zeros_for n) / 64 ≡ 1 = omega (arith, small) in
      rw (count, zeros) (finish_short state rest bits (omega (arith, h, small)))
  | inr e ↦
      let large : 56 ≤ n % 64 = ground (arith, e) in
      let zeros : zeros_for n ≡ 119 - length rest = omega (arith, h, large) in
      let count : (n % 64 + 9 + zeros_for n) / 64 ≡ 2 = omega (arith, large) in
      rw (count, zeros) (finish_long state rest bits (omega (arith, h, large)) (omega (arith, h)))
]

-- The digest that `sha256_bytes` writes is that of the compression function over the blocks of the padded message,
-- which is a whole number of blocks.
pub sha256_bytes-padded :
    (msg : List ℕ)
    → (sha256_bytes msg
        ≡ state_bytes (compress_blocks (length (padded msg) / 64) initial_state (padded msg)))
      × (length (padded msg) % 64 ≡ 0)
unfolding sha256_bytes padded
sha256_bytes-padded msg =
    let n = length msg in
    let tail = 0x80 ∷ (replicate (zeros_for n) 0 ++ big_endian 8 (n * 8)) in
    let last = (n % 64 + 9 + zeros_for n) / 64 in
    let blocks = whole_blocks (n / 64) initial_state msg in
    let (e, size) = whole_blocks-compress (n / 64) last initial_state msg tail (omega arith) in
    let long : length tail ≡ 9 + zeros_for n =
      rw (length-append, length-replicate, length-big_endian) (omega arith) in
    let count : length (msg ++ tail) / 64 ≡ n / 64 + last =
      rw (length-append) (omega (arith, long)) in
    (
      ap state_bytes (
          finish-compress blocks.0 blocks.1 (n * 8) n (omega (arith, size))
          ∙ sym e
          ∙ ap (λ k. compress_blocks k initial_state (msg ++ tail)) (sym count)),
      length-padded msg,
    )
