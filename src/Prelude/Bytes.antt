-- ===== src/Prelude/Bytes.antt =====
-- Memory blocks as lists of bytes: reading and writing a range, and `realloc`.
use Prim.Native.Nat.{ℕ, zero, suc, ◌+◌, ◌-◌, ◌≤◌}
use mathlib.Core.Path.{◌≡◌, refl, ap, subst, ◌∙◌}
use mathlib.Core.Bool.{Bool, true}
use mathlib.Core.Option.{Option, none, some}
use mathlib.Core.List.{List, [], ◌∷◌, ◌++◌, append_assoc}
use native.Mathlib.Omega.{arith}
use abscom.Prelude.Compare.{leb, if◌then◌else◌}
use abscom.Prelude.Lists.{length, take, drop, length-append, length-take, length-drop}
use abscom.Prelude.Run.{Run, done, fault}

module _ {ℓ} {A : Type ℓ} where
  pub take-append_le : (n : ℕ) (xs ys : List A) → n ≤ length xs → take n (xs ++ ys) ≡ take n xs
  take-append_le zero xs ys h = refl
  take-append_le (suc n) [] ys h = absurd (omega arith)
  take-append_le (suc n) (x ∷ xs) ys h = ap (◌∷◌ x) (take-append_le n xs ys (omega arith))

  pub drop-append_le :
      (n : ℕ) (xs ys : List A) → n ≤ length xs → drop n (xs ++ ys) ≡ drop n xs ++ ys
  drop-append_le zero xs ys h = refl
  drop-append_le (suc n) [] ys h = absurd (omega arith)
  drop-append_le (suc n) (x ∷ xs) ys h = drop-append_le n xs ys (omega arith)

  pub take-length_append : (xs ys : List A) → take (length xs) (xs ++ ys) ≡ xs
  take-length_append [] ys = refl
  take-length_append (x ∷ xs) ys = ap (◌∷◌ x) (take-length_append xs ys)

  pub drop-length_append : (xs ys : List A) → drop (length xs) (xs ++ ys) ≡ ys
  drop-length_append [] ys = refl
  drop-length_append (x ∷ xs) ys = drop-length_append xs ys

  pub take-take_le : (n m : ℕ) (xs : List A) → n ≤ m → take n (take m xs) ≡ take n xs
  take-take_le zero m xs h = refl
  take-take_le (suc n) zero xs h = absurd (omega arith)
  take-take_le (suc n) (suc m) [] h = refl
  take-take_le (suc n) (suc m) (x ∷ xs) h = ap (◌∷◌ x) (take-take_le n m xs (omega arith))

-- memcpy(block + at, bytes, n): a write past the end of the block is a fault.
unfoldable pub write_at : ℕ → List ℕ → List ℕ → Run (List ℕ)
write_at at bytes block =
    if leb (at + length bytes) (length block)
    then done (take at block ++ (bytes ++ drop (at + length bytes) block))
    else fault

-- Bytes of no known value, such as those that `realloc` adds: byte `i` of them is `junk i`.
unfoldable pub junk_bytes : ℕ → (ℕ → ℕ) → List ℕ
junk_bytes zero junk = []
junk_bytes (suc n) junk = junk n ∷ junk_bytes n junk

-- realloc(block, n): as much of the old block as fits, and then bytes of no known value.
unfoldable pub realloc : (ℕ → Bool) → (ℕ → ℕ) → List ℕ → ℕ → Option (List ℕ)
unfolding junk_bytes
realloc grants junk block n =
    if grants n then some (take n block ++ junk_bytes (n - length block) junk) else none

length-junk_bytes : (n : ℕ) (junk : ℕ → ℕ) → length (junk_bytes n junk) ≡ n
unfolding junk_bytes
length-junk_bytes zero junk = refl
length-junk_bytes (suc n) junk = ap suc (length-junk_bytes n junk)

-- A granted request gives a block of the size asked for that starts with the old bytes.
pub realloc_lem :
    (grants : ℕ → Bool) (junk : ℕ → ℕ) (block : List ℕ) (n m : ℕ)
    → grants n ≡ true
    → m ≤ n
    → m ≤ length block
    → (b : List ℕ) × (realloc grants junk block n ≡ some b)
      × (length b ≡ n)
      × (take m b ≡ take m block)
unfolding realloc
realloc_lem grants junk block n m ok small inside = (
  take n block ++ junk_bytes (n - length block) junk,
  rw ok,
  omega (
    arith,
    length-append (take n block) (junk_bytes (n - length block) junk),
    length-take n block,
    length-junk_bytes (n - length block) junk,
  ),
  take-append_le m (take n block) _ (omega (arith, length-take n block))
      ∙ take-take_le m n block small,
)

-- A write inside the block keeps its length and the bytes in front, and puts the new bytes in place.
pub write_at_lem :
    (at : ℕ) (bytes block : List ℕ)
    → at + length bytes ≤ length block
    → (b : List ℕ) × (write_at at bytes block ≡ done b)
      × (length b ≡ length block)
      × (take (at + length bytes) b ≡ take at block ++ bytes)
      × (drop (at + length bytes) b ≡ drop (at + length bytes) block)
unfolding write_at
write_at_lem at bytes block h =
    let front = take at block in
    let rest = drop (at + length bytes) block in
    let size : length (front ++ bytes) ≡ at + length bytes =
      omega (arith, length-append front bytes, length-take at block) in
    (
      front ++ (bytes ++ rest),
      ground arith,
      omega (
        arith,
        length-append front (bytes ++ rest),
        length-append bytes rest,
        length-take at block,
        length-drop (at + length bytes) block,
      ),
      rw (← append_assoc front bytes rest) (
          subst (λ k. take k ((front ++ bytes) ++ rest) ≡ front ++ bytes) size
            (take-length_append (front ++ bytes) rest)),
      rw (← append_assoc front bytes rest) (
          subst (λ k. drop k ((front ++ bytes) ++ rest) ≡ rest) size
            (drop-length_append (front ++ bytes) rest)),
    )
