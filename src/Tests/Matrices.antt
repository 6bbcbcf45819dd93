-- ===== src/Tests/Matrices.antt =====
-- Matrices of natural numbers.
use native.Mathlib.Nat.{mul_comm}
use abscom.Prelude.{ℕ, ◌+◌, ◌-◌, ◌*◌, ◌≡◌, refl, true, Bool, some, [], ◌∷◌, ltb, arith}
use abscom.Prelude.Run.{done}
use abscom.Prelude.Int.{pos}
use abscom.Matrix.Defs.{Arithmetic, Matrix, value}
use abscom.Matrix.Shaping.{
  matrix_mul, transpose, slice, vstack, hstack, matrix_get, argmax, reshape,
}
use abscom.Matrix.Built.{IsValid, IsMatrix, entry}
use abscom.Matrix.Laws.{transpose-transpose, transpose-matrix_mul}
use abscom.Matrix.StackLaws.{transpose-vstack}

abbrev naturals : Arithmetic ℕ
naturals = record {
  zero_f = 0;
  one_f = 1;
  add = λ x y. x + y;
  sub = λ x y. x - y;
  mul = λ x y. x * y;
  less = ltb;
}

abbrev plenty : ℕ → Bool
plenty n = true

abbrev wide : Matrix ℕ
wide = record { rows = 2; cols = 3; entries = 1 ∷ 2 ∷ 3 ∷ 4 ∷ 5 ∷ 6 ∷ [] }

abbrev tall : Matrix ℕ
tall = record { rows = 3; cols = 2; entries = 7 ∷ 8 ∷ 9 ∷ 10 ∷ 11 ∷ 12 ∷ [] }

wide-IsValid : IsValid wide
wide-IsValid = record {
  some_rows = omega arith;
  some_cols = omega arith;
  size = refl;
  small = omega arith;
}

tall-IsValid : IsValid tall
tall-IsValid = record {
  some_rows = omega arith;
  some_cols = omega arith;
  size = refl;
  small = omega arith;
}

product_of_both :
    matrix_mul naturals plenty (some wide) (some tall)
    ≡ done (value (record { rows = 2; cols = 2; entries = 58 ∷ 64 ∷ 139 ∷ 154 ∷ [] }))
unfolding matrix_mul
product_of_both = refl

turned_wide :
    transpose naturals plenty (some wide)
    ≡ done (value (record { rows = 3; cols = 2; entries = 1 ∷ 4 ∷ 2 ∷ 5 ∷ 3 ∷ 6 ∷ [] }))
unfolding transpose
turned_wide = refl

shapes :
    (hstack naturals plenty (some wide) (some wide)
      ≡ done (
          value (record {
            rows = 2;
            cols = 6;
            entries = 1 ∷ 2 ∷ 3 ∷ 1 ∷ 2 ∷ 3 ∷ 4 ∷ 5 ∷ 6 ∷ 4 ∷ 5 ∷ 6 ∷ [];
          })))
    × (slice naturals plenty (some wide) (pos 0) (pos 2) (pos 1) (pos 3)
        ≡ done (value (record { rows = 2; cols = 2; entries = 2 ∷ 3 ∷ 5 ∷ 6 ∷ [] })))
    × (reshape naturals plenty (some wide) (pos 3) (pos 2)
        ≡ done (value (record { rows = 3; cols = 2; entries = 1 ∷ 2 ∷ 3 ∷ 4 ∷ 5 ∷ 6 ∷ [] })))
    × (matrix_get naturals (some wide) (pos 1) (pos 2) ≡ done 6)
    × (argmax naturals (some wide) ≡ done (pos 5))
unfolding hstack slice reshape matrix_get argmax
shapes = (refl, refl, refl, refl, refl)

transpose-transpose_example :
    (t : Matrix ℕ) × (transpose naturals plenty (some wide) ≡ done (value t))
    × IsMatrix naturals 3 2 (λ i j. entry naturals wide j i) t
    × (transpose naturals plenty (some t) ≡ done (value wide))
transpose-transpose_example = transpose-transpose naturals plenty wide wide-IsValid refl refl

transpose-matrix_mul_example :
    (c ta tb t : Matrix ℕ) × (matrix_mul naturals plenty (some wide) (some tall) ≡ done (value c))
    × (transpose naturals plenty (some wide) ≡ done (value ta))
    × (transpose naturals plenty (some tall) ≡ done (value tb))
    × (matrix_mul naturals plenty (some tb) (some ta) ≡ done (value t))
    × (transpose naturals plenty (some c) ≡ done (value t))
transpose-matrix_mul_example =
    transpose-matrix_mul naturals plenty wide tall wide-IsValid tall-IsValid refl (omega arith)
      mul_comm (λ n. refl)

transpose-vstack_example :
    (c ta tb t : Matrix ℕ) × (vstack naturals plenty (some wide) (some wide) ≡ done (value c))
    × (transpose naturals plenty (some wide) ≡ done (value ta))
    × (transpose naturals plenty (some wide) ≡ done (value tb))
    × (hstack naturals plenty (some ta) (some tb) ≡ done (value t))
    × (transpose naturals plenty (some c) ≡ done (value t))
transpose-vstack_example =
    transpose-vstack naturals plenty wide wide wide-IsValid wide-IsValid refl (omega arith)
      (λ n. refl)
