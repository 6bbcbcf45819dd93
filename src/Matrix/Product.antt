-- ===== src/Matrix/Product.antt =====
-- abs_matrix_mul of src/abs_matrix.c.
use native.Mathlib.Nat.{zero-add}
use abscom.Matrix.Defs.{read_cell}
use abscom.Matrix.Cells.{write_cell-inside}
use abscom.Prelude.{
  ◌^◌, ◌<◌, ◌*◌, ℕ, zero, suc, ◌+◌, ◌≡◌, refl, ap, ◌∙◌, Bool, true, some, ◌==◌, arith,
}
use abscom.Prelude.Run.{done, ◌>>=◌}
use abscom.Matrix.Defs.{Arithmetic, Matrix}
use abscom.Matrix.Shaping.{dot_loop, mm_naive, matrix_mul}
use abscom.Matrix.Loops.{for_loop-Invariant}
use abscom.Matrix.Built.{IsValid, entry, Built}
use abscom.Matrix.Rows.{grid-Built}
use abscom.Matrix.Shapes.{read-entry}

module _ {ℓ} {F : Type ℓ} (num : Arithmetic F) where
  -- f 0 + f 1 + ... + f (n - 1), from the left.
  abbrev pub sum_to : (ℕ → F) → ℕ → F
  sum_to f zero = num.zero_f
  sum_to f (suc n) = num.add (sum_to f n) (f n)

  pub sum_to_same : (f g : ℕ → F) (n : ℕ) → ((k : ℕ) → k < n → f k ≡ g k) → sum_to f n ≡ sum_to g n
  sum_to_same f g zero same = refl
  sum_to_same f g (suc n) same =
      ap (λ x. num.add x (f n)) (sum_to_same f g n (λ k lt. same k (omega (arith, lt))))
      ∙ ap (num.add (sum_to g n)) (same n (omega arith))

  sum_to_next : (f : ℕ → F) (n : ℕ) → num.add (sum_to f n) (f n) ≡ sum_to f (n + 1)
  sum_to_next f n = let next : suc n ≡ n + 1 = omega arith in ap (sum_to f) next

  abbrev pub product_entry : Matrix F → Matrix F → ℕ → ℕ → F
  product_entry a b i j = sum_to (λ k. num.mul (entry num a i k) (entry num b k j)) a.cols

  dot_loop-sum_to :
      (a b : Matrix F) (i j : ℕ)
      → IsValid a
      → IsValid b
      → a.cols ≡ b.rows
      → i < a.rows
      → j < b.cols
      → dot_loop num a.entries b.entries b.cols a.cols i j ≡ done (product_entry a b i j)
  unfolding dot_loop
  dot_loop-sum_to a b i j valid valid' fits lt lt' =
      let term : ℕ → F = λ k. num.mul (entry num a i k) (entry num b k j) in
      let (sum, run, same) =
        for_loop-Invariant (λ k sum. sum ≡ sum_to term k) a.cols 0
          (λ k sum. read_cell a.entries i a.cols k >>= λ x.
            read_cell b.entries k b.cols j >>= λ y. done (num.add sum (num.mul x y)))
          num.zero_f
          (λ k sum from upto here. (
            num.add sum (term k),
            rw
                (
                  read-entry num a i k valid lt (omega (arith, upto)),
                  ◌>>=◌,
                  read-entry num b k j valid' (omega (arith, upto, fits)) lt',
                  ◌>>=◌,
                )
                refl,
            ap (λ x. num.add x (term k)) here ∙ sum_to_next term k,
          ))
          refl in
      run ∙ ap done (same ∙ rw zero-add refl)

module _ {ℓ} {F : Type ℓ} (num : Arithmetic F) (grants : ℕ → Bool) where
  pub matrix_mul-Built :
      (a b : Matrix F)
      → IsValid a
      → IsValid b
      → a.cols ≡ b.rows
      → a.rows * b.cols < 2 ^ 31
      → Built num grants a.rows b.cols
          (product_entry num a b)
          (matrix_mul num grants (some a) (some b))
  unfolding matrix_mul mm_naive
  matrix_mul-Built a b valid valid' fits small =
      let test : (a.cols == b.rows) ≡ true = ground (arith, fits) in
      rw (test) (
        grid-Built num grants a.rows b.cols (product_entry num a b) _ valid.some_rows
          valid'.some_cols small
          (λ i j items lt lt' same.
            rw (dot_loop-sum_to num a b i j valid valid' fits lt lt', ◌>>=◌)
              (write_cell-inside items a.rows b.cols i j (product_entry num a b i j) small lt lt')))
