-- ===== src/Matrix/Rows.antt =====
-- The loops of src/abs_matrix.c that write a matrix row by row.
use abscom.Prelude.{
  ℕ, ◌^◌, ◌+◌, ◌*◌, ◌<◌, ◌≡◌, ◌∙◌, Bool, List, length, replicate, length-replicate, arith,
}
use abscom.Prelude.Run.{Run, ◌>>=◌}
use abscom.Prelude.Int.{pos}
use abscom.Sort.Defs.{write}
use abscom.Sort.Inserting.{write_inside}
use abscom.Matrix.Defs.{int_mul, Arithmetic, for_loop, fill, matrix_new}
use abscom.Matrix.Loops.{for_loop-FilledTo}
use abscom.Matrix.Cells.{int_mul-inside, cell_inside, row_apart}
use abscom.Matrix.Grid.{for_loop-GridTo}
use abscom.Matrix.Built.{Built, fill-Built}

module _ {ℓ} {F : Type ℓ} (num : Arithmetic F) (grants : ℕ → Bool) where
  pub grid-Built :
      (h w : ℕ) (v : ℕ → ℕ → F) (body : ℕ → ℕ → List F → Run (List F))
      → 0 < h
      → 0 < w
      → h * w < 2 ^ 31
      → ((i j : ℕ) (items : List F)
          → i < h
          → j < w
          → length items ≡ h * w
          → body i j items ≡ write items (i * w + j) (v i j))
      → Built num grants h w v
          (fill (matrix_new num grants (pos h) (pos w)) (for_loop h 0 λ i. for_loop w 0 (body i)))
  grid-Built h w v body some_rows some_cols small writes =
      let blank = replicate (h * w) num.zero_f in
      let size : length blank ≡ h * w = length-replicate (h * w) num.zero_f in
      let (entries, run, grid) =
        for_loop-GridTo (λ i j. i * w + j) v h w body blank
          (λ i j lt lt'. omega (arith, size, cell_inside i h w j lt lt'))
          (λ i j k lt lt' e. absurd (omega (arith, e, lt)))
          (λ i j p q lt lt' inside inside' e.
            row_apart i p w j q (λ e'. absurd (omega (arith, e', lt))) inside inside' e)
          (λ i j items lt lt' same.
            writes i j items lt lt' (same ∙ size)
            ∙ write_inside items (i * w + j) (v i j)
                (omega (arith, same, size, cell_inside i h w j lt lt'))) in
      fill-Built num grants h w v _ some_rows some_cols small
        (entries, run, grid.size ∙ size, grid.cells)

  -- One loop over all the entries.
  pub flat-Built :
      (h w : ℕ) (v : ℕ → F) (body : ℕ → List F → Run (List F))
      → 0 < h
      → 0 < w
      → h * w < 2 ^ 31
      → ((p : ℕ) (items : List F)
          → p < h * w
          → length items ≡ h * w
          → body p items ≡ write items p (v p))
      → Built num grants h w
          (λ i j. v (i * w + j))
          (fill
            (matrix_new num grants (pos h) (pos w))
            (λ entries. int_mul h w >>= λ n. for_loop n 0 body entries))
  flat-Built h w v body some_rows some_cols small writes =
      let blank = replicate (h * w) num.zero_f in
      let size : length blank ≡ h * w = length-replicate (h * w) num.zero_f in
      let (entries, run, filled) =
        for_loop-FilledTo (λ p. p) v (h * w) body blank (λ p lt. omega (arith, size, lt))
          (λ p q lt lt' e. absurd (omega (arith, e, lt)))
          (λ p items lt same.
            writes p items lt (same ∙ size)
            ∙ write_inside items p (v p) (omega (arith, same, size, lt))) in
      fill-Built num grants h w (λ i j. v (i * w + j)) _ some_rows some_cols small
        (
          entries,
          rw (int_mul-inside h w small, ◌>>=◌) run,
          filled.size ∙ size,
          λ i j lt lt'. filled.new (i * w + j) (cell_inside i h w j lt lt'),
        )
