-- ===== src/Matrix/Shapes.antt =====
-- abs_matrix_transpose, abs_matrix_reshape and abs_matrix_slice of src/abs_matrix.c.
use native.Mathlib.Nat.{mul_comm}
use abscom.Matrix.Defs.{read_cell, write_cell}
use abscom.Matrix.Cells.{read_cell-inside, write_cell-inside, mul_le_mul}
use abscom.Prelude.{
  ◌^◌, ◌<◌, ◌*◌, ℕ, ◌+◌, ◌-◌, ◌≤◌, ◌≡◌, ap, ◌∙◌, Bool, false, ◌||◌, not, some, length, replicate,
  length-replicate, arith, ℕ_discrete,
}
use abscom.Prelude.Run.{done, ◌>>=◌}
use abscom.Prelude.Int.{pos, ltb_ℤ}
use abscom.Sort.Inserting.{write_inside}
use abscom.Matrix.Defs.{Arithmetic, Matrix}
use abscom.Matrix.Shaping.{transpose, slice}
use abscom.Matrix.Cells.{rows_before, cell_inside, row_apart, read-get_or}
use abscom.Matrix.Grid.{for_loop-GridTo}
use abscom.Matrix.Rows.{grid-Built}
use abscom.Matrix.Built.{IsValid, entry, Built, fill-Built}

module _ {ℓ} {F : Type ℓ} (num : Arithmetic F) where
  -- An entry that is inside is read.
  pub read-entry :
      (m : Matrix F) (i j : ℕ)
      → IsValid m
      → i < m.rows
      → j < m.cols
      → read_cell m.entries i m.cols j ≡ done (entry num m i j)
  read-entry m i j valid lt lt' =
      read_cell-inside m.entries m.rows m.cols i j valid.small lt lt'
      ∙ read-get_or m.entries (i * m.cols + j) num.zero_f
          (omega (arith, valid.size, cell_inside i m.rows m.cols j lt lt'))

module _ {ℓ} {F : Type ℓ} (num : Arithmetic F) (grants : ℕ → Bool) where
  pub transpose-Built :
      (m : Matrix F)
      → IsValid m
      → Built num grants m.cols m.rows (λ i j. entry num m j i) (transpose num grants (some m))
  unfolding transpose
  transpose-Built m valid =
      let small : m.cols * m.rows < 2 ^ 31 = rw mul_comm valid.small in
      let blank = replicate (m.cols * m.rows) num.zero_f in
      let size : length blank ≡ m.cols * m.rows = length-replicate (m.cols * m.rows) num.zero_f in
      let (entries, run, grid) =
        for_loop-GridTo (λ i j. j * m.rows + i) (entry num m) m.rows m.cols
          (λ i j items. read_cell m.entries i m.cols j >>= λ x. write_cell items j m.rows i x) blank
          (λ i j lt lt'. omega (arith, size, cell_inside j m.cols m.rows i lt' lt))
          (λ i j k lt lt' e. absurd (omega (arith, e, rows_before j k m.rows lt, valid.some_rows)))
          (λ i j p q lt lt' inside inside' e. elim (ℕ_discrete j q) [
            | yes e' ↦ absurd (omega (arith, e, lt, ap (λ x. x * m.rows) e'))
            | no ne ↦ row_apart j q m.rows i p ne (omega (arith, lt, lt')) lt' e
          ])
          (λ i j items lt lt' same.
            rw (read-entry num m i j valid lt lt', ◌>>=◌)
              (write_cell-inside items m.cols m.rows j i (entry num m i j) small lt' lt
                ∙ write_inside items (j * m.rows + i) (entry num m i j)
                    (omega (arith, same, size, cell_inside j m.cols m.rows i lt' lt)))) in
      fill-Built num grants m.cols m.rows (λ i j. entry num m j i) _ valid.some_cols valid.some_rows
        small (entries, run, grid.size ∙ size, λ i j lt lt'. grid.cells j i lt' lt)

  slice-Built :
      (m : Matrix F) (r0 r1 c0 c1 : ℕ)
      → IsValid m
      → r0 < r1
      → r1 ≤ m.rows
      → c0 < c1
      → c1 ≤ m.cols
      → Built num grants
          (r1 - r0)
          (c1 - c0)
          (λ i j. entry num m (r0 + i) (c0 + j))
          (slice num grants (some m) (pos r0) (pos r1) (pos c0) (pos c1))
  unfolding slice
  slice-Built m r0 r1 c0 c1 valid some_rows inside some_cols inside' =
      let small : (r1 - r0) * (c1 - c0) < 2 ^ 31 = omega (
        arith,
        valid.small,
        mul_le_mul (r1 - r0) m.rows (c1 - c0) m.cols (omega arith) (omega arith),
      ) in
      let guards : (ltb_ℤ (pos r0) (pos 0)
            || (ltb_ℤ (pos c0) (pos 0)
                || (ltb_ℤ (pos m.rows) (pos r1)
                    || (ltb_ℤ (pos m.cols) (pos c1)
                        || (not (ltb_ℤ (pos r0) (pos r1)) || not (ltb_ℤ (pos c0) (pos c1)))))))
          ≡ false =
        ground arith in
      rw (guards) (
        grid-Built num grants (r1 - r0) (c1 - c0) (λ i j. entry num m (r0 + i) (c0 + j)) _
          (omega arith) (omega arith) small
          (λ i j items lt lt' same.
            rw
              (
                read-entry num m (r0 + i) (c0 + j) valid (omega (arith, lt)) (omega (arith, lt')),
                ◌>>=◌,
              )
              (write_cell-inside items (r1 - r0) (c1 - c0) i j (entry num m (r0 + i) (c0 + j)) small
                lt lt')))
