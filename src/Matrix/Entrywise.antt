-- ===== src/Matrix/Entrywise.antt =====
-- The operations of src/abs_matrix.c on one entry after the other.
use abscom.Prelude.{ℕ, ◌*◌, ◌≡◌, refl, ◌∙◌, Bool, true, ◌&&◌, some, length, ◌==◌, arith, get_or}
use abscom.Prelude.Run.{◌>>=◌}
use abscom.Matrix.Defs.{Arithmetic, Matrix, entrywise, each}
use abscom.Matrix.Cells.{read-get_or}
use abscom.Matrix.Built.{IsValid, entry, Built}
use abscom.Matrix.Rows.{flat-Built}

module _ {ℓ} {F : Type ℓ} (num : Arithmetic F) (grants : ℕ → Bool) where
  entrywise-Built :
      (op : F → F → F) (a b : Matrix F)
      → IsValid a
      → IsValid b
      → a.rows ≡ b.rows
      → a.cols ≡ b.cols
      → Built num grants a.rows a.cols
          (λ i j. op (entry num a i j) (entry num b i j))
          (entrywise num grants op (some a) (some b))
  unfolding entrywise
  entrywise-Built op a b valid valid' tall wide =
      let test : ((a.rows == b.rows) && (a.cols == b.cols)) ≡ true = ground (arith, tall, wide) in
      let size : length b.entries ≡ a.rows * a.cols = valid'.size ∙ rw (tall, wide) refl in
      rw (test, ← wide)
        (flat-Built num grants a.rows a.cols
          (λ p. op (get_or a.entries p num.zero_f) (get_or b.entries p num.zero_f)) _
          valid.some_rows valid.some_cols valid.small
          (λ p items lt same.
            rw
              (
                read-get_or a.entries p num.zero_f (omega (arith, lt, valid.size)),
                ◌>>=◌,
                read-get_or b.entries p num.zero_f (omega (arith, lt, size)),
                ◌>>=◌,
              )
              refl))

  each-Built :
      (f : F → F) (m : Matrix F)
      → IsValid m
      → Built num grants m.rows m.cols (λ i j. f (entry num m i j)) (each num grants f (some m))
  unfolding each
  each-Built f m valid =
      flat-Built num grants m.rows m.cols (λ p. f (get_or m.entries p num.zero_f)) _ valid.some_rows
        valid.some_cols valid.small
        (λ p items lt same.
          rw (read-get_or m.entries p num.zero_f (omega (arith, lt, valid.size)), ◌>>=◌) refl)
