-- ===== src/Matrix/Shaping.antt =====
-- The other operations of src/abs_matrix.c: entries, products, shapes, and what is computed of all entries.
use abscom.Prelude.{
  ℕ, ◌+◌, ◌-◌, ◌*◌, Bool, true, false, ◌&&◌, ◌||◌, not, Option, none, some, List, ◌==◌,
  if◌then◌else◌, codes,
}
use abscom.Prelude.Run.{Run, done, ◌>>=◌}
use abscom.Prelude.Int.{ℤ, pos, negsuc, pos_part, ltb_ℤ}
use abscom.Sort.Defs.{read}
use abscom.Matrix.Defs.{
  Arithmetic, Matrix, Answer, value, error, for_loop, int_mul, int_add, read_cell, write_cell,
  not_a_matrix, positive, range, mem_copy, matrix_new, fill, copy,
}

abbrev within : ℤ → ℕ → Bool
within i n = not (ltb_ℤ i (pos 0)) && ltb_ℤ i (pos n)

module _ {ℓ} {F : Type ℓ} (num : Arithmetic F) where
  unfoldable pub matrix_get : Option (Matrix F) → ℤ → ℤ → Run F
  unfolding read_cell
  matrix_get none r c = done num.zero_f
  matrix_get (some m) r c =
      if within r m.rows && within c m.cols
      then read_cell m.entries (pos_part r) m.cols (pos_part c)
      else done num.zero_f

  unfoldable pub matrix_set : Option (Matrix F) → ℤ → ℤ → F → Run (Option (Matrix F))
  unfolding write_cell
  matrix_set none r c v = done none
  matrix_set (some m) r c v =
      if within r m.rows && within c m.cols
      then (do
        entries ← write_cell m.entries (pos_part r) m.cols (pos_part c) v
        done (some (record m { entries = entries })))
      else done (some m)

  -- The sum of `common` products, for the entry of row `i` and column `j`.
  unfoldable pub dot_loop : List F → List F → ℕ → ℕ → ℕ → ℕ → Run F
  unfolding for_loop read_cell
  dot_loop a b cols common i j =
      for_loop common 0
        (λ k sum. do
          x ← read_cell a i common k
          y ← read_cell b k cols j
          done (num.add sum (num.mul x y)))
        num.zero_f

  unfoldable pub mm_naive : List F → List F → ℕ → ℕ → ℕ → List F → Run (List F)
  unfolding for_loop dot_loop write_cell
  mm_naive a b rows cols common = for_loop rows 0 λ i.
      for_loop cols 0
        λ j entries. do sum ← dot_loop a b cols common i j; write_cell entries i cols j sum

  unfoldable pub row_vector_loop : ℕ → ℕ → List F → List F → Run (List F)
  unfolding for_loop read read_cell write_cell
  row_vector_loop rows cols v = for_loop rows 0 λ i. for_loop cols 0 λ j entries. do
    x ← read_cell entries i cols j
    y ← read v j
    write_cell entries i cols j (num.add x y)

  unfoldable pub add_row_vector : Option (Matrix F) → Option (Matrix F) → Run (Option (Matrix F))
  unfolding row_vector_loop
  add_row_vector (some m) (some v) =
      if (v.rows == 1) && (m.cols == v.cols)
      then (do
        entries ← row_vector_loop m.rows m.cols v.entries m.entries
        done (some (record m { entries = entries })))
      else done (some m)
  add_row_vector (some m) none = done (some m)
  add_row_vector none v = done none

  -- The place of the first greatest entry, and that entry. -1 is no matrix.
  unfoldable pub argmax : Option (Matrix F) → Run ℤ
  unfolding int_mul for_loop read
  argmax none = done (negsuc 0)
  argmax (some m) = do
    n ← int_mul m.rows m.cols
    first ← read m.entries 0
    best ←
        for_loop (n - 1) 1
          (λ i (best : ℕ × F). do
            x ← read m.entries i
            done (if num.less best.1 x then (i, x) else best))
          (0, first)
    done (pos best.0)

module _ {ℓ} {F : Type ℓ} (num : Arithmetic F) (grants : ℕ → Bool) where
  unfoldable pub matrix_mul : Option (Matrix F) → Option (Matrix F) → Run (Answer (Matrix F))
  unfolding matrix_new mm_naive
  matrix_mul (some a) (some b) =
      if not (a.cols == b.rows)
      then done (error (codes "Dimension mismatch"))
      else fill (matrix_new num grants (pos a.rows) (pos b.cols))
          (mm_naive num a.entries b.entries a.rows b.cols a.cols)
  matrix_mul (some a) none = done (error not_a_matrix)
  matrix_mul none b = done (error not_a_matrix)

  unfoldable pub transpose : Option (Matrix F) → Run (Answer (Matrix F))
  unfolding matrix_new for_loop read_cell write_cell
  transpose (some m) = fill (matrix_new num grants (pos m.cols) (pos m.rows)) (
      for_loop m.rows 0 λ i.
        for_loop m.cols 0
          λ j entries. do x ← read_cell m.entries i m.cols j; write_cell entries j m.rows i x)
  transpose none = done (error not_a_matrix)

  abbrev reshaped : ℕ → ℕ → Answer (Matrix F) → Answer (Matrix F)
  reshaped rows cols (error e) = error e
  reshaped rows cols (value r) = value (record r { rows = rows; cols = cols })

  -- with whether the number of entries is the same
  unfoldable pub reshape_to : Matrix F → ℕ → ℕ → Bool → Run (Answer (Matrix F))
  unfolding copy
  reshape_to m rows cols true = do r ← copy num grants (some m); done (reshaped rows cols r)
  reshape_to m rows cols false = done (error (codes "Cannot reshape array of given size"))

  unfoldable pub reshape : Option (Matrix F) → ℤ → ℤ → Run (Answer (Matrix F))
  unfolding int_mul reshape_to
  reshape none rows cols = done (error not_a_matrix)
  reshape (some m) rows cols =
      if positive rows && positive cols
      then (do
        wanted ← int_mul (pos_part rows) (pos_part cols)
        there ← int_mul m.rows m.cols
        reshape_to m (pos_part rows) (pos_part cols) (wanted == there))
      else done (error (codes "Invalid reshape dimensions"))

  unfoldable pub flatten : Option (Matrix F) → Run (Answer (Matrix F))
  unfolding int_mul reshape
  flatten none = done (error not_a_matrix)
  flatten (some m) = do n ← int_mul m.rows m.cols; reshape (some m) (pos 1) (pos n)

  -- Here `i` and `j` count from r0 and c0.
  unfoldable pub slice : Option (Matrix F) → ℤ → ℤ → ℤ → ℤ → Run (Answer (Matrix F))
  unfolding matrix_new for_loop read_cell write_cell
  slice none r0 r1 c0 c1 = done (error not_a_matrix)
  slice (some m) r0 r1 c0 c1 =
      if ltb_ℤ r0 (pos 0)
        || (ltb_ℤ c0 (pos 0)
            || (ltb_ℤ (pos m.rows) r1
                || (ltb_ℤ (pos m.cols) c1 || (not (ltb_ℤ r0 r1) || not (ltb_ℤ c0 c1)))))
      then done (error (codes "Slice out of bounds"))
      else (let width = pos_part c1 - pos_part c0 in
          let height = pos_part r1 - pos_part r0 in
          fill (matrix_new num grants (pos height) (pos width)) (
            for_loop height 0 λ i. for_loop width 0 λ j entries. do
              x ← read_cell m.entries (pos_part r0 + i) m.cols (pos_part c0 + j)
              write_cell entries i width j x))

  unfoldable pub vstack : Option (Matrix F) → Option (Matrix F) → Run (Answer (Matrix F))
  unfolding matrix_new int_add range mem_copy
  vstack (some a) (some b) =
      if not (a.cols == b.cols) then done (error (codes "Column mismatch")) else (do
        rows ← int_add a.rows b.rows
        fill (matrix_new num grants (pos rows) (pos a.cols)) λ entries. do
          upper ← range a.entries 0 (a.rows * a.cols)
          entries' ← mem_copy entries 0 upper
          lower ← range b.entries 0 (b.rows * a.cols)
          mem_copy entries' (a.rows * a.cols) lower)
  vstack (some a) none = done (error not_a_matrix)
  vstack none b = done (error not_a_matrix)

  unfoldable pub hstack : Option (Matrix F) → Option (Matrix F) → Run (Answer (Matrix F))
  unfolding matrix_new int_add for_loop range mem_copy
  hstack (some a) (some b) =
      if not (a.rows == b.rows) then done (error (codes "Row mismatch")) else (do
        cols ← int_add a.cols b.cols
        fill (matrix_new num grants (pos a.rows) (pos cols)) (
            for_loop a.rows 0 λ i entries. do
              left ← range a.entries (i * a.cols) a.cols
              entries' ← mem_copy entries (i * cols) left
              right ← range b.entries (i * b.cols) b.cols
              mem_copy entries' (i * cols + a.cols) right))
  hstack (some a) none = done (error not_a_matrix)
  hstack none b = done (error not_a_matrix)
