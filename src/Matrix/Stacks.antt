-- ===== src/Matrix/Stacks.antt =====
-- abs_matrix_vstack, abs_matrix_hstack and abs_matrix_reshape of src/abs_matrix.c.
use native.Mathlib.Nat.{zero-add, add-mul}
use abscom.Matrix.Cells.{mul_le_mul, rows-le, int_add-inside}
use abscom.Prelude.{
  ◌^◌, ◌<◌, ◌*◌, ℕ, ◌+◌, ◌-◌, ◌≤◌, ◌≡◌, refl, sym, ap, ◌∙◌, Bool, true, false, some, List, length,
  replicate, length-replicate, get_elem?, ltb, ◌==◌, if◌then◌else◌, arith, dec_lt, ℕ_discrete,
}
use abscom.Prelude.Run.{done, ◌>>=◌}
use abscom.Matrix.Defs.{Arithmetic, Matrix, range, mem_copy}
use abscom.Matrix.Shaping.{vstack, hstack}
use abscom.Matrix.Loops.{for_loop-Invariant}
use abscom.Matrix.Cells.{cell_inside, rows_before}
use abscom.Matrix.Grid.{GridTo}
use abscom.Matrix.Copying.{get_elem?_is, range-inside, mem_copy-Copied}
use abscom.Matrix.Built.{IsValid, entry, Built, fill-Built}

module _ {ℓ} {F : Type ℓ} (num : Arithmetic F) where
  -- The place of an entry holds it.
  entry_at :
      (m : Matrix F) (i j : ℕ)
      → IsValid m
      → i < m.rows
      → j < m.cols
      → get_elem? m.entries (i * m.cols + j) ≡ some (entry num m i j)
  entry_at m i j valid lt lt' =
      get_elem?_is m.entries (i * m.cols + j) num.zero_f
        (omega (arith, valid.size, cell_inside i m.rows m.cols j lt lt'))

  -- The entries of the one above those of the other.
  abbrev pub stacked : Matrix F → Matrix F → ℕ → ℕ → F
  stacked a b i j = if ltb i a.rows then entry num a i j else entry num b (i - a.rows) j

  -- The entries of the one left of those of the other.
  abbrev pub beside : Matrix F → Matrix F → ℕ → ℕ → F
  beside a b i j = if ltb j a.cols then entry num a i j else entry num b i (j - a.cols)

module _ {ℓ} {F : Type ℓ} (num : Arithmetic F) (grants : ℕ → Bool) where
  pub vstack-Built :
      (a b : Matrix F)
      → IsValid a
      → IsValid b
      → a.cols ≡ b.cols
      → (a.rows + b.rows) * a.cols < 2 ^ 31
      → Built num grants
          (a.rows + b.rows)
          a.cols
          (stacked num a b)
          (vstack num grants (some a) (some b))
  unfolding vstack
  vstack-Built a b valid valid' fits small =
      let test : (a.cols == b.cols) ≡ true = ground (arith, fits) in
      let total = (a.rows + b.rows) * a.cols in
      let blank = replicate total num.zero_f in
      let size : length blank ≡ total = length-replicate total num.zero_f in
      let sum : total ≡ a.rows * a.cols + b.rows * a.cols = add-mul a.rows b.rows a.cols in
      let size_b : length b.entries ≡ b.rows * a.cols =
        valid'.size ∙ ap (λ w. b.rows * w) (sym fits) in
      let (upper, run_u, size_u, is_u) =
        range-inside a.entries 0 (a.rows * a.cols) (omega (arith, valid.size)) in
      let (half, run_h, half_is) =
        mem_copy-Copied blank 0 upper (omega (arith, size, sum, size_u)) in
      let (lower, run_l, size_l, is_l) =
        range-inside b.entries 0 (b.rows * a.cols) (omega (arith, size_b)) in
      let (whole, run_w, whole_is) =
        mem_copy-Copied half (a.rows * a.cols) lower
          (omega (arith, half_is.size, size, sum, size_l)) in
      let rows_small : a.rows + b.rows < 2 ^ 31 =
        omega (arith, small, rows-le (a.rows + b.rows) a.cols valid.some_cols) in
      rw (test, int_add-inside a.rows b.rows rows_small, ◌>>=◌)
        (fill-Built num grants (a.rows + b.rows) a.cols (stacked num a b) _
          (omega (arith, valid.some_rows)) valid.some_cols small
          (
            whole,
            rw (run_u, ◌>>=◌, run_h, ◌>>=◌, run_l, ◌>>=◌) run_w,
            whole_is.size ∙ half_is.size ∙ size,
            λ i j lt lt'. elim (dec_lt i a.rows) [
              | yes above_it ↦
                  let here = cell_inside i a.rows a.cols j above_it lt' in
                  let test' : ltb i a.rows ≡ true = ground (arith, above_it) in
                  whole_is.front (i * a.cols + j) here
                  ∙ ap (get_elem? half) (sym (zero-add (i * a.cols + j)))
                  ∙ half_is.inside (i * a.cols + j) (omega (arith, here, size_u))
                  ∙ is_u (i * a.cols + j) here
                  ∙ ap (get_elem? a.entries) (zero-add (i * a.cols + j))
                  ∙ entry_at num a i j valid above_it lt'
                  ∙ rw (test') refl
              | no under ↦
                  let test' : ltb i a.rows ≡ false = ground (arith, under) in
                  let k = (i - a.rows) * a.cols + j in
                  let under_it : i - a.rows < b.rows = omega (arith, lt, under) in
                  let here : k < b.rows * a.cols =
                    cell_inside (i - a.rows) b.rows a.cols j under_it lt' in
                  let rows : i ≡ a.rows + (i - a.rows) = omega (arith, under) in
                  let split : (a.rows + (i - a.rows)) * a.cols
                      ≡ a.rows * a.cols + (i - a.rows) * a.cols =
                    add-mul a.rows (i - a.rows) a.cols in
                  let place : i * a.cols + j ≡ a.rows * a.cols + k =
                    ap (λ x. x * a.cols + j) rows ∙ omega (arith, split) in
                  ap (get_elem? whole) place
                  ∙ whole_is.inside k (omega (arith, here, size_l))
                  ∙ is_l k here
                  ∙ ap (get_elem? b.entries) (zero-add k)
                  ∙ ap (λ w. get_elem? b.entries ((i - a.rows) * w + j)) fits
                  ∙ entry_at num b (i - a.rows) j valid' under_it (omega (arith, lt', fits))
                  ∙ rw (test') refl
            ],
          ))

  -- One row of both, behind the rows that are there.
  hstack_row :
      (a b : Matrix F)
      → IsValid a
      → IsValid b
      → a.rows ≡ b.rows
      → (r : ℕ) (items : List F) → r < a.rows
      → let w = a.cols + b.cols in
        GridTo (λ i j. i * w + j) (beside num a b) r w (a.rows * w) items
        → (items' : List F) × ((range a.entries (r * a.cols) a.cols >>= λ left.
              mem_copy items (r * w) left >>= λ entries'.
              range b.entries (r * b.cols) b.cols >>= λ right.
              mem_copy entries' (r * w + a.cols) right)
            ≡ done items')
          × GridTo (λ i j. i * w + j) (beside num a b) (r + 1) w (a.rows * w) items'
  hstack_row a b valid valid' fits r items here grid =
      let w = a.cols + b.cols in
      let row_end : r * w + w ≤ a.rows * w = rows_before r a.rows w here in
      let (left, run_l, size_l, is_l) =
        range-inside a.entries (r * a.cols) a.cols
          (omega (arith, valid.size, rows_before r a.rows a.cols here)) in
      let (half, run_h, half_is) =
        mem_copy-Copied items (r * w) left (omega (arith, grid.size, size_l, row_end)) in
      let (right, run_r, size_r, is_r) =
        range-inside b.entries (r * b.cols) b.cols
          (omega (arith, valid'.size, rows_before r b.rows b.cols (omega (arith, here, fits)))) in
      let (whole, run_w, whole_is) =
        mem_copy-Copied half (r * w + a.cols) right
          (omega (arith, half_is.size, grid.size, size_r, row_end)) in
      (
        whole,
        rw (run_l, ◌>>=◌, run_h, ◌>>=◌, run_r, ◌>>=◌) run_w,
        record {
          size = whole_is.size ∙ half_is.size ∙ grid.size;
          cells = λ i j lt lt'. elim (ℕ_discrete i r) [
            | yes e ↦ rw (e) (elim (dec_lt j a.cols) [
              | yes before ↦
                  let test : ltb j a.cols ≡ true = ground (arith, before) in
                  whole_is.front (r * w + j) (omega (arith, before))
                  ∙ half_is.inside j (omega (arith, before, size_l))
                  ∙ is_l j before
                  ∙ entry_at num a r j valid here before
                  ∙ rw (test) refl
              | no after ↦
                  let test : ltb j a.cols ≡ false = ground (arith, after) in
                  let inside : j - a.cols < b.cols = omega (arith, after, lt') in
                  let place : r * w + j ≡ (r * w + a.cols) + (j - a.cols) = omega (arith, after) in
                  ap (get_elem? whole) place
                  ∙ whole_is.inside (j - a.cols) (omega (arith, inside, size_r))
                  ∙ is_r (j - a.cols) inside
                  ∙ entry_at num b r (j - a.cols) valid' (omega (arith, here, fits)) inside
                  ∙ rw (test) refl
            ])
            | no ne ↦
                let earlier : i < r = omega (arith, lt, ne) in
                let before : i * w + j < r * w = cell_inside i r w j earlier lt' in
                whole_is.front (i * w + j) (omega (arith, before))
                ∙ half_is.front (i * w + j) before
                ∙ grid.cells i j earlier lt'
          ];
        },
      )

  pub hstack-Built :
      (a b : Matrix F)
      → IsValid a
      → IsValid b
      → a.rows ≡ b.rows
      → a.rows * (a.cols + b.cols) < 2 ^ 31
      → Built num grants a.rows
          (a.cols + b.cols)
          (beside num a b)
          (hstack num grants (some a) (some b))
  unfolding hstack
  hstack-Built a b valid valid' fits small =
      let test : (a.rows == b.rows) ≡ true = ground (arith, fits) in
      let w = a.cols + b.cols in
      let blank = replicate (a.rows * w) num.zero_f in
      let size : length blank ≡ a.rows * w = length-replicate (a.rows * w) num.zero_f in
      let (whole, run, grid) =
        for_loop-Invariant
          (λ r items. GridTo (λ i j. i * w + j) (beside num a b) r w (a.rows * w) items) a.rows 0
          (λ i entries. range a.entries (i * a.cols) a.cols >>= λ left.
            mem_copy entries (i * w) left >>= λ entries'.
            range b.entries (i * b.cols) b.cols >>= λ right.
            mem_copy entries' (i * w + a.cols) right)
          blank
          (λ r items from upto grid.
            hstack_row a b valid valid' fits r items (omega (arith, upto)) grid)
          (record { size = size; cells = λ i j lt lt'. absurd (omega (arith, lt)) }) in
      let cols_small : w < 2 ^ 31 =
        omega (arith, small, mul_le_mul 1 a.rows w w valid.some_rows (omega arith)) in
      rw (test, int_add-inside a.cols b.cols cols_small, ◌>>=◌)
        (fill-Built num grants a.rows w (beside num a b) _ valid.some_rows
          (omega (arith, valid.some_cols)) small
          (whole, run, grid.size, λ i j lt lt'. grid.cells i j (omega (arith, lt)) lt'))
