-- ===== src/Matrix/Laws.antt =====
-- Products, transposes and stacks of matrices by src/abs_matrix.c together.
use native.Mathlib.Nat.{mul_comm}
use abscom.Prelude.{◌^◌, ◌<◌, ◌*◌, ℕ, ◌≡◌, inl, inr, sym, ap, ◌∙◌, Bool, true, some, arith}
use abscom.Prelude.Run.{Run, done}
use abscom.Matrix.Defs.{Arithmetic, Matrix, Answer, value}
use abscom.Matrix.Shaping.{matrix_mul, transpose}
use abscom.Matrix.Built.{IsValid, entry, IsMatrix, IsMatrix-unique, IsMatrix-entry, Built}
use abscom.Matrix.Shapes.{transpose-Built}
use abscom.Matrix.Product.{sum_to, sum_to_same, product_entry, matrix_mul-Built}

module _ {ℓ} {F : Type ℓ} (num : Arithmetic F) (grants : ℕ → Bool) where
  pub Built-value :
      (h w : ℕ) (v : ℕ → ℕ → F) (run : Run (Answer (Matrix F)))
      → grants (h * w) ≡ true
      → Built num grants h w v run
      → (m : Matrix F) × (run ≡ done (value m)) × IsMatrix num h w v m
  Built-value h w v run memory (inl (none_left, e)) = absurd cc
  Built-value h w v run memory (inr built) = built

  -- Other words for the shape and the entries.
  pub IsMatrix-entries :
      (h h' w w' : ℕ) (v v' : ℕ → ℕ → F) (m : Matrix F)
      → h ≡ h'
      → w ≡ w'
      → ((i j : ℕ) → i < h' → j < w' → v i j ≡ v' i j)
      → IsMatrix num h w v m
      → IsMatrix num h' w' v' m
  IsMatrix-entries h h' w w' v v' m tall wide same is = record {
    height = is.height ∙ tall;
    width = is.width ∙ wide;
    valid = is.valid;
    cells = λ i j lt lt'.
        is.cells i j (omega (arith, lt, tall)) (omega (arith, lt', wide)) ∙ same i j lt lt';
  }

  -- Where there is memory, transposing a matrix exchanges its rows and columns, and doing it twice returns an equal
  -- matrix.
  pub transpose-transpose :
      (m : Matrix F)
      → IsValid m
      → grants (m.cols * m.rows) ≡ true
      → grants (m.rows * m.cols) ≡ true
      → (t : Matrix F) × (transpose num grants (some m) ≡ done (value t))
        × IsMatrix num m.cols m.rows (λ i j. entry num m j i) t
        × (transpose num grants (some t) ≡ done (value m))
  transpose-transpose m valid memory memory' =
      let (t, run, is) =
        Built-value m.cols m.rows _ _ memory (transpose-Built num grants m valid) in
      let (back, run', is') =
        Built-value t.cols t.rows _ _ (rw (is.height, is.width) memory')
          (transpose-Built num grants t is.valid) in
      let same =
        IsMatrix-unique num back m m.rows m.cols (entry num m)
          (IsMatrix-entries t.cols m.rows t.rows m.cols _ (entry num m) back is.width is.height
            (λ i j lt lt'. is.cells j i lt' lt) is')
          (IsMatrix-entry num m valid) in
      (t, run, is, run' ∙ ap (λ x. done (value x)) same)

  product_entry_turned :
      (a b ta tb : Matrix F) (i j : ℕ)
      → a.cols ≡ b.rows
      → ((x y : F) → num.mul x y ≡ num.mul y x)
      → IsMatrix num a.cols a.rows (λ i j. entry num a j i) ta
      → IsMatrix num b.cols b.rows (λ i j. entry num b j i) tb
      → i < b.cols
      → j < a.rows
      → product_entry num tb ta i j ≡ product_entry num a b j i
  product_entry_turned a b ta tb i j fits commutes is_a is_b lt lt' =
      let turned : ℕ → F = λ k. num.mul (entry num tb i k) (entry num ta k j) in
      let straight : ℕ → F = λ k. num.mul (entry num a j k) (entry num b k i) in
      ap (sum_to num turned) (is_b.width ∙ sym fits)
      ∙ sum_to_same num turned straight a.cols (λ k inside.
        commutes (entry num tb i k) (entry num ta k j)
        ∙ ap (λ x. num.mul x (entry num tb i k)) (is_a.cells k j inside lt')
        ∙ ap (num.mul (entry num a j k)) (is_b.cells i k lt (omega (arith, inside, fits))))

  -- Where products of numbers do not depend on the order of their factors, the product has fewer than 2 ^ 31 entries and
  -- there is memory, the transpose of a product of valid matrices is the product of the transposes in the other order.
  pub transpose-matrix_mul :
      (a b : Matrix F)
      → IsValid a
      → IsValid b
      → a.cols ≡ b.rows
      → a.rows * b.cols < 2 ^ 31
      → ((x y : F) → num.mul x y ≡ num.mul y x)
      → ((n : ℕ) → grants n ≡ true)
      → (c ta tb t : Matrix F) × (matrix_mul num grants (some a) (some b) ≡ done (value c))
        × (transpose num grants (some a) ≡ done (value ta))
        × (transpose num grants (some b) ≡ done (value tb))
        × (matrix_mul num grants (some tb) (some ta) ≡ done (value t))
        × (transpose num grants (some c) ≡ done (value t))
  transpose-matrix_mul a b valid valid' fits small commutes memory =
      let (c, run_c, is_c) =
        Built-value a.rows b.cols _ _ (memory _)
          (matrix_mul-Built num grants a b valid valid' fits small) in
      let (ta, run_a, is_a) =
        Built-value a.cols a.rows _ _ (memory _) (transpose-Built num grants a valid) in
      let (tb, run_b, is_b) =
        Built-value b.cols b.rows _ _ (memory _) (transpose-Built num grants b valid') in
      let turned : tb.rows * ta.cols ≡ a.rows * b.cols =
        ap (λ x. x * ta.cols) is_b.height
        ∙ ap (λ x. b.cols * x) is_a.width
        ∙ mul_comm b.cols a.rows in
      let (t, run_t, is_t) = Built-value tb.rows ta.cols _ _ (memory _) (
        matrix_mul-Built num grants tb ta is_b.valid is_a.valid
          (is_b.width ∙ sym fits ∙ sym is_a.height) (omega (arith, small, turned))) in
      let (t', run_t', is_t') =
        Built-value c.cols c.rows _ _ (memory _) (transpose-Built num grants c is_c.valid) in
      let wanted : ℕ → ℕ → F = λ i j. product_entry num a b j i in
      let same =
        IsMatrix-unique num t' t b.cols a.rows wanted
          (IsMatrix-entries c.cols b.cols c.rows a.rows _ wanted t' is_c.width is_c.height
            (λ i j lt lt'. is_c.cells j i lt' lt) is_t')
          (IsMatrix-entries tb.rows b.cols ta.cols a.rows _ wanted t is_b.height is_a.width
            (λ i j lt lt'. product_entry_turned a b ta tb i j fits commutes is_a is_b lt lt')
            is_t) in
      (c, ta, tb, t, run_c, run_a, run_b, run_t, run_t' ∙ ap (λ x. done (value x)) same)
