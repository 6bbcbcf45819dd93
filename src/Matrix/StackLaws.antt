-- ===== src/Matrix/StackLaws.antt =====
-- Stacks and transposes of matrices by src/abs_matrix.c together.
use native.Mathlib.Nat.{mul_comm}
use abscom.Prelude.{
  ◌^◌, ◌<◌, ◌*◌, ℕ, ◌+◌, ◌-◌, ◌≡◌, sym, ap, ◌∙◌, Bool, true, Bool-cases, inl, inr, some, ltb,
  ltb→lt, arith,
}
use abscom.Prelude.Run.{done}
use abscom.Matrix.Defs.{Arithmetic, Matrix, value}
use abscom.Matrix.Shaping.{vstack, hstack, transpose}
use abscom.Matrix.Built.{IsValid, entry, IsMatrix, IsMatrix-unique}
use abscom.Matrix.Shapes.{transpose-Built}
use abscom.Matrix.Stacks.{stacked, beside, vstack-Built, hstack-Built}
use abscom.Matrix.Laws.{Built-value, IsMatrix-entries}

module _ {ℓ} {F : Type ℓ} (num : Arithmetic F) (grants : ℕ → Bool) where
  beside_turned :
      (a b ta tb : Matrix F) (i j : ℕ)
      → a.cols ≡ b.cols
      → IsMatrix num a.cols a.rows (λ i j. entry num a j i) ta
      → IsMatrix num b.cols b.rows (λ i j. entry num b j i) tb
      → i < a.cols
      → j < a.rows + b.rows
      → beside num ta tb i j ≡ stacked num a b j i
  beside_turned a b ta tb i j fits is_a is_b lt lt' =
      let tests : ltb j ta.cols ≡ ltb j a.rows = ap (ltb j) is_a.width in
      elim (Bool-cases (ltb j a.rows)) [
        | inl e ↦ let e' = tests ∙ e in rw (e', e) (is_a.cells i j lt (ltb→lt j a.rows e))
        | inr e ↦
            let e' = tests ∙ e in
            let after : j - a.rows < b.rows = ground (arith, e, lt') in
            rw (e', e)
              (ap (λ w. entry num tb i (j - w)) is_a.width
                ∙ is_b.cells i (j - a.rows) (omega (arith, lt, fits)) after)
      ]

  -- Where the result has fewer than 2 ^ 31 entries and there is memory, the transpose of one valid matrix above another of
  -- as many columns is the transpose of the one left of the transpose of the other.
  pub transpose-vstack :
      (a b : Matrix F)
      → IsValid a
      → IsValid b
      → a.cols ≡ b.cols
      → (a.rows + b.rows) * a.cols < 2 ^ 31
      → ((n : ℕ) → grants n ≡ true)
      → (c ta tb t : Matrix F) × (vstack num grants (some a) (some b) ≡ done (value c))
        × (transpose num grants (some a) ≡ done (value ta))
        × (transpose num grants (some b) ≡ done (value tb))
        × (hstack num grants (some ta) (some tb) ≡ done (value t))
        × (transpose num grants (some c) ≡ done (value t))
  transpose-vstack a b valid valid' fits small memory =
      let (c, run_c, is_c) =
        Built-value num grants (a.rows + b.rows) a.cols _ _ (memory _)
          (vstack-Built num grants a b valid valid' fits small) in
      let (ta, run_a, is_a) =
        Built-value num grants a.cols a.rows _ _ (memory _) (transpose-Built num grants a valid) in
      let (tb, run_b, is_b) =
        Built-value num grants b.cols b.rows _ _ (memory _) (transpose-Built num grants b valid') in
      let both : ta.cols + tb.cols ≡ a.rows + b.rows = omega (arith, is_a.width, is_b.width) in
      let turned : ta.rows * (ta.cols + tb.cols) ≡ (a.rows + b.rows) * a.cols =
        ap (λ x. x * (ta.cols + tb.cols)) is_a.height
        ∙ ap (λ x. a.cols * x) both
        ∙ mul_comm a.cols (a.rows + b.rows) in
      let (t, run_t, is_t) = Built-value num grants ta.rows (ta.cols + tb.cols) _ _ (memory _) (
        hstack-Built num grants ta tb is_a.valid is_b.valid (is_a.height ∙ fits ∙ sym is_b.height)
          (omega (arith, small, turned))) in
      let (t', run_t', is_t') =
        Built-value num grants c.cols c.rows _ _ (memory _)
          (transpose-Built num grants c is_c.valid) in
      let wanted : ℕ → ℕ → F = λ i j. stacked num a b j i in
      let same =
        IsMatrix-unique num t' t a.cols (a.rows + b.rows) wanted
          (IsMatrix-entries num grants c.cols a.cols c.rows (a.rows + b.rows) _ wanted t' is_c.width
            is_c.height (λ i j lt lt'. is_c.cells j i lt' lt) is_t')
          (IsMatrix-entries num grants ta.rows a.cols (ta.cols + tb.cols) (a.rows + b.rows) _ wanted
            t is_a.height (omega (arith, is_a.width, is_b.width))
            (λ i j lt lt'. beside_turned a b ta tb i j fits is_a is_b lt lt') is_t) in
      (c, ta, tb, t, run_c, run_a, run_b, run_t, run_t' ∙ ap (λ x. done (value x)) same)
