-- ===== src/Matrix/Grid.antt =====
-- The loops of src/abs_matrix.c over rows and columns.
use native.Mathlib.Nat.{zero-add}
use abscom.Prelude.{
  ℕ, ◌<◌, ◌≡◌, ◌≢◌, refl, ◌∙◌, some, List, length, set, get_elem?, arith, ℕ_discrete,
}
use abscom.Prelude.Run.{Run, done}
use abscom.Matrix.Defs.{for_loop}
use abscom.Matrix.Loops.{for_loop-Invariant, for_loop-FilledTo}

module _ {ℓ} {A : Type ℓ} where
  -- `v i j` is at `at i j`, for the first `h` rows.
  pub record GridTo (at : ℕ → ℕ → ℕ) (v : ℕ → ℕ → A) (h w n : ℕ) (items : List A) : Type ℓ where
    pub size : length items ≡ n
    pub cells : (i j : ℕ) → i < h → j < w → get_elem? items (at i j) ≡ some (v i j)

  -- Two loops, one in the other, that write each of the places `at i j`.
  pub for_loop-GridTo :
      (at : ℕ → ℕ → ℕ) (v : ℕ → ℕ → A) (h w : ℕ) (body : ℕ → ℕ → List A → Run (List A))
      (before : List A)
      → ((i j : ℕ) → i < h → j < w → at i j < length before)
      → ((i j k : ℕ) → j < k → k < w → at i j ≢ at i k)
      → ((i j p q : ℕ) → i < p → p < h → j < w → q < w → at i j ≢ at p q)
      → ((i j : ℕ) (items : List A)
          → i < h
          → j < w
          → length items ≡ length before
          → body i j items ≡ done (set items (at i j) (v i j)))
      → (after : List A) × (for_loop h 0 (λ i. for_loop w 0 (body i)) before ≡ done after)
        × GridTo at v h w (length before) after
  for_loop-GridTo at v h w body before inside apart row_apart writes = rw zero-add at (
      for_loop-Invariant (λ i items. GridTo at v i w (length before) items) h 0
        (λ i. for_loop w 0 (body i)) before
        (λ i items from upto grid.
          let here : i < h = omega (arith, upto) in
          let (items', run, filled) =
            for_loop-FilledTo (at i) (v i) w (body i) items
              (λ j lt. omega (arith, inside i j here lt, grid.size)) (apart i)
              (λ j these lt size. writes i j these here lt (size ∙ grid.size)) in
          (
            items',
            run,
            record {
              size = filled.size ∙ grid.size;
              cells = λ p j lt lt'. elim (ℕ_discrete p i) [
                | yes e ↦ rw (e) (filled.new j lt')
                | no ne ↦
                    let above_it : p < i = omega (arith, ne, lt) in
                    filled.old (at p j) (λ q lt''. row_apart p j i q above_it here lt' lt'')
                    ∙ grid.cells p j above_it lt'
              ];
            },
          ))
        (record { size = refl; cells = λ i j lt lt'. absurd (omega (arith, lt)) }))
