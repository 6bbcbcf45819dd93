-- ===== src/Matrix/Built.antt =====
-- What the functions of src/abs_matrix.c that make a matrix return.
use abscom.Prelude.{
  ℕ, ◌^◌, ◌+◌, ◌*◌, ◌<◌, ◌≡◌, ◌⊎◌, inl, inr, refl, sym, ◌∙◌, Bool, true, false, Bool-cases, some,
  List, length, replicate, get_elem?, get_or, arith,
}
use abscom.Prelude.Run.{Run, done}
use abscom.Prelude.Int.{pos}
use abscom.Matrix.Defs.{
  Arithmetic, Matrix, Answer, value, error, out_of_memory, matrix_new, fill, positive,
}
use abscom.Matrix.Cells.{cell_of, get_or_of, items_same}

pub record IsValid {ℓ} {F : Type ℓ} (m : Matrix F) : Type ℓ where
  pub some_rows : 0 < m.rows
  pub some_cols : 0 < m.cols
  pub size : length m.entries ≡ m.rows * m.cols
  -- so that its indices are of type `int`
  pub small : m.rows * m.cols < 2 ^ 31

module _ {ℓ} {F : Type ℓ} (num : Arithmetic F) where
  abbrev pub entry : Matrix F → ℕ → ℕ → F
  entry m i j = get_or m.entries (i * m.cols + j) num.zero_f

  -- A matrix of `h` rows and `w` columns with the entries `v i j`.
  pub record IsMatrix (h w : ℕ) (v : ℕ → ℕ → F) (m : Matrix F) : Type ℓ where
    pub height : m.rows ≡ h
    pub width : m.cols ≡ w
    pub valid : IsValid m
    pub cells : (i j : ℕ) → i < h → j < w → entry m i j ≡ v i j

  -- A matrix is given by its shape and its entries.
  pub IsMatrix-unique :
      (m m' : Matrix F) (h w : ℕ) (v : ℕ → ℕ → F) → IsMatrix h w v m → IsMatrix h w v m' → m ≡ m'
  IsMatrix-unique m m' h w v is is' =
      let size : length m.entries ≡ h * w = rw (is.height, is.width) at is.valid.size in
      let size' : length m'.entries ≡ h * w = rw (is'.height, is'.width) at is'.valid.size in
      let entries : m.entries ≡ m'.entries =
        items_same m.entries m'.entries num.zero_f (size ∙ sym size') (λ p lt.
          let (i, j, inside, inside', place) = cell_of p h w (omega (arith, lt, size)) in
          let here : get_or m.entries (i * w + j) num.zero_f ≡ v i j =
            rw is.width at (is.cells i j inside inside') in
          let here' : get_or m'.entries (i * w + j) num.zero_f ≡ v i j =
            rw is'.width at (is'.cells i j inside inside') in
          rw place at (here ∙ sym here')) in
      rw (is.height, is.width, is'.height, is'.width, entries) refl

  -- A matrix with its own entries.
  pub IsMatrix-entry : (m : Matrix F) → IsValid m → IsMatrix m.rows m.cols (entry m) m
  IsMatrix-entry m valid = record {
    height = refl;
    width = refl;
    valid = valid;
    cells = λ i j lt lt'. refl;
  }

module _ {ℓ} {F : Type ℓ} (num : Arithmetic F) (grants : ℕ → Bool) where
  -- There is no memory for h * w numbers, or the function returns such a matrix.
  abbrev pub Built : ℕ → ℕ → (ℕ → ℕ → F) → Run (Answer (Matrix F)) → Type ℓ
  Built h w v run =
      ((grants (h * w) ≡ false) × (run ≡ done (error out_of_memory)))
      ⊎ ((m : Matrix F) × (run ≡ done (value m)) × IsMatrix num h w v m)

  pub fill-Built :
      (h w : ℕ) (v : ℕ → ℕ → F) (loop : List F → Run (List F))
      → 0 < h
      → 0 < w
      → h * w < 2 ^ 31
      → (entries : List F) × (loop (replicate (h * w) num.zero_f) ≡ done entries)
        × (length entries ≡ h * w)
        × ((i j : ℕ) → i < h → j < w → get_elem? entries (i * w + j) ≡ some (v i j))
      → Built h w v (fill (matrix_new num grants (pos h) (pos w)) loop)
  unfolding matrix_new
  fill-Built h w v loop some_rows some_cols small (entries, run, size, cells) =
      let tall : positive (pos h) ≡ true = ground arith in
      let wide : positive (pos w) ≡ true = ground arith in
      elim (Bool-cases (grants (h * w))) [
        | inl yes_memory ↦ inr (
          record { rows = h; cols = w; entries = entries },
          rw (tall, wide, yes_memory, run) refl,
          record {
            height = refl;
            width = refl;
            valid = record {
              some_rows = some_rows;
              some_cols = some_cols;
              size = size;
              small = small;
            };
            cells =
                λ i j lt lt'. get_or_of entries (i * w + j) num.zero_f (v i j) (cells i j lt lt');
          },
        )
        | inr no_memory ↦ inl (no_memory, rw (tall, wide, no_memory) refl)
      ]
