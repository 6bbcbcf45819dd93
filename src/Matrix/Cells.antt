-- ===== src/Matrix/Cells.antt =====
-- The places of the entries of a matrix, row by row.
use native.Mathlib.Nat.{suc-mul, zero-mul}
use abscom.Prelude.{
  ltb, true, ◌^◌, ℕ, zero, suc, ◌+◌, ◌-◌, ◌*◌, ◌≤◌, ◌<◌, ◌≡◌, ◌≢◌, refl, some, List, [], ◌∷◌,
  length, get_elem?, get_or, arith, ℕ_discrete, dec_lt,
}
use abscom.Prelude.Run.{done, ◌>>=◌}
use abscom.Sort.Defs.{read, write}
use abscom.Matrix.Defs.{int_mul, int_add, index, read_cell, write_cell}

-- The rows before row `h` do not reach into it.
pub rows_before : (i h w : ℕ) → i < h → i * w + w ≤ h * w
rows_before i zero w lt = absurd (omega (arith, lt))
rows_before i (suc h) w lt = rw suc-mul (elim (ℕ_discrete i h) [
  | yes e ↦ rw (e) (omega arith)
  | no ne ↦ omega (arith, rows_before i h w (omega (arith, ne, lt)))
])

pub cell_inside : (i h w j : ℕ) → i < h → j < w → i * w + j < h * w
cell_inside i h w j lt lt' = omega (arith, rows_before i h w lt, lt')

-- Entries of two rows lie apart.
pub row_apart : (i p w j q : ℕ) → i ≢ p → j < w → q < w → i * w + j ≢ p * w + q
row_apart i p w j q ne lt lt' e = elim (dec_lt i p) [
  | yes before ↦ absurd (omega (arith, e, lt, rows_before i p w before))
  | no after ↦ absurd (omega (arith, e, lt', rows_before p i w (omega (arith, after, ne))))
]

-- Some columns make a matrix no smaller than a column.
pub rows-le : (h w : ℕ) → 0 < w → h ≤ h * w
rows-le zero w lt = omega arith
rows-le (suc h) w lt = rw suc-mul (omega (arith, rows-le h w lt))

pub mul_le_mul : (a b c d : ℕ) → a ≤ b → c ≤ d → a * c ≤ b * d
mul_le_mul zero b c d le le' = rw zero-mul (omega arith)
mul_le_mul (suc a) zero c d le le' = absurd (omega (arith, le))
mul_le_mul (suc a) (suc b) c d le le' =
    rw suc-mul (omega (arith, le', mul_le_mul a b c d (omega (arith, le)) le'))

pub int_mul-inside : (h w : ℕ) → h * w < 2 ^ 31 → int_mul h w ≡ done (h * w)
unfolding int_mul
int_mul-inside h w small =
    let test : ltb (h * w) (2 ^ 31) ≡ true = ground (arith, small) in rw (test) refl

pub int_add-inside : (a b : ℕ) → a + b < 2 ^ 31 → int_add a b ≡ done (a + b)
unfolding int_add
int_add-inside a b small =
    let test : ltb (a + b) (2 ^ 31) ≡ true = ground (arith, small) in rw (test) refl

-- The index of an entry of a matrix that is small enough is that of its place.
pub index-inside : (h w i j : ℕ) → h * w < 2 ^ 31 → i < h → j < w → index i w j ≡ done (i * w + j)
unfolding index int_mul int_add
index-inside h w i j small lt lt' =
    let inside = cell_inside i h w j lt lt' in
    let row : ltb (i * w) (2 ^ 31) ≡ true = ground (arith, inside, small) in
    let place : ltb (i * w + j) (2 ^ 31) ≡ true = ground (arith, inside, small) in
    rw (row, ◌>>=◌, place) refl

module _ {ℓ} {A : Type ℓ} where
  pub read_cell-inside :
      (items : List A) (h w i j : ℕ)
      → h * w < 2 ^ 31
      → i < h
      → j < w
      → read_cell items i w j ≡ read items (i * w + j)
  unfolding read_cell
  read_cell-inside items h w i j small lt lt' = rw (index-inside h w i j small lt lt', ◌>>=◌) refl

  pub write_cell-inside :
      (items : List A) (h w i j : ℕ) (v : A)
      → h * w < 2 ^ 31
      → i < h
      → j < w
      → write_cell items i w j v ≡ write items (i * w + j) v
  unfolding write_cell
  write_cell-inside items h w i j v small lt lt' =
      rw (index-inside h w i j small lt lt', ◌>>=◌) refl

-- Each place in the block is that of an entry.
pub cell_of : (p h w : ℕ) → p < h * w → (i j : ℕ) × (i < h) × (j < w) × (i * w + j ≡ p)
cell_of p zero w lt =
    absurd (let none_there : 0 * w ≡ 0 = zero-mul w in omega (arith, lt, none_there))
cell_of p (suc h) w lt =
    let size : suc h * w ≡ h * w + w = suc-mul h w in
    elim (dec_lt p (h * w)) [
      | yes before ↦
          let (i, j, inside, inside', place) = cell_of p h w before in
          (i, j, omega (arith, inside), inside', place)
      | no after ↦ (h, p - h * w, omega arith, omega (arith, after, lt, size), omega (arith, after))
    ]

module _ {ℓ} {A : Type ℓ} where
  pub read-get_or :
      (items : List A) (i : ℕ) (d : A) → i < length items → read items i ≡ done (get_or items i d)
  unfolding read
  read-get_or [] i d lt = absurd (omega (arith, lt))
  read-get_or (x ∷ items) zero d lt = refl
  read-get_or (x ∷ items) (suc i) d lt = read-get_or items i d (omega (arith, lt))

  pub get_or_of :
      (items : List A) (i : ℕ) (d x : A) → get_elem? items i ≡ some x → get_or items i d ≡ x
  get_or_of [] i d x e = absurd cc
  get_or_of (y ∷ items) zero d x e = cc
  get_or_of (y ∷ items) (suc i) d x e = get_or_of items i d x e

  -- Lists of the same length and with the same items are equal.
  pub items_same :
      (xs ys : List A) (d : A)
      → length xs ≡ length ys
      → ((p : ℕ) → p < length xs → get_or xs p d ≡ get_or ys p d)
      → xs ≡ ys
  items_same [] [] d size same = refl
  items_same [] (y ∷ ys) d size same = absurd (omega (arith, size))
  items_same (x ∷ xs) [] d size same = absurd (omega (arith, size))
  items_same (x ∷ xs) (y ∷ ys) d size same =
      let heads : x ≡ y = same 0 (omega arith) in
      rw
        (heads, items_same xs ys d (omega (arith, size)) (λ p lt. same (suc p) (omega (arith, lt))))
        refl
