-- ===== src/Matrix/Defs.antt =====
-- src/abs_matrix.c over any type of numbers: the arithmetic of `double` is a parameter. The arithmetic on
-- indices is that of `int`, in which a result of 2 ^ 31 or more is undefined, and a fault here.
use abscom.Prelude.{
  ℕ, zero, suc, ◌+◌, ◌*◌, ◌^◌, Bool, ◌&&◌, Option, none, some, List, ◌++◌, ltb, leb, ◌==◌,
  if◌then◌else◌, CString, codes, replicate, take, drop, length,
}
use abscom.Prelude.Run.{Run, done, fault, ◌>>=◌}
use abscom.Prelude.Int.{ℤ, pos, pos_part, ltb_ℤ}
use abscom.Sort.Defs.{read, write}

pub record Arithmetic {ℓ} (F : Type ℓ) : Type ℓ where
  pub zero_f : F
  pub one_f : F
  pub add : F → F → F
  pub sub : F → F → F
  pub mul : F → F → F
  pub less : F → F → Bool

-- The entries lie row by row.
pub record Matrix {ℓ} (F : Type ℓ) : Type ℓ where
  pub rows : ℕ
  pub cols : ℕ
  pub entries : List F

-- An object of ABS_ERROR, or another.
pub data Answer {ℓ} (A : Type ℓ) : Type ℓ where
  value : A → Answer A
  error : CString → Answer A

-- `for (int i = i; i < i + rounds; i++)`
unfoldable pub for_loop {ℓ} : {S : Type ℓ} → ℕ → ℕ → (ℕ → S → Run S) → S → Run S
for_loop zero i body s = done s
for_loop (suc rounds) i body s = body i s >>= for_loop rounds (i + 1) body

-- The product of two numbers of type `int`; a product that is too large is undefined.
unfoldable pub int_mul : ℕ → ℕ → Run ℕ
int_mul a b = if ltb (a * b) (2 ^ 31) then done (a * b) else fault

unfoldable pub int_add : ℕ → ℕ → Run ℕ
int_add a b = if ltb (a + b) (2 ^ 31) then done (a + b) else fault

-- The index `i * w + j`.
unfoldable pub index : ℕ → ℕ → ℕ → Run ℕ
unfolding int_mul int_add
index i w j = do row ← int_mul i w; int_add row j

abbrev pub out_of_memory : CString
out_of_memory = codes "Out of memory"

abbrev pub not_a_matrix : CString
not_a_matrix = codes "Not a matrix"

abbrev pub positive : ℤ → Bool
positive i = ltb_ℤ (pos 0) i

module _ {ℓ} {A : Type ℓ} where
  -- The item at `i * w + j`.
  unfoldable pub read_cell : List A → ℕ → ℕ → ℕ → Run A
  unfolding index read
  read_cell items i w j = do p ← index i w j; read items p

  unfoldable pub write_cell : List A → ℕ → ℕ → ℕ → A → Run (List A)
  unfolding index write
  write_cell items i w j v = do p ← index i w j; write items p v

  -- What memcpy reads: `n` items from `at` on.
  unfoldable pub range : List A → ℕ → ℕ → Run (List A)
  range items at n = if leb (at + n) (length items) then done (take n (drop at items)) else fault

  -- What memcpy writes, from `at` on.
  unfoldable pub mem_copy : List A → ℕ → List A → Run (List A)
  mem_copy items at new =
      if leb (at + length new) (length items)
      then done (take at items ++ (new ++ drop (at + length new) items))
      else fault

module _ {ℓ} {F : Type ℓ} where
  -- What the functions do with a new matrix, unless it is an error.
  abbrev pub fill : Answer (Matrix F) → (List F → Run (List F)) → Run (Answer (Matrix F))
  fill (error e) loop = done (error e)
  fill (value m) loop = do entries ← loop m.entries; done (value (record m { entries = entries }))

-- `grants n` is whether there is memory for a matrix of n numbers.
module _ {ℓ} {F : Type ℓ} (num : Arithmetic F) (grants : ℕ → Bool) where
  unfoldable pub matrix_new : ℤ → ℤ → Answer (Matrix F)
  matrix_new rows cols =
      if positive rows && positive cols
      then (if grants (pos_part rows * pos_part cols)
          then value (record {
            rows = pos_part rows;
            cols = pos_part cols;
            entries = replicate (pos_part rows * pos_part cols) num.zero_f;
          })
          else error out_of_memory)
      else error (codes "Invalid matrix dimensions")

  unfoldable pub eye : ℤ → Run (Answer (Matrix F))
  unfolding matrix_new for_loop write_cell
  eye n =
      if positive n
      then fill (matrix_new n n)
          (for_loop (pos_part n) 0 (λ i entries. write_cell entries i (pos_part n) i num.one_f))
      else done (error (codes "Invalid matrix dimension"))

  unfoldable pub ones : ℤ → ℤ → Run (Answer (Matrix F))
  unfolding matrix_new int_mul for_loop write
  ones rows cols = fill (matrix_new rows cols) λ entries. do
    n ← int_mul (pos_part rows) (pos_part cols)
    for_loop n 0 (λ i entries. write entries i num.one_f) entries

  -- The loops of the sums, differences and products of entries.
  unfoldable pub entrywise :
      (F → F → F) → Option (Matrix F) → Option (Matrix F) → Run (Answer (Matrix F))
  unfolding matrix_new int_mul for_loop read write
  entrywise op (some a) (some b) =
      if (a.rows == b.rows) && (a.cols == b.cols)
      then fill (matrix_new (pos a.rows) (pos a.cols)) (λ entries. do
        n ← int_mul a.rows a.cols
        for_loop n 0
            (λ i entries. do x ← read a.entries i; y ← read b.entries i; write entries i (op x y))
            entries)
      else done (error (codes "Dimension mismatch"))
  entrywise op none b = done (error not_a_matrix)
  entrywise op (some a) none = done (error not_a_matrix)

  -- The loops over one matrix.
  unfoldable pub each : (F → F) → Option (Matrix F) → Run (Answer (Matrix F))
  unfolding matrix_new int_mul for_loop read write
  each f (some m) = fill (matrix_new (pos m.rows) (pos m.cols)) λ entries. do
    n ← int_mul m.rows m.cols
    for_loop n 0 (λ i entries. do x ← read m.entries i; write entries i (f x)) entries
  each f none = done (error not_a_matrix)

  unfoldable pub matrix_add : Option (Matrix F) → Option (Matrix F) → Run (Answer (Matrix F))
  unfolding entrywise
  matrix_add = entrywise num.add

  unfoldable pub matrix_sub : Option (Matrix F) → Option (Matrix F) → Run (Answer (Matrix F))
  unfolding entrywise
  matrix_sub = entrywise num.sub

  unfoldable pub mul_element : Option (Matrix F) → Option (Matrix F) → Run (Answer (Matrix F))
  unfolding entrywise
  mul_element = entrywise num.mul

  unfoldable pub scale : Option (Matrix F) → F → Run (Answer (Matrix F))
  unfolding each
  scale m s = each (λ x. num.mul x s) m

  unfoldable pub add_scalar : Option (Matrix F) → F → Run (Answer (Matrix F))
  unfolding each
  add_scalar m s = each (λ x. num.add x s) m

  -- memcpy of a whole matrix
  unfoldable pub copy : Option (Matrix F) → Run (Answer (Matrix F))
  unfolding matrix_new int_mul mem_copy range
  copy (some m) =
      fill (matrix_new (pos m.rows) (pos m.cols))
        λ entries. do n ← int_mul m.rows m.cols; from ← range m.entries 0 n; mem_copy entries 0 from
  copy none = done (error not_a_matrix)
