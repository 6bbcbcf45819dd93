-- ===== src/Sort/Rearranging.antt =====
-- Runs that only move the items of a list.
use mathlib.Core.List.Perm
use abscom.Prelude.{
  ℕ, zero, suc, ◌<◌, ◌≡◌, refl, ◌∙◌, true, some, List, [], ◌∷◌, Perm, arith, ltb, length,
  length-set, get_elem?, set,
}
use abscom.Prelude.Run.{Run, done, ◌>>=◌}
use abscom.Sort.Defs.{read, write, swap_items}

module _ {ℓ} {A : Type ℓ} where
  -- The run ends, in the same items in another order.
  abbrev pub Rearranges : List A → Run (List A) → Type ℓ
  Rearranges items run =
      (items' : List A) × (run ≡ done items') × Perm items items' × (length items' ≡ length items)

  pub Rearranges-done : (items : List A) → Rearranges items (done items)
  Rearranges-done items = (items, refl, Perm.refl items, refl)

  pub Rearranges-bind :
      (items : List A) (run : Run (List A)) (f : List A → Run (List A))
      → Rearranges items run
      → ((items' : List A) → length items' ≡ length items → Rearranges items' (f items'))
      → Rearranges items (run >>= f)
  Rearranges-bind items run f (items', e, p, size) h =
      let (items'', e', p', size') = h items' size in
      (items'', rw (e, ◌>>=◌) e', Perm.trans p p', size' ∙ size)

  pub get_elem?-inside :
      (items : List A) (i : ℕ) → i < length items → (x : A) × (get_elem? items i ≡ some x)
  get_elem?-inside [] i h = absurd (omega arith)
  get_elem?-inside (x ∷ items) zero h = (x, refl)
  get_elem?-inside (x ∷ items) (suc i) h = get_elem?-inside items i (omega arith)

  pub read_inside :
      (items : List A) (i : ℕ)
      → i < length items
      → (x : A) × (read items i ≡ done x) × (get_elem? items i ≡ some x)
  unfolding read
  read_inside items i h = let (x, e) = get_elem?-inside items i h in (x, rw (read, e), e)

  -- Writing puts one item in the place of another.
  set-Perm :
      (items : List A) (i : ℕ) (old new : A)
      → get_elem? items i ≡ some old
      → (rest : List A) × Perm items (old ∷ rest) × Perm (set items i new) (new ∷ rest)
  set-Perm [] i old new e = absurd (ground (arith, e))
  set-Perm (x ∷ items) zero old new e =
      let same : x ≡ old = cc in (items, rw same (Perm.refl (old ∷ items)), Perm.refl (new ∷ items))
  set-Perm (x ∷ items) (suc i) old new e =
      let (rest, p, q) = set-Perm items i old new e in
      (
        x ∷ rest,
        Perm.trans (Perm.cons x p) (Perm.swap old x rest),
        Perm.trans (Perm.cons x q) (Perm.swap new x rest),
      )

  get_elem?-set :
      (items : List A) (i j : ℕ) (x y : A)
      → get_elem? items i ≡ some x
      → get_elem? items j ≡ some y
      → get_elem? (set items i y) j ≡ some y
  get_elem?-set [] i j x y e e' = e'
  get_elem?-set (z ∷ items) zero zero x y e e' = refl
  get_elem?-set (z ∷ items) zero (suc j) x y e e' = e'
  get_elem?-set (z ∷ items) (suc i) zero x y e e' = e'
  get_elem?-set (z ∷ items) (suc i) (suc j) x y e e' = get_elem?-set items i j x y e e'

  pub swap-Perm :
      (items : List A) (i j : ℕ) (x y : A)
      → get_elem? items i ≡ some x
      → get_elem? items j ≡ some y
      → Perm items (set (set items i y) j x)
  swap-Perm items i j x y e e' =
      let (r₁, p, q) = set-Perm items i x y e in
      let (r₂, p', q') = set-Perm (set items i y) j y x (get_elem?-set items i j x y e e') in
      let same = Perm.cons_inv (Perm.trans (Perm.symm q) p') in
      Perm.trans p (Perm.trans (Perm.cons x same) (Perm.symm q'))

  -- A swap inside the list.
  pub swap_items-Rearranges :
      (items : List A) (i j : ℕ)
      → i < length items
      → j < length items
      → Rearranges items (swap_items items i j)
  unfolding swap_items write
  swap_items-Rearranges items i j h h' =
      let (x, run, e) = read_inside items i h in
      let (y, run', e') = read_inside items j h' in
      let test : ltb i (length items) ≡ true = ground arith in
      let test' : ltb j (length (set items i y)) ≡ true = ground (arith, length-set items i y) in
      (
        set (set items i y) j x,
        rw (run, run', ◌>>=◌, test, test'),
        swap-Perm items i j x y e e',
        length-set (set items i y) j x ∙ length-set items i y,
      )
