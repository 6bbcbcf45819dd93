-- ===== src/Sort/Ordering.antt =====
-- Lists in the order of a comparison, by their indices, and what a write changes.
use abscom.Prelude.{
  ℕ, zero, suc, ◌≤◌, ◌<◌, ◌≡◌, ◌≢◌, inl, inr, refl, sym, ◌∙◌, Bool-cases, true, false, Option, none,
  some, List, [], ◌∷◌, arith, ltb, length, length-set, get_elem?, get_elem?-set_same,
  get_elem?-set_other, set, Perm,
}
use abscom.Prelude.Run.{Run, done, ◌>>=◌}
use abscom.Sort.Defs.{Sign, is_above, is_sorted, write, swap_items}
use abscom.Sort.Rearranging.{Rearranges, read_inside}

module _ {ℓ} {A : Type ℓ} where
  get_elem?-outside : (items : List A) (q : ℕ) → length items ≤ q → get_elem? items q ≡ none
  get_elem?-outside [] q h = refl
  get_elem?-outside (x ∷ items) zero h = absurd (omega (arith, h))
  get_elem?-outside (x ∷ items) (suc q) h = get_elem?-outside items q (omega (arith, h))

  -- A run ends in one way.
  pub done_same : {run : Run (List A)} {xs ys : List A} → run ≡ done xs → run ≡ done ys → xs ≡ ys
  done_same e e' = cc

module _ {ℓ} {A : Type ℓ} (compare_objs : A → A → Sign) where
  -- The laws of a comparison by which a list can be sorted.
  pub record IsTotal : Type ℓ where
    pub trans :
        (x y z : A)
        → is_above (compare_objs x y) ≡ false
        → is_above (compare_objs y z) ≡ false
        → is_above (compare_objs x z) ≡ false
    pub total : (x y : A) → is_above (compare_objs x y) ≡ true → is_above (compare_objs y x) ≡ false

  -- The first item is not above the second, where there are two.
  abbrev pub Le : Option A → Option A → Type 0
  Le none b = Unit
  Le (some x) none = Unit
  Le (some x) (some y) = is_above (compare_objs x y) ≡ false

  abbrev pub LeAt : List A → ℕ → ℕ → Type 0
  LeAt items p q = Le (get_elem? items p) (get_elem? items q)

  Le-none : (a : Option A) → Le a none
  Le-none none = tt
  Le-none (some x) = tt

  pub Le-trans :
      IsTotal → (a : Option A) (y : A) (c : Option A) → Le a (some y) → Le (some y) c → Le a c
  Le-trans o none y c h k = tt
  Le-trans o (some x) y none h k = tt
  Le-trans o (some x) y (some z) h k = o.trans x y z h k

  pub Le-refl : IsTotal → (a : Option A) → Le a a
  Le-refl o none = tt
  Le-refl o (some x) = elim (Bool-cases (is_above (compare_objs x x))) [
    | inl e ↦ o.total x x e
    | inr e ↦ e
  ]

  -- There is nothing behind the list.
  pub Le-outside : (items : List A) (p q : ℕ) → length items ≤ q → LeAt items p q
  Le-outside items p q h = rw (get_elem?-outside items q h) (Le-none (get_elem? items p))

  -- A list in which no item is above a later one.
  abbrev pub InOrder : List A → Type 0
  InOrder items = (p q : ℕ) → p < q → LeAt items p q

  InOrder-is_sorted : (items : List A) → InOrder items → is_sorted compare_objs items ≡ true
  unfolding is_sorted
  InOrder-is_sorted [] h = refl
  InOrder-is_sorted (x ∷ []) h = refl
  InOrder-is_sorted (x ∷ y ∷ items) h =
      let le : is_above (compare_objs x y) ≡ false = h 0 1 (omega arith) in
      rw (le) (InOrder-is_sorted (y ∷ items) (λ p q lt. h (suc p) (suc q) (omega (arith, lt))))

module _ {ℓ} {A : Type ℓ} (compare_objs : A → A → Sign) where
  -- The run ends, in the same items, none of which is above a later one; `is_sorted` holds of them.
  abbrev pub Sorts : List A → Run (List A) → Type ℓ
  Sorts items run =
      (items' : List A) × (run ≡ done items')
      × Perm items items'
      × InOrder compare_objs items'
      × (is_sorted compare_objs items' ≡ true)

  pub Rearranges-Sorts :
      (items items' : List A) (run : Run (List A))
      → Rearranges items run
      → run ≡ done items'
      → InOrder compare_objs items'
      → Sorts items run
  Rearranges-Sorts items items' run (moved, e, perm, _) e' sorted = (
    items',
    e',
    rw (done_same e e') at perm,
    sorted,
    InOrder-is_sorted compare_objs items' sorted,
  )

module _ {ℓ} {A : Type ℓ} where
  -- The items at two places are exchanged.
  pub record Swapped (items : List A) (i j : ℕ) (items' : List A) : Type ℓ where
    pub run : swap_items items i j ≡ done items'
    pub size : length items' ≡ length items
    pub at_i : get_elem? items' i ≡ get_elem? items j
    pub at_j : get_elem? items' j ≡ get_elem? items i
    pub other : (k : ℕ) → k ≢ i → k ≢ j → get_elem? items' k ≡ get_elem? items k

  pub swap_items-Swapped :
      (items : List A) (i j : ℕ)
      → i < length items
      → j < length items
      → i ≢ j
      → (items' : List A) × Swapped items i j items'
  unfolding swap_items write
  swap_items-Swapped items i j h h' apart =
      let (x, run, e) = read_inside items i h in
      let (y, run', e') = read_inside items j h' in
      let test : ltb i (length items) ≡ true = ground arith in
      let test' : ltb j (length (set items i y)) ≡ true = ground (arith, length-set items i y) in
      (
        set (set items i y) j x,
        record {
          run = rw (run, run', ◌>>=◌, test, test') refl;
          size = length-set (set items i y) j x ∙ length-set items i y;
          at_i =
              get_elem?-set_other (set items i y) i j x apart
              ∙ get_elem?-set_same items i y h
              ∙ sym e';
          at_j =
              get_elem?-set_same (set items i y) j x (omega (arith, h', length-set items i y))
              ∙ sym e;
          other = λ k ki kj.
              get_elem?-set_other (set items i y) k j x kj ∙ get_elem?-set_other items k i y ki;
        },
      )
