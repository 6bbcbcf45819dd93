-- ===== src/Sort/Searching.antt =====
-- binary_search finds an item of a sorted list if there is one.
use abscom.Prelude.{
  ℕ, zero, suc, ◌+◌, ◌-◌, ◌/◌, ◌≤◌, ◌<◌, ◌≡◌, ◌≢◌, ◌⊎◌, inl, inr, refl, sym, ◌∙◌, true, false,
  Option, none, some, List, [], ◌∷◌, arith, ltb, ◌==◌, Bool-cases, length, get_elem?, dec_lt,
}
use abscom.Prelude.Run.{done, ◌>>=◌}
use abscom.Sort.Defs.{Sign, below, same, above, is_above, search_loop, binary_search, is_sorted}
use abscom.Sort.Rearranging.{read_inside}

Sign-cases : (s : Sign) → (s ≡ below) ⊎ ((s ≡ same) ⊎ (s ≡ above))
Sign-cases below = inl refl
Sign-cases same = inr (inl refl)
Sign-cases above = inr (inr refl)

below≢same : below ≢ same
below≢same e = cc

above≢same : above ≢ same
above≢same e = cc

module _ {ℓ} {A : Type ℓ} where
  get_elem?-bound : (items : List A) (i : ℕ) (x : A) → get_elem? items i ≡ some x → i < length items
  get_elem?-bound [] i x e = absurd cc
  get_elem?-bound (y ∷ items) zero x e = omega arith
  get_elem?-bound (y ∷ items) (suc i) x e = omega (arith, get_elem?-bound items i x e)

module _ {ℓ} {A : Type ℓ} (compare_objs : A → A → Sign) where
  -- The signs of the comparisons with the target fall nowhere: items below it, then equal ones, then
  -- items above it.
  pub record IsSplitBy (items : List A) (target : A) : Type ℓ where
    pub below_before :
        (i j : ℕ) (x y : A)
        → i ≤ j
        → get_elem? items i ≡ some x
        → get_elem? items j ≡ some y
        → compare_objs y target ≡ below
        → compare_objs x target ≡ below
    pub above_after :
        (i j : ℕ) (x y : A)
        → i ≤ j
        → get_elem? items i ≡ some x
        → get_elem? items j ≡ some y
        → compare_objs x target ≡ above
        → compare_objs y target ≡ above

  -- No item from `l` up to `r` is equal to the target.
  abbrev Outside : List A → A → ℕ → ℕ → Type ℓ
  Outside items target l r =
      (i : ℕ) (x : A)
      → get_elem? items i ≡ some x
      → (i < l) ⊎ (r ≤ i)
      → compare_objs x target ≢ same

  -- What an answer says.
  abbrev pub Answers : List A → A → Option ℕ → Type ℓ
  Answers items target none =
      (i : ℕ) (x : A) → get_elem? items i ≡ some x → compare_objs x target ≢ same
  Answers items target (some m) =
      (x : A) × (get_elem? items m ≡ some x) × (compare_objs x target ≡ same)

  Outside-left :
      (items : List A) (target : A) (l r m : ℕ) (x : A)
      → IsSplitBy items target
      → get_elem? items m ≡ some x
      → compare_objs x target ≡ below
      → Outside items target l r
      → Outside items target (m + 1) r
  Outside-left items target l r m x split here less out i y e (inr after) q =
      out i y e (inr after) q
  Outside-left items target l r m x split here less out i y e (inl before) q =
      below≢same (sym (split.below_before i m y x (omega arith) e here less) ∙ q)

  Outside-right :
      (items : List A) (target : A) (l r m : ℕ) (x : A)
      → IsSplitBy items target
      → get_elem? items m ≡ some x
      → compare_objs x target ≡ above
      → Outside items target l r
      → Outside items target l m
  Outside-right items target l r m x split here greater out i y e (inl before) q =
      out i y e (inl before) q
  Outside-right items target l r m x split here greater out i y e (inr after) q =
      above≢same (sym (split.above_after m i x y after here e greater) ∙ q)

  search_loop-Answers :
      (fuel l r : ℕ) (items : List A) (target : A)
      → IsSplitBy items target
      → r ≤ length items
      → r < l + fuel
      → 0 < fuel
      → Outside items target l r
      → (answer : Option ℕ) × (search_loop compare_objs fuel l r items target ≡ done answer)
        × Answers items target answer
  unfolding search_loop
  search_loop-Answers zero l r items target split h enough pos out = absurd (omega arith)
  search_loop-Answers (suc fuel) l r items target split h enough pos out = elim (dec_lt l r) [
    | no empty ↦
        let test : ltb l r ≡ false = ground arith in
        (
          none,
          rw test,
          λ i x e. out i x e (elim (dec_lt i l) [ yes p ↦ inl p | no p ↦ inr (omega arith) ]),
        )
    | yes more ↦
        let test : ltb l r ≡ true = ground arith in
        let m = l + (r - 1 - l) / 2 in
        let (x, run, here) = read_inside items m (omega arith) in
        elim (Sign-cases (compare_objs x target)) [
          | inl less ↦
              let (answer, run', ok) =
                search_loop-Answers fuel (m + 1) r items target split h (omega arith) (omega arith)
                  (Outside-left items target l r m x split here less out) in
              (answer, rw (test, run, ◌>>=◌, less) run', ok)
          | inr (inl equal) ↦ (some m, rw (test, run, ◌>>=◌, equal), (x, here, equal))
          | inr (inr greater) ↦
              let (answer, run', ok) =
                search_loop-Answers fuel l m items target split (omega arith) (omega arith)
                  (omega arith) (Outside-right items target l r m x split here greater out) in
              (answer, rw (test, run, ◌>>=◌, greater) run', ok)
        ]
  ]

  -- The laws of a comparison by an order.
  pub record IsOrder : Type ℓ where
    pub trans :
        (x y z : A)
        → is_above (compare_objs x y) ≡ false
        → is_above (compare_objs y z) ≡ false
        → is_above (compare_objs x z) ≡ false
    pub refl_le : (x : A) → is_above (compare_objs x x) ≡ false
    pub below_back :
        (x y z : A)
        → is_above (compare_objs x y) ≡ false
        → compare_objs y z ≡ below
        → compare_objs x z ≡ below
    pub above_on :
        (x y z : A)
        → is_above (compare_objs x y) ≡ false
        → compare_objs x z ≡ above
        → compare_objs y z ≡ above

  is_sorted-tail :
      (x y : A) (items : List A)
      → is_sorted compare_objs (x ∷ y ∷ items) ≡ true
      → (is_above (compare_objs x y) ≡ false) × (is_sorted compare_objs (y ∷ items) ≡ true)
  unfolding is_sorted
  is_sorted-tail x y items e = elim (Bool-cases (is_above (compare_objs x y))) [
    | inl up ↦ absurd (ground (arith, up, e))
    | inr le ↦ (le, rw le at e)
  ]

  -- Of two items of a sorted list, the first is not above the second.
  is_sorted-le :
      (items : List A) (i j : ℕ) (x y : A)
      → IsOrder
      → is_sorted compare_objs items ≡ true
      → i ≤ j
      → get_elem? items i ≡ some x
      → get_elem? items j ≡ some y
      → is_above (compare_objs x y) ≡ false
  is_sorted-le [] i j x y o s h e e' = absurd cc
  is_sorted-le (z ∷ items) zero zero x y o s h e e' =
      let first : z ≡ x = cc in let second : z ≡ y = cc in rw (← first, ← second) (o.refl_le z)
  is_sorted-le (z ∷ items) (suc i) zero x y o s h e e' = absurd (omega arith)
  is_sorted-le (z ∷ []) i (suc j) x y o s h e e' = absurd cc
  is_sorted-le (z ∷ w ∷ items) zero (suc j) x y o s h e e' =
      let (le, rest) = is_sorted-tail z w items s in
      let first : z ≡ x = cc in
      o.trans x w y (rw first at le) (is_sorted-le (w ∷ items) 0 j w y o rest (omega arith) refl e')
  is_sorted-le (z ∷ w ∷ items) (suc i) (suc j) x y o s h e e' =
      is_sorted-le (w ∷ items) i j x y o (is_sorted-tail z w items s).1 (omega arith) e e'

  -- On a sorted list, compared by an order, `binary_search` ends without an access outside of the list:
  -- the index that it returns is of an item equal to the target, and it returns -1 only if no item is.
  pub binary_search-Answers :
      (items : List A) (target : A)
      → IsOrder
      → is_sorted compare_objs items ≡ true
      → (answer : Option ℕ) × (binary_search compare_objs items target ≡ done answer)
        × Answers items target answer
  unfolding binary_search
  binary_search-Answers items target o s = elim (dec_lt 0 (length items)) [
    | no empty ↦
        let test : (length items == 0) ≡ true = ground arith in
        (
          none,
          rw test,
          λ i x e. let inside = get_elem?-bound items i x e in absurd (omega (arith, inside)),
        )
    | yes some_items ↦
        let test : (length items == 0) ≡ false = ground arith in
        let (answer, run, ok) =
          search_loop-Answers (length items + 1) 0 (length items) items target (split_by o)
            (omega arith) (omega arith) (omega arith) outside in
        (answer, rw test run, ok)
  ]
    where
      split_by : IsOrder → IsSplitBy items target
      split_by o = record {
        below_before =
            λ i j x y h e e' q. o.below_back x y target (is_sorted-le items i j x y o s h e e') q;
        above_after =
            λ i j x y h e e' q. o.above_on x y target (is_sorted-le items i j x y o s h e e') q;
      }

      outside : Outside items target 0 (length items)
      outside i x e side q =
          let inside = get_elem?-bound items i x e in
          elim side [ inl before ↦ absurd (omega arith) | inr after ↦ absurd (omega arith) ]
