-- ===== src/Sort/Exchanging.antt =====
-- sort_bubble and sort_selection end, and only move the items.
use abscom.Prelude.{
  ℕ, zero, suc, ◌+◌, ◌-◌, ◌≤◌, ◌<◌, ◌≡◌, refl, Bool, true, false, List, arith, if◌then◌else◌, ◌==◌,
  Bool-cases, length, inl, inr, [], ◌∷◌,
}
use abscom.Prelude.Run.{Run, done, ◌>>=◌}
use abscom.Sort.Defs.{
  Sign, is_above, is_below, bubble_inner, bubble_outer, sort_bubble, select_min, selection_loop,
  sort_selection,
}
use abscom.Sort.Rearranging.{
  Rearranges, Rearranges-done, Rearranges-bind, read_inside, swap_items-Rearranges,
}

module _ {ℓ} {A : Type ℓ} where
  -- A run that moves items only if a test holds.
  if-Rearranges :
      (b : Bool) (items : List A) (run run' : Run (List A))
      → Rearranges items run
      → Rearranges items run'
      → Rearranges items (if b then run else run')
  if-Rearranges true items run run' h h' = h
  if-Rearranges false items run run' h h' = h'

module _ {ℓ} {A : Type ℓ} (compare_objs : A → A → Sign) where
  bubble_inner-Rearranges :
      (rounds j : ℕ) (items : List A)
      → j + rounds < length items
      → Rearranges items (bubble_inner compare_objs rounds j items)
  unfolding bubble_inner
  bubble_inner-Rearranges zero j items h = Rearranges-done items
  bubble_inner-Rearranges (suc rounds) j items h =
      let (a, run, _) = read_inside items j (omega arith) in
      let (b, run', _) = read_inside items (j + 1) (omega arith) in
      rw (run, run', ◌>>=◌)
        (Rearranges-bind items _ _
          (if-Rearranges (is_above (compare_objs a b)) items _ _
            (swap_items-Rearranges items j (j + 1) (omega arith) (omega arith))
            (Rearranges-done items))
          (λ items' size. bubble_inner-Rearranges rounds (j + 1) items' (omega (arith, size))))

  bubble_outer-Rearranges :
      (rounds n i : ℕ) (items : List A)
      → n ≡ length items
      → i + rounds < n
      → Rearranges items (bubble_outer compare_objs rounds n i items)
  unfolding bubble_outer
  bubble_outer-Rearranges zero n i items e h = Rearranges-done items
  bubble_outer-Rearranges (suc rounds) n i items e h =
      Rearranges-bind items _ _ (bubble_inner-Rearranges (n - i - 1) 0 items (omega (arith, e)))
        (λ items' size.
          bubble_outer-Rearranges rounds n (i + 1) items' (omega (arith, e, size)) (omega arith))

  -- `sort_bubble` ends without an access outside of the list, in a permutation of the items.
  pub sort_bubble-Rearranges : (items : List A) → Rearranges items (sort_bubble compare_objs items)
  unfolding sort_bubble bubble_outer
  sort_bubble-Rearranges [] = Rearranges-done []
  sort_bubble-Rearranges (x ∷ items) =
      bubble_outer-Rearranges (length (x ∷ items) - 1) (length (x ∷ items)) 0 (x ∷ items) refl
        (omega arith)

  select_min_lem :
      (rounds j min_idx : ℕ) (items : List A)
      → j + rounds ≤ length items
      → min_idx < length items
      → (m : ℕ) × (select_min compare_objs rounds j min_idx items ≡ done m) × (m < length items)
  unfolding select_min
  select_min_lem zero j min_idx items h h' = (min_idx, refl, h')
  select_min_lem (suc rounds) j min_idx items h h' =
      let (a, run, _) = read_inside items j (omega arith) in
      let (b, run', _) = read_inside items min_idx h' in
      elim (Bool-cases (is_below (compare_objs a b))) [
        | inl less ↦
            let (m, e, inside) =
              select_min_lem rounds (j + 1) j items (omega arith) (omega arith) in
            (m, rw (run, run', ◌>>=◌, less) e, inside)
        | inr more ↦
            let (m, e, inside) = select_min_lem rounds (j + 1) min_idx items (omega arith) h' in
            (m, rw (run, run', ◌>>=◌, more) e, inside)
      ]

  selection_loop-Rearranges :
      (rounds n i : ℕ) (items : List A)
      → n ≡ length items
      → i + rounds < n
      → Rearranges items (selection_loop compare_objs rounds n i items)
  unfolding selection_loop
  selection_loop-Rearranges zero n i items e h = Rearranges-done items
  selection_loop-Rearranges (suc rounds) n i items e h =
      let (m, run, inside) =
        select_min_lem (n - (i + 1)) (i + 1) i items (omega (arith, e)) (omega (arith, e)) in
      rw (run, ◌>>=◌)
        (Rearranges-bind items _ _
          (if-Rearranges (m == i) items _ _ (Rearranges-done items)
            (swap_items-Rearranges items m i inside (omega (arith, e))))
          (λ items' size.
            selection_loop-Rearranges rounds n (i + 1) items' (omega (arith, e, size))
              (omega arith)))

  -- `sort_selection` ends without an access outside of the list, in a permutation of the items.
  pub sort_selection-Rearranges :
      (items : List A) → Rearranges items (sort_selection compare_objs items)
  unfolding sort_selection selection_loop
  sort_selection-Rearranges [] = Rearranges-done []
  sort_selection-Rearranges (x ∷ items) =
      selection_loop-Rearranges (length (x ∷ items) - 1) (length (x ∷ items)) 0 (x ∷ items) refl
        (omega arith)
