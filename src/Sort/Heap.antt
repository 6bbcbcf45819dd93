-- ===== src/Sort/Heap.antt =====
-- sort_heap ends, and only moves the items.
use abscom.Prelude.{
  ℕ, zero, suc, ◌+◌, ◌-◌, ◌*◌, ◌/◌, ◌≤◌, ◌<◌, ◌≡◌, ◌⊎◌, refl, true, false, List, [], ◌∷◌, arith,
  ltb, ◌==◌, Bool-cases, length, inl, inr, ℕ_discrete, dec_lt,
}
use abscom.Prelude.Run.{done, ◌>>=◌}
use abscom.Sort.Defs.{Sign, is_above, larger, heapify, build_heap, drain_heap, sort_heap}
use abscom.Sort.Rearranging.{
  Rearranges, Rearranges-done, Rearranges-bind, read_inside, swap_items-Rearranges,
}

module _ {ℓ} {A : Type ℓ} (compare_objs : A → A → Sign) where
  -- The larger index is the child or the one before, and inside of the heap.
  larger_lem :
      (items : List A) (n child largest : ℕ)
      → n ≤ length items
      → largest < length items
      → (r : ℕ) × (larger compare_objs items n child largest ≡ done r)
        × ((r ≡ largest) ⊎ ((r ≡ child) × (child < n)))
  unfolding larger
  larger_lem items n child largest h h' = elim (dec_lt child n) [
    | no out ↦ let test : ltb child n ≡ false = ground arith in (largest, rw test, inl refl)
    | yes inside ↦
        let test : ltb child n ≡ true = ground arith in
        let (a, run, _) = read_inside items child (omega arith) in
        let (b, run', _) = read_inside items largest h' in
        elim (Bool-cases (is_above (compare_objs a b))) [
          | inl up ↦ (child, rw (test, run, run', ◌>>=◌, up), inr (refl, inside))
          | inr stay ↦ (largest, rw (test, run, run', ◌>>=◌, stay), inl refl)
        ]
  ]

  heapify-Rearranges :
      (fuel : ℕ) (items : List A) (n i : ℕ)
      → n ≤ length items
      → i < n
      → n ≤ fuel + i
      → Rearranges items (heapify compare_objs fuel items n i)
  unfolding heapify
  heapify-Rearranges zero items n i h inside enough = absurd (omega arith)
  heapify-Rearranges (suc fuel) items n i h inside enough =
      let (l, run, left) = larger_lem items n (2 * i + 1) i h (omega arith) in
      let (largest, run', right) = larger_lem items n (2 * i + 2) l h (omega (arith, left)) in
      elim (ℕ_discrete largest i) [
        | yes same ↦
            let test : (largest == i) ≡ true = ground arith in
            rw (run, ◌>>=◌, run', test) (Rearranges-done items)
        | no moved ↦
            let test : (largest == i) ≡ false = ground (arith, moved) in
            let further : i < largest = omega (arith, left, right, moved) in
            let below_n : largest < n = omega (arith, left, right) in
            rw (run, ◌>>=◌, run', test)
              (Rearranges-bind items _ _
                (swap_items-Rearranges items i largest (omega arith) (omega arith))
                (λ items' size.
                  heapify-Rearranges fuel items' n largest (omega (arith, size)) below_n
                    (omega arith)))
      ]

  build_heap-Rearranges :
      (k n : ℕ) (items : List A)
      → n ≡ length items
      → k ≤ n
      → Rearranges items (build_heap compare_objs k n items)
  unfolding build_heap
  build_heap-Rearranges zero n items e h = Rearranges-done items
  build_heap-Rearranges (suc i) n items e h =
      Rearranges-bind items _ _
        (heapify-Rearranges (n + 1) items n i (omega (arith, e)) (omega arith) (omega arith))
        (λ items' size. build_heap-Rearranges i n items' (omega (arith, e, size)) (omega arith))

  drain_heap-Rearranges :
      (k : ℕ) (items : List A)
      → k < length items
      → Rearranges items (drain_heap compare_objs k items)
  unfolding drain_heap
  drain_heap-Rearranges zero items h = Rearranges-done items
  drain_heap-Rearranges (suc i) items h =
      Rearranges-bind items _ _ (swap_items-Rearranges items 0 (suc i) (omega arith) (omega arith))
        (λ items' size.
          Rearranges-bind items' _ _
            (heapify-Rearranges (suc i + 1) items' (suc i) 0 (omega (arith, size)) (omega arith)
              (omega arith))
            (λ items'' size'. drain_heap-Rearranges i items'' (omega (arith, size, size'))))

  -- `sort_heap` ends without an access outside of the list, in a permutation of the items.
  pub sort_heap-Rearranges : (items : List A) → Rearranges items (sort_heap compare_objs items)
  unfolding sort_heap build_heap drain_heap
  sort_heap-Rearranges [] = Rearranges-done []
  sort_heap-Rearranges (x ∷ items) =
      let n = length (x ∷ items) in
      Rearranges-bind (x ∷ items) _ _
        (build_heap-Rearranges (n / 2) n (x ∷ items) refl (omega arith))
        (λ items' size. drain_heap-Rearranges (n - 1) items' (omega (arith, size)))
