-- ===== src/Sort/Quick.antt =====
-- sort_quick ends, and only moves the items.
use mathlib.Core.List.Perm
use abscom.Prelude.{
  ℕ, zero, suc, ◌+◌, ◌-◌, ◌≤◌, ◌<◌, ◌≡◌, refl, ◌∙◌, true, false, List, Perm, arith, ltb, Bool-cases,
  length, inl, inr, dec_lt,
}
use abscom.Prelude.Run.{Run, done, ◌>>=◌}
use abscom.Sort.Defs.{Sign, is_below, partition_loop, partition, quick_sort_rec, sort_quick}
use abscom.Sort.Rearranging.{
  Rearranges, Rearranges-done, Rearranges-bind, read_inside, swap_items-Rearranges,
}

module _ {ℓ} {A : Type ℓ} (compare_objs : A → A → Sign) where
  -- The run ends with an index between the bounds, in the same items in another order.
  abbrev Splits : List A → ℕ → ℕ → Run (ℕ × List A) → Type ℓ
  Splits items low high run =
      (k : ℕ) × (items' : List A) × (run ≡ done (k, items'))
      × Perm items items'
      × (length items' ≡ length items)
      × (low ≤ k)
      × (k ≤ high)

  partition_loop-Splits :
      (rounds j k : ℕ) (pivot : A) (items : List A)
      → j + rounds < length items
      → k ≤ j
      → Splits items k (j + rounds) (partition_loop compare_objs rounds j k pivot items)
  unfolding partition_loop
  partition_loop-Splits zero j k pivot items h h' =
      (k, items, refl, Perm.refl items, refl, omega arith, omega arith)
  partition_loop-Splits (suc rounds) j k pivot items h h' =
      let (a, run, _) = read_inside items j (omega arith) in
      elim (Bool-cases (is_below (compare_objs a pivot))) [
        | inl less ↦
            let (items', swaps, p, size) =
              swap_items-Rearranges items k j (omega arith) (omega arith) in
            let (k', items'', run', p', size', lo, hi) =
              partition_loop-Splits rounds (j + 1) (k + 1) pivot items' (omega (arith, size))
                (omega arith) in
            (
              k',
              items'',
              rw (run, ◌>>=◌, less, swaps, ◌>>=◌) run',
              Perm.trans p p',
              size' ∙ size,
              omega (arith, lo),
              omega (arith, hi),
            )
        | inr more ↦
            let (k', items'', run', p', size', lo, hi) =
              partition_loop-Splits rounds (j + 1) k pivot items (omega arith) (omega arith) in
            (k', items'', rw (run, ◌>>=◌, more) run', p', size', lo, omega (arith, hi))
      ]

  partition-Splits :
      (items : List A) (low high : ℕ)
      → low ≤ high
      → high < length items
      → Splits items low high (partition compare_objs items low high)
  unfolding partition
  partition-Splits items low high h inside =
      let (pivot, run, _) = read_inside items high inside in
      let (k, items', run', p, size, lo, hi) =
        partition_loop-Splits (high - low) low low pivot items (omega arith) (omega arith) in
      let (items'', swaps, p', size') =
        swap_items-Rearranges items' k high (omega (arith, hi, size)) (omega (arith, size)) in
      (
        k,
        items'',
        rw (run, ◌>>=◌, run', swaps),
        Perm.trans p p',
        size' ∙ size,
        lo,
        omega (arith, hi),
      )

  quick_sort_rec-Rearranges :
      (fuel : ℕ) (items : List A) (low above_high : ℕ)
      → low ≤ above_high
      → above_high ≤ length items
      → above_high < low + fuel
      → Rearranges items (quick_sort_rec compare_objs fuel items low above_high)
  unfolding quick_sort_rec
  quick_sort_rec-Rearranges zero items low above_high ordered h enough = absurd (omega arith)
  quick_sort_rec-Rearranges (suc fuel) items low above_high ordered h enough =
      elim (dec_lt (low + 1) above_high) [
        | no short ↦
            let test : ltb (low + 1) above_high ≡ false = ground arith in
            rw test (Rearranges-done items)
        | yes long ↦
            let test : ltb (low + 1) above_high ≡ true = ground arith in
            let (pi, items', run, p, size, lo, hi) =
              partition-Splits items low (above_high - 1) (omega arith) (omega arith) in
            let (items'', run', p', size') =
              Rearranges-bind items' _ _
                (quick_sort_rec-Rearranges fuel items' low pi lo (omega (arith, hi, size))
                  (omega (arith, hi)))
                (λ t size''.
                  quick_sort_rec-Rearranges fuel t (pi + 1) above_high (omega (arith, hi))
                    (omega (arith, size, size'')) (omega (arith, lo))) in
            (items'', rw (test, run, ◌>>=◌) run', Perm.trans p p', size' ∙ size)
      ]

  -- `sort_quick` ends without an access outside of the list, in a permutation of the items.
  pub sort_quick-Rearranges : (items : List A) → Rearranges items (sort_quick compare_objs items)
  unfolding sort_quick
  sort_quick-Rearranges items = elim (dec_lt (length items) 2) [
    | yes short ↦
        let test : ltb (length items) 2 ≡ true = ground arith in rw test (Rearranges-done items)
    | no long ↦
        let test : ltb (length items) 2 ≡ false = ground arith in
        rw test (
          quick_sort_rec-Rearranges (length items + 1) items 0 (length items) (omega arith)
            (omega arith) (omega arith))
  ]
