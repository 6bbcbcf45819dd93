-- ===== src/Tests/Sorting.antt =====
-- Sorting and searching lists of numbers.
use abscom.Prelude.{
  ℕ, ◌≡◌, refl, true, false, Option, List, [], ◌∷◌, arith, ltb, ◌==◌, if◌then◌else◌,
}
use abscom.Prelude.Run.{done}
use abscom.Sort.Defs.{
  Sign, below, same, above, is_above, read, write, swap_items, bubble_inner, bubble_outer,
  sort_bubble, select_min, selection_loop, sort_selection, larger, heapify, build_heap, drain_heap,
  sort_heap, partition_loop, partition, quick_sort_rec, sort_quick, is_sorted, binary_search,
}
use abscom.Sort.Ordering.{IsTotal, Sorts}
use abscom.Sort.Bubble.{sort_bubble-Sorts}
use abscom.Sort.Selection.{IsTurned, sort_selection-Sorts}
use abscom.Sort.Insertion.{sort_insertion-Sorts}
use abscom.Sort.Shell.{sort_shell-Sorts}
use abscom.Sort.Shifting.{
  insert_key, insertion_loop, sort_insertion, shell_shift, shell_pass, shell_loop, sort_shell,
  copy_out, copy_in, merge_loop, merge, merge_sort_rec, sort_merge,
}
use abscom.Sort.Heapsort.{sort_heap-Sorts}
use abscom.Sort.Quicksort.{sort_quick-Sorts}
use abscom.Sort.Searching.{IsOrder, Answers, binary_search-Answers}

abbrev by_size : ℕ → ℕ → Sign
by_size x y = if ltb x y then below else if x == y then same else above

abbrev mixed : List ℕ
mixed = 4 ∷ 1 ∷ 3 ∷ 1 ∷ 2 ∷ []

abbrev ordered : List ℕ
ordered = 1 ∷ 1 ∷ 2 ∷ 3 ∷ 4 ∷ []

all_sorts :
    (sort_bubble by_size mixed ≡ done ordered)
    × (sort_selection by_size mixed ≡ done ordered)
    × (sort_heap by_size mixed ≡ done ordered)
    × (sort_quick by_size mixed ≡ done ordered)
unfolding read write swap_items bubble_inner bubble_outer sort_bubble select_min selection_loop
    sort_selection larger heapify build_heap drain_heap sort_heap partition_loop partition
    quick_sort_rec sort_quick
all_sorts = (refl, refl, refl, refl)

shifting_sorts :
    (sort_insertion by_size mixed ≡ done ordered)
    × (sort_shell by_size mixed ≡ done ordered)
    × (sort_merge by_size (λ n m. true) mixed ≡ done ordered)
unfolding read write insert_key insertion_loop sort_insertion shell_shift shell_pass shell_loop
    sort_shell copy_out copy_in merge_loop merge merge_sort_rec sort_merge
shifting_sorts = (refl, refl, refl)

by_size_trans :
    (x y z : ℕ)
    → is_above (by_size x y) ≡ false
    → is_above (by_size y z) ≡ false
    → is_above (by_size x z) ≡ false
by_size_trans x y z h h' = ground (arith, h, h')

by_size-below :
    (x y z : ℕ) → is_above (by_size x y) ≡ false → by_size y z ≡ below → by_size x z ≡ below
by_size-below x y z h h' = ground (arith, h, h')

by_size-above :
    (x y z : ℕ) → is_above (by_size x y) ≡ false → by_size x z ≡ above → by_size y z ≡ above
by_size-above x y z h h' = ground (arith, h, h')

by_size-IsOrder : IsOrder by_size
by_size-IsOrder = record {
  trans = by_size_trans;
  refl_le = λ x. ground arith;
  below_back = by_size-below;
  above_on = by_size-above;
}

ordered_sorted : is_sorted by_size ordered ≡ true
unfolding is_sorted
ordered_sorted = refl

binary_search-Answers_example :
    (answer : Option ℕ) × (binary_search by_size ordered 3 ≡ done answer)
    × Answers by_size ordered 3 answer
binary_search-Answers_example =
    binary_search-Answers by_size ordered 3 by_size-IsOrder ordered_sorted

by_size-IsTotal : IsTotal by_size
by_size-IsTotal = record { trans = by_size_trans; total = λ x y h. ground (arith, h) }

by_size-IsTurned : IsTurned by_size
by_size-IsTurned x y = ground arith

sort_bubble-Sorts_example : Sorts by_size mixed (sort_bubble by_size mixed)
sort_bubble-Sorts_example = sort_bubble-Sorts by_size mixed by_size-IsTotal

sort_selection-Sorts_example : Sorts by_size mixed (sort_selection by_size mixed)
sort_selection-Sorts_example = sort_selection-Sorts by_size mixed by_size-IsTotal by_size-IsTurned

sort_insertion-Sorts_example : Sorts by_size mixed (sort_insertion by_size mixed)
sort_insertion-Sorts_example = sort_insertion-Sorts by_size mixed by_size-IsTotal

sort_shell-Sorts_example : Sorts by_size mixed (sort_shell by_size mixed)
sort_shell-Sorts_example = sort_shell-Sorts by_size mixed by_size-IsTotal

sort_quick-Sorts_example : Sorts by_size mixed (sort_quick by_size mixed)
sort_quick-Sorts_example = sort_quick-Sorts by_size mixed by_size-IsTotal by_size-IsTurned

sort_heap-Sorts_example : Sorts by_size mixed (sort_heap by_size mixed)
sort_heap-Sorts_example = sort_heap-Sorts by_size mixed by_size-IsTotal
