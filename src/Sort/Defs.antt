-- ===== src/Sort/Defs.antt =====
-- Functions of src/abs_sort.c on the items of a list, over the comparison of values. An access outside
-- of the items is a fault. A `for` loop runs on the number of its rounds.
use abscom.Prelude.{
  ℕ, zero, suc, ◌+◌, ◌-◌, ◌*◌, ◌/◌, Bool, true, false, Option, none, some, List, [], ◌∷◌, ltb, ◌==◌,
  if◌then◌else◌, length, get_elem?, set,
}
use abscom.Prelude.Run.{Run, done, fault, ◌>>=◌}

-- The sign of the result of compare_objs.
pub data Sign : Type 0 where
  below same above : Sign

abbrev pub is_above : Sign → Bool
is_above above = true
is_above same = false
is_above below = false

abbrev pub is_below : Sign → Bool
is_below below = true
is_below same = false
is_below above = false

module _ {ℓ} {A : Type ℓ} where
  unfoldable pub read : List A → ℕ → Run A
  read items i = elim (get_elem? items i) [ none ↦ fault | some x ↦ done x ]

  unfoldable pub write : List A → ℕ → A → Run (List A)
  write items i v = if ltb i (length items) then done (set items i v) else fault

  unfoldable pub swap_items : List A → ℕ → ℕ → Run (List A)
  swap_items items i j = do
    temp ← read items i
    other ← read items j
    items' ← write items i other
    write items' j temp

module _ {ℓ} {A : Type ℓ} (compare_objs : A → A → Sign) where
  -- the loop of sort_bubble over j, with the rounds that are left
  unfoldable pub bubble_inner : ℕ → ℕ → List A → Run (List A)
  bubble_inner zero j items = done items
  bubble_inner (suc rounds) j items = do
    a ← read items j
    b ← read items (j + 1)
    items' ← if is_above (compare_objs a b) then swap_items items j (j + 1) else done items
    bubble_inner rounds (j + 1) items'

  -- the loop over i
  unfoldable pub bubble_outer : ℕ → ℕ → ℕ → List A → Run (List A)
  bubble_outer zero n i items = done items
  bubble_outer (suc rounds) n i items = do
    items' ← bubble_inner (n - i - 1) 0 items
    bubble_outer rounds n (i + 1) items'

  unfoldable pub sort_bubble : List A → Run (List A)
  sort_bubble items = bubble_outer (length items - 1) (length items) 0 items

  -- the loop of sort_selection over j: the index of the least item
  unfoldable pub select_min : ℕ → ℕ → ℕ → List A → Run ℕ
  select_min zero j min_idx items = done min_idx
  select_min (suc rounds) j min_idx items = do
    a ← read items j
    b ← read items min_idx
    select_min rounds (j + 1) (if is_below (compare_objs a b) then j else min_idx) items

  unfoldable pub selection_loop : ℕ → ℕ → ℕ → List A → Run (List A)
  selection_loop zero n i items = done items
  selection_loop (suc rounds) n i items = do
    min_idx ← select_min (n - (i + 1)) (i + 1) i items
    items' ← if min_idx == i then done items else swap_items items min_idx i
    selection_loop rounds n (i + 1) items'

  unfoldable pub sort_selection : List A → Run (List A)
  sort_selection items = selection_loop (length items - 1) (length items) 0 items

  -- the new `largest` of heapify, for a child that may be out of the heap
  unfoldable pub larger : List A → ℕ → ℕ → ℕ → Run ℕ
  larger items n child largest =
      if ltb child n
      then (do
        a ← read items child
        b ← read items largest
        done (if is_above (compare_objs a b) then child else largest))
      else done largest

  -- `largest` grows in each call, so `n` calls are enough.
  unfoldable pub heapify : ℕ → List A → ℕ → ℕ → Run (List A)
  heapify zero items n i = fault
  heapify (suc fuel) items n i = do
    l ← larger items n (2 * i + 1) i
    largest ← larger items n (2 * i + 2) l
    if largest == i
        then done items
        else (do items' ← swap_items items i largest; heapify fuel items' n largest)

  -- i from k - 1 down to 0
  unfoldable pub build_heap : ℕ → ℕ → List A → Run (List A)
  build_heap zero n items = done items
  build_heap (suc i) n items = do items' ← heapify (n + 1) items n i; build_heap i n items'

  -- i from k down to 1
  unfoldable pub drain_heap : ℕ → List A → Run (List A)
  drain_heap zero items = done items
  drain_heap (suc i) items = do
    items' ← swap_items items 0 (suc i)
    items'' ← heapify (suc i + 1) items' (suc i) 0
    drain_heap i items''

  unfoldable pub sort_heap : List A → Run (List A)
  sort_heap items = do
    items' ← build_heap (length items / 2) (length items) items
    drain_heap (length items - 1) items'

  -- The loop of partition, where `k` is the source's i + 1; it returns i + 1.
  unfoldable pub partition_loop : ℕ → ℕ → ℕ → A → List A → Run (ℕ × List A)
  partition_loop zero j k pivot items = done (k, items)
  partition_loop (suc rounds) j k pivot items = do
    a ← read items j
    if is_below (compare_objs a pivot)
        then (do items' ← swap_items items k j; partition_loop rounds (j + 1) (k + 1) pivot items')
        else partition_loop rounds (j + 1) k pivot items

  unfoldable pub partition : List A → ℕ → ℕ → Run (ℕ × List A)
  partition items low high = do
    pivot ← read items high
    (k, items') ← partition_loop (high - low) low low pivot items
    items'' ← swap_items items' k high
    done (k, items'')

  -- The bounds of the source are `low` and `above_high - 1`, which may be -1. Each call is on fewer
  -- items, so one more than their number is enough fuel.
  unfoldable pub quick_sort_rec : ℕ → List A → ℕ → ℕ → Run (List A)
  quick_sort_rec zero items low above_high = fault
  quick_sort_rec (suc fuel) items low above_high =
      if ltb (low + 1) above_high
      then (do
        (pi, items') ← partition items low (above_high - 1)
        items'' ← quick_sort_rec fuel items' low pi
        quick_sort_rec fuel items'' (pi + 1) above_high)
      else done items

  unfoldable pub sort_quick : List A → Run (List A)
  sort_quick items =
      if ltb (length items) 2
      then done items
      else quick_sort_rec (length items + 1) items 0 (length items)

  unfoldable pub is_sorted : List A → Bool
  is_sorted [] = true
  is_sorted (x ∷ []) = true
  is_sorted (x ∷ y ∷ items) =
      let rest = is_sorted (y ∷ items) in if is_above (compare_objs x y) then false else rest

  -- The loop of binary_search, where `above_r` is the source's r + 1; none is the result -1.
  unfoldable pub search_loop : ℕ → ℕ → ℕ → List A → A → Run (Option ℕ)
  search_loop zero l above_r items target = fault
  search_loop (suc fuel) l above_r items target =
      if ltb l above_r
      then (let m = l + (above_r - 1 - l) / 2 in
          do
            x ← read items m
            elim (compare_objs x target) [
              | below ↦ search_loop fuel (m + 1) above_r items target
              | same ↦ done (some m)
              | above ↦ search_loop fuel l m items target
            ])
      else done none

  unfoldable pub binary_search : List A → A → Run (Option ℕ)
  binary_search items target =
      if length items == 0
      then done none
      else search_loop (length items + 1) 0 (length items) items target
