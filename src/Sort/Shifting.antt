-- ===== src/Sort/Shifting.antt =====
-- sort_insertion, sort_shell and sort_merge of src/abs_sort.c: the sorts that
-- write items over others. An index that the source counts down below 0 is kept one higher here.
use abscom.Prelude.{
  ℕ, zero, suc, ◌+◌, ◌-◌, ◌/◌, Bool, List, [], ◌∷◌, ltb, leb, ◌==◌, if◌then◌else◌, length,
}
use abscom.Prelude.Run.{Run, done, fault, ◌>>=◌}
use abscom.Sort.Defs.{Sign, is_above, read, write}

module _ {ℓ} {A : Type ℓ} (compare_objs : A → A → Sign) where
  -- The `while` loop of sort_insertion, where `k` is the source's j + 1, and the write behind it.
  unfoldable pub insert_key : ℕ → A → List A → Run (List A)
  insert_key zero key items = write items zero key
  insert_key (suc j) key items = do
    a ← read items j
    if is_above (compare_objs a key)
        then (do items' ← write items (suc j) a; insert_key j key items')
        else write items (suc j) key

  unfoldable pub insertion_loop : ℕ → ℕ → List A → Run (List A)
  insertion_loop zero i items = done items
  insertion_loop (suc rounds) i items = do
    key ← read items i
    items' ← insert_key i key items
    insertion_loop rounds (i + 1) items'

  unfoldable pub sort_insertion : List A → Run (List A)
  sort_insertion items = insertion_loop (length items - 1) 1 items

  -- The loop of sort_shell over j, and the write behind it; j falls by the gap, so `j + 1` rounds are enough.
  unfoldable pub shell_shift : ℕ → ℕ → ℕ → A → List A → Run (List A)
  shell_shift zero gap j temp items = fault
  shell_shift (suc fuel) gap j temp items =
      if leb gap j
      then (do
        a ← read items (j - gap)
        if is_above (compare_objs a temp)
            then (do items' ← write items j a; shell_shift fuel gap (j - gap) temp items')
            else write items j temp)
      else write items j temp

  unfoldable pub shell_pass : ℕ → ℕ → ℕ → List A → Run (List A)
  shell_pass zero gap i items = done items
  shell_pass (suc rounds) gap i items = do
    temp ← read items i
    items' ← shell_shift (i + 1) gap i temp items
    shell_pass rounds gap (i + 1) items'

  -- The gap is halved in each round, so the length of the list is enough fuel.
  unfoldable pub shell_loop : ℕ → ℕ → List A → Run (List A)
  shell_loop zero gap items = if gap == 0 then done items else fault
  shell_loop (suc fuel) gap items = if gap == 0 then done items else (do
    items' ← shell_pass (length items - gap) gap gap items
    shell_loop fuel (gap / 2) items')

  unfoldable pub sort_shell : List A → Run (List A)
  sort_shell items = shell_loop (length items) (length items / 2) items

  -- `n` items from index `from` on, copied out of the list
  unfoldable pub copy_out : ℕ → ℕ → List A → Run (List A)
  copy_out zero from items = done []
  copy_out (suc n) from items = do
    x ← read items from
    rest ← copy_out n (from + 1) items
    done (x ∷ rest)

  -- items written from index `k` on
  unfoldable pub copy_in : List A → ℕ → List A → Run (List A)
  copy_in [] k items = done items
  copy_in (x ∷ xs) k items = do items' ← write items k x; copy_in xs (k + 1) items'

  -- The three `while` loops of merge, with what is left of L and R.
  unfoldable pub merge_loop : List A → List A → ℕ → List A → Run (List A)
  merge_loop [] right k items = copy_in right k items
  merge_loop (x ∷ left) [] k items = copy_in (x ∷ left) k items
  merge_loop (x ∷ left) (y ∷ right) k items =
      if is_above (compare_objs x y)
      then (do items' ← write items k y; merge_loop (x ∷ left) right (k + 1) items')
      else (do items' ← write items k x; merge_loop left (y ∷ right) (k + 1) items')

  -- `allocates n1 n2` holds if both calls of malloc succeed.
  unfoldable pub merge : (ℕ → ℕ → Bool) → List A → ℕ → ℕ → ℕ → Run (List A)
  merge allocates items l m r =
      if allocates (m - l + 1) (r - m)
      then (do
        left ← copy_out (m - l + 1) l items
        right ← copy_out (r - m) (m + 1) items
        merge_loop left right l items)
      else done items

  unfoldable pub merge_sort_rec : (ℕ → ℕ → Bool) → ℕ → List A → ℕ → ℕ → Run (List A)
  merge_sort_rec allocates zero items l r = fault
  merge_sort_rec allocates (suc fuel) items l r =
      if ltb l r
      then (let m = l + (r - l) / 2 in
          do
            items' ← merge_sort_rec allocates fuel items l m
            items'' ← merge_sort_rec allocates fuel items' (m + 1) r
            merge allocates items'' l m r)
      else done items

  -- Each call is on fewer items, so their number is enough fuel.
  unfoldable pub sort_merge : (ℕ → ℕ → Bool) → List A → Run (List A)
  sort_merge allocates items =
      if ltb (length items) 2
      then done items
      else merge_sort_rec allocates (length items) items 0 (length items - 1)
