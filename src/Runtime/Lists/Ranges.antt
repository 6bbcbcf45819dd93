-- ===== src/Runtime/Lists/Ranges.antt =====
-- slice, reversed_seq and sorted read no item outside of the list.
use mathlib.Core.List.{append-nil, reverse, reverse_aux}
use abscom.Prelude.{
  ℕ, zero, suc, ◌+◌, ◌-◌, ◌≤◌, ◌<◌, ◌≡◌, refl, sym, ap, ◌∙◌, Bool, some, List, [], ◌∷◌, ◌++◌, arith,
  take, drop, Perm, take_all, ltb, if◌then◌else◌,
}
use abscom.Prelude.Int.{ℤ, pos, negsuc}
use abscom.Prelude.Run.{Run, done, ◌>>=◌}
use abscom.Sort.Exchanging.{sort_bubble-Rearranges}
use abscom.Runtime.Values.Defs.{
  Floats, Value, Items, list_value, nil, cons, size_items, compare_objs,
}
use abscom.Runtime.Values.Arith.{append_item}
use abscom.Runtime.Lists.Defs.{to_list, to_items, item_at, reverse_loop, reversed_seq}
use abscom.Runtime.Lists.Testing.{opposite, sorted}
use abscom.Runtime.Lists.Contents.{append_front, length-to_list, from_list}

-- The place of a bound in a list of n items: a negative one counts from the end, and is 0 in front of the list.
abbrev pub place : ℤ → ℕ → ℕ
place (pos i) n = i
place (negsuc i) n = n - suc i

abbrev pub smaller : ℕ → ℕ → ℕ
smaller n i = if ltb n i then n else i

module _ {F : Type 0} where
  -- An index inside has an item, which is the first of what stands from there on.
  item_inside :
      (xs : Items F) (i : ℕ)
      → i < size_items xs
      → (x : Value F) × (item_at xs i ≡ some x)
        × (drop i (to_list xs) ≡ x ∷ drop (i + 1) (to_list xs))
        × (take (suc i) (to_list xs) ≡ take i (to_list xs) ++ x ∷ [])
  unfolding size_items item_at
  item_inside nil i h = absurd (omega (arith, h))
  item_inside (cons x xs) zero h = (x, refl, refl, refl)
  item_inside (cons x xs) (suc i) h =
      let (y, e, rest, front) = item_inside xs i (omega (arith, h)) in
      let k : suc i + 1 ≡ suc (i + 1) = omega arith in
      (y, e, rest ∙ ap (λ k. y ∷ drop k (x ∷ to_list xs)) (sym k), ap (λ r. x ∷ r) front)

  reverse_aux-last :
      (ys : List (Value F)) (x : Value F) (r : List (Value F))
      → reverse_aux (ys ++ x ∷ []) r ≡ x ∷ reverse_aux ys r
  reverse_aux-last [] x r = refl
  reverse_aux-last (y ∷ ys) x r = reverse_aux-last ys x (y ∷ r)

  reverse_loop_lem :
      (n : ℕ) (xs res : Items F)
      → n ≤ size_items xs
      → (res' : Items F) × (reverse_loop n xs res ≡ done res')
        × (to_list res' ≡ to_list res ++ reverse (take n (to_list xs)))
  unfolding reverse_loop
  reverse_loop_lem zero xs res h = (res, refl, sym (append-nil (to_list res)))
  reverse_loop_lem (suc n) xs res h =
      let (x, e, _, front) = item_inside xs n (omega (arith, h)) in
      let (res', run, items) = reverse_loop_lem n xs (append_item res x) (omega (arith, h)) in
      (
        res',
        rw (reverse_loop, e) run,
        items
            ∙ append_front res x (reverse (take n (to_list xs)))
            ∙ ap (λ r. to_list res ++ r)
                (sym (ap reverse front ∙ reverse_aux-last (take n (to_list xs)) x [])),
      )

  -- reversed_seq of a list gives its items in the opposite order, and sorted, in either direction, a
  -- permutation of them; neither reads an item outside of the list.
  sorted-Perm :
      (fl : Floats F) (xs : Items F) (reverse_order : Bool)
      → (reversed_seq (list_value xs) ≡ done (list_value (to_items (reverse (to_list xs)))))
        × ((items : List (Value F)) × (sorted fl (list_value xs) reverse_order
              ≡ done (list_value (to_items items)))
            × Perm (to_list xs) items)
  unfolding reversed_seq sorted
  sorted-Perm fl xs reverse_order =
      let (res, run, items) = reverse_loop_lem (size_items xs) xs nil (omega arith) in
      let whole = take_all (size_items xs) (to_list xs) (omega (arith, length-to_list xs)) in
      let (items', run', moved, _) =
        sort_bubble-Rearranges (λ a b. opposite reverse_order (compare_objs fl a b)) (to_list xs) in
      (
        ap (λ (r : Run (Items F)). r >>= λ l. done (list_value l)) run
            ∙ ap done (from_list res _ (items ∙ ap reverse whole)),
        (
          items',
          ap (λ (r : Run (List (Value F))). r >>= λ l. done (list_value (to_items l))) run',
          moved,
        ),
      )
