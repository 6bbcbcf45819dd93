-- ===== src/Sort/Bubble.antt =====
-- sort_bubble sorts.
use mathlib.Core.List.Perm
use abscom.Prelude.{
  ℕ, zero, suc, ◌+◌, ◌-◌, ◌≤◌, ◌<◌, ◌≡◌, inl, inr, refl, sym, ◌∙◌, true, false, some, List, [], ◌∷◌,
  arith, length, get_elem?, Bool-cases, ℕ_discrete,
}
use abscom.Prelude.Run.{done, ◌>>=◌}
use abscom.Sort.Defs.{Sign, is_above, is_sorted, bubble_inner, bubble_outer, sort_bubble}
use abscom.Sort.Rearranging.{read_inside}
use abscom.Sort.Exchanging.{sort_bubble-Rearranges}
use abscom.Sort.Ordering.{
  IsTotal, LeAt, Le-trans, Le-refl, Le-outside, Sorts, Rearranges-Sorts, Swapped,
  swap_items-Swapped,
}

module _ {ℓ} {A : Type ℓ} (compare_objs : A → A → Sign) where
  -- No item up to `j` is above the item at `j`.
  abbrev IsTop : List A → ℕ → Type 0
  IsTop items j = (p : ℕ) → p ≤ j → LeAt compare_objs items p j

  -- No item is above one behind it that stands at `m` or later.
  abbrev IsHigh : List A → ℕ → Type 0
  IsHigh items m = (p q : ℕ) → p < q → m ≤ q → LeAt compare_objs items p q

  step_swap-IsTop :
      (items items' : List A) (j : ℕ) (a b : A)
      → IsTotal compare_objs
      → Swapped items j (j + 1) items'
      → get_elem? items j ≡ some a
      → get_elem? items (j + 1) ≡ some b
      → is_above (compare_objs a b) ≡ true
      → IsTop items j
      → IsTop items' (j + 1)
  step_swap-IsTop items items' j a b o s ea eb up top p le = elim (ℕ_discrete p (j + 1)) [
    | yes last ↦ rw (last) (Le-refl compare_objs o (get_elem? items' (j + 1)))
    | no before ↦ elim (ℕ_discrete p j) [
      | yes here ↦ rw (here, s.at_i, s.at_j, ea, eb) (o.total a b up)
      | no front ↦ rw (s.at_j, s.other p front before) (top p (omega (arith, le, before)))
    ]
  ]

  step_swap-IsHigh :
      (items items' : List A) (j m : ℕ)
      → Swapped items j (j + 1) items'
      → j + 1 < m
      → IsHigh items m
      → IsHigh items' m
  step_swap-IsHigh items items' j m s inside high p q lt behind =
      let far : get_elem? items' q ≡ get_elem? items q =
        s.other q (λ e. absurd (omega (arith, e, inside, behind)))
          (λ e. absurd (omega (arith, e, inside, behind))) in
      elim (ℕ_discrete p (j + 1)) [
        | yes last ↦ rw (last, far, s.at_j) (high j q (omega (arith, inside, behind)) behind)
        | no before ↦ elim (ℕ_discrete p j) [
          | yes here ↦
              rw (here, far, s.at_i) (high (j + 1) q (omega (arith, inside, behind)) behind)
          | no front ↦ rw (far, s.other p front before) (high p q lt behind)
        ]
      ]

  step_stay-IsTop :
      (items : List A) (j : ℕ) (a b : A)
      → IsTotal compare_objs
      → get_elem? items j ≡ some a
      → get_elem? items (j + 1) ≡ some b
      → is_above (compare_objs a b) ≡ false
      → IsTop items j
      → IsTop items (j + 1)
  step_stay-IsTop items j a b o ea eb le top p inside = elim (ℕ_discrete p (j + 1)) [
    | yes last ↦ rw (last) (Le-refl compare_objs o (get_elem? items (j + 1)))
    | no before ↦
        let below_a = rw (ea) at (top p (omega (arith, inside, before))) in
        Le-trans compare_objs o (get_elem? items p) a (get_elem? items (j + 1)) below_a (rw (eb) le)
  ]

  bubble_inner-IsTop :
      (rounds j m : ℕ) (items : List A)
      → IsTotal compare_objs
      → j + rounds < length items
      → j + rounds < m
      → IsTop items j
      → IsHigh items m
      → (items' : List A) × (bubble_inner compare_objs rounds j items ≡ done items')
        × (length items' ≡ length items)
        × IsTop items' (j + rounds)
        × IsHigh items' m
  unfolding bubble_inner
  bubble_inner-IsTop zero j m items o inside before top high =
      let e : j ≡ j + 0 = omega arith in (items, refl, refl, rw (← e) top, high)
  bubble_inner-IsTop (suc rounds) j m items o inside before top high =
      let (a, run, ea) = read_inside items j (omega (arith, inside)) in
      let (b, run', eb) = read_inside items (j + 1) (omega (arith, inside)) in
      let k : j + 1 + rounds ≡ j + suc rounds = omega arith in
      elim (Bool-cases (is_above (compare_objs a b))) [
        | inl up ↦
            let (swapped, s) =
              swap_items-Swapped items j (j + 1) (omega (arith, inside)) (omega (arith, inside))
                (λ e. absurd (omega (arith, e))) in
            let (items', done', size, top', high') =
              bubble_inner-IsTop rounds (j + 1) m swapped o (omega (arith, inside, s.size))
                (omega (arith, before)) (step_swap-IsTop items swapped j a b o s ea eb up top)
                (step_swap-IsHigh items swapped j m s (omega (arith, before)) high) in
            (items', rw (run, run', ◌>>=◌, up, s.run) done', size ∙ s.size, rw (k) at top', high')
        | inr le ↦
            let (items', done', size, top', high') =
              bubble_inner-IsTop rounds (j + 1) m items o (omega (arith, inside))
                (omega (arith, before)) (step_stay-IsTop items j a b o ea eb le top) high in
            (items', rw (run, run', ◌>>=◌, le) done', size, rw (k) at top', high')
      ]

  IsTop-at : (items : List A) (j k : ℕ) → j ≡ k → IsTop items j → IsTop items k
  IsTop-at items j k e top = rw (← e) top

  -- The greatest of the first items stands behind the others.
  IsHigh-more : (items : List A) (m : ℕ) → IsTop items m → IsHigh items (m + 1) → IsHigh items m
  IsHigh-more items m top high p q lt behind = elim (ℕ_discrete q m) [
    | yes e ↦ rw (e) (top p (omega (arith, lt, e)))
    | no later ↦ high p q lt (omega (arith, behind, later))
  ]

  bubble_outer-IsHigh :
      (rounds n i : ℕ) (items : List A)
      → IsTotal compare_objs
      → n ≡ length items
      → i + rounds + 1 ≡ n
      → IsHigh items (n - i)
      → (items' : List A) × (bubble_outer compare_objs rounds n i items ≡ done items')
        × IsHigh items' 1
  unfolding bubble_outer
  bubble_outer-IsHigh zero n i items o size left high =
      let e : n - i ≡ 1 = omega (arith, left) in (items, refl, rw (e) at high)
  bubble_outer-IsHigh (suc rounds) n i items o size left high =
      let (items', run, size', top, high') =
        bubble_inner-IsTop (n - i - 1) 0 (n - i) items o (omega (arith, size, left))
          (omega (arith, left))
          (λ p le.
            let e : p ≡ 0 = omega (arith, le) in
            rw (e) (Le-refl compare_objs o (get_elem? items 0)))
          high in
      let place : 0 + (n - i - 1) ≡ n - (i + 1) = omega (arith, left) in
      let (items'', run', sorted) =
        bubble_outer-IsHigh rounds n (i + 1) items' o (size ∙ sym size') (omega (arith, left)) (
          IsHigh-more items' (n - (i + 1)) (IsTop-at items' _ _ place top)
            (λ p q lt behind. high' p q lt (omega (arith, behind, left)))) in
      (items'', rw (run, ◌>>=◌) run', sorted)

  -- With a total and transitive comparison, `sort_bubble` ends without an access outside of the list, in a
  -- permutation of the items in which no item is above a later one, so that `is_sorted` holds of it.
  pub sort_bubble-Sorts :
      (items : List A)
      → IsTotal compare_objs
      → Sorts compare_objs items (sort_bubble compare_objs items)
  unfolding sort_bubble bubble_outer is_sorted
  sort_bubble-Sorts [] o = ([], refl, Perm.refl [], (λ p q lt. tt), refl)
  sort_bubble-Sorts (x ∷ items) o =
      let n = length (x ∷ items) in
      let (items', run, high) =
        bubble_outer-IsHigh (n - 1) n 0 (x ∷ items) o refl (omega arith)
          (λ p q lt behind. Le-outside compare_objs (x ∷ items) p q (omega (arith, behind))) in
      Rearranges-Sorts compare_objs (x ∷ items) items' _
        (sort_bubble-Rearranges compare_objs (x ∷ items)) run
        (λ p q lt. high p q lt (omega (arith, lt)))
