-- ===== src/Sort/Selection.antt =====
-- sort_selection sorts.
use mathlib.Core.List.Perm
use abscom.Prelude.{
  ℕ, zero, suc, ◌+◌, ◌-◌, ◌≤◌, ◌<◌, ◌≡◌, ◌≢◌, inl, inr, refl, sym, ◌∙◌, true, false, some, List, [],
  ◌∷◌, arith, ◌==◌, length, get_elem?, Bool-cases, ℕ_discrete, dec_lt,
}
use abscom.Prelude.Run.{done, ◌>>=◌}
use abscom.Sort.Defs.{
  Sign, is_above, is_below, is_sorted, select_min, selection_loop, sort_selection,
}
use abscom.Sort.Rearranging.{read_inside}
use abscom.Sort.Exchanging.{sort_selection-Rearranges}
use abscom.Sort.Ordering.{
  IsTotal, LeAt, Le-trans, Le-refl, Le-outside, Sorts, Rearranges-Sorts, Swapped,
  swap_items-Swapped,
}

module _ {ℓ} {A : Type ℓ} (compare_objs : A → A → Sign) where
  -- The comparison turned round: an item is below another exactly if that one is above it.
  abbrev pub IsTurned : Type ℓ
  IsTurned = (x y : A) → is_below (compare_objs x y) ≡ is_above (compare_objs y x)

  -- The item at `m` is above none from `i` up to `j`.
  abbrev IsLeast : List A → ℕ → ℕ → ℕ → Type 0
  IsLeast items m i j = (q : ℕ) → i ≤ q → q < j → LeAt compare_objs items m q

  -- Each of the first `i` items is above none behind it.
  abbrev IsLow : List A → ℕ → Type 0
  IsLow items i = (p q : ℕ) → p < i → p < q → LeAt compare_objs items p q

  IsLeast-next :
      (items : List A) (m i j : ℕ)
      → IsLeast items m i j
      → LeAt compare_objs items m j
      → IsLeast items m i (j + 1)
  IsLeast-next items m i j least here q from before = elim (ℕ_discrete q j) [
    | yes e ↦ rw (e) here
    | no earlier ↦ least q from (omega (arith, before, earlier))
  ]

  -- A smaller item takes the place of the least.
  IsLeast-new :
      (items : List A) (m i j : ℕ) (a b : A)
      → IsTotal compare_objs
      → get_elem? items j ≡ some a
      → get_elem? items m ≡ some b
      → is_above (compare_objs a b) ≡ false
      → IsLeast items m i j
      → IsLeast items j i (j + 1)
  IsLeast-new items m i j a b o ea eb le least q lo hi = elim (ℕ_discrete q j) [
    | yes e ↦ rw (e) (Le-refl compare_objs o (get_elem? items j))
    | no earlier ↦
        let rest = rw (eb) at (least q lo (omega (arith, hi, earlier))) in
        Le-trans compare_objs o (get_elem? items j) b (get_elem? items q) (rw (ea) le) rest
  ]

  select_min-IsLeast :
      (rounds j m i : ℕ) (items : List A)
      → IsTotal compare_objs
      → IsTurned
      → j + rounds ≤ length items
      → i ≤ m
      → i ≤ j
      → m < length items
      → IsLeast items m i j
      → (m' : ℕ) × (select_min compare_objs rounds j m items ≡ done m')
        × (i ≤ m')
        × (m' < length items)
        × IsLeast items m' i (j + rounds)
  unfolding select_min
  select_min-IsLeast zero j m i items o t inside from past here least =
      (m, refl, from, here, λ q lo hi. least q lo (omega (arith, hi)))
  select_min-IsLeast (suc rounds) j m i items o t inside from past here least =
      let (a, run, ea) = read_inside items j (omega (arith, inside)) in
      let (b, run', eb) = read_inside items m here in
      elim (Bool-cases (is_below (compare_objs a b))) [
        | inl less ↦
            let le : is_above (compare_objs a b) ≡ false = o.total b a (sym (t a b) ∙ less) in
            let (m', done', from', here', least') =
              select_min-IsLeast rounds (j + 1) j i items o t (omega (arith, inside)) past
                (omega (arith, past)) (omega (arith, inside))
                (IsLeast-new items m i j a b o ea eb le least) in
            (
              m',
              rw (run, run', ◌>>=◌, less) done',
              from',
              here',
              λ q lo hi. least' q lo (omega (arith, hi)),
            )
        | inr more ↦
            let le : LeAt compare_objs items m j = rw (ea, eb) (sym (t a b) ∙ more) in
            let (m', done', from', here', least') =
              select_min-IsLeast rounds (j + 1) m i items o t (omega (arith, inside)) from
                (omega (arith, past)) here (IsLeast-next items m i j least le) in
            (
              m',
              rw (run, run', ◌>>=◌, more) done',
              from',
              here',
              λ q lo hi. least' q lo (omega (arith, hi)),
            )
      ]

  IsLow-Swapped :
      (items items' : List A) (m i : ℕ)
      → Swapped items m i items'
      → i ≤ m
      → m < length items
      → m ≢ i
      → IsLeast items m i (length items)
      → IsLow items i
      → IsLow items' (i + 1)
  IsLow-Swapped items items' m i s from here apart least low p q front lt = elim (ℕ_discrete p i) [
    | no before ↦
        let same_p : get_elem? items' p ≡ get_elem? items p =
          s.other p (λ e. absurd (omega (arith, e, before, front, from))) before in
        elim (ℕ_discrete q m) [
          | yes e ↦
              rw (e, s.at_i, same_p)
                (low p i (omega (arith, before, front)) (omega (arith, before, front)))
          | no q_m ↦ elim (ℕ_discrete q i) [
            | yes e ↦
                rw (e, s.at_j, same_p)
                  (low p m (omega (arith, before, front)) (omega (arith, before, front, from)))
            | no q_i ↦ rw (same_p, s.other q q_m q_i) (low p q (omega (arith, before, front)) lt)
          ]
        ]
    | yes first ↦ elim (ℕ_discrete q m) [
      | yes e ↦ rw (first, e, s.at_i, s.at_j) (least i (omega arith) (omega (arith, from, here)))
      | no q_m ↦
          let q_i : q ≢ i = λ e. absurd (omega (arith, e, first, lt)) in
          rw (first, s.at_j, s.other q q_m q_i) (least_of q (omega (arith, first, lt)))
    ]
  ]
    where
      least_of : (q : ℕ) → i ≤ q → LeAt compare_objs items m q
      least_of q lo = elim (dec_lt q (length items)) [
        | yes inside ↦ least q lo inside
        | no outside ↦ Le-outside compare_objs items m q (omega (arith, outside))
      ]

  IsLow-kept :
      (items : List A) (i : ℕ)
      → IsLeast items i i (length items)
      → IsLow items i
      → IsLow items (i + 1)
  IsLow-kept items i least low p q front lt = elim (ℕ_discrete p i) [
    | no before ↦ low p q (omega (arith, front, before)) lt
    | yes e ↦ elim (dec_lt q (length items)) [
      | yes inside ↦ rw (e) (least q (omega (arith, e, lt)) inside)
      | no outside ↦ Le-outside compare_objs items p q (omega (arith, outside))
    ]
  ]

  selection_loop-IsLow :
      (rounds n i : ℕ) (items : List A)
      → IsTotal compare_objs
      → IsTurned
      → n ≡ length items
      → i + rounds + 1 ≡ n
      → IsLow items i
      → (items' : List A) × (selection_loop compare_objs rounds n i items ≡ done items')
        × IsLow items' (i + rounds)
        × (length items' ≡ n)
  unfolding selection_loop
  selection_loop-IsLow zero n i items o t size left low =
      (items, refl, (λ p q front lt. low p q (omega (arith, front)) lt), sym size)
  selection_loop-IsLow (suc rounds) n i items o t size left low =
      let (m, run, from, here, least) =
        select_min-IsLeast (n - (i + 1)) (i + 1) i i items o t (omega (arith, size, left))
          (omega arith) (omega arith) (omega (arith, size, left))
          (λ q lo hi.
            let e : q ≡ i = omega (arith, lo, hi) in
            rw (e) (Le-refl compare_objs o (get_elem? items i))) in
      let all_least : IsLeast items m i (length items) =
        λ q lo hi. least q lo (omega (arith, hi, size, left)) in
      elim (ℕ_discrete m i) [
        | yes e ↦
            let test : (m == i) ≡ true = ground (arith, e) in
            let (items', run', low', size') =
              selection_loop-IsLow rounds n (i + 1) items o t size (omega (arith, left))
                (IsLow-kept items i (rw (e) at all_least) low) in
            (
              items',
              rw (run, ◌>>=◌, test) run',
              (λ p q front lt. low' p q (omega (arith, front)) lt),
              size',
            )
        | no apart ↦
            let test : (m == i) ≡ false = ground (arith, apart) in
            let (moved, s) = swap_items-Swapped items m i here (omega (arith, from, here)) apart in
            let (items', run', low', size') =
              selection_loop-IsLow rounds n (i + 1) moved o t (size ∙ sym s.size)
                (omega (arith, left))
                (IsLow-Swapped items moved m i s from here apart all_least low) in
            (
              items',
              rw (run, ◌>>=◌, test, s.run) run',
              (λ p q front lt. low' p q (omega (arith, front)) lt),
              size',
            )
      ]

  -- With a comparison that is total and transitive and turns around with its arguments, `sort_selection` ends without
  -- an access outside of the list, in a permutation of the items in which no item is above a later one, so that
  -- `is_sorted` holds of it.
  pub sort_selection-Sorts :
      (items : List A)
      → IsTotal compare_objs
      → IsTurned
      → Sorts compare_objs items (sort_selection compare_objs items)
  unfolding sort_selection selection_loop is_sorted
  sort_selection-Sorts [] o t = ([], refl, Perm.refl [], (λ p q lt. tt), refl)
  sort_selection-Sorts (x ∷ items) o t =
      let n = length (x ∷ items) in
      let (items', run, low, size) =
        selection_loop-IsLow (n - 1) n 0 (x ∷ items) o t refl (omega arith)
          (λ p q front lt. absurd (omega (arith, front))) in
      Rearranges-Sorts compare_objs (x ∷ items) items' _
        (sort_selection-Rearranges compare_objs (x ∷ items)) run
        (λ p q lt. elim (dec_lt p (n - 1)) [
          | yes front ↦ low p q (omega (arith, front)) lt
          | no last ↦ Le-outside compare_objs items' p q (omega (arith, last, lt, size))
        ])
