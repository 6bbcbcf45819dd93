-- ===== src/Sort/Partition.antt =====
-- What partition of src/abs_sort.c leaves between its bounds.
use abscom.Prelude.{
  ℕ, zero, suc, ◌+◌, ◌-◌, ◌≤◌, ◌<◌, ◌≡◌, inl, inr, refl, sym, ◌∙◌, true, false, some, List, arith,
  length, get_elem?, Bool-cases, ℕ_discrete,
}
use abscom.Prelude.Run.{done, ◌>>=◌}
use abscom.Sort.Defs.{Sign, below, same, above, is_above, is_below, partition_loop, partition}
use abscom.Sort.Rearranging.{read_inside}
use abscom.Sort.Ordering.{Le}
use abscom.Sort.Selection.{IsTurned}
use abscom.Sort.Moving.{
  swap_items-Swapped_any, Moved, Moved-refl, Moved-trans, Moved-wider, Swapped-Moved,
}

module _ {ℓ} {A : Type ℓ} (compare_objs : A → A → Sign) where
  below_not-above :
      (x y : A) → is_below (compare_objs x y) ≡ true → is_above (compare_objs x y) ≡ false
  below_not-above x y h =
      elim (compare_objs x y) as (λ s. is_below s ≡ true → is_above s ≡ false) [
        | below ↦ λ e. refl
        | same ↦ λ e. refl
        | above ↦ λ e. absurd cc
      ]
        h

  -- The items between the bounds are not above the pivot, or it is not above them.
  abbrev pub AtMost : List A → ℕ → ℕ → A → Type 0
  AtMost items lo hi pivot =
      (p : ℕ) → lo ≤ p → p < hi → Le compare_objs (get_elem? items p) (some pivot)

  abbrev pub AtLeast : List A → ℕ → ℕ → A → Type 0
  AtLeast items lo hi pivot =
      (p : ℕ) → lo ≤ p → p < hi → Le compare_objs (some pivot) (get_elem? items p)

  pub AtMost-Moved :
      (items items' : List A) (lo hi : ℕ) (pivot : A)
      → Moved lo hi items items'
      → AtMost items lo hi pivot
      → AtMost items' lo hi pivot
  AtMost-Moved items items' lo hi pivot m most p from upto =
      let (q, from', upto', e) = m.inside p from upto in rw (e) (most q from' upto')

  pub AtLeast-Moved :
      (items items' : List A) (lo hi : ℕ) (pivot : A)
      → Moved lo hi items items'
      → AtLeast items lo hi pivot
      → AtLeast items' lo hi pivot
  AtLeast-Moved items items' lo hi pivot m least p from upto =
      let (q, from', upto', e) = m.inside p from upto in rw (e) (least q from' upto')

  partition_loop-Moved :
      (rounds lo j k : ℕ) (pivot : A) (items : List A)
      → IsTurned compare_objs
      → j + rounds < length items
      → lo ≤ k
      → k ≤ j
      → AtMost items lo k pivot
      → AtLeast items k j pivot
      → (k' : ℕ) × (items' : List A) × (partition_loop compare_objs rounds j k pivot items
          ≡ done (k', items'))
        × (lo ≤ k')
        × (k' ≤ j + rounds)
        × Moved lo (j + rounds) items items'
        × AtMost items' lo k' pivot
        × AtLeast items' k' (j + rounds) pivot
  unfolding partition_loop
  partition_loop-Moved zero lo j k pivot items turned inside from upto most least = (
    k,
    items,
    refl,
    from,
    omega (arith, upto),
    Moved-refl lo (j + 0) items,
    most,
    λ p le lt. least p le (omega (arith, lt)),
  )
  partition_loop-Moved (suc rounds) lo j k pivot items turned inside from upto most least =
      let (a, run, here) = read_inside items j (omega (arith, inside)) in
      elim (Bool-cases (is_below (compare_objs a pivot))) [
        | inl less ↦
            let (items', s) =
              swap_items-Swapped_any items k j (omega (arith, inside, upto))
                (omega (arith, inside)) in
            let m =
              Swapped-Moved lo (j + suc rounds) k j items items' from (omega (arith, upto))
                (omega (arith, from, upto)) (omega arith) s in
            let (k', items'', run', from', upto', m', most', least') =
              partition_loop-Moved rounds lo (j + 1) (k + 1) pivot items' turned
                (omega (arith, inside, s.size)) (omega (arith, from)) (omega (arith, upto))
                (λ p le lt. elim (ℕ_discrete p k) [
                  | yes e ↦ rw (e, s.at_i, here) (below_not-above a pivot less)
                  | no ne ↦
                      rw (s.other p ne (λ e. absurd (omega (arith, e, ne, lt, upto))))
                        (most p le (omega (arith, lt, ne)))
                ])
                (λ p le lt. elim (ℕ_discrete p j) [
                  | yes e ↦ rw (e, s.at_j) (least k (omega arith) (omega (arith, e, le)))
                  | no ne ↦
                      rw (s.other p (λ e. absurd (omega (arith, e, le))) ne)
                        (least p (omega (arith, le)) (omega (arith, lt, ne)))
                ]) in
            let rounds_left : (j + 1) + rounds ≡ j + suc rounds = omega arith in
            (
              k',
              items'',
              rw (run, ◌>>=◌, less, s.run, ◌>>=◌) run',
              from',
              omega (arith, upto'),
              Moved-trans lo (j + suc rounds) items items' items'' m (rw rounds_left at m'),
              most',
              λ p le lt. least' p le (omega (arith, lt)),
            )
        | inr more ↦
            let up : is_above (compare_objs pivot a) ≡ false = sym (turned a pivot) ∙ more in
            let (k', items'', run', from', upto', m', most', least') =
              partition_loop-Moved rounds lo (j + 1) k pivot items turned (omega (arith, inside))
                from (omega (arith, upto)) most
                (λ p le lt. elim (ℕ_discrete p j) [
                  | yes e ↦ rw (e, here) up
                  | no ne ↦ least p le (omega (arith, lt, ne))
                ]) in
            let rounds_left : (j + 1) + rounds ≡ j + suc rounds = omega arith in
            (
              k',
              items'',
              rw (run, ◌>>=◌, more) run',
              from',
              omega (arith, upto'),
              rw rounds_left at m',
              most',
              λ p le lt. least' p le (omega (arith, lt)),
            )
      ]

  -- The pivot is at `k`, between what is not above it and what it is not above.
  pub record Parted (low above_high : ℕ) (items items' : List A) (k : ℕ) (pivot : A) : Type ℓ where
    pub from : low ≤ k
    pub upto : k < above_high
    pub moved : Moved low above_high items items'
    pub here : get_elem? items' k ≡ some pivot
    pub most : AtMost items' low k pivot
    pub least : AtLeast items' (k + 1) above_high pivot

  pub partition-Parted :
      (items : List A) (low high : ℕ)
      → IsTurned compare_objs
      → low ≤ high
      → high < length items
      → (k : ℕ) × (items' : List A) × (pivot : A) × (partition compare_objs items low high
          ≡ done (k, items'))
        × Parted low (high + 1) items items' k pivot
  unfolding partition
  partition-Parted items low high turned ordered inside =
      let (pivot, run, here) = read_inside items high inside in
      let (k, items', run', from, upto, m, most, least) =
        partition_loop-Moved (high - low) low low low pivot items turned
          (omega (arith, inside, ordered)) (omega arith) (omega arith)
          (λ p le lt. absurd (omega (arith, le, lt))) (λ p le lt. absurd (omega (arith, le, lt))) in
      let high_again : low + (high - low) ≡ high = omega (arith, ordered) in
      let (items'', s) =
        swap_items-Swapped_any items' k high (omega (arith, upto, inside, m.size, ordered))
          (omega (arith, inside, m.size)) in
      (
        k,
        items'',
        pivot,
        rw (run, ◌>>=◌, run', ◌>>=◌, s.run) refl,
        record {
          from = from;
          upto = omega (arith, upto, ordered);
          moved =
              Moved-trans low (high + 1) items items' items''
                (Moved-wider low (low + (high - low)) low (high + 1) items items' (omega arith)
                  (omega (arith, ordered)) m)
                (Swapped-Moved low (high + 1) k high items' items'' from
                  (omega (arith, upto, ordered)) ordered (omega arith) s);
          here = s.at_i ∙ m.from_hi high (omega (arith, high_again)) ∙ here;
          most = λ p le lt.
              rw
                (s.other p (λ e. absurd (omega (arith, e, lt)))
                  (λ e. absurd (omega (arith, e, lt, upto, ordered))))
                (most p le lt);
          least = λ p le lt. elim (ℕ_discrete p high) [
            | yes e ↦ rw (e, s.at_j) (least k (omega arith) (omega (arith, e, le, high_again)))
            | no ne ↦
                rw (s.other p (λ e. absurd (omega (arith, e, le))) ne)
                  (least p (omega (arith, le)) (omega (arith, lt, ne, high_again)))
          ];
        },
      )
