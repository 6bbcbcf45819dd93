-- ===== src/Sort/Quicksort.antt =====
-- sort_quick sorts.
use abscom.Prelude.{
  ℕ, zero, suc, ◌+◌, ◌-◌, ◌≤◌, ◌<◌, ◌≡◌, refl, ◌∙◌, true, false, some, List, arith, ltb, length,
  get_elem?, ℕ_discrete, dec_lt,
}
use abscom.Prelude.Run.{done, ◌>>=◌}
use abscom.Sort.Defs.{Sign, quick_sort_rec, sort_quick}
use abscom.Sort.Quick.{sort_quick-Rearranges}
use abscom.Sort.Ordering.{IsTotal, LeAt, Le-trans, Le-outside, Sorts, Rearranges-Sorts}
use abscom.Sort.Selection.{IsTurned}
use abscom.Sort.Partition.{AtMost, AtLeast, AtMost-Moved, AtLeast-Moved, Parted, partition-Parted}
use abscom.Sort.Moving.{Moved, Moved-refl, Moved-trans, Moved-wider}

module _ {ℓ} {A : Type ℓ} (compare_objs : A → A → Sign) where
  -- No item between the bounds is above a later one between them.
  abbrev InOrderFrom : List A → ℕ → ℕ → Type 0
  InOrderFrom items lo hi = (p q : ℕ) → lo ≤ p → p < q → q < hi → LeAt compare_objs items p q

  -- Both sides of the pivot in order, one after the other.
  parts-InOrderFrom :
      (low above_high : ℕ) (items items' items'' items₃ : List A) (k : ℕ) (pivot : A)
      → IsTotal compare_objs
      → Parted compare_objs low above_high items items' k pivot
      → Moved low k items' items''
      → InOrderFrom items'' low k
      → Moved (k + 1) above_high items'' items₃
      → InOrderFrom items₃ (k + 1) above_high
      → InOrderFrom items₃ low above_high
  parts-InOrderFrom low above_high items items' items'' items₃ k pivot o part m left m' right p q
        from lt upto =
      let stays : get_elem? items₃ k ≡ some pivot =
        m'.below_lo k (omega arith) ∙ m.from_hi k (omega arith) ∙ part.here in
      let most : AtMost compare_objs items'' low k pivot =
        AtMost-Moved compare_objs items' items'' low k pivot m part.most in
      let least : AtLeast compare_objs items₃ (k + 1) above_high pivot =
        AtLeast-Moved compare_objs items'' items₃ (k + 1) above_high pivot m'
          (λ r le lt. rw (m.from_hi r (omega (arith, le))) (part.least r le lt)) in
      elim (dec_lt p k) [
        | yes p_left ↦
            let p_stays = m'.below_lo p (omega (arith, p_left)) in
            elim (dec_lt q k) [
              | yes q_left ↦
                  rw (p_stays, m'.below_lo q (omega (arith, q_left))) (left p q from lt q_left)
              | no q_after ↦ elim (ℕ_discrete q k) [
                | yes e ↦ rw (e, stays, p_stays) (most p from p_left)
                | no ne ↦
                    Le-trans compare_objs o (get_elem? items₃ p) pivot (get_elem? items₃ q)
                      (rw (p_stays) (most p from p_left))
                      (least q (omega (arith, q_after, ne)) upto)
              ]
            ]
        | no p_after ↦ elim (ℕ_discrete p k) [
          | yes e ↦ rw (e, stays) (least q (omega (arith, e, lt)) upto)
          | no ne ↦ right p q (omega (arith, p_after, ne)) lt upto
        ]
      ]

  quick_sort_rec-InOrderFrom :
      (fuel : ℕ) (items : List A) (low above_high : ℕ)
      → IsTotal compare_objs
      → IsTurned compare_objs
      → low ≤ above_high
      → above_high ≤ length items
      → above_high < low + fuel
      → (items' : List A) × (quick_sort_rec compare_objs fuel items low above_high ≡ done items')
        × Moved low above_high items items'
        × InOrderFrom items' low above_high
  unfolding quick_sort_rec
  quick_sort_rec-InOrderFrom zero items low above_high o turned ordered inside enough =
      absurd (omega (arith, enough, ordered))
  quick_sort_rec-InOrderFrom (suc fuel) items low above_high o turned ordered inside enough =
      elim (dec_lt (low + 1) above_high) [
        | no short ↦
            let test : ltb (low + 1) above_high ≡ false = ground arith in
            (
              items,
              rw (test) refl,
              Moved-refl low above_high items,
              λ p q from lt upto. absurd (omega (arith, short, from, lt, upto)),
            )
        | yes long ↦
            let test : ltb (low + 1) above_high ≡ true = ground arith in
            let (k, items', pivot, run, part') =
              partition-Parted compare_objs items low (above_high - 1) turned (omega (arith, long))
                (omega (arith, long, inside)) in
            let top : above_high - 1 + 1 ≡ above_high = omega (arith, long) in
            let part : Parted compare_objs low above_high items items' k pivot = rw top at part' in
            let (items'', run', m, left) =
              quick_sort_rec-InOrderFrom fuel items' low k o turned part.from
                (omega (arith, part.upto, inside, part.moved.size))
                (omega (arith, part.upto, enough)) in
            let (items₃, run'', m', right) =
              quick_sort_rec-InOrderFrom fuel items'' (k + 1) above_high o turned
                (omega (arith, part.upto)) (omega (arith, inside, part.moved.size, m.size))
                (omega (arith, part.from, enough)) in
            (
              items₃,
              rw (test, run, ◌>>=◌, run', ◌>>=◌) run'',
              Moved-trans low above_high items items' items₃ part.moved (
                  Moved-trans low above_high items' items'' items₃
                    (Moved-wider low k low above_high items' items'' (omega arith)
                      (omega (arith, part.upto)) m)
                    (Moved-wider (k + 1) above_high low above_high items'' items₃
                      (omega (arith, part.from)) (omega arith) m')),
              parts-InOrderFrom low above_high items items' items'' items₃ k pivot o part m left m'
                  right,
            )
      ]

  -- With a comparison that is total and transitive and turns around with its arguments, `sort_quick` ends without an
  -- access outside of the list, in a permutation of the items in which no item is above a later one, so that
  -- `is_sorted` holds of it.
  pub sort_quick-Sorts :
      (items : List A)
      → IsTotal compare_objs
      → IsTurned compare_objs
      → Sorts compare_objs items (sort_quick compare_objs items)
  unfolding sort_quick
  sort_quick-Sorts items o turned = elim (dec_lt (length items) 2) [
    | yes short ↦
        let test : ltb (length items) 2 ≡ true = ground arith in
        Rearranges-Sorts compare_objs items items _ (sort_quick-Rearranges compare_objs items)
          (rw (test) refl) (λ p q lt. Le-outside compare_objs items p q (omega (arith, short, lt)))
    | no long ↦
        let test : ltb (length items) 2 ≡ false = ground arith in
        let (items', run, m, sorted) =
          quick_sort_rec-InOrderFrom (length items + 1) items 0 (length items) o turned
            (omega arith) (omega arith) (omega arith) in
        Rearranges-Sorts compare_objs items items' _ (sort_quick-Rearranges compare_objs items)
          (rw (test) run)
          (λ p q lt. elim (dec_lt q (length items)) [
            | yes inside ↦ sorted p q (omega arith) lt inside
            | no outside ↦ Le-outside compare_objs items' p q (omega (arith, outside, m.size))
          ])
  ]
