-- ===== src/Sort/Heapsort.antt =====
-- sort_heap sorts.
use abscom.Prelude.{
  ℕ, zero, suc, ◌+◌, ◌-◌, ◌/◌, ◌≤◌, ◌<◌, ◌≡◌, refl, sym, ◌∙◌, List, [], ◌∷◌, arith, length,
  get_elem?, ℕ_discrete, dec_lt,
}
use abscom.Prelude.Run.{done, ◌>>=◌}
use abscom.Sort.Defs.{Sign, build_heap, drain_heap, sort_heap}
use abscom.Sort.Heap.{sort_heap-Rearranges}
use abscom.Sort.Ordering.{IsTotal, LeAt, Le-refl, Le-outside, Sorts, Rearranges-Sorts, Swapped}
use abscom.Sort.Moving.{swap_items-Swapped_any, Moved}
use abscom.Sort.Heaping.{parent, LeAt-trans, IsHeap, heapify-IsHeap}

module _ {ℓ} {A : Type ℓ} (compare_objs : A → A → Sign) where
  -- No item of a heap is above the first.
  IsHeap-first :
      (fuel : ℕ) (items : List A) (n c : ℕ)
      → IsTotal compare_objs
      → n ≤ length items
      → IsHeap compare_objs items n 0
      → c < n
      → c ≤ fuel
      → LeAt compare_objs items c 0
  IsHeap-first zero items n c o h heap lt enough =
      let first : c ≡ 0 = omega (arith, enough) in
      rw (first) (Le-refl compare_objs o (get_elem? items 0))
  IsHeap-first (suc fuel) items n c o h heap lt enough = elim (ℕ_discrete c 0) [
    | yes e ↦ rw (e) (Le-refl compare_objs o (get_elem? items 0))
    | no ne ↦
        LeAt-trans compare_objs items c (parent c) 0 o (omega (arith, lt, h))
          (heap c (omega (arith, ne)) lt (omega arith))
          (IsHeap-first fuel items n (parent c) o h heap (omega (arith, lt))
            (omega (arith, enough, ne)))
  ]

  build_heap-IsHeap :
      (k n : ℕ) (items : List A)
      → IsTotal compare_objs
      → n ≡ length items
      → k ≤ n / 2
      → IsHeap compare_objs items n k
      → (items' : List A) × (build_heap compare_objs k n items ≡ done items')
        × (length items' ≡ length items)
        × IsHeap compare_objs items' n 0
  unfolding build_heap
  build_heap-IsHeap zero n items o e h heap = (items, refl, refl, heap)
  build_heap-IsHeap (suc i) n items o e h heap =
      let (items', run, m, heap') =
        heapify-IsHeap compare_objs (n + 1) items n i i o (omega (arith, e)) (omega (arith, h))
          (omega arith) (omega arith)
          (record {
            others = λ c some_c lt from ne. heap c some_c lt (omega (arith, from, ne));
            across = λ c some_c lt e' some_i from. absurd (omega (arith, some_i, from));
          }) in
      let (items'', run', size, heap'') =
        build_heap-IsHeap i n items' o (e ∙ sym m.size) (omega (arith, h)) heap' in
      (items'', rw (run, ◌>>=◌) run', size ∙ m.size, heap'')

  -- No item is above one behind it that stands at `m` or later.
  abbrev IsHigh : List A → ℕ → Type 0
  IsHigh items m = (p q : ℕ) → p < q → m ≤ q → LeAt compare_objs items p q

  IsHigh-Moved :
      (items items' : List A) (m : ℕ) → Moved 0 m items items' → IsHigh items m → IsHigh items' m
  IsHigh-Moved items items' m moved high p q lt behind =
      rw (moved.from_hi q behind) (elim (dec_lt p m) [
        | yes before ↦
            let (r, from, upto, e) = moved.inside p (omega arith) before in
            rw (e) (high r q (omega (arith, upto, behind)) behind)
        | no after ↦ rw (moved.from_hi p (omega (arith, after))) (high p q lt behind)
      ])

  -- The first item of the heap goes behind it.
  Swapped-IsHigh :
      (items items' : List A) (i : ℕ)
      → IsTotal compare_objs
      → suc i < length items
      → Swapped items 0 (suc i) items'
      → IsHeap compare_objs items (suc i + 1) 0
      → IsHigh items (suc i + 1)
      → IsHigh items' (suc i)
  Swapped-IsHigh items items' i o inside s heap high p q lt behind =
      let first = λ (c : ℕ) (lt : c < suc i + 1).
        IsHeap-first c items (suc i + 1) c o (omega (arith, inside)) heap lt (omega arith) in
      elim (ℕ_discrete q (suc i)) [
        | yes e ↦
            rw (e, s.at_j)
              (elim (ℕ_discrete p 0) [
                | yes e' ↦ rw (e', s.at_i) (first (suc i) (omega arith))
                | no ne ↦
                    rw (s.other p ne (λ e'. absurd (omega (arith, e', e, lt))))
                      (first p (omega (arith, lt, e)))
              ])
        | no ne ↦
            rw (s.other q (λ e. absurd (omega (arith, e, behind))) ne) (elim (ℕ_discrete p 0) [
              | yes e ↦
                  rw (e, s.at_i)
                    (high (suc i) q (omega (arith, ne, behind)) (omega (arith, ne, behind)))
              | no ne' ↦ elim (ℕ_discrete p (suc i)) [
                | yes e ↦
                    rw (e, s.at_j) (high 0 q (omega (arith, behind)) (omega (arith, ne, behind)))
                | no ne'' ↦ rw (s.other p ne' ne'') (high p q lt (omega (arith, ne, behind)))
              ]
            ])
      ]

  drain_heap-IsHigh :
      (k : ℕ) (items : List A)
      → IsTotal compare_objs
      → k < length items
      → IsHeap compare_objs items (k + 1) 0
      → IsHigh items (k + 1)
      → (items' : List A) × (drain_heap compare_objs k items ≡ done items') × IsHigh items' 1
  unfolding drain_heap
  drain_heap-IsHigh zero items o h heap high =
      (items, refl, λ p q lt behind. high p q lt (omega (arith, behind)))
  drain_heap-IsHigh (suc i) items o h heap high =
      let (items', s) = swap_items-Swapped_any items 0 (suc i) (omega (arith, h)) h in
      let (items'', run, m, heap') =
        heapify-IsHeap compare_objs (suc i + 1) items' (suc i) 0 0 o (omega (arith, h, s.size))
          (omega arith) (omega arith) (omega arith)
          (record {
            others = λ c some_c lt from ne.
                rw
                  (
                    s.other c (λ e. absurd (omega (arith, e, some_c)))
                        (λ e. absurd (omega (arith, e, lt))),
                    s.other (parent c) ne (λ e. absurd (omega (arith, e, lt))),
                  )
                  (heap c some_c (omega (arith, lt)) from);
            across = λ c some_c lt e some_i from. absurd (omega (arith, some_i));
          }) in
      let (items₃, run', high') =
        drain_heap-IsHigh i items'' o (omega (arith, h, s.size, m.size))
          (λ c some_c lt from. heap' c some_c (omega (arith, lt)) from)
          (λ p q lt behind.
            IsHigh-Moved items' items'' (suc i) m (Swapped-IsHigh items items' i o h s heap high) p
              q lt (omega (arith, behind))) in
      (items₃, rw (s.run, ◌>>=◌, run, ◌>>=◌) run', high')

  -- With a total and transitive comparison, `sort_heap` ends without an access outside of the list, in a permutation of
  -- the items in which no item is above a later one, so that `is_sorted` holds of it.
  pub sort_heap-Sorts :
      (items : List A)
      → IsTotal compare_objs
      → Sorts compare_objs items (sort_heap compare_objs items)
  unfolding sort_heap build_heap drain_heap
  sort_heap-Sorts [] o =
      Rearranges-Sorts compare_objs [] [] _ (sort_heap-Rearranges compare_objs []) refl
        (λ p q lt. tt)
  sort_heap-Sorts (x ∷ items) o =
      let n = length (x ∷ items) in
      let (items', run, size, heap) =
        build_heap-IsHeap (n / 2) n (x ∷ items) o refl (omega arith)
          (λ c some_c lt from. absurd (omega (arith, some_c, lt, from))) in
      let (items'', run', high) =
        drain_heap-IsHigh (n - 1) items' o (omega (arith, size))
          (λ c some_c lt from. heap c some_c (omega (arith, lt)) from)
          (λ p q lt behind. Le-outside compare_objs items' p q (omega (arith, behind, size))) in
      Rearranges-Sorts compare_objs (x ∷ items) items'' _
        (sort_heap-Rearranges compare_objs (x ∷ items)) (rw (run, ◌>>=◌) run')
        (λ p q lt. high p q lt (omega (arith, lt)))
