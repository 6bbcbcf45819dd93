-- ===== src/Sort/Heaping.antt =====
-- What heapify of src/abs_sort.c makes of a heap with one item out of place.
use abscom.Prelude.{
  ℕ, zero, suc, ◌+◌, ◌-◌, ◌*◌, ◌/◌, ◌≤◌, ◌<◌, ◌≡◌, ◌≢◌, ◌⊎◌, inl, inr, refl, ap, ◌∙◌, true, false,
  List, arith, ltb, ◌==◌, length, get_elem?, Bool-cases, ℕ_discrete, dec_lt,
}
use abscom.Prelude.Run.{done, ◌>>=◌}
use abscom.Sort.Defs.{Sign, is_above, larger, heapify}
use abscom.Sort.Rearranging.{read_inside, get_elem?-inside}
use abscom.Sort.Ordering.{IsTotal, LeAt, Le-trans, Le-refl, Swapped}
use abscom.Sort.Moving.{swap_items-Swapped_any, Moved, Moved-refl, Moved-trans, Swapped-Moved}

abbrev pub parent : ℕ → ℕ
parent c = (c - 1) / 2

module _ {ℓ} {A : Type ℓ} (compare_objs : A → A → Sign) where
  pub LeAt-trans :
      (items : List A) (p q r : ℕ)
      → IsTotal compare_objs
      → q < length items
      → LeAt compare_objs items p q
      → LeAt compare_objs items q r
      → LeAt compare_objs items p r
  LeAt-trans items p q r o inside le le' =
      let (y, e) = get_elem?-inside items q inside in
      Le-trans compare_objs o (get_elem? items p) y (get_elem? items r) (rw (e) at le)
        (rw (e) at le')

  -- No item whose parent is at `a` or later, of the first `n`, is above its parent.
  abbrev pub IsHeap : List A → ℕ → ℕ → Type 0
  IsHeap items n a = (c : ℕ) → 0 < c → c < n → a ≤ parent c → LeAt compare_objs items c (parent c)

  -- The same but for the children of `i`, which are not above the parent of `i`.
  pub record NearHeap (items : List A) (n a i : ℕ) : Type 0 where
    pub others :
        (c : ℕ) → 0 < c → c < n → a ≤ parent c → parent c ≢ i → LeAt compare_objs items c (parent c)
    pub across :
        (c : ℕ)
        → 0 < c
        → c < n
        → parent c ≡ i
        → 0 < i
        → a ≤ parent i
        → LeAt compare_objs items c (parent i)

  -- The larger of two, one of which may be outside of the heap.
  larger-LeAt :
      (items : List A) (n child largest : ℕ)
      → IsTotal compare_objs
      → n ≤ length items
      → largest < length items
      → (r : ℕ) × (larger compare_objs items n child largest ≡ done r)
        × ((r ≡ largest) ⊎ ((r ≡ child) × (child < n)))
        × LeAt compare_objs items largest r
        × (child < n → LeAt compare_objs items child r)
  unfolding larger
  larger-LeAt items n child largest o h h' = elim (dec_lt child n) [
    | no out ↦
        let test : ltb child n ≡ false = ground arith in
        (
          largest,
          rw (test) refl,
          inl refl,
          Le-refl compare_objs o (get_elem? items largest),
          λ lt. absurd (out lt),
        )
    | yes inside ↦
        let test : ltb child n ≡ true = ground arith in
        let (x, run, ex) = read_inside items child (omega (arith, inside, h)) in
        let (y, run', ey) = read_inside items largest h' in
        elim (Bool-cases (is_above (compare_objs x y))) [
          | inl up ↦ (
            child,
            rw (test, run, run', ◌>>=◌, up) refl,
            inr (refl, inside),
            rw (ex, ey) (o.total x y up),
            λ lt. Le-refl compare_objs o (get_elem? items child),
          )
          | inr stay ↦ (
            largest,
            rw (test, run, run', ◌>>=◌, stay) refl,
            inl refl,
            Le-refl compare_objs o (get_elem? items largest),
            λ lt. rw (ex, ey) stay,
          )
        ]
  ]

  -- The swap of `i` with the largest of its children moves the gap down.
  Swapped-NearHeap :
      (items items' : List A) (n a i largest : ℕ)
      → a ≤ i
      → 0 < largest
      → parent largest ≡ i
      → largest < n
      → Swapped items i largest items'
      → LeAt compare_objs items i largest
      → ((c : ℕ) → 0 < c → c < n → parent c ≡ i → LeAt compare_objs items c largest)
      → NearHeap items n a i
      → NearHeap items' n a largest
  Swapped-NearHeap items items' n a i largest from some_parent child inside s le greatest near =
      record {
        others = λ c some_c lt above_it ne. elim (ℕ_discrete (parent c) i) [
          | yes e ↦
              rw (e, s.at_i)
                (elim (ℕ_discrete c largest) [
                  | yes e' ↦ rw (e', s.at_j) le
                  | no ne' ↦
                      rw (s.other c (λ e'. absurd (omega (arith, e', e, some_c))) ne')
                        (greatest c some_c lt e)
                ])
          | no ne' ↦ rw (s.other (parent c) ne' ne) (elim (ℕ_discrete c i) [
            | yes e ↦
                rw (e, s.at_i)
                  (near.across largest some_parent inside child (omega (arith, e, some_c))
                    (rw (e) at above_it))
            | no ne'' ↦
                rw (s.other c ne'' (λ e. absurd (ne' (ap parent e ∙ child))))
                  (near.others c some_c lt above_it ne')
          ])
        ];
        across = λ c some_c lt e some_largest above_it.
            rw
              (
                child,
                s.at_i,
                s.other c (λ e'. absurd (omega (arith, e', e, child, some_parent, some_c)))
                    (λ e'. absurd (omega (arith, e', e, some_c))),
              )
              (rw (e) at (
                near.others c some_c lt (omega (arith, e, from, child, some_parent))
                  (λ e'. absurd (omega (arith, e', e, child, some_parent)))));
      }

  -- The largest of an item and its children.
  largest-LeAt :
      (items : List A) (n i : ℕ)
      → IsTotal compare_objs
      → n ≤ length items
      → i < n
      → (l largest : ℕ) × (larger compare_objs items n (2 * i + 1) i ≡ done l)
        × (larger compare_objs items n (2 * i + 2) l ≡ done largest)
        × ((largest ≡ i) ⊎ ((0 < largest) × (parent largest ≡ i) × (largest < n)))
        × LeAt compare_objs items i largest
        × ((c : ℕ) → 0 < c → c < n → parent c ≡ i → LeAt compare_objs items c largest)
  largest-LeAt items n i o h inside =
      let (l, run, left, le, le_left) =
        larger-LeAt items n (2 * i + 1) i o h (omega (arith, h, inside)) in
      let l_inside : l < length items = omega (arith, h, inside, left) in
      let (largest, run', right, le', le_right) = larger-LeAt items n (2 * i + 2) l o h l_inside in
      (
        l,
        largest,
        run,
        run',
        elim (ℕ_discrete largest i) [
          | yes e ↦ inl e
          | no ne ↦ inr (
            omega (arith, left, right, ne),
            omega (arith, left, right, ne),
            omega (arith, left, right, ne),
          )
        ],
        LeAt-trans items i l largest o l_inside le le',
        λ c some_c lt e. elim (ℕ_discrete c (2 * i + 1)) [
          | yes e' ↦ rw (e') (
              LeAt-trans items (2 * i + 1) l largest o l_inside (le_left (omega (arith, e', lt)))
                le')
          | no ne ↦
              let is_right : c ≡ 2 * i + 2 = omega (arith, ne, e, some_c) in
              rw (is_right) (le_right (omega (arith, is_right, lt)))
        ],
      )

  -- heapify makes a heap again, and moves nothing before `i` or behind the heap.
  pub heapify-IsHeap :
      (fuel : ℕ) (items : List A) (n a i : ℕ)
      → IsTotal compare_objs
      → n ≤ length items
      → i < n
      → n ≤ fuel + i
      → a ≤ i
      → NearHeap items n a i
      → (items' : List A) × (heapify compare_objs fuel items n i ≡ done items')
        × Moved 0 n items items'
        × IsHeap items' n a
  unfolding heapify
  heapify-IsHeap zero items n a i o h inside enough from near =
      absurd (omega (arith, inside, enough))
  heapify-IsHeap (suc fuel) items n a i o h inside enough from near =
      let (l, largest, run, run', place, le, greatest) = largest-LeAt items n i o h inside in
      elim (ℕ_discrete largest i) [
        | yes stays ↦
            let test : (largest == i) ≡ true = ground (arith, stays) in
            (
              items,
              rw (run, ◌>>=◌, run', test) refl,
              Moved-refl 0 n items,
              λ c some_c lt above_it. elim (ℕ_discrete (parent c) i) [
                | yes e ↦ rw (e) (rw (stays) at (greatest c some_c lt e))
                | no ne ↦ near.others c some_c lt above_it ne
              ],
            )
        | no moves ↦
            let test : (largest == i) ≡ false = ground (arith, moves) in
            let some_parent : 0 < largest = omega (arith, place, moves) in
            let child : parent largest ≡ i = omega (arith, place, moves) in
            let below_n : largest < n = omega (arith, place, moves) in
            let (items', s) =
              swap_items-Swapped_any items i largest (omega (arith, h, inside))
                (omega (arith, h, below_n)) in
            let (items'', run'', m, heap) =
              heapify-IsHeap fuel items' n a largest o (omega (arith, h, s.size)) below_n
                (omega (arith, enough, child, some_parent))
                (omega (arith, from, child, some_parent))
                (Swapped-NearHeap items items' n a i largest from some_parent child below_n s le
                  greatest near) in
            (
              items'',
              rw (run, ◌>>=◌, run', test, s.run, ◌>>=◌) run'',
              Moved-trans 0 n items items' items''
                  (Swapped-Moved 0 n i largest items items' (omega arith) inside (omega arith)
                    below_n s)
                  m,
              heap,
            )
      ]
