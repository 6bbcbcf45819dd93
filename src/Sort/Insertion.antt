-- ===== src/Sort/Insertion.antt =====
-- sort_insertion sorts.
use mathlib.Core.List.Perm
use abscom.Prelude.{
  ℕ, zero, suc, ◌+◌, ◌-◌, ◌≤◌, ◌<◌, ◌≡◌, ◌≢◌, inl, inr, refl, ◌∙◌, true, some, List, [], ◌∷◌, arith,
  length, length-set, set, get_elem?, get_elem?-set_same, get_elem?-set_other, Bool-cases,
  ℕ_discrete, dec_lt,
}
use abscom.Prelude.Run.{done, ◌>>=◌}
use abscom.Sort.Defs.{Sign, is_above, is_sorted}
use abscom.Sort.Shifting.{insert_key, insertion_loop, sort_insertion}
use abscom.Sort.Rearranging.{read_inside}
use abscom.Sort.Inserting.{write_inside, sort_insertion-Rearranges}
use abscom.Sort.Ordering.{IsTotal, Le, LeAt, Le-trans, Le-outside, Sorts, Rearranges-Sorts}

module _ {ℓ} {A : Type ℓ} (compare_objs : A → A → Sign) where
  -- The items up to the index `i` are in order.
  abbrev InOrderTo : List A → ℕ → Type 0
  InOrderTo items i = (p q : ℕ) → p < q → q ≤ i → LeAt compare_objs items p q

  -- The items up to `i` are in order, but for a hole at `k`, behind which none is below the key.
  record HasHole (items : List A) (k i : ℕ) (key : A) : Type ℓ where
    sorted : (p q : ℕ) → p < q → q ≤ i → p ≢ k → q ≢ k → LeAt compare_objs items p q
    behind : (q : ℕ) → k < q → q ≤ i → Le compare_objs (some key) (get_elem? items q)

  fill-InOrderTo :
      (items : List A) (k i : ℕ) (key : A)
      → k < length items
      → HasHole items k i key
      → ((p : ℕ) → p < k → Le compare_objs (get_elem? items p) (some key))
      → InOrderTo (set items k key) i
  fill-InOrderTo items k i key inside hole front p q lt le = elim (ℕ_discrete q k) [
    | yes e ↦
        rw
          (
            e,
            get_elem?-set_same items k key inside,
            get_elem?-set_other items p k key (λ e'. absurd (omega (arith, e, e', lt))),
          )
          (front p (omega (arith, e, lt)))
    | no q_k ↦ elim (ℕ_discrete p k) [
      | yes e ↦
          rw (e, get_elem?-set_same items k key inside, get_elem?-set_other items q k key q_k)
            (hole.behind q (omega (arith, e, lt)) le)
      | no p_k ↦
          rw (get_elem?-set_other items q k key q_k, get_elem?-set_other items p k key p_k)
            (hole.sorted p q lt le p_k q_k)
    ]
  ]

  -- The item in front of the hole is moved into it.
  shift-HasHole :
      (items : List A) (j i : ℕ) (a key : A)
      → IsTotal compare_objs
      → suc j < length items
      → suc j ≤ i
      → get_elem? items j ≡ some a
      → is_above (compare_objs a key) ≡ true
      → HasHole items (suc j) i key
      → HasHole (set items (suc j) a) j i key
  shift-HasHole items j i a key o inside le_i ea up hole = record {
    sorted = λ p q lt le p_j q_j. elim (ℕ_discrete q (suc j)) [
      | yes e ↦
          rw
            (
              e,
              get_elem?-set_same items (suc j) a inside,
              get_elem?-set_other items p (suc j) a (λ e'. absurd (omega (arith, e, e', lt))),
            )
            (rw (ea) at (
              hole.sorted p j (omega (arith, e, lt, p_j)) (omega (arith, le_i))
                (λ e'. absurd (omega (arith, e, e', lt))) (λ e'. absurd (omega (arith, e')))))
      | no q_k ↦ elim (ℕ_discrete p (suc j)) [
        | yes e ↦
            rw
              (
                e,
                get_elem?-set_same items (suc j) a inside,
                get_elem?-set_other items q (suc j) a q_k,
              )
              (rw (ea) at
                (hole.sorted j q (omega (arith, e, lt)) le (λ e'. absurd (omega (arith, e'))) q_k))
        | no p_k ↦
            rw
              (get_elem?-set_other items q (suc j) a q_k, get_elem?-set_other items p (suc j) a p_k)
              (hole.sorted p q lt le p_k q_k)
      ]
    ];
    behind = λ q lt le. elim (ℕ_discrete q (suc j)) [
      | yes e ↦ rw (e, get_elem?-set_same items (suc j) a inside) (o.total a key up)
      | no q_k ↦
          rw (get_elem?-set_other items q (suc j) a q_k) (hole.behind q (omega (arith, lt, q_k)) le)
    ];
  }

  insert_key-InOrderTo :
      (k i : ℕ) (key : A) (items : List A)
      → IsTotal compare_objs
      → k ≤ i
      → i < length items
      → HasHole items k i key
      → (items' : List A) × (insert_key compare_objs k key items ≡ done items')
        × (length items' ≡ length items)
        × InOrderTo items' i
  unfolding insert_key
  insert_key-InOrderTo zero i key items o le inside hole = (
    set items 0 key,
    write_inside items 0 key (omega (arith, inside)),
    length-set items 0 key,
    fill-InOrderTo items 0 i key (omega (arith, inside)) hole (λ p lt. absurd (omega (arith, lt))),
  )
  insert_key-InOrderTo (suc j) i key items o le inside hole =
      let k_inside : suc j < length items = omega (arith, le, inside) in
      let (a, run, ea) = read_inside items j (omega (arith, k_inside)) in
      elim (Bool-cases (is_above (compare_objs a key))) [
        | inl up ↦
            let (items', run', size, sorted) =
              insert_key-InOrderTo j i key (set items (suc j) a) o (omega (arith, le))
                (omega (arith, inside, length-set items (suc j) a))
                (shift-HasHole items j i a key o k_inside le ea up hole) in
            (
              items',
              rw (run, ◌>>=◌, up, write_inside items (suc j) a k_inside) run',
              size ∙ length-set items (suc j) a,
              sorted,
            )
        | inr stay ↦ (
          set items (suc j) key,
          rw (run, ◌>>=◌, stay) (write_inside items (suc j) key k_inside),
          length-set items (suc j) key,
          fill-InOrderTo items (suc j) i key k_inside hole (λ p lt. elim (ℕ_discrete p j) [
            | yes e ↦ rw (e, ea) stay
            | no p_j ↦
                let rest = rw (ea) at (
                  hole.sorted p j (omega (arith, lt, p_j)) (omega (arith, le))
                    (λ e. absurd (omega (arith, e, lt))) (λ e. absurd (omega (arith, e)))) in
                Le-trans compare_objs o (get_elem? items p) a (some key) rest stay
          ]),
        )
      ]

  insertion_loop-InOrderTo :
      (rounds i : ℕ) (items : List A)
      → IsTotal compare_objs
      → i + 1 + rounds ≡ length items
      → InOrderTo items i
      → (items' : List A) × (insertion_loop compare_objs rounds (i + 1) items ≡ done items')
        × (length items' ≡ length items)
        × InOrderTo items' (i + rounds)
  unfolding insertion_loop
  insertion_loop-InOrderTo zero i items o left sorted =
      (items, refl, refl, λ p q lt le. sorted p q lt (omega (arith, le)))
  insertion_loop-InOrderTo (suc rounds) i items o left sorted =
      let (key, run, e) = read_inside items (i + 1) (omega (arith, left)) in
      let (items', run', size, sorted') =
        insert_key-InOrderTo (i + 1) (i + 1) key items o (omega arith) (omega (arith, left))
          (record {
            sorted = λ p q lt le p_k q_k. sorted p q lt (omega (arith, le, q_k));
            behind = λ q lt le. absurd (omega (arith, lt, le));
          }) in
      let (items'', run'', size', sorted'') =
        insertion_loop-InOrderTo rounds (i + 1) items' o (omega (arith, left, size)) sorted' in
      (
        items'',
        rw (run, ◌>>=◌, run') run'',
        size' ∙ size,
        λ p q lt le. sorted'' p q lt (omega (arith, le)),
      )

  -- With a total and transitive comparison, `sort_insertion` ends without an access outside of the list, in a
  -- permutation of the items in which no item is above a later one, so that `is_sorted` holds of it.
  pub sort_insertion-Sorts :
      (items : List A)
      → IsTotal compare_objs
      → Sorts compare_objs items (sort_insertion compare_objs items)
  unfolding sort_insertion insertion_loop is_sorted
  sort_insertion-Sorts [] o = ([], refl, Perm.refl [], (λ p q lt. tt), refl)
  sort_insertion-Sorts (x ∷ items) o =
      let n = length (x ∷ items) in
      let (items', run, size, sorted) =
        insertion_loop-InOrderTo (n - 1) 0 (x ∷ items) o (omega arith)
          (λ p q lt le. absurd (omega (arith, lt, le))) in
      Rearranges-Sorts compare_objs (x ∷ items) items' _
        (sort_insertion-Rearranges compare_objs (x ∷ items)) run
        (λ p q lt. elim (dec_lt q n) [
          | yes inside ↦ sorted p q lt (omega (arith, inside))
          | no outside ↦ Le-outside compare_objs items' p q (omega (arith, outside, size))
        ])
