-- ===== src/Itertools/Streams.antt =====
-- What the iterators yield, call after call.
use abscom.Prelude.{
  ℕ, zero, suc, ◌+◌, ◌-◌, ◌≤◌, ◌<◌, ◌≡◌, refl, ap, ◌∙◌, true, false, Option, none, some, List, [],
  ◌∷◌, ◌++◌, arith, ltb, leb, ◌==◌, if◌then◌else◌, length, length-append, get_elem?, drop,
  replicate, replicate, dec_lt, Option-cases, inl, inr,
}
use abscom.Prelude.Run.{done, ◌>>=◌}
use abscom.Prelude.Int.{ℤ}
use abscom.Itertools.Defs.{
  Iterator, count_of, or_else, chain, cycle, repeat, list_pointer, items_or_nil, take_item,
  next_repeat, next_chain, next_cycle, iter_next, next_all,
}

module _ {ℓ} {V : Type ℓ} (none_value : V) where
  -- The first `n` answers of a finite stream: its items, and then None.
  pub answers : ℕ → List V → List (Option V)
  answers zero items = []
  answers (suc n) [] = some none_value ∷ answers n []
  answers (suc n) (v ∷ items) = some v ∷ answers n items

-- The first `n` answers of a stream that goes on with `v ∷ items` whenever it is out of items.
pub rounds {ℓ} : {V : Type ℓ} → ℕ → V → List V → List V → List (Option V)
rounds zero v items rest = []
rounds (suc n) v items [] = some v ∷ rounds n v items items
rounds (suc n) v items (w ∷ rest) = some w ∷ rounds n v items rest

module _ {ℓ} {A : Type ℓ} where
  drop_at :
      (xs : List A) (i : ℕ) (x : A) → get_elem? xs i ≡ some x → drop i xs ≡ x ∷ drop (suc i) xs
  drop_at [] i x e = absurd cc
  drop_at (y ∷ xs) zero x e = let same : y ≡ x = cc in rw same
  drop_at (y ∷ xs) (suc i) x e = drop_at xs i x e

  drop_out : (xs : List A) (i : ℕ) → length xs ≤ i → drop i xs ≡ []
  drop_out [] zero h = refl
  drop_out [] (suc i) h = refl
  drop_out (x ∷ xs) zero h = absurd (omega arith)
  drop_out (x ∷ xs) (suc i) h = drop_out xs i (omega arith)

  inside : (xs : List A) (i : ℕ) → i < length xs → (x : A) × (get_elem? xs i ≡ some x)
  inside [] i h = absurd (omega arith)
  inside (x ∷ xs) zero h = (x, refl)
  inside (x ∷ xs) (suc i) h = inside xs i (omega arith)

  append_left : (xs ys : List A) (i : ℕ) → i < length xs → get_elem? (xs ++ ys) i ≡ get_elem? xs i
  append_left [] ys i h = absurd (omega arith)
  append_left (x ∷ xs) ys zero h = refl
  append_left (x ∷ xs) ys (suc i) h = append_left xs ys i (omega arith)

  append_right : (xs ys : List A) (k : ℕ) → get_elem? (xs ++ ys) (length xs + k) ≡ get_elem? ys k
  append_right [] ys k = let e : 0 + k ≡ k = omega arith in ap (get_elem? ys) e
  append_right (x ∷ xs) ys k =
      let e : length (x ∷ xs) + k ≡ suc (length xs + k) = omega arith in
      ap (get_elem? (x ∷ (xs ++ ys))) e ∙ append_right xs ys k

module _ {ℓ} {V : Type ℓ} (none_value : V) (items_of : V → Option (List V)) where
  repeat_answers :
      (n i limit count : ℕ) (v : V)
      → limit ≡ i + count
      → next_all none_value items_of n
          (record { source_a = some v; source_b = none; index = i; mode = 2; limit = limit })
        ≡ done (answers none_value n (replicate count v))
  unfolding next_all iter_next next_repeat answers
  repeat_answers zero i limit count v e = refl
  repeat_answers (suc n) i limit zero v e =
      let test : ltb i limit ≡ false = ground (arith, e) in
      rw (test, ◌>>=◌, repeat_answers n i limit zero v e)
  repeat_answers (suc n) i limit (suc count) v e =
      let test : ltb i limit ≡ true = ground (arith, e) in
      rw (test, ◌>>=◌, repeat_answers n (i + 1) limit count v (omega (arith, e)))

  -- `repeat` of a value yields it as many times as asked for, and then None; none for a negative count.
  repeat-answers :
      (n : ℕ) (v : V) (count : ℤ)
      → next_all none_value items_of n (repeat none_value items_of (some v) count)
        ≡ done (answers none_value n (replicate (count_of count) v))
  unfolding repeat
  repeat-answers n v count = repeat_answers n 0 (count_of count) (count_of count) v (omega arith)

  -- The iterator of chain at index `i`, and its items in a row.
  abbrev chained : Option V → V → ℕ → Iterator V
  chained a b i = record { source_a = a; source_b = some b; index = i; mode = 0; limit = 0 }

  abbrev pub in_a_row : Option V → V → List V
  in_a_row a b = items_or_nil none_value items_of a ++ items_or_nil none_value items_of (some b)

  row_list :
      (b : V) (ys : List V) → items_of b ≡ some ys → items_or_nil none_value items_of (some b) ≡ ys
  unfolding items_or_nil
  row_list b ys e = rw (items_or_nil, e)

  row_none : (b : V) → items_of b ≡ none → items_or_nil none_value items_of (some b) ≡ []
  unfolding items_or_nil
  row_none b e = rw (items_or_nil, e)

  length-row :
      (a : Option V) (b : V) (ys : List V)
      → items_or_nil none_value items_of (some b) ≡ ys
      → length (in_a_row a b) ≡ length (items_or_nil none_value items_of a) + length ys
  length-row a b ys e =
      length-append (items_or_nil none_value items_of a) _
      ∙ ap (λ (zs : List V). length (items_or_nil none_value items_of a) + length zs) e

  next_chain-yields :
      (a : Option V) (b : V) (i : ℕ)
      → i < length (in_a_row a b)
      → (v : V) × (get_elem? (in_a_row a b) i ≡ some v)
        × (iter_next none_value items_of (chained a b i) ≡ done (some v, chained a b (i + 1)))
  unfolding iter_next next_chain take_item
  next_chain-yields a b i h =
      let xs = items_or_nil none_value items_of a in
      elim (dec_lt i (length xs)) [
        | yes first ↦
            let test : ltb i (length xs) ≡ true = ground arith in
            let (v, e) = inside xs i first in (v, append_left xs _ i first ∙ e, rw (test, e))
        | no later ↦
            let test : ltb i (length xs) ≡ false = ground arith in
            let split : i ≡ length xs + (i - length xs) = omega arith in
            elim (Option-cases (items_of b)) [
              | inl nothing ↦ absurd (omega (arith, length-row a b [] (row_none b nothing)))
              | inr (ys, is_list) ↦
                  let row = row_list b ys is_list in
                  let k = i - length xs in
                  let (v, e) = inside ys k (omega (arith, length-row a b ys row)) in
                  let test' : ltb k (length ys) ≡ true = ground (arith, length-row a b ys row) in
                  (
                    v,
                    ap (get_elem? (in_a_row a b)) split
                        ∙ append_right xs _ k
                        ∙ ap (λ (zs : List V). get_elem? zs k) row
                        ∙ e,
                    rw (next_chain, test, is_list, test', take_item, e),
                  )
            ]
      ]

  next_chain-ends :
      (a : Option V) (b : V) (i : ℕ)
      → length (in_a_row a b) ≤ i
      → iter_next none_value items_of (chained a b i) ≡ done (some none_value, chained a b i)
  unfolding iter_next next_chain
  next_chain-ends a b i h =
      let xs = items_or_nil none_value items_of a in
      elim (Option-cases (items_of b)) [
        | inl nothing ↦
            let test : ltb i (length xs) ≡ false =
              ground (arith, length-row a b [] (row_none b nothing)) in
            rw (next_chain, test, nothing)
        | inr (ys, is_list) ↦
            let size = length-row a b ys (row_list b ys is_list) in
            let test : ltb i (length xs) ≡ false = ground (arith, size) in
            let test' : ltb (i - length xs) (length ys) ≡ false = ground (arith, size) in
            rw (next_chain, test, is_list, test')
      ]

  chain_answers :
      (n : ℕ) (a : Option V) (b : V) (i : ℕ)
      → next_all none_value items_of n (chained a b i)
        ≡ done (answers none_value n (drop i (in_a_row a b)))
  unfolding next_all answers
  chain_answers zero a b i = refl
  chain_answers (suc n) a b i = elim (dec_lt i (length (in_a_row a b))) [
    | yes more ↦
        let (v, e, run) = next_chain-yields a b i more in
        let next : i + 1 ≡ suc i = omega arith in
        rw (run, drop_at (in_a_row a b) i v e, ← next, chain_answers n a b (i + 1), ◌>>=◌)
    | no over ↦
        let out = drop_out (in_a_row a b) i (omega arith) in
        rw (next_chain-ends a b i (omega arith), chain_answers n a b i, out, ◌>>=◌)
  ]

  -- `chain` yields the items of the first source, then those of the second, and then None; a source that
  -- is not a list has no items.
  pub chain-answers :
      (n : ℕ) (list_a list_b : Option V)
      → next_all none_value items_of n (chain none_value items_of list_a list_b)
        ≡ done (answers none_value n (in_a_row list_a (or_else list_b none_value)))
  unfolding chain
  chain-answers n list_a list_b = chain_answers n list_a (or_else list_b none_value) 0

  -- The iterator of cycle at index `i`.
  abbrev cycled : V → ℕ → Iterator V
  cycled a i = record { source_a = some a; source_b = none; index = i; mode = 1; limit = 0 }

  cycle_step :
      (a x : V) (items : List V) (i start : ℕ) (v : V)
      → items_of a ≡ some (x ∷ items)
      → (if leb (length (x ∷ items)) i then 0 else i) ≡ start
      → get_elem? (x ∷ items) start ≡ some v
      → iter_next none_value items_of (cycled a i) ≡ done (some v, cycled a (start + 1))
  unfolding iter_next next_cycle
  cycle_step a x items i start v e e' here =
      let filled : (length (x ∷ items) == 0) ≡ false = ground arith in
      rw (next_cycle, e, filled, e', take_item, here)
        (ap (λ (k : ℕ). done (some v, cycled a (k + 1))) e')

  cycle_answers :
      (n : ℕ) (a x : V) (items : List V) (i : ℕ)
      → items_of a ≡ some (x ∷ items)
      → i ≤ length (x ∷ items)
      → next_all none_value items_of n (cycled a i) ≡ done (rounds n x items (drop i (x ∷ items)))
  unfolding next_all rounds
  cycle_answers zero a x items i e h = refl
  cycle_answers (suc n) a x items i e h = elim (dec_lt i (length (x ∷ items))) [
    | yes more ↦
        let (v, here) = inside (x ∷ items) i more in
        let next : i + 1 ≡ suc i = omega arith in
        let more_rounds : next_all none_value items_of n (cycled a (i + 1))
            ≡ done (rounds n x items (drop i items)) =
          cycle_answers n a x items (i + 1) e (omega arith)
          ∙ ap (λ k. done (rounds n x items (drop k (x ∷ items)))) next in
        let step = cycle_step a x items i i v e (ground arith) here in
        rw (step, drop_at (x ∷ items) i v here, more_rounds, ◌>>=◌)
    | no over ↦
        let out = drop_out (x ∷ items) i (omega arith) in
        let step = cycle_step a x items i 0 x e (ground arith) refl in
        rw (step, out, cycle_answers n a x items 1 e (omega arith), ◌>>=◌)
  ]

  -- `cycle` of a list that is not empty yields its items again and again.
  pub cycle-rounds :
      (n : ℕ) (list x : V) (items : List V)
      → items_of list ≡ some (x ∷ items)
      → next_all none_value items_of n (cycle none_value items_of (some list))
        ≡ done (rounds n x items (x ∷ items))
  unfolding cycle list_pointer
  cycle-rounds n list x items e =
      rw (cycle, list_pointer, e) (cycle_answers n list x items 0 e (omega arith))
