-- ===== src/Sort/Inserting.antt =====
-- sort_insertion and sort_shell end, and only move the items.
use mathlib.Core.List.Perm
use abscom.Prelude.{
  ℕ, zero, suc, ◌+◌, ◌-◌, ◌/◌, ◌≤◌, ◌<◌, ◌≡◌, ◌≢◌, refl, sym, ap, ◌∙◌, true, false, some, List, [],
  ◌∷◌, Perm, arith, ltb, leb, ◌==◌, Bool-cases, length, length-set, get_elem?, get_elem?-set_same,
  get_elem?-set_other, set, inl, inr, dec_lt, ℕ_discrete,
}
use abscom.Prelude.Run.{done, ◌>>=◌}
use abscom.Sort.Defs.{Sign, is_above, write}
use abscom.Sort.Shifting.{
  insert_key, insertion_loop, sort_insertion, shell_shift, shell_pass, shell_loop, sort_shell,
}
use abscom.Sort.Rearranging.{Rearranges, Rearranges-done, Rearranges-bind, read_inside, swap-Perm}

module _ {ℓ} {A : Type ℓ} where
  pub write_inside :
      (items : List A) (i : ℕ) (v : A) → i < length items → write items i v ≡ done (set items i v)
  unfolding write
  write_inside items i v h = let test : ltb i (length items) ≡ true = ground arith in rw test

  set_same : (items : List A) (i : ℕ) (x : A) → get_elem? items i ≡ some x → set items i x ≡ items
  set_same [] i x e = refl
  set_same (y ∷ items) zero x e = let same : y ≡ x = cc in rw same
  set_same (y ∷ items) (suc i) x e = ap (◌∷◌ y) (set_same items i x e)

  -- The key written over the hole at `j`, and then moved to `i` in exchange for the item there.
  set_exchange :
      (items : List A) (i j : ℕ) (a key : A)
      → i ≢ j
      → set (set (set items j key) i key) j a ≡ set (set items j a) i key
  set_exchange [] i j a key h = refl
  set_exchange (x ∷ items) zero zero a key h = absurd (h refl)
  set_exchange (x ∷ items) zero (suc j) a key h = ap (◌∷◌ key) (set_twice items j key a)
    where
      set_twice : (xs : List A) (j : ℕ) (v w : A) → set (set xs j v) j w ≡ set xs j w
      set_twice [] j v w = refl
      set_twice (x ∷ xs) zero v w = refl
      set_twice (x ∷ xs) (suc j) v w = ap (◌∷◌ x) (set_twice xs j v w)
  set_exchange (x ∷ items) (suc i) zero a key h = refl
  set_exchange (x ∷ items) (suc i) (suc j) a key h =
      ap (◌∷◌ x) (set_exchange items i j a key (λ e. h (ap suc e)))

  -- Moving the item at `i` into the hole at `j` leaves a hole at `i`.
  hole-Perm :
      (items : List A) (i j : ℕ) (a key : A)
      → i ≢ j
      → j < length items
      → get_elem? items i ≡ some a
      → Perm (set items j key) (set (set items j a) i key)
  hole-Perm items i j a key h inside e = rw (← set_exchange items i j a key h) (
      swap-Perm (set items j key) i j a key (get_elem?-set_other items i j key h ∙ e)
        (get_elem?-set_same items j key inside))

module _ {ℓ} {A : Type ℓ} (compare_objs : A → A → Sign) where
  insert_key-Rearranges :
      (k : ℕ) (key : A) (items : List A)
      → k < length items
      → Rearranges (set items k key) (insert_key compare_objs k key items)
  unfolding insert_key
  insert_key-Rearranges zero key items h =
      rw (write_inside items 0 key h) (Rearranges-done (set items 0 key))
  insert_key-Rearranges (suc j) key items h =
      let (a, run, here) = read_inside items j (omega arith) in
      elim (Bool-cases (is_above (compare_objs a key))) [
        | inl up ↦
            let (items', run', p, size) =
              insert_key-Rearranges j key (set items (suc j) a)
                (omega (arith, length-set items (suc j) a)) in
            (
              items',
              rw (run, ◌>>=◌, up, write_inside items (suc j) a h) run',
              Perm.trans (hole-Perm items j (suc j) a key (λ e. absurd (omega arith)) h here) p,
              size
                  ∙ length-set (set items (suc j) a) j key
                  ∙ length-set items (suc j) a
                  ∙ sym (length-set items (suc j) key),
            )
        | inr stay ↦
            rw (run, ◌>>=◌, stay, write_inside items (suc j) key h)
              (Rearranges-done (set items (suc j) key))
      ]

  -- The key is taken out of the list and put back.
  insert_item-Rearranges :
      (i : ℕ) (items : List A) (key : A)
      → i < length items
      → get_elem? items i ≡ some key
      → Rearranges items (insert_key compare_objs i key items)
  insert_item-Rearranges i items key h e =
      let (items', run, p, size) = insert_key-Rearranges i key items h in
      (items', run, rw (set_same items i key e) at p, size ∙ length-set items i key)

  insertion_loop-Rearranges :
      (rounds i : ℕ) (items : List A)
      → i + rounds ≤ length items
      → Rearranges items (insertion_loop compare_objs rounds i items)
  unfolding insertion_loop
  insertion_loop-Rearranges zero i items h = Rearranges-done items
  insertion_loop-Rearranges (suc rounds) i items h =
      let (key, run, e) = read_inside items i (omega arith) in
      rw (run, ◌>>=◌)
        (Rearranges-bind items _ _ (insert_item-Rearranges i items key (omega arith) e)
          (λ items' size. insertion_loop-Rearranges rounds (i + 1) items' (omega (arith, size))))

  -- `sort_insertion` ends without an access outside of the list, in a permutation of the items.
  pub sort_insertion-Rearranges :
      (items : List A) → Rearranges items (sort_insertion compare_objs items)
  unfolding sort_insertion insertion_loop
  sort_insertion-Rearranges [] = Rearranges-done []
  sort_insertion-Rearranges (x ∷ items) =
      insertion_loop-Rearranges (length (x ∷ items) - 1) 1 (x ∷ items) (omega arith)

  shell_shift-Rearranges :
      (fuel gap j : ℕ) (temp : A) (items : List A)
      → 0 < gap
      → j < fuel
      → j < length items
      → Rearranges (set items j temp) (shell_shift compare_objs fuel gap j temp items)
  unfolding shell_shift
  shell_shift-Rearranges zero gap j temp items pos enough h = absurd (omega arith)
  shell_shift-Rearranges (suc fuel) gap j temp items pos enough h = elim (dec_lt j gap) [
    | yes low ↦
        let test : leb gap j ≡ false = ground arith in
        rw (test, write_inside items j temp h) (Rearranges-done (set items j temp))
    | no high ↦
        let test : leb gap j ≡ true = ground arith in
        let (a, run, here) = read_inside items (j - gap) (omega arith) in
        elim (Bool-cases (is_above (compare_objs a temp))) [
          | inl up ↦
              let (items', run', p, size) =
                shell_shift-Rearranges fuel gap (j - gap) temp (set items j a) pos (omega arith)
                  (omega (arith, length-set items j a)) in
              (
                items',
                rw (test, run, ◌>>=◌, up, write_inside items j a h) run',
                Perm.trans
                    (hole-Perm items (j - gap) j a temp (λ e. absurd (omega (arith, e))) h here) p,
                size
                    ∙ length-set (set items j a) (j - gap) temp
                    ∙ length-set items j a
                    ∙ sym (length-set items j temp),
              )
          | inr stay ↦
              rw (test, run, ◌>>=◌, stay, write_inside items j temp h)
                (Rearranges-done (set items j temp))
        ]
  ]

  pub shell_pass-Rearranges :
      (rounds gap i : ℕ) (items : List A)
      → 0 < gap
      → i + rounds ≤ length items
      → Rearranges items (shell_pass compare_objs rounds gap i items)
  unfolding shell_pass
  shell_pass-Rearranges zero gap i items pos h = Rearranges-done items
  shell_pass-Rearranges (suc rounds) gap i items pos h =
      let (temp, run, e) = read_inside items i (omega arith) in
      let (items', run', p, size) =
        shell_shift-Rearranges (i + 1) gap i temp items pos (omega arith) (omega arith) in
      rw (run, ◌>>=◌)
        (Rearranges-bind items _ _
          (items', run', rw (set_same items i temp e) at p, size ∙ length-set items i temp)
          (λ items'' size'.
            shell_pass-Rearranges rounds gap (i + 1) items'' pos (omega (arith, size'))))

  shell_loop-Rearranges :
      (fuel gap : ℕ) (items : List A)
      → gap ≤ fuel
      → gap ≤ length items
      → Rearranges items (shell_loop compare_objs fuel gap items)
  unfolding shell_loop
  shell_loop-Rearranges zero gap items enough h =
      let test : (gap == 0) ≡ true = ground arith in rw test (Rearranges-done items)
  shell_loop-Rearranges (suc fuel) gap items enough h = elim (ℕ_discrete gap 0) [
    | yes e ↦ let test : (gap == 0) ≡ true = ground arith in rw test (Rearranges-done items)
    | no pos ↦
        let test : (gap == 0) ≡ false = ground (arith, pos) in
        rw test (
          Rearranges-bind items _ _
            (shell_pass-Rearranges (length items - gap) gap gap items (omega (arith, pos))
              (omega arith))
            (λ items' size.
              shell_loop-Rearranges fuel (gap / 2) items' (omega (arith, pos))
                (omega (arith, size))))
  ]

  -- `sort_shell` ends without an access outside of the list, in a permutation of the items.
  sort_shell-Rearranges : (items : List A) → Rearranges items (sort_shell compare_objs items)
  unfolding sort_shell
  sort_shell-Rearranges items =
      shell_loop-Rearranges (length items) (length items / 2) items (omega arith) (omega arith)
