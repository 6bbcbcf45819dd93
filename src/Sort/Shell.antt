-- ===== src/Sort/Shell.antt =====
-- sort_shell sorts, since its last pass is sort_insertion.
use mathlib.Core.List.Perm
use mathlib.Core.Path.{fun_ext}
use abscom.Prelude.{
  ℕ, zero, suc, ◌+◌, ◌-◌, ◌/◌, ◌≤◌, ◌<◌, ◌≡◌, refl, ap, ◌∙◌, true, false, List, [], ◌∷◌, arith, leb,
  ◌==◌, if◌then◌else◌, length, ℕ_discrete,
}
use abscom.Prelude.Run.{done, ◌>>=◌}
use abscom.Sort.Defs.{Sign, is_above, is_sorted, read, write}
use abscom.Sort.Shifting.{
  insert_key, insertion_loop, sort_insertion, shell_shift, shell_pass, shell_loop, sort_shell,
}
use abscom.Sort.Inserting.{shell_pass-Rearranges}
use abscom.Sort.Ordering.{IsTotal, Le-outside, Sorts}
use abscom.Sort.Insertion.{sort_insertion-Sorts}

module _ {ℓ} {A : Type ℓ} (compare_objs : A → A → Sign) where
  -- With a gap of 1, a shift is the one of sort_insertion.
  shell_shift-one :
      (fuel j : ℕ) (temp : A) (items : List A)
      → j < fuel
      → shell_shift compare_objs fuel 1 j temp items ≡ insert_key compare_objs j temp items
  unfolding shell_shift insert_key
  shell_shift-one zero j temp items h = absurd (omega (arith, h))
  shell_shift-one (suc fuel) zero temp items h = refl
  shell_shift-one (suc fuel) (suc j) temp items h =
      let test : leb 1 (suc j) ≡ true = ground arith in
      let before : suc j - 1 ≡ j = omega arith in
      rw (test, before)
        (ap (λ rest. read items j >>= rest)
          (fun_ext (λ a.
            ap
              (λ rest.
                if is_above (compare_objs a temp)
                then write items (suc j) a >>= rest
                else write items (suc j) temp)
              (fun_ext (λ items'. shell_shift-one fuel j temp items' (omega (arith, h)))))))

  shell_pass-one :
      (rounds i : ℕ) (items : List A)
      → shell_pass compare_objs rounds 1 i items ≡ insertion_loop compare_objs rounds i items
  unfolding shell_pass insertion_loop
  shell_pass-one zero i items = refl
  shell_pass-one (suc rounds) i items =
      ap (λ rest. read items i >>= rest)
        (fun_ext (λ key.
          ap (λ run. run >>= λ items'. shell_pass compare_objs rounds 1 (i + 1) items')
            (shell_shift-one (i + 1) i key items (omega arith))
          ∙ ap (λ rest. insert_key compare_objs i key items >>= rest)
              (fun_ext (λ items'. shell_pass-one rounds (i + 1) items'))))

  shell_loop-zero : (fuel : ℕ) (items : List A) → shell_loop compare_objs fuel 0 items ≡ done items
  unfolding shell_loop insertion_loop sort_insertion
  shell_loop-zero zero items = refl
  shell_loop-zero (suc fuel) items = refl

  shell_loop-Sorts :
      (fuel gap : ℕ) (items : List A)
      → IsTotal compare_objs
      → 0 < gap
      → gap ≤ fuel
      → gap ≤ length items
      → Sorts compare_objs items (shell_loop compare_objs fuel gap items)
  unfolding shell_loop insertion_loop sort_insertion
  shell_loop-Sorts zero gap items o some_gap enough inside =
      absurd (omega (arith, some_gap, enough))
  shell_loop-Sorts (suc fuel) gap items o some_gap enough inside =
      let test : (gap == 0) ≡ false = ground (arith, some_gap) in
      elim (ℕ_discrete gap 1) [
        | yes e ↦
            let (items', run, perm, sorted, test_holds) =
              sort_insertion-Sorts compare_objs items o in
            let last : shell_pass compare_objs (length items - gap) gap gap items ≡ done items' =
              rw (e) (shell_pass-one (length items - 1) 1 items ∙ run) in
            let ended : shell_loop compare_objs fuel (gap / 2) items' ≡ done items' =
              rw (e) (shell_loop-zero fuel items') in
            (items', rw (test, last, ◌>>=◌) ended, perm, sorted, test_holds)
        | no wide ↦
            let (items', run, perm, size) =
              shell_pass-Rearranges compare_objs (length items - gap) gap gap items some_gap
                (omega (arith, inside)) in
            let (items'', run', perm', sorted, test_holds) =
              shell_loop-Sorts fuel (gap / 2) items' o (omega (arith, some_gap, wide))
                (omega (arith, enough, wide, some_gap)) (omega (arith, inside, size)) in
            (items'', rw (test, run, ◌>>=◌) run', Perm.trans perm perm', sorted, test_holds)
      ]

  -- With a total and transitive comparison, `sort_shell` ends without an access outside of the list, in a
  -- permutation of the items in which no item is above a later one, so that `is_sorted` holds of it.
  pub sort_shell-Sorts :
      (items : List A)
      → IsTotal compare_objs
      → Sorts compare_objs items (sort_shell compare_objs items)
  unfolding sort_shell shell_loop is_sorted
  sort_shell-Sorts [] o = ([], refl, Perm.refl [], (λ p q lt. tt), refl)
  sort_shell-Sorts (x ∷ []) o = (
    x ∷ [],
    refl,
    Perm.refl (x ∷ []),
    (λ p q lt. Le-outside compare_objs (x ∷ []) p q (omega (arith, lt))),
    refl,
  )
  sort_shell-Sorts (x ∷ (y ∷ items)) o =
      shell_loop-Sorts (length (x ∷ y ∷ items)) (length (x ∷ y ∷ items) / 2) (x ∷ y ∷ items) o
        (omega arith) (omega arith) (omega arith)
