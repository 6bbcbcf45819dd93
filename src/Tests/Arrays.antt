-- ===== src/Tests/Arrays.antt =====
-- The dynamic array at concrete states.
use abscom.Prelude.{◌≡◌, refl, true, some, [], ◌∷◌, arith}
use abscom.Prelude.Run.{done, Status, success}
use abscom.Prelude.Bytes.{write_at, realloc, junk_bytes}
use abscom.GrowString.Defs.{Heap}
use abscom.Dynarray.Defs.{Dynarray, push, make_room, append_elem, reserve, next_cap}
use abscom.Dynarray.Pushing.{IsValid, Pushed, push-Pushed}

abbrev heap : Heap
heap = record { grants = λ n. true; junk = λ i. 7 }

-- two elements of two bytes, with room for no more
abbrev full : Dynarray
full = record { block = some (1 ∷ 2 ∷ 3 ∷ 4 ∷ []); elem_size = 2; len = 2; cap = 2 }

grown :
    push heap full (5 ∷ 6 ∷ [])
    ≡ done (
      success,
      record { block = some (1 ∷ 2 ∷ 3 ∷ 4 ∷ 5 ∷ 6 ∷ 7 ∷ 7 ∷ []); elem_size = 2; len = 3; cap = 4 },
    )
unfolding push make_room append_elem reserve next_cap write_at realloc junk_bytes
grown = refl

full-IsValid : IsValid full
full-IsValid = record {
  sized = omega arith;
  fits = refl;
  within = omega arith;
  bounded = omega arith;
}

push-Pushed_example :
    (st : Status) × (arr' : Dynarray) × (push heap full (5 ∷ 6 ∷ []) ≡ done (st, arr'))
    × Pushed full (5 ∷ 6 ∷ []) st arr'
push-Pushed_example = push-Pushed heap full (5 ∷ 6 ∷ []) full-IsValid refl
