-- ===== src/Dynarray/Defs.antt =====
-- The functions of src/abs_dynarray.c. `data` is a block of bytes, or NULL; a call on a NULL array is a
-- call at `none`; a pointer to an element is its offset in the block.
use abscom.Prelude.{
  ℕ, ◌+◌, ◌-◌, ◌*◌, ◌/◌, ◌%◌, ◌&&◌, not, Option, none, some, List, ltb, leb, ◌==◌, if◌then◌else◌,
  length, replicate,
}
use abscom.Prelude.Run.{Run, done, fault, ◌>>=◌, Status, success, failure, on_success}
use abscom.Prelude.Bytes.{write_at, realloc}
use abscom.GrowString.Defs.{Heap, block_of, size_mod}

pub record Dynarray : Type 0 where
  pub block : Option (List ℕ)
  pub elem_size : ℕ
  pub len : ℕ
  pub cap : ℕ

unfoldable pub init : Option Dynarray → ℕ → Status × Option Dynarray
init none elem_size = (failure, none)
init (some arr) elem_size =
    if elem_size == 0
    then (failure, some arr)
    else (success, some (record { block = none; elem_size = elem_size; len = 0; cap = 0 }))

unfoldable pub destroy : Option Dynarray → Option Dynarray
destroy none = none
destroy (some arr) = some (record arr { block = none; len = 0; cap = 0 })

unfoldable pub clear : Option Dynarray → Option Dynarray
clear none = none
clear (some arr) = some (record arr { len = 0 })

-- abs_dynarray_reserve past its test on NULL
unfoldable pub reserve : Heap → Dynarray → ℕ → Status × Dynarray
reserve h arr cap =
    if leb cap arr.cap
    then (success, arr)
    else if not (arr.elem_size == 0) && ltb ((size_mod - 1) / arr.elem_size) cap
    then (failure, arr)
    else elim (realloc h.grants h.junk (block_of arr.block) (cap * arr.elem_size % size_mod)) [
      | none ↦ (failure, arr)
      | some b ↦ (success, record arr { block = some b; cap = cap })
    ]

-- The capacity that push asks for when the array is full.
unfoldable pub next_cap : ℕ → ℕ
next_cap cap =
    if ltb ((size_mod - 1) / 2) cap then cap + 1 else if cap == 0 then 8 else cap * 2 % size_mod

unfoldable pub make_room : Heap → Dynarray → Status × Dynarray
make_room h arr = if arr.len == arr.cap then reserve h arr (next_cap arr.cap) else (success, arr)

-- `elem` is the memory behind the argument, of which elem_size bytes are read.
unfoldable pub append_elem : Dynarray → List ℕ → Run (Status × Dynarray)
append_elem arr elem = do
  b ← write_at (arr.len * arr.elem_size) elem (block_of arr.block)
  done (success, record arr { block = some b; len = arr.len + 1 })

unfoldable pub push : Heap → Dynarray → List ℕ → Run (Status × Dynarray)
push h arr elem =
    if length elem == arr.elem_size
    then on_success (make_room h arr) (λ arr'. append_elem arr' elem)
    else fault

unfoldable pub pop : Option Dynarray → Option Dynarray
pop none = none
pop (some arr) = if ltb 0 arr.len then some (record arr { len = arr.len - 1 }) else some arr

-- abs_dynarray_resize behind its test on NULL: the new elements are zeros
unfoldable pub zero_fill : Dynarray → ℕ → Run (Status × Dynarray)
zero_fill arr new_len =
    if ltb arr.len new_len
    then (do
      b ←
          write_at (arr.len * arr.elem_size) (replicate ((new_len - arr.len) * arr.elem_size) 0)
            (block_of arr.block)
      done (success, record arr { block = some b; len = new_len }))
    else done (success, record arr { len = new_len })

unfoldable pub resize : Heap → Dynarray → ℕ → Run (Status × Dynarray)
resize h arr new_len =
    if ltb arr.cap new_len
    then on_success (reserve h arr new_len) (λ arr'. zero_fill arr' new_len)
    else zero_fill arr new_len

-- the offset of an element; none is NULL
unfoldable pub at : Option Dynarray → ℕ → Option ℕ
at none index = none
at (some arr) index = if leb arr.len index then none else some (index * arr.elem_size)
