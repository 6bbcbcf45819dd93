-- ===== src/Dynarray/Pushing.antt =====
-- Pushing elements on a valid array.
use native.Mathlib.Nat.{le-div_iff_mul-le, add-mul, mul-le-mul_right, le-mul_of_pos_right}
use abscom.Prelude.{
  ℕ, ◌+◌, ◌-◌, ◌*◌, ◌/◌, ◌%◌, ◌^◌, ◌≤◌, ◌<◌, ◌≡◌, inl, inr, refl, sym, ap, ◌∙◌, true, false, ◌&&◌,
  not, Option, none, some, List, ◌++◌, arith, ltb, leb, ◌==◌, Bool-cases, Option-cases, length,
  take, dec_lt, ℕ_discrete,
}
use abscom.Prelude.Run.{done, ◌>>=◌, Status, success, failure, on_success}
use abscom.Prelude.Bytes.{realloc, realloc_lem, write_at_lem}
use abscom.GrowString.Defs.{Heap, block_of}
use abscom.Dynarray.Defs.{Dynarray, reserve, next_cap, make_room, append_elem, push}

-- The bytes of the elements.
abbrev pub contents : Dynarray → List ℕ
contents arr = take (arr.len * arr.elem_size) (block_of arr.block)

abbrev pub FitsBlock : Option (List ℕ) → ℕ → ℕ → Type 0
FitsBlock none cap size = cap ≡ 0
FitsBlock (some b) cap size = length b ≡ cap * size

pub record IsValid (arr : Dynarray) : Type 0 where
  pub sized : 0 < arr.elem_size
  pub fits : FitsBlock arr.block arr.cap arr.elem_size
  pub within : arr.len ≤ arr.cap
  pub bounded : arr.cap * arr.elem_size < 2 ^ 64

-- An array with the element at its end, or the array as it was.
abbrev pub Pushed : Dynarray → List ℕ → Status → Dynarray → Type 0
Pushed arr elem success arr' =
    IsValid arr' × (arr'.len ≡ arr.len + 1) × (contents arr' ≡ contents arr ++ elem)
Pushed arr elem failure arr' = arr' ≡ arr

append_elem-Pushed :
    (arr : Dynarray) (b elem : List ℕ)
    → IsValid arr
    → arr.block ≡ some b
    → length elem ≡ arr.elem_size
    → arr.len < arr.cap
    → (arr' : Dynarray) × (append_elem arr elem ≡ done (success, arr'))
      × Pushed arr elem success arr'
unfolding append_elem
append_elem-Pushed arr b elem v here size room =
    let block : length b ≡ arr.cap * arr.elem_size = rw here at v.fits in
    let old : contents arr ≡ take (arr.len * arr.elem_size) b = rw here in
    let more : (arr.len + 1) * arr.elem_size ≡ arr.len * arr.elem_size + arr.elem_size =
      omega (arith, add-mul arr.len 1 arr.elem_size) in
    let inside : (arr.len + 1) * arr.elem_size ≤ arr.cap * arr.elem_size =
      mul-le-mul_right {m = arr.len + 1} {n = arr.cap} arr.elem_size (omega arith) in
    let (b', run, same, front, _) = write_at_lem (arr.len * arr.elem_size) elem b (omega arith) in
    (
      record arr { block = some b'; len = arr.len + 1 },
      rw (here, run, ◌>>=◌),
      (
        record { sized = v.sized; fits = same ∙ block; within = omega arith; bounded = v.bounded },
        refl,
        ap (λ k. take k b') (more ∙ ap (λ (k : ℕ). arr.len * arr.elem_size + k) (sym size))
            ∙ front
            ∙ ap (λ l. l ++ elem) (sym old),
      ),
    )

-- A valid array with the same elements and at least the capacity asked for, or the array as it was.
abbrev Roomier : Dynarray → ℕ → Status → Dynarray → Type 0
Roomier arr cap success arr' =
    IsValid arr'
    × (arr'.len ≡ arr.len)
    × (arr'.elem_size ≡ arr.elem_size)
    × (cap ≤ arr'.cap)
    × (contents arr' ≡ contents arr)
Roomier arr cap failure arr' = arr' ≡ arr

length-block :
    (b : Option (List ℕ)) (cap size : ℕ) → FitsBlock b cap size → cap * size ≤ length (block_of b)
length-block none cap size e = rw e (omega arith)
length-block (some b) cap size e = omega (arith, e)

reserve_run :
    (h : Heap) (arr : Dynarray) (cap : ℕ) (b : List ℕ)
    → leb cap arr.cap ≡ false
    → (not (arr.elem_size == 0) && ltb ((2 ^ 64 - 1) / arr.elem_size) cap) ≡ false
    → cap * arr.elem_size % 2 ^ 64 ≡ cap * arr.elem_size
    → realloc h.grants h.junk (block_of arr.block) (cap * arr.elem_size) ≡ some b
    → reserve h arr cap ≡ (success, record arr { block = some b; cap = cap })
unfolding reserve
reserve_run h arr cap b test test' exact run = rw (reserve, test, test', exact, run)

reserve_grants :
    (h : Heap) (arr : Dynarray) (cap : ℕ)
    → IsValid arr
    → arr.cap < cap
    → cap * arr.elem_size < 2 ^ 64
    → (leb cap arr.cap ≡ false)
    → ((not (arr.elem_size == 0) && ltb ((2 ^ 64 - 1) / arr.elem_size) cap) ≡ false)
    → (st : Status) × (arr' : Dynarray) × (reserve h arr cap ≡ (st, arr')) × Roomier arr cap st arr'
unfolding reserve realloc
reserve_grants h arr cap v wide fits test test' =
    let exact : cap * arr.elem_size % 2 ^ 64 ≡ cap * arr.elem_size = omega arith in
    elim (Bool-cases (h.grants (cap * arr.elem_size))) [
      | inl ok ↦
          let (b, run, size, same) =
            realloc_lem h.grants h.junk (block_of arr.block) (cap * arr.elem_size)
              (arr.len * arr.elem_size) ok
              (mul-le-mul_right {m = arr.len} {n = cap} arr.elem_size (omega (arith, v.within)))
              (omega (
                arith,
                mul-le-mul_right {m = arr.len} {n = arr.cap} arr.elem_size v.within,
                length-block arr.block arr.cap arr.elem_size v.fits,
              )) in
          (
            success,
            record arr { block = some b; cap = cap },
            reserve_run h arr cap b test test' exact run,
            (
              record {
                sized = v.sized;
                fits = size;
                within = omega (arith, v.within);
                bounded = fits;
              },
              refl,
              refl,
              omega arith,
              same,
            ),
          )
      | inr short ↦ (failure, arr, rw (reserve, test, test', exact, realloc, short), refl)
    ]

reserve-Roomier :
    (h : Heap) (arr : Dynarray) (cap : ℕ)
    → IsValid arr
    → (st : Status) × (arr' : Dynarray) × (reserve h arr cap ≡ (st, arr')) × Roomier arr cap st arr'
unfolding reserve
reserve-Roomier h arr cap v = elim (dec_lt arr.cap cap) [
  | no enough ↦
      let test : leb cap arr.cap ≡ true = ground arith in
      (success, arr, rw (reserve, test), (v, refl, refl, omega arith, refl))
  | yes wide ↦
      let test : leb cap arr.cap ≡ false = ground arith in
      let sized : (arr.elem_size == 0) ≡ false = ground (arith, v.sized) in
      elim (dec_lt ((2 ^ 64 - 1) / arr.elem_size) cap) [
        | yes huge ↦
            let test' : ltb ((2 ^ 64 - 1) / arr.elem_size) cap ≡ true = ground arith in
            (failure, arr, rw (reserve, test, sized, test'), refl)
        | no fine ↦
            let test' : ltb ((2 ^ 64 - 1) / arr.elem_size) cap ≡ false = ground arith in
            let fits : cap * arr.elem_size ≤ 2 ^ 64 - 1 =
              (le-div_iff_mul-le {x = cap} {y = 2 ^ 64 - 1} v.sized).0 (omega arith) in
            reserve_grants h arr cap v wide (omega arith) test (rw (sized, test'))
      ]
]

next_cap-wider : (cap : ℕ) → cap < 2 ^ 64 → cap < next_cap cap
unfolding next_cap
next_cap-wider cap small = ground arith

make_room-Roomier :
    (h : Heap) (arr : Dynarray)
    → IsValid arr
    → (st : Status) × (arr' : Dynarray) × (make_room h arr ≡ (st, arr'))
      × Roomier arr (arr.len + 1) st arr'
unfolding make_room
make_room-Roomier h arr v = elim (ℕ_discrete arr.len arr.cap) [
  | no room ↦
      let test : (arr.len == arr.cap) ≡ false = ground (arith, room) in
      (success, arr, rw (make_room, test), (v, refl, refl, omega (arith, v.within, room), refl))
  | yes full ↦
      let test : (arr.len == arr.cap) ≡ true = ground (arith, full) in
      let small : arr.cap < 2 ^ 64 =
        omega (arith, v.bounded, le-mul_of_pos_right {m = arr.elem_size} arr.cap v.sized) in
      let wider = next_cap-wider arr.cap small in
      let (st, arr', run, roomy) = reserve-Roomier h arr (next_cap arr.cap) v in
      (st, arr', rw (make_room, test) run, enough st arr' (omega (arith, full, wider)) roomy)
]
  where
    enough :
        (st : Status) (arr' : Dynarray)
        → arr.len + 1 ≤ next_cap arr.cap
        → Roomier arr (next_cap arr.cap) st arr'
        → Roomier arr (arr.len + 1) st arr'
    enough success arr' h (v', len, size, room, same) = (v', len, size, omega arith, same)
    enough failure arr' h same = same

block_exists : (arr : Dynarray) → IsValid arr → 0 < arr.cap → (b : List ℕ) × (arr.block ≡ some b)
block_exists arr v pos = elim (Option-cases arr.block) [
  | inl e ↦ let none_at_all : arr.cap ≡ 0 = rw e at v.fits in absurd (omega arith)
  | inr (b, e) ↦ (b, e)
]

-- `push` of an element on a valid array ends without a write outside of the block: the array is valid,
-- is longer by one, and holds the old bytes followed by those of the element; or the call fails and the
-- array is unchanged.
pub push-Pushed :
    (h : Heap) (arr : Dynarray) (elem : List ℕ)
    → IsValid arr
    → length elem ≡ arr.elem_size
    → (st : Status) × (arr' : Dynarray) × (push h arr elem ≡ done (st, arr'))
      × Pushed arr elem st arr'
unfolding push
push-Pushed h arr elem v size =
    let test : (length elem == arr.elem_size) ≡ true = ground (arith, size) in
    let (st, arr₁, run, roomy) = make_room-Roomier h arr v in
    let (st', arr', run', pushed) = write_elem st arr₁ roomy in
    (st', arr', rw (push, test, run) run', pushed)
  where
    write_elem :
        (st : Status) (arr₁ : Dynarray)
        → Roomier arr (arr.len + 1) st arr₁
        → (st' : Status) × (arr' : Dynarray) × (on_success (st, arr₁) (λ a. append_elem a elem)
            ≡ done (st', arr'))
          × Pushed arr elem st' arr'
    write_elem failure arr₁ same = (failure, arr₁, refl, same)
    write_elem success arr₁ (v₁, len, width, room, same) =
        let (b, here) = block_exists arr₁ v₁ (omega arith) in
        let (arr', run, (v', longer, text)) =
          append_elem-Pushed arr₁ b elem v₁ here (size ∙ sym width) (omega (arith, len, room)) in
        (success, arr', run, (v', omega (arith, longer, len), text ∙ ap (λ l. l ++ elem) same))
