-- ===== src/GrowString/Growth.antt =====
-- The invariant of a string, and the loop that chooses the new capacity.
use native.Mathlib.Nat.{pow-suc}
use abscom.Prelude.{
  ℕ, zero, suc, ◌+◌, ◌-◌, ◌*◌, ◌/◌, ◌%◌, ◌^◌, ◌≤◌, ◌<◌, ◌≡◌, ◌⊎◌, inl, inr, refl, ap, false, Option,
  none, some, List, arith, ◌==◌, if◌then◌else◌, Bool-cases, length, take, dec_lt,
}
use abscom.Prelude.Run.{done, success, failure}
use abscom.Prelude.Bytes.{realloc, realloc_lem}
use abscom.GrowString.Defs.{GrowString, Heap, size_mod, block_of, grow_cap, resize_buffer, grow}

-- The text of a string, which may contain NUL bytes.
abbrev pub contents : GrowString → List ℕ
contents s = take s.len (block_of s.buffer)

-- A block has room for a terminator after the capacity; with no block the string is empty.
abbrev pub FitsBlock : Option (List ℕ) → ℕ → Type 0
FitsBlock none cap = cap ≡ 0
FitsBlock (some b) cap = length b ≡ cap + 1

pub record IsValid (s : GrowString) : Type 0 where
  pub block : FitsBlock s.buffer s.cap
  pub within : s.len ≤ s.cap
  pub bounded : s.cap + 1 < size_mod

-- The loop ends, with a capacity that is enough and does not overflow.
grow_cap_lem :
    (fuel new_cap need : ℕ)
    → new_cap + 1 < 2 ^ 64
    → need + 1 < 2 ^ 64
    → need < new_cap * 2 ^ fuel
    → (r : ℕ) × (grow_cap (suc fuel) new_cap need ≡ done r) × (need ≤ r) × (r + 1 < 2 ^ 64)
unfolding grow_cap
grow_cap_lem zero new_cap need small fits enough = (new_cap, ground arith, omega arith, small)
grow_cap_lem (suc fuel) new_cap need small fits enough = elim (dec_lt new_cap need) [
  | no wide ↦ (new_cap, ground arith, omega arith, small)
  | yes narrow ↦ elim (dec_lt ((2 ^ 64 - 1) / 2) new_cap) [
    | yes large ↦ (need, ground arith, omega arith, fits)
    | no fine ↦
        let (r, run, enough', fits') =
          grow_cap_lem fuel (new_cap * 2) need (omega arith) fits
            (omega (arith, ap (λ (t : ℕ). new_cap * t) (pow-suc 2 fuel))) in
        (r, ground (arith, run), enough', fits')
  ]
]

-- From the capacity that the loop of `grow` starts at.
grow_cap_start :
    (cap need : ℕ)
    → cap + 1 < 2 ^ 64
    → need + 1 < 2 ^ 64
    → (r : ℕ) × (grow_cap 65 (if cap == 0 then 16 else cap) need ≡ done r)
      × (need ≤ r)
      × (r + 1 < 2 ^ 64)
grow_cap_start zero need small fits = grow_cap_lem 64 16 need (omega arith) fits (omega arith)
grow_cap_start (suc c) need small fits =
    let e : (if suc c == 0 then 16 else suc c) ≡ suc c = ground arith in
    rw e (grow_cap_lem 64 (suc c) need small fits (omega arith))

-- A valid string with the same text and at least the capacity asked for.
pub record Roomier (s : GrowString) (need : ℕ) (s' : GrowString) : Type 0 where
  pub valid : IsValid s'
  pub len : s'.len ≡ s.len
  pub room : need ≤ s'.cap
  pub text : contents s' ≡ contents s

length-block : (b : Option (List ℕ)) (cap : ℕ) → FitsBlock b cap → cap ≤ length (block_of b)
length-block none cap h = omega arith
length-block (some b) cap h = omega arith

realloc-none :
    (h : Heap) (block : List ℕ) (n : ℕ)
    → h.grants n ≡ false
    → realloc h.grants h.junk block n ≡ none
unfolding realloc
realloc-none h block n e = rw e

resize_buffer-Roomier :
    (h : Heap) (s : GrowString) (new_cap : ℕ)
    → IsValid s
    → s.len ≤ new_cap
    → new_cap + 1 < 2 ^ 64
    → ((s' : GrowString) × (resize_buffer h s new_cap ≡ (success, s'))
        × Roomier s new_cap s'
        × (s'.cap ≡ new_cap)
        × ((b : List ℕ) × (s'.buffer ≡ some b)))
      ⊎ ((resize_buffer h s new_cap ≡ (failure, s)) × (h.grants (new_cap + 1) ≡ false))
unfolding resize_buffer
resize_buffer-Roomier h s new_cap v keep small =
    let exact : (new_cap + 1) % 2 ^ 64 ≡ new_cap + 1 = omega arith in
    elim (Bool-cases (h.grants (new_cap + 1))) [
      | inl ok ↦
          let (b, run, size, same) =
            realloc_lem h.grants h.junk (block_of s.buffer) (new_cap + 1) s.len ok (omega arith)
              (omega (arith, length-block s.buffer s.cap v.block, v.within)) in
          inl (
            record s { buffer = some b; cap = new_cap },
            ground (arith, exact, run),
            record {
              valid = record { block = size; within = keep; bounded = small };
              len = refl;
              room = omega arith;
              text = same;
            },
            refl,
            (b, refl),
          )
      | inr short ↦
          inr (ground (arith, exact, realloc-none h (block_of s.buffer) (new_cap + 1) short), short)
    ]

pub grow-Roomier :
    (h : Heap) (s : GrowString) (need : ℕ)
    → IsValid s
    → s.len ≤ need
    → need + 1 < 2 ^ 64
    → ((s' : GrowString) × (grow h s need ≡ done (success, s')) × Roomier s need s')
      ⊎ (grow h s need ≡ done (failure, s))
unfolding grow
grow-Roomier h s need v keep small = elim (dec_lt s.cap need) [
  | no wide ↦
      inl (s, ground arith, record { valid = v; len = refl; room = omega arith; text = refl })
  | yes narrow ↦
      let (r, run, enough, fits) = grow_cap_start s.cap need v.bounded small in
      elim (resize_buffer-Roomier h s r v (omega arith) fits) [
        | inl (s', ok, roomy, _, _) ↦ inl (
          s',
          ground (arith, run, ok),
          record {
            valid = roomy.valid;
            len = roomy.len;
            room = omega (arith, roomy.room);
            text = roomy.text;
          },
        )
        | inr (short, _) ↦ inr (ground (arith, run, short))
      ]
]
