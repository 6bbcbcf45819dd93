-- ===== src/Hashmap/Probe.antt =====
-- Linear probing: how far a slot lies behind another one, and where the three probing loops end.
use abscom.Prelude.{
  ℕ, zero, suc, ◌+◌, ◌-◌, ◌^◌, ◌<◌, ◌≡◌, ◌≢◌, inl, inr, ap, ◌∙◌, Option, none, some, List, arith,
  leb, ◌==◌, if◌then◌else◌, CString, str_eq_iff, str_eq_refl, length, ℕ_discrete,
}
use abscom.Prelude.Bits.{pow_pos, bit_and_mask-lt, bit_and_mask-small, bit_and_mask-pow}
use abscom.Hashmap.Defs.{Slot, empty, occupied, done, home, advance, find_loop}
use abscom.Hashmap.Slots.{at, Slot-cases, get_elem?-at, occupied-lt}

-- How many times `advance` takes the slot `a` to the slot `b`, in a table of `n` slots.
pub dist : ℕ → ℕ → ℕ → ℕ
dist n a b = if leb a b then b - a else n + b - a

module _ (p n : ℕ) (size : n ≡ 2 ^ p) where
  pub home-lt : (key : CString) → home key n < n
  unfolding home
  home-lt key = rw size (bit_and_mask-lt p _)

  pub pos : 0 < n
  pos = omega (arith, size, pow_pos p)

  pub advance_lem : (a : ℕ) → a < n → advance a n ≡ (if a + 1 == n then 0 else a + 1)
  unfolding advance
  advance_lem a h = elim (ℕ_discrete (a + 1) n) [
    | yes e ↦ rw (e, size) (ground (arith, bit_and_mask-pow p))
    | no e ↦ rw size (ground (arith, bit_and_mask-small p (a + 1)))
  ]

  pub advance-lt : (a : ℕ) → a < n → advance a n < n
  advance-lt a h = ground (arith, advance_lem a, pos)

  pub dist-advance : (a b : ℕ) → a < n → b < n → a ≢ b → dist n (advance a n) b + 1 ≡ dist n a b
  unfolding dist
  dist-advance a b h k e = ground (arith, advance_lem a)

  dist-advance_self : (a : ℕ) → a < n → dist n (advance a n) a + 1 ≡ n
  unfolding dist
  dist-advance_self a h = ground (arith, advance_lem a)

pub dist_self : (n a : ℕ) → dist n a a ≡ 0
unfolding dist
dist_self n a = ground arith

pub dist-lt : (n a b : ℕ) → a < n → b < n → dist n a b < n
unfolding dist
dist-lt n a b h k = ground arith

-- The slots from `a` up to, and not with, `b` satisfy `P`.
abbrev pub Before {ℓ} : {V : Type ℓ} → (Slot V → Type ℓ) → List (Slot V) → ℕ → ℕ → Type ℓ
Before P ss a b =
    (j : ℕ) → j < length ss → dist (length ss) a j < dist (length ss) a b → P (at ss j)

abbrev pub Full {ℓ} : {V : Type ℓ} → Slot V → Type ℓ
Full s = s ≢ empty

module _ {ℓ} {V : Type ℓ} (ss : List (Slot V)) (p : ℕ) (size : length ss ≡ 2 ^ p) where
  pub Before-advance :
      (P : Slot V → Type ℓ) (a b : ℕ)
      → a < length ss
      → b < length ss
      → a ≢ b
      → Before P ss a b
      → Before P ss (advance a (length ss)) b
  Before-advance P a b h k e before j lt near = elim (ℕ_discrete a j) [
    | yes same ↦ absurd (
        omega (
          arith,
          rw (← same) at near,
          dist-advance p (length ss) size a b h k e,
          dist-advance_self p (length ss) size a h,
          dist-lt (length ss) a b h k,
        ))
    | no other ↦ before j lt (
        omega (
          arith,
          dist-advance p (length ss) size a b h k e,
          dist-advance p (length ss) size a j h lt other,
        ))
  ]

  pub Before_first :
      (P : Slot V → Type ℓ) (a b : ℕ)
      → a < length ss
      → b < length ss
      → a ≢ b
      → Before P ss a b
      → P (at ss a)
  Before_first P a b h k e before =
      before a h (omega (arith, dist_self (length ss) a, dist-advance p (length ss) size a b h k e))

  pub Before-advance_back :
      (P : Slot V → Type ℓ) (a b : ℕ)
      → a < length ss
      → b < length ss
      → a ≢ b
      → P (at ss a)
      → Before P ss (advance a (length ss)) b
      → Before P ss a b
  Before-advance_back P a b h k e here before j lt near = elim (ℕ_discrete a j) [
    | yes same ↦ rw (← same) here
    | no other ↦ before j lt (
        omega (
          arith,
          dist-advance p (length ss) size a b h k e,
          dist-advance p (length ss) size a j h lt other,
        ))
  ]

  pub Before-none : (P : Slot V → Type ℓ) (a : ℕ) → Before P ss a a
  Before-none P a j lt near = absurd (omega (arith, dist_self (length ss) a))

  -- The search ends at the slot of the key, if all slots from the start to it are full.
  pub find_loop-hit :
      (f a i : ℕ) (key : CString) (v : Option V)
      → a < length ss
      → at ss i ≡ occupied key v
      → Before Full ss a i
      → ((j : ℕ) (w : Option V) → at ss j ≡ occupied key w → j ≡ i)
      → dist (length ss) a i < f
      → find_loop f ss (length ss) key a ≡ done (some i)
  unfolding find_loop
  find_loop-hit zero a i key v h is before only m = absurd (omega arith)
  find_loop-hit (suc f) a i key v h is before only m =
      let k = occupied-lt ss i is in
      let read = get_elem?-at ss a h in
      elim (ℕ_discrete a i) [
        | yes same ↦
            let here : at ss a ≡ occupied key v = rw (← same) at is in
            ground (arith, read, here, str_eq_refl key)
        | no other ↦
            let rest =
              find_loop-hit f (advance a (length ss)) i key v (advance-lt p (length ss) size a h) is
                (Before-advance Full a i h k other before) only
                (omega (arith, dist-advance p (length ss) size a i h k other)) in
            elim (Slot-cases (at ss a)) [
              | inl e ↦ absurd (Before_first Full a i h k other before e)
              | inr (inl e) ↦ ground (arith, read, e, rest)
              | inr (inr (k', w, e)) ↦
                  let differ : k' ≢ key =
                    λ c. absurd (other (only a w (e ∙ ap (λ j. occupied j w) c))) in
                  ground (arith, read, e, rest, str_eq_iff k' key)
            ]
      ]

  -- The search ends with no slot, if no slot holds the key and some slot is empty.
  pub find_loop-miss :
      (f a e : ℕ) (key : CString)
      → a < length ss
      → e < length ss
      → at ss e ≡ empty
      → ((j : ℕ) (w : Option V) → at ss j ≢ occupied key w)
      → dist (length ss) a e < f
      → find_loop f ss (length ss) key a ≡ done none
  unfolding find_loop
  find_loop-miss zero a e key h k is absent m = absurd (omega arith)
  find_loop-miss (suc f) a e key h k is absent m =
      let read = get_elem?-at ss a h in
      elim (ℕ_discrete a e) [
        | yes same ↦ let here : at ss a ≡ empty = rw (← same) at is in ground (arith, read, here)
        | no other ↦
            let rest =
              find_loop-miss f (advance a (length ss)) e key (advance-lt p (length ss) size a h) k
                is absent (omega (arith, dist-advance p (length ss) size a e h k other)) in
            elim (Slot-cases (at ss a)) [
              | inl c ↦ ground (arith, read, c)
              | inr (inl c) ↦ ground (arith, read, c, rest)
              | inr (inr (k', w, c)) ↦
                  let differ : k' ≢ key = λ d. absurd (absent a w (c ∙ ap (λ j. occupied j w) d)) in
                  ground (arith, read, c, rest, str_eq_iff k' key)
            ]
      ]
