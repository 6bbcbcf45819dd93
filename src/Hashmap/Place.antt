-- ===== src/Hashmap/Place.antt =====
-- Where the probing loops of abs_hashmap_set and abs_hm_resize end.
use abscom.Prelude.{
  ℕ, zero, suc, ◌^◌, ◌<◌, ◌≡◌, ◌≢◌, ◌⊎◌, inl, inr, ap, ◌∙◌, Option, none, some, List, arith,
  CString, str_eq_iff, str_eq_refl, length, ℕ_discrete,
}
use abscom.Hashmap.Defs.{
  Slot, empty, tombstone, occupied, done, advance, vacant_loop, hit, vacant, place_loop,
}
use abscom.Hashmap.Slots.{at, Slot-cases, get_elem?-at, occupied-lt}
use abscom.Hashmap.Probe.{
  dist, advance-lt, dist-advance, Before, Full, Before-advance, Before_first, Before-advance_back,
  Before-none,
}

abbrev pub Vacant {ℓ} : {V : Type ℓ} → Slot V → Type ℓ
Vacant s = (s ≡ empty) ⊎ (s ≡ tombstone)

module _ {ℓ} {V : Type ℓ} (ss : List (Slot V)) (p : ℕ) (size : length ss ≡ 2 ^ p) where
  -- `t` is a slot to fill for a search that starts at `a`.
  abbrev pub Fits : ℕ → ℕ → Type ℓ
  Fits a t = (t < length ss) × Vacant (at ss t) × Before Full ss a t

  Fits-advance :
      (a t : ℕ) {k : CString} {v : Option V}
      → a < length ss
      → at ss a ≡ occupied k v
      → Fits (advance a (length ss)) t
      → Fits a t
  Fits-advance a t h is (lt, vac, before) = (
    lt,
    vac,
    Before-advance_back ss p size Full a t h lt
        (λ e. elim vac [ inl c ↦ cc (ap (at ss) e) | inr c ↦ cc (ap (at ss) e) ]) (λ c. cc) before,
  )

  pub place_loop-hit :
      (f a i : ℕ) (key : CString) (v : Option V) (tomb : Option ℕ)
      → a < length ss
      → at ss i ≡ occupied key v
      → Before Full ss a i
      → ((j : ℕ) (w : Option V) → at ss j ≡ occupied key w → j ≡ i)
      → dist (length ss) a i < f
      → place_loop f ss (length ss) key a tomb ≡ done (hit i key v)
  unfolding place_loop
  place_loop-hit zero a i key v tomb h is before only m = absurd (omega arith)
  place_loop-hit (suc f) a i key v tomb h is before only m =
      let k = occupied-lt ss i is in
      let read = get_elem?-at ss a h in
      elim (ℕ_discrete a i) [
        | yes same ↦
            let here : at ss a ≡ occupied key v = rw (← same) at is in
            ground (arith, read, here, str_eq_refl key)
        | no other ↦
            let rest = λ (t : Option ℕ).
              place_loop-hit f (advance a (length ss)) i key v t (advance-lt p (length ss) size a h)
                is (Before-advance ss p size Full a i h k other before) only
                (omega (arith, dist-advance p (length ss) size a i h k other)) in
            elim (Slot-cases (at ss a)) [
              | inl e ↦ absurd (Before_first ss p size Full a i h k other before e)
              | inr (inl e) ↦ ground (arith, read, e, rest (some a), rest tomb)
              | inr (inr (k', w, e)) ↦
                  let differ : k' ≢ key =
                    λ c. absurd (other (only a w (e ∙ ap (λ j. occupied j w) c))) in
                  ground (arith, read, e, rest tomb, str_eq_iff k' key)
            ]
      ]

  module _ (e : ℕ) (key : CString) (k : e < length ss) (is : at ss e ≡ empty)
      (absent : (j : ℕ) (w : Option V) → at ss j ≢ occupied key w) where
    -- A tombstone that the loop has passed is the slot that it fills.
    place_loop_reuse :
        (f a t : ℕ)
        → a < length ss
        → dist (length ss) a e < f
        → place_loop f ss (length ss) key a (some t) ≡ done (vacant t)
    unfolding place_loop
    place_loop_reuse zero a t h m = absurd (omega arith)
    place_loop_reuse (suc f) a t h m =
        let read = get_elem?-at ss a h in
        elim (ℕ_discrete a e) [
          | yes same ↦ let here : at ss a ≡ empty = rw (← same) at is in ground (arith, read, here)
          | no other ↦
              let rest =
                place_loop_reuse f (advance a (length ss)) t (advance-lt p (length ss) size a h)
                  (omega (arith, dist-advance p (length ss) size a e h k other)) in
              elim (Slot-cases (at ss a)) [
                | inl c ↦ ground (arith, read, c)
                | inr (inl c) ↦ ground (arith, read, c, rest)
                | inr (inr (k', w, c)) ↦
                    let differ : k' ≢ key =
                      λ d. absurd (absent a w (c ∙ ap (λ j. occupied j w) d)) in
                    ground (arith, read, c, rest, str_eq_iff k' key)
              ]
        ]

    pub place_loop-vacant :
        (f a : ℕ)
        → a < length ss
        → dist (length ss) a e < f
        → (t : ℕ) × Fits a t × (place_loop f ss (length ss) key a none ≡ done (vacant t))
    unfolding place_loop
    place_loop-vacant zero a h m = absurd (omega arith)
    place_loop-vacant (suc f) a h m =
        let read = get_elem?-at ss a h in
        elim (Slot-cases (at ss a)) [
          | inl c ↦ (a, (h, inl c, Before-none ss p size Full a), ground (arith, read, c))
          | inr (inl c) ↦
              let other : a ≢ e = λ d. cc (ap (at ss) d) in
              let rest =
                place_loop_reuse f (advance a (length ss)) a (advance-lt p (length ss) size a h)
                  (omega (arith, dist-advance p (length ss) size a e h k other)) in
              (a, (h, inr c, Before-none ss p size Full a), ground (arith, read, c, rest))
          | inr (inr (k', w, c)) ↦
              let other : a ≢ e = λ d. cc (ap (at ss) d) in
              let differ : k' ≢ key = λ d. absurd (absent a w (c ∙ ap (λ j. occupied j w) d)) in
              let (t, fits, rest) =
                place_loop-vacant f (advance a (length ss)) (advance-lt p (length ss) size a h)
                  (omega (arith, dist-advance p (length ss) size a e h k other)) in
              (t, Fits-advance a t h c fits, ground (arith, read, c, rest, str_eq_iff k' key))
        ]

  -- The loop that rehashes an entry ends too.
  pub vacant_loop-Fits :
      (f a e : ℕ)
      → a < length ss
      → e < length ss
      → at ss e ≡ empty
      → dist (length ss) a e < f
      → (t : ℕ) × Fits a t × (vacant_loop f ss (length ss) a ≡ done t)
  unfolding vacant_loop
  vacant_loop-Fits zero a e h k is m = absurd (omega arith)
  vacant_loop-Fits (suc f) a e h k is m =
      let read = get_elem?-at ss a h in
      elim (Slot-cases (at ss a)) [
        | inl c ↦ (a, (h, inl c, Before-none ss p size Full a), ground (arith, read, c))
        | inr (inl c) ↦ (a, (h, inr c, Before-none ss p size Full a), ground (arith, read, c))
        | inr (inr (k', w, c)) ↦
            let other : a ≢ e = λ d. cc (ap (at ss) d) in
            let (t, fits, rest) =
              vacant_loop-Fits f (advance a (length ss)) e (advance-lt p (length ss) size a h) k is
                (omega (arith, dist-advance p (length ss) size a e h k other)) in
            (t, Fits-advance a t h c fits, ground (arith, read, c, rest))
      ]
