-- ===== src/Hashmap/Slots.antt =====
-- Lists of slots: counting them, and what a list of slots means as a map from keys to values.
use abscom.Prelude.{
  ℕ, zero, suc, ◌+◌, ◌<◌, ◌≡◌, ◌≢◌, ◌⊎◌, inl, inr, refl, Option, none, some, List, [], ◌∷◌, arith,
  ap, if◌then◌else◌, CString, str_eq, str_eq_iff, Bool-cases, length, get_or, get_elem?, set,
  replicate,
}
use abscom.Hashmap.Defs.{Slot, empty, tombstone, occupied}

module _ {ℓ} {V : Type ℓ} where
  abbrev pub at : List (Slot V) → ℕ → Slot V
  at slots i = get_or slots i empty

  abbrev pub is_occupied : Slot V → ℕ
  is_occupied empty = 0
  is_occupied tombstone = 0
  is_occupied (occupied k v) = 1

  abbrev pub is_tombstone : Slot V → ℕ
  is_tombstone empty = 0
  is_tombstone tombstone = 1
  is_tombstone (occupied k v) = 0

  pub Slot-cases :
      (s : Slot V)
      → (s ≡ empty) ⊎ (s ≡ tombstone) ⊎ ((k : CString) × (v : Option V) × (s ≡ occupied k v))
  Slot-cases empty = inl refl
  Slot-cases tombstone = inr (inl refl)
  Slot-cases (occupied k v) = inr (inr (k, v, refl))

  -- the numbers of occupied slots and of tombstones
  unfoldable pub entries : List (Slot V) → ℕ
  entries [] = 0
  entries (s ∷ ss) = is_occupied s + entries ss

  unfoldable pub buried : List (Slot V) → ℕ
  buried [] = 0
  buried (s ∷ ss) = is_tombstone s + buried ss

  -- The abstract view: the value of the first slot that holds the key.
  unfoldable pub search_slots : CString → List (Slot V) → Option (Option V)
  search_slots key [] = none
  search_slots key (empty ∷ ss) = search_slots key ss
  search_slots key (tombstone ∷ ss) = search_slots key ss
  search_slots key (occupied k v ∷ ss) = if str_eq k key then some v else search_slots key ss

  pub get_elem?-at : (ss : List (Slot V)) (i : ℕ) → i < length ss → get_elem? ss i ≡ some (at ss i)
  get_elem?-at [] i h = absurd (omega arith)
  get_elem?-at (s ∷ ss) zero h = refl
  get_elem?-at (s ∷ ss) (suc i) h = get_elem?-at ss i (omega arith)

  pub occupied-lt :
      (ss : List (Slot V)) (i : ℕ) {k : CString} {v : Option V}
      → at ss i ≡ occupied k v
      → i < length ss
  occupied-lt [] i h = cc
  occupied-lt (s ∷ ss) zero h = omega arith
  occupied-lt (s ∷ ss) (suc i) h = omega (arith, occupied-lt ss i h)

  pub entries-set :
      (ss : List (Slot V)) (i : ℕ) (s : Slot V)
      → i < length ss
      → entries (set ss i s) + is_occupied (at ss i) ≡ entries ss + is_occupied s
  unfolding entries
  entries-set [] i s h = absurd (omega arith)
  entries-set (t ∷ ss) zero s h = omega arith
  entries-set (t ∷ ss) (suc i) s h = omega (arith, entries-set ss i s (omega arith))

  pub buried-set :
      (ss : List (Slot V)) (i : ℕ) (s : Slot V)
      → i < length ss
      → buried (set ss i s) + is_tombstone (at ss i) ≡ buried ss + is_tombstone s
  unfolding buried
  buried-set [] i s h = absurd (omega arith)
  buried-set (t ∷ ss) zero s h = omega arith
  buried-set (t ∷ ss) (suc i) s h = omega (arith, buried-set ss i s (omega arith))

  -- A list that is not full of entries and tombstones has an empty slot.
  pub empty_slot :
      (ss : List (Slot V))
      → entries ss + buried ss < length ss
      → (e : ℕ) × (e < length ss) × (at ss e ≡ empty)
  unfolding entries buried
  empty_slot [] h = absurd (omega arith)
  empty_slot (empty ∷ ss) h = (0, omega arith, refl)
  empty_slot (tombstone ∷ ss) h =
      let (e, lt, is) = empty_slot ss (omega arith) in (suc e, omega arith, is)
  empty_slot (occupied k v ∷ ss) h =
      let (e, lt, is) = empty_slot ss (omega arith) in (suc e, omega arith, is)

  pub search_slots-replicate : (key : CString) (n : ℕ) → search_slots key (replicate n empty) ≡ none
  unfolding search_slots
  search_slots-replicate key zero = refl
  search_slots-replicate key (suc n) = search_slots-replicate key n

  -- A key that is found stands in some slot, and one that is not stands in none.
  pub search_slots_cases :
      (key : CString) (ss : List (Slot V))
      → ((i : ℕ) × (v : Option V) × (at ss i ≡ occupied key v) × (search_slots key ss ≡ some v))
        ⊎ (((i : ℕ) (v : Option V) → at ss i ≢ occupied key v) × (search_slots key ss ≡ none))
  unfolding search_slots
  search_slots_cases key [] = inr (λ i v e. cc, refl)
  search_slots_cases key (empty ∷ ss) = elim (search_slots_cases key ss) [
    | inl (i, v, h, e) ↦ inl (suc i, v, h, e)
    | inr (h, e) ↦ inr (elim [ zero ↦ λ v e. cc | suc i ↦ h i ], e)
  ]
  search_slots_cases key (tombstone ∷ ss) = elim (search_slots_cases key ss) [
    | inl (i, v, h, e) ↦ inl (suc i, v, h, e)
    | inr (h, e) ↦ inr (elim [ zero ↦ λ v e. cc | suc i ↦ h i ], e)
  ]
  search_slots_cases key (occupied k w ∷ ss) = elim (Bool-cases (str_eq k key)) [
    | inl same ↦
        inl (0, w, ap (λ j. occupied j w) ((str_eq_iff k key).0 same), rw (search_slots, same))
    | inr other ↦ elim (search_slots_cases key ss) [
      | inl (i, v, h, e) ↦ inl (suc i, v, h, rw (search_slots, other) e)
      | inr (h, e) ↦ inr (
        elim [ zero ↦ λ v e. ground (arith, str_eq_iff k key) | suc i ↦ h i ],
        rw (search_slots, other) e,
      )
    ]
  ]

  -- Writing an entry at its own slot, or at a slot with no entry, changes the map at that key only.
  pub search_slots-set :
      (key : CString) (value : Option V) (j : CString) (ss : List (Slot V)) (t : ℕ)
      → t < length ss
      → ((k : CString) (v : Option V) → at ss t ≡ occupied k v → k ≡ key)
      → ((i : ℕ) (v : Option V) → at ss i ≡ occupied key v → i ≡ t)
      → search_slots j (set ss t (occupied key value))
        ≡ (if str_eq key j then some value else search_slots j ss)
  unfolding search_slots
  search_slots-set key value j [] t lt own only = absurd (omega arith)
  search_slots-set key value j (empty ∷ ss) zero lt own only = refl
  search_slots-set key value j (tombstone ∷ ss) zero lt own only = refl
  search_slots-set key value j (occupied k w ∷ ss) zero lt own only =
      rw (own k w refl) (ground arith)
  search_slots-set key value j (empty ∷ ss) (suc t) lt own only =
      search_slots-set key value j ss t (omega arith) own (λ i v e. omega (arith, only (suc i) v e))
  search_slots-set key value j (tombstone ∷ ss) (suc t) lt own only =
      search_slots-set key value j ss t (omega arith) own (λ i v e. omega (arith, only (suc i) v e))
  search_slots-set key value j (occupied k w ∷ ss) (suc t) lt own only =
      let rest =
        search_slots-set key value j ss t (omega arith) own
          (λ i v e. omega (arith, only (suc i) v e)) in
      let differ : k ≢ key = λ e. absurd (omega (arith, only 0 w (ap (λ k. occupied k w) e))) in
      ground (arith, rest, str_eq_iff k j, str_eq_iff key j)

  -- Burying the only entry of a key removes the key, and nothing else.
  pub search_slots-bury :
      (key : CString) (value : Option V) (j : CString) (ss : List (Slot V)) (t : ℕ)
      → at ss t ≡ occupied key value
      → ((i : ℕ) (v : Option V) → at ss i ≡ occupied key v → i ≡ t)
      → search_slots j (set ss t tombstone) ≡ (if str_eq key j then none else search_slots j ss)
  unfolding search_slots
  search_slots-bury key value j [] t is only = cc
  search_slots-bury key value j (empty ∷ ss) zero is only = cc
  search_slots-bury key value j (tombstone ∷ ss) zero is only = cc
  search_slots-bury key value j (occupied k w ∷ ss) zero is only =
      let gone : search_slots key ss ≡ none = elim (search_slots_cases key ss) [
        | inl (i, v, h, e) ↦ absurd (omega (arith, only (suc i) v h))
        | inr (h, e) ↦ e
      ] in
      ground (arith, gone, str_eq_iff k j, str_eq_iff key j)
  search_slots-bury key value j (empty ∷ ss) (suc t) is only =
      search_slots-bury key value j ss t is (λ i v e. omega (arith, only (suc i) v e))
  search_slots-bury key value j (tombstone ∷ ss) (suc t) is only =
      search_slots-bury key value j ss t is (λ i v e. omega (arith, only (suc i) v e))
  search_slots-bury key value j (occupied k w ∷ ss) (suc t) is only =
      let rest = search_slots-bury key value j ss t is (λ i v e. omega (arith, only (suc i) v e)) in
      let differ : k ≢ key = λ e. absurd (omega (arith, only 0 w (ap (λ k. occupied k w) e))) in
      ground (arith, rest, str_eq_iff k j, str_eq_iff key j)

pub fresh_counts {ℓ} :
    (V : Type ℓ) (n : ℕ)
    → (entries {V = V} (replicate n empty) ≡ 0) × (buried {V = V} (replicate n empty) ≡ 0)
unfolding entries buried
fresh_counts V zero = (refl, refl)
fresh_counts V (suc n) = omega (arith, fresh_counts V n)
