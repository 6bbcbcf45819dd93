-- ===== src/Hashmap/Methods/Find.antt =====
-- abs_hm_find_key, abs_hashmap_get and abs_hashmap_contains.
use abscom.Prelude.{
  ℕ, ◌≤◌, ◌<◌, ◌≡◌, ◌≢◌, ◌⊎◌, inl, inr, ◌∙◌, Bool, true, false, Option, none, some, List, arith,
  CString, length,
}
use abscom.Hashmap.Defs.{
  Slot, empty, occupied, Hashmap, done, ◌>>=◌, home, find_key, value_at, get, contains,
}
use abscom.Hashmap.Slots.{
  at, search_slots, search_slots_cases, get_elem?-at, occupied-lt, empty_slot,
}
use abscom.Hashmap.Probe.{home-lt, dist-lt, find_loop-hit, find_loop-miss}
use abscom.Hashmap.Invariant.{IsValid}

-- The value that the map holds for a key: `none` if the key is absent.
abbrev pub view {ℓ} : {V : Type ℓ} → Hashmap V → CString → Option (Option V)
view m key = search_slots key m.slots

-- NULL for an absent key.
abbrev pub pointer {ℓ} : {V : Type ℓ} → Option (Option V) → Option V
pointer none = none
pointer (some v) = v

abbrev pub is_some {ℓ} : {A : Type ℓ} → Option A → Bool
is_some none = false
is_some (some a) = true

pub value_at-occupied {ℓ} :
    {V : Type ℓ} (ss : List (Slot V)) (i : ℕ) {k : CString} {v : Option V}
    → at ss i ≡ occupied k v
    → value_at ss i ≡ done v
value_at-occupied ss i is = ground (arith, get_elem?-at ss i (occupied-lt ss i is), is)

module _ {ℓ} {V : Type ℓ} (m : Hashmap V) (valid : IsValid m) where
  -- A table with an array has an empty slot.
  pub valid-empty_slot : 16 ≤ m.cap → (e : ℕ) × (e < length m.slots) × (at m.slots e ≡ empty)
  valid-empty_slot h =
      empty_slot m.slots (omega (arith, valid.counted, valid.graves, valid.width, valid.load))

  pub find_key_cases :
      (key : CString)
      → ((i : ℕ) × (v : Option V) × (at m.slots i ≡ occupied key v)
          × (view m key ≡ some v)
          × (find_key (some m) (some key) ≡ done (some i)))
        ⊎ ((view m key ≡ none) × (find_key (some m) (some key) ≡ done none))
  unfolding find_key
  find_key_cases key = elim (search_slots_cases key m.slots) [
    | inl (i, v, is, found) ↦ inl (i, v, is, found, hit i v is)
    | inr (absent, missing) ↦ inr (missing, miss absent)
  ]
    where
      hit :
          (i : ℕ) (v : Option V)
          → at m.slots i ≡ occupied key v
          → find_key (some m) (some key) ≡ done (some i)
      hit i v is =
          let inside = occupied-lt m.slots i is in
          elim valid.sized [
            | inl e ↦ absurd (omega (arith, valid.width))
            | inr (p, size, wide) ↦
                let start = home-lt p (length m.slots) (valid.width ∙ size) key in
                let run =
                  find_loop-hit m.slots p (valid.width ∙ size) (length m.slots)
                    (home key (length m.slots)) i key v start is (valid.placed.path i key v is)
                    (λ j w e. valid.placed.unique j i key w v e is)
                    (dist-lt (length m.slots) _ i start inside) in
                ground (arith, rw valid.width at run)
          ]

      miss :
          ((i : ℕ) (v : Option V) → at m.slots i ≢ occupied key v)
          → find_key (some m) (some key) ≡ done none
      miss absent = elim valid.sized [
        | inl e ↦ ground arith
        | inr (p, size, wide) ↦
            let start = home-lt p (length m.slots) (valid.width ∙ size) key in
            let (e, lt, is) = valid-empty_slot wide in
            let run =
              find_loop-miss m.slots p (valid.width ∙ size) (length m.slots)
                (home key (length m.slots)) e key start lt is absent
                (dist-lt (length m.slots) _ e start lt) in
            ground (arith, rw valid.width at run)
      ]

  -- `get` ends, and returns the value of the key in the abstract map, or NULL.
  pub get-view : (key : CString) → get (some m) (some key) ≡ done (pointer (view m key))
  unfolding get
  get-view key = elim (find_key_cases key) [
    | inl (i, v, is, found, run) ↦ rw (run, found, ◌>>=◌) (value_at-occupied m.slots i is)
    | inr (missing, run) ↦ rw (run, missing, ◌>>=◌)
  ]

  -- `contains` ends, and tells whether the key is in the abstract map.
  pub contains-view : (key : CString) → contains (some m) (some key) ≡ done (is_some (view m key))
  unfolding contains
  contains-view key = elim (find_key_cases key) [
    | inl (i, v, is, found, run) ↦ rw (run, found, ◌>>=◌)
    | inr (missing, run) ↦ rw (run, missing, ◌>>=◌)
  ]
