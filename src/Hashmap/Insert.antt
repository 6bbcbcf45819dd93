-- ===== src/Hashmap/Insert.antt =====
-- Writing a new entry to the vacant slot where its search ended.
use abscom.Prelude.{
  ℕ, ◌+◌, ◌<◌, ◌≡◌, ◌≢◌, inl, inr, refl, Option, some, none, List, arith, if◌then◌else◌, CString,
  str_eq, length, length-set, set,
}
use abscom.Hashmap.Defs.{Slot, occupied, home}
use abscom.Hashmap.Slots.{
  at, is_occupied, is_tombstone, entries, buried, search_slots, search_slots_cases,
  search_slots-set, entries-set, buried-set,
}
use abscom.Hashmap.Probe.{Before, Full}
use abscom.Hashmap.Place.{Vacant}
use abscom.Hashmap.Invariant.{IsPlaced, write-IsPlaced}

-- `after` has one entry more than `before`, in the slot `t`.
pub record Filled {ℓ} {V : Type ℓ} (key : CString) (value : Option V) (t : ℕ)
    (before after : List (Slot V)) : Type ℓ where
  pub placed : IsPlaced after
  pub width : length after ≡ length before
  pub total : entries after ≡ entries before + 1
  pub graves : buried after + is_tombstone (at before t) ≡ buried before
  pub reads :
      (j : CString)
      → search_slots j after ≡ (if str_eq key j then some value else search_slots j before)

module _ {ℓ} {V : Type ℓ} where
  pub absent_of_search :
      (key : CString) (ss : List (Slot V))
      → search_slots key ss ≡ none
      → (i : ℕ) (v : Option V) → at ss i ≢ occupied key v
  absent_of_search key ss none_found = elim (search_slots_cases key ss) [
    | inl (i, v, h, e) ↦ λ i v c. cc
    | inr (h, e) ↦ h
  ]

  pub fill-Filled :
      (key : CString) (value : Option V) (t : ℕ) (ss : List (Slot V))
      → IsPlaced ss
      → search_slots key ss ≡ none
      → t < length ss
      → Vacant (at ss t)
      → Before Full ss (home key (length ss)) t
      → Filled key value t ss (set ss t (occupied key value))
  fill-Filled key value t ss placed missing inside vac before =
      let absent = absent_of_search key ss missing in
      let own : (k : CString) (v : Option V) → at ss t ≡ occupied k v → k ≡ key =
        λ k v e. elim vac [ inl c ↦ cc | inr c ↦ cc ] in
      let no_entry : is_occupied (at ss t) ≡ 0 = elim vac [
        | inl c ↦ rw c refl
        | inr c ↦ rw c refl
      ] in
      record {
        placed =
            write-IsPlaced ss placed t inside key value (λ i v c. absurd (absent i v c)) before;
        width = length-set ss t (occupied key value);
        total = omega (arith, entries-set ss t (occupied key value) inside, no_entry);
        graves = omega (arith, buried-set ss t (occupied key value) inside);
        reads = λ j. search_slots-set key value j ss t inside own (λ i v c. absurd (absent i v c));
      }
