-- ===== src/Hashmap/Invariant.antt =====
-- The invariant of the table, and the writes to one slot that keep it.
use abscom.Prelude.{
  ℕ, ◌+◌, ◌*◌, ◌^◌, ◌≤◌, ◌<◌, ◌≡◌, ◌≢◌, ◌⊎◌, inl, inr, sym, ◌∙◌, Option, List, arith, ◌==◌,
  if◌then◌else◌, CString, length, length-set, get_or, set, get_or-set, replicate, get_or-replicate,
}
use abscom.Hashmap.Defs.{Slot, empty, tombstone, occupied, Hashmap, home}
use abscom.Hashmap.Slots.{at, entries, buried}
use abscom.Hashmap.Probe.{Before, Full}

-- Every entry can be reached from the home of its key, and no key has two entries.
pub record IsPlaced {ℓ} {V : Type ℓ} (ss : List (Slot V)) : Type ℓ where
  pub path :
      (i : ℕ) (k : CString) (v : Option V)
      → at ss i ≡ occupied k v
      → Before Full ss (home k (length ss)) i
  pub unique :
      (i j : ℕ) (k : CString) (v w : Option V)
      → at ss i ≡ occupied k v
      → at ss j ≡ occupied k w
      → i ≡ j

-- A capacity is 0, or a power of two from 16 on whose array of pointers fits the address space.
-- The counters are right, and entries and tombstones fill at most seven tenths.
pub record IsValid {ℓ} {V : Type ℓ} (m : Hashmap V) : Type ℓ where
  pub width : length m.slots ≡ m.cap
  pub sized : (m.cap ≡ 0) ⊎ ((p : ℕ) × (m.cap ≡ 2 ^ p) × (16 ≤ m.cap))
  pub bounded : m.cap * 8 < 2 ^ 64
  pub counted : entries m.slots ≡ m.count
  pub graves : buried m.slots ≡ m.tombstones
  pub load : (m.count + m.tombstones) * 10 ≤ m.cap * 7
  pub placed : IsPlaced m.slots

module _ {ℓ} {V : Type ℓ} where
  pub fresh-IsPlaced : (n : ℕ) → IsPlaced {V = V} (replicate n empty)
  fresh-IsPlaced n = record {
    path = λ i k v e. absurd (nowhere i k v e);
    unique = λ i j k v w e f. absurd (nowhere i k v e);
  }
    where
      nowhere :
          (i : ℕ) (k : CString) (v : Option V)
          → get_or (replicate n empty) i empty ≡ occupied k v
          → ⊥
      nowhere i k v e = let s : Slot V = empty in cc (get_or-replicate n i s)

  module _ (ss : List (Slot V)) (placed : IsPlaced ss) (t : ℕ) (lt : t < length ss) where
    -- A write that leaves no new gap keeps every path.
    Before-set :
        (s : Slot V) (k : CString) (b : ℕ)
        → s ≢ empty
        → Before Full ss (home k (length ss)) b
        → Before Full (set ss t s) (home k (length (set ss t s))) b
    Before-set s k b full before =
        rw length-set (λ j h near. rw (get_or-set ss t j s empty lt) (keep j (before j h near)))
      where
        keep : (j : ℕ) → at ss j ≢ empty → (if t == j then s else at ss j) ≢ empty
        keep j h = ground arith

    set_inv :
        (s : Slot V) (i : ℕ) (k : CString) (v : Option V)
        → at (set ss t s) i ≡ occupied k v
        → ((i ≡ t) × (s ≡ occupied k v)) ⊎ (at ss i ≡ occupied k v)
    set_inv s i k v e = ground (arith, get_or-set ss t i s empty lt)

    pub write-IsPlaced :
        (key : CString) (value : Option V)
        → ((i : ℕ) (v : Option V) → at ss i ≡ occupied key v → i ≡ t)
        → Before Full ss (home key (length ss)) t
        → IsPlaced (set ss t (occupied key value))
    write-IsPlaced key value only before = record {
      path = λ i k v e. elim (set_inv (occupied key value) i k v e) [
        | inl (here, same) ↦
            let named : key ≡ k = cc in
            rw (here, ← named) (Before-set (occupied key value) key t (λ c. cc) before)
        | inr old ↦ Before-set (occupied key value) k i (λ c. cc) (placed.path i k v old)
      ];
      unique = λ i j k v w e f. elim (set_inv (occupied key value) i k v e) [
        | inl (here, same) ↦ elim (set_inv (occupied key value) j k w f) [
          | inl (there, _) ↦ here ∙ sym there
          | inr old ↦ let named : key ≡ k = cc in here ∙ sym (only j w (rw named old))
        ]
        | inr old ↦ elim (set_inv (occupied key value) j k w f) [
          | inl (there, same) ↦ let named : key ≡ k = cc in only i v (rw named old) ∙ sym there
          | inr old' ↦ placed.unique i j k v w old old'
        ]
      ];
    }

    pub bury-IsPlaced : IsPlaced (set ss t tombstone)
    bury-IsPlaced = record {
      path = λ i k v e. elim (set_inv tombstone i k v e) [
        | inl (here, same) ↦ cc
        | inr old ↦ Before-set tombstone k i (λ c. cc) (placed.path i k v old)
      ];
      unique = λ i j k v w e f. elim (set_inv tombstone i k v e) [
        | inl (here, same) ↦ cc
        | inr old ↦ elim (set_inv tombstone j k w f) [
          | inl (there, same) ↦ cc
          | inr old' ↦ placed.unique i j k v w old old'
        ]
      ];
    }
