-- ===== src/Hashmap/Resize.antt =====
-- abs_hm_resize: rehashing moves every entry, and keeps the map.
use abscom.Prelude.{
  ℕ, suc, ◌+◌, ◌*◌, ◌^◌, ◌≤◌, ◌<◌, ◌≡◌, ◌≢◌, inr, refl, ap, ◌∙◌, true, false, Option, none, some,
  List, [], ◌∷◌, arith, CString, str_eq_iff, length, set, replicate, length-replicate,
}
use abscom.Hashmap.Defs.{
  Slot, empty, tombstone, occupied, Hashmap, success, failure, done, ◌>>=◌, Allocator, allocates,
  home, vacant_loop, move_all, resize,
}
use abscom.Hashmap.Slots.{
  at, entries, buried, search_slots, empty_slot, fresh_counts, search_slots-replicate,
}
use abscom.Hashmap.Probe.{home-lt, dist-lt}
use abscom.Hashmap.Place.{vacant_loop-Fits}
use abscom.Hashmap.Invariant.{IsPlaced, IsValid, fresh-IsPlaced}
use abscom.Hashmap.Insert.{Filled, fill-Filled}

abbrev pub either {ℓ} : {A : Type ℓ} → Option A → Option A → Option A
either (some a) b = some a
either none b = b

-- `result` holds the entries of `fresh` and those of `rest`.
pub record Moved {ℓ} {V : Type ℓ} (rest fresh result : List (Slot V)) : Type ℓ where
  pub placed : IsPlaced result
  pub width : length result ≡ length fresh
  pub total : entries result ≡ entries fresh + entries rest
  pub no_graves : buried result ≡ 0
  pub reads :
      (j : CString) → search_slots j result ≡ either (search_slots j fresh) (search_slots j rest)

abbrev pub HasUniqueKeys {ℓ} : {V : Type ℓ} → List (Slot V) → Type ℓ
HasUniqueKeys {V = V} ss =
    (i j : ℕ) (k : CString) (v w : Option V)
    → at ss i ≡ occupied k v
    → at ss j ≡ occupied k w
    → i ≡ j

module _ {ℓ} {V : Type ℓ} where
  tail-HasUniqueKeys : (s : Slot V) (ss : List (Slot V)) → HasUniqueKeys (s ∷ ss) → HasUniqueKeys ss
  tail-HasUniqueKeys s ss u i j k v w e f = omega (arith, u (suc i) (suc j) k v w e f)

  -- One entry is moved to a vacant slot of the new array.
  pub move_one :
      (fresh : List (Slot V)) (p : ℕ) (key : CString) (value : Option V)
      → length fresh ≡ 2 ^ p
      → IsPlaced fresh
      → buried fresh ≡ 0
      → entries fresh < length fresh
      → search_slots key fresh ≡ none
      → (t : ℕ) × (vacant_loop (length fresh) fresh (length fresh) (home key (length fresh))
          ≡ done t)
        × Filled key value t fresh (set fresh t (occupied key value))
  move_one fresh p key value size placed clean room missing =
      let (e, lt, is) = empty_slot fresh (omega arith) in
      let start = home-lt p (length fresh) size key in
      let (t, (inside, vac, before), run) =
        vacant_loop-Fits fresh p size (length fresh) (home key (length fresh)) e start lt is
          (dist-lt (length fresh) _ e start lt) in
      (t, run, fill-Filled key value t fresh placed missing inside vac before)

  Moved-skip :
      (s : Slot V) (rest fresh r : List (Slot V))
      → entries (s ∷ rest) ≡ entries rest
      → ((j : CString) → search_slots j (s ∷ rest) ≡ search_slots j rest)
      → Moved rest fresh r
      → Moved (s ∷ rest) fresh r
  Moved-skip s rest fresh r same_count same_reads m = record {
    placed = m.placed;
    width = m.width;
    total = omega (arith, m.total, same_count);
    no_graves = m.no_graves;
    reads = λ j. rw (same_reads j) (m.reads j);
  }

  move_all-Moved :
      (rest fresh : List (Slot V)) (p : ℕ)
      → length fresh ≡ 2 ^ p
      → IsPlaced fresh
      → buried fresh ≡ 0
      → entries fresh + entries rest < length fresh
      → HasUniqueKeys rest
      → ((i : ℕ) (k : CString) (v : Option V)
          → at rest i ≡ occupied k v
          → search_slots k fresh ≡ none)
      → (result : List (Slot V)) × (move_all rest fresh (length fresh) ≡ done result)
        × Moved rest fresh result
  unfolding move_all entries search_slots
  move_all-Moved [] fresh p size placed clean room unique apart = (
    fresh,
    refl,
    record {
      placed = placed;
      width = refl;
      total = omega arith;
      no_graves = clean;
      reads = λ j. ground arith;
    },
  )
  move_all-Moved (empty ∷ rest) fresh p size placed clean room unique apart =
      let (r, run, m) =
        move_all-Moved rest fresh p size placed clean (omega arith)
          (tail-HasUniqueKeys empty rest unique) (λ i. apart (suc i)) in
      (r, run, Moved-skip empty rest fresh r (omega arith) (λ j. refl) m)
  move_all-Moved (tombstone ∷ rest) fresh p size placed clean room unique apart =
      let (r, run, m) =
        move_all-Moved rest fresh p size placed clean (omega arith)
          (tail-HasUniqueKeys tombstone rest unique) (λ i. apart (suc i)) in
      (r, run, Moved-skip tombstone rest fresh r (omega arith) (λ j. refl) m)
  move_all-Moved (occupied k v ∷ rest) fresh p size placed clean room unique apart =
      let missing = apart 0 k v refl in
      let (t, step, filled) = move_one fresh p k v size placed clean (omega arith) missing in
      let (r, run, m) =
        move_all-Moved rest (set fresh t (occupied k v)) p (filled.width ∙ size) filled.placed
          (omega (arith, filled.graves)) (omega (arith, filled.total, filled.width))
          (tail-HasUniqueKeys (occupied k v) rest unique)
          (λ i k' w e.
            let old = apart (suc i) k' w e in
            let differ : k ≢ k' =
              λ c. absurd (omega (arith, unique 0 (suc i) k' v w (ap (λ j. occupied j v) c) e)) in
            ground (arith, filled.reads k', old, str_eq_iff k k')) in
      (
        r,
        rw (step, ◌>>=◌) (rw filled.width at run),
        record {
          placed = m.placed;
          width = m.width ∙ filled.width;
          total = omega (arith, m.total, filled.total);
          no_graves = m.no_graves;
          reads = λ j. ground (arith, m.reads j, filled.reads j, missing, str_eq_iff k j);
        },
      )

-- A table with the same entries, and no tombstone, in an array of `new_cap` slots.
pub record Resized {ℓ} {V : Type ℓ} (m : Hashmap V) (new_cap : ℕ) (m' : Hashmap V) : Type ℓ where
  pub valid : IsValid m'
  pub cap : m'.cap ≡ new_cap
  pub count : m'.count ≡ m.count
  pub tombstones : m'.tombstones ≡ 0
  pub kept : (m'.free_value ≡ m.free_value) × (m'.freed ≡ m.freed)
  pub reads : (j : CString) → search_slots j m'.slots ≡ search_slots j m.slots

-- Arrays that were allocated fit the address space.
allocates-bounded : (alloc : Allocator) (n : ℕ) → allocates alloc n ≡ true → n * 8 < 2 ^ 64
unfolding allocates
allocates-bounded alloc n e = ground arith

module _ {ℓ} {V : Type ℓ} where
  pub resize-failure :
      (alloc : Allocator) (m : Hashmap V) (new_cap : ℕ)
      → allocates alloc new_cap ≡ false
      → resize alloc m new_cap ≡ done (failure, m)
  unfolding resize
  resize-failure alloc m new_cap e = rw e

  -- Where the three arrays can be allocated, `resize` keeps the map.
  pub resize-Resized :
      (alloc : Allocator) (m : Hashmap V) (new_cap p : ℕ)
      → IsValid m
      → new_cap ≡ 2 ^ p
      → 16 ≤ new_cap
      → m.count * 10 ≤ new_cap * 7
      → allocates alloc new_cap ≡ true
      → (m' : Hashmap V) × (resize alloc m new_cap ≡ done (success, m')) × Resized m new_cap m'
  unfolding resize
  resize-Resized alloc m new_cap p valid size wide room yes_all =
      let ss : List (Slot V) = replicate new_cap empty in
      let width : length ss ≡ new_cap = length-replicate new_cap empty in
      let zero_counts = fresh_counts V new_cap in
      let (r, run, moved) =
        move_all-Moved m.slots ss p (width ∙ size) (fresh-IsPlaced new_cap) zero_counts.1
          (omega (arith, valid.counted, zero_counts, width)) valid.placed.unique
          (λ i k v e. search_slots-replicate k new_cap) in
      (
        record m { slots = r; cap = new_cap; tombstones = 0 },
        rw (yes_all, rw width at run, ◌>>=◌),
        record {
          valid = record {
            width = moved.width ∙ width;
            sized = inr (p, size, wide);
            bounded = allocates-bounded alloc new_cap yes_all;
            counted = omega (arith, moved.total, zero_counts, valid.counted);
            graves = moved.no_graves;
            load = omega arith;
            placed = moved.placed;
          };
          cap = refl;
          count = refl;
          tombstones = refl;
          kept = (refl, refl);
          reads = λ j. moved.reads j ∙ rw (search_slots-replicate j new_cap);
        },
      )
