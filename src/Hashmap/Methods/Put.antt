-- ===== src/Hashmap/Methods/Put.antt =====
-- abs_hashmap_set: finding the place, and writing.
use mathlib.Core.List.{append-nil}
use abscom.Prelude.{
  ℕ, ◌+◌, ◌-◌, ◌*◌, ◌^◌, ◌≤◌, ◌<◌, ◌≡◌, inl, inr, refl, sym, ◌∙◌, Bool, true, false, ◌&&◌, Option,
  none, some, List, [], ◌∷◌, ◌++◌, arith, if◌then◌else◌, Bool-cases, CString, str_eq, length,
  length-set, set,
}
use abscom.Hashmap.Defs.{
  Slot, empty, tombstone, occupied, Hashmap, Status, success, failure, Run, done, ◌>>=◌, Allocator,
  home, hit, vacant, key_copy, is_set, fill, store, grow, on_success, put, assign,
}
use abscom.Hashmap.Slots.{
  at, is_tombstone, search_slots_cases, search_slots-set, entries-set, buried-set, occupied-lt,
}
use abscom.Hashmap.Probe.{home-lt, dist-lt}
use abscom.Hashmap.Place.{place_loop-hit, place_loop-vacant}
use abscom.Hashmap.Invariant.{IsValid, write-IsPlaced}
use abscom.Hashmap.Insert.{Filled, fill-Filled}
use abscom.Hashmap.Methods.Find.{view, is_some, valid-empty_slot}
use abscom.Hashmap.Methods.Grow.{
  IsGenerous, Kept, Kept-refl, Kept-trans, HasRoom, power, allocate_first-Kept, grow-Kept,
}

-- What an overwritten value gives to the callback: the value, unless it is NULL.
abbrev pub released {ℓ} : {V : Type ℓ} → Bool → Option (Option V) → List (Option V)
released true (some (some v)) = some v ∷ []
released _ _ = []

-- `m'` is `m` with `value` under `key`; an old value went to the callback.
pub record Stored {ℓ} {V : Type ℓ} (key : CString) (value : Option V) (m m' : Hashmap V)
    : Type ℓ where
  pub valid : IsValid m'
  pub reads : (j : CString) → view m' j ≡ (if str_eq key j then some value else view m j)
  pub count : m'.count ≡ m.count + (if is_some (view m key) then 0 else 1)
  pub freed :
      (m'.free_value ≡ m.free_value) × (m'.freed ≡ m.freed ++ released m.free_value (view m key))

-- How a call of `set` that started at `m` ended.
abbrev pub Ended {ℓ} : {V : Type ℓ} → CString → Option V → Hashmap V → Status → Hashmap V → Type ℓ
Ended key value m success m' = Stored key value m m'
Ended key value m failure m' = Kept m m'

module _ {ℓ} {V : Type ℓ} where
  released_lem :
      (b : Bool) (v : Option V) (l : List (Option V))
      → (if b && is_set v then l ++ v ∷ [] else l) ≡ l ++ released b (some v)
  released_lem true none l = sym (append-nil l)
  released_lem true (some v) l = refl
  released_lem false none l = sym (append-nil l)
  released_lem false (some v) l = sym (append-nil l)

  no_release : (b : Bool) (l : List (Option V)) → l ≡ l ++ released b none
  no_release true l = sym (append-nil l)
  no_release false l = sym (append-nil l)

  fill-hit :
      (alloc : Allocator) (m : Hashmap V) (key : CString) (value : Option V) (i : ℕ) (v : Option V)
      → IsValid m
      → at m.slots i ≡ occupied key v
      → view m key ≡ some v
      → (m' : Hashmap V) × (fill alloc m key value (hit i key v) ≡ (success, m'))
        × Stored key value m m'
  unfolding fill
  fill-hit alloc m key value i v valid is found =
      let inside = occupied-lt m.slots i is in
      let only : (j : ℕ) (w : Option V) → at m.slots j ≡ occupied key w → j ≡ i =
        λ j w e. valid.placed.unique j i key w v e is in
      (
        record m {
          slots = set m.slots i (occupied key value);
          freed = if m.free_value && is_set v then m.freed ++ v ∷ [] else m.freed;
        },
        refl,
        record {
          valid = record {
            width = length-set m.slots i (occupied key value) ∙ valid.width;
            sized = valid.sized;
            bounded = valid.bounded;
            counted = omega (
              arith,
              rw is at (entries-set m.slots i (occupied key value) inside),
              valid.counted,
            );
            graves =
                omega (
                  arith,
                  rw is at (buried-set m.slots i (occupied key value) inside),
                  valid.graves,
                );
            load = valid.load;
            placed =
                write-IsPlaced m.slots valid.placed i inside key value only
                  (valid.placed.path i key v is);
          };
          reads = λ j. search_slots-set key value j m.slots i inside (λ k w e. cc) only;
          count = rw found (omega arith);
          freed = (refl, rw found (released_lem m.free_value v m.freed));
        },
      )

  abbrev written : Hashmap V → CString → Option V → ℕ → Hashmap V
  written m key value t = record m {
    slots = set m.slots t (occupied key value);
    count = m.count + 1;
    tombstones = elim (at m.slots t) [ tombstone ↦ m.tombstones - 1 | _ ↦ m.tombstones ];
  }

  graves_lem :
      (s : Slot V) (g : ℕ)
      → is_tombstone s ≤ g
      → elim s as (λ _. ℕ) [ tombstone ↦ g - 1 | _ ↦ g ] + is_tombstone s ≡ g
  graves_lem empty g h = omega arith
  graves_lem tombstone g h = omega arith
  graves_lem (occupied k v) g h = omega arith

  written-Stored :
      (m : Hashmap V) (key : CString) (value : Option V) (t : ℕ)
      → IsValid m
      → HasRoom m
      → view m key ≡ none
      → Filled key value t m.slots (set m.slots t (occupied key value))
      → Stored key value m (written m key value t)
  written-Stored m key value t valid room missing f =
      let g = graves_lem (at m.slots t) m.tombstones (omega (arith, f.graves, valid.graves)) in
      record {
        valid = record {
          width = f.width ∙ valid.width;
          sized = valid.sized;
          bounded = valid.bounded;
          counted = omega (arith, f.total, valid.counted);
          graves = omega (arith, g, f.graves, valid.graves);
          load = omega (arith, g);
          placed = f.placed;
        };
        reads = f.reads;
        count = rw missing refl;
        freed = (refl, rw missing (no_release m.free_value m.freed));
      }

  fill-vacant :
      (alloc : Allocator) (m : Hashmap V) (key : CString) (value : Option V) (t : ℕ)
      → IsValid m
      → HasRoom m
      → view m key ≡ none
      → Filled key value t m.slots (set m.slots t (occupied key value))
      → (s : Status) × (m' : Hashmap V) × (fill alloc m key value (vacant t) ≡ (s, m'))
        × Ended key value m s m'
        × (IsGenerous alloc → s ≡ success)
  unfolding fill
  fill-vacant alloc m key value t valid room missing f =
      elim (Bool-cases (alloc key_copy (length key + 1))) [
        | inr short ↦
            (failure, m, rw short, Kept-refl m valid, λ g. cc (g key_copy (length key + 1)))
        | inl ok ↦ (
          success,
          written m key value t,
          rw ok,
          written-Stored m key value t valid room missing f,
          λ _. refl,
        )
      ]

  -- What `store` does where there is room.
  store-Ended :
      (alloc : Allocator) (m : Hashmap V) (key : CString) (value : Option V)
      → IsValid m
      → HasRoom m
      → (s : Status) × (m' : Hashmap V) × (store alloc m key value ≡ done (s, m'))
        × Ended key value m s m'
        × (IsGenerous alloc → s ≡ success)
  unfolding store
  store-Ended alloc m key value valid room =
      let (p, power_of_two) = power m valid room.0 in
      let size = valid.width ∙ power_of_two in
      let start = home-lt p (length m.slots) size key in
      elim (search_slots_cases key m.slots) [
        | inl (i, v, is, found) ↦
            let run =
              place_loop-hit m.slots p size (length m.slots) (home key (length m.slots)) i key v
                none start is (valid.placed.path i key v is)
                (λ j w e. valid.placed.unique j i key w v e is)
                (dist-lt (length m.slots) _ i start (occupied-lt m.slots i is)) in
            let (m', fills, stored) = fill-hit alloc m key value i v valid is found in
            (success, m', rw (rw valid.width at run, ◌>>=◌, fills), stored, λ _. refl)
        | inr (absent, missing) ↦
            let (e, lt, is) = valid-empty_slot m valid room.0 in
            let (t, (inside, vac, before), run) =
              place_loop-vacant m.slots p size e key lt is absent (length m.slots)
                (home key (length m.slots)) start (dist-lt (length m.slots) _ e start lt) in
            let (s, m', fills, ended, granted) =
              fill-vacant alloc m key value t valid room missing
                (fill-Filled key value t m.slots valid.placed missing inside vac before) in
            (s, m', rw (rw valid.width at run, ◌>>=◌, fills), ended, granted)
      ]

  Ended-after :
      (key : CString) (value : Option V) (m m₁ : Hashmap V) (s : Status) (m' : Hashmap V)
      → Kept m m₁
      → Ended key value m₁ s m'
      → Ended key value m s m'
  Ended-after key value m m₁ failure m' k e = Kept-trans k e
  Ended-after key value m m₁ success m' k e = record {
    valid = e.valid;
    reads = λ j. rw (← k.reads j) (e.reads j);
    count = rw (← k.count, ← k.reads key) e.count;
    freed = (e.freed.0 ∙ k.freed.0, rw (← k.freed.0, ← k.freed.1, ← k.reads key) e.freed.1);
  }

  -- The run ends as `set` promises, and with success if `G` holds.
  abbrev Finishes : Type 0 → CString → Option V → Hashmap V → Run (Status × Hashmap V) → Type ℓ
  Finishes G key value m r =
      (s : Status) × (m' : Hashmap V) × (r ≡ done (s, m'))
      × Ended key value m s m'
      × (G → s ≡ success)

  after_grow :
      (G : Type 0) (alloc : Allocator) (key : CString) (value : Option V) (m m₂ : Hashmap V)
      (s : Status)
      → Kept m m₂
      → (s ≡ success → HasRoom m₂)
      → (G → IsGenerous alloc × (s ≡ success))
      → Finishes G key value m (on_success (s, m₂) (λ m₃. store alloc m₃ key value))
  after_grow G alloc key value m m₂ failure k room g = (failure, m₂, refl, k, λ h. (g h).1)
  after_grow G alloc key value m m₂ success k room g =
      let (s, m', run, ended, granted) = store-Ended alloc m₂ key value k.valid (room refl) in
      (s, m', run, Ended-after key value m m₂ s m' k ended, λ h. granted (g h).0)

  after_first :
      (G : Type 0) (alloc : Allocator) (key : CString) (value : Option V) (m m₁ : Hashmap V)
      (s : Status)
      → Kept m m₁
      → (s ≡ success → 16 ≤ m₁.cap)
      → (G → IsGenerous alloc × (m₁.cap * 16 < 2 ^ 64) × (s ≡ success))
      → Finishes G key value m (
          on_success
            (s, m₁)
            (λ m₁. grow alloc m₁ >>= λ r. on_success r (λ m₂. store alloc m₂ key value)))
  after_first G alloc key value m m₁ failure k wide g = (failure, m₁, refl, k, λ h. (g h).2)
  after_first G alloc key value m m₁ success k wide g =
      let (s, m₂, run, k₂, room, granted) = grow-Kept alloc m₁ k.valid (wide refl) in
      rw (run, ◌>>=◌)
        (after_grow G alloc key value m m₂ s (Kept-trans k k₂) room
          (λ h. ((g h).0, granted (g h).0 (g h).1)))

  put-Finishes :
      (alloc : Allocator) (m : Hashmap V) (key : CString) (value : Option V)
      → IsValid m
      → Finishes (IsGenerous alloc × (m.cap ≤ 2 ^ 58)) key value m (put alloc m key value)
  unfolding put
  put-Finishes alloc m key value valid =
      let (s, m₁, run, k, wide, granted) = allocate_first-Kept alloc m valid in
      rw (run, ◌>>=◌)
        (after_first _ alloc key value m m₁ s k wide
          (λ (g, small). (g, omega (arith, (granted g).1), (granted g).0)))

  -- On a valid map and a key, `assign` (abs_hashmap_set) ends without reading outside of the arrays.
  -- After 0 the map is valid and differs at the key only: it holds the value there, its size has
  -- grown by one if the key was new, and an old value that is not NULL went to the callback, if there
  -- is one. After -1 the map reads as before. The result is 0 if every allocation is granted and the
  -- capacity is at most 2 ^ 58.
  pub assign-Ended :
      (alloc : Allocator) (m : Hashmap V) (key : CString) (value : Option V)
      → IsValid m
      → (s : Status) × (m' : Hashmap V) × (assign alloc (some m) (some key) value
          ≡ done (s, some m'))
        × Ended key value m s m'
        × (IsGenerous alloc → m.cap ≤ 2 ^ 58 → s ≡ success)
  unfolding assign
  assign-Ended alloc m key value valid =
      let (s, m', run, ended, granted) = put-Finishes alloc m key value valid in
      (s, m', rw (run, ◌>>=◌), ended, λ g small. granted (g, small))
