-- ===== src/Hashmap/Methods/Rest.antt =====
-- The other exported functions: create, remove, clear, destroy, size and foreach.
use abscom.Prelude.{
  ℕ, ◌+◌, ◌-◌, ◌≡◌, ◌⊎◌, inl, inr, refl, ◌∙◌, Bool, true, false, Option, none, some, List, [], ◌∷◌,
  ◌++◌, arith, ap, map, if◌then◌else◌, CString, str_eq, length, length-set, set, length-replicate,
  ◌==◌,
}
use abscom.Hashmap.Defs.{
  Slot, empty, tombstone, occupied, Hashmap, success, failure, done, ◌>>=◌, Allocator, create,
  clear_loop, clear, destroy, remove, size, foreach_loop, foreach,
}
use abscom.Hashmap.Slots.{
  at, entries, buried, search_slots, search_slots-bury, entries-set, buried-set, occupied-lt,
  fresh_counts, search_slots-replicate,
}
use abscom.Hashmap.Invariant.{IsValid, bury-IsPlaced, fresh-IsPlaced}
use abscom.Hashmap.Methods.Find.{view, find_key_cases, value_at-occupied}

-- `m'` is `m` without the key; the value went to the callback, NULL or not.
pub record Removed {ℓ} {V : Type ℓ} (key : CString) (value : Option V) (m m' : Hashmap V)
    : Type ℓ where
  pub valid : IsValid m'
  pub reads : (j : CString) → view m' j ≡ (if str_eq key j then none else view m j)
  pub count : m'.count + 1 ≡ m.count
  pub freed :
      (m'.free_value ≡ m.free_value)
      × (m'.freed ≡ (if m.free_value then m.freed ++ value ∷ [] else m.freed))

-- The entries of a table in the order of its slots.
abbrev pub pairs {ℓ} : {V : Type ℓ} → List (Slot V) → List (CString × Option V)
pairs [] = []
pairs (empty ∷ ss) = pairs ss
pairs (tombstone ∷ ss) = pairs ss
pairs (occupied k v ∷ ss) = (k, v) ∷ pairs ss

-- Going through a list of entries until the visitor returns a number that is not 0.
abbrev pub visit {ℓ κ} :
    {V : Type ℓ} {S : Type κ} → (CString → Option V → S → ℕ × S) → List (CString × Option V) → S → S
visit fn [] user = user
visit fn ((k, v) ∷ rest) user = elim ((fn k v user).0 == 0) [
  | true ↦ visit fn rest (fn k v user).1
  | false ↦ (fn k v user).1
]

-- The first value under a key in a list of entries.
abbrev pub assoc {ℓ} : {V : Type ℓ} → CString → List (CString × Option V) → Option (Option V)
assoc j [] = none
assoc j ((k, v) ∷ rest) = if str_eq k j then some v else assoc j rest

module _ {ℓ} {V : Type ℓ} where
  abbrev pub new_map : Bool → Hashmap V
  new_map free_value = record {
    slots = [];
    cap = 0;
    count = 0;
    tombstones = 0;
    free_value = free_value;
    freed = [];
  }

  pub new_map-IsValid : (free_value : Bool) → IsValid (new_map free_value)
  unfolding entries buried
  new_map-IsValid free_value = record {
    width = refl;
    sized = inl refl;
    bounded = omega arith;
    counted = refl;
    graves = refl;
    load = omega arith;
    placed = fresh-IsPlaced 0;
  }

  -- A map that `create` returns is valid and empty, and has released nothing.
  create-IsValid :
      (alloc : Allocator) (free_value : Bool) (m : Hashmap V)
      → create alloc free_value ≡ some m
      → IsValid m × ((j : CString) → view m j ≡ none) × (m.freed ≡ [])
  unfolding create search_slots
  create-IsValid alloc free_value m e =
      let made : new_map free_value ≡ m = ground arith in
      rw (← made) (new_map-IsValid free_value, λ j. refl, refl)

  bury-Removed :
      (m : Hashmap V) (key : CString) (i : ℕ) (v : Option V)
      → IsValid m
      → at m.slots i ≡ occupied key v
      → Removed key v m (record m {
        slots = set m.slots i tombstone;
        count = m.count - 1;
        tombstones = m.tombstones + 1;
        freed = if m.free_value then m.freed ++ v ∷ [] else m.freed;
      })
  bury-Removed m key i v valid is =
      let inside = occupied-lt m.slots i is in
      let some_entries = rw is at (entries-set m.slots i tombstone inside) in
      let more_graves = rw is at (buried-set m.slots i tombstone inside) in
      record {
        valid = record {
          width = length-set m.slots i tombstone ∙ valid.width;
          sized = valid.sized;
          bounded = valid.bounded;
          counted = omega (arith, some_entries, valid.counted);
          graves = omega (arith, more_graves, valid.graves);
          load = omega (arith, some_entries, valid.counted, valid.load);
          placed = bury-IsPlaced m.slots valid.placed i inside;
        };
        reads = λ j.
            search_slots-bury key v j m.slots i is (λ k w e. valid.placed.unique k i key w v e is);
        count = omega (arith, some_entries, valid.counted);
        freed = (refl, refl);
      }

  -- On a valid map and a key, `remove` ends without reading outside of the arrays. If the key is
  -- absent it returns -1 and changes nothing. Otherwise it returns 0: the map is valid, lacks the key,
  -- is the same at every other key, has one entry less, and the value went to the callback, if there
  -- is one.
  pub remove-Removed :
      (m : Hashmap V) (key : CString)
      → IsValid m
      → ((view m key ≡ none) × (remove (some m) (some key) ≡ done (failure, some m)))
        ⊎ ((v : Option V) × (m' : Hashmap V) × (view m key ≡ some v)
            × (remove (some m) (some key) ≡ done (success, some m'))
            × Removed key v m m')
  unfolding remove
  remove-Removed m key valid = elim (find_key_cases m valid key) [
    | inl (i, v, is, found, run) ↦ inr (
      v,
      record m {
        slots = set m.slots i tombstone;
        count = m.count - 1;
        tombstones = m.tombstones + 1;
        freed = if m.free_value then m.freed ++ v ∷ [] else m.freed;
      },
      found,
      rw (run, ◌>>=◌, value_at-occupied m.slots i is),
      bury-Removed m key i v valid is,
    )
    | inr (missing, run) ↦ inl (missing, rw (run, ◌>>=◌))
  ]

  clear_loop-pairs :
      (b : Bool) (ss : List (Slot V))
      → clear_loop b ss ≡ (if b then map (λ e. e.1) (pairs ss) else [])
  unfolding clear_loop
  clear_loop-pairs true [] = refl
  clear_loop-pairs false [] = refl
  clear_loop-pairs b (empty ∷ ss) = clear_loop-pairs b ss
  clear_loop-pairs b (tombstone ∷ ss) = clear_loop-pairs b ss
  clear_loop-pairs true (occupied k v ∷ ss) = ap (◌∷◌ v) (clear_loop-pairs true ss)
  clear_loop-pairs false (occupied k v ∷ ss) = clear_loop-pairs false ss

  -- Clearing a valid map leaves a valid map of the same capacity with no entry, and calls the
  -- callback, if there is one, on the value of each entry in the order of the slots; `destroy` makes
  -- the same calls.
  pub clear_lem :
      (m : Hashmap V)
      → IsValid m
      → IsValid (clear m)
        × ((j : CString) → view (clear m) j ≡ none)
        × (size (some (clear m)) ≡ 0)
        × ((clear m).freed
            ≡ m.freed ++ (if m.free_value then map (λ e. e.1) (pairs m.slots) else []))
        × (destroy m ≡ (clear m).freed)
  unfolding clear size destroy
  clear_lem m valid = (
    record {
      width = length-replicate (length m.slots) empty ∙ valid.width;
      sized = valid.sized;
      bounded = valid.bounded;
      counted = (fresh_counts V (length m.slots)).0;
      graves = (fresh_counts V (length m.slots)).1;
      load = omega arith;
      placed = fresh-IsPlaced (length m.slots);
    },
    λ j. search_slots-replicate j (length m.slots),
    refl,
    ap (λ l. m.freed ++ l) (clear_loop-pairs m.free_value m.slots),
    refl,
  )

  length-pairs : (ss : List (Slot V)) → length (pairs ss) ≡ entries ss
  unfolding entries
  length-pairs [] = refl
  length-pairs (empty ∷ ss) = omega (arith, length-pairs ss)
  length-pairs (tombstone ∷ ss) = omega (arith, length-pairs ss)
  length-pairs (occupied k v ∷ ss) = omega (arith, length-pairs ss)

  search_slots-pairs : (j : CString) (ss : List (Slot V)) → search_slots j ss ≡ assoc j (pairs ss)
  unfolding search_slots
  search_slots-pairs j [] = refl
  search_slots-pairs j (empty ∷ ss) = search_slots-pairs j ss
  search_slots-pairs j (tombstone ∷ ss) = search_slots-pairs j ss
  search_slots-pairs j (occupied k v ∷ ss) = rw (search_slots-pairs j ss)

  foreach_loop-visit {κ} :
      {S : Type κ} (fn : CString → Option V → S → ℕ × S) (ss : List (Slot V)) (user : S)
      → foreach_loop ss fn user ≡ visit fn (pairs ss) user
  unfolding foreach_loop
  foreach_loop-visit fn [] user = refl
  foreach_loop-visit fn (empty ∷ ss) user = foreach_loop-visit fn ss user
  foreach_loop-visit fn (tombstone ∷ ss) user = foreach_loop-visit fn ss user
  foreach_loop-visit fn (occupied k v ∷ ss) user =
      ground (arith, foreach_loop-visit fn ss (fn k v user).1)

  -- `foreach` on a valid map visits a list of entries, until the visitor returns a number that is not
  -- 0. The list has as many entries as `size` says, and finding a key in it is reading the map.
  pub foreach-visit {κ} :
      {S : Type κ} (m : Hashmap V) (fn : CString → Option V → S → ℕ × S) (user : S)
      → IsValid m
      → (foreach (some m) (some fn) user ≡ visit fn (pairs m.slots) user)
        × (length (pairs m.slots) ≡ size (some m))
        × ((j : CString) → view m j ≡ assoc j (pairs m.slots))
  unfolding foreach size
  foreach-visit m fn user valid = (
    foreach_loop-visit fn m.slots user,
    length-pairs m.slots ∙ valid.counted,
    λ j. search_slots-pairs j m.slots,
  )
