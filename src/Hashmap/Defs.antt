-- ===== src/Hashmap/Defs.antt =====
-- The map and its operations, function by function.
use abscom.Prelude.{
  ℕ, zero, suc, ◌+◌, ◌-◌, ◌*◌, ◌%◌, ◌^◌, bit_and, Bool, true, false, ◌&&◌, Option, none, some, List,
  [], ◌∷◌, ◌++◌, ltb, ◌==◌, if◌then◌else◌, CString, str_eq, length, get_or, get_elem?, set,
  replicate,
}
pub use abscom.Prelude.Run.{Run, done, fault, ◌>>=◌, Status, success, failure, on_success}
use abscom.Hash.{fnv1a64_str}

pub data Slot {ℓ} (V : Type ℓ) : Type ℓ where
  empty : Slot V
  tombstone : Slot V
  occupied : CString → Option V → Slot V

pub record Hashmap {ℓ} (V : Type ℓ) : Type ℓ where
  pub slots : List (Slot V)
  pub cap : ℕ
  pub count : ℕ
  pub tombstones : ℕ
  -- whether a `free_value` callback was given, and the values that it was called with
  pub free_value : Bool
  pub freed : List (Option V)

-- The places where the code allocates; an allocator answers a request of so many bytes.
pub data Site : Type 0 where
  new_keys new_vals new_states key_copy map_struct : Site

abbrev pub Allocator : Type 0
Allocator = Site → ℕ → Bool

abbrev pub size_mod : ℕ
size_mod = 2 ^ 64

-- calloc(n, size) fails where n * size does not fit a `size_t`.
unfoldable pub calloc : Allocator → Site → ℕ → ℕ → Bool
calloc alloc site n size = ltb (n * size) size_mod && alloc site (n * size)

-- The three arrays of a table of `new_cap` slots.
unfoldable pub allocates : Allocator → ℕ → Bool
unfolding calloc
allocates alloc new_cap =
    calloc alloc new_keys new_cap 8
    && calloc alloc new_vals new_cap 8
    && calloc alloc new_states new_cap 1

-- The slot at which the search for a key starts, and the next one.
unfoldable pub home : CString → ℕ → ℕ
home key cap = bit_and (fnv1a64_str (some key)) (cap - 1)

unfoldable pub advance : ℕ → ℕ → ℕ
advance idx cap = bit_and (idx + 1) (cap - 1)

abbrev pub min_cap : ℕ
min_cap = 16

-- Where the loop of abs_hashmap_set ends: at the slot of the key, or at the slot to fill.
pub data Place {ℓ} (V : Type ℓ) : Type ℓ where
  hit : ℕ → CString → Option V → Place V
  vacant : ℕ → Place V

module _ {ℓ} {V : Type ℓ} where
  unfoldable pub create : Allocator → Bool → Option (Hashmap V)
  create alloc free_value =
      if alloc map_struct 56
      then some (record {
        slots = [];
        cap = 0;
        count = 0;
        tombstones = 0;
        free_value = free_value;
        freed = [];
      })
      else none

  -- the inner loop of abs_hm_resize
  unfoldable pub vacant_loop : ℕ → List (Slot V) → ℕ → ℕ → Run ℕ
  vacant_loop zero slots cap idx = fault
  vacant_loop (suc fuel) slots cap idx = elim (get_elem? slots idx) [
    | none ↦ fault
    | some (occupied k v) ↦ vacant_loop fuel slots cap (advance idx cap)
    | some _ ↦ done idx
  ]

  -- its outer loop, over the old slots
  unfoldable pub move_all : List (Slot V) → List (Slot V) → ℕ → Run (List (Slot V))
  move_all [] fresh new_cap = done fresh
  move_all (empty ∷ rest) fresh new_cap = move_all rest fresh new_cap
  move_all (tombstone ∷ rest) fresh new_cap = move_all rest fresh new_cap
  move_all (occupied k v ∷ rest) fresh new_cap = do
    idx ← vacant_loop new_cap fresh new_cap (home k new_cap)
    move_all rest (set fresh idx (occupied k v)) new_cap

  unfoldable pub resize : Allocator → Hashmap V → ℕ → Run (Status × Hashmap V)
  resize alloc m new_cap =
      if allocates alloc new_cap
      then (do
        fresh ← move_all m.slots (replicate new_cap empty) new_cap
        done (success, record m { slots = fresh; cap = new_cap; tombstones = 0 }))
      else done (failure, m)

  -- the loop of abs_hm_find_key; `none` is SIZE_MAX
  unfoldable pub find_loop : ℕ → List (Slot V) → ℕ → CString → ℕ → Run (Option ℕ)
  find_loop zero slots cap key idx = fault
  find_loop (suc fuel) slots cap key idx =
      let next = find_loop fuel slots cap key (advance idx cap) in
      elim (get_elem? slots idx) [
        | none ↦ fault
        | some empty ↦ done none
        | some tombstone ↦ next
        | some (occupied k v) ↦ if str_eq k key then done (some idx) else next
      ]

  unfoldable pub find_key : Option (Hashmap V) → Option CString → Run (Option ℕ)
  find_key none key = done none
  find_key (some m) none = done none
  find_key (some m) (some key) =
      if m.cap == 0 then done none else find_loop m.cap m.slots m.cap key (home key m.cap)

  unfoldable pub clear_loop : Bool → List (Slot V) → List (Option V)
  clear_loop free_value [] = []
  clear_loop free_value (occupied k v ∷ rest) =
      if free_value then v ∷ clear_loop free_value rest else clear_loop free_value rest
  clear_loop free_value (_ ∷ rest) = clear_loop free_value rest

  unfoldable pub clear : Hashmap V → Hashmap V
  unfolding clear_loop
  clear m = record m {
    slots = replicate (length m.slots) empty;
    count = 0;
    tombstones = 0;
    freed = m.freed ++ clear_loop m.free_value m.slots;
  }

  -- What the callback was called with when the map is gone.
  unfoldable pub destroy : Hashmap V → List (Option V)
  unfolding clear
  destroy m = (clear m).freed

  -- the first two tests of abs_hashmap_set
  unfoldable pub allocate_first : Allocator → Hashmap V → Run (Status × Hashmap V)
  allocate_first alloc m = if m.cap == 0 then resize alloc m min_cap else done (success, m)

  unfoldable pub grow : Allocator → Hashmap V → Run (Status × Hashmap V)
  grow alloc m =
      if ltb (m.cap * 7 % size_mod) ((m.count + m.tombstones + 1) * 10 % size_mod)
      then (let new_cap = m.cap * 2 % size_mod in
          if ltb new_cap m.cap then done (failure, m) else resize alloc m new_cap)
      else done (success, m)

  unfoldable pub place_loop : ℕ → List (Slot V) → ℕ → CString → ℕ → Option ℕ → Run (Place V)
  place_loop zero slots cap key idx tomb = fault
  place_loop (suc fuel) slots cap key idx tomb =
      let next = place_loop fuel slots cap key (advance idx cap) in
      elim (get_elem? slots idx) [
        | none ↦ fault
        | some empty ↦ elim tomb [ none ↦ done (vacant idx) | some t ↦ done (vacant t) ]
        | some tombstone ↦ elim tomb [ none ↦ next (some idx) | some t ↦ next (some t) ]
        | some (occupied k v) ↦ if str_eq k key then done (hit idx k v) else next tomb
      ]

  -- a pointer that is not NULL
  abbrev pub is_set : Option V → Bool
  is_set none = false
  is_set (some _) = true

  unfoldable pub fill : Allocator → Hashmap V → CString → Option V → Place V → Status × Hashmap V
  fill alloc m key value (hit idx k old) = (
    success,
    record m {
      slots = set m.slots idx (occupied k value);
      freed = if m.free_value && is_set old then m.freed ++ old ∷ [] else m.freed;
    },
  )
  fill alloc m key value (vacant idx) =
      if alloc key_copy (length key + 1)
      then (
        success,
        record m {
          slots = set m.slots idx (occupied key value);
          count = m.count + 1;
          tombstones = elim (get_or m.slots idx empty) [
            | tombstone ↦ m.tombstones - 1
            | _ ↦ m.tombstones
          ];
        },
      )
      else (failure, m)

  unfoldable pub store : Allocator → Hashmap V → CString → Option V → Run (Status × Hashmap V)
  unfolding fill
  store alloc m key value = do
    p ← place_loop m.cap m.slots m.cap key (home key m.cap) none
    done (fill alloc m key value p)

  -- abs_hashmap_set past its guards on NULL
  unfoldable pub put : Allocator → Hashmap V → CString → Option V → Run (Status × Hashmap V)
  unfolding allocate_first grow store
  put alloc m key value = do
    r₁ ← allocate_first alloc m
    on_success r₁ λ m₁. do r₂ ← grow alloc m₁; on_success r₂ λ m₂. store alloc m₂ key value

  unfoldable pub assign :
      Allocator → Option (Hashmap V) → Option CString → Option V → Run (Status × Option (Hashmap V))
  assign alloc none key value = done (failure, none)
  assign alloc (some m) none value = done (failure, some m)
  assign alloc (some m) (some key) value = do (s, m') ← put alloc m key value; done (s, some m')

  -- the value in a slot
  abbrev pub value_at : List (Slot V) → ℕ → Run (Option V)
  value_at slots idx = elim (get_elem? slots idx) [
    | some (occupied k v) ↦ done v
    | some _ ↦ done none
    | none ↦ fault
  ]

  unfoldable pub get : Option (Hashmap V) → Option CString → Run (Option V)
  get none key = done none
  get (some m) key = do
    found ← find_key (some m) key
    elim found [ none ↦ done none | some idx ↦ value_at m.slots idx ]

  unfoldable pub contains : Option (Hashmap V) → Option CString → Run Bool
  contains m key = do
    found ← find_key m key
    elim found [ none ↦ done false | some idx ↦ done true ]

  unfoldable pub remove : Option (Hashmap V) → Option CString → Run (Status × Option (Hashmap V))
  remove none key = done (failure, none)
  remove (some m) key = do
    found ← find_key (some m) key
    elim found [
      | none ↦ done (failure, some m)
      | some idx ↦ do
        v ← value_at m.slots idx
        done (
          success,
          some (record m {
            slots = set m.slots idx tombstone;
            count = m.count - 1;
            tombstones = m.tombstones + 1;
            freed = if m.free_value then m.freed ++ v ∷ [] else m.freed;
          }),
        )
    ]

  unfoldable pub size : Option (Hashmap V) → ℕ
  size none = 0
  size (some m) = m.count

  -- A visitor returns 0 to go on, and carries the caller's state.
  unfoldable pub foreach_loop {κ} :
      {S : Type κ} → List (Slot V) → (CString → Option V → S → ℕ × S) → S → S
  foreach_loop [] fn user = user
  foreach_loop (occupied k v ∷ rest) fn user =
      let (stop, user') = fn k v user in
      let more = foreach_loop rest fn user' in if stop == 0 then more else user'
  foreach_loop (_ ∷ rest) fn user = foreach_loop rest fn user

  unfoldable pub foreach {κ} :
      {S : Type κ} → Option (Hashmap V) → Option (CString → Option V → S → ℕ × S) → S → S
  unfolding foreach_loop
  foreach none fn user = user
  foreach (some m) none user = user
  foreach (some m) (some fn) user = foreach_loop m.slots fn user
