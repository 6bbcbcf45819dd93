-- ===== src/Itertools/Defs.antt =====
-- The functions of src/abs_itertools.c. A value is of any type: `items_of` is what val.list holds, and
-- none for a value that is not a list; `none_value` is the object None. A pointer is none for NULL.
use abscom.Prelude.{
  ℕ, zero, suc, ◌+◌, ◌-◌, Option, none, some, List, [], ◌∷◌, ltb, leb, ◌==◌, if◌then◌else◌, length,
  get_elem?,
}
use abscom.Prelude.Int.{ℤ, pos, negsuc}
use abscom.Prelude.Run.{Run, done, fault, ◌>>=◌}

pub record Iterator {ℓ} (V : Type ℓ) : Type ℓ where
  pub source_a : Option V
  pub source_b : Option V
  pub index : ℕ
  pub mode : ℕ
  pub limit : ℕ

abbrev pub or_else {ℓ} : {V : Type ℓ} → Option V → V → V
or_else none d = d
or_else (some v) d = v

abbrev pub count_of : ℤ → ℕ
count_of (pos n) = n
count_of (negsuc n) = 0

module _ {ℓ} {V : Type ℓ} (none_value : V) (items_of : V → Option (List V)) where
  -- What an iterator returns: a pointer to a value, or the error of a call on no iterator.
  unfoldable pub chain : Option V → Option V → Iterator V
  chain list_a list_b = record {
    source_a = list_a;
    source_b = some (or_else list_b none_value);
    index = 0;
    mode = 0;
    limit = 0;
  }

  unfoldable pub list_pointer : Option V → Option V
  list_pointer none = none
  list_pointer (some v) = elim (items_of v) [ none ↦ none | some items ↦ some v ]

  unfoldable pub cycle : Option V → Iterator V
  unfolding list_pointer
  cycle list = record {
    source_a = list_pointer list;
    source_b = none;
    index = 0;
    mode = 1;
    limit = 0;
  }

  unfoldable pub repeat : Option V → ℤ → Iterator V
  repeat val n = record { source_a = val; source_b = none; index = 0; mode = 2; limit = count_of n }

  -- The items of a pointer to a list; none where the code takes the size as 0.
  unfoldable pub items_or_nil : Option V → List V
  items_or_nil none = []
  items_or_nil (some v) = elim (items_of v) [ none ↦ [] | some items ↦ items ]

  -- An item, and the iterator moved on by one.
  unfoldable pub take_item : List V → ℕ → ℕ → Iterator V → Run (Option V × Iterator V)
  take_item items at index it = elim (get_elem? items at) [
    | none ↦ fault
    | some v ↦ done (some v, record it { index = index + 1 })
  ]

  unfoldable pub next_repeat : Iterator V → Run (Option V × Iterator V)
  next_repeat it =
      if ltb it.index it.limit
      then done (it.source_a, record it { index = it.index + 1 })
      else done (some none_value, it)

  unfoldable pub next_chain : V → Iterator V → Run (Option V × Iterator V)
  unfolding items_or_nil take_item
  next_chain b it =
      let a_items = items_or_nil it.source_a in
      let n = length a_items in
      if ltb it.index n then take_item a_items it.index it.index it else elim (items_of b) [
        | none ↦ done (some none_value, it)
        | some b_items ↦
            if ltb (it.index - n) (length b_items)
            then take_item b_items (it.index - n) it.index it
            else done (some none_value, it)
      ]

  -- A source that is not a list has no val.list to read.
  unfoldable pub next_cycle : Iterator V → Run (Option V × Iterator V)
  unfolding take_item
  next_cycle it = elim it.source_a [
    | none ↦ done (some none_value, it)
    | some a ↦ elim (items_of a) [
      | none ↦ fault
      | some items ↦
          let start = if leb (length items) it.index then 0 else it.index in
          if length items == 0 then done (some none_value, it) else take_item items start start it
    ]
  ]

  unfoldable pub iter_next : Iterator V → Run (Option V × Iterator V)
  unfolding next_repeat next_chain next_cycle
  iter_next it =
      if it.mode == 2
      then next_repeat it
      else elim it.source_b [ none ↦ next_cycle it | some b ↦ next_chain b it ]

  -- The answers of `n` calls of iter_next.
  unfoldable pub next_all : ℕ → Iterator V → Run (List (Option V))
  next_all zero it = done []
  next_all (suc n) it = do (v, it') ← iter_next it; rest ← next_all n it'; done (v ∷ rest)
