-- ===== src/Runtime/Lists/Defs.antt =====
-- get, len, range, slice, map_func, filter_func, list_comp, reversed_seq and zip_lists of src/abs.c, with
-- the memory that they ask for. A read outside of the items is a fault.
use abscom.Prelude.{
  ℕ, zero, suc, ◌+◌, ◌-◌, ◌%◌, ◌^◌, Bool, true, Option, none, some, List, [], ◌∷◌, ltb,
  if◌then◌else◌, codes, length,
}
use abscom.Prelude.Int.{ℤ, pos, negsuc, ◌+ℤ◌, ◌-ℤ◌, pos_part, ltb_ℤ}
use abscom.Prelude.Run.{Run, done, fault, ◌>>=◌}
use abscom.Runtime.Values.Defs.{
  Floats, Value, Items, Fields, none_value, int_value, str_value, error_value, list_value,
  set_value, dict_value, nil, cons, end, field, size_items, is_true,
}
use abscom.Runtime.Values.Arith.{append_item}

abbrev pub to_list : {F : Type 0} → Items F → List (Value F)
to_list nil = []
to_list (cons x xs) = x ∷ to_list xs

abbrev pub to_items : {F : Type 0} → List (Value F) → Items F
to_items [] = nil
to_items (x ∷ xs) = cons x (to_items xs)

unfoldable pub item_at : {F : Type 0} → Items F → ℕ → Option (Value F)
item_at nil i = none
item_at (cons x xs) zero = some x
item_at (cons x xs) (suc i) = item_at xs i

abbrev pub out_of_bounds : {F : Type 0} → Option (Value F) → Value F
out_of_bounds none = error_value (codes "Index out of bounds")
out_of_bounds (some x) = x

-- get past its test on the type: a negative index counts from the end.
unfoldable pub get_item : {F : Type 0} → Items F → ℤ → Value F
unfolding item_at size_items
get_item xs (pos i) = out_of_bounds (item_at xs i)
get_item xs (negsuc i) =
    if ltb i (size_items xs)
    then out_of_bounds (item_at xs (size_items xs - suc i))
    else error_value (codes "Index out of bounds")

unfoldable pub get : {F : Type 0} → Value F → ℤ → Value F
unfolding get_item
get (list_value xs) index = get_item xs index
get (set_value xs) index = get_item xs index
get v index = error_value (codes "Not a list")

unfoldable pub size_fields : {F : Type 0} → Fields F → ℕ
size_fields end = 0
size_fields (field k v fs) = suc (size_fields fs)

unfoldable pub len : {F : Type 0} → Value F → Value F
unfolding size_items size_fields
len (str_value s) = int_value (pos (length s))
len (list_value xs) = int_value (pos (size_items xs))
len (set_value xs) = int_value (pos (size_items xs))
len (dict_value fs) = int_value (pos (size_fields fs))
len v = int_value (pos 0)

unfoldable pub get_len_fast : {F : Type 0} → Value F → ℕ
unfolding size_items
get_len_fast (list_value xs) = size_items xs
get_len_fast (set_value xs) = size_items xs
get_len_fast v = 0

-- the loop of range, with the rounds that are left
unfoldable pub range_loop : {F : Type 0} → ℕ → ℤ → Items F → Items F
unfolding append_item
range_loop zero i l = l
range_loop (suc rounds) i l = range_loop rounds (i +ℤ pos 1) (append_item l (int_value i))

unfoldable pub range : {F : Type 0} → ℤ → ℤ → Value F
unfolding range_loop
range start stop = list_value (range_loop (pos_part (stop -ℤ start)) start nil)

-- the loop of slice over i
unfoldable pub copy_items : {F : Type 0} → ℕ → ℕ → Items F → Items F → Run (Items F)
unfolding append_item item_at
copy_items zero i xs l = done l
copy_items (suc rounds) i xs l = elim (item_at xs i) [
  | none ↦ fault
  | some x ↦ copy_items rounds (i + 1) xs (append_item l x)
]

-- What fits in an `int`.
abbrev pub in_int : ℤ → Bool
in_int (pos n) = ltb n (2 ^ 31)
in_int (negsuc n) = ltb n (2 ^ 31)

-- `(int)n`, which keeps the low 32 bits
unfoldable pub int_of : ℕ → ℤ
int_of n = let low = n % 2 ^ 32 in if ltb low (2 ^ 31) then pos low else negsuc (2 ^ 32 - low - 1)

-- A sum of two numbers of type `int`; one that does not fit is a fault.
unfoldable pub int_sum : ℤ → ℤ → Run ℤ
int_sum a b = if in_int (a +ℤ b) then done (a +ℤ b) else fault

-- A negative bound counts from the end.
unfoldable pub from_end : ℤ → ℕ → Run ℤ
unfolding int_sum int_of
from_end (pos i) n = done (pos i)
from_end (negsuc i) n = int_sum (negsuc i) (int_of n)

-- The second bound, if it is not behind the list; the comparison is one of type `long`.
unfoldable pub at_most : ℕ → ℤ → ℤ
unfolding int_of
at_most n i = if ltb_ℤ (pos n) i then int_of n else i

-- The loop runs while the counter, which starts at 0 for a negative first bound, is below the second bound.
unfoldable pub slice : {F : Type 0} → Value F → ℤ → ℤ → Run (Value F)
unfolding copy_items from_end at_most size_items
slice (list_value xs) start stop = do
  let n = size_items xs
  start' ← from_end start n
  stop' ← from_end stop n
  let first = pos_part start'
  l ← copy_items (pos_part (at_most n stop') - first) first xs nil
  done (list_value l)
slice v start stop = done (error_value (codes "Can only slice lists"))

module _ {F : Type 0} where
  unfoldable pub map_loop : (Value F → Value F) → Items F → Items F → Items F
  unfolding append_item
  map_loop f res nil = res
  map_loop f res (cons x xs) = map_loop f (append_item res (f x)) xs

  unfoldable pub map_func : Value F → (Value F → Value F) → Value F
  unfolding map_loop
  map_func (list_value xs) f = list_value (map_loop f nil xs)
  map_func v f = error_value (codes "Not a list")

  -- The loop of filter_func, and of list_comp, which appends what `mapf` gives.
  unfoldable pub comp_loop : (Value F → Bool) → (Value F → Value F) → Items F → Items F → Items F
  unfolding append_item
  comp_loop keep mapf res nil = res
  comp_loop keep mapf res (cons x xs) =
      comp_loop keep mapf (if keep x then append_item res (mapf x) else res) xs

  -- A NULL function keeps every item, or gives the item itself.
  abbrev pub filter_or_all : Option (Value F → Bool) → Value F → Bool
  filter_or_all none x = true
  filter_or_all (some filterf) x = filterf x

  abbrev pub map_or_id : Option (Value F → Value F) → Value F → Value F
  map_or_id none x = x
  map_or_id (some mapf) x = mapf x

  unfoldable pub list_comp :
      Value F → Option (Value F → Value F) → Option (Value F → Bool) → Value F
  unfolding comp_loop
  list_comp (list_value xs) mapf filterf =
      list_value (comp_loop (filter_or_all filterf) (map_or_id mapf) nil xs)
  list_comp (set_value xs) mapf filterf =
      list_value (comp_loop (filter_or_all filterf) (map_or_id mapf) nil xs)
  list_comp v mapf filterf = list_value nil

module _ {F : Type 0} (fl : Floats F) where
  unfoldable pub filter_func : Value F → (Value F → Value F) → Value F
  unfolding comp_loop is_true
  filter_func (list_value xs) f = list_value (comp_loop (λ x. is_true fl (f x)) (λ x. x) nil xs)
  filter_func v f = error_value (codes "Not a list")

-- the loop of reversed_seq, from the last of the first n items down
unfoldable pub reverse_loop : {F : Type 0} → ℕ → Items F → Items F → Run (Items F)
unfolding item_at append_item
reverse_loop zero xs res = done res
reverse_loop (suc n) xs res = elim (item_at xs n) [
  | none ↦ fault
  | some x ↦ reverse_loop n xs (append_item res x)
]

unfoldable pub reversed_seq : {F : Type 0} → Value F → Run (Value F)
unfolding reverse_loop size_items
reversed_seq (list_value xs) = do res ← reverse_loop (size_items xs) xs nil; done (list_value res)
reversed_seq v = done none_value

-- The loop of zip_lists, which ends with the shorter list.
unfoldable pub zip_loop : {F : Type 0} → Items F → Items F → Items F → Items F
unfolding append_item
zip_loop res (cons x xs) (cons y ys) =
    zip_loop (append_item res (list_value (cons x (cons y nil)))) xs ys
zip_loop res (cons x xs) nil = res
zip_loop res nil ys = res

unfoldable pub zip_lists : {F : Type 0} → Value F → Value F → Value F
unfolding zip_loop
zip_lists (list_value xs) (list_value ys) = list_value (zip_loop nil xs ys)
zip_lists v w = list_value nil
