-- ===== src/Runtime/Values/Arith.antt =====
-- add, sub, str_repeat, mul, to_int, to_float, sum_val and not_ of src/abs.c. A sum that
-- is outside `long` is a fault, as is a write past a block. malloc gives a request of m bytes its block or none.
use abscom.Prelude.{
  ℕ, zero, suc, ◌+◌, ◌-◌, ◌*◌, ◌/◌, ◌%◌, ◌^◌, Bool, true, false, ◌&&◌, not, Option, none, some, [],
  ◌++◌, ltb, ◌==◌, if◌then◌else◌, CString, length,
}
use abscom.Prelude.Int.{ℤ, pos, negsuc, ◌+ℤ◌, ◌-ℤ◌, ◌*ℤ◌}
use abscom.Prelude.Run.{Run, done, fault}
use abscom.Runtime.Values.Defs.{
  Floats, Value, Items, null, none_value, int_value, float_value, str_value, bool_value, list_value,
  nil, cons, num_val, is_true,
}

abbrev pub in_long : ℤ → Bool
in_long (pos n) = ltb n (2 ^ 63)
in_long (negsuc n) = ltb n (2 ^ 63)

-- s written n times, each copy behind the last
unfoldable pub copies : ℕ → CString → CString
copies zero s = []
copies (suc n) s = s ++ copies n s

-- What the arithmetic takes from the C library: strtol and strtod are none where they read nothing.
pub record Conversions (F : Type 0) : Type 0 where
  pub strtol : CString → Option ℤ
  pub strtod : CString → Option F

-- append to a list that can grow
unfoldable pub append_item : {F : Type 0} → Items F → Value F → Items F
append_item nil item = cons item nil
append_item (cons x xs) item = cons x (append_item xs item)

-- The loop that appends each item of the second list.
unfoldable pub extend : {F : Type 0} → Items F → Items F → Items F
unfolding append_item
extend l nil = l
extend l (cons x xs) = extend (append_item l x) xs

unfoldable pub long_result : {F : Type 0} → ℤ → Run (Value F)
long_result i = if in_long i then done (int_value i) else fault

module _ {F : Type 0} (malloc : ℕ → Bool) where
  -- The size that malloc is asked for is a 64-bit sum.
  unfoldable pub repeat_times : CString → ℕ → Run (Value F)
  unfolding copies
  repeat_times s count =
      if ltb 0 (length s) && ltb ((2 ^ 64 - 1) / length s) count
      then done none_value
      else if not (malloc ((length s * count + 1) % 2 ^ 64))
      then done none_value
      else if ltb ((length s * count + 1) % 2 ^ 64) (length s * count + 1)
      then fault
      else done (str_value (copies count s))

  unfoldable pub str_repeat : CString → ℤ → Run (Value F)
  unfolding repeat_times
  str_repeat s (negsuc n) = done (str_value [])
  str_repeat s (pos n) = if n == 0 then done (str_value []) else repeat_times s n

  module _ (floats : Floats F) where
    abbrev pub both_floats : (F → F → F) → Option F → Option F → Value F
    both_floats op (some v1) (some v2) = float_value (op v1 v2)
    both_floats op (some v1) none = none_value
    both_floats op none b = none_value

    unfoldable pub add : Value F → Value F → Run (Value F)
    unfolding long_result extend
    add (int_value i) (int_value j) = long_result (i +ℤ j)
    add (str_value s) (str_value t) =
        done (if malloc (length s + length t + 1) then str_value (s ++ t) else none_value)
    add (list_value xs) (list_value ys) = done (list_value (extend (extend nil xs) ys))
    add a b = done (both_floats floats.plus (num_val floats a) (num_val floats b))

    unfoldable pub sub : Value F → Value F → Run (Value F)
    unfolding long_result
    sub (int_value i) (int_value j) = long_result (i -ℤ j)
    sub a b = done (both_floats floats.minus (num_val floats a) (num_val floats b))

    unfoldable pub mul : Value F → Value F → Run (Value F)
    unfolding long_result str_repeat
    mul (str_value s) (int_value i) = str_repeat s i
    mul (int_value i) (str_value s) = str_repeat s i
    mul (int_value i) (int_value j) = long_result (i *ℤ j)
    mul a b = done (both_floats floats.times (num_val floats a) (num_val floats b))

module _ {F : Type 0} (floats : Floats F) where
  abbrev pub long_of : Option ℤ → Value F
  long_of (some i) = int_value i
  long_of none = none_value

  abbrev pub float_of : Option F → Value F
  float_of (some f) = float_value f
  float_of none = none_value

  unfoldable pub to_int : Conversions F → Value F → Value F
  to_int c (int_value i) = int_value i
  to_int c (float_value f) = int_value (floats.to_long f)
  to_int c (bool_value b) = int_value (pos (if b then 1 else 0))
  to_int c (str_value s) = long_of (c.strtol s)
  to_int c v = none_value

  unfoldable pub to_float : Conversions F → Value F → Value F
  to_float c (int_value i) = float_value (floats.of_long i)
  to_float c (float_value f) = float_value f
  to_float c (bool_value b) = float_value (floats.of_long (pos (if b then 1 else 0)))
  to_float c (str_value s) = float_of (c.strtod s)
  to_float c v = none_value

  unfoldable pub not_ : Value F → Value F
  unfolding is_true
  not_ v = bool_value (not (is_true floats v))

  -- The loop of sum_val. It reads the type of every item: a NULL item is a fault.
  unfoldable pub sum_items : Items F → Bool → ℤ → F → Run (Value F)
  sum_items nil use_float total_i total_f =
      done (if use_float then float_value total_f else int_value total_i)
  sum_items (cons null xs) use_float total_i total_f = fault
  sum_items (cons (float_value f) xs) use_float total_i total_f =
      sum_items xs true total_i (floats.plus total_f f)
  sum_items (cons (int_value i) xs) use_float total_i total_f =
      let rest = sum_items xs use_float (total_i +ℤ i) (floats.plus total_f (floats.of_long i)) in
      if in_long (total_i +ℤ i) then rest else fault
  sum_items (cons x xs) use_float total_i total_f = sum_items xs use_float total_i total_f

  unfoldable pub sum_val : Value F → Run (Value F)
  unfolding sum_items
  sum_val (list_value xs) = sum_items xs false (pos 0) (floats.of_long (pos 0))
  sum_val v = done (int_value (pos 0))
