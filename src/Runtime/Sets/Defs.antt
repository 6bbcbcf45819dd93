-- ===== src/Runtime/Sets/Defs.antt =====
-- set_contains, set_add, set_union and set_diff of src/abs.c. A set is its items in the order in which they
-- were added, and there is memory for one more. To read the items of a value without any is a fault.
use abscom.Prelude.{Bool, true, false, not, ◌&&◌, ◌||◌, if◌then◌else◌, str_eq}
use abscom.Prelude.Run.{Run, done, fault}
use abscom.Runtime.Values.Defs.{
  Floats, Value, Items, null, none_value, int_value, float_value, str_value, bool_value, list_value,
  set_value, nil, cons, eq_bool, eq,
}
use abscom.Runtime.Values.Arith.{append_item}

-- Does set_contains take the two for the same item? Values of two types are not.
unfoldable pub same_item : {F : Type 0} → Floats F → Value F → Value F → Bool
unfolding eq
same_item fl (int_value i) (int_value j) = fl.eq (fl.of_long i) (fl.of_long j)
same_item fl (float_value f) (float_value g) = fl.eq f g
same_item fl (str_value s) (str_value t) = str_eq s t
same_item fl (bool_value a) (bool_value b) = eq_bool a b
same_item fl none_value none_value = true
same_item fl (list_value xs) (list_value ys) = eq fl (list_value xs) (list_value ys)
same_item fl (set_value xs) (set_value ys) = eq fl (set_value xs) (set_value ys)
same_item fl it item = false

-- the loop of set_contains
unfoldable pub holds : {F : Type 0} → Floats F → Items F → Value F → Bool
unfolding same_item
holds fl nil item = false
holds fl (cons it xs) item = if same_item fl it item then true else holds fl xs item

abbrev pub is_null : {F : Type 0} → Value F → Bool
is_null null = true
is_null v = false

-- set_contains past its tests for NULL
unfoldable pub contains : {F : Type 0} → Floats F → Value F → Value F → Run Bool
unfolding holds
contains fl (set_value xs) item = done (holds fl xs item)
contains fl (list_value xs) item = done (holds fl xs item)
contains fl v item = fault

unfoldable pub set_contains : {F : Type 0} → Floats F → Value F → Value F → Run Bool
unfolding contains
set_contains fl v item = if is_null v || is_null item then done false else contains fl v item

-- set_add, for the items of a set
unfoldable pub add_item : {F : Type 0} → Floats F → Items F → Value F → Items F
unfolding holds append_item
add_item fl xs item = if is_null item || holds fl xs item then xs else append_item xs item

unfoldable pub set_add : {F : Type 0} → Floats F → Value F → Value F → Value F
unfolding add_item
set_add fl (set_value xs) item = set_value (add_item fl xs item)
set_add fl v item = v

-- The loop that adds the items of a set.
unfoldable pub add_items : {F : Type 0} → Floats F → Items F → Items F → Items F
add_items fl res nil = res
add_items fl res (cons x xs) = add_items fl (add_item fl res x) xs

-- The items of a set; other values have none to add.
abbrev pub set_items : {F : Type 0} → Value F → Items F
set_items (set_value xs) = xs
set_items v = nil

unfoldable pub set_union : {F : Type 0} → Floats F → Value F → Value F → Value F
unfolding add_items
set_union fl a b = set_value (add_items fl (add_items fl nil (set_items a)) (set_items b))

-- Is b a set that contains the item? A NULL item is in no set.
abbrev pub in_set : {F : Type 0} → Floats F → Value F → Value F → Bool
in_set fl (set_value ys) x = not (is_null x) && holds fl ys x
in_set fl b x = false

unfoldable pub diff_items : {F : Type 0} → Floats F → Items F → Items F → Value F → Items F
unfolding add_item
diff_items fl res nil b = res
diff_items fl res (cons x xs) b =
    diff_items fl (if not (in_set fl b x) then add_item fl res x else res) xs b

unfoldable pub set_diff : {F : Type 0} → Floats F → Value F → Value F → Value F
unfolding diff_items
set_diff fl a b = set_value (diff_items fl nil (set_items a) b)
