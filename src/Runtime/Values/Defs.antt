-- ===== src/Runtime/Values/Defs.antt =====
-- The values of src/abs.c, as trees of what an object and the objects behind its pointers hold. `null`
-- is the NULL pointer. A dictionary is its entries in the order of its buckets.
use abscom.Prelude.{
  ℕ, suc, Bool, true, false, ◌&&◌, ◌||◌, not, Option, none, some, [], ◌∷◌, ltb, if◌then◌else◌,
  CString, str_eq,
}
use abscom.Prelude.Int.{ℤ, pos, ltb_ℤ}
use abscom.Sort.Defs.{Sign, below, same, above}

-- The `double` of C, and what the code does with it. `text` is printf of "%.2f", `long_text` of "%.17g".
pub record Floats (F : Type 0) : Type 0 where
  pub of_long : ℤ → F
  pub to_long : F → ℤ
  pub lt : F → F → Bool
  pub eq : F → F → Bool
  pub plus : F → F → F
  pub minus : F → F → F
  pub times : F → F → F
  pub text : F → CString
  pub long_text : F → CString
  pub atof : CString → F

-- Types with no contents that the code prints or compares.
pub data Kind : Type 0 where
  file thread time generator library iterator : Kind

mutual
  pub data Value (F : Type 0) : Type 0 where
    null none_value : Value F
    int_value : ℤ → Value F
    float_value : F → Value F
    str_value : CString → Value F
    bool_value : Bool → Value F
    error_value : CString → Value F
    list_value : Items F → Value F
    set_value : Items F → Value F
    dict_value : Fields F → Value F
    class_value : CString → Value F
    instance_value : Option CString → Value F
    function_value : CString → Value F
    server_value : ℤ → Value F
    other_value : Kind → Value F

  pub data Items (F : Type 0) : Type 0 where
    nil : Items F
    cons : Value F → Items F → Items F

  pub data Fields (F : Type 0) : Type 0 where
    end : Fields F
    field : CString → Value F → Fields F → Fields F

abbrev pub some_bytes : CString → Bool
some_bytes [] = false
some_bytes (c ∷ s) = true

-- strcmp as a sign, on bytes as unsigned characters
unfoldable pub strcmp : CString → CString → Sign
strcmp [] [] = same
strcmp [] (d ∷ t) = below
strcmp (c ∷ s) [] = above
strcmp (c ∷ s) (d ∷ t) =
    let rest = strcmp s t in if ltb c d then below else if ltb d c then above else rest

abbrev pub sign_of : Bool → Bool → Sign
sign_of true more = below
sign_of false true = above
sign_of false false = same

abbrev pub eq_bool : Bool → Bool → Bool
eq_bool true b = b
eq_bool false b = not b

module _ {F : Type 0} where
  unfoldable pub size_items : Items F → ℕ
  size_items nil = 0
  size_items (cons x xs) = suc (size_items xs)

  -- Are there items, or entries?
  abbrev pub some_items : Items F → Bool
  some_items nil = false
  some_items (cons x xs) = true

  abbrev pub some_fields : Fields F → Bool
  some_fields end = false
  some_fields (field k v fs) = true

module _ {F : Type 0} (floats : Floats F) where
  -- The value of a number as a double; none for other types.
  abbrev pub num_val : Value F → Option F
  num_val (int_value i) = some (floats.of_long i)
  num_val (float_value f) = some f
  num_val _ = none

  unfoldable pub is_true : Value F → Bool
  is_true null = false
  is_true none_value = false
  is_true (bool_value b) = b
  is_true (int_value i) = ltb_ℤ i (pos 0) || ltb_ℤ (pos 0) i
  is_true (float_value f) = not (floats.eq f (floats.of_long (pos 0)))
  is_true (str_value s) = some_bytes s
  is_true (list_value xs) = some_items xs
  is_true (set_value xs) = some_items xs
  is_true (dict_value fs) = some_fields fs
  is_true (error_value e) = false
  is_true (class_value n) = true
  is_true (instance_value n) = true
  is_true (function_value n) = true
  is_true (server_value p) = true
  is_true (other_value k) = true

  abbrev pub compare_floats : Option F → Option F → Sign
  compare_floats (some v1) (some v2) = sign_of (floats.lt v1 v2) (floats.lt v2 v1)
  compare_floats (some v1) none = same
  compare_floats none b = same

  unfoldable pub compare_objs : Value F → Value F → Sign
  unfolding strcmp
  compare_objs (int_value i) (int_value j) = sign_of (ltb_ℤ i j) (ltb_ℤ j i)
  compare_objs (str_value s) (str_value t) = strcmp s t
  compare_objs a b = compare_floats (num_val a) (num_val b)

  abbrev pub eq_floats : Option F → Option F → Bool
  eq_floats (some v1) (some v2) = floats.eq v1 v2
  eq_floats (some v1) none = false
  eq_floats none b = false

-- The value of the boolean that eq returns; the sizes of two lists are compared before their items.
unfoldable mutual
  pub eq : {F : Type 0} → Floats F → Value F → Value F → Bool
  eq fl (bool_value a) (bool_value b) = eq_bool a b
  eq fl (str_value s) (str_value t) = str_eq s t
  eq fl none_value none_value = true
  eq fl (list_value xs) (list_value ys) = eq_items fl xs ys
  eq fl a b = eq_floats fl (num_val fl a) (num_val fl b)

  pub eq_items : {F : Type 0} → Floats F → Items F → Items F → Bool
  eq_items fl nil nil = true
  eq_items fl nil (cons y ys) = false
  eq_items fl (cons x xs) nil = false
  eq_items fl (cons x xs) (cons y ys) = eq fl x y && eq_items fl xs ys
