-- ===== src/Runtime/Values/Text.antt =====
-- str_build, to_str, type and to_int of src/abs.c. A builder is the text that was appended to it: growing
-- it does not fail. snprintf into a buffer of n bytes keeps n - 1 of them.
use abscom.Prelude.{
  ℕ, zero, suc, ◌+◌, ◌/◌, ◌%◌, Bool, true, false, Option, none, some, [], ◌∷◌, ◌++◌, ◌==◌,
  if◌then◌else◌, CString, codes, take,
}
use abscom.Prelude.Int.{ℤ, pos, negsuc}
use abscom.Prelude.Run.{Run, done, fault, ◌>>=◌}
use abscom.Runtime.Values.Defs.{
  Floats, Kind, file, thread, time, generator, library, iterator, Value, Items, Fields, null,
  none_value, int_value, float_value, str_value, bool_value, error_value, list_value, set_value,
  dict_value, class_value, instance_value, function_value, server_value, other_value, nil, cons,
  end, field,
}

-- The digits of a positive number, in front of `out`; each round drops one.
unfoldable pub digits : ℕ → ℕ → CString → CString
digits zero n out = out
digits (suc fuel) n out =
    let more = digits fuel (n / 10) ((48 + n % 10) ∷ out) in if n == 0 then out else more

unfoldable pub decimal : ℕ → CString
unfolding digits
decimal n = if n == 0 then 48 ∷ [] else digits n n []

-- printf of "%ld"
unfoldable pub long_text : ℤ → CString
unfolding decimal
long_text (pos n) = decimal n
long_text (negsuc n) = 45 ∷ decimal (suc n)

abbrev pub kind_text : Kind → CString
kind_text file = codes "<file>"
kind_text thread = codes "<thread>"
kind_text time = codes "<datetime>"
kind_text generator = codes "<generator>"
kind_text library = codes "<library>"
kind_text iterator = codes "<iterator>"

abbrev pub instance_text : Option CString → CString
instance_text none = codes "<instance object>"
instance_text (some name) = codes "<" ++ (name ++ codes " object>")

abbrev pub function_text : CString → CString
function_text [] = codes "<function>"
function_text (c ∷ name) = codes "<function " ++ ((c ∷ name) ++ codes ">")

-- The separator in front of every item but the first.
abbrev pub comma : Bool → CString
comma first = if first then [] else codes ", "

-- A text in front of what a run gives.
abbrev pub behind : CString → Run CString → Run CString
behind text run = run >>= λ rest. done (text ++ rest)

-- A NULL item is a fault.
unfoldable mutual
  pub str_build : {F : Type 0} → Floats F → Value F → Run CString
  str_build fl null = fault
  str_build fl none_value = done (codes "None")
  str_build fl (int_value i) = done (long_text i)
  str_build fl (float_value f) = done (take 63 (fl.text f))
  str_build fl (str_value s) = done s
  str_build fl (bool_value b) = done (if b then codes "True" else codes "False")
  str_build fl (error_value e) = done e
  str_build fl (list_value xs) = behind (codes "[") (build_items fl true xs (codes "]"))
  str_build fl (set_value xs) = behind (codes "{") (build_items fl true xs (codes "}"))
  str_build fl (dict_value fs) = behind (codes "{") (build_fields fl true fs)
  str_build fl (class_value name) = done (take 127 (codes "<class '" ++ (name ++ codes "'>")))
  str_build fl (instance_value name) = done (take 127 (instance_text name))
  str_build fl (function_value name) = done (take 127 (function_text name))
  str_build fl (server_value p) =
      done (take 63 (codes "<Server Port:" ++ (long_text p ++ codes ">")))
  str_build fl (other_value k) = done (kind_text k)

  -- the items and the bracket behind them
  pub build_items : {F : Type 0} → Floats F → Bool → Items F → CString → Run CString
  build_items fl first nil close = done close
  build_items fl first (cons x xs) close =
      str_build fl x >>= λ text. behind (comma first ++ text) (build_items fl false xs close)

  pub build_fields : {F : Type 0} → Floats F → Bool → Fields F → Run CString
  build_fields fl first end = done (codes "}")
  build_fields fl first (field k v fs) = str_build fl v >>= λ text.
      behind (comma first ++ (k ++ (codes ": " ++ text))) (build_fields fl false fs)

module _ {F : Type 0} (floats : Floats F) where
  unfoldable pub to_str : Value F → Run CString
  unfolding str_build
  to_str null = done (codes "None")
  to_str v = str_build floats v

-- The name of the type of a value, as `type` prints it.
abbrev pub kind_name : Kind → CString
kind_name file = codes "file"
kind_name thread = codes "thread"
kind_name time = codes "datetime"
kind_name generator = codes "generator"
kind_name library = codes "library"
kind_name iterator = codes "iterator"

unfoldable pub type_name : {F : Type 0} → Value F → CString
type_name null = codes "NoneType"
type_name none_value = codes "NoneType"
type_name (int_value i) = codes "int"
type_name (float_value f) = codes "float"
type_name (str_value s) = codes "str"
type_name (bool_value b) = codes "bool"
type_name (error_value e) = codes "error"
type_name (list_value xs) = codes "list"
type_name (set_value xs) = codes "set"
type_name (dict_value fs) = codes "dict"
type_name (class_value n) = codes "class"
type_name (instance_value n) = codes "instance"
type_name (function_value n) = codes "function"
type_name (server_value p) = codes "server"
type_name (other_value k) = kind_name k

unfoldable pub type_text : {F : Type 0} → Value F → CString
type_text v = codes "<class '" ++ (type_name v ++ codes "'>")
