-- ===== src/Runtime/Json/Defs.antt =====
-- json_parse and json_dump of src/abs.c. The text that json_cur points to is passed on with each value. An
-- object is read into a dictionary with memory for its nodes, and is its entries in the order of its buckets.
use abscom.Prelude.{
  ℕ, zero, suc, Bool, true, false, ◌&&◌, ◌||◌, Option, none, some, List, [], ◌∷◌, ◌++◌, leb, ◌==◌,
  if◌then◌else◌, CString, codes, take, drop, str_eq,
}
use abscom.Prelude.Int.{ℤ}
use abscom.Runtime.Dict.Defs.{Chain, NodeAlloc}
use abscom.Runtime.Values.Defs.{
  Floats, Value, Fields, none_value, int_value, float_value, str_value, bool_value, error_value,
  end, field,
}

-- isspace and isdigit in the C locale
abbrev pub is_space : ℕ → Bool
is_space c = c == 32 || leb 9 c && leb c 13

abbrev pub is_digit : ℕ → Bool
is_digit c = leb 48 c && leb c 57

unfoldable pub json_skip_ws : CString → CString
json_skip_ws [] = []
json_skip_ws (c ∷ s) = let rest = json_skip_ws s in if is_space c then rest else c ∷ s

-- Is the next character c?
abbrev pub starts : ℕ → CString → Bool
starts c [] = false
starts c (d ∷ s) = d == c

-- What the text has for the character behind a backslash.
unfoldable pub unescape : ℕ → CString
unescape c =
    if c == 110
    then 10 ∷ []
    else if c == 116
    then 9 ∷ []
    else if c == 114
    then 13 ∷ []
    else if c == 98
    then 8 ∷ []
    else if c == 102
    then 12 ∷ []
    else if c == 34
    then 34 ∷ []
    else if c == 92
    then 92 ∷ []
    else if c == 47
    then 47 ∷ []
    else 92 ∷ c ∷ []

-- The loop of parse_json_string, whose flag says that a backslash was read: the text and what is left.
unfoldable pub scan_string : Bool → CString → CString × CString
unfolding unescape
scan_string escaped [] = ([], [])
scan_string true (c ∷ s) = let more = scan_string false s in (unescape c ++ more.0, more.1)
scan_string false (c ∷ s) =
    let more = scan_string (c == 92) s in
    if c == 34 then ([], c ∷ s) else if c == 92 then more else (c ∷ more.0, more.1)

abbrev pub close_string : CString × CString → CString × CString
close_string (text, rest) = (text, if starts 34 rest then drop 1 rest else rest)

-- parse_json_string, none where there is no quote
unfoldable pub read_string : CString → Option (CString × CString)
unfolding scan_string
read_string s = if starts 34 s then some (close_string (scan_string false (drop 1 s))) else none

unfoldable pub is_number_char : ℕ → Bool
is_number_char c = c == 45 || c == 43 || is_digit c || c == 46 || c == 101 || c == 69

-- The characters that go to a buffer with room for n of them, and what is left.
unfoldable pub number_chars : ℕ → CString → CString × CString
unfolding is_number_char
number_chars zero s = ([], s)
number_chars (suc n) [] = ([], [])
number_chars (suc n) (c ∷ s) =
    let more = number_chars n s in if is_number_char c then (c ∷ more.0, more.1) else ([], c ∷ s)

abbrev pub has_char : ℕ → CString → Bool
has_char c [] = false
has_char c (d ∷ s) = d == c || has_char c s

module _ {F : Type 0} (floats : Floats F) (atol : CString → ℤ) where
  unfoldable pub number_value : CString → Value F
  number_value [] = error_value (codes "Invalid number")
  number_value (c ∷ s) =
      if has_char 46 (c ∷ s) || has_char 101 (c ∷ s) || has_char 69 (c ∷ s)
      then float_value (floats.atof (c ∷ s))
      else int_value (atol (c ∷ s))

  unfoldable pub parse_json_number : CString → Value F × CString
  unfolding number_value number_chars
  parse_json_number s = let read = number_chars 63 s in (number_value read.0, read.1)

unfoldable pub parse_json_keyword : {F : Type 0} → CString → Value F × CString
parse_json_keyword s =
    if str_eq (take 4 s) (codes "true")
    then (bool_value true, drop 4 s)
    else if str_eq (take 5 s) (codes "false")
    then (bool_value false, drop 5 s)
    else if str_eq (take 4 s) (codes "null")
    then (none_value, drop 4 s)
    else (error_value (codes "Invalid JSON value"), s)

-- The entries of a bucket in front of others; a key whose copy failed is not there.
abbrev pub chain_fields : {F : Type 0} → Chain (Value F) → Fields F → Fields F
chain_fields [] fs = fs
chain_fields ((some k, v) ∷ chain) fs = field k v (chain_fields chain fs)
chain_fields ((none, v) ∷ chain) fs = chain_fields chain fs

unfoldable pub bucket_fields : {F : Type 0} → List (Chain (Value F)) → Fields F
bucket_fields [] = end
bucket_fields (chain ∷ chains) = chain_fields chain (bucket_fields chains)

abbrev pub enough_memory : NodeAlloc
enough_memory = record { node = true; key_copy = true }

abbrev pub is_err : {F : Type 0} → Value F → Bool
is_err (error_value e) = true
is_err v = false

-- What the first character of a value says that it is.
pub data Start : Type 0 where
  at_end at_string at_list at_dict at_number at_keyword : Start

unfoldable pub start_of : CString → Start
start_of [] = at_end
start_of (c ∷ s) =
    if c == 34
    then at_string
    else if c == 91
    then at_list
    else if c == 123
    then at_dict
    else if c == 45 || is_digit c
    then at_number
    else at_keyword

unfoldable pub string_result :
    {F : Type 0} → Option (CString × CString) → CString → Value F × CString
string_result none s = (error_value (codes "Expected string"), s)
string_result (some (text, rest)) s = (str_value text, rest)
