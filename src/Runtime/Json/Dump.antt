-- ===== src/Runtime/Json/Dump.antt =====
-- json_escape and json_dump of src/abs.c. The builder is the text that was appended to it.
use abscom.Prelude.{
  ℕ, ◌+◌, ◌/◌, ◌%◌, Bool, true, false, [], ◌∷◌, ◌++◌, ltb, ◌==◌, if◌then◌else◌, CString, codes,
  take,
}
use abscom.Runtime.Values.Defs.{
  Floats, Value, Items, Fields, int_value, float_value, str_value, bool_value, list_value,
  set_value, dict_value, nil, cons, end, field,
}
use abscom.Runtime.Values.Text.{long_text, comma}

-- a digit of printf's "%x"
abbrev pub hex_digit : ℕ → ℕ
hex_digit d = if ltb d 10 then 48 + d else 87 + d

-- printf of "\\u%04x" for a character below 256
unfoldable pub unicode_escape : ℕ → CString
unicode_escape c = 92 ∷ 117 ∷ 48 ∷ 48 ∷ hex_digit (c / 16) ∷ hex_digit (c % 16) ∷ []

unfoldable pub escape : ℕ → CString
unfolding unicode_escape
escape c =
    if c == 34
    then 92 ∷ 34 ∷ []
    else if c == 92
    then 92 ∷ 92 ∷ []
    else if c == 10
    then 92 ∷ 110 ∷ []
    else if c == 13
    then 92 ∷ 114 ∷ []
    else if c == 9
    then 92 ∷ 116 ∷ []
    else if c == 8
    then 92 ∷ 98 ∷ []
    else if c == 12
    then 92 ∷ 102 ∷ []
    else if ltb c 32
    then unicode_escape c
    else c ∷ []

unfoldable pub json_escape : CString → CString
unfolding escape
json_escape [] = []
json_escape (c ∷ s) = escape c ++ json_escape s

unfoldable pub quoted : CString → CString
unfolding json_escape
quoted s = 34 ∷ (json_escape s ++ 34 ∷ [])

unfoldable mutual
  pub json_dump_rec : {F : Type 0} → Floats F → Value F → CString
  json_dump_rec fl (int_value i) = take 63 (long_text i)
  json_dump_rec fl (float_value f) = take 63 (fl.long_text f)
  json_dump_rec fl (str_value s) = quoted s
  json_dump_rec fl (bool_value b) = if b then codes "true" else codes "false"
  json_dump_rec fl (list_value xs) = 91 ∷ (dump_items fl true xs ++ 93 ∷ [])
  json_dump_rec fl (set_value xs) = 91 ∷ (dump_items fl true xs ++ 93 ∷ [])
  json_dump_rec fl (dict_value fs) = 123 ∷ (dump_fields fl true fs ++ 125 ∷ [])
  json_dump_rec fl v = codes "null"

  pub dump_items : {F : Type 0} → Floats F → Bool → Items F → CString
  dump_items fl first nil = []
  dump_items fl first (cons x xs) = comma first ++ (json_dump_rec fl x ++ dump_items fl false xs)

  pub dump_fields : {F : Type 0} → Floats F → Bool → Fields F → CString
  dump_fields fl first end = []
  dump_fields fl first (field k v fs) =
      comma first ++ (quoted k ++ (codes ": " ++ (json_dump_rec fl v ++ dump_fields fl false fs)))

unfoldable pub json_dump : {F : Type 0} → Floats F → Value F → Value F
json_dump fl v = str_value (json_dump_rec fl v)
