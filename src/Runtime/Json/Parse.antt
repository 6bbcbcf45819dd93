-- ===== src/Runtime/Json/Parse.antt =====
-- json_parse of src/abs.c. Its functions call each other on what is left of the text; each call costs a
-- unit of fuel, and a call without fuel is a fault.
use abscom.Prelude.{
  ℕ, zero, suc, ◌+◌, ◌*◌, true, false, Option, none, some, [], ◌∷◌, if◌then◌else◌, CString, codes,
  drop, length,
}
use abscom.Prelude.Int.{ℤ}
use abscom.Prelude.Run.{Run, done, fault, ◌>>=◌}
use abscom.Runtime.Dict.Defs.{Dict, new_dict, put}
use abscom.Runtime.Values.Defs.{Floats, Value, Items, error_value, list_value, dict_value, nil}
use abscom.Runtime.Values.Arith.{append_item}
use abscom.Runtime.Json.Defs.{
  json_skip_ws, starts, read_string, string_result, parse_json_number, parse_json_keyword,
  bucket_fields, enough_memory, is_err, at_end, at_string, at_list, at_dict, at_number, at_keyword,
  start_of,
}

abbrev pub Parsed : Type 0 → Type 0
Parsed F = Run (Value F × CString)

abbrev pub failed : {F : Type 0} → CString → CString → Parsed F
failed message s = done (error_value message, s)

unfoldable mutual
  pub parse_value : {F : Type 0} → Floats F → (CString → ℤ) → ℕ → CString → Parsed F
  parse_value fl atol zero s = fault
  parse_value fl atol (suc fuel) s =
      let t = json_skip_ws s in
      elim (start_of t) [
        | at_end ↦ failed (codes "Unexpected end of JSON") t
        | at_string ↦ done (string_result (read_string t) t)
        | at_list ↦ parse_list fl atol fuel (json_skip_ws (drop 1 t))
        | at_dict ↦ parse_dict fl atol fuel (json_skip_ws (drop 1 t))
        | at_number ↦ done (parse_json_number fl atol t)
        | at_keyword ↦ done (parse_json_keyword t)
      ]

  -- parse_json_list behind the bracket and the spaces
  pub parse_list : {F : Type 0} → Floats F → (CString → ℤ) → ℕ → CString → Parsed F
  parse_list fl atol zero s = fault
  parse_list fl atol (suc fuel) s = elim (starts 93 s) [
    | true ↦ done (list_value nil, drop 1 s)
    | false ↦ parse_items fl atol fuel nil s
  ]

  -- the loop of parse_json_list
  pub parse_items : {F : Type 0} → Floats F → (CString → ℤ) → ℕ → Items F → CString → Parsed F
  parse_items fl atol zero l s = fault
  parse_items fl atol (suc fuel) l s =
      parse_value fl atol fuel s >>= λ r. after_item fl atol fuel l r.0 r.1

  -- the rest of a round of that loop, behind the item
  pub after_item :
      {F : Type 0} → Floats F → (CString → ℤ) → ℕ → Items F → Value F → CString → Parsed F
  after_item fl atol zero l item s = fault
  after_item fl atol (suc fuel) l item s = elim (is_err item) [
    | true ↦ done (item, s)
    | false ↦ elim (starts 93 (json_skip_ws s)) [
      | true ↦ done (list_value (append_item l item), drop 1 (json_skip_ws s))
      | false ↦ elim (starts 44 (json_skip_ws s)) [
        | true ↦
            parse_items fl atol fuel (append_item l item) (json_skip_ws (drop 1 (json_skip_ws s)))
        | false ↦ failed (codes "Expected ',' or ']' in list") (json_skip_ws s)
      ]
    ]
  ]

  -- parse_json_dict behind the brace and the spaces
  pub parse_dict : {F : Type 0} → Floats F → (CString → ℤ) → ℕ → CString → Parsed F
  parse_dict fl atol zero s = fault
  parse_dict {F = F} fl atol (suc fuel) s = elim (starts 125 s) [
    | true ↦ done (dict_value (bucket_fields (new_dict {V = Value F}).buckets), drop 1 s)
    | false ↦ parse_fields fl atol fuel new_dict s
  ]

  -- the loop of parse_json_dict
  pub parse_fields :
      {F : Type 0} → Floats F → (CString → ℤ) → ℕ → Dict (Value F) → CString → Parsed F
  parse_fields fl atol zero d s = fault
  parse_fields fl atol (suc fuel) d s = elim (read_string (json_skip_ws s)) [
    | none ↦ failed (codes "Expected string") (json_skip_ws s)
    | some (key, t) ↦ elim (starts 58 (json_skip_ws t)) [
      | false ↦ failed (codes "Expected ':' in object") (json_skip_ws t)
      | true ↦ parse_value fl atol fuel (drop 1 (json_skip_ws t)) >>= λ r.
          after_field fl atol fuel d key r.0 r.1
    ]
  ]

  -- the rest of a round of that loop, behind the value
  pub after_field :
      {F : Type 0}
      → Floats F
      → (CString → ℤ)
      → ℕ
      → Dict (Value F)
      → CString
      → Value F
      → CString
      → Parsed F
  after_field fl atol zero d key val s = fault
  after_field fl atol (suc fuel) d key val s = elim (is_err val) [
    | true ↦ done (val, s)
    | false ↦ put enough_memory d key val >>= λ d'. elim (starts 125 (json_skip_ws s)) [
      | true ↦ done (dict_value (bucket_fields d'.buckets), drop 1 (json_skip_ws s))
      | false ↦ elim (starts 44 (json_skip_ws s)) [
        | true ↦ parse_fields fl atol fuel d' (json_skip_ws (drop 1 (json_skip_ws s)))
        | false ↦ failed (codes "Expected ',' or '}' in object") (json_skip_ws s)
      ]
    ]
  ]

-- Spaces may stand behind the value, and nothing else.
abbrev pub whole_text : {F : Type 0} → Value F → CString → Value F
whole_text v [] = v
whole_text v (c ∷ s) =
    if is_err v then v else error_value (codes "Trailing characters after JSON value")

-- json_parse, none for a NULL pointer
unfoldable pub json_parse : {F : Type 0} → Floats F → (CString → ℤ) → Option CString → Run (Value F)
json_parse fl atol none = done (error_value (codes "No JSON string"))
json_parse fl atol (some s) =
    parse_value fl atol (4 * length s + 4) s >>= λ r. done (whole_text r.0 (json_skip_ws r.1))
