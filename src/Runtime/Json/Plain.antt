-- ===== src/Runtime/Json/Plain.antt =====
-- The values that json_dump writes in a form that json_parse reads back, but for dictionaries and doubles.
use abscom.Prelude.{
  ℕ, suc, ◌+◌, ◌≡◌, refl, ap, ◌∙◌, true, false, ◌||◌, ◌∷◌, ◌++◌, arith, ◌==◌, CString, All,
}
use abscom.Prelude.Int.{ℤ}
use abscom.Prelude.Run.{done}
use abscom.Runtime.Values.Defs.{
  Floats, Value, Items, none_value, int_value, str_value, bool_value, list_value, nil, cons,
}
use abscom.Runtime.Values.Arith.{in_long}
use abscom.Runtime.Json.Defs.{
  is_space, is_digit, json_skip_ws, starts, start_of, at_number, string_result, parse_json_number,
}
use abscom.Runtime.Json.Parse.{parse_value}
use abscom.Runtime.Json.Dump.{quoted}
use abscom.Runtime.Json.Strings.{is_kept, read_string-quoted, reread-kept}
use abscom.Runtime.Json.Numbers.{IsInteger, IsBoundary, parse_json_number-IsInteger}

-- Integers of 64 bits, texts without the characters that are written as `\u`, truth values, None, and
-- lists of such values.
unfoldable mutual
  pub IsPlain : {F : Type 0} → Value F → Type 0
  IsPlain none_value = Unit
  IsPlain (int_value i) = in_long i ≡ true
  IsPlain (str_value s) = All (λ c. is_kept c ≡ true) s
  IsPlain (bool_value b) = Unit
  IsPlain (list_value xs) = ArePlain xs
  IsPlain v = ⊥

  pub ArePlain : {F : Type 0} → Items F → Type 0
  ArePlain nil = Unit
  ArePlain (cons x xs) = IsPlain x × ArePlain xs

-- The fuel that reading the value takes.
unfoldable mutual
  pub weight : {F : Type 0} → Value F → ℕ
  weight (list_value xs) = weight_items xs + 2
  weight v = 1

  pub weight_items : {F : Type 0} → Items F → ℕ
  weight_items nil = 1
  weight_items (cons x xs) = weight x + weight_items xs + 2

-- A text that starts with a character of a value.
abbrev pub IsOpening : CString → Type 0
IsOpening text =
    (c : ℕ) × (s : CString) × (text ≡ c ∷ s) × (is_space c ≡ false) × ((c == 93) ≡ false)

integer_opening :
    (c : ℕ) → (c == 45 || is_digit c) ≡ true → (is_space c ≡ false) × ((c == 93) ≡ false)
integer_opening c h = (ground (arith, h), ground (arith, h))

pub IsInteger-IsOpening : (text : CString) → IsInteger text → IsOpening text
IsInteger-IsOpening text (c, s, e, first, _, _) =
    let (space, close) = integer_opening c first in (c, s, e, space, close)

-- An opening is not skipped, nor does it close a list.
pub json_skip_ws-opening :
    (text rest : CString) → IsOpening text → json_skip_ws (text ++ rest) ≡ text ++ rest
unfolding json_skip_ws
json_skip_ws-opening text rest (c, s, e, space, _) = rw (e, space) refl

pub starts-opening : (text rest : CString) → IsOpening text → starts 93 (text ++ rest) ≡ false
starts-opening text rest (c, s, e, _, close) = rw (e) close

start_of-integer :
    (c : ℕ) (s : CString) → (c == 45 || is_digit c) ≡ true → start_of (c ∷ s) ≡ at_number
unfolding start_of
start_of-integer c s h = ground (arith, h)

module _ {F : Type 0} (floats : Floats F) (atol : CString → ℤ) where
  pub parse_value-integer :
      (fuel : ℕ) (text rest : CString)
      → IsInteger text
      → IsBoundary rest
      → parse_value floats atol (suc fuel) (text ++ rest) ≡ done (int_value (atol text), rest)
  unfolding parse_value
  parse_value-integer fuel text rest h b =
      let (c, s, e, first, _, _) = h in
      let start : start_of (text ++ rest) ≡ at_number =
        rw (e) (start_of-integer c (s ++ rest) first) in
      let skip = json_skip_ws-opening text rest (IsInteger-IsOpening text h) in
      rw (parse_value, skip, start)
        (ap (λ t. done (parse_json_number floats atol t)) skip
          ∙ ap done (parse_json_number-IsInteger floats atol text rest h b))

  pub parse_value-quoted :
      (fuel : ℕ) (s rest : CString)
      → All (λ c. is_kept c ≡ true) s
      → parse_value floats atol (suc fuel) (quoted s ++ rest) ≡ done (str_value s, rest)
  unfolding parse_value json_skip_ws start_of quoted string_result
  parse_value-quoted fuel s rest h =
      ap (λ r. done (string_result r (quoted s ++ rest))) (read_string-quoted s rest)
      ∙ ap (λ r. done (str_value r, rest)) (reread-kept s h)
