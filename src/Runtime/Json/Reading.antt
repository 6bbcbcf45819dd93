-- ===== src/Runtime/Json/Reading.antt =====
-- How json_parse reads each kind of text that json_dump writes.
use abscom.Prelude.{
  All, ℕ, suc, ◌≤◌, ◌≡◌, refl, ap, ◌∙◌, Bool, true, false, [], ◌∷◌, ◌++◌, arith, CString, str_eq,
  take, take_all,
}
use mathlib.Core.List.{append_assoc}
use abscom.Prelude.Int.{ℤ}
use abscom.Prelude.Run.{done}
use abscom.Runtime.Values.Defs.{
  Floats, Value, Items, null, none_value, int_value, str_value, bool_value, list_value, nil, cons,
  float_value, error_value, set_value, dict_value, class_value, instance_value, function_value,
  server_value, other_value,
}
use abscom.Runtime.Values.Text.{long_text}
use abscom.Runtime.Values.Arith.{in_long, append_item}
use abscom.Runtime.Json.Defs.{json_skip_ws, start_of, is_err, parse_json_keyword, is_number_char}
use abscom.Runtime.Json.Parse.{parse_value, parse_list, parse_items, after_item}
use abscom.Runtime.Json.Dump.{quoted, json_dump_rec, dump_items}
use abscom.Runtime.Json.Numbers.{IsBoundary, long_text-IsInteger}
use abscom.Runtime.Json.Strings.{is_kept}
use abscom.Runtime.Json.Steps.{
  parse_value-bracket, parse_list-items, after_item-close, after_item-comma,
}
use abscom.Runtime.Json.Plain.{
  IsPlain, weight, IsOpening, json_skip_ws-opening, starts-opening, parse_value-integer,
  parse_value-quoted, IsInteger-IsOpening,
}

-- What the code relies on: atol reads what printf wrote.
abbrev pub ReadsLongs : (CString → ℤ) → Type 0
ReadsLongs atol = (i : ℤ) → in_long i ≡ true → atol (long_text i) ≡ i

take-integer : (i : ℤ) → in_long i ≡ true → take 63 (long_text i) ≡ long_text i
take-integer i h =
    let (c, s, e, _, _, short) = long_text-IsInteger i h in
    take_all 63 (long_text i) (rw (e) (omega (arith, short)))

pub dump-IsOpening :
    {F : Type 0} (fl : Floats F) (v : Value F) → IsPlain v → IsOpening (json_dump_rec fl v)
unfolding json_dump_rec IsPlain quoted
dump-IsOpening fl none_value p = (_, _, refl, refl, refl)
dump-IsOpening fl (bool_value true) p = (_, _, refl, refl, refl)
dump-IsOpening fl (bool_value false) p = (_, _, refl, refl, refl)
dump-IsOpening fl (int_value i) p =
    rw (take-integer i p) (IsInteger-IsOpening (long_text i) (long_text-IsInteger i p))
dump-IsOpening fl (str_value s) p = (_, _, refl, refl, refl)
dump-IsOpening fl (list_value xs) p = (_, _, refl, refl, refl)
dump-IsOpening fl null p = absurd p
dump-IsOpening fl (float_value f) p = absurd p
dump-IsOpening fl (error_value f) p = absurd p
dump-IsOpening fl (set_value f) p = absurd p
dump-IsOpening fl (dict_value f) p = absurd p
dump-IsOpening fl (class_value f) p = absurd p
dump-IsOpening fl (instance_value f) p = absurd p
dump-IsOpening fl (function_value f) p = absurd p
dump-IsOpening fl (server_value f) p = absurd p
dump-IsOpening fl (other_value f) p = absurd p

pub plain_no_error : {F : Type 0} (v : Value F) → IsPlain v → is_err v ≡ false
unfolding IsPlain
plain_no_error (error_value e) p = absurd p
plain_no_error v p = refl

-- What follows an item in the text of a list.
abbrev pub tail_text : {F : Type 0} → Floats F → Items F → CString → CString
tail_text fl xs rest = dump_items fl false xs ++ 93 ∷ rest

pub tail_text-IsBoundary :
    {F : Type 0} (fl : Floats F) (xs : Items F) (rest : CString) → IsBoundary (tail_text fl xs rest)
unfolding dump_items is_number_char
tail_text-IsBoundary fl nil rest = refl
tail_text-IsBoundary fl (cons x xs) rest = refl

-- The text of a list with an item, with what follows it.
list_text :
    {F : Type 0} (fl : Floats F) (x : Value F) (xs : Items F) (rest : CString)
    → (json_dump_rec fl x ++ dump_items fl false xs ++ 93 ∷ []) ++ rest
      ≡ json_dump_rec fl x ++ tail_text fl xs rest
list_text fl x xs rest =
    append_assoc (json_dump_rec fl x ++ dump_items fl false xs) (93 ∷ []) rest
    ∙ append_assoc (json_dump_rec fl x) (dump_items fl false xs) (93 ∷ rest)

pub weight_some : {F : Type 0} (v : Value F) → 1 ≤ weight v
unfolding weight
weight_some (list_value xs) = omega arith
weight_some v = omega arith

module _ {F : Type 0} (fl : Floats F) (atol : CString → ℤ) where
  pub parse_value-none :
      (fuel : ℕ) (rest : CString)
      → parse_value fl atol (suc fuel) (json_dump_rec fl none_value ++ rest)
        ≡ done (none_value, rest)
  unfolding parse_value json_skip_ws start_of parse_json_keyword str_eq json_dump_rec
  parse_value-none fuel rest = refl

  pub parse_value-bool :
      (fuel : ℕ) (b : Bool) (rest : CString)
      → parse_value fl atol (suc fuel) (json_dump_rec fl (bool_value b) ++ rest)
        ≡ done (bool_value b, rest)
  unfolding parse_value json_skip_ws start_of parse_json_keyword str_eq json_dump_rec
  parse_value-bool fuel true rest = refl
  parse_value-bool fuel false rest = refl

  pub parse_value-long :
      (fuel : ℕ) (i : ℤ) (rest : CString)
      → ReadsLongs atol
      → in_long i ≡ true
      → IsBoundary rest
      → parse_value fl atol (suc fuel) (json_dump_rec fl (int_value i) ++ rest)
        ≡ done (int_value i, rest)
  unfolding json_dump_rec
  parse_value-long fuel i rest reads h b =
      ap (λ text. parse_value fl atol (suc fuel) (text ++ rest)) (take-integer i h)
      ∙ parse_value-integer fl atol fuel (long_text i) rest (long_text-IsInteger i h) b
      ∙ ap (λ j. done (int_value j, rest)) (reads i h)

  pub parse_value-empty :
      (fuel : ℕ) (rest : CString)
      → parse_value fl atol (suc (suc fuel)) (json_dump_rec fl (list_value nil) ++ rest)
        ≡ done (list_value nil, rest)
  unfolding json_dump_rec dump_items parse_value parse_list json_skip_ws start_of
  parse_value-empty fuel rest = refl

  -- A list with items is read as its items are.
  pub parse_value-items :
      (fuel : ℕ) (x : Value F) (xs : Items F) (rest : CString)
      → IsPlain x
      → parse_value fl atol (suc (suc fuel)) (json_dump_rec fl (list_value (cons x xs)) ++ rest)
        ≡ parse_items fl atol fuel nil (json_dump_rec fl x ++ tail_text fl xs rest)
  unfolding json_dump_rec dump_items
  parse_value-items fuel x xs rest p =
      let text = json_dump_rec fl x ++ tail_text fl xs rest in
      let opening = dump-IsOpening fl x p in
      ap (λ s. parse_value fl atol (suc (suc fuel)) (91 ∷ s)) (list_text fl x xs rest)
      ∙ parse_value-bracket fl atol (suc fuel) text
      ∙ ap (parse_list fl atol (suc fuel)) (json_skip_ws-opening _ (tail_text fl xs rest) opening)
      ∙ parse_list-items fl atol fuel text (starts-opening _ (tail_text fl xs rest) opening)

  -- Behind an item that is not the last, the loop goes on.
  pub after_item-next :
      (fuel : ℕ) (l : Items F) (x y : Value F) (ys : Items F) (rest : CString)
      → IsPlain x
      → IsPlain y
      → after_item fl atol (suc fuel) l x (tail_text fl (cons y ys) rest)
        ≡ parse_items fl atol fuel (append_item l x) (json_dump_rec fl y ++ tail_text fl ys rest)
  unfolding dump_items
  after_item-next fuel l x y ys rest p q =
      let opening = dump-IsOpening fl y q in
      after_item-comma fl atol fuel l x _ (plain_no_error x p)
      ∙ ap (λ s. parse_items fl atol fuel (append_item l x) (json_skip_ws s))
          (append_assoc (json_dump_rec fl y) (dump_items fl false ys) (93 ∷ rest))
      ∙ ap (parse_items fl atol fuel (append_item l x))
          (json_skip_ws-opening (json_dump_rec fl y) (tail_text fl ys rest) opening)

  pub parse_value-text :
      (fuel : ℕ) (s rest : CString)
      → All (λ c. is_kept c ≡ true) s
      → parse_value fl atol (suc fuel) (json_dump_rec fl (str_value s) ++ rest)
        ≡ done (str_value s, rest)
  unfolding json_dump_rec
  parse_value-text fuel s rest h = parse_value-quoted fl atol fuel s rest h

  -- Behind the last item, the list ends.
  pub after_item-last :
      (fuel : ℕ) (l : Items F) (x : Value F) (rest : CString)
      → IsPlain x
      → after_item fl atol (suc fuel) l x (tail_text fl nil rest)
        ≡ done (list_value (append_item l x), rest)
  unfolding dump_items
  after_item-last fuel l x rest p = after_item-close fl atol fuel l x rest (plain_no_error x p)
