-- ===== src/Runtime/Json/RoundTrip.antt =====
-- json_parse reads what json_dump writes.
use abscom.Prelude.{
  ℕ, zero, suc, ◌+◌, ◌*◌, ◌≤◌, ◌≡◌, sym, ap, ◌∙◌, false, some, [], ◌∷◌, ◌++◌, arith, CString,
  length, length-append,
}
use mathlib.Core.List.{append-nil}
use abscom.Prelude.Int.{ℤ}
use abscom.Prelude.Run.{done, ◌>>=◌}
use abscom.Runtime.Values.Defs.{
  Floats, Value, Items, null, none_value, int_value, str_value, bool_value, list_value, nil, cons,
  float_value, error_value, set_value, dict_value, class_value, instance_value, function_value,
  server_value, other_value,
}
use abscom.Runtime.Values.Arith.{append_item, extend}
use abscom.Runtime.Json.Defs.{json_skip_ws}
use abscom.Runtime.Json.Parse.{parse_value, parse_items, Parsed, json_parse, whole_text}
use abscom.Runtime.Json.Dump.{json_dump_rec, dump_items}
use abscom.Runtime.Json.Numbers.{IsBoundary}
use abscom.Runtime.Json.Plain.{IsPlain, ArePlain, weight, weight_items}
use abscom.Runtime.Json.Steps.{parse_items-item, extend-nil}
use abscom.Runtime.Json.Total.{json_parse-total}
use abscom.Runtime.Json.Reading.{
  ReadsLongs, tail_text, dump-IsOpening, tail_text-IsBoundary, weight_some, parse_value-none,
  parse_value-text, after_item-last, parse_value-bool, parse_value-long, parse_value-empty,
  parse_value-items, after_item-next,
}

mutual
  unfolding IsPlain weight extend

  parse-dump :
      {F : Type 0} (fl : Floats F) (atol : CString → ℤ)
      → ReadsLongs atol
      → (v : Value F) (fuel : ℕ) (rest : CString) → IsPlain v
      → weight v ≤ fuel
      → IsBoundary rest
      → parse_value fl atol fuel (json_dump_rec fl v ++ rest) ≡ done (v, rest)
  parse-dump fl atol reads v zero rest p w b = absurd (omega (arith, w, weight_some v))
  parse-dump fl atol reads none_value (suc fuel) rest p w b = parse_value-none fl atol fuel rest
  parse-dump fl atol reads (bool_value x) (suc fuel) rest p w b =
      parse_value-bool fl atol fuel x rest
  parse-dump fl atol reads (int_value i) (suc fuel) rest p w b =
      parse_value-long fl atol fuel i rest reads p b
  parse-dump fl atol reads (str_value s) (suc fuel) rest p w b =
      parse_value-text fl atol fuel s rest p
  parse-dump fl atol reads (list_value nil) (suc zero) rest p w b = absurd (omega (arith, w))
  parse-dump fl atol reads (list_value nil) (suc (suc fuel)) rest p w b =
      parse_value-empty fl atol fuel rest
  parse-dump fl atol reads (list_value (cons x xs)) (suc zero) rest p w b =
      absurd (omega (arith, w))
  parse-dump fl atol reads (list_value (cons x xs)) (suc (suc fuel)) rest (p, ps) w b =
      parse_value-items fl atol fuel x xs rest p
      ∙ parse-items fl atol reads x xs nil fuel rest p ps (omega (arith, w))
      ∙ ap (λ l. done (list_value l, rest)) (extend-nil (cons x xs))
  parse-dump fl atol reads null (suc fuel) rest p w b = absurd p
  parse-dump fl atol reads (float_value f) (suc fuel) rest p w b = absurd p
  parse-dump fl atol reads (error_value f) (suc fuel) rest p w b = absurd p
  parse-dump fl atol reads (set_value f) (suc fuel) rest p w b = absurd p
  parse-dump fl atol reads (dict_value f) (suc fuel) rest p w b = absurd p
  parse-dump fl atol reads (class_value f) (suc fuel) rest p w b = absurd p
  parse-dump fl atol reads (instance_value f) (suc fuel) rest p w b = absurd p
  parse-dump fl atol reads (function_value f) (suc fuel) rest p w b = absurd p
  parse-dump fl atol reads (server_value f) (suc fuel) rest p w b = absurd p
  parse-dump fl atol reads (other_value f) (suc fuel) rest p w b = absurd p

  parse-items :
      {F : Type 0} (fl : Floats F) (atol : CString → ℤ)
      → ReadsLongs atol
      → (x : Value F) (xs l : Items F) (fuel : ℕ) (rest : CString) → IsPlain x
      → ArePlain xs
      → weight x + weight_items xs + 2 ≤ fuel
      → parse_items fl atol fuel l (json_dump_rec fl x ++ tail_text fl xs rest)
        ≡ done (list_value (extend l (cons x xs)), rest)
  parse-items fl atol reads x xs l zero rest p ps w = absurd (omega (arith, w))
  parse-items fl atol reads x xs l (suc zero) rest p ps w = absurd (omega (arith, w))
  parse-items fl atol reads x nil l (suc (suc fuel)) rest p ps w =
      parse_items-item fl atol (suc fuel) l x _ _ (
        parse-dump fl atol reads x (suc fuel) (tail_text fl nil rest) p (omega (arith, w))
          (tail_text-IsBoundary fl nil rest))
      ∙ after_item-last fl atol fuel l x rest p
  parse-items fl atol reads x (cons y ys) l (suc (suc fuel)) rest p (q, qs) w =
      parse_items-item fl atol (suc fuel) l x _ _ (
        parse-dump fl atol reads x (suc fuel) (tail_text fl (cons y ys) rest) p (omega (arith, w))
          (tail_text-IsBoundary fl (cons y ys) rest))
      ∙ after_item-next fl atol fuel l x y ys rest p q
      ∙ parse-items fl atol reads y ys (append_item l x) fuel rest q qs (omega (arith, w))

dump_some : {F : Type 0} (fl : Floats F) (v : Value F) → IsPlain v → 1 ≤ length (json_dump_rec fl v)
dump_some fl v p = let (c, s, e, _, _) = dump-IsOpening fl v p in omega (arith, ap length e)

-- A value takes less fuel to read than four times the length of its text.
mutual
  unfolding IsPlain weight json_dump_rec dump_items

  weight-dump :
      {F : Type 0} (fl : Floats F) (v : Value F)
      → IsPlain v
      → weight v ≤ 4 * length (json_dump_rec fl v)
  weight-dump fl (list_value nil) p = omega arith
  weight-dump fl (list_value (cons x xs)) (p, ps) =
      let item = weight-dump fl x p in
      let items = weight-dump_items fl xs ps in
      let length_inner = length-append (json_dump_rec fl x) (dump_items fl false xs) in
      let length_outer = length-append (json_dump_rec fl x ++ dump_items fl false xs) (93 ∷ []) in
      omega (arith, item, items, length_inner, length_outer)
  weight-dump fl v p = let some_text = dump_some fl v p in omega (arith, some_text)

  weight-dump_items :
      {F : Type 0} (fl : Floats F) (xs : Items F)
      → ArePlain xs
      → weight_items xs ≤ 4 * length (dump_items fl false xs) + 1
  weight-dump_items fl nil p = omega arith
  weight-dump_items fl (cons x xs) (p, ps) =
      let item = weight-dump fl x p in
      let items = weight-dump_items fl xs ps in
      let length_inner = length-append (json_dump_rec fl x) (dump_items fl false xs) in
      omega (arith, item, items, length_inner)

-- Such a value is read back from its text.
parse-printed :
    {F : Type 0} (fl : Floats F) (atol : CString → ℤ)
    → ReadsLongs atol
    → (v : Value F) → IsPlain v
    → json_parse fl atol (some (json_dump_rec fl v)) ≡ done v
unfolding json_parse json_skip_ws
parse-printed {F = F} fl atol reads v p =
    let text = json_dump_rec fl v in
    let enough = weight-dump fl v p in
    let whole = append-nil text in
    ap
      (λ s. parse_value fl atol (4 * length text + 4) s >>= λ r.
        done (whole_text r.0 (json_skip_ws r.1)))
      (sym whole)
    ∙ ap (λ (r : Parsed F). r >>= λ r. done (whole_text r.0 (json_skip_ws r.1)))
        (parse-dump fl atol reads v (4 * length text + 4) [] p (omega (arith, enough)) tt)

-- json_parse returns a value for every text. For the printed text of a value made of lists, truth values,
-- None, 64-bit integers and texts in which every character below 32 has an escape of its own letter, that is
-- the printed value, provided that atol reads the text of every `long`.
pub json_parse-json_dump :
    {F : Type 0} (fl : Floats F) (atol : CString → ℤ) (s : CString) (v : Value F)
    → ReadsLongs atol
    → IsPlain v
    → ((w : Value F) × (json_parse fl atol (some s) ≡ done w))
      × (json_parse fl atol (some (json_dump_rec fl v)) ≡ done v)
json_parse-json_dump fl atol s v reads p =
    (json_parse-total fl atol s, parse-printed fl atol reads v p)
