-- ===== src/Runtime/Json/Total.antt =====
-- json_parse returns a value for every text.
use abscom.Prelude.{
  ℕ, zero, suc, ◌+◌, ◌*◌, ◌≤◌, ◌≡◌, refl, ap, some, arith, CString, drop, length, inl, inr,
}
use abscom.Prelude.Int.{ℤ}
use abscom.Prelude.Run.{done, ◌>>=◌}
use abscom.Runtime.Dict.Defs.{Dict, new_dict}
use abscom.Runtime.Dict.Laws.{IsDict}
use abscom.Runtime.Dict.Storing.{put-Stored, new_dict-IsDict}
use abscom.Runtime.Values.Defs.{Floats, Value, Items, nil}
use abscom.Runtime.Values.Arith.{append_item}
use abscom.Runtime.Json.Defs.{start_of, json_skip_ws, starts, is_err, enough_memory}
use abscom.Runtime.Json.Parse.{
  Parsed, parse_value, parse_list, parse_items, after_item, parse_dict, parse_fields, after_field,
  json_parse, whole_text,
}
use abscom.Runtime.Json.Lengths.{
  length-json_skip_ws, length-parse_json_number, length-parse_json_keyword, length-read_string,
}
use abscom.Runtime.Json.Ends.{
  Ends, Ends-done, Ends-le, Ends-bind, Ends-if, Ends-start, string_result-Ends, behind_char,
  start_shorter, drop_one,
}

mutual
  unfolding parse_value

  parse_value-Ends :
      {F : Type 0} (fl : Floats F) (atol : CString → ℤ) (fuel : ℕ) (s : CString)
      → 4 * length s + 1 ≤ fuel
      → Ends (parse_value fl atol fuel s) (length s)
  parse_value-Ends fl atol zero s h = absurd (omega (arith, h))
  parse_value-Ends {F = F} fl atol (suc fuel) s h =
      let t = json_skip_ws s in
      let skipped = length-json_skip_ws s in
      let behind = length-json_skip_ws (drop 1 t) in
      Ends-start (start_of t) _ _ _ _ _ _ (length s) (Ends-done _ (length s) skipped)
        (Ends-le _ (length t) (length s) (string_result-Ends t) skipped)
        (λ e.
          let shorter = start_shorter t (λ no. absurd cc) in
          Ends-le _ _ (length s)
            (parse_list-Ends fl atol fuel (json_skip_ws (drop 1 t))
              (omega (arith, h, skipped, behind, shorter)))
            (omega (arith, skipped, behind, shorter)))
        (λ e.
          let shorter = start_shorter t (λ no. absurd cc) in
          Ends-le _ _ (length s)
            (parse_dict-Ends fl atol fuel (json_skip_ws (drop 1 t))
              (omega (arith, h, skipped, behind, shorter)))
            (omega (arith, skipped, behind, shorter)))
        (let number = length-parse_json_number fl atol t in
          Ends-done _ (length s) (omega (arith, number, skipped)))
        (let keyword = length-parse_json_keyword F t in
          Ends-done _ (length s) (omega (arith, keyword, skipped)))

  parse_list-Ends :
      {F : Type 0} (fl : Floats F) (atol : CString → ℤ) (fuel : ℕ) (s : CString)
      → 4 * length s + 3 ≤ fuel
      → Ends (parse_list fl atol fuel s) (length s)
  parse_list-Ends fl atol zero s h = absurd (omega (arith, h))
  parse_list-Ends fl atol (suc fuel) s h =
      Ends-if (starts 93 s) _ _ (length s)
        (λ e. Ends-done _ (length s) (drop_one s (length s) (omega arith)))
        (λ e. parse_items-Ends fl atol fuel nil s (omega (arith, h)))

  parse_items-Ends :
      {F : Type 0} (fl : Floats F) (atol : CString → ℤ) (fuel : ℕ) (l : Items F) (s : CString)
      → 4 * length s + 2 ≤ fuel
      → Ends (parse_items fl atol fuel l s) (length s)
  parse_items-Ends fl atol zero l s h = absurd (omega (arith, h))
  parse_items-Ends fl atol (suc fuel) l s h =
      Ends-bind _ _ (length s) (length s) (parse_value-Ends fl atol fuel s (omega (arith, h)))
        (λ v t le.
          Ends-le _ (length t) (length s)
            (after_item-Ends fl atol fuel l v t (omega (arith, h, le))) le)

  after_item-Ends :
      {F : Type 0} (fl : Floats F) (atol : CString → ℤ) (fuel : ℕ) (l : Items F) (v : Value F)
      (s : CString)
      → 4 * length s + 1 ≤ fuel
      → Ends (after_item fl atol fuel l v s) (length s)
  after_item-Ends fl atol zero l v s h = absurd (omega (arith, h))
  after_item-Ends fl atol (suc fuel) l v s h =
      let skipped = length-json_skip_ws s in
      Ends-if (is_err v) _ _ (length s) (λ e. Ends-done _ (length s) (omega arith))
        (λ e.
          Ends-if (starts 93 (json_skip_ws s)) _ _ (length s)
            (λ e. Ends-done _ (length s) (drop_one (json_skip_ws s) (length s) skipped))
            (λ e.
              Ends-if (starts 44 (json_skip_ws s)) _ _ (length s)
                (λ e.
                  let behind = behind_char 44 s e in
                  Ends-le _ _ (length s)
                    (parse_items-Ends fl atol fuel (append_item l v)
                      (json_skip_ws (drop 1 (json_skip_ws s))) (omega (arith, h, behind)))
                    (omega (arith, behind)))
                (λ e. Ends-done _ (length s) skipped)))

  parse_dict-Ends :
      {F : Type 0} (fl : Floats F) (atol : CString → ℤ) (fuel : ℕ) (s : CString)
      → 4 * length s + 3 ≤ fuel
      → Ends (parse_dict fl atol fuel s) (length s)
  parse_dict-Ends fl atol zero s h = absurd (omega (arith, h))
  parse_dict-Ends {F = F} fl atol (suc fuel) s h =
      Ends-if (starts 125 s) _ _ (length s)
        (λ e. Ends-done _ (length s) (drop_one s (length s) (omega arith)))
        (λ e.
          parse_fields-Ends fl atol fuel new_dict s (new_dict-IsDict (Value F)) (omega (arith, h)))

  parse_fields-Ends :
      {F : Type 0} (fl : Floats F) (atol : CString → ℤ) (fuel : ℕ) (d : Dict (Value F))
      (s : CString)
      → IsDict d
      → 4 * length s + 2 ≤ fuel
      → Ends (parse_fields fl atol fuel d s) (length s)
  parse_fields-Ends fl atol zero d s ok h = absurd (omega (arith, h))
  parse_fields-Ends fl atol (suc fuel) d s ok h =
      let skipped = length-json_skip_ws s in
      elim (length-read_string (json_skip_ws s)) [
        | inl e ↦ rw (parse_fields, e) (Ends-done _ (length s) skipped)
        | inr (r, e, short) ↦
            rw (parse_fields, e)
              (let gap = length-json_skip_ws r.1 in
                Ends-if (starts 58 (json_skip_ws r.1)) _ _ (length s)
                  (λ e'.
                    let text = drop 1 (json_skip_ws r.1) in
                    let behind = drop_one (json_skip_ws r.1) (length r.1) gap in
                    Ends-bind _ _ (length text) (length s)
                      (parse_value-Ends fl atol fuel text
                        (omega (arith, h, skipped, short, behind)))
                      (λ v t le.
                        Ends-le _ (length t) (length s)
                          (after_field-Ends fl atol fuel d r.0 v t ok
                            (omega (arith, h, skipped, short, behind, le)))
                          (omega (arith, skipped, short, behind, le))))
                  (λ e'. Ends-done _ (length s) (omega (arith, skipped, short, gap))))
      ]

  after_field-Ends :
      {F : Type 0} (fl : Floats F) (atol : CString → ℤ) (fuel : ℕ) (d : Dict (Value F))
      (key : CString) (v : Value F) (s : CString)
      → IsDict d
      → 4 * length s + 1 ≤ fuel
      → Ends (after_field fl atol fuel d key v s) (length s)
  after_field-Ends fl atol zero d key v s ok h = absurd (omega (arith, h))
  after_field-Ends fl atol (suc fuel) d key v s ok h =
      let skipped = length-json_skip_ws s in
      let (d', run, ok', _) = put-Stored enough_memory d key v ok refl in
      Ends-if (is_err v) _ _ (length s) (λ e. Ends-done _ (length s) (omega arith))
        (λ e. rw (run) (
          Ends-if (starts 125 (json_skip_ws s)) _ _ (length s)
            (λ e. Ends-done _ (length s) (drop_one (json_skip_ws s) (length s) skipped))
            (λ e.
              Ends-if (starts 44 (json_skip_ws s)) _ _ (length s)
                (λ e.
                  let behind = behind_char 44 s e in
                  Ends-le _ _ (length s)
                    (parse_fields-Ends fl atol fuel d' (json_skip_ws (drop 1 (json_skip_ws s))) ok'
                      (omega (arith, h, behind)))
                    (omega (arith, behind)))
                (λ e. Ends-done _ (length s) skipped))))

-- json_parse returns a value for every text, so its fuel is enough.
pub json_parse-total :
    {F : Type 0} (fl : Floats F) (atol : CString → ℤ) (s : CString)
    → (v : Value F) × (json_parse fl atol (some s) ≡ done v)
unfolding json_parse
json_parse-total fl atol s =
    let (v, t, run, _) = parse_value-Ends fl atol (4 * length s + 4) s (omega arith) in
    (
      whole_text v (json_skip_ws t),
      ap (λ (r : Parsed _). r >>= λ r. done (whole_text r.0 (json_skip_ws r.1))) run,
    )
