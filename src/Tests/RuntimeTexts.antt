-- ===== src/Tests/RuntimeTexts.antt =====
-- The texts of the runtime at concrete values.
use abscom.Prelude.{
  ℕ, ◌+◌, ◌*◌, ◌^◌, ◌≡◌, refl, Bool, true, false, some, [], ◌∷◌, ◌++◌, arith, ◌==◌, if◌then◌else◌,
  codes, length,
}
use abscom.Prelude.Int.{pos, negsuc}
use abscom.Prelude.Run.{done, fault}
use abscom.Runtime.Values.Defs.{
  Items, list_value, Floats, Value, none_value, int_value, str_value, bool_value, list_value, nil,
  cons,
}
use abscom.Runtime.Values.Arith.{copies, mul}
use abscom.Runtime.Values.Repeating.{mul-text}
use abscom.Runtime.Json.Defs.{read_string}
use abscom.Runtime.Json.Parse.{json_parse}
use abscom.Runtime.Json.Dump.{json_dump_rec, quoted, unicode_escape}
use abscom.Runtime.Json.Strings.{read_string-quoted}
use abscom.Runtime.Json.Plain.{IsPlain}
use abscom.Runtime.Json.RoundTrip.{json_parse-json_dump}
use abscom.Runtime.Json.Longs.{read_long, read_long-ReadsLongs}
use abscom.Runtime.Strings.Defs.{split, join}
use abscom.Runtime.Strings.Splitting.{IsParts, join-split}

-- Numbers with no part behind the point, in place of doubles.
abbrev whole : Floats ℕ
whole = record {
  of_long = λ i. 0;
  to_long = λ f. pos f;
  lt = λ a b. false;
  eq = λ a b. a == b;
  plus = λ a b. a + b;
  minus = λ a b. a;
  times = λ a b. a * b;
  text = λ f. [];
  long_text = λ f. [];
  atof = λ s. 7;
}

-- [-5, "a\"b", [True, None], []]
abbrev mixed : Value ℕ
mixed = list_value (
    cons (int_value (negsuc 4)) (
      cons (str_value (codes "a\"b")) (
        cons (list_value (cons (bool_value true) (cons none_value nil)))
          (cons (list_value nil) nil))))

mixed-IsPlain : IsPlain mixed
unfolding IsPlain
mixed-IsPlain = (refl, ((refl, (refl, (refl, tt))), ((tt, (tt, tt)), (tt, tt))))

json_parse-json_dump_example :
    ((w : Value ℕ) × (json_parse whole read_long (some (codes "{\"k\": [1")) ≡ done w))
    × (json_parse whole read_long (some (json_dump_rec whole mixed)) ≡ done mixed)
json_parse-json_dump_example =
    json_parse-json_dump whole read_long (codes "{\"k\": [1") mixed read_long-ReadsLongs
      mixed-IsPlain

-- A character below 32 comes back as the text of its escape.
read_string-quoted_example :
    read_string (quoted (97 ∷ 1 ∷ 34 ∷ []) ++ codes ", 2") ≡ some (codes "a\\u0001\"", codes ", 2")
unfolding unicode_escape
read_string-quoted_example = read_string-quoted (97 ∷ 1 ∷ 34 ∷ []) (codes ", 2")

abbrev has_memory : ℕ → Bool
has_memory m = true

mul-text_example : mul has_memory whole (str_value (codes "ab")) (int_value (pos 3)) ≡ (
    if length (codes "ab") * 3 + 1 == 2 ^ 64
    then fault
    else done (str_value (copies 3 (codes "ab"))))
mul-text_example = mul-text has_memory whole (codes "ab") 3 (λ m. refl) (omega arith) (omega arith)

join-split_example :
    (items : Items ℕ) × (split (str_value (codes "a, b, ")) (some (codes ", ")) ≡ list_value items)
    × IsParts (codes "a, b, ") (codes ", ") items
    × (join (str_value (codes ", ")) (list_value items) ≡ str_value (codes "a, b, "))
join-split_example = join-split (codes "a, b, ") (some (codes ", "))
