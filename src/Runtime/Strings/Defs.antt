-- ===== src/Runtime/Strings/Defs.antt =====
-- upper, lower, split, join, fmt_impl, strip, startswith, endswith and count of src/abs.c, with the memory
-- that they ask for. The items that a loop appends to a new list are given in that order.
use abscom.Prelude.{
  ℕ, zero, suc, ◌+◌, ◌-◌, Bool, true, false, ◌&&◌, Option, none, some, [], ◌∷◌, ◌++◌, ltb, leb,
  ◌==◌, if◌then◌else◌, CString, str_eq, codes, take, drop, length, get_or, map,
}
use mathlib.Core.Option.{map as map_option}
use abscom.Prelude.Int.{pos}
use abscom.Prelude.Run.{Run, done, fault, ◌>>=◌}
use abscom.Sort.Defs.{same, below, above}
use abscom.Runtime.Values.Defs.{
  Floats, Value, Items, null, none_value, int_value, str_value, bool_value, error_value, list_value,
  nil, cons, compare_objs,
}
use abscom.Runtime.Values.Text.{to_str}
use abscom.Runtime.Json.Defs.{is_space}

-- toupper and tolower in the C locale
abbrev pub to_upper : ℕ → ℕ
to_upper c = if leb 97 c && leb c 122 then c - 32 else c

abbrev pub to_lower : ℕ → ℕ
to_lower c = if leb 65 c && leb c 90 then c + 32 else c

unfoldable pub upper : {F : Type 0} → Value F → Value F
upper (str_value s) = str_value (map to_upper s)
upper v = none_value

unfoldable pub lower : {F : Type 0} → Value F → Value F
lower (str_value s) = str_value (map to_lower s)
lower v = none_value

-- Does strncmp find no difference in the characters of the prefix?
unfoldable pub has_prefix : CString → CString → Bool
has_prefix [] s = true
has_prefix (c ∷ prefix) [] = false
has_prefix (c ∷ prefix) (d ∷ s) = d == c && has_prefix prefix s

-- strstr: the place where the pattern first stands in the text
unfoldable pub strstr : CString → CString → Option ℕ
unfolding has_prefix
strstr [] pattern = if has_prefix pattern [] then some 0 else none
strstr (c ∷ s) pattern =
    let further = map_option suc (strstr s pattern) in
    if has_prefix pattern (c ∷ s) then some 0 else further

unfoldable pub characters : {F : Type 0} → CString → Items F
characters [] = nil
characters (c ∷ s) = cons (str_value (c ∷ [])) (characters s)

-- The loop over the places of the delimiter, which is not empty, so a round shortens the text.
unfoldable pub split_loop : {F : Type 0} → ℕ → CString → CString → Items F
split_loop zero delimiter start = cons (str_value start) nil
split_loop (suc fuel) delimiter start = elim (strstr start delimiter) [
  | none ↦ cons (str_value start) nil
  | some n ↦
      cons (str_value (take n start))
        (split_loop fuel delimiter (drop (n + length delimiter) start))
]

unfoldable pub split_text : {F : Type 0} → CString → CString → Items F
unfolding characters split_loop
split_text [] [] = cons (str_value []) nil
split_text (c ∷ s) [] = characters (c ∷ s)
split_text s (d ∷ delimiter) = split_loop (length s) (d ∷ delimiter) s

-- A NULL delimiter is the empty text.
unfoldable pub split : {F : Type 0} → Value F → Option CString → Value F
unfolding split_text
split (str_value s) none = list_value (split_text s [])
split (str_value s) (some delimiter) = list_value (split_text s delimiter)
split v delimiter = error_value (codes "Not a string")

-- The text of an item that is a string, and nothing for another.
abbrev pub item_text : {F : Type 0} → Value F → CString
item_text (str_value s) = s
item_text v = []

unfoldable pub join_items : {F : Type 0} → CString → Items F → CString
join_items delim nil = []
join_items delim (cons x nil) = item_text x
join_items delim (cons x (cons y ys)) = item_text x ++ (delim ++ join_items delim (cons y ys))

unfoldable pub join : {F : Type 0} → Value F → Value F → Value F
unfolding join_items
join delimiter (list_value xs) = str_value (join_items (item_text delimiter) xs)
join delimiter v = error_value (codes "Not a list")

-- The text for an argument of fmt, which is nothing for NULL.
abbrev pub argument_text : {F : Type 0} → Floats F → Value F → Run CString
argument_text fl null = done []
argument_text fl v = to_str fl v

-- The loop of fmt_impl. To take an argument that was not passed is a fault.
unfoldable pub fmt : {F : Type 0} → Floats F → CString → Items F → Run CString
fmt fl [] args = done []
fmt fl (c ∷ []) args = done (c ∷ [])
fmt fl (c ∷ (e ∷ p)) args = elim (c == 123 && e == 125) [
  | true ↦ elim args [
    | nil ↦ fault
    | cons arg rest ↦ argument_text fl arg >>= λ text. fmt fl p rest >>= λ s. done (text ++ s)
  ]
  | false ↦ fmt fl (e ∷ p) args >>= λ s. done (c ∷ s)
]

unfoldable pub skip_spaces : CString → CString
skip_spaces [] = []
skip_spaces (c ∷ s) = let rest = skip_spaces s in if is_space c then rest else c ∷ s

-- The loop that moves the end back, which does not pass the first character.
unfoldable pub move_end : CString → ℕ → ℕ
move_end s zero = zero
move_end s (suc e) =
    let rest = move_end s e in if is_space (get_or s (suc e) 0) then rest else suc e

unfoldable pub strip_text : CString → CString
unfolding move_end
strip_text [] = []
strip_text (c ∷ s) = take (move_end (c ∷ s) (length s) + 1) (c ∷ s)

unfoldable pub strip : {F : Type 0} → Value F → Value F
unfolding strip_text skip_spaces
strip (str_value s) = str_value (strip_text (skip_spaces s))
strip v = none_value

unfoldable pub startswith : {F : Type 0} → Value F → Value F → Value F
unfolding has_prefix
startswith (str_value s) (str_value prefix) = bool_value (has_prefix prefix s)
startswith v w = bool_value false

unfoldable pub endswith : {F : Type 0} → Value F → Value F → Value F
endswith (str_value s) (str_value suffix) = bool_value (
    if ltb (length s) (length suffix)
    then false
    else str_eq (drop (length s - length suffix) s) suffix)
endswith v w = bool_value false

-- the loops of count
unfoldable pub count_items : {F : Type 0} → Floats F → Items F → Value F → ℕ
unfolding compare_objs
count_items fl nil item = 0
count_items fl (cons x xs) item =
    let rest = count_items fl xs item in
    elim (compare_objs fl x item) [ same ↦ rest + 1 | below ↦ rest | above ↦ rest ]

unfoldable pub count_places : ℕ → CString → CString → ℕ
unfolding strstr
count_places zero pattern s = 0
count_places (suc fuel) pattern s = elim (strstr s pattern) [
  | none ↦ 0
  | some n ↦ count_places fuel pattern (drop (n + length pattern) s) + 1
]

unfoldable pub count : {F : Type 0} → Floats F → Value F → Value F → Value F
unfolding count_items count_places
count fl (list_value xs) item = int_value (pos (count_items fl xs item))
count fl (str_value s) (str_value []) = int_value (pos 0)
count fl (str_value s) (str_value (c ∷ pattern)) =
    int_value (pos (count_places (length s) (c ∷ pattern) s))
count fl v w = int_value (pos 0)
