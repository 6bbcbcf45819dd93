-- ===== src/Regex/Defs.antt =====
-- The functions of src/abs_regex.c on the bytes of C strings. A result of -1 is none; `regexp + 1` and
-- `text + 1` are the tails of the lists.
use abscom.Prelude.{
  ℕ, zero, suc, ◌+◌, Bool, true, false, ◌&&◌, ◌||◌, not, Option, none, some, List, [], ◌∷◌, ◌++◌,
  ltb, ◌==◌, if◌then◌else◌, CString, length, take, drop,
}

-- Is the character of the pattern `.`, or that of the text?
abbrev pub accepts : ℕ → ℕ → Bool
accepts c x = (c == 46) || (c == x)

-- match_star, with the rest of the pattern as the matcher of it
unfoldable pub match_star : ℕ → (List ℕ → Bool) → List ℕ → Bool
match_star c rest [] = rest []
match_star c rest (x ∷ text) =
    let more = match_star c rest text in rest (x ∷ text) || (if accepts c x then more else false)

abbrev pub is_empty : List ℕ → Bool
is_empty [] = true
is_empty (x ∷ text) = false

-- One character of the pattern, and then what follows it.
abbrev pub match_one : ℕ → (List ℕ → Bool) → List ℕ → Bool
match_one c rest [] = false
match_one c rest (x ∷ text) = if accepts c x then rest text else false

unfoldable pub match_here : List ℕ → List ℕ → Bool
unfolding match_star
match_here [] text = true
match_here (c ∷ []) text = if c == 36 then is_empty text else match_one c (λ t. true) text
match_here (c ∷ d ∷ regexp) text =
    let starred = match_star c (match_here regexp) text in
    let plain = match_one c (match_here (d ∷ regexp)) text in if d == 42 then starred else plain

-- the `do` loop of match
unfoldable pub match_loop : (List ℕ → Bool) → List ℕ → Bool
match_loop here [] = here []
match_loop here (x ∷ text) = here (x ∷ text) || match_loop here text

-- `match` of the source
unfoldable pub match_text : List ℕ → List ℕ → Bool
unfolding match_here match_loop
match_text [] text = match_loop (match_here []) text
match_text (c ∷ regexp) text =
    if c == 94 then match_here regexp text else match_loop (match_here (c ∷ regexp)) text

-- A value that is not a string is none.
unfoldable pub re_match : Option CString → Option CString → Bool
unfolding match_text
re_match (some pattern) (some text) = match_text pattern text
re_match none text = false
re_match (some pattern) none = false

-- best = used + rest, if there is a match of the rest that is longer
abbrev pub better : Option ℕ → ℕ → Option ℕ → Option ℕ
better best used none = best
better none used (some rest) = some (used + rest)
better (some best) used (some rest) =
    if ltb best (used + rest) then some (used + rest) else some best

-- the loop of match_len over a starred character
unfoldable pub star_len : ℕ → (List ℕ → Option ℕ) → List ℕ → ℕ → Option ℕ → Option ℕ
star_len c rest [] used best = better best used (rest [])
star_len c rest (x ∷ text) used best =
    let best' = better best used (rest (x ∷ text)) in
    let more = star_len c rest text (used + 1) best' in
    if not (x == c) && not (c == 46) then best' else more

abbrev pub one_more : Option ℕ → Option ℕ
one_more none = none
one_more (some rest) = some (rest + 1)

abbrev pub one_len : ℕ → (List ℕ → Option ℕ) → List ℕ → Option ℕ
one_len c rest [] = none
one_len c rest (x ∷ text) = if accepts c x then one_more (rest text) else none

unfoldable pub match_len : List ℕ → List ℕ → Option ℕ
unfolding star_len
match_len [] text = some 0
match_len (c ∷ []) text =
    if c == 36 then (if is_empty text then some 0 else none) else one_len c (λ t. some 0) text
match_len (c ∷ d ∷ regexp) text =
    let starred = star_len c (match_len regexp) text 0 none in
    let plain = one_len c (match_len (d ∷ regexp)) text in if d == 42 then starred else plain

unfoldable pub match_at : List ℕ → List ℕ → Option ℕ
unfolding match_len
match_at [] text = match_len [] text
match_at (c ∷ regexp) text = if c == 94 then match_len regexp text else match_len (c ∷ regexp) text

-- One round of re_findall at the text `x ∷ text`; `again` is the rest of the loop.
abbrev pub findall_step : ℕ → List ℕ → (List ℕ → List CString) → Option ℕ → List CString
findall_step x text again none = again text
findall_step x text again (some zero) = [] ∷ again text
findall_step x text again (some (suc n)) = take (suc n) (x ∷ text) ∷ again (drop n text)

-- The loop moves on in each round, so the length of the text is enough fuel.
unfoldable pub findall_loop : ℕ → List ℕ → List ℕ → List CString
findall_loop zero re text = []
findall_loop (suc fuel) re [] = []
findall_loop (suc fuel) re (x ∷ text) =
    findall_step x text (findall_loop fuel re) (match_at re (x ∷ text))

-- One round of re_sub: what is appended to `out`, and the rest of the loop.
abbrev pub sub_step : List ℕ → ℕ → List ℕ → (List ℕ → List ℕ) → Option ℕ → List ℕ
sub_step r x text again none = x ∷ again text
sub_step r x text again (some zero) = r ++ (x ∷ again text)
sub_step r x text again (some (suc n)) = r ++ again (drop n text)

unfoldable pub sub_loop : ℕ → List ℕ → List ℕ → List ℕ → List ℕ
sub_loop zero re r text = []
sub_loop (suc fuel) re r [] = []
sub_loop (suc fuel) re r (x ∷ text) =
    sub_step r x text (sub_loop fuel re r) (match_at re (x ∷ text))

unfoldable pub re_findall : CString → CString → List CString
unfolding findall_loop
re_findall pattern text = findall_loop (length text) pattern text

-- A replacement that is not a string is none.
unfoldable pub re_sub : CString → Option CString → CString → CString
unfolding sub_loop
re_sub pattern none text = sub_loop (length text) pattern [] text
re_sub pattern (some repl) text = sub_loop (length text) pattern repl text
