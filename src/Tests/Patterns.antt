-- ===== src/Tests/Patterns.antt =====
-- Patterns on concrete texts.
use abscom.Prelude.{ℕ, ◌≡◌, refl, List, [], ◌∷◌}
use abscom.Regex.Defs.{match_here, match_len, match_at, star_len, re_findall, findall_loop}
use abscom.Regex.Matching.{is_match, match_len-match_here}
use abscom.Regex.Longest.{Matches, IsLongest, match_len-IsLongest}

-- "ab*"
abbrev ab_star : List ℕ
ab_star = 97 ∷ 98 ∷ 42 ∷ []

-- "abbcab"
abbrev text : List ℕ
text = 97 ∷ 98 ∷ 98 ∷ 99 ∷ 97 ∷ 98 ∷ []

findall_run : re_findall ab_star text ≡ (97 ∷ 98 ∷ 98 ∷ []) ∷ (97 ∷ 98 ∷ []) ∷ []
unfolding re_findall findall_loop match_at match_len star_len
findall_run = refl

match_len-IsLongest_example : IsLongest (Matches ab_star text) (match_len ab_star text)
match_len-IsLongest_example = match_len-IsLongest ab_star text

match_len-match_here_example : is_match (match_len ab_star text) ≡ match_here ab_star text
match_len-match_here_example = match_len-match_here ab_star text
