-- ===== src/Regex/Search.antt =====
-- Searching a text: re_match.
use abscom.Prelude.{ℕ, ◌≤◌, ◌≡◌, ◌≢◌, ◌⊎◌, List, [], ◌∷◌, length, drop}
use abscom.Regex.Longest.{Matches}

-- A match that starts behind the first `k` bytes.
abbrev pub MatchesAt : List ℕ → List ℕ → ℕ → Type 0
MatchesAt regexp text k = (k ≤ length text) × ((n : ℕ) × Matches regexp (drop k text) n)

-- Where a pattern may match: at the start only, behind a `^`.
abbrev pub Occurs : List ℕ → List ℕ → Type 0
Occurs [] text = (k : ℕ) × MatchesAt [] text k
Occurs (c ∷ regexp) text =
    ((c ≡ 94) × MatchesAt regexp text 0) ⊎ ((c ≢ 94) × ((k : ℕ) × MatchesAt (c ∷ regexp) text k))
