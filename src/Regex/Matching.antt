-- ===== src/Regex/Matching.antt =====
-- The two matchers of the code, and what a match is.
use abscom.Prelude.{
  ℕ, ◌+◌, ◌≡◌, refl, ap, ◌∙◌, Bool, true, false, ◌&&◌, ◌||◌, not, Option, none, some, List, [], ◌∷◌,
  arith, ◌==◌, Bool-cases, inl, inr, ℕ_discrete,
}
use abscom.Regex.Defs.{
  accepts, match_star, match_one, match_here, better, star_len, one_more, one_len, match_len,
}

abbrev pub is_match : Option ℕ → Bool
is_match none = false
is_match (some n) = true

better-is_match :
    (best : Option ℕ) (used : ℕ) (rest : Option ℕ)
    → is_match (better best used rest) ≡ (is_match best || is_match rest)
better-is_match none used none = refl
better-is_match none used (some n) = refl
better-is_match (some b) used none = refl
better-is_match (some b) used (some n) = ground arith

pub accepts_test : (c x : ℕ) → (not (x == c) && not (c == 46)) ≡ not (accepts c x)
accepts_test c x = ground arith

or_assoc : (a b c : Bool) → ((a || b) || c) ≡ (a || (b || c))
or_assoc true b c = refl
or_assoc false b c = refl

or_false : (a : Bool) → a ≡ (a || false)
or_false true = refl
or_false false = refl

star_len-match_star :
    (c : ℕ) (here : List ℕ → Bool) (rest : List ℕ → Option ℕ) (text : List ℕ) (used : ℕ)
    (best : Option ℕ)
    → ((t : List ℕ) → is_match (rest t) ≡ here t)
    → is_match (star_len c rest text used best) ≡ (is_match best || match_star c here text)
unfolding star_len match_star
star_len-match_star c here rest [] used best h = rw (better-is_match best used (rest []), h [])
star_len-match_star c here rest (x ∷ text) used best h =
    let e = better-is_match best used (rest (x ∷ text)) in
    let more =
      star_len-match_star c here rest text (used + 1) (better best used (rest (x ∷ text))) h in
    elim (Bool-cases (accepts c x)) [
      | inl yes_it ↦
          rw (accepts_test c x, yes_it, more, e, h (x ∷ text)) (or_assoc (is_match best) _ _)
      | inr no_it ↦
          rw (accepts_test c x, no_it, e, h (x ∷ text)) (ap (λ b. is_match best || b) (or_false _))
    ]

one_len-match_one :
    (c : ℕ) (here : List ℕ → Bool) (rest : List ℕ → Option ℕ) (text : List ℕ)
    → ((t : List ℕ) → is_match (rest t) ≡ here t)
    → is_match (one_len c rest text) ≡ match_one c here text
one_len-match_one c here rest [] h = refl
one_len-match_one c here rest (x ∷ text) h = elim (Bool-cases (accepts c x)) [
  | inl yes_it ↦ rw yes_it (one_more-is_match (rest text) ∙ h text)
  | inr no_it ↦ rw no_it
]
  where
    one_more-is_match : (r : Option ℕ) → is_match (one_more r) ≡ is_match r
    one_more-is_match none = refl
    one_more-is_match (some n) = refl

-- `match_here` matches a text exactly where `match_len` finds a length.
pub match_len-match_here :
    (regexp text : List ℕ) → is_match (match_len regexp text) ≡ match_here regexp text
unfolding match_len match_here
match_len-match_here [] text = refl
match_len-match_here (c ∷ []) [] = ground arith
match_len-match_here (c ∷ []) (x ∷ text) = ground arith
match_len-match_here (c ∷ d ∷ regexp) text = elim (ℕ_discrete d 42) [
  | yes star ↦
      let test : (d == 42) ≡ true = ground arith in
      rw test (
        star_len-match_star c (match_here regexp) (match_len regexp) text 0 none
          (match_len-match_here regexp))
  | no plain ↦
      let test : (d == 42) ≡ false = ground arith in
      rw test (one_len-match_one c _ _ text (match_len-match_here (d ∷ regexp)))
]
