-- ===== src/Regex/Longest.antt =====
-- An independent description of the matches of a pattern, and that match_len finds the longest.
use abscom.Prelude.{
  ℕ, ◌+◌, ◌≤◌, ◌≡◌, ◌≢◌, ◌⊎◌, inl, inr, refl, true, false, Option, none, some, List, [], ◌∷◌, arith,
  ltb, ◌==◌, if◌then◌else◌, Bool-cases, ℕ_discrete, dec_lt,
}
use abscom.Regex.Matching.{accepts_test}
use abscom.Regex.Defs.{accepts, better, star_len, one_more, one_len, match_len}

-- `Matches regexp text n`: the first `n` bytes of `text` match the pattern.
pub data Matches : List ℕ → List ℕ → ℕ → Type 0 where
  at_end : (text : List ℕ) → Matches [] text 0
  dollar : (c : ℕ) → c ≡ 36 → Matches (c ∷ []) [] 0
  last : (c x : ℕ) (text : List ℕ) → c ≢ 36 → accepts c x ≡ true → Matches (c ∷ []) (x ∷ text) 1
  one :
      (c d x : ℕ) (regexp text : List ℕ) (n m : ℕ)
      → d ≢ 42
      → accepts c x ≡ true
      → Matches (d ∷ regexp) text n
      → m ≡ n + 1
      → Matches (c ∷ d ∷ regexp) (x ∷ text) m
  star_done :
      (c d : ℕ) (regexp text : List ℕ) (n : ℕ)
      → d ≡ 42
      → Matches regexp text n
      → Matches (c ∷ d ∷ regexp) text n
  star_more :
      (c d x : ℕ) (regexp text : List ℕ) (n m : ℕ)
      → d ≡ 42
      → accepts c x ≡ true
      → Matches (c ∷ d ∷ regexp) text n
      → m ≡ n + 1
      → Matches (c ∷ d ∷ regexp) (x ∷ text) m

-- The largest number with a property, or that there is none.
abbrev pub IsLongest : (ℕ → Type 0) → Option ℕ → Type 0
IsLongest P none = (n : ℕ) → ¬ P n
IsLongest P (some n) = P n × ((m : ℕ) → P m → m ≤ n)

IsLongest-map :
    (P Q : ℕ → Type 0) (r : Option ℕ)
    → ((n : ℕ) → P n → Q n)
    → ((n : ℕ) → Q n → P n)
    → IsLongest P r
    → IsLongest Q r
IsLongest-map P Q none f g h = λ n q. h n (g n q)
IsLongest-map P Q (some r) f g (p, h) = (f r p, λ m q. h m (g m q))

abbrev OneMore : (ℕ → Type 0) → ℕ → Type 0
OneMore P m = (n : ℕ) × P n × (m ≡ n + 1)

IsLongest-one_more :
    (P : ℕ → Type 0) (r : Option ℕ) → IsLongest P r → IsLongest (OneMore P) (one_more r)
IsLongest-one_more P none h = λ n (k, p, _). h k p
IsLongest-one_more P (some r) (p, h) = ((r, p, refl), λ m (k, q, e). omega (arith, h k q))

longer : Option ℕ → Option ℕ → Option ℕ
longer none b = b
longer (some a) none = some a
longer (some a) (some b) = if ltb a b then some b else some a

IsLongest-longer :
    (P Q : ℕ → Type 0) (a b : Option ℕ)
    → IsLongest P a
    → IsLongest Q b
    → IsLongest (λ n. P n ⊎ Q n) (longer a b)
unfolding longer
IsLongest-longer P Q none none h h' = λ n s. elim s [ inl p ↦ h n p | inr q ↦ h' n q ]
IsLongest-longer P Q none (some b) h (q, h') =
    (inr q, λ m s. elim s [ inl p ↦ absurd (h m p) | inr q' ↦ h' m q' ])
IsLongest-longer P Q (some a) none (p, h) h' =
    (inl p, λ m s. elim s [ inl p' ↦ h m p' | inr q ↦ absurd (h' m q) ])
IsLongest-longer P Q (some a) (some b) (p, h) (q, h') = elim (dec_lt a b) [
  | yes wide ↦
      let test : ltb a b ≡ true = ground arith in
      rw test (inr q, λ m s. elim s [ inl p' ↦ omega (arith, h m p') | inr q' ↦ h' m q' ])
  | no narrow ↦
      let test : ltb a b ≡ false = ground arith in
      rw test (inl p, λ m s. elim s [ inl p' ↦ h m p' | inr q' ↦ omega (arith, h' m q') ])
]

-- The loop over a starred character, with no accumulator.
longest : ℕ → (List ℕ → Option ℕ) → List ℕ → Option ℕ
unfolding longer
longest c rest [] = rest []
longest c rest (x ∷ text) =
    let more = one_more (longest c rest text) in
    longer (rest (x ∷ text)) (if accepts c x then more else none)

better-longer :
    (best : Option ℕ) (used : ℕ) (a b : Option ℕ)
    → better (better best used a) (used + 1) b ≡ better best used (longer a (one_more b))
unfolding longer
better-longer none used none none = refl
better-longer none used none (some b) = ground arith
better-longer none used (some a) none = ground arith
better-longer none used (some a) (some b) = ground arith
better-longer (some n) used none none = refl
better-longer (some n) used none (some b) = ground arith
better-longer (some n) used (some a) none = ground arith
better-longer (some n) used (some a) (some b) = ground arith

longer-none : (a : Option ℕ) → longer a none ≡ a
unfolding longer
longer-none none = refl
longer-none (some a) = refl

star_len-longest :
    (c : ℕ) (rest : List ℕ → Option ℕ) (text : List ℕ) (used : ℕ) (best : Option ℕ)
    → star_len c rest text used best ≡ better best used (longest c rest text)
unfolding star_len longest
star_len-longest c rest [] used best = refl
star_len-longest c rest (x ∷ text) used best = elim (Bool-cases (accepts c x)) [
  | inl yes_it ↦
      rw
        (
          accepts_test c x,
          yes_it,
          star_len-longest c rest text (used + 1) (better best used (rest (x ∷ text))),
        )
        (better-longer best used (rest (x ∷ text)) (longest c rest text))
  | inr no_it ↦ rw (accepts_test c x, no_it, longer-none (rest (x ∷ text)))
]

-- What the matches of a starred character are.
star_cases :
    (c d x : ℕ) (regexp text : List ℕ) (n : ℕ)
    → d ≡ 42
    → Matches (c ∷ d ∷ regexp) (x ∷ text) n
    → Matches regexp (x ∷ text) n
      ⊎ ((accepts c x ≡ true) × OneMore (Matches (c ∷ d ∷ regexp) text) n)
star_cases c d x regexp text n star (one _ _ _ _ _ k _ plain ok m e) = absurd (plain star)
star_cases c d x regexp text n star (star_done _ _ _ _ _ _ m) = inl m
star_cases c d x regexp text n star (star_more _ _ _ _ _ k _ _ ok m e) = inr (ok, (k, m, e))

star_end_cases :
    (c d : ℕ) (regexp : List ℕ) (n : ℕ) → Matches (c ∷ d ∷ regexp) [] n → Matches regexp [] n
star_end_cases c d regexp n (star_done _ _ _ _ _ _ m) = m

star-IsLongest :
    (c d : ℕ) (regexp : List ℕ)
    → d ≡ 42
    → ((t : List ℕ) → IsLongest (Matches regexp t) (match_len regexp t))
    → (text : List ℕ)
    → IsLongest (Matches (c ∷ d ∷ regexp) text) (longest c (match_len regexp) text)
unfolding longest
star-IsLongest c d regexp star h [] =
    IsLongest-map (Matches regexp []) (Matches (c ∷ d ∷ regexp) []) (match_len regexp [])
      (λ n m. star_done c d regexp [] n star m) (λ n m. star_end_cases c d regexp n m) (h [])
star-IsLongest c d regexp star h (x ∷ text) =
    let P = Matches regexp (x ∷ text) in
    let Q = Matches (c ∷ d ∷ regexp) in
    elim (Bool-cases (accepts c x)) [
      | inl ok ↦ rw ok (
          IsLongest-map (λ n. P n ⊎ OneMore (Q text) n) (Q (x ∷ text)) _
            (λ n s. elim s [
              | inl p ↦ star_done c d regexp (x ∷ text) n star p
              | inr (k, q, e) ↦ star_more c d x regexp text k n star ok q e
            ])
            (λ n q. elim (star_cases c d x regexp text n star q) [
              | inl p ↦ inl p
              | inr (_, m) ↦ inr m
            ])
            (IsLongest-longer P (OneMore (Q text)) _ _ (h (x ∷ text))
              (IsLongest-one_more (Q text) _ (star-IsLongest c d regexp star h text))))
      | inr bad ↦
          rw (bad, longer-none)
            (IsLongest-map P (Q (x ∷ text)) (match_len regexp (x ∷ text))
              (λ n p. star_done c d regexp (x ∷ text) n star p)
              (λ n q. elim (star_cases c d x regexp text n star q) [
                | inl p ↦ p
                | inr (ok, _) ↦ absurd (ground (arith, ok, bad))
              ])
              (h (x ∷ text)))
    ]

one_cases :
    (c d x : ℕ) (regexp text : List ℕ) (n : ℕ)
    → d ≢ 42
    → Matches (c ∷ d ∷ regexp) (x ∷ text) n
    → (accepts c x ≡ true) × OneMore (Matches (d ∷ regexp) text) n
one_cases c d x regexp text n plain (one _ _ _ _ _ k _ _ ok m e) = (ok, (k, m, e))
one_cases c d x regexp text n plain (star_done _ _ _ _ _ star m) = absurd (plain star)
one_cases c d x regexp text n plain (star_more _ _ _ _ _ k _ star ok m e) = absurd (plain star)

one_end : (c d : ℕ) (regexp : List ℕ) (n : ℕ) → d ≢ 42 → ¬ Matches (c ∷ d ∷ regexp) [] n
one_end c d regexp n plain (star_done _ _ _ _ _ star m) = plain star

one-IsLongest :
    (c d : ℕ) (regexp text : List ℕ)
    → d ≢ 42
    → ((t : List ℕ) → IsLongest (Matches (d ∷ regexp) t) (match_len (d ∷ regexp) t))
    → IsLongest (Matches (c ∷ d ∷ regexp) text) (one_len c (match_len (d ∷ regexp)) text)
one-IsLongest c d regexp [] plain h = λ n m. one_end c d regexp n plain m
one-IsLongest c d regexp (x ∷ text) plain h = elim (Bool-cases (accepts c x)) [
  | inl ok ↦ rw ok (
      IsLongest-map (OneMore (Matches (d ∷ regexp) text)) (Matches (c ∷ d ∷ regexp) (x ∷ text)) _
        (λ n (k, m, e). one c d x regexp text k n plain ok m e)
        (λ n m. (one_cases c d x regexp text n plain m).1)
        (IsLongest-one_more (Matches (d ∷ regexp) text) _ (h text)))
  | inr bad ↦
      rw bad (λ n m. absurd (ground (arith, bad, (one_cases c d x regexp text n plain m).0)))
]

dollar_end : (c n : ℕ) → Matches (c ∷ []) [] n → (c ≡ 36) × (n ≡ 0)
dollar_end c n (dollar _ e) = (e, refl)

last_cases :
    (c x : ℕ) (text : List ℕ) (n : ℕ)
    → Matches (c ∷ []) (x ∷ text) n
    → (c ≢ 36) × (accepts c x ≡ true) × (n ≡ 1)
last_cases c x text n (last _ _ _ e ok) = (e, ok, refl)

last-IsLongest :
    (c : ℕ) (text : List ℕ) → IsLongest (Matches (c ∷ []) text) (match_len (c ∷ []) text)
unfolding match_len
last-IsLongest c [] = elim (ℕ_discrete c 36) [
  | yes e ↦
      let test : (c == 36) ≡ true = ground arith in
      rw test (dollar c e, λ m q. omega (arith, dollar_end c m q))
  | no e ↦ let test : (c == 36) ≡ false = ground arith in rw test (λ n q. e (dollar_end c n q).0)
]
last-IsLongest c (x ∷ text) = elim (ℕ_discrete c 36) [
  | yes e ↦
      let test : (c == 36) ≡ true = ground arith in rw test (λ n q. (last_cases c x text n q).0 e)
  | no e ↦
      let test : (c == 36) ≡ false = ground arith in
      elim (Bool-cases (accepts c x)) [
        | inl ok ↦ rw (test, ok) (last c x text e ok, λ m q. omega (arith, last_cases c x text m q))
        | inr bad ↦
            rw (test, bad) (λ n q. absurd (ground (arith, bad, (last_cases c x text n q).1)))
      ]
]

end_lem : (text : List ℕ) (n : ℕ) → Matches [] text n → n ≤ 0
end_lem text n (at_end _) = omega arith

better-start : (a : Option ℕ) → better none 0 a ≡ a
better-start none = refl
better-start (some n) = ground arith

-- `match_len` is the length of the longest match at the start of a text, and is negative if there is
-- none.
pub match_len-IsLongest :
    (regexp text : List ℕ) → IsLongest (Matches regexp text) (match_len regexp text)
unfolding match_len
match_len-IsLongest [] text = (at_end text, λ m q. end_lem text m q)
match_len-IsLongest (c ∷ []) text = last-IsLongest c text
match_len-IsLongest (c ∷ d ∷ regexp) text = elim (ℕ_discrete d 42) [
  | yes star ↦
      let test : (d == 42) ≡ true = ground arith in
      rw (test, star_len-longest c (match_len regexp) text 0 none)
        (rw (better-start (longest c (match_len regexp) text))
          (star-IsLongest c d regexp star (match_len-IsLongest regexp) text))
  | no plain ↦
      let test : (d == 42) ≡ false = ground arith in
      rw test (one-IsLongest c d regexp text plain (match_len-IsLongest (d ∷ regexp)))
]
