-- ===== src/Runtime/Strings/Places.antt =====
-- The place where strstr finds a text.
use abscom.Prelude.{
  ℕ, zero, suc, ◌+◌, ◌≡◌, refl, sym, ap, ◌∙◌, true, false, ◌==◌, none, some, [], ◌∷◌, ◌++◌, arith,
  CString, take, drop, length, Bool-cases, Option-cases, inl, inr,
}
use mathlib.Core.Option.{map as map_option}
use abscom.Runtime.Strings.Defs.{has_prefix, strstr}

has_prefix-drop :
    (prefix s : CString) → has_prefix prefix s ≡ true → s ≡ prefix ++ drop (length prefix) s
unfolding has_prefix
has_prefix-drop [] s h = refl
has_prefix-drop (c ∷ prefix) [] h = absurd cc
has_prefix-drop (c ∷ prefix) (d ∷ s) h =
    let e : d ≡ c = ground (arith, h) in
    let rest : has_prefix prefix s ≡ true = ground (arith, h) in
    rw (e) (ap (λ r. c ∷ r) (has_prefix-drop prefix s rest))

-- The text is what stands in front of the place, the pattern, and what stands behind it.
abbrev pub IsPlace : CString → CString → ℕ → Type 0
IsPlace s pattern n = s ≡ take n s ++ (pattern ++ drop (n + length pattern) s)

IsPlace-first : (s pattern : CString) → has_prefix pattern s ≡ true → IsPlace s pattern 0
IsPlace-first s pattern h =
    let e : length pattern ≡ 0 + length pattern = omega arith in
    has_prefix-drop pattern s h ∙ ap (λ k. pattern ++ drop k s) e

IsPlace-next :
    (c : ℕ) (s pattern : CString) (n : ℕ) → IsPlace s pattern n → IsPlace (c ∷ s) pattern (suc n)
IsPlace-next c s pattern n h =
    let e : suc (n + length pattern) ≡ suc n + length pattern = omega arith in
    ap (λ r. c ∷ r) h ∙ ap (λ k. c ∷ (take n s ++ (pattern ++ drop k (c ∷ s)))) e

strstr-next :
    (c : ℕ) (s pattern : CString) (n : ℕ)
    → map_option suc (strstr s pattern) ≡ some n
    → (m : ℕ) × (strstr s pattern ≡ some m) × (n ≡ suc m)
strstr-next c s pattern n h = elim (Option-cases (strstr s pattern)) [
  | inl e ↦ absurd cc
  | inr (m, e) ↦ (m, e, cc)
]

pub strstr-IsPlace : (s pattern : CString) (n : ℕ) → strstr s pattern ≡ some n → IsPlace s pattern n
unfolding strstr
strstr-IsPlace [] pattern n h = elim (Bool-cases (has_prefix pattern [])) [
  | inl e ↦ let z : n ≡ 0 = ground (arith, e, h) in rw (z) (IsPlace-first [] pattern e)
  | inr e ↦ absurd (ground (arith, e, h))
]
strstr-IsPlace (c ∷ s) pattern n h = elim (Bool-cases (has_prefix pattern (c ∷ s))) [
  | inl e ↦ let z : n ≡ 0 = ground (arith, e, h) in rw (z) (IsPlace-first (c ∷ s) pattern e)
  | inr e ↦
      let (m, place, z) = strstr-next c s pattern n (ground (arith, e, h)) in
      rw (z) (IsPlace-next c s pattern m (strstr-IsPlace s pattern m place))
]

-- What stands in front of a place begins with nothing that the whole does not begin with.
has_prefix-take :
    (prefix s : CString) (n : ℕ) → has_prefix prefix (take n s) ≡ true → has_prefix prefix s ≡ true
unfolding has_prefix
has_prefix-take [] s n h = refl
has_prefix-take (c ∷ prefix) s zero h = absurd cc
has_prefix-take (c ∷ prefix) [] (suc n) h = absurd cc
has_prefix-take (c ∷ prefix) (d ∷ s) (suc n) h =
    let here : (d == c) ≡ true = ground (arith, h) in
    let rest : has_prefix prefix (take n s) ≡ true = ground (arith, h) in
    rw (here) (has_prefix-take prefix s n rest)

-- In front of the first place of the delimiter, the delimiter does not stand.
pub strstr-take :
    (s : CString) (d : ℕ) (delimiter : CString) (n : ℕ)
    → strstr s (d ∷ delimiter) ≡ some n
    → strstr (take n s) (d ∷ delimiter) ≡ none
unfolding strstr has_prefix
strstr-take s d delimiter zero h = refl
strstr-take [] d delimiter (suc n) h = absurd cc
strstr-take (c ∷ s) d delimiter (suc n) h = elim (Bool-cases (has_prefix (d ∷ delimiter) (c ∷ s))) [
  | inl e ↦ let wrong : some 0 ≡ some (suc n) = rw (e) at h in absurd (cc)
  | inr e ↦
      let further : map_option suc (strstr s (d ∷ delimiter)) ≡ some (suc n) = rw (e) at h in
      let (m, place, same) = strstr-next c s (d ∷ delimiter) (suc n) further in
      let at_n : m ≡ n = omega (arith, same) in
      let rest : strstr (take n s) (d ∷ delimiter) ≡ none =
        strstr-take s d delimiter n (place ∙ ap some at_n) in
      elim (Bool-cases (has_prefix (d ∷ delimiter) (c ∷ take n s))) [
        | inl e' ↦
            let there = has_prefix-take (d ∷ delimiter) (c ∷ s) (suc n) e' in
            absurd (let wrong : true ≡ false = sym there ∙ e in cc)
        | inr e' ↦ rw (e', rest) refl
      ]
]

pub strstr-nil : (d : ℕ) (delimiter : CString) → strstr [] (d ∷ delimiter) ≡ none
unfolding strstr has_prefix
strstr-nil d delimiter = refl
