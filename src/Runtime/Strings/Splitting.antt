-- ===== src/Runtime/Strings/Splitting.antt =====
-- split takes a text apart at the delimiter, and join puts it together.
use abscom.Prelude.{
  ℕ, zero, suc, ◌+◌, ◌≤◌, ◌≡◌, refl, sym, ap, ◌∙◌, Option, none, some, [], ◌∷◌, ◌++◌, arith,
  CString, take, drop, length, length-drop, Option-cases, inl, inr,
}
use abscom.Runtime.Values.Defs.{Value, Items, str_value, list_value, nil, cons}
use abscom.Runtime.Strings.Defs.{
  has_prefix, strstr, characters, split_loop, split_text, split, join_items, join,
}
use abscom.Runtime.Strings.Places.{strstr-IsPlace, strstr-take, strstr-nil}

abbrev pub or_empty : Option CString → CString
or_empty none = []
or_empty (some s) = s

module _ (F : Type 0) where
  join-characters : (s : CString) → join_items [] (characters {F = F} s) ≡ s
  unfolding characters join_items
  join-characters [] = refl
  join-characters (c ∷ []) = refl
  join-characters (c ∷ (d ∷ s)) = ap (λ r. c ∷ r) (join-characters (d ∷ s))

  -- The loop has a part at least.
  split_loop-first :
      (fuel : ℕ) (delimiter s : CString)
      → (x : Value F) × (xs : Items F) × (split_loop fuel delimiter s ≡ cons x xs)
  unfolding split_loop
  split_loop-first zero delimiter s = (_, _, refl)
  split_loop-first (suc fuel) delimiter s = elim (Option-cases (strstr s delimiter)) [
    | inl e ↦ (str_value s, nil, rw (split_loop, e) refl)
    | inr (n, e) ↦ (
      str_value (take n s),
      split_loop fuel delimiter (drop (n + length delimiter) s),
      rw (split_loop, e) refl,
    )
  ]

  join-cons :
      (delimiter text rest : CString) (items : Items F)
      → (x : Value F) × (xs : Items F) × (items ≡ cons x xs)
      → join_items delimiter items ≡ rest
      → join_items delimiter (cons (str_value text) items) ≡ text ++ (delimiter ++ rest)
  unfolding join_items
  join-cons delimiter text rest items (x, xs, e) h =
      rw (e) (ap (λ r. text ++ (delimiter ++ r)) (ap (join_items delimiter) (sym e) ∙ h))

  join-split_loop :
      (fuel : ℕ) (delimiter s : CString)
      → join_items delimiter (split_loop {F = F} fuel delimiter s) ≡ s
  unfolding split_loop join_items
  join-split_loop zero delimiter s = refl
  join-split_loop (suc fuel) delimiter s = elim (Option-cases (strstr s delimiter)) [
    | inl e ↦ rw (split_loop, e) refl
    | inr (n, e) ↦
        let rest = drop (n + length delimiter) s in
        rw (split_loop, e)
          (join-cons delimiter (take n s) rest (split_loop fuel delimiter rest)
              (split_loop-first fuel delimiter rest) (join-split_loop fuel delimiter rest)
            ∙ sym (strstr-IsPlace s delimiter n e))
  ]

  join-split_text :
      (delimiter s : CString) → join_items delimiter (split_text {F = F} s delimiter) ≡ s
  unfolding split_text join_items
  join-split_text [] [] = refl
  join-split_text [] (c ∷ s) = join-characters (c ∷ s)
  join-split_text (d ∷ delimiter) s = join-split_loop (length s) (d ∷ delimiter) s

-- Without a character there is one round.
split_loop-nil :
    {F : Type 0} (fuel d : ℕ) (delimiter : CString)
    → split_loop {F = F} fuel (d ∷ delimiter) [] ≡ cons (str_value []) nil
unfolding split_loop strstr has_prefix
split_loop-nil zero d delimiter = refl
split_loop-nil (suc fuel) d delimiter = refl

-- Any fuel that is not below the length of the text is enough: the loop ends before it is used up.
split_loop-enough :
    {F : Type 0} (fuel fuel' d : ℕ) (delimiter s : CString)
    → length s ≤ fuel
    → length s ≤ fuel'
    → split_loop {F = F} fuel (d ∷ delimiter) s ≡ split_loop fuel' (d ∷ delimiter) s
unfolding split_loop
split_loop-enough fuel fuel' d delimiter [] h h' =
    split_loop-nil fuel d delimiter ∙ sym (split_loop-nil fuel' d delimiter)
split_loop-enough zero fuel' d delimiter (c ∷ s) h h' = absurd (omega (arith, h))
split_loop-enough (suc fuel) zero d delimiter (c ∷ s) h h' = absurd (omega (arith, h'))
split_loop-enough (suc fuel) (suc fuel') d delimiter (c ∷ s) h h' =
    elim (Option-cases (strstr (c ∷ s) (d ∷ delimiter))) [
      | inl e ↦ rw (split_loop, e) refl
      | inr (n, e) ↦
          let shorter = length-drop (n + length (d ∷ delimiter)) (c ∷ s) in
          rw (split_loop, e)
            (ap (cons (str_value (take n (c ∷ s)))) (
              split_loop-enough fuel fuel' d delimiter (drop (n + length (d ∷ delimiter)) (c ∷ s))
                (omega (arith, h, shorter)) (omega (arith, h', shorter))))
    ]

-- All the items are texts with the property.
abbrev AllTexts : {F : Type 0} → (CString → Type 0) → Items F → Type 0
AllTexts P nil = Unit
AllTexts P (cons (str_value t) xs) = P t × AllTexts P xs
AllTexts P (cons x xs) = ⊥

-- No part has the delimiter in it. At an empty delimiter each part is one character, or the one part of an empty
-- text is empty.
abbrev pub IsParts : {F : Type 0} → CString → CString → Items F → Type 0
IsParts [] [] items = items ≡ cons (str_value []) nil
IsParts (c ∷ s) [] items = AllTexts (λ t. length t ≡ 1) items
IsParts s (d ∷ delimiter) items = AllTexts (λ t. strstr t (d ∷ delimiter) ≡ none) items

characters-AllTexts :
    (F : Type 0) (s : CString) → AllTexts {F = F} (λ t. length t ≡ 1) (characters s)
unfolding characters
characters-AllTexts F [] = tt
characters-AllTexts F (c ∷ s) = (refl, characters-AllTexts F s)

split_loop-AllTexts :
    (F : Type 0) (fuel d : ℕ) (delimiter s : CString)
    → length s ≤ fuel
    → AllTexts {F = F} (λ t. strstr t (d ∷ delimiter) ≡ none) (split_loop fuel (d ∷ delimiter) s)
unfolding split_loop
split_loop-AllTexts F zero d delimiter [] h = (strstr-nil d delimiter, tt)
split_loop-AllTexts F zero d delimiter (c ∷ s) h = absurd (omega (arith, h))
split_loop-AllTexts F (suc fuel) d delimiter s h = elim (Option-cases (strstr s (d ∷ delimiter))) [
  | inl e ↦ rw (split_loop, e) (e, tt)
  | inr (n, e) ↦
      let rest = drop (n + length (d ∷ delimiter)) s in
      let size = length-drop (n + length (d ∷ delimiter)) s in
      rw (split_loop, e)
        (
          strstr-take s d delimiter n e,
          split_loop-AllTexts F fuel d delimiter rest (omega (arith, h, size)),
        )
]

split_text-IsParts :
    (F : Type 0) (delimiter s : CString) → IsParts {F = F} s delimiter (split_text s delimiter)
unfolding split_text
split_text-IsParts F [] [] = refl
split_text-IsParts F [] (c ∷ s) = characters-AllTexts F (c ∷ s)
split_text-IsParts F (d ∷ delimiter) [] = split_loop-AllTexts F 0 d delimiter [] (omega arith)
split_text-IsParts F (d ∷ delimiter) (c ∷ s) =
    split_loop-AllTexts F (length (c ∷ s)) d delimiter (c ∷ s) (omega arith)

-- A text is split into parts in none of which the delimiter stands, and joining them at the delimiter gives the text
-- again. A NULL delimiter is the empty one, at which each part is one character; an empty text has one part then.
pub join-split :
    {F : Type 0} (s : CString) (delimiter : Option CString)
    → (items : Items F) × (split (str_value s) delimiter ≡ list_value items)
      × IsParts s (or_empty delimiter) items
      × (join (str_value (or_empty delimiter)) (list_value items) ≡ str_value s)
unfolding join split
join-split {F} s none =
    (split_text s [], refl, split_text-IsParts F [] s, ap str_value (join-split_text F [] s))
join-split {F} s (some delimiter) = (
  split_text s delimiter,
  refl,
  split_text-IsParts F delimiter s,
  ap str_value (join-split_text F delimiter s),
)
