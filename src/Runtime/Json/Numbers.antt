-- ===== src/Runtime/Json/Numbers.antt =====
-- What parse_json_number reads from the text of an integer.
use abscom.Prelude.{
  ℕ, zero, suc, ◌+◌, ◌/◌, ◌%◌, ◌^◌, ◌≤◌, ◌<◌, ◌≡◌, refl, ap, true, false, ◌||◌, [], ◌∷◌, ◌++◌,
  arith, ◌==◌, CString, length, All, Bool-cases, inl, inr,
}
use abscom.Prelude.Int.{ℤ, pos, negsuc}
use abscom.Runtime.Values.Defs.{Floats, int_value}
use abscom.Runtime.Values.Text.{digits, decimal, long_text}
use abscom.Runtime.Values.Arith.{in_long}
use abscom.Runtime.Json.Defs.{
  is_digit, is_number_char, number_chars, has_char, number_value, parse_json_number,
}

abbrev pub AllDigits : CString → Type 0
AllDigits s = All (λ c. is_digit c ≡ true) s

digits-AllDigits : (fuel n : ℕ) (out : CString) → AllDigits out → AllDigits (digits fuel n out)
unfolding digits
digits-AllDigits zero n out h = h
digits-AllDigits (suc fuel) n out h = elim (Bool-cases (n == 0)) [
  | inl e ↦ rw (e) h
  | inr e ↦ rw (e) (digits-AllDigits fuel (n / 10) ((48 + n % 10) ∷ out) (ground arith, h))
]

-- A number below 10 ^ k has at most k digits.
length-digits :
    (k fuel n : ℕ) (out : CString) → n < 10 ^ k → length (digits fuel n out) ≤ length out + k
unfolding digits
length-digits k zero n out h = omega arith
length-digits zero (suc fuel) n out h =
    let e : (n == 0) ≡ true = ground (arith, h) in rw (e) (omega arith)
length-digits (suc k) (suc fuel) n out h = elim (Bool-cases (n == 0)) [
  | inl e ↦ rw (e) (omega arith)
  | inr e ↦ rw (e) (
      let step = length-digits k fuel (n / 10) ((48 + n % 10) ∷ out) (omega (arith, h)) in
      omega (arith, step))
]

digits-long : (fuel n : ℕ) (out : CString) → length out ≤ length (digits fuel n out)
unfolding digits
digits-long zero n out = omega arith
digits-long (suc fuel) n out = elim (Bool-cases (n == 0)) [
  | inl e ↦ rw (e) (omega arith)
  | inr e ↦
      rw (e) (let step = digits-long fuel (n / 10) ((48 + n % 10) ∷ out) in omega (arith, step))
]

pub decimal-AllDigits : (n : ℕ) → AllDigits (decimal n)
unfolding decimal
decimal-AllDigits n = elim (Bool-cases (n == 0)) [
  | inl e ↦ rw (e) (refl, tt)
  | inr e ↦ rw (e) (digits-AllDigits n n [] tt)
]

-- There is a digit at least.
digits-some : (fuel n : ℕ) → (suc n == 0) ≡ false → 1 ≤ length (digits (suc fuel) (suc n) [])
unfolding digits
digits-some fuel n e =
    rw (e)
      (let step = digits-long fuel (suc n / 10) ((48 + suc n % 10) ∷ []) in omega (arith, step))

decimal-digits : (n : ℕ) → (n == 0) ≡ false → decimal n ≡ digits n n []
unfolding decimal
decimal-digits n e = rw (e) refl

length-decimal : (n : ℕ) → n < 2 ^ 63 + 1 → (1 ≤ length (decimal n)) × (length (decimal n) ≤ 20)
unfolding decimal
length-decimal zero h = (omega arith, omega arith)
length-decimal (suc n) h =
    let e : (suc n == 0) ≡ false = ground arith in
    let some_digits = digits-some n n e in
    let few_digits = length-digits 20 (suc n) (suc n) [] (omega (arith, h)) in
    let same = ap length (decimal-digits (suc n) e) in
    (omega (arith, same, some_digits), omega (arith, same, few_digits))

-- Does no number go on in the text?
abbrev pub IsBoundary : CString → Type 0
IsBoundary [] = Unit
IsBoundary (c ∷ s) = is_number_char c ≡ false

abbrev NumberText : CString → Type 0
NumberText s = All (λ c. is_number_char c ≡ true) s

number_chars-append :
    (room : ℕ) (s rest : CString)
    → NumberText s
    → IsBoundary rest
    → length s < room
    → number_chars room (s ++ rest) ≡ (s, rest)
unfolding number_chars
number_chars-append zero s rest h b short = absurd (omega (arith, short))
number_chars-append (suc room) [] [] h b short = refl
number_chars-append (suc room) [] (c ∷ rest) h b short = rw (b) refl
number_chars-append (suc room) (c ∷ s) rest (h, hs) b short = rw (h) (
    ap (λ (r : CString × CString). (c ∷ r.0, r.1))
      (number_chars-append room s rest hs b (omega (arith, short))))

AllDigits-NumberText : (s : CString) → AllDigits s → NumberText s
unfolding is_number_char
AllDigits-NumberText [] h = tt
AllDigits-NumberText (c ∷ s) (h, hs) = (ground (arith, h), AllDigits-NumberText s hs)

has_char-no : (d : ℕ) (s : CString) → All (λ c. (c == d) ≡ false) s → has_char d s ≡ false
has_char-no d [] h = refl
has_char-no d (c ∷ s) (h, hs) = rw (h) (has_char-no d s hs)

digit-not : (d c : ℕ) → is_digit d ≡ false → is_digit c ≡ true → (c == d) ≡ false
digit-not d c n h = ground (arith, n, h)

AllDigits-not :
    (d : ℕ) (s : CString) → is_digit d ≡ false → AllDigits s → All (λ c. (c == d) ≡ false) s
AllDigits-not d [] n h = tt
AllDigits-not d (c ∷ s) n (h, hs) = (digit-not d c n h, AllDigits-not d s n hs)

-- A text of a sign or a digit, and then at most 20 digits.
abbrev pub IsInteger : CString → Type 0
IsInteger text =
    (c : ℕ) × (s : CString) × (text ≡ c ∷ s)
    × ((c == 45 || is_digit c) ≡ true)
    × AllDigits s
    × (length s < 21)

digits-IsInteger : (s : CString) → AllDigits s → 1 ≤ length s → length s ≤ 20 → IsInteger s
digits-IsInteger [] h some_digits few = absurd (omega (arith, some_digits))
digits-IsInteger (c ∷ s) (h, hs) some_digits few =
    (c, s, refl, ground (arith, h), hs, omega (arith, few))

pub long_text-IsInteger : (i : ℤ) → in_long i ≡ true → IsInteger (long_text i)
unfolding long_text
long_text-IsInteger (pos n) h =
    let (some_digits, few) = length-decimal n (ground (arith, h)) in
    digits-IsInteger (decimal n) (decimal-AllDigits n) some_digits few
long_text-IsInteger (negsuc n) h =
    let (some_digits, few) = length-decimal (suc n) (ground (arith, h)) in
    (45, decimal (suc n), refl, refl, decimal-AllDigits (suc n), omega (arith, few))

-- The first character of an integer is a part of a number, but no point and no `e`.
first_char :
    (c : ℕ)
    → (c == 45 || is_digit c) ≡ true
    → (is_number_char c ≡ true) × ((c == 46) ≡ false) × ((c == 101) ≡ false) × ((c == 69) ≡ false)
unfolding is_number_char
first_char c h = (ground (arith, h), ground (arith, h), ground (arith, h), ground (arith, h))

module _ {F : Type 0} (floats : Floats F) (atol : CString → ℤ) where
  number_value-IsInteger :
      (c : ℕ) (s : CString)
      → (c == 45 || is_digit c) ≡ true
      → AllDigits s
      → number_value floats atol (c ∷ s) ≡ int_value (atol (c ∷ s))
  unfolding number_value
  number_value-IsInteger c s first rest =
      let (_, no_point, no_e, no_E) = first_char c first in
      let no_point' = has_char-no 46 s (AllDigits-not 46 s refl rest) in
      let no_e' = has_char-no 101 s (AllDigits-not 101 s refl rest) in
      let no_E' = has_char-no 69 s (AllDigits-not 69 s refl rest) in
      rw (no_point, no_e, no_E, no_point', no_e', no_E') refl

  pub parse_json_number-IsInteger :
      (text rest : CString)
      → IsInteger text
      → IsBoundary rest
      → parse_json_number floats atol (text ++ rest) ≡ (int_value (atol text), rest)
  unfolding parse_json_number
  parse_json_number-IsInteger text rest (c, s, e, first, more, short) b =
      let chars =
        number_chars-append 63 (c ∷ s) rest ((first_char c first).0, AllDigits-NumberText s more) b
          (omega (arith, short)) in
      rw (e, chars) (ap (λ v. (v, rest)) (number_value-IsInteger c s first more))
