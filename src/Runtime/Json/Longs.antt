-- ===== src/Runtime/Json/Longs.antt =====
-- A reader of decimal integers that does what the JSON reader relies on.
use abscom.Prelude.{
  ℕ, zero, suc, ◌+◌, ◌-◌, ◌*◌, ◌/◌, ◌%◌, ◌≤◌, ◌≡◌, refl, ap, ◌∙◌, false, [], ◌∷◌, arith, ◌==◌,
  if◌then◌else◌, CString, Bool-cases, inl, inr,
}
use abscom.Prelude.Int.{ℤ, pos, negsuc}
use abscom.Runtime.Values.Text.{digits, decimal, long_text}
use abscom.Runtime.Json.Numbers.{AllDigits, decimal-AllDigits}
use abscom.Runtime.Json.Reading.{ReadsLongs}

abbrev value_of : ℕ → CString → ℕ
value_of n [] = n
value_of n (c ∷ s) = value_of (n * 10 + (c - 48)) s

abbrev negative : ℕ → ℤ
negative zero = pos 0
negative (suc n) = negsuc n

unfoldable pub read_long : CString → ℤ
read_long [] = pos 0
read_long (c ∷ s) = if c == 45 then negative (value_of 0 s) else pos (value_of 0 (c ∷ s))

value_of-digits :
    (fuel n : ℕ) (out : CString) → n ≤ fuel → value_of 0 (digits fuel n out) ≡ value_of n out
unfolding digits
value_of-digits zero n out h = ap (λ k. value_of k out) (omega (arith, h))
value_of-digits (suc fuel) n out h = elim (Bool-cases (n == 0)) [
  | inl e ↦ let z : 0 ≡ n = ground (arith, e) in rw (e) (ap (λ k. value_of k out) z)
  | inr e ↦
      let back : n / 10 * 10 + (48 + n % 10 - 48) ≡ n = omega arith in
      rw (e) (
        value_of-digits fuel (n / 10) ((48 + n % 10) ∷ out) (ground (arith, e, h))
        ∙ ap (λ k. value_of k out) back)
]

value_of-decimal : (n : ℕ) → value_of 0 (decimal n) ≡ n
unfolding decimal
value_of-decimal n = elim (Bool-cases (n == 0)) [
  | inl e ↦ let z : 0 ≡ n = ground (arith, e) in rw (e) z
  | inr e ↦ rw (e) (value_of-digits n n [] (omega arith))
]

read_long-digits : (s : CString) → AllDigits s → read_long s ≡ pos (value_of 0 s)
unfolding read_long
read_long-digits [] h = refl
read_long-digits (c ∷ s) (h, hs) = let e : (c == 45) ≡ false = ground (arith, h) in rw (e) refl

pub read_long-ReadsLongs : ReadsLongs read_long
unfolding long_text read_long
read_long-ReadsLongs (pos n) h =
    read_long-digits (decimal n) (decimal-AllDigits n) ∙ ap pos (value_of-decimal n)
read_long-ReadsLongs (negsuc n) h = ap negative (value_of-decimal (suc n))
