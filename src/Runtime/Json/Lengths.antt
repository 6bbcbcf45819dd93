-- ===== src/Runtime/Json/Lengths.antt =====
-- What is left of the text is not longer behind a part of the reader than in front of it.
use abscom.Prelude.{
  ℕ, zero, suc, ◌≤◌, ◌≡◌, refl, Bool, true, false, none, some, [], ◌∷◌, arith, ◌==◌, if◌then◌else◌,
  CString, drop, length, length-drop, Bool-cases, inl, inr, ◌⊎◌, take, codes, str_eq,
}
use abscom.Prelude.Int.{ℤ}
use abscom.Runtime.Values.Defs.{Floats}
use abscom.Runtime.Json.Defs.{
  is_space, json_skip_ws, starts, scan_string, close_string, read_string, number_chars,
  is_number_char, parse_json_number, parse_json_keyword,
}

pub length-json_skip_ws : (s : CString) → length (json_skip_ws s) ≤ length s
unfolding json_skip_ws
length-json_skip_ws [] = omega arith
length-json_skip_ws (c ∷ s) =
    let rest = length-json_skip_ws s in
    elim (Bool-cases (is_space c)) [
      | inl e ↦ rw (e) (omega (arith, rest))
      | inr e ↦ rw (e) (omega arith)
    ]

-- A text that starts with a character is longer than what stands behind it.
pub starts-shorter : (c : ℕ) (s : CString) → starts c s ≡ true → suc (length (drop 1 s)) ≤ length s
starts-shorter c [] h = absurd cc
starts-shorter c (d ∷ s) h = omega arith

if-length :
    {A : Type 0} (b : Bool) (x y : A × CString) (n : ℕ)
    → length x.1 ≤ n
    → length y.1 ≤ n
    → length (if b then x else y).1 ≤ n
if-length true x y n h k = h
if-length false x y n h k = k

length-scan_string : (escaped : Bool) (s : CString) → length (scan_string escaped s).1 ≤ length s
unfolding scan_string
length-scan_string escaped [] = omega arith
length-scan_string true (c ∷ s) = let rest = length-scan_string false s in omega (arith, rest)
length-scan_string false (c ∷ s) =
    let rest = length-scan_string (c == 92) s in
    if-length (c == 34) _ _ (length (c ∷ s)) (omega arith)
      (if-length (c == 92) _ _ (length (c ∷ s)) (omega (arith, rest)) (omega (arith, rest)))

length-number_chars : (n : ℕ) (s : CString) → length (number_chars n s).1 ≤ length s
unfolding number_chars
length-number_chars zero s = omega arith
length-number_chars (suc n) [] = omega arith
length-number_chars (suc n) (c ∷ s) =
    let rest = length-number_chars n s in
    elim (Bool-cases (is_number_char c)) [
      | inl e ↦ rw (e) (omega (arith, rest))
      | inr e ↦ rw (e) (omega arith)
    ]

module _ {F : Type 0} (fl : Floats F) (atol : CString → ℤ) where
  pub length-parse_json_number : (s : CString) → length (parse_json_number fl atol s).1 ≤ length s
  unfolding parse_json_number
  length-parse_json_number s = length-number_chars 63 s

drop-le : (n : ℕ) (s : CString) → length (drop n s) ≤ length s
drop-le n s = let size = length-drop n s in omega (arith, size)

pub length-parse_json_keyword :
    (F : Type 0) (s : CString) → length (parse_json_keyword {F = F} s).1 ≤ length s
unfolding parse_json_keyword
length-parse_json_keyword F s =
    if-length (str_eq (take 4 s) (codes "true")) _ _ (length s) (drop-le 4 s) (
      if-length (str_eq (take 5 s) (codes "false")) _ _ (length s) (drop-le 5 s)
        (if-length (str_eq (take 4 s) (codes "null")) _ _ (length s) (drop-le 4 s) (omega arith)))

close_string-le : (r : CString × CString) → length (close_string r).1 ≤ length r.1
close_string-le r = elim (Bool-cases (starts 34 r.1)) [
  | inl e ↦ rw (e) (drop-le 1 r.1)
  | inr e ↦ rw (e) (omega arith)
]

pub length-read_string :
    (s : CString)
    → (read_string s ≡ none)
      ⊎ ((r : CString × CString) × (read_string s ≡ some r) × (suc (length r.1) ≤ length s))
unfolding read_string
length-read_string s = elim (Bool-cases (starts 34 s)) [
  | inl e ↦
      let scanned = length-scan_string false (drop 1 s) in
      let closed = close_string-le (scan_string false (drop 1 s)) in
      let shorter = starts-shorter 34 s e in
      rw (e) (inr (_, refl, omega (arith, scanned, closed, shorter)))
  | inr e ↦ rw (e) (inl refl)
]
