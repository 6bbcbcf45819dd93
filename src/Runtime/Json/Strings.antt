-- ===== src/Runtime/Json/Strings.antt =====
-- What parse_json_string reads from the text that json_escape writes.
use abscom.Prelude.{
  ℕ, ◌≡◌, refl, ap, ◌∙◌, Bool, true, false, ◌||◌, some, [], ◌∷◌, ◌++◌, arith, leb, ◌==◌,
  if◌then◌else◌, CString, Bool-cases, inl, inr, All,
}
use mathlib.Core.List.{append_assoc}
use abscom.Runtime.Json.Defs.{unescape, scan_string, read_string, close_string}
use abscom.Runtime.Json.Dump.{unicode_escape, escape, json_escape, quoted}

-- Does json_escape write the character as itself, or with one letter behind the backslash?
abbrev pub is_kept : ℕ → Bool
is_kept c = leb 32 c || c == 8 || c == 9 || c == 10 || c == 12 || c == 13

-- The text that is read for a text that was escaped.
abbrev pub reread : CString → CString
reread [] = []
reread (c ∷ s) = (if is_kept c then c ∷ [] else unicode_escape c) ++ reread s

-- one character more in front of what was read
abbrev pub in_front : CString → CString × CString → CString × CString
in_front text r = (text ++ r.0, r.1)

scan-plain :
    (c : ℕ) (t : CString)
    → (c == 34) ≡ false
    → (c == 92) ≡ false
    → scan_string false (c ∷ t) ≡ in_front (c ∷ []) (scan_string false t)
unfolding scan_string
scan-plain c t q b = rw (q, b) refl

scan-kept :
    (c : ℕ) (t : CString)
    → is_kept c ≡ true
    → scan_string false (escape c ++ t) ≡ in_front (c ∷ []) (scan_string false t)
unfolding escape scan_string unescape
scan-kept c t h = ground arith

scan-unicode :
    (c : ℕ) (t : CString)
    → is_kept c ≡ false
    → scan_string false (escape c ++ t) ≡ in_front (unicode_escape c) (scan_string false t)
unfolding escape scan_string unescape unicode_escape
scan-unicode c t h = ground arith

scan-escape :
    (c : ℕ) (t : CString)
    → scan_string false (escape c ++ t)
      ≡ in_front (if is_kept c then c ∷ [] else unicode_escape c) (scan_string false t)
scan-escape c t = elim (Bool-cases (is_kept c)) [
  | inl kept ↦ rw (kept) (scan-kept c t kept)
  | inr lost ↦ rw (lost) (scan-unicode c t lost)
]

scan-json_escape :
    (s rest : CString) → scan_string false (json_escape s ++ 34 ∷ rest) ≡ (reread s, 34 ∷ rest)
unfolding json_escape scan_string
scan-json_escape [] rest = refl
scan-json_escape (c ∷ s) rest =
    ap (scan_string false) (append_assoc (escape c) (json_escape s) (34 ∷ rest))
    ∙ scan-escape c (json_escape s ++ 34 ∷ rest)
    ∙ ap (in_front (if is_kept c then c ∷ [] else unicode_escape c)) (scan-json_escape s rest)

-- Reading the quoted text gives the text, with `\u` and four digits in place of every character below 32
-- that has no letter of its own, and leaves what stands behind the closing quote.
pub read_string-quoted : (s rest : CString) → read_string (quoted s ++ rest) ≡ some (reread s, rest)
unfolding read_string quoted
read_string-quoted s rest =
    ap (λ r. some (close_string r))
      (ap (scan_string false) (append_assoc (json_escape s) (34 ∷ []) rest)
        ∙ scan-json_escape s rest)

-- A text without such characters is read as it is.
pub reread-kept : (s : CString) → All (λ c. is_kept c ≡ true) s → reread s ≡ s
reread-kept [] h = refl
reread-kept (c ∷ s) (h, hs) = rw (h) (ap (λ r. c ∷ r) (reread-kept s hs))
