-- ===== src/Regex/Finding.antt =====
-- What re_findall finds, one match behind the other.
use abscom.Prelude.{
  ℕ, ◌<◌, ◌≡◌, none, some, List, [], ◌∷◌, ◌++◌, ◌==◌, if◌then◌else◌, CString, length,
}
use abscom.Regex.Longest.{Matches, IsLongest}

-- The pattern behind a `^` at its start.
abbrev pub without_anchor : List ℕ → List ℕ
without_anchor [] = []
without_anchor (c ∷ regexp) = if c == 94 then regexp else c ∷ regexp

-- `Finds regexp text found`: going through the text from the left, `found` are the longest matches. Behind a match the
-- search goes on, behind an empty one with the next byte.
pub data Finds (regexp : List ℕ) : List ℕ → List CString → Type 0 where
  text_end : Finds regexp [] []
  skip :
      (x : ℕ) (text : List ℕ) (found : List CString)
      → IsLongest (Matches regexp (x ∷ text)) none
      → Finds regexp text found
      → Finds regexp (x ∷ text) found
  empty_match :
      (x : ℕ) (text : List ℕ) (found : List CString)
      → IsLongest (Matches regexp (x ∷ text)) (some 0)
      → Finds regexp text found
      → Finds regexp (x ∷ text) ([] ∷ found)
  longest_match :
      (text m rest : List ℕ) (found : List CString)
      → text ≡ m ++ rest
      → 0 < length m
      → IsLongest (Matches regexp text) (some (length m))
      → Finds regexp rest found
      → Finds regexp text (m ∷ found)
