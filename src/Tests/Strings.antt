-- ===== src/Tests/Strings.antt =====
-- The growable string at concrete states.
use abscom.Prelude.{ℕ, ◌≡◌, ◌≢◌, refl, true, some, List, [], ◌∷◌, All, arith}
use abscom.Prelude.Run.{done, fault, Status, success}
use abscom.GrowString.Defs.{GrowString, Heap, empty_string, append_cstr, append_fmt, reserve, c_str}
use abscom.GrowString.Growth.{IsValid}
use abscom.GrowString.Contents.{ReadsAs, append_cstr-ReadsAs}
use abscom.GrowString.Uninitialised.{reserve-fault}
use abscom.GrowString.Defs.{grow, write_text}
use abscom.Prelude.Bytes.{write_at}

abbrev heap : Heap
heap = record { grants = λ n. true; junk = λ i. 7 }

empty_string-IsValid : IsValid empty_string
empty_string-IsValid = record { block = refl; within = omega arith; bounded = omega arith }

abbrev word : List ℕ
word = 99 ∷ 97 ∷ 116 ∷ []

word_safe : All (λ c. c ≢ 0) word
word_safe = (
  λ e. absurd (omega (arith, e)),
  (λ e. absurd (omega (arith, e)), (λ e. absurd (omega (arith, e)), tt)),
)

append_cstr-ReadsAs_example :
    (st : Status) × (s' : GrowString) × (append_cstr heap (some empty_string) (some word)
      ≡ done (st, some s'))
    × ReadsAs empty_string word st s'
append_cstr-ReadsAs_example =
    append_cstr-ReadsAs heap empty_string word empty_string-IsValid tt word_safe (omega arith)
      (omega arith)

-- An empty text that is formatted to a string with no buffer: its terminator is written through NULL.
append_fmt_empty : append_fmt heap (some empty_string) (some (some [])) ≡ fault
unfolding append_fmt grow write_text write_at
append_fmt_empty = refl

reserve-fault_example :
    (s : GrowString) × (reserve heap (some empty_string) 4 ≡ (success, some s))
    × (c_str (some s) ≡ fault)
reserve-fault_example =
    reserve-fault heap 4 (omega arith) (omega arith) refl (λ i e. absurd (omega (arith, e)))
