-- ===== src/Runtime/Json/Ends.antt =====
-- Runs of the JSON reader that end with a value.
use abscom.Prelude.{
  ◌≢◌, ℕ, suc, ◌≤◌, ◌≡◌, refl, Bool, true, false, [], ◌∷◌, arith, CString, drop, length, inl, inr,
}
use abscom.Prelude.Run.{done, ◌>>=◌}
use abscom.Runtime.Values.Defs.{Value}
use abscom.Runtime.Json.Defs.{
  Start, at_end, at_string, at_list, at_dict, at_number, at_keyword, start_of, json_skip_ws, starts,
  read_string, string_result,
}
use abscom.Runtime.Json.Parse.{Parsed}
use abscom.Runtime.Json.Lengths.{length-json_skip_ws, starts-shorter, length-read_string}

-- The run ends with a value, and what it leaves has no more than n characters.
abbrev pub Ends : {F : Type 0} → Parsed F → ℕ → Type 0
Ends {F = F} run n = (v : Value F) × (t : CString) × (run ≡ done (v, t)) × (length t ≤ n)

module _ {F : Type 0} where
  pub Ends-done : (r : Value F × CString) (n : ℕ) → length r.1 ≤ n → Ends (done r) n
  Ends-done r n h = (r.0, r.1, refl, h)

  pub Ends-le : (run : Parsed F) (n m : ℕ) → Ends run n → n ≤ m → Ends run m
  Ends-le run n m (v, t, e, h) le = (v, t, e, omega (arith, h, le))

  pub Ends-bind :
      (run : Parsed F) (f : Value F × CString → Parsed F) (n m : ℕ)
      → Ends run n
      → ((v : Value F) (t : CString) → length t ≤ n → Ends (f (v, t)) m)
      → Ends (run >>= f) m
  Ends-bind run f n m (v, t, e, h) next = rw (e) (next v t h)

  pub Ends-if :
      (b : Bool) (x y : Parsed F) (n : ℕ)
      → (b ≡ true → Ends x n)
      → (b ≡ false → Ends y n)
      → Ends (elim b [ true ↦ x | false ↦ y ]) n
  Ends-if true x y n h k = h refl
  Ends-if false x y n h k = k refl

  pub Ends-start :
      (start : Start) (empty text items fields number keyword : Parsed F) (n : ℕ)
      → Ends empty n
      → Ends text n
      → (start ≡ at_list → Ends items n)
      → (start ≡ at_dict → Ends fields n)
      → Ends number n
      → Ends keyword n
      → Ends
          (elim start [
            | at_end ↦ empty
            | at_string ↦ text
            | at_list ↦ items
            | at_dict ↦ fields
            | at_number ↦ number
            | at_keyword ↦ keyword
          ])
          n
  Ends-start at_end empty text items fields number keyword n e t i f m k = e
  Ends-start at_string empty text items fields number keyword n e t i f m k = t
  Ends-start at_list empty text items fields number keyword n e t i f m k = i refl
  Ends-start at_dict empty text items fields number keyword n e t i f m k = f refl
  Ends-start at_number empty text items fields number keyword n e t i f m k = m
  Ends-start at_keyword empty text items fields number keyword n e t i f m k = k

  pub string_result-Ends :
      (s : CString) → Ends (done (string_result {F = F} (read_string s) s)) (length s)
  unfolding string_result
  string_result-Ends s = elim (length-read_string s) [
    | inl e ↦ rw (e) (Ends-done _ (length s) (omega arith))
    | inr (r, e, h) ↦ rw (e) (Ends-done _ (length s) (omega (arith, h)))
  ]

-- behind a separator, and the spaces around it
pub behind_char :
    (c : ℕ) (s : CString)
    → starts c (json_skip_ws s) ≡ true
    → suc (length (json_skip_ws (drop 1 (json_skip_ws s)))) ≤ length s
behind_char c s e =
    let before = length-json_skip_ws s in
    let shorter = starts-shorter c (json_skip_ws s) e in
    let behind = length-json_skip_ws (drop 1 (json_skip_ws s)) in
    omega (arith, before, shorter, behind)

-- A text that is not at its end has a first character.
pub start_shorter : (t : CString) → start_of t ≢ at_end → suc (length (drop 1 t)) ≤ length t
unfolding start_of
start_shorter [] h = absurd (h refl)
start_shorter (c ∷ t) h = omega arith

pub drop_one : (s : CString) (n : ℕ) → length s ≤ n → length (drop 1 s) ≤ n
drop_one [] n h = h
drop_one (c ∷ s) n h = omega (arith, h)
