-- ===== src/GrowString/Contents.antt =====
-- What the functions do to the text of a string.
use abscom.Prelude.{
  ℕ, suc, ◌+◌, ◌%◌, ◌^◌, ◌≤◌, ◌<◌, ◌≡◌, ◌≢◌, inl, inr, refl, ap, sym, ◌∙◌, false, none, some, List,
  [], ◌∷◌, ◌++◌, arith, ltb, ◌==◌, Option-cases, All, length, length-append, length-take, take,
}
use abscom.Prelude.Run.{done, ◌>>=◌, Status, success, failure, on_success}
use abscom.Prelude.Bytes.{write_at_lem, take-take_le, take-append_le}
use abscom.GrowString.Defs.{
  GrowString, Heap, block_of, grow, write_text, append_n, append_cstr, read_cstr, c_str,
}
use abscom.GrowString.Growth.{contents, IsValid, grow-Roomier}

-- The block starts with the text and a terminator.
abbrev pub IsTerminated : GrowString → Type 0
IsTerminated s = take (s.len + 1) (block_of s.buffer) ≡ contents s ++ 0 ∷ []

-- A valid string that holds a text.
pub record Holds (t : List ℕ) (s : GrowString) : Type 0 where
  pub valid : IsValid s
  pub text : contents s ≡ t
  pub terminated : IsTerminated s

-- How a call that adds `more` ended.
abbrev pub Added : List ℕ → GrowString → Status → GrowString → Type 0
Added more s success s' = Holds (contents s ++ more) s'
Added more s failure s' = s' ≡ s

-- The text in front of the terminator is the text that was there before it was written.
front_of_terminated :
    (n : ℕ) (b b' : List ℕ)
    → n ≤ length b
    → take (n + 1) b' ≡ take n b ++ 0 ∷ []
    → take n b' ≡ take n b
front_of_terminated n b b' h e =
    sym (take-take_le n (n + 1) b' (omega arith))
    ∙ ap (take n) e
    ∙ take-append_le n (take n b) (0 ∷ []) (omega (arith, length-take n b))
    ∙ take-take_le n n b (omega arith)

write_text-Holds :
    (s : GrowString) (b text : List ℕ)
    → IsValid s
    → s.buffer ≡ some b
    → s.len + length text ≤ s.cap
    → (s' : GrowString) × (write_text s text ≡ done (success, s')) × Holds (contents s ++ text) s'
unfolding write_text
write_text-Holds s b text v here room =
    let size : length b ≡ s.cap + 1 = rw here at v.block in
    let old : contents s ≡ take s.len b = rw here in
    let (b₁, run₁, size₁, front₁, _) = write_at_lem s.len text b (omega arith) in
    let n = s.len + length text in
    let (b₂, run₂, size₂, front₂, _) = write_at_lem n (0 ∷ []) b₁ (omega arith) in
    let kept : take n b₂ ≡ take n b₁ = front_of_terminated n b₁ b₂ (omega arith) front₂ in
    (
      record s { buffer = some b₂; len = n },
      rw (here, run₁, ◌>>=◌, run₂),
      record {
        valid = record { block = omega arith; within = room; bounded = v.bounded };
        text = kept ∙ front₁ ∙ ap (λ l. l ++ text) (sym old);
        terminated = front₂ ∙ ap (λ l. l ++ 0 ∷ []) (sym kept);
      },
    )

block_exists : (s : GrowString) → IsValid s → 0 < s.cap → (b : List ℕ) × (s.buffer ≡ some b)
block_exists s v pos = elim (Option-cases s.buffer) [
  | inl e ↦ absurd (omega (arith, block_none e))
  | inr (b, e) ↦ (b, e)
]
  where
    block_none : s.buffer ≡ none → s.cap ≡ 0
    block_none e = rw e at v.block

-- Growing, and then writing a text that is not empty.
grow_and_write :
    (h : Heap) (s : GrowString) (more : List ℕ) (need : ℕ)
    → IsValid s
    → 0 < length more
    → s.len + length more + 1 < 2 ^ 64
    → need ≡ s.len + length more
    → (st : Status) × (s' : GrowString) × ((grow h s need >>= λ r.
          on_success r (λ s₁. write_text s₁ more))
        ≡ done (st, s'))
      × Added more s st s'
grow_and_write h s more need v some_text fits exact =
    elim (grow-Roomier h s need v (omega arith) (omega arith)) [
      | inr run ↦ (failure, s, rw (run, ◌>>=◌), refl)
      | inl (s₁, run, r) ↦
          let (b, here) = block_exists s₁ r.valid (omega (arith, r.room)) in
          let (s', writes, held) =
            write_text-Holds s₁ b more r.valid here (omega (arith, r.len, r.room)) in
          (success, s', rw (run, ◌>>=◌) writes, rw r.text at held)
    ]

-- `append_n` of at least one byte to a valid string ends, without a write outside of the buffer: the
-- text is followed by the new bytes and a terminator, or the call fails and the string is unchanged.
append_n-Added :
    (h : Heap) (s : GrowString) (str : List ℕ) (n : ℕ)
    → IsValid s
    → 0 < n
    → n ≤ length str
    → s.len + n + 1 < 2 ^ 64
    → (st : Status) × (s' : GrowString) × (append_n h (some s) (some str) n ≡ done (st, some s'))
      × Added (take n str) s st s'
unfolding append_n
append_n-Added h s str n v pos readable fits =
    let size : length (take n str) ≡ n = omega (arith, length-take n str) in
    let (st, s', run, added) =
      grow_and_write h s (take n str) ((s.len + n) % 2 ^ 64) v (omega arith) (omega arith)
        (omega arith) in
    let test : (n == 0) ≡ false = ground arith in
    let test' : ltb (length str) n ≡ false = ground arith in
    (st, s', rw (test, test', run, ◌>>=◌), added)

-- A block that starts with a text without NUL bytes and a terminator reads as that text.
read_cstr_lem :
    (t b : List ℕ)
    → All (λ c. c ≢ 0) t
    → take (suc (length t)) b ≡ t ++ 0 ∷ []
    → read_cstr b ≡ done t
unfolding read_cstr
read_cstr_lem [] [] safe e = absurd (ground (arith, e))
read_cstr_lem (c ∷ t) [] safe e = absurd (ground (arith, e))
read_cstr_lem [] (x ∷ b) safe e = let z : x ≡ 0 = ground (arith, e) in rw z
read_cstr_lem (c ∷ t) (x ∷ b) (c_safe, safe) e =
    let z : x ≡ c = ground (arith, e) in
    let rest : take (suc (length t)) b ≡ t ++ 0 ∷ [] = ground (arith, e) in
    let test : (c == 0) ≡ false = ground (arith, c_safe) in
    rw (z, test, read_cstr_lem t b safe rest, ◌>>=◌)

-- A string that holds a text without NUL bytes reads as it.
c_str-Holds :
    (t : List ℕ) (s : GrowString) → All (λ c. c ≢ 0) t → Holds t s → c_str (some s) ≡ done t
unfolding c_str
c_str-Holds t s safe held = elim (Option-cases s.buffer) [
  | inl here ↦
      let e : take (s.len + 1) [] ≡ take s.len [] ++ 0 ∷ [] = rw here at held.terminated in
      let size : length (take (s.len + 1) []) ≡ length (take s.len [] ++ 0 ∷ []) = ap length e in
      absurd (
        omega (
          arith,
          size,
          length-take {A = ℕ} (s.len + 1) [],
          length-append {A = ℕ} (take s.len []) (0 ∷ []),
        ))
  | inr (b, here) ↦
      let e : take (s.len + 1) b ≡ take s.len b ++ 0 ∷ [] = rw here at held.terminated in
      let text : take s.len b ≡ t = rw here at held.text in
      let block : length b ≡ s.cap + 1 = rw here at held.valid.block in
      let size : s.len + 1 ≡ suc (length t) =
        omega (arith, ap length text, length-take s.len b, held.valid.within) in
      rw here
        (read_cstr_lem t b safe (ap (λ k. take k b) (sym size) ∙ e ∙ ap (λ u. u ++ 0 ∷ []) text))
]

All-append :
    (xs ys : List ℕ) → All (λ c. c ≢ 0) xs → All (λ c. c ≢ 0) ys → All (λ c. c ≢ 0) (xs ++ ys)
All-append [] ys h h' = h'
All-append (x ∷ xs) ys (hx, h) h' = (hx, All-append xs ys h h')

take-length : (xs : List ℕ) → take (length xs) xs ≡ xs
take-length [] = refl
take-length (x ∷ xs) = ap (◌∷◌ x) (take-length xs)

-- What a call that adds a text leaves to be read.
abbrev pub ReadsAs : GrowString → List ℕ → Status → GrowString → Type 0
ReadsAs s more success s' = c_str (some s') ≡ done (contents s ++ more)
ReadsAs s more failure s' = s' ≡ s

Added-ReadsAs :
    (s : GrowString) (more : List ℕ) (st : Status) (s' : GrowString)
    → All (λ c. c ≢ 0) (contents s ++ more)
    → Added more s st s'
    → ReadsAs s more st s'
Added-ReadsAs s more success s' safe held = c_str-Holds (contents s ++ more) s' safe held
Added-ReadsAs s more failure s' safe same = same

-- `append_cstr` of a text that is not empty to a valid string, neither of which has NUL bytes and which with the
-- terminator have fewer than 2 ^ 64 bytes together, ends without a write outside of the buffer: `c_str` then reads the old text followed by the new one,
-- or the call fails and the string is unchanged.
pub append_cstr-ReadsAs :
    (h : Heap) (s : GrowString) (str : List ℕ)
    → IsValid s
    → All (λ c. c ≢ 0) (contents s)
    → All (λ c. c ≢ 0) str
    → 0 < length str
    → s.len + length str + 1 < 2 ^ 64
    → (st : Status) × (s' : GrowString) × (append_cstr h (some s) (some str) ≡ done (st, some s'))
      × ReadsAs s str st s'
unfolding append_cstr
append_cstr-ReadsAs h s str v old new pos fits =
    let (st, s', run, added) = append_n-Added h s str (length str) v pos (omega arith) fits in
    let added' : Added str s st s' = rw (take-length str) at added in
    (st, s', run, Added-ReadsAs s str st s' (All-append (contents s) str old new) added')
