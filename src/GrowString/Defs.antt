-- ===== src/GrowString/Defs.antt =====
-- The functions of src/abs_string.c. `data` is a block of bytes, or NULL; a call on a NULL string is
-- a call at `none`. `vsnprintf` is a parameter: the text that it formats, or an error.
use abscom.Prelude.{
  ℕ, zero, suc, ◌+◌, ◌-◌, ◌*◌, ◌/◌, ◌%◌, ◌^◌, Bool, Option, none, some, List, [], ◌∷◌, ltb, leb,
  ◌==◌, if◌then◌else◌, CString, length, take,
}
use abscom.Prelude.Run.{Run, done, fault, ◌>>=◌, Status, success, failure, on_success}
use abscom.Prelude.Bytes.{write_at, realloc}

pub record GrowString : Type 0 where
  pub buffer : Option (List ℕ)
  pub len : ℕ
  pub cap : ℕ

-- What `realloc` answers, and the bytes that it does not initialise.
pub record Heap : Type 0 where
  pub grants : ℕ → Bool
  pub junk : ℕ → ℕ

abbrev pub size_mod : ℕ
size_mod = 2 ^ 64

-- The bytes behind a pointer; none behind NULL.
abbrev pub block_of : Option (List ℕ) → List ℕ
block_of none = []
block_of (some b) = b

abbrev pub empty_string : GrowString
empty_string = record { buffer = none; len = 0; cap = 0 }

-- the loop of abs_string_grow
unfoldable pub grow_cap : ℕ → ℕ → ℕ → Run ℕ
grow_cap zero new_cap need_len = fault
grow_cap (suc fuel) new_cap need_len =
    let next = grow_cap fuel (new_cap * 2) need_len in
    if ltb new_cap need_len
    then (if ltb ((size_mod - 1) / 2) new_cap then done need_len else next)
    else done new_cap

unfoldable pub resize_buffer : Heap → GrowString → ℕ → Status × GrowString
resize_buffer h s new_cap =
    elim (realloc h.grants h.junk (block_of s.buffer) ((new_cap + 1) % size_mod)) [
      | none ↦ (failure, s)
      | some b ↦ (success, record s { buffer = some b; cap = new_cap })
    ]

unfoldable pub grow : Heap → GrowString → ℕ → Run (Status × GrowString)
unfolding resize_buffer
grow h s need_len = if leb need_len s.cap then done (success, s) else (do
  new_cap ← grow_cap 65 (if s.cap == 0 then 16 else s.cap) need_len
  done (resize_buffer h s new_cap))

-- `memcpy` to the end of the text, the new length, and the terminator
unfoldable pub write_text : GrowString → List ℕ → Run (Status × GrowString)
write_text s text = do
  b ← write_at s.len text (block_of s.buffer)
  let len = s.len + length text
  b' ← write_at len (0 ∷ []) b
  done (success, record s { buffer = some b'; len = len })

-- `str` is the memory behind the argument, of which `n` bytes are read.
unfoldable pub append_n :
    Heap → Option GrowString → Option (List ℕ) → ℕ → Run (Status × Option GrowString)
unfolding write_text
append_n h none str n = done (failure, none)
append_n h (some s) none n = if n == 0 then done (success, some s) else done (failure, some s)
append_n h (some s) (some str) n =
    if n == 0 then done (success, some s) else if ltb (length str) n then fault else (do
      (st, s') ← do
        r ← grow h s ((s.len + n) % size_mod)
        on_success r λ s₁. write_text s₁ (take n str)
      done (st, some s'))

unfoldable pub init : Option GrowString → Status × Option GrowString
init none = (failure, none)
init (some s) = (success, some empty_string)

unfoldable pub init_n :
    Heap → Option GrowString → Option (List ℕ) → ℕ → Run (Status × Option GrowString)
unfolding append_n
init_n h none str n = done (failure, none)
init_n h (some s) none n =
    if n == 0 then done (success, some empty_string) else done (failure, some s)
init_n h (some s) (some str) n =
    if n == 0
    then done (success, some empty_string)
    else append_n h (some empty_string) (some str) n

-- The number of bytes of a C string; 0 for NULL.
abbrev pub strlen_or_zero : Option CString → ℕ
strlen_or_zero none = 0
strlen_or_zero (some str) = length str

unfoldable pub append_cstr :
    Heap → Option GrowString → Option CString → Run (Status × Option GrowString)
unfolding append_n
append_cstr h s str = append_n h s str (strlen_or_zero str)

unfoldable pub init_cstr :
    Heap → Option GrowString → Option CString → Run (Status × Option GrowString)
unfolding init_n
init_cstr h s str = init_n h s str (strlen_or_zero str)

unfoldable pub append_char : Heap → Option GrowString → ℕ → Run (Status × Option GrowString)
unfolding append_n
append_char h s c = append_n h s (some (c ∷ [])) 1

unfoldable pub destroy : Option GrowString → Option GrowString
destroy none = none
destroy (some s) = some empty_string

unfoldable pub clear : Option GrowString → Run (Option GrowString)
clear none = done none
clear (some s) = elim s.buffer [
  | none ↦ done (some (record s { len = 0 }))
  | some b ↦ do b' ← write_at 0 (0 ∷ []) b; done (some (record s { buffer = some b'; len = 0 }))
]

unfoldable pub set_cstr :
    Heap → Option GrowString → Option CString → Run (Status × Option GrowString)
unfolding clear append_cstr
set_cstr h s str = do s' ← clear s; append_cstr h s' str

unfoldable pub reserve : Heap → Option GrowString → ℕ → Status × Option GrowString
unfolding resize_buffer
reserve h none cap = (failure, none)
reserve h (some s) cap =
    if leb cap s.cap
    then (success, some s)
    else (let (st, s') = resize_buffer h s cap in (st, some s'))

unfoldable pub shrink_to_fit : Heap → Option GrowString → Status × Option GrowString
unfolding resize_buffer
shrink_to_fit h none = (failure, none)
shrink_to_fit h (some s) = elim s.buffer [
  | none ↦ (success, some s)
  | some b ↦
      if ltb s.len s.cap
      then (let (st, s') = resize_buffer h s s.len in (st, some s'))
      else (success, some s)
]

-- `formatted` is what `vsnprintf` writes for the format and its arguments: none is a negative result.
unfoldable pub append_fmt :
    Heap → Option GrowString → Option (Option (List ℕ)) → Run (Status × Option GrowString)
append_fmt h none fmt = done (failure, none)
append_fmt h (some s) none = done (failure, some s)
append_fmt h (some s) (some none) = done (failure, some s)
append_fmt h (some s) (some (some formatted)) = do
  (st, s') ← do
    r ← grow h s ((s.len + length formatted) % size_mod)
    on_success r λ s₁. write_text s₁ formatted
  done (st, some s')

-- The bytes before the first NUL; a block with no NUL is read past its end.
unfoldable pub read_cstr : List ℕ → Run CString
read_cstr [] = fault
read_cstr (c ∷ b) =
    let rest = read_cstr b >>= (λ s. done (c ∷ s)) in if c == 0 then done [] else rest

unfoldable pub c_str : Option GrowString → Run CString
unfolding read_cstr
c_str none = done []
c_str (some s) = elim s.buffer [ none ↦ done [] | some b ↦ read_cstr b ]

unfoldable pub len : Option GrowString → ℕ
len none = 0
len (some s) = s.len

-- The buffer goes to the caller.
unfoldable pub take_buffer : Option GrowString → Option (List ℕ) × Option GrowString
take_buffer none = (none, none)
take_buffer (some s) = (s.buffer, some empty_string)
