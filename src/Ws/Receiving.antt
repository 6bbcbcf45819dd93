-- ===== src/Ws/Receiving.antt =====
-- ws_read_full and ws_recv of src/abs_ws.c. The socket is what each call of recv delivers: a list of
-- chunks, of which a call takes one, or as much of it as was asked for. An empty chunk, and the end of
-- the list, are a result of 0 or less.
use abscom.Prelude.{
  ℕ, zero, suc, ◌+◌, ◌-◌, ◌%◌, ◌^◌, Bool, Option, none, some, List, [], ◌∷◌, ◌++◌, ltb, leb, ◌==◌,
  if◌then◌else◌, CString, length, take, drop, get_or,
}
use abscom.Ws.Defs.{read_length, unmask, is_masked}

-- A call of recv for at most `want` bytes: the bytes, and what is left of the chunk.
unfoldable pub recv : ℕ → List (List ℕ) → List ℕ × List (List ℕ)
recv want [] = ([], [])
recv want (chunk ∷ chunks) =
    if leb (length chunk) want then (chunk, chunks) else (take want chunk, drop want chunk ∷ chunks)

-- Each call delivers a byte at least, so `len` calls are enough.
unfoldable pub read_full : ℕ → ℕ → List (List ℕ) → Option (List ℕ × List (List ℕ))
read_full fuel zero chunks = some ([], chunks)
read_full zero (suc len) chunks = none
read_full (suc fuel) (suc len) chunks =
    let (bytes, chunks') = recv (suc len) chunks in
    let rest = read_full fuel (suc len - length bytes) chunks' in
    if length bytes == 0
    then none
    else elim rest [ none ↦ none | some (more, chunks'') ↦ some (bytes ++ more, chunks'') ]

-- What ws_recv returns: None, an error value, or the string.
pub data Received : Type 0 where
  nothing too_large out_of_memory : Received
  message : CString → Received

-- The bytes before the first NUL, which are those that abs_new_str copies.
unfoldable pub before_nul : List ℕ → CString
before_nul [] = []
before_nul (c ∷ bytes) = let rest = before_nul bytes in if c == 0 then [] else c ∷ rest

unfoldable pub extra_of : ℕ → ℕ
extra_of short = if short == 126 then 2 else if short == 127 then 8 else 0

unfoldable pub receive_payload : (ℕ → Bool) → Bool → List ℕ → ℕ → List (List ℕ) → Received
receive_payload grants masked mask len chunks =
    if ltb (2 ^ 24) len
    then too_large
    else if grants (len + 1)
    then elim (read_full len len chunks) [
      | none ↦ nothing
      | some (body, _) ↦ message (before_nul (if masked then unmask 0 mask body else body))
    ]
    else out_of_memory

unfoldable pub receive_masked : (ℕ → Bool) → Bool → ℕ → List (List ℕ) → Received
receive_masked grants masked len chunks =
    if masked
    then elim (read_full 4 4 chunks) [
      | none ↦ nothing
      | some (mask, chunks') ↦ receive_payload grants masked mask len chunks'
    ]
    else receive_payload grants masked [] len chunks

unfoldable pub ws_recv : (ℕ → Bool) → List (List ℕ) → Received
ws_recv grants chunks = elim (read_full 2 2 chunks) [
  | none ↦ nothing
  | some (hdr, chunks') ↦
      let second = get_or hdr 1 0 in
      let extra = extra_of (second % 128) in
      if extra == 0
      then receive_masked grants (is_masked second) (second % 128) chunks'
      else elim (read_full extra extra chunks') [
        | none ↦ nothing
        | some (ext, chunks'') ↦
            receive_masked grants (is_masked second) (read_length ext 0) chunks''
      ]
]

-- Bytes that a socket delivers in one piece or in many, with no end between.
abbrev pub joined : List (List ℕ) → List ℕ
joined [] = []
joined (chunk ∷ chunks) = chunk ++ joined chunks
