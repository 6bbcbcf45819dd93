-- ===== src/Ws/Defs.antt =====
-- ws_encode_frame, ws_decode_frame, ws_read_full and ws_recv of src/abs_ws.c. A buffer is its capacity
-- and the bytes written to it; a `char` is the number of its byte. `x & 0xFF`
-- is `x % 256`, `x & 0x7F` is `x % 128`, and `x >> (8 * n)` is `x / 256 ^ n`.
use abscom.Prelude.{
  ℕ, zero, suc, ◌+◌, ◌*◌, ◌/◌, ◌%◌, ◌^◌, Bool, ◌&&◌, ◌||◌, Option, none, some, List, [], ◌∷◌, ◌++◌,
  ltb, leb, ◌==◌, if◌then◌else◌, CString, length, take, drop, get_or, bit_xor,
}

unfoldable pub header_size : ℕ → ℕ
header_size len = if leb len 125 then 2 else if leb len 65535 then 4 else 10

-- out[2 + i] = (L >> (8 * (7 - i))) & 0xFF, for the last `n` of the values of i
unfoldable pub length_bytes : ℕ → ℕ → List ℕ
length_bytes zero len = []
length_bytes (suc n) len = len / 256 ^ n % 256 ∷ length_bytes n len

-- the bytes in front of the message
unfoldable pub header : ℕ → List ℕ
unfolding length_bytes
header len =
    if leb len 125
    then 129 ∷ len ∷ []
    else if leb len 65535
    then 129 ∷ 126 ∷ len / 256 % 256 ∷ len % 256 ∷ []
    else 129 ∷ 127 ∷ length_bytes 8 len

-- The bytes written to a buffer of `cap` bytes: none is the result 0, with nothing written.
unfoldable pub encode_frame : ℕ → Option CString → Option (List ℕ)
unfolding header header_size
encode_frame cap none = none
encode_frame cap (some msg) =
    let len = length msg in
    if ltb cap (header_size len + len) then none else some (header len ++ msg)

-- len = (len << 8) | p[2 + i], for the bytes in turn; `|` adds, since the low eight bits are 0
unfoldable pub read_length : List ℕ → ℕ → ℕ
read_length [] len = len
read_length (b ∷ bytes) len = read_length bytes (len * 256 % 2 ^ 64 + b)

-- Where the payload length stands: its value and the offset behind it.
unfoldable pub frame_length : List ℕ → ℕ → Option (ℕ × ℕ)
unfolding read_length
frame_length buf second =
    let short = second % 128 in
    if short == 126
    then (if ltb (length buf) 4 then none else some (get_or buf 2 0 * 256 + get_or buf 3 0, 4))
    else if short == 127
    then (if ltb (length buf) 10 then none else some (read_length (take 8 (drop 2 buf)) 0, 10))
    else some (short, 2)

-- out[i] = p[i] ^ mask[i % 4]
unfoldable pub unmask : ℕ → List ℕ → List ℕ → List ℕ
unmask i mask [] = []
unmask i mask (b ∷ bytes) = bit_xor b (get_or mask (i % 4) 0) ∷ unmask (i + 1) mask bytes

-- The high bit of the second byte: (p[1] & 0x80) != 0.
unfoldable pub is_masked : ℕ → Bool
is_masked second = second / 128 % 2 == 1

unfoldable pub payload : List ℕ → ℕ → Bool → ℕ → ℕ → Option (List ℕ)
unfolding unmask
payload buf out_cap masked len off =
    let start = if masked then off + 4 else off in
    if masked && ltb (length buf) (off + 4)
    then none
    else if ltb out_cap len || ltb (length buf) ((start + len) % 2 ^ 64)
    then none
    else (let body = take len (drop start buf) in
        some (if masked then unmask 0 (take 4 (drop off buf)) body else body))

-- The message written to a buffer of `out_cap` bytes: none is the result -1.
unfoldable pub decode_frame : Option (List ℕ) → ℕ → Option (List ℕ)
decode_frame none out_cap = none
decode_frame (some buf) out_cap =
    if ltb (length buf) 2
    then none
    else (let second = get_or buf 1 0 in
        elim (frame_length buf second) [
          | none ↦ none
          | some (len, off) ↦ payload buf out_cap (is_masked second) len off
        ])
