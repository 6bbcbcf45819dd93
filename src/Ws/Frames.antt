-- ===== src/Ws/Frames.antt =====
-- What decoding makes of an encoded frame.
use native.Mathlib.Nat.{div-div-eq-div-mul, pow-suc, div-le_self, div-one}
use mathlib.Core.Path.{subst}
use abscom.Prelude.{
  ℕ, zero, suc, ◌+◌, ◌*◌, ◌/◌, ◌%◌, ◌^◌, ◌≤◌, ◌<◌, ◌≡◌, refl, sym, ap, ◌∙◌, true, false, some, List,
  [], ◌∷◌, ◌++◌, arith, ltb, leb, length, length-append, take, drop, get_or, dec_lt,
}
use abscom.Prelude.Bytes.{drop-length_append, take-length_append}
use abscom.Ws.Defs.{
  header, header_size, length_bytes, encode_frame, decode_frame, frame_length, read_length,
  is_masked, payload,
}

-- The bytes of a length read back as it.
read_length-length_bytes :
    (n len : ℕ) → len < 2 ^ 64 → read_length (length_bytes n len) (len / 256 ^ n) ≡ len
unfolding read_length length_bytes
read_length-length_bytes zero len h = div-one len
read_length-length_bytes (suc n) len h =
    let q = len / 256 ^ n in
    let e : len / 256 ^ suc n ≡ q / 256 =
      ap (λ k. len / k) (pow-suc 256 n) ∙ sym (div-div-eq-div-mul len (256 ^ n) 256) in
    let small : q ≤ len = div-le_self len (256 ^ n) in
    let step : q / 256 * 256 % 2 ^ 64 + q % 256 ≡ q = omega arith in
    ap (read_length (length_bytes n len)) (ap (λ (k : ℕ). k * 256 % 2 ^ 64 + q % 256) e ∙ step)
    ∙ read_length-length_bytes n len h

take-length : (xs : List ℕ) → take (length xs) xs ≡ xs
take-length [] = refl
take-length (x ∷ xs) = ap (◌∷◌ x) (take-length xs)

length-length_bytes : (n len : ℕ) → length (length_bytes n len) ≡ n
unfolding length_bytes
length-length_bytes zero len = refl
length-length_bytes (suc n) len = ap suc (length-length_bytes n len)

length-header : (len : ℕ) → length (header len) ≡ header_size len
unfolding header header_size
length-header len = ground (arith, length-length_bytes 8 len)

-- The payload of a frame that is not masked, behind a header of `off` bytes.
payload-unmasked :
    (front msg : List ℕ) (out_cap : ℕ)
    → length msg ≤ out_cap
    → length front + length msg < 2 ^ 64
    → payload (front ++ msg) out_cap false (length msg) (length front) ≡ some msg
unfolding payload
payload-unmasked front msg out_cap room small =
    let whole : length (front ++ msg) ≡ length front + length msg = length-append front msg in
    let body : take (length msg) (drop (length front) (front ++ msg)) ≡ msg =
      rw (drop-length_append front msg, take-length msg) in
    ground (arith, whole, body)

short_header :
    (msg : List ℕ)
    → length msg ≤ 125
    → frame_length (129 ∷ length msg ∷ msg) (length msg) ≡ some (length msg, 2)
unfolding frame_length
short_header msg short = let e : length msg % 128 ≡ length msg = omega arith in ground (arith, e)

medium_header :
    (msg : List ℕ)
    → 125 < length msg
    → length msg ≤ 65535
    → frame_length (129 ∷ 126 ∷ length msg / 256 % 256 ∷ length msg % 256 ∷ msg) 126
      ≡ some (length msg, 4)
unfolding frame_length
medium_header msg long short =
    let e : length msg / 256 % 256 * 256 + length msg % 256 ≡ length msg = omega arith in
    ground (arith, e)

eight_bytes :
    (bytes msg : List ℕ)
    → length bytes ≡ 8
    → frame_length (129 ∷ 127 ∷ (bytes ++ msg)) 127 ≡ some (read_length bytes 0, 10)
unfolding frame_length
eight_bytes bytes msg eight =
    let size : length (bytes ++ msg) ≡ 8 + length msg = omega (arith, length-append bytes msg) in
    let front : take 8 (bytes ++ msg) ≡ bytes =
      subst (λ k. take k (bytes ++ msg) ≡ bytes) eight (take-length_append bytes msg) in
    ground (arith, size, front)

long_header :
    (msg : List ℕ)
    → length msg < 2 ^ 64
    → frame_length (129 ∷ 127 ∷ (length_bytes 8 (length msg) ++ msg)) 127 ≡ some (length msg, 10)
long_header msg small =
    let zero_start : length msg / 256 ^ 8 ≡ 0 = omega arith in
    let e : read_length (length_bytes 8 (length msg)) 0 ≡ length msg =
      ap (read_length (length_bytes 8 (length msg))) (sym zero_start)
      ∙ read_length-length_bytes 8 (length msg) small in
    eight_bytes (length_bytes 8 (length msg)) msg (length-length_bytes 8 (length msg))
    ∙ ap (λ (k : ℕ). some (k, 10)) e

-- The length of a header and where it ends, in all three of its forms.
frame_length-header :
    (msg : List ℕ)
    → length msg < 2 ^ 64
    → frame_length (header (length msg) ++ msg) (get_or (header (length msg) ++ msg) 1 0)
      ≡ some (length msg, header_size (length msg))
unfolding header header_size
frame_length-header msg small = elim (dec_lt 125 (length msg)) [
  | no short ↦
      let test : leb (length msg) 125 ≡ true = ground arith in
      rw test (short_header msg (omega arith))
  | yes long ↦
      let test : leb (length msg) 125 ≡ false = ground arith in
      elim (dec_lt 65535 (length msg)) [
        | no medium ↦
            let test' : leb (length msg) 65535 ≡ true = ground arith in
            rw (test, test') (medium_header msg long (omega arith))
        | yes huge ↦
            let test' : leb (length msg) 65535 ≡ false = ground arith in
            rw (test, test') (long_header msg small)
      ]
]

is_masked-header : (msg : List ℕ) → is_masked (get_or (header (length msg) ++ msg) 1 0) ≡ false
unfolding is_masked header
is_masked-header msg = ground arith

size_lem : (len : ℕ) → (2 ≤ header_size len) × (header_size len ≤ 10)
unfolding header_size
size_lem len = ground arith

-- A message that fits its buffers is encoded, and the frame, which is as long as its header and the
-- message, decodes to the message.
pub decode_frame-encode_frame :
    (cap out_cap : ℕ) (msg : List ℕ)
    → length msg + 10 < 2 ^ 64
    → header_size (length msg) + length msg ≤ cap
    → length msg ≤ out_cap
    → (frame : List ℕ) × (encode_frame cap (some msg) ≡ some frame)
      × (length frame ≡ header_size (length msg) + length msg)
      × (decode_frame (some frame) out_cap ≡ some msg)
unfolding encode_frame decode_frame
decode_frame-encode_frame cap out_cap msg small room out_room =
    let size = length-header (length msg) in
    let test : ltb (length (header (length msg) ++ msg)) 2 ≡ false =
      ground (arith, length-append (header (length msg)) msg, size, size_lem (length msg)) in
    (
      header (length msg) ++ msg,
      ground arith,
      omega (arith, length-append (header (length msg)) msg, size),
      rw (
        test,
        frame_length-header msg (omega arith),
        is_masked-header msg,
        ← size,
        payload-unmasked (header (length msg)) msg out_cap out_room
            (omega (arith, size, size_lem (length msg))),
      ),
    )
