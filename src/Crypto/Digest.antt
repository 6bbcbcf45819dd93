-- ===== src/Crypto/Digest.antt =====
-- The texts that sha256 and hmac_sha256 of src/abs_crypto.c return.
use abscom.Prelude.{
  ℕ, suc, ◌+◌, ◌-◌, ◌*◌, ◌/◌, ◌%◌, ◌≤◌, ◌<◌, ◌≡◌, refl, ap, bit_xor, Bool, true, Bool-cases, ◌⊎◌,
  inl, inr, map, some, CString, if◌then◌else◌, List, [], ◌∷◌, ◌++◌, All, arith, ltb, length,
  length-append, length-replicate,
}
use abscom.Crypto.Transform.{sha256_transform}
use abscom.Crypto.Defs.{
  initial_state, whole_blocks, finish, state_bytes, sha256_bytes, hex_char, hex_from_bytes, sha256,
  block_key, hmac_sha256,
}

-- The value of a digit, and of a text of digits, two for each byte.
abbrev pub digit_of : ℕ → ℕ
digit_of c = if ltb c 58 then c - 48 else c - 87

unfoldable pub unhex : CString → List ℕ
unhex [] = []
unhex (c ∷ []) = []
unhex (c ∷ d ∷ cs) = (digit_of c * 16 + digit_of d) ∷ unhex cs

abbrev pub IsHexDigit : ℕ → Type 0
IsHexDigit c = ((48 ≤ c) × (c ≤ 57)) ⊎ ((97 ≤ c) × (c ≤ 102))

hex_char-IsHexDigit : (d : ℕ) → d < 16 → IsHexDigit (hex_char d)
hex_char-IsHexDigit d h = elim (Bool-cases (ltb d 10)) [
  | inl e ↦ inl (ground (arith, e))
  | inr e ↦ inr (ground (arith, e, h))
]

digit_of-hex_char : (d : ℕ) → d < 16 → digit_of (hex_char d) ≡ d
digit_of-hex_char d h = ground (arith, h)

-- The text of some bytes.
abbrev pub IsTextOf : List ℕ → CString → Type 0
IsTextOf bytes text = All IsHexDigit text × (length text ≡ 2 * length bytes) × (unhex text ≡ bytes)

hex_from_bytes-IsTextOf :
    (bytes : List ℕ) → All (λ b. b < 256) bytes → IsTextOf bytes (hex_from_bytes bytes)
unfolding hex_from_bytes unhex
hex_from_bytes-IsTextOf [] h = (tt, refl, refl)
hex_from_bytes-IsTextOf (b ∷ bytes) (h, hs) =
    let (digits, size, back) = hex_from_bytes-IsTextOf bytes hs in
    let high = digit_of-hex_char (b / 16) (omega (arith, h)) in
    let low = digit_of-hex_char (b % 16) (omega arith) in
    (
      (
        hex_char-IsHexDigit (b / 16) (omega (arith, h)),
        (hex_char-IsHexDigit (b % 16) (omega arith), digits),
      ),
      omega (arith, size),
      rw (high, low, back) (ap (λ x. x ∷ bytes) (omega arith)),
    )

state_bytes-All : (ws : List ℕ) → All (λ b. b < 256) (state_bytes ws)
unfolding state_bytes
state_bytes-All [] = tt
state_bytes-All (w ∷ ws) =
    (omega arith, (omega arith, (omega arith, (omega arith, state_bytes-All ws))))

length-state_bytes : (ws : List ℕ) → length (state_bytes ws) ≡ 4 * length ws
unfolding state_bytes
length-state_bytes [] = refl
length-state_bytes (w ∷ ws) = omega (arith, length-state_bytes ws)

length-finish : (state rest : List ℕ) (bits : ℕ) → length (finish state rest bits) ≡ 8
unfolding finish sha256_transform
length-finish state rest bits = elim (Bool-cases (ltb 56 (length (rest ++ 0x80 ∷ [])))) [
  | inl e ↦ rw (e) refl
  | inr e ↦ rw (e) refl
]

length-sha256_bytes : (msg : List ℕ) → length (sha256_bytes msg) ≡ 32
unfolding sha256_bytes
length-sha256_bytes msg =
    let blocks = whole_blocks (length msg / 64) initial_state msg in
    omega (
      arith,
      length-state_bytes (finish blocks.0 blocks.1 (length msg * 8)),
      length-finish blocks.0 blocks.1 (length msg * 8),
    )

sha256_bytes-All : (msg : List ℕ) → All (λ b. b < 256) (sha256_bytes msg)
unfolding sha256_bytes
sha256_bytes-All msg =
    let blocks = whole_blocks (length msg / 64) initial_state msg in
    state_bytes-All (finish blocks.0 blocks.1 (length msg * 8))

-- `sha256` of a string returns 64 hexadecimal digits, as many as the buffer of `hex_from_bytes` has room for, and the
-- digest of `sha256_bytes` can be read back from them.
pub sha256-IsTextOf :
    (input : CString)
    → (text : CString) × (sha256 (some input) ≡ some text)
      × (length text ≡ 64)
      × IsTextOf (sha256_bytes input) text
unfolding sha256
sha256-IsTextOf input =
    let (digits, size, back) =
      hex_from_bytes-IsTextOf (sha256_bytes input) (sha256_bytes-All input) in
    (
      hex_from_bytes (sha256_bytes input),
      refl,
      omega (arith, size, length-sha256_bytes input),
      (digits, size, back),
    )

length-map {ℓ κ} :
    {A : Type ℓ} {B : Type κ} (f : A → B) (xs : List A) → length (map f xs) ≡ length xs
length-map f [] = refl
length-map f (x ∷ xs) = ap suc (length-map f xs)

length-block_key : (key : CString) → length (block_key key) ≡ 64
unfolding block_key
length-block_key key = elim (Bool-cases (ltb 64 (length key))) [
  | inl e ↦ rw (e, length-append, length-replicate) (omega (arith, length-sha256_bytes key))
  | inr e ↦
      rw (e, length-append, length-replicate)
        (let le : length key ≤ 64 = ground (arith, e) in omega (arith, le))
]

-- Where there is memory, `hmac_sha256` returns 64 hexadecimal digits; the padded key fills its block of 64 bytes, and
-- the outer message is 96 bytes, as many as `o_buf` has room for.
pub hmac_sha256_fits :
    (grants : ℕ → Bool) (key msg : CString)
    → grants (64 + length msg) ≡ true
    → let inner = sha256_bytes (map (λ b. bit_xor b 0x36) (block_key key) ++ msg) in
      (text : CString) × (hmac_sha256 grants (some key) (some msg) ≡ some text)
      × IsTextOf (sha256_bytes (map (λ b. bit_xor b 0x5c) (block_key key) ++ inner)) text
      × (length text ≡ 64)
      × (length (block_key key) ≡ 64)
      × (length (map (λ b. bit_xor b 0x5c) (block_key key) ++ inner) ≡ 96)
unfolding hmac_sha256
hmac_sha256_fits grants key msg h =
    let inner = sha256_bytes (map (λ b. bit_xor b 0x36) (block_key key) ++ msg) in
    let outer = map (λ b. bit_xor b 0x5c) (block_key key) ++ inner in
    let (digits, size, back) =
      hex_from_bytes-IsTextOf (sha256_bytes outer) (sha256_bytes-All outer) in
    (
      hex_from_bytes (sha256_bytes outer),
      rw (h) refl,
      (digits, size, back),
      omega (arith, size, length-sha256_bytes outer),
      length-block_key key,
      rw (length-append, length-map)
          (omega (
            arith,
            length-block_key key,
            length-sha256_bytes (map (λ b. bit_xor b 0x36) (block_key key) ++ msg),
          )),
    )
