-- ===== src/Crypto/Defs.antt =====
-- sha256_bytes, hex_from_bytes, sha256 and hmac_sha256 of src/abs_crypto.c, over lists of bytes. The
-- number of bits is not reduced to 64 bits, since `big_endian 8` reads no more of it.
use abscom.Prelude.{
  ℕ, zero, suc, ◌+◌, ◌-◌, ◌*◌, ◌/◌, ◌%◌, ◌^◌, bit_xor, Bool, Option, none, some, List, [], ◌∷◌,
  ◌++◌, ltb, if◌then◌else◌, CString, length, take, drop, replicate, map,
}
use abscom.Crypto.Transform.{sha256_transform}

abbrev pub initial_state : List ℕ
initial_state =
    0x6a09e667 ∷ 0xbb67ae85 ∷ 0x3c6ef372 ∷ 0xa54ff53a ∷ 0x510e527f ∷ 0x9b05688c ∷ 0x1f83d9ab
    ∷ 0x5be0cd19 ∷ []

-- The loop over whole blocks: the state, and the bytes that are left.
unfoldable pub whole_blocks : ℕ → List ℕ → List ℕ → List ℕ × List ℕ
whole_blocks zero state msg = (state, msg)
whole_blocks (suc n) state msg = whole_blocks n (sha256_transform state (take 64 msg)) (drop 64 msg)

-- the bytes of a 64-bit number, the highest first
unfoldable pub big_endian : ℕ → ℕ → List ℕ
big_endian zero bits = []
big_endian (suc n) bits = bits / 2 ^ (n * 8) % 256 ∷ big_endian n bits

-- The last block: what is in the buffer, zeros up to 56 bytes, and the number of bits.
unfoldable pub last_block : List ℕ → ℕ → List ℕ
unfolding big_endian
last_block buf bits = buf ++ (replicate (56 - length buf) 0 ++ big_endian 8 bits)

-- From the bytes that are left on. If there is no room for the number of bits, they take a block of their own.
unfoldable pub finish : List ℕ → List ℕ → ℕ → List ℕ
unfolding last_block
finish state rest bits =
    let buf = rest ++ 0x80 ∷ [] in
    if ltb 56 (length buf)
    then sha256_transform (sha256_transform state (buf ++ replicate (64 - length buf) 0))
        (last_block [] bits)
    else sha256_transform state (last_block buf bits)

-- the bytes of the words of the state
unfoldable pub state_bytes : List ℕ → List ℕ
state_bytes [] = []
state_bytes (w ∷ ws) =
    w / 2 ^ 24 % 256 ∷ w / 2 ^ 16 % 256 ∷ w / 2 ^ 8 % 256 ∷ w % 256 ∷ state_bytes ws

unfoldable pub sha256_bytes : List ℕ → List ℕ
unfolding whole_blocks finish state_bytes
sha256_bytes msg =
    let blocks = whole_blocks (length msg / 64) initial_state msg in
    state_bytes (finish blocks.0 blocks.1 (length msg * 8))

abbrev pub hex_char : ℕ → ℕ
hex_char d = if ltb d 10 then 48 + d else 87 + d

unfoldable pub hex_from_bytes : List ℕ → CString
hex_from_bytes [] = []
hex_from_bytes (b ∷ bs) = hex_char (b / 16) ∷ hex_char (b % 16) ∷ hex_from_bytes bs

-- none is the error of a NULL argument
unfoldable pub sha256 : Option CString → Option CString
unfolding sha256_bytes hex_from_bytes
sha256 none = none
sha256 (some input) = some (hex_from_bytes (sha256_bytes input))

-- The key with zeros up to 64 bytes; a longer one is hashed first.
unfoldable pub block_key : CString → List ℕ
unfolding sha256_bytes
block_key key =
    let k = if ltb 64 (length key) then sha256_bytes key else key in
    k ++ replicate (64 - length k) 0

-- `grants` is whether malloc has as many bytes. none is an error.
unfoldable pub hmac_sha256 : (ℕ → Bool) → Option CString → Option CString → Option CString
unfolding block_key sha256_bytes hex_from_bytes
hmac_sha256 grants none msg = none
hmac_sha256 grants (some key) none = none
hmac_sha256 grants (some key) (some msg) =
    let k = block_key key in
    let inner = sha256_bytes (map (λ b. bit_xor b 0x36) k ++ msg) in
    if grants (64 + length msg)
    then some (hex_from_bytes (sha256_bytes (map (λ b. bit_xor b 0x5c) k ++ inner)))
    else none
