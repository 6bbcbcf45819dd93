-- ===== src/Ws/Base64.antt =====
-- b64_encode of src/abs_ws.c, and the size of its buffer.
use abscom.Prelude.{
  ℕ, ◌+◌, ◌*◌, ◌/◌, ◌%◌, ◌≡◌, Bool, Option, none, some, List, [], ◌∷◌, arith, codes, length, get_or,
  if◌then◌else◌,
}

abbrev pub table : List ℕ
table = codes "ABCDEFGHIJKLMNOPQRSTUVWXYZabcdefghijklmnopqrstuvwxyz0123456789+/"

-- t[(v >> k) & 0x3F], for the number v >> k
unfoldable pub digit : ℕ → ℕ
digit v = get_or table (v % 64) 0

-- The characters of a group of three bytes; `|` adds, since the bits of the bytes are apart.
unfoldable pub group : ℕ → ℕ → ℕ → List ℕ → List ℕ
group a b c rest =
    let v = a * 65536 + b * 256 + c in
    digit (v / 262144) ∷ digit (v / 4096) ∷ digit (v / 64) ∷ digit v ∷ rest

-- the loop of b64_encode, with `=` (61) where bytes are missing
unfoldable pub b64_loop : List ℕ → List ℕ
b64_loop [] = []
b64_loop (a ∷ []) = let v = a * 65536 in digit (v / 262144) ∷ digit (v / 4096) ∷ 61 ∷ 61 ∷ []
b64_loop (a ∷ b ∷ []) =
    let v = a * 65536 + b * 256 in digit (v / 262144) ∷ digit (v / 4096) ∷ digit (v / 64) ∷ 61 ∷ []
b64_loop (a ∷ b ∷ c ∷ src) = group a b c (b64_loop src)

-- `grants` is whether malloc succeeds for the size asked for.
unfoldable pub b64_encode : (ℕ → Bool) → List ℕ → Option (List ℕ)
b64_encode grants src =
    if grants (4 * ((length src + 2) / 3) + 1) then some (b64_loop src) else none

-- `b64_encode` writes exactly the `4 * ((len + 2) / 3)` characters that it allocates, besides the
-- terminator.
length-b64_loop : (src : List ℕ) → length (b64_loop src) ≡ 4 * ((length src + 2) / 3)
unfolding b64_loop group
length-b64_loop [] = omega arith
length-b64_loop (a ∷ []) = omega arith
length-b64_loop (a ∷ b ∷ []) = omega arith
length-b64_loop (a ∷ b ∷ c ∷ src) = omega (arith, length-b64_loop src)
