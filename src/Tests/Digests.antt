-- ===== src/Tests/Digests.antt =====
-- The digests of texts.
use abscom.Prelude.{◌≡◌, refl, true, some, ◌++◌, CString, codes, length, map, bit_xor, ◌/◌, ◌%◌}
use abscom.Crypto.Transform.{sha256_transform}
use abscom.Crypto.Defs.{initial_state, state_bytes, sha256_bytes, sha256, block_key, hmac_sha256}
use abscom.Crypto.Padding.{padded, compress_blocks, sha256_bytes-padded}
use abscom.Crypto.Digest.{IsTextOf, sha256-IsTextOf, hmac_sha256_fits}

abc_digest :
    sha256 (some (codes "abc"))
    ≡ some (codes "ba7816bf8f01cfea414140de5dae2223b00361a396177a9cb410ff61f20015ad")
unfolding sha256 sha256_transform
abc_digest = refl

sha256_bytes-padded_example :
    (sha256_bytes (codes "abc")
      ≡ state_bytes (
          compress_blocks
            (length (padded (codes "abc")) / 64)
            initial_state
            (padded (codes "abc"))))
    × (length (padded (codes "abc")) % 64 ≡ 0)
sha256_bytes-padded_example = sha256_bytes-padded (codes "abc")

sha256-IsTextOf_example :
    (text : CString) × (sha256 (some (codes "abc")) ≡ some text)
    × (length text ≡ 64)
    × IsTextOf (sha256_bytes (codes "abc")) text
sha256-IsTextOf_example = sha256-IsTextOf (codes "abc")

abbrev key : CString
key = codes "key"

hmac_sha256_fits_example :
    let inner = sha256_bytes (map (λ b. bit_xor b 0x36) (block_key key) ++ codes "abc") in
    (text : CString) × (hmac_sha256 (λ n. true) (some key) (some (codes "abc")) ≡ some text)
    × IsTextOf (sha256_bytes (map (λ b. bit_xor b 0x5c) (block_key key) ++ inner)) text
    × (length text ≡ 64)
    × (length (block_key key) ≡ 64)
    × (length (map (λ b. bit_xor b 0x5c) (block_key key) ++ inner) ≡ 96)
hmac_sha256_fits_example = hmac_sha256_fits (λ n. true) key (codes "abc") refl
