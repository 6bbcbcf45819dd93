-- ===== src/GrowString/Uninitialised.antt =====
-- Strings with no text yet: a NULL buffer, and a buffer that nothing was written to.
use mathlib.Core.List.{append-nil}
use abscom.Prelude.{
  ℕ, zero, suc, ◌+◌, ◌%◌, ◌^◌, ◌<◌, ◌≡◌, ◌≢◌, refl, true, false, some, arith, ◌==◌,
}
use abscom.Prelude.Run.{fault, ◌>>=◌, success}
use abscom.Prelude.Bytes.{junk_bytes, realloc}
use abscom.GrowString.Defs.{
  GrowString, Heap, empty_string, reserve, resize_buffer, c_str, read_cstr,
}

read_cstr-junk_bytes :
    (n : ℕ) (junk : ℕ → ℕ) → ((i : ℕ) → junk i ≢ 0) → read_cstr (junk_bytes n junk) ≡ fault
unfolding read_cstr junk_bytes
read_cstr-junk_bytes zero junk h = refl
read_cstr-junk_bytes (suc n) junk h =
    let test : (junk n == 0) ≡ false = ground (arith, h n) in
    rw (test, read_cstr-junk_bytes n junk h, ◌>>=◌)

-- `reserve` on a fresh string, when it is granted, leaves a buffer with no terminator: if the new bytes
-- have no NUL then `c_str` reads past its end.
pub reserve-fault :
    (h : Heap) (cap : ℕ)
    → 0 < cap
    → cap + 1 < 2 ^ 64
    → h.grants (cap + 1) ≡ true
    → ((i : ℕ) → h.junk i ≢ 0)
    → (s : GrowString) × (reserve h (some empty_string) cap ≡ (success, some s))
      × (c_str (some s) ≡ fault)
unfolding reserve resize_buffer realloc c_str
reserve-fault h cap pos small ok junk =
    let exact : (cap + 1) % 2 ^ 64 ≡ cap + 1 = omega arith in
    (
      record { buffer = some (junk_bytes (cap + 1) h.junk); len = 0; cap = cap },
      ground (arith, exact, ok, append-nil {A = ℕ}),
      read_cstr-junk_bytes (cap + 1) h.junk junk,
    )
