-- ===== src/Runtime/Values/Repeating.antt =====
-- mul of a text and a count, up to the sizes at which its block is too small.
use abscom.Prelude.{
  ℕ, zero, suc, ◌+◌, ◌-◌, ◌*◌, ◌/◌, ◌%◌, ◌^◌, ◌≤◌, ◌<◌, ◌≡◌, refl, ◌∙◌, Bool, true, false, ◌&&◌,
  arith, ltb, ◌==◌, if◌then◌else◌, CString, length, length-append, Bool-cases, inl, inr,
}
use native.Mathlib.Nat.{le-div_iff_mul-le}
use abscom.Prelude.Int.{pos}
use abscom.Prelude.Run.{done, fault}
use abscom.Runtime.Values.Defs.{Floats, int_value, str_value}
use abscom.Runtime.Values.Arith.{copies, repeat_times, str_repeat, mul}

length-copies : (n : ℕ) (s : CString) → length (copies n s) ≡ n * length s
unfolding copies
length-copies zero s = omega arith
length-copies (suc n) s = length-append s (copies n s) ∙ grind (arith, length-copies n s)

guard_passes :
    (size count : ℕ)
    → size * count < 2 ^ 64
    → (ltb 0 size && ltb ((2 ^ 64 - 1) / size) count) ≡ false
guard_passes zero count h = refl
guard_passes (suc size) count h =
    let product : count * suc size ≤ 2 ^ 64 - 1 = grind (arith, h) in
    let inside : count ≤ (2 ^ 64 - 1) / suc size = (le-div_iff_mul-le (omega arith)).1 product in
    let passes : ltb ((2 ^ 64 - 1) / suc size) count ≡ false = ground (arith, inside) in
    let positive : ltb 0 (suc size) ≡ true = ground arith in rw (positive, passes) refl

module _ {F : Type 0} (malloc : ℕ → Bool) (floats : Floats F) where
  repeat_in_block :
      (s : CString) (count : ℕ)
      → ((m : ℕ) → malloc m ≡ true)
      → length s * count + 1 < 2 ^ 64
      → repeat_times {F = F} malloc s count ≡ done (str_value (copies count s))
  unfolding repeat_times
  repeat_in_block s count memory small =
      let guard = guard_passes (length s) count (omega (arith, small)) in
      let block : (length s * count + 1) % 2 ^ 64 ≡ length s * count + 1 = omega (arith, small) in
      let room : ltb (length s * count + 1) (length s * count + 1) ≡ false = ground arith in
      rw (guard, block, memory (length s * count + 1), room) refl

  repeat_past_block :
      (s : CString) (count : ℕ)
      → ((m : ℕ) → malloc m ≡ true)
      → length s * count + 1 ≡ 2 ^ 64
      → repeat_times {F = F} malloc s count ≡ fault
  unfolding repeat_times
  repeat_past_block s count memory large =
      let guard = guard_passes (length s) count (omega (arith, large)) in
      let block : (length s * count + 1) % 2 ^ 64 ≡ 0 = rw (large) refl in
      let over : ltb 0 (length s * count + 1) ≡ true = ground (arith, large) in
      rw (guard, block, memory 0, over) refl

  -- Where malloc has what it is asked for, a text times a count above 0 is the text written so often, for a
  -- result of fewer than 2 ^ 64 characters, but for one of 2 ^ 64 - 1: that passes the test for overflow,
  -- malloc is asked for no byte, and the copies are written outside of the block.
  pub mul-text :
      (s : CString) (count : ℕ)
      → ((m : ℕ) → malloc m ≡ true)
      → 0 < count
      → length s * count < 2 ^ 64
      → mul malloc floats (str_value s) (int_value (pos count))
        ≡ (if length s * count + 1 == 2 ^ 64 then fault else done (str_value (copies count s)))
  unfolding mul str_repeat
  mul-text s count memory h small =
      let some_times : (count == 0) ≡ false = ground (arith, h) in
      elim (Bool-cases (length s * count + 1 == 2 ^ 64)) [
        | inl e ↦ rw (e, some_times) (repeat_past_block s count memory (ground (arith, e)))
        | inr e ↦ rw (e, some_times) (repeat_in_block s count memory (ground (arith, e, small)))
      ]
