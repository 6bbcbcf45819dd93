-- ===== src/Prelude/Run.antt =====
-- How a call ends: in a value, or in a fault.

-- `fault` is undefined behaviour, such as a read outside of an array, or the model's fuel running out.
pub data Run {ℓ} (A : Type ℓ) : Type ℓ where
  done : A → Run A
  fault : Run A

infixl 5 ◌>>=◌
abbrev pub ◌>>=◌ {ℓ κ} : {A : Type ℓ} {B : Type κ} → Run A → (A → Run B) → Run B
done a >>= f = f a
fault >>= f = fault

-- The results 0 and -1.
pub data Status : Type 0 where
  success failure : Status

-- `return -1` where a step failed
abbrev pub on_success {ℓ} : {A : Type ℓ} → Status × A → (A → Run (Status × A)) → Run (Status × A)
on_success (failure, a) f = done (failure, a)
on_success (success, a) f = f a
