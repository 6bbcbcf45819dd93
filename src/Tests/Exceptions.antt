-- ===== src/Tests/Exceptions.antt =====
-- Programs with try, catch and throw.
use abscom.Prelude.{◌≡◌, refl, some, none, [], ◌∷◌, codes}
use abscom.Exceptions.Defs.{
  Code, nothing, act, throwing, try_catch, halt, code, end_try, Globals, did, caught, running,
  steps, start, env_stack_size,
}
use abscom.Exceptions.Structured.{normal, thrown, meaning, HandlersHold}
use abscom.Exceptions.Unwinding.{Ends, start-Ends}
use abscom.Exceptions.Rethrow.{rounds, IsRunning, rethrow_loops}
use abscom.Exceptions.Structured.{thrown}
use abscom.Exceptions.Defs.{message_of}
use abscom.Prelude.{ℕ, Option, CString, ◌≤◌, refl, none}

-- A try block in a try block: the inner throw is caught there, the outer one after it.
abbrev nested : Code
nested =
    try_catch
      (try_catch (throwing (some (codes "inner")) (act 1 nothing)) (act 2 nothing)
        (throwing none nothing))
      (act 3 nothing) (act 4 nothing)

meaning-nested : meaning env_stack_size nested ≡ (
  caught (some (codes "inner")) ∷ did 2 ∷ caught (some (codes "exception")) ∷ did 3 ∷ did 4 ∷ [],
  normal,
)
unfolding meaning
meaning-nested = refl

nested-HandlersHold : HandlersHold nested
unfolding meaning
nested-HandlersHold = ((tt, tt, tt, λ free msg e. absurd cc), tt, tt, λ free msg e. absurd cc)

start-Ends_example : Ends (start nested) (meaning env_stack_size nested)
start-Ends_example = start-Ends nested nested-HandlersHold

-- An outer try block is open.
abbrev outer : Globals
outer = record {
  env_stack = record { handler = act 2 nothing; rest = halt } ∷ [];
  last_error = none;
}

abbrev failing : Option CString → Code
failing msg = act 5 (throwing msg nothing)

failing-throws :
    (free : ℕ) (msg : Option CString)
    → meaning free (failing msg) ≡ (did 5 ∷ [], thrown (message_of msg))
unfolding meaning
failing-throws free msg = refl

rethrow_loops_example :
    (meaning 9 (try_catch (failing (some (codes "a"))) (failing none) (act 1 nothing))
      ≡ (did 5 ∷ caught (some (codes "a")) ∷ did 5 ∷ [], thrown (codes "exception")))
    × ((n : ℕ)
        → (g' : Globals) × (taken : ℕ) × (n ≤ taken)
          × (steps taken (
                running
                  (code
                    (try_catch (failing (some (codes "a"))) (failing none) (act 1 nothing))
                    (end_try halt))
                  outer
                  [])
              ≡ running
                  (code (failing none) (end_try (code (act 1 nothing) (end_try halt))))
                  g'
                  (did 5 ∷ caught (some (codes "a")) ∷ rounds (did 5 ∷ []) (codes "exception") n)))
    × ((n : ℕ)
        → IsRunning (
            steps n (
              running
                (code
                  (try_catch (failing (some (codes "a"))) (failing none) (act 1 nothing))
                  (end_try halt))
                outer
                [])))
rethrow_loops_example =
    rethrow_loops (failing (some (codes "a"))) (failing none) (act 1 nothing) 8 (end_try halt) outer
      [] (did 5 ∷ []) (did 5 ∷ []) (codes "a") (codes "exception") refl tt tt
      (failing-throws 8 (some (codes "a"))) (failing-throws 8 none)
