-- ===== src/Exceptions/Structured.antt =====
-- What try, catch and throw mean, by recursion on the code: a throw ends the block it stands in.
use abscom.Prelude.{ℕ, zero, suc, some, List, [], ◌∷◌, ◌++◌, CString, ◌≢◌}
use abscom.Exceptions.Defs.{Code, nothing, act, throwing, try_catch, message_of, Event, did, caught}

pub data Outcome : Type 0 where
  normal : Outcome
  thrown : CString → Outcome
  too_deep : Outcome

abbrev pub Meaning : Type 0
Meaning = List Event × Outcome

-- The second only where the first ends normally.
abbrev pub and_then : Meaning → Meaning → Meaning
and_then (l, normal) (l', o) = (l ++ l', o)
and_then (l, thrown msg) _ = (l, thrown msg)
and_then (l, too_deep) _ = (l, too_deep)

-- The second only where the first throws.
abbrev pub or_catch : Meaning → Meaning → Meaning
or_catch (l, normal) _ = (l, normal)
or_catch (l, thrown msg) (l', o) = (l ++ caught (some msg) ∷ l', o)
or_catch (l, too_deep) _ = (l, too_deep)

-- With `free` more try blocks that can be open at once.
unfoldable pub meaning : ℕ → Code → Meaning
meaning free nothing = ([], normal)
meaning free (act n c) = and_then (did n ∷ [], normal) (meaning free c)
meaning free (throwing msg c) = ([], thrown (message_of msg))
meaning zero (try_catch body handler c) = ([], too_deep)
meaning (suc free) (try_catch body handler c) =
    and_then (or_catch (meaning free body) (meaning free handler)) (meaning (suc free) c)

-- No catch block throws out of itself.
abbrev pub HandlersHold : Code → Type 0
HandlersHold nothing = Unit
HandlersHold (act n c) = HandlersHold c
HandlersHold (throwing msg c) = HandlersHold c
HandlersHold (try_catch body handler c) =
    HandlersHold body
    × HandlersHold handler
    × HandlersHold c
    × ((free : ℕ) (msg : CString) → (meaning free handler).1 ≢ thrown msg)
