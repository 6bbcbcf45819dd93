-- ===== src/Exceptions/Unwinding.antt =====
-- The machine of try, catch and throw does what the code means.
use mathlib.Core.List.{append_assoc, append-nil}
use native.Mathlib.Nat.{zero-add, suc-add}
use abscom.Prelude.{
  ℕ, zero, suc, ◌+◌, ◌≡◌, refl, ap, ◌∙◌, ◌≢◌, arith, ltb, some, List, [], ◌∷◌, ◌++◌, CString,
  length, true, false,
}
use abscom.Exceptions.Defs.{
  Code, nothing, act, throwing, try_catch, Cont, halt, code, end_try, JmpBuf, Globals, push_jmp,
  pop_jmp, top, below_top, message_of, throw, Event, did, caught, Machine, running, finished,
  exited, resume, step, steps, start, no_handlers, env_stack_size,
}
use abscom.Exceptions.Structured.{
  normal, thrown, too_deep, Meaning, and_then, or_catch, meaning, HandlersHold,
}

-- The machine comes from the one state to the other.
abbrev pub Leads : Machine → Machine → Type 0
Leads m m' = (n : ℕ) × (steps n m ≡ m')

pub steps_add : (n n' : ℕ) (m : Machine) → steps (n + n') m ≡ steps n' (steps n m)
unfolding steps
steps_add zero n' m = rw zero-add refl
steps_add (suc n) n' m = rw suc-add (steps_add n n' (step m))

Leads-trans : (m m' m'' : Machine) → Leads m m' → Leads m' m'' → Leads m m''
Leads-trans m m' m'' (n, e) (n', e') = (n + n', steps_add n n' m ∙ ap (steps n') e ∙ e')

Leads-step : (m m' : Machine) → Leads (step m) m' → Leads m m'
unfolding steps
Leads-step m m' (n, e) = (suc n, e)

-- From `m`, the code ends as `meaning` says: it goes on at `k`, or in the catch block of the innermost handler, with the
-- same handlers, or exits.
abbrev pub Does : Machine → Cont → List JmpBuf → List Event → Meaning → Type 0
Does m k bufs log (l, normal) =
    (g : Globals) × Leads m (running k g (log ++ l)) × (g.env_stack ≡ bufs)
Does m k bufs log (l, thrown msg) =
    (g : Globals) × Leads m (resume (g, top bufs) (log ++ l))
    × (g.env_stack ≡ bufs)
    × (g.last_error ≡ some msg)
Does m k bufs log (l, too_deep) = Leads m (exited (log ++ l))

Does-from :
    (m m' : Machine) (k : Cont) (bufs : List JmpBuf) (log : List Event) (r : Meaning)
    → Leads m m'
    → Does m' k bufs log r
    → Does m k bufs log r
Does-from m m' k bufs log (l, normal) to (g, leads, same) = (g, Leads-trans m m' _ to leads, same)
Does-from m m' k bufs log (l, thrown msg) to (g, leads, same, error) =
    (g, Leads-trans m m' _ to leads, same, error)
Does-from m m' k bufs log (l, too_deep) to leads = Leads-trans m m' _ to leads

-- What comes before in the log.
Does-log :
    (m : Machine) (k : Cont) (bufs : List JmpBuf) (log l : List Event) (r : Meaning)
    → Does m k bufs (log ++ l) r
    → Does m k bufs log (l ++ r.0, r.1)
Does-log m k bufs log l (l', normal) h = rw (append_assoc) at h
Does-log m k bufs log l (l', thrown msg) h = rw (append_assoc) at h
Does-log m k bufs log l (l', too_deep) h = rw (append_assoc) at h

Does-and_then :
    (m : Machine) (k k' : Cont) (bufs : List JmpBuf) (log : List Event) (r r' : Meaning)
    → Does m k bufs log r
    → ((g : Globals) (log' : List Event)
        → g.env_stack ≡ bufs
        → Does (running k g log') k' bufs log' r')
    → Does m k' bufs log (and_then r r')
Does-and_then m k k' bufs log (l, normal) r' (g, leads, same) next =
    Does-log m k' bufs log l r' (Does-from m _ k' bufs (log ++ l) r' leads (next g (log ++ l) same))
Does-and_then m k k' bufs log (l, thrown msg) r' h next = h
Does-and_then m k k' bufs log (l, too_deep) r' h next = h

-- The end of a catch block, or of a block that throws nothing.
Does-end_try :
    (m : Machine) (k : Cont) (buf : JmpBuf) (bufs : List JmpBuf) (log : List Event) (r : Meaning)
    → ((msg : CString) → r.1 ≢ thrown msg)
    → Does m (end_try k) (buf ∷ bufs) log r
    → Does m k bufs log r
unfolding step steps pop_jmp
Does-end_try m k buf bufs log (l, normal) holds (g, leads, same) =
    (pop_jmp g, Leads-trans m _ _ leads (Leads-step _ _ (0, refl)), ap below_top same)
Does-end_try m k buf bufs log (l, thrown msg) holds h = absurd (holds msg refl)
Does-end_try m k buf bufs log (l, too_deep) holds h = h

Does-or_catch :
    (m : Machine) (buf : JmpBuf) (bufs : List JmpBuf) (log : List Event) (r r' : Meaning)
    → Does m (end_try buf.rest) (buf ∷ bufs) log r
    → ((g : Globals) (log' : List Event)
        → g.env_stack ≡ buf ∷ bufs
        → Does
            (running (code buf.handler (end_try buf.rest)) g log')
            (end_try buf.rest)
            (buf ∷ bufs)
            log'
            r')
    → ((msg : CString) → r'.1 ≢ thrown msg)
    → Does m buf.rest bufs log (or_catch r r')
unfolding resume
Does-or_catch m buf bufs log (l, normal) r' h handle holds =
    Does-end_try m buf.rest buf bufs log (l, normal) (λ msg e. absurd cc) h
Does-or_catch m buf bufs log (l, thrown msg) r' (g, leads, same, error) handle holds =
    let caught_it = caught g.last_error ∷ [] in
    let log' = (log ++ l) ++ caught_it in
    rw (← error) (
      Does-log m buf.rest bufs log l (caught_it ++ r'.0, r'.1)
        (Does-log m buf.rest bufs (log ++ l) caught_it r' (
          Does-end_try m buf.rest buf bufs log' r' holds
            (Does-from m _ (end_try buf.rest) (buf ∷ bufs) log' r' leads (handle g log' same)))))
Does-or_catch m buf bufs log (l, too_deep) r' h handle holds = h

pub code-Does :
    (c : Code) (free : ℕ) (k : Cont) (g : Globals) (bufs : List JmpBuf) (log : List Event)
    → g.env_stack ≡ bufs
    → length bufs + free ≡ env_stack_size
    → HandlersHold c
    → Does (running (code c k) g log) k bufs log (meaning free c)
unfolding step steps meaning push_jmp throw
code-Does nothing free k g bufs log same room h = (g, (1, rw append-nil refl), same)
code-Does (act n c) free k g bufs log same room h =
    Does-log (running (code (act n c) k) g log) k bufs log (did n ∷ []) (meaning free c) (
      Does-from _ (running (code c k) g (log ++ did n ∷ [])) k bufs (log ++ did n ∷ [])
        (meaning free c) (1, refl) (code-Does c free k g bufs (log ++ did n ∷ []) same room h))
code-Does (throwing msg c) free k g bufs log same room h =
    let g' = record g { last_error = some (message_of msg) } in
    (g', (1, rw append-nil (ap (λ bufs'. resume (g', top bufs') log) same)), same, refl)
code-Does (try_catch body handler c) zero k g bufs log same room h =
    let full : ltb (length g.env_stack) env_stack_size ≡ false =
      ground (arith, room, ap length same) in
    (1, rw (full, append-nil) refl)
code-Does (try_catch body handler c) (suc free) k g bufs log same room
      (body_holds, handler_holds, c_holds, holds) =
    let buf : JmpBuf = record { handler = handler; rest = code c k } in
    let pushed = record g { env_stack = buf ∷ g.env_stack } in
    let m = running (code (try_catch body handler c) k) g log in
    let test : ltb (length g.env_stack) env_stack_size ≡ true =
      ground (arith, room, ap length same) in
    let inside : length (buf ∷ bufs) + free ≡ env_stack_size = omega (arith, room) in
    let body_does : Does m (end_try (code c k)) (buf ∷ bufs) log (meaning free body) =
      Does-from m (running (code body (end_try (code c k))) pushed log) (end_try (code c k))
        (buf ∷ bufs) log (meaning free body) (1, rw (test) refl)
        (code-Does body free (end_try (code c k)) pushed (buf ∷ bufs) log (ap (◌∷◌ buf) same) inside
          body_holds) in
    let tried : Does m (code c k) bufs log (or_catch (meaning free body) (meaning free handler)) =
      Does-or_catch m buf bufs log (meaning free body) (meaning free handler) body_does
        (λ g' log' same'.
          code-Does handler free (end_try (code c k)) g' (buf ∷ bufs) log' same' inside
            handler_holds)
        (holds free) in
    Does-and_then m (code c k) k bufs log (or_catch (meaning free body) (meaning free handler))
      (meaning (suc free) c) tried
      (λ g' log' same'. code-Does c (suc free) k g' bufs log' same' room c_holds)

-- How a program that means `r` ends: with no handler left, or by exit.
abbrev pub Ends : Machine → Meaning → Type 0
Ends m (l, normal) = (g : Globals) × Leads m (finished g l) × (g.env_stack ≡ [])
Ends m (l, thrown msg) = Leads m (exited l)
Ends m (l, too_deep) = Leads m (exited l)

Does-Ends : (m : Machine) (r : Meaning) → Does m halt [] [] r → Ends m r
unfolding resume step steps
Does-Ends m (l, normal) (g, leads, same) = (g, Leads-trans m _ _ leads (1, refl), same)
Does-Ends m (l, thrown msg) (g, leads, same, error) = leads
Does-Ends m (l, too_deep) leads = leads

-- Code none of whose catch blocks throws out of itself ends as its meaning says: after finitely many steps, with the
-- effects in that order, and with no handler left or by exit, where the throw is uncaught or more than
-- ABS_ENV_STACK_SIZE try blocks are open at once.
pub start-Ends : (c : Code) → HandlersHold c → Ends (start c) (meaning env_stack_size c)
start-Ends c h =
    Does-Ends (start c) (meaning env_stack_size c)
      (code-Does c env_stack_size halt no_handlers [] [] refl refl h)
