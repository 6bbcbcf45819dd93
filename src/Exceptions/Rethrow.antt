-- ===== src/Exceptions/Rethrow.antt =====
-- A throw in a catch block, with src/abs_except.c and the macros of include/abscom/abs.h.
use mathlib.Core.List.{append_assoc, append-nil}
use mathlib.Core.Path.{subst}
use abscom.Prelude.{
  ℕ, zero, suc, ◌+◌, ◌-◌, ◌≤◌, ◌≡◌, refl, ap, sym, ◌∙◌, some, List, [], ◌∷◌, ◌++◌, CString, length,
  length-append, arith, ltb, true,
}
use abscom.Exceptions.Defs.{
  finished, exited, Code, try_catch, Cont, code, end_try, JmpBuf, Globals, push_jmp, Event, caught,
  Machine, running, resume, step, steps, env_stack_size,
}
use abscom.Exceptions.Structured.{thrown, meaning, HandlersHold}
use abscom.Exceptions.Unwinding.{Leads, steps_add, Does, code-Does}

-- What each further entry of the catch block adds to the log.
abbrev pub rounds : List Event → CString → ℕ → List Event
rounds l msg zero = []
rounds l msg (suc n) = (l ++ caught (some msg) ∷ []) ++ rounds l msg n

thrown-Leads :
    (m : Machine) (k : Cont) (buf : JmpBuf) (bufs : List JmpBuf) (log l : List Event)
    (msg : CString)
    → Does m k (buf ∷ bufs) log (l, thrown msg)
    → (g' : Globals) × Leads m
        (running (code buf.handler (end_try buf.rest)) g' (log ++ (l ++ caught (some msg) ∷ [])))
      × (g'.env_stack ≡ buf ∷ bufs)
unfolding resume
thrown-Leads m k buf bufs log l msg (g', (taken, run), same, error) =
    let entered = running (code buf.handler (end_try buf.rest)) g' in
    (
      g',
      (
        taken,
        run
            ∙ ap (λ last. entered ((log ++ l) ++ caught last ∷ [])) error
            ∙ ap entered (append_assoc log l (caught (some msg) ∷ [])),
      ),
      same,
    )

-- Code that throws comes to the catch block of the innermost try.
code_throws :
    (c : Code) (free : ℕ) (k : Cont) (g : Globals) (buf : JmpBuf) (bufs : List JmpBuf)
    (log l : List Event) (msg : CString)
    → g.env_stack ≡ buf ∷ bufs
    → length (buf ∷ bufs) + free ≡ env_stack_size
    → HandlersHold c
    → meaning free c ≡ (l, thrown msg)
    → (g' : Globals) × Leads
        (running (code c k) g log)
        (running (code buf.handler (end_try buf.rest)) g' (log ++ (l ++ caught (some msg) ∷ [])))
      × (g'.env_stack ≡ buf ∷ bufs)
code_throws c free k g buf bufs log l msg same room holds throws =
    let does = code-Does c free k g (buf ∷ bufs) log same room holds in
    thrown-Leads (running (code c k) g log) k buf bufs log l msg (rw throws at does)

steps-positive :
    (n : ℕ) (k : Cont) (g g' : Globals) (log l : List Event) (e : Event)
    → steps n (running k g log) ≡ running k g' (log ++ (l ++ e ∷ []))
    → (n' : ℕ) × (n ≡ suc n')
unfolding steps
steps-positive zero k g g' log l e run =
    let same : log ≡ log ++ (l ++ e ∷ []) = cc in
    absurd
      (omega (arith, ap length same, length-append log (l ++ e ∷ []), length-append l (e ∷ [])))
steps-positive (suc n) k g g' log l e run = (n, refl)

-- From the catch block it comes to the catch block again, as often as one likes.
rounds_again :
    (n : ℕ) (free : ℕ) (g : Globals) (buf : JmpBuf) (bufs : List JmpBuf) (log l : List Event)
    (msg : CString)
    → g.env_stack ≡ buf ∷ bufs
    → length (buf ∷ bufs) + free ≡ env_stack_size
    → HandlersHold buf.handler
    → meaning free buf.handler ≡ (l, thrown msg)
    → (g' : Globals) × (taken : ℕ) × (n ≤ taken)
      × (steps taken (running (code buf.handler (end_try buf.rest)) g log)
          ≡ running (code buf.handler (end_try buf.rest)) g' (log ++ rounds l msg n))
unfolding steps
rounds_again zero free g buf bufs log l msg same room holds throws =
    (g, 0, omega arith, ap (running (code buf.handler (end_try buf.rest)) g) (sym (append-nil log)))
rounds_again (suc n) free g buf bufs log l msg same room holds throws =
    let k = code buf.handler (end_try buf.rest) in
    let (g', (first, run), same') =
      code_throws buf.handler free (end_try buf.rest) g buf bufs log l msg same room holds throws in
    let (_, one) = steps-positive first k g g' log l (caught (some msg)) run in
    let (g'', more, large, run') =
      rounds_again n free g' buf bufs (log ++ (l ++ caught (some msg) ∷ [])) l msg same' room holds
        throws in
    (
      g'',
      first + more,
      omega (arith, one, large),
      steps_add first more (running k g log)
          ∙ ap (steps more) run
          ∙ run'
          ∙ ap (running k g'') (append_assoc log (l ++ caught (some msg) ∷ []) (rounds l msg n)),
    )

try_entered :
    (body handler c : Code) (k : Cont) (g : Globals) (log : List Event) (n : ℕ)
    → ltb (length g.env_stack) env_stack_size ≡ true
    → let buf : JmpBuf = record { handler = handler; rest = code c k } in
      steps (suc n) (running (code (try_catch body handler c) k) g log)
      ≡ steps n (
          running (code body (end_try (code c k))) (record g { env_stack = buf ∷ g.env_stack }) log)
unfolding steps step push_jmp
try_entered body handler c k g log n test = rw test refl

-- Has the machine neither finished nor exited?
abbrev pub IsRunning : Machine → Type 0
IsRunning (running k g log) = Unit
IsRunning (finished g log) = ⊥
IsRunning (exited log) = ⊥

steps-IsRunning : (n : ℕ) (m : Machine) → IsRunning (steps n m) → IsRunning m
unfolding steps step
steps-IsRunning n (running k g log) h = tt
steps-IsRunning zero (finished g log) h = h
steps-IsRunning (suc n) (finished g log) h = steps-IsRunning n (finished g log) h
steps-IsRunning zero (exited log) h = h
steps-IsRunning (suc n) (exited log) h = steps-IsRunning n (exited log) h

earlier-IsRunning :
    (n taken : ℕ) (m : Machine) → n ≤ taken → IsRunning (steps taken m) → IsRunning (steps n m)
earlier-IsRunning n taken m small h =
    let split : taken ≡ n + (taken - n) = omega (arith, small) in
    steps-IsRunning (taken - n) (steps n m)
      (subst IsRunning (ap (λ k. steps k m) split ∙ steps_add n (taken - n) m) h)

rethrow_rounds :
    (body handler c : Code) (free : ℕ) (k : Cont) (g : Globals) (log l l' : List Event)
    (msg msg' : CString)
    → length g.env_stack + suc free ≡ env_stack_size
    → HandlersHold body
    → HandlersHold handler
    → meaning free body ≡ (l, thrown msg)
    → meaning free handler ≡ (l', thrown msg')
    → (meaning (suc free) (try_catch body handler c) ≡ (l ++ caught (some msg) ∷ l', thrown msg'))
      × ((n : ℕ)
          → (g' : Globals) × (taken : ℕ) × (n ≤ taken)
            × (steps taken (running (code (try_catch body handler c) k) g log)
                ≡ running
                    (code handler (end_try (code c k)))
                    g'
                    ((log ++ (l ++ caught (some msg) ∷ [])) ++ rounds l' msg' n)))
unfolding meaning
rethrow_rounds body handler c free k g log l l' msg msg' room holds holds' throws throws' =
    let buf : JmpBuf = record { handler = handler; rest = code c k } in
    let pushed = record g { env_stack = buf ∷ g.env_stack } in
    let test : ltb (length g.env_stack) env_stack_size ≡ true = ground (arith, room) in
    let inside : length (buf ∷ g.env_stack) + free ≡ env_stack_size = omega (arith, room) in
    let (g', (first, run), same) =
      code_throws body free (end_try (code c k)) pushed buf g.env_stack log l msg refl inside holds
        throws in
    (
      rw (throws, throws') refl,
      λ n.
          let (g'', more, large, run') =
            rounds_again n free g' buf g.env_stack (log ++ (l ++ caught (some msg) ∷ [])) l' msg'
              same inside holds' throws' in
          (
            g'',
            suc (first + more),
            omega (arith, large),
            try_entered body handler c k g log (first + more) test
                ∙ steps_add first more _
                ∙ ap (steps more) run
                ∙ run',
          ),
    )

-- A try block, in any surroundings with room for one more handler, whose body and whose catch block both throw, and hold
-- no catch block that throws out of itself: the throw in the catch block goes to the start of the same catch block. For
-- every n the machine comes to stand there for the (n + 1)-th time, after n steps or more, and after any number of
-- steps it still runs: the program neither ends nor exits. By the meaning of the code the throw ends the block.
pub rethrow_loops :
    (body handler c : Code) (free : ℕ) (k : Cont) (g : Globals) (log l l' : List Event)
    (msg msg' : CString)
    → length g.env_stack + suc free ≡ env_stack_size
    → HandlersHold body
    → HandlersHold handler
    → meaning free body ≡ (l, thrown msg)
    → meaning free handler ≡ (l', thrown msg')
    → (meaning (suc free) (try_catch body handler c) ≡ (l ++ caught (some msg) ∷ l', thrown msg'))
      × ((n : ℕ)
          → (g' : Globals) × (taken : ℕ) × (n ≤ taken)
            × (steps taken (running (code (try_catch body handler c) k) g log)
                ≡ running
                    (code handler (end_try (code c k)))
                    g'
                    ((log ++ (l ++ caught (some msg) ∷ [])) ++ rounds l' msg' n)))
      × ((n : ℕ) → IsRunning (steps n (running (code (try_catch body handler c) k) g log)))
rethrow_loops body handler c free k g log l l' msg msg' room holds holds' throws throws' =
    let (means, again) =
      rethrow_rounds body handler c free k g log l l' msg msg' room holds holds' throws throws' in
    (
      means,
      again,
      λ n.
          let (g', taken, large, run) = again n in
          earlier-IsRunning n taken (running (code (try_catch body handler c) k) g log) large
            (subst IsRunning (sym run) tt),
    )
