-- ===== src/Exceptions/Defs.antt =====
-- src/abs_except.c, and the macros try, catch and end_try of include/abscom/abs.h, as a machine that runs client code.
-- setjmp saves where the code goes on, and longjmp goes on there; a `jmp_buf` is the catch block and what follows
-- end_try. The entries of abs_env_stack below abs_env_idx are a list, the last one first.
use abscom.Prelude.{
  ℕ, zero, suc, ltb, Option, none, some, List, [], ◌∷◌, ◌++◌, CString, codes, length, if◌then◌else◌,
}

-- Client code: statements that have an effect of their own, throw, and try blocks with their catch blocks.
pub data Code : Type 0 where
  nothing : Code
  act : ℕ → Code → Code
  throwing : Option CString → Code → Code
  try_catch : Code → Code → Code → Code

-- Where a thread of control goes on.
pub data Cont : Type 0 where
  halt : Cont
  code : Code → Cont → Cont
  end_try : Cont → Cont

pub record JmpBuf : Type 0 where
  pub handler : Code
  pub rest : Cont

pub record Globals : Type 0 where
  pub env_stack : List JmpBuf
  pub last_error : Option CString

abbrev pub env_stack_size : ℕ
env_stack_size = 10

-- none is exit(1)
unfoldable pub push_jmp : JmpBuf → Globals → Option Globals
push_jmp buf g =
    if ltb (length g.env_stack) env_stack_size
    then some (record g { env_stack = buf ∷ g.env_stack })
    else none

abbrev pub below_top : List JmpBuf → List JmpBuf
below_top [] = []
below_top (buf ∷ bufs) = bufs

unfoldable pub pop_jmp : Globals → Globals
pop_jmp g = record g { env_stack = below_top g.env_stack }

abbrev pub top : List JmpBuf → Option JmpBuf
top [] = none
top (buf ∷ bufs) = some buf

abbrev pub message_of : Option CString → CString
message_of none = codes "exception"
message_of (some msg) = msg

-- With the place to go on at; none is exit(1).
unfoldable pub throw : Option CString → Globals → Globals × Option JmpBuf
throw msg g = (record g { last_error = some (message_of msg) }, top g.env_stack)

-- What client code shows: its effects, and the errors that catch hands to it.
pub data Event : Type 0 where
  did : ℕ → Event
  caught : Option CString → Event

pub data Machine : Type 0 where
  running : Cont → Globals → List Event → Machine
  finished : Globals → List Event → Machine
  exited : List Event → Machine

-- longjmp: setjmp returns 1, so that catch sets its variable and its block runs.
unfoldable pub resume : Globals × Option JmpBuf → List Event → Machine
resume (g, none) log = exited log
resume (g, some buf) log =
    running (code buf.handler (end_try buf.rest)) g (log ++ caught g.last_error ∷ [])

-- try: setjmp returns 0, and the block runs.
abbrev enter : Code → Cont → Option Globals → List Event → Machine
enter body rest none log = exited log
enter body rest (some g) log = running (code body (end_try rest)) g log

unfoldable pub step : Machine → Machine
unfolding push_jmp pop_jmp throw resume
step (running halt g log) = finished g log
step (running (code nothing k) g log) = running k g log
step (running (code (act n c) k) g log) = running (code c k) g (log ++ did n ∷ [])
step (running (code (throwing msg c) k) g log) = resume (throw msg g) log
step (running (code (try_catch body handler c) k) g log) =
    enter body (code c k) (push_jmp (record { handler = handler; rest = code c k }) g) log
step (running (end_try k) g log) = running k (pop_jmp g) log
step (finished g log) = finished g log
step (exited log) = exited log

unfoldable pub steps : ℕ → Machine → Machine
unfolding step
steps zero m = m
steps (suc n) m = steps n (step m)

abbrev pub no_handlers : Globals
no_handlers = record { env_stack = []; last_error = none }

abbrev pub start : Code → Machine
start c = running (code c halt) no_handlers []
