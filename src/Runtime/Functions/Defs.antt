-- ===== src/Runtime/Functions/Defs.antt =====
-- make_func, def, memoize, decorate, decorate_func, call_func, call_memoized and func_name of src/abs_func.c. A
-- function of C takes a value and what else it may read and write, the state S. The wrapper of decorate_func is kept
-- together with its target, to which it is applied. An address is the text that printf gives for it with "%p".
use abscom.Prelude.{Option, none, some, [], ◌++◌, CString, codes, take}
use abscom.Prelude.Run.{Run, done, fault, ◌>>=◌}
use abscom.Runtime.Dict.Defs.{Dict, NodeAlloc, new_dict, put, dget}
use abscom.Runtime.Values.Defs.{Value, null, none_value, int_value, str_value, error_value}
use abscom.Runtime.Values.Text.{long_text}

abbrev pub AbsFunc : Type 0 → Type 0 → Type 0
AbsFunc F S = Value F → S → Value F × S

pub record Func (F S : Type 0) : Type 0 where
  pub func_ptr : Option (AbsFunc F S)
  pub wrapped : Option (AbsFunc F S)
  pub name : Option CString
  pub cache : Option (Dict (Value F))

-- The copy of a NULL name is the empty text.
abbrev pub name_or_empty : Option CString → CString
name_or_empty none = []
name_or_empty (some name) = name

module _ {F : Type 0} where
  -- A NULL argument is the object None, which has an address of its own.
  abbrev pub or_none : CString → Value F → CString → Value F × CString
  or_none none_address null address = (none_value, none_address)
  or_none none_address v address = (v, address)

  -- The key in the cache of an argument at an address, cut to 63 characters.
  unfoldable pub memo_key : Value F → CString → CString
  memo_key (int_value i) address = take 63 (long_text i)
  memo_key (str_value s) address = take 63 s
  memo_key v address = take 63 (codes "ptr_" ++ address)

  -- What the cache gives: none where the function is to be called. It reads the type of what it finds, so a NULL
  -- result that was stored is a fault.
  unfoldable pub cached_result : Option (Value F) → Run (Option (Value F))
  cached_result none = done none
  cached_result (some null) = fault
  cached_result (some none_value) = done none
  cached_result (some v) = done (some v)

module _ {F S : Type 0} where
  unfoldable pub make_func : Option (AbsFunc F S) → Option (Func F S)
  make_func none = none
  make_func (some f) =
      some (record { func_ptr = some f; wrapped = none; name = none; cache = none })

  unfoldable pub def : Option (AbsFunc F S) → Option CString → Option (Func F S)
  def none name = none
  def (some f) name =
      some (record {
        func_ptr = some f;
        wrapped = none;
        name = some (name_or_empty name);
        cache = none;
      })

  unfoldable pub memoize : Option (AbsFunc F S) → Option (Func F S)
  unfolding new_dict
  memoize none = none
  memoize (some f) =
      some (record { func_ptr = some f; wrapped = none; name = none; cache = some new_dict })

  -- The function that is decorated is kept for func_meta only.
  unfoldable pub decorate : Func F S → Option (AbsFunc F S) → Func F S
  decorate f none = f
  decorate f (some wrapper_logic) = record {
    func_ptr = some wrapper_logic;
    wrapped = none;
    name = none;
    cache = none;
  }

  -- decorate_func of a function, with a wrapper that takes it and the argument
  unfoldable pub decorate_func : Func F S → Option (Func F S → AbsFunc F S) → Func F S
  decorate_func target none = target
  decorate_func target (some wrapper) = record {
    func_ptr = none;
    wrapped = some (wrapper target);
    name = target.name;
    cache = none;
  }

  unfoldable pub func_name : Func F S → Value F
  func_name f = elim f.name [ none ↦ none_value | some name ↦ str_value name ]

  abbrev pub call_pointer : Option (AbsFunc F S) → Value F → S → Run (Value F × S)
  call_pointer none arg state = fault
  call_pointer (some f) arg state = done (f arg state)

  -- call_memoized past its tests, for the cache: the result, the cache and the state behind the call
  unfoldable pub look_up :
      NodeAlloc
      → Option (AbsFunc F S)
      → Dict (Value F)
      → Value F
      → CString
      → S
      → Run (Value F × Dict (Value F) × S)
  unfolding memo_key cached_result
  look_up alloc func_ptr cache arg address state = do
    found ← dget cache (memo_key arg address)
    cached ← cached_result found
    elim cached [
      | some v ↦ done (v, cache, state)
      | none ↦ do
        called ← call_pointer func_ptr arg state
        cache' ← put alloc cache (memo_key arg address) called.0
        done (called.0, cache', called.1)
    ]

  unfoldable pub call_memoized :
      NodeAlloc → CString → Func F S → Value F → CString → S → Run (Value F × Func F S × S)
  unfolding look_up
  call_memoized alloc none_address f arg address state = elim f.cache [
    | none ↦ done (error_value (codes "Not a memoized function"), f, state)
    | some cache ↦ do
      let (arg', address') = or_none none_address arg address
      r ← look_up alloc f.func_ptr cache arg' address' state
      done (r.0, record f { cache = some r.1 }, r.2)
  ]

  unfoldable pub call_func :
      NodeAlloc → CString → Func F S → Value F → CString → S → Run (Value F × Func F S × S)
  unfolding call_memoized
  call_func alloc none_address f arg address state = elim f.cache [
    | some cache ↦ call_memoized alloc none_address f arg address state
    | none ↦ elim f.wrapped [
      | some wrapper ↦ let (v, state') = wrapper arg state in done (v, f, state')
      | none ↦ do called ← call_pointer f.func_ptr arg state; done (called.0, f, called.1)
    ]
  ]
