-- ===== src/Hashmap/Refinement.antt =====
-- The map as an abstract data type: a state that reads and counts, and what each call may do to it.
use mathlib.Core.Path.{subst}
use abscom.Prelude.{
  ℕ, ◌+◌, ◌≡◌, inl, inr, refl, sym, Bool, Option, none, some, List, [], ◌∷◌, if◌then◌else◌, CString,
  str_eq,
}
use abscom.Hashmap.Defs.{
  Hashmap, Status, success, failure, Run, done, fault, ◌>>=◌, Allocator, assign, remove, get,
  contains, clear, size,
}
use abscom.Hashmap.Invariant.{IsValid}
use abscom.Hashmap.Methods.Find.{view, pointer, is_some, get-view, contains-view}
use abscom.Hashmap.Methods.Put.{Ended, assign-Ended}
use abscom.Hashmap.Methods.Rest.{remove-Removed, clear_lem}

pub data Call {ℓ} (V : Type ℓ) : Type ℓ where
  call_set : Allocator → CString → Option V → Call V
  call_remove call_get call_contains : CString → Call V
  call_size call_clear : Call V

pub data Reply {ℓ} (V : Type ℓ) : Type ℓ where
  status : Status → Reply V
  value : Option V → Reply V
  truth : Bool → Reply V
  number : ℕ → Reply V
  nothing : Reply V

pub record Abstract {ℓ} (V : Type ℓ) : Type ℓ where
  pub read : CString → Option (Option V)
  pub entries : ℕ

module _ {ℓ} {V : Type ℓ} where
  -- What a call may answer, and the state after it. Only a `set` may fail, and then nothing changes.
  pub data May (a : Abstract V) : Call V → Reply V → Abstract V → Type ℓ where
    set_ok :
        (alloc : Allocator) (k : CString) (v : Option V)
        → May a (call_set alloc k v) (status success) (record {
          read = λ j. if str_eq k j then some v else a.read j;
          entries = a.entries + (if is_some (a.read k) then 0 else 1);
        })
    set_fails :
        (alloc : Allocator) (k : CString) (v : Option V)
        → May a (call_set alloc k v) (status failure) a
    remove_ok :
        (k : CString) (v : Option V) (n : ℕ)
        → a.read k ≡ some v
        → n + 1 ≡ a.entries
        → May a
            (call_remove k)
            (status success)
            (record { read = λ j. if str_eq k j then none else a.read j; entries = n })
    remove_absent : (k : CString) → a.read k ≡ none → May a (call_remove k) (status failure) a
    get_reads : (k : CString) → May a (call_get k) (value (pointer (a.read k))) a
    contains_tells : (k : CString) → May a (call_contains k) (truth (is_some (a.read k))) a
    size_counts : May a call_size (number a.entries) a
    clear_empties : May a call_clear nothing (record { read = λ j. none; entries = 0 })

  -- A history of calls, with their answers.
  pub data History : Abstract V → List (Call V) → List (Reply V) → Abstract V → Type ℓ where
    start : (a : Abstract V) → History a [] [] a
    next :
        {a b c : Abstract V} {call : Call V} {reply : Reply V} {calls : List (Call V)}
        {replies : List (Reply V)}
        → May a call reply b
        → History b calls replies c
        → History a (call ∷ calls) (reply ∷ replies) c

  -- The map after a call that returned it.
  abbrev with_map :
      {A : Type 0} → A × Option (Hashmap V) → (A → Reply V) → Run (Reply V × Hashmap V)
  with_map (a, none) f = fault
  with_map (a, some m) f = done (f a, m)

  unfoldable pub perform : Call V → Hashmap V → Run (Reply V × Hashmap V)
  perform (call_set alloc k v) m = do r ← assign alloc (some m) (some k) v; with_map r status
  perform (call_remove k) m = do r ← remove (some m) (some k); with_map r status
  perform (call_get k) m = do v ← get (some m) (some k); done (value v, m)
  perform (call_contains k) m = do b ← contains (some m) (some k); done (truth b, m)
  perform call_size m = done (number (size (some m)), m)
  perform call_clear m = done (nothing, clear m)

  unfoldable pub perform_all : List (Call V) → Hashmap V → Run (List (Reply V) × Hashmap V)
  perform_all [] m = done ([], m)
  perform_all (c ∷ cs) m = do
    (reply, m') ← perform c m
    (replies, m'') ← perform_all cs m'
    done (reply ∷ replies, m'')

  -- The abstract state that a valid map stands for.
  abbrev pub abstract_of : Hashmap V → Abstract V
  abstract_of m = record { read = view m; entries = m.count }

  abstract_eq :
      (m : Hashmap V) (read : CString → Option (Option V)) (n : ℕ)
      → ((j : CString) → view m j ≡ read j)
      → m.count ≡ n
      → record { read = read; entries = n } ≡ abstract_of m
  abstract_eq m read n e f = λ i. record { read = λ j. sym (e j) i; entries = sym f i }

  Ended-May :
      (alloc : Allocator) (k : CString) (v : Option V) (m : Hashmap V) (s : Status) (m' : Hashmap V)
      → Ended k v m s m'
      → IsValid m' × May (abstract_of m) (call_set alloc k v) (status s) (abstract_of m')
  Ended-May alloc k v m success m' e = (
    e.valid,
    subst (May (abstract_of m) (call_set alloc k v) (status success))
        (abstract_eq m' _ _ e.reads e.count) (set_ok alloc k v),
  )
  Ended-May alloc k v m failure m' e = (
    e.valid,
    subst (May (abstract_of m) (call_set alloc k v) (status failure))
        (abstract_eq m' (view m) m.count e.reads e.count) (set_fails alloc k v),
  )

  perform-May :
      (c : Call V) (m : Hashmap V)
      → IsValid m
      → (reply : Reply V) × (m' : Hashmap V) × (perform c m ≡ done (reply, m'))
        × IsValid m'
        × May (abstract_of m) c reply (abstract_of m')
  unfolding perform size
  perform-May (call_get k) m valid =
      (value (pointer (view m k)), m, rw (get-view m valid k), valid, get_reads k)
  perform-May (call_contains k) m valid =
      (truth (is_some (view m k)), m, rw (contains-view m valid k), valid, contains_tells k)
  perform-May call_size m valid = (number m.count, m, refl, valid, size_counts)
  perform-May call_clear m valid =
      let (valid', reads, zero_size, _, _) = clear_lem m valid in
      (
        nothing,
        clear m,
        refl,
        valid',
        subst (May (abstract_of m) call_clear nothing)
            (abstract_eq (clear m) (λ j. none) 0 reads zero_size) clear_empties,
      )
  perform-May (call_remove k) m valid = elim (remove-Removed m k valid) [
    | inl (missing, run) ↦ (status failure, m, rw (run, ◌>>=◌), valid, remove_absent k missing)
    | inr (v, m', found, run, r) ↦ (
      status success,
      m',
      rw (run, ◌>>=◌),
      r.valid,
      subst (May (abstract_of m) (call_remove k) (status success))
          (abstract_eq m' _ m'.count r.reads refl) (remove_ok k v m'.count found r.count),
    )
  ]
  perform-May (call_set alloc k v) m valid =
      let (s, m', run, ended, _) = assign-Ended alloc m k v valid in
      let (valid', may) = Ended-May alloc k v m s m' ended in
      (status s, m', rw (run, ◌>>=◌), valid', may)

  -- From a valid map, any sequence of calls, with any allocators, ends without reading outside of the
  -- arrays or losing the invariant, and its answers are a history of the abstract data type.
  pub perform_all-History :
      (cs : List (Call V)) (m : Hashmap V)
      → IsValid m
      → (replies : List (Reply V)) × (m' : Hashmap V) × (perform_all cs m ≡ done (replies, m'))
        × IsValid m'
        × History (abstract_of m) cs replies (abstract_of m')
  unfolding perform_all
  perform_all-History [] m valid = ([], m, refl, valid, start (abstract_of m))
  perform_all-History (c ∷ cs) m valid =
      let (reply, m₁, run, valid₁, may) = perform-May c m valid in
      let (replies, m₂, runs, valid₂, history) = perform_all-History cs m₁ valid₁ in
      (reply ∷ replies, m₂, rw (run, ◌>>=◌, runs), valid₂, next may history)
