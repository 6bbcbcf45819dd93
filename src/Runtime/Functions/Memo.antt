-- ===== src/Runtime/Functions/Memo.antt =====
-- What a memoized function returns for an argument that has the key of an earlier one.
use abscom.Prelude.{
  ◌≡◌, refl, sym, ap, ◌∙◌, true, none, some, Option, CString, str_eq_refl, if◌then◌else◌,
}
use abscom.Prelude.Run.{done, ◌>>=◌}
use abscom.Runtime.Values.Defs.{Value}
use abscom.Runtime.Dict.Defs.{Dict, NodeAlloc}
use abscom.Runtime.Dict.Laws.{IsDict, view, dget-view}
use abscom.Runtime.Dict.Storing.{put-Stored, Stored-IsUpdate}
use abscom.Runtime.Functions.Defs.{AbsFunc, memo_key, cached_result, look_up}

module _ {F S : Type 0} (alloc : NodeAlloc) where
  -- A stored result is returned, whatever the function would give.
  look_up-stored :
      (func_ptr : Option (AbsFunc F S)) (cache : Dict (Value F)) (arg : Value F) (address : CString)
      (state : S) (v : Value F)
      → IsDict cache
      → view cache (memo_key arg address) ≡ some v
      → cached_result (some v) ≡ done (some v)
      → look_up alloc func_ptr cache arg address state ≡ done (v, cache, state)
  unfolding look_up
  look_up-stored func_ptr cache arg address state v ok e kept =
      rw (dget-view cache (memo_key arg address) ok, ◌>>=◌, e, kept) refl

  -- A call with an argument whose key has no result, on a valid cache with memory for a node and for the copy of its
  -- key, calls the function and leaves a valid cache. If the result is neither None nor NULL, then a call with any
  -- argument of the same key returns it and calls nothing: it leaves the state as it is, and no function need be there.
  pub look_up-twice :
      (f : AbsFunc F S) (cache : Dict (Value F)) (a b : Value F) (address address' : CString)
      (state : S)
      → let (result, after) = f a state in
        IsDict cache
        → alloc.node ≡ true
        → alloc.key_copy ≡ true
        → view cache (memo_key a address) ≡ none
        → cached_result (some result) ≡ done (some result)
        → memo_key a address ≡ memo_key b address'
        → (cache' : Dict (Value F)) × (look_up alloc (some f) cache a address state
            ≡ done (result, cache', after))
          × IsDict cache'
          × ((func_ptr : Option (AbsFunc F S)) (later : S)
              → look_up alloc func_ptr cache' b address' later ≡ done (result, cache', later))
  unfolding look_up
  look_up-twice f cache a b address address' state ok space copy absent kept same =
      let key = memo_key a address in
      let result = (f a state).0 in
      let (cache', run, ok', stored) = put-Stored alloc cache key result ok copy in
      let update =
        Stored-IsUpdate (view cache key) alloc.node cache key result cache' space stored in
      let there : view cache' key ≡ some result =
        update key ∙ ap (λ b. if b then some result else view cache key) (str_eq_refl key) in
      let there' = ap (view cache') (sym same) ∙ there in
      (
        cache',
        rw (dget-view cache key ok, ◌>>=◌, absent, cached_result, run) refl,
        ok',
        λ func_ptr later. look_up-stored func_ptr cache' b address' later result ok' there' kept,
      )
