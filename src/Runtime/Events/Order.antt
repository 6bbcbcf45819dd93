-- ===== src/Runtime/Events/Order.antt =====
-- Handlers run in the order in which they were registered.
use abscom.Prelude.{
  ◌≡◌, refl, sym, ap, ◌∙◌, true, some, List, [], ◌∷◌, ◌++◌, CString, str_eq, if◌then◌else◌,
  Bool-cases, inl, inr, str_eq_iff,
}
use abscom.Prelude.Run.{Run, done, ◌>>=◌}
use abscom.Runtime.Dict.Defs.{Dict, NodeAlloc}
use abscom.Runtime.Dict.Laws.{IsDict, view, dget-view}
use abscom.Runtime.Dict.Storing.{put-Stored, Stored-IsUpdate}
use abscom.Runtime.Events.Defs.{Handler, handlers_or_nil, on, call_all, emit}

module _ {ℓ κ} {D : Type ℓ} {W : Type κ} where
  call_all-append :
      (fs : List (Handler D W)) (f : Handler D W) (message : D) (w : W)
      → call_all (fs ++ f ∷ []) message w ≡ f message (call_all fs message w)
  unfolding call_all
  call_all-append [] f message w = refl
  call_all-append (g ∷ fs) f message w = call_all-append fs f message (g message w)

module _ {ℓ κ} {D : Type ℓ} {W : Type κ} where
  emit-view :
      (bus : Dict (List (Handler D W))) (j : CString) (message : D) (w : W)
      → IsDict bus
      → emit bus (some j) message w ≡ done (call_all (handlers_or_nil (view bus j)) message w)
  unfolding emit
  emit-view bus j message w v = rw (dget-view bus j v, ◌>>=◌) refl

  -- What an update of the handlers of an event means for emit.
  emit_after :
      (bus bus' : Dict (List (Handler D W))) (event_name : CString) (handler : Handler D W)
      (j : CString) (message : D) (w : W)
      → IsDict bus
      → IsDict bus'
      → view bus' j ≡ (
          if str_eq event_name j
          then some (handlers_or_nil (view bus event_name) ++ handler ∷ [])
          else view bus j)
      → emit bus' (some j) message w ≡ (
          if str_eq event_name j
          then (emit bus (some j) message w >>= λ w'. done (handler message w'))
          else emit bus (some j) message w)
  emit_after bus bus' event_name handler j message w v v' update =
      let items = handlers_or_nil (view bus event_name) ++ handler ∷ [] in
      elim (Bool-cases (str_eq event_name j)) [
        | inl e ↦
            let same : event_name ≡ j = (str_eq_iff event_name j).0 e in
            let there : (if str_eq event_name j then some items else view bus j) ≡ some items =
              ap (λ b. if b then some items else view bus j) e in
            rw (e) (
              emit-view bus' j message w v'
              ∙ ap (λ o. done (call_all (handlers_or_nil o) message w)) (update ∙ there)
              ∙ ap done (call_all-append (handlers_or_nil (view bus event_name)) handler message w)
              ∙ ap (λ k. done (handler message (call_all (handlers_or_nil (view bus k)) message w)))
                  same
              ∙ sym (
                  ap (λ (r : Run W). r >>= λ w'. done (handler message w'))
                    (emit-view bus j message w v)))
        | inr e ↦
            let elsewhere : (if str_eq event_name j then some items else view bus j) ≡ view bus j =
              ap (λ b. if b then some items else view bus j) e in
            rw (e) (
              emit-view bus' j message w v'
              ∙ ap (λ o. done (call_all (handlers_or_nil o) message w)) (update ∙ elsewhere)
              ∙ sym (emit-view bus j message w v))
      ]

  -- Registering a handler on a valid bus, with memory for a node and its key, ends in a valid bus. To emit
  -- the event then does what it did before, and calls the new handler last; other events are as before.
  pub on-emit :
      (alloc : NodeAlloc) (bus : Dict (List (Handler D W))) (event_name : CString)
      (handler : Handler D W)
      → IsDict bus
      → alloc.node ≡ true
      → alloc.key_copy ≡ true
      → (bus' : Dict (List (Handler D W))) × (on alloc bus (some event_name) (some handler)
          ≡ done bus')
        × IsDict bus'
        × ((j : CString) (message : D) (w : W)
            → emit bus' (some j) message w ≡ (
                if str_eq event_name j
                then (emit bus (some j) message w >>= λ w'. done (handler message w'))
                else emit bus (some j) message w))
  unfolding on
  on-emit alloc bus event_name handler v space copy =
      let items = handlers_or_nil (view bus event_name) ++ handler ∷ [] in
      let (bus', run, v', stored) = put-Stored alloc bus event_name items v copy in
      let update =
        Stored-IsUpdate (view bus event_name) alloc.node bus event_name items bus' space stored in
      (
        bus',
        rw (dget-view bus event_name v, ◌>>=◌) run,
        v',
        λ j message w. emit_after bus bus' event_name handler j message w v v' (update j),
      )
