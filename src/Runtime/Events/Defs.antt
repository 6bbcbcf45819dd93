-- ===== src/Runtime/Events/Defs.antt =====
-- EventBus, on and emit of src/abs_events.c. A bus is a dictionary whose values are the lists of handlers. A
-- handler is what a call of it with the data of the event does to a state, which is of any type. The list of
-- an event is changed where it is, so that its new items are those that the dictionary holds.
use abscom.Prelude.{Option, none, some, List, [], ◌∷◌, ◌++◌, CString}
use abscom.Prelude.Run.{Run, done, ◌>>=◌}
use abscom.Runtime.Dict.Defs.{Dict, NodeAlloc, new_dict, put, dget}

abbrev pub Handler {ℓ κ} : Type ℓ → Type κ → Type (ℓ ⊔ κ)
Handler D W = D → W → W

-- The handlers of an event; none where nothing was registered.
abbrev pub handlers_or_nil {ℓ} : {A : Type ℓ} → Option (List A) → List A
handlers_or_nil none = []
handlers_or_nil (some hs) = hs

module _ {ℓ} {H : Type ℓ} where
  unfoldable pub event_bus : Dict (List H)
  unfolding new_dict
  event_bus = new_dict

  -- A NULL event or handler registers nothing.
  unfoldable pub on : NodeAlloc → Dict (List H) → Option CString → Option H → Run (Dict (List H))
  on alloc bus none handler = done bus
  on alloc bus (some event_name) none = done bus
  on alloc bus (some event_name) (some handler) = do
    found ← dget bus event_name
    put alloc bus event_name (handlers_or_nil found ++ handler ∷ [])

-- the loop of emit
unfoldable pub call_all {ℓ κ} : {D : Type ℓ} {W : Type κ} → List (Handler D W) → D → W → W
call_all [] message w = w
call_all (f ∷ fs) message w = call_all fs message (f message w)

unfoldable pub emit {ℓ κ} :
    {D : Type ℓ} {W : Type κ} → Dict (List (Handler D W)) → Option CString → D → W → Run W
unfolding call_all
emit bus none message w = done w
emit bus (some event_name) message w = do
  found ← dget bus event_name
  done (call_all (handlers_or_nil found) message w)
