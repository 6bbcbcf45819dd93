-- ===== src/Tests/Maps.antt =====
-- The hash map: a session, and the theorems at its states.
use abscom.Prelude.{
  ℕ, ◌+◌, ◌≡◌, ◌≤◌, ◌^◌, refl, true, Option, none, some, List, [], ◌∷◌, CString, codes, str_eq,
  length,
}
use abscom.Hashmap.Defs.{
  Hashmap, Status, success, Run, done, fault, Allocator, put, find_key, find_loop, place_loop,
  move_all, vacant_loop, resize, allocates, calloc, allocate_first, grow, store, fill, home,
  advance, assign, get, remove, size, foreach,
}
use abscom.Hash.{fnv1a64_str}
use abscom.Hashmap.Invariant.{IsValid}
use abscom.Hashmap.Methods.Find.{view}
use abscom.Hashmap.Methods.Grow.{IsGenerous}
use abscom.Hashmap.Methods.Put.{Ended, assign-Ended}
use abscom.Hashmap.Methods.Rest.{pairs, assoc, visit, new_map, new_map-IsValid, foreach-visit}
use abscom.Hashmap.Refinement.{
  Call, call_set, call_remove, call_get, call_size, Reply, status, value, number, History, perform,
  perform_all, abstract_of, perform_all-History,
}

abbrev generous : Allocator
generous site n = true

abbrev cat : CString
cat = codes "cat"

abbrev dog : CString
dog = codes "dog"

abbrev session : List (Call ℕ)
session =
    call_set generous cat (some 1)
    ∷ call_set generous dog (some 2)
    ∷ call_set generous cat (some 3)
    ∷ call_remove dog
    ∷ call_get cat
    ∷ call_get dog
    ∷ call_size
    ∷ []

abbrev replies_of : Run (List (Reply ℕ) × Hashmap ℕ) → List (Reply ℕ)
replies_of (done (replies, m)) = replies
replies_of fault = []

session_replies :
    replies_of (perform_all session (new_map true))
    ≡ status success
      ∷ status success
      ∷ status success
      ∷ status success
      ∷ value (some 3)
      ∷ value none
      ∷ number 1
      ∷ []
unfolding perform_all perform assign put get remove find_key find_loop place_loop move_all
    vacant_loop resize allocates calloc allocate_first grow store fill home advance fnv1a64_str
    str_eq size
session_replies = refl

perform_all-History_example :
    (replies : List (Reply ℕ)) × (m' : Hashmap ℕ) × (perform_all session (new_map true)
      ≡ done (replies, m'))
    × IsValid m'
    × History (abstract_of (new_map true)) session replies (abstract_of m')
perform_all-History_example = perform_all-History session (new_map true) (new_map-IsValid true)

abbrev sample : Hashmap ℕ
sample = perform_all-History_example.1

sample-IsValid : IsValid sample
sample-IsValid = perform_all-History_example.3

assign-Ended_example :
    (s : Status) × (m' : Hashmap ℕ) × (assign generous (some sample) (some dog) (some 4)
      ≡ done (s, some m'))
    × Ended dog (some 4) sample s m'
    × (IsGenerous generous → sample.cap ≤ 2 ^ 58 → s ≡ success)
assign-Ended_example = assign-Ended generous sample dog (some 4) sample-IsValid

-- A visitor that counts.
abbrev counting : CString → Option ℕ → ℕ → ℕ × ℕ
counting k v n = (0, n + 1)

foreach-visit_example :
    (foreach (some sample) (some counting) 0 ≡ visit counting (pairs sample.slots) 0)
    × (length (pairs sample.slots) ≡ size (some sample))
    × ((j : CString) → view sample j ≡ assoc j (pairs sample.slots))
foreach-visit_example = foreach-visit sample counting 0 sample-IsValid
