-- ===== src/Tests/RuntimeMaps.antt =====
-- The dictionaries, sets and lists of the runtime at concrete values.
use abscom.Prelude.{
  CString, false, Option, ℕ, if◌then◌else◌, ◌∷◌, some, List, str_eq, ℕ, ◌+◌, ◌*◌, ◌≡◌, refl, true,
  false, List, [], ◌==◌, codes,
}
use abscom.Prelude.Int.{pos, negsuc}
use abscom.Runtime.Values.Text.{long_text}
use abscom.Runtime.Functions.Defs.{AbsFunc, memo_key, cached_result, look_up}
use abscom.Runtime.Functions.Memo.{look_up-twice}
use abscom.Runtime.Events.Defs.{Handler, on, emit}
use abscom.Runtime.Events.Order.{on-emit}
use abscom.Prelude.Run.{◌>>=◌, done}
use abscom.Runtime.Values.Arith.{append_item}
use abscom.Runtime.Values.Defs.{Floats, Value, Items, int_value, str_value, set_value, nil, cons}
use abscom.Runtime.Dict.Defs.{Dict, NodeAlloc, new_dict, put}
use abscom.Runtime.Dict.Laws.{IsDict, view}
use abscom.Runtime.Dict.Storing.{Stored, put-Stored, new_dict-IsDict, new_dict-view}
use abscom.Runtime.Sets.Defs.{set_contains, set_add}
use abscom.Runtime.Sets.Distinct.{Distinct, set_add-set}

abbrev alloc : NodeAlloc
alloc = record { node = true; key_copy = true }

put-Stored_example :
    (d' : Dict ℕ) × (put alloc new_dict (codes "a") 7 ≡ done d')
    × IsDict d'
    × Stored (view {V = ℕ} new_dict (codes "a")) true new_dict (codes "a") 7 d'
put-Stored_example = put-Stored alloc new_dict (codes "a") 7 (new_dict-IsDict ℕ) refl

abbrev whole : Floats ℕ
whole = record {
  of_long = λ i. 0;
  to_long = λ f. pos f;
  lt = λ a b. false;
  eq = λ a b. a == b;
  plus = λ a b. a + b;
  minus = λ a b. a;
  times = λ a b. a * b;
  text = λ f. [];
  long_text = λ f. [];
  atof = λ s. 7;
}

abbrev letter : Value ℕ
letter = str_value (codes "a")

abbrev letters : Items ℕ
letters = cons letter (cons (str_value (codes "b")) nil)

abbrev others : Items ℕ
others = cons (str_value (codes "b")) (cons (str_value (codes "c")) nil)

-- A set of which the letters are an item.
abbrev holding : Items ℕ
holding = cons (set_value letters) nil

set_add-set_example :
    (set_contains whole (set_value holding) (set_value letters) ≡ done false)
    × (set_add whole (set_value holding) (set_value letters)
        ≡ set_value (append_item holding (set_value letters)))
set_add-set_example = set_add-set whole holding letters

abbrev numbers : Items ℕ
numbers = cons (int_value (pos 3)) (cons (int_value (negsuc 0)) (cons (int_value (pos 2)) nil))

-- The state is the list of what was emitted.
abbrev recorder : Handler ℕ (List ℕ)
recorder message seen = message ∷ seen

on-emit_example :
    (bus' : Dict (List (Handler ℕ (List ℕ)))) × (on alloc new_dict
        (some (codes "tick"))
        (some recorder)
      ≡ done bus')
    × IsDict bus'
    × ((j : CString) (message : ℕ) (w : List ℕ)
        → emit bus' (some j) message w ≡ (
            if str_eq (codes "tick") j
            then (emit new_dict (some j) message w >>= λ w'. done (recorder message w'))
            else emit new_dict (some j) message w))
on-emit_example =
    on-emit alloc new_dict (codes "tick") recorder (new_dict-IsDict (List (Handler ℕ (List ℕ))))
      refl refl

-- The number of the argument, or 0 for another value, and 1. The state counts the calls.
abbrev next_number : AbsFunc ℕ ℕ
next_number (int_value (pos n)) calls = (int_value (pos (n + 1)), calls + 1)
next_number v calls = (int_value (pos 1), calls + 1)

-- The text "5" has the key of the number 5, and gets its result.
look_up-twice_example :
    (cache' : Dict (Value ℕ)) × (look_up alloc (some next_number) new_dict (int_value (pos 5)) [] 0
      ≡ done (int_value (pos 6), cache', 1))
    × IsDict cache'
    × ((func_ptr : Option (AbsFunc ℕ ℕ)) (later : ℕ)
        → look_up alloc func_ptr cache' (str_value (codes "5")) [] later
          ≡ done (int_value (pos 6), cache', later))
unfolding memo_key cached_result long_text
look_up-twice_example =
    look_up-twice alloc next_number new_dict (int_value (pos 5)) (str_value (codes "5")) [] [] 0
      (new_dict-IsDict (Value ℕ)) refl refl (new_dict-view (Value ℕ) (codes "5")) refl refl
