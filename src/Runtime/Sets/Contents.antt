-- ===== src/Runtime/Sets/Contents.antt =====
-- What the union and the difference of two sets hold.
use abscom.Prelude.{Bool, ◌||◌, not, if◌then◌else◌}
use abscom.Runtime.Values.Defs.{Floats, Value, Items, nil, cons}
use abscom.Runtime.Sets.Defs.{is_null, holds}
use abscom.Runtime.Sets.Distinct.{Distinct}

-- The items that a test selects, in their order.
abbrev pub selected : {F : Type 0} → (Value F → Bool) → Items F → Items F
selected p nil = nil
selected p (cons x xs) = if p x then cons x (selected p xs) else selected p xs

-- The items of the one and then those of the other.
abbrev pub followed_by : {F : Type 0} → Items F → Items F → Items F
followed_by nil ys = ys
followed_by (cons x xs) ys = cons x (followed_by xs ys)

-- Is an item neither NULL nor among the items?
abbrev pub new_to : {F : Type 0} → Floats F → Items F → Value F → Bool
new_to fl xs item = not (is_null item || holds fl xs item)
