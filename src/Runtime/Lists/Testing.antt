-- ===== src/Runtime/Lists/Testing.antt =====
-- min_val, max_val, any, all and sorted of src/abs.c.
use abscom.Prelude.{Bool, true, false, not, if◌then◌else◌}
use abscom.Prelude.Run.{Run, done, ◌>>=◌}
use abscom.Sort.Defs.{Sign, below, same, above, is_below, is_above, sort_bubble}
use abscom.Runtime.Values.Defs.{
  Floats, Value, Items, none_value, bool_value, list_value, nil, cons, is_true, compare_objs,
}
use abscom.Runtime.Lists.Defs.{to_list, to_items}

-- The order that the test of sorted swaps by.
abbrev pub opposite : Bool → Sign → Sign
opposite false s = s
opposite true below = above
opposite true same = same
opposite true above = below

module _ {F : Type 0} (fl : Floats F) where
  -- The loops of min_val and max_val, which replace the best item by one that compares as `better`.
  unfoldable pub best_loop : (Sign → Bool) → Value F → Items F → Value F
  unfolding compare_objs
  best_loop better best nil = best
  best_loop better best (cons x xs) =
      best_loop better (if better (compare_objs fl x best) then x else best) xs

  unfoldable pub min_val : Value F → Value F
  unfolding best_loop
  min_val (list_value (cons x xs)) = best_loop is_below x xs
  min_val v = none_value

  unfoldable pub max_val : Value F → Value F
  unfolding best_loop
  max_val (list_value (cons x xs)) = best_loop is_above x xs
  max_val v = none_value

  unfoldable pub any_item : Items F → Bool
  unfolding is_true
  any_item nil = false
  any_item (cons x xs) = if is_true fl x then true else any_item xs

  unfoldable pub all_items : Items F → Bool
  unfolding is_true
  all_items nil = true
  all_items (cons x xs) = if not (is_true fl x) then false else all_items xs

  unfoldable pub any : Value F → Value F
  unfolding any_item
  any (list_value xs) = bool_value (any_item xs)
  any v = bool_value false

  unfoldable pub all : Value F → Value F
  unfolding all_items
  all (list_value xs) = bool_value (all_items xs)
  all v = bool_value true

  -- sorted copies the items, and its loops are those of sort_bubble.
  unfoldable pub sorted : Value F → Bool → Run (Value F)
  unfolding sort_bubble compare_objs
  sorted (list_value xs) reverse = do
    items ← sort_bubble (λ a b. opposite reverse (compare_objs fl a b)) (to_list xs)
    done (list_value (to_items items))
  sorted v reverse = done none_value
