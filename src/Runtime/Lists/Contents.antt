-- ===== src/Runtime/Lists/Contents.antt =====
-- What the lists hold that the operations return.
use mathlib.Core.List.{append_assoc, append-nil}
use abscom.Prelude.{
  suc, ◌≡◌, refl, sym, ap, ◌∙◌, Bool, true, false, Option, List, [], ◌∷◌, ◌++◌, if◌then◌else◌,
  length, map,
}
use abscom.Runtime.Values.Defs.{Floats, Value, Items, list_value, nil, cons, size_items, is_true}
use abscom.Runtime.Values.Arith.{append_item}
use abscom.Runtime.Lists.Defs.{
  to_list, to_items, map_loop, map_func, comp_loop, filter_func, filter_or_all, map_or_id,
  list_comp,
}

-- The items for which a test holds, in their order.
abbrev pub selected {ℓ} : {A : Type ℓ} → (A → Bool) → List A → List A
selected keep [] = []
selected keep (x ∷ xs) = (if keep x then x ∷ [] else []) ++ selected keep xs

module _ {F : Type 0} where
  to_items-list : (xs : Items F) → to_items (to_list xs) ≡ xs
  to_items-list nil = refl
  to_items-list (cons x xs) = ap (cons x) (to_items-list xs)

  to_list-append_item :
      (xs : Items F) (x : Value F) → to_list (append_item xs x) ≡ to_list xs ++ x ∷ []
  unfolding append_item
  to_list-append_item nil x = refl
  to_list-append_item (cons y ys) x = ap (λ r. y ∷ r) (to_list-append_item ys x)

  pub length-to_list : (xs : Items F) → length (to_list xs) ≡ size_items xs
  unfolding size_items
  length-to_list nil = refl
  length-to_list (cons x xs) = ap suc (length-to_list xs)

  -- An item in front of others, at the end of what is there.
  pub append_front :
      (l : Items F) (x : Value F) (rest : List (Value F))
      → to_list (append_item l x) ++ rest ≡ to_list l ++ x ∷ rest
  append_front l x rest =
      ap (λ r. r ++ rest) (to_list-append_item l x) ∙ append_assoc (to_list l) (x ∷ []) rest

  map_loop_lem :
      (f : Value F → Value F) (res xs : Items F)
      → to_list (map_loop f res xs) ≡ to_list res ++ map f (to_list xs)
  unfolding map_loop
  map_loop_lem f res nil = sym (append-nil (to_list res))
  map_loop_lem f res (cons x xs) =
      map_loop_lem f (append_item res (f x)) xs ∙ append_front res (f x) (map f (to_list xs))

  comp_step :
      (b : Bool) (mapf : Value F → Value F) (res : Items F) (x : Value F) (rest : List (Value F))
      → to_list (if b then append_item res (mapf x) else res) ++ map mapf rest
        ≡ to_list res ++ map mapf ((if b then x ∷ [] else []) ++ rest)
  comp_step true mapf res x rest = append_front res (mapf x) (map mapf rest)
  comp_step false mapf res x rest = refl

  comp_loop_lem :
      (keep : Value F → Bool) (mapf : Value F → Value F) (res xs : Items F)
      → to_list (comp_loop keep mapf res xs) ≡ to_list res ++ map mapf (selected keep (to_list xs))
  unfolding comp_loop
  comp_loop_lem keep mapf res nil = sym (append-nil (to_list res))
  comp_loop_lem keep mapf res (cons x xs) =
      comp_loop_lem keep mapf (if keep x then append_item res (mapf x) else res) xs
      ∙ comp_step (keep x) mapf res x (selected keep (to_list xs))

  map_id : (xs : List (Value F)) → map (λ x. x) xs ≡ xs
  map_id [] = refl
  map_id (x ∷ xs) = ap (λ r. x ∷ r) (map_id xs)

  pub from_list :
      (xs : Items F) (ys : List (Value F))
      → to_list xs ≡ ys
      → list_value xs ≡ list_value (to_items ys)
  from_list xs ys e = ap list_value (sym (to_items-list xs) ∙ ap to_items e)

  -- map_func gives the results in order, filter_func the items whose result is true, and list_comp, of a list or a
  -- set, what the one function gives for the items that the other keeps.
  pub list_comp_lem :
      (fl : Floats F) (xs : Items F) (f : Value F → Value F) (mapf : Option (Value F → Value F))
      (filterf : Option (Value F → Bool))
      → (map_func (list_value xs) f ≡ list_value (to_items (map f (to_list xs))))
        × (filter_func fl (list_value xs) f
            ≡ list_value (to_items (selected (λ x. is_true fl (f x)) (to_list xs))))
        × (list_comp (list_value xs) mapf filterf
            ≡ list_value
                (to_items (map (map_or_id mapf) (selected (filter_or_all filterf) (to_list xs)))))
  unfolding map_func filter_func list_comp
  list_comp_lem fl xs f mapf filterf = (
    from_list (map_loop f nil xs) _ (map_loop_lem f nil xs),
    from_list _ _ (comp_loop_lem (λ x. is_true fl (f x)) (λ x. x) nil xs ∙ map_id _),
    from_list _ _ (comp_loop_lem (filter_or_all filterf) (map_or_id mapf) nil xs),
  )
