-- ===== src/Runtime/Sets/Distinct.antt =====
-- A set in which no item is taken for a later one stays such a set.
use abscom.Prelude.{
  arith, ap, ◌≡◌, refl, Bool, true, false, ◌||◌, not, if◌then◌else◌, Bool-cases, inl, inr,
}
use abscom.Prelude.Run.{done}
use abscom.Runtime.Values.Defs.{Floats, Value, Items, nil, cons, eq, set_value}
use abscom.Runtime.Values.Arith.{append_item}
use abscom.Runtime.Sets.Defs.{
  set_contains, contains, is_null, same_item, holds, add_item, set_add, add_items, in_set,
  diff_items,
}

-- The items are apart from one that stands in front of them.
abbrev pub Apart : {F : Type 0} → Floats F → Value F → Items F → Type 0
Apart fl x nil = Unit
Apart fl x (cons y ys) = (same_item fl x y ≡ false) × Apart fl x ys

-- No item is taken for a later one.
abbrev pub Distinct : {F : Type 0} → Floats F → Items F → Type 0
Distinct fl nil = Unit
Distinct fl (cons x xs) = Apart fl x xs × Distinct fl xs

both_false : (b r : Bool) → (if b then true else r) ≡ false → (b ≡ false) × (r ≡ false)
both_false true r e = absurd (cc)
both_false false r e = (refl, e)

module _ {F : Type 0} (fl : Floats F) where
  Apart-append_item :
      (x : Value F) (xs : Items F) (y : Value F)
      → Apart fl x xs
      → same_item fl x y ≡ false
      → Apart fl x (append_item xs y)
  unfolding append_item
  Apart-append_item x nil y h e = (e, tt)
  Apart-append_item x (cons z zs) y (h, hs) e = (h, Apart-append_item x zs y hs e)

  holds-rest :
      (x : Value F) (xs : Items F) (y : Value F)
      → holds fl (cons x xs) y ≡ false
      → (same_item fl x y ≡ false) × (holds fl xs y ≡ false)
  unfolding holds
  holds-rest x xs y e = both_false (same_item fl x y) (holds fl xs y) e

  Distinct-append_item :
      (xs : Items F) (y : Value F)
      → Distinct fl xs
      → holds fl xs y ≡ false
      → Distinct fl (append_item xs y)
  unfolding append_item holds
  Distinct-append_item nil y h e = (tt, tt)
  Distinct-append_item (cons x xs) y (h, hs) e =
      let (apart, absent) = holds-rest x xs y e in
      (Apart-append_item x xs y h apart, Distinct-append_item xs y hs absent)

  pub add_item-Distinct :
      (xs : Items F) (item : Value F) → Distinct fl xs → Distinct fl (add_item fl xs item)
  unfolding add_item
  add_item-Distinct xs item h = elim (Bool-cases (is_null item || holds fl xs item)) [
    | inl there ↦ rw (there) h
    | inr absent ↦ rw (absent) (Distinct-append_item xs item h (ground (arith, absent)))
  ]

  pub add_items-Distinct : (res xs : Items F) → Distinct fl res → Distinct fl (add_items fl res xs)
  unfolding add_items
  add_items-Distinct res nil h = h
  add_items-Distinct res (cons x xs) h =
      add_items-Distinct (add_item fl res x) xs (add_item-Distinct res x h)

  if-Distinct :
      (b : Bool) (xs ys : Items F)
      → Distinct fl xs
      → Distinct fl ys
      → Distinct fl (if b then xs else ys)
  if-Distinct true xs ys h k = h
  if-Distinct false xs ys h k = k

  pub diff_items-Distinct :
      (res xs : Items F) (b : Value F) → Distinct fl res → Distinct fl (diff_items fl res xs b)
  unfolding diff_items
  diff_items-Distinct res nil b h = h
  diff_items-Distinct res (cons x xs) b h =
      diff_items-Distinct (if not (in_set fl b x) then add_item fl res x else res) xs b
        (if-Distinct (not (in_set fl b x)) (add_item fl res x) res (add_item-Distinct res x h) h)

same_item-set :
    {F : Type 0} (fl : Floats F) (it : Value F) (ys : Items F)
    → same_item fl it (set_value ys) ≡ false
unfolding same_item eq
same_item-set fl (set_value xs) ys = refl
same_item-set fl it ys = refl

holds-set : {F : Type 0} (fl : Floats F) (xs ys : Items F) → holds fl xs (set_value ys) ≡ false
unfolding holds
holds-set fl nil ys = refl
holds-set fl (cons x xs) ys = rw (same_item-set fl x ys) (holds-set fl xs ys)

-- set_contains finds no set among the items of a set, so set_add of a set that is an item adds it again, and the set
-- holds it once more.
pub set_add-set :
    {F : Type 0} (fl : Floats F) (xs ys : Items F)
    → (set_contains fl (set_value xs) (set_value ys) ≡ done false)
      × (set_add fl (set_value xs) (set_value ys) ≡ set_value (append_item xs (set_value ys)))
unfolding set_contains contains set_add add_item
set_add-set fl xs ys = (ap done (holds-set fl xs ys), rw (holds-set fl xs ys) refl)
