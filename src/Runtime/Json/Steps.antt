-- ===== src/Runtime/Json/Steps.antt =====
-- One call of the reader of lists, by the text in front of it.
use abscom.Prelude.{ℕ, suc, ◌≡◌, refl, ap, ◌∙◌, false, ◌∷◌, CString}
use abscom.Prelude.Int.{ℤ}
use abscom.Prelude.Run.{Run, done, ◌>>=◌}
use abscom.Runtime.Values.Defs.{Floats, Value, Items, list_value, nil, cons}
use abscom.Runtime.Values.Arith.{append_item, extend}
use abscom.Runtime.Json.Defs.{json_skip_ws, starts, start_of, is_err}
use abscom.Runtime.Json.Parse.{parse_value, parse_list, parse_items, after_item}

module _ {F : Type 0} (fl : Floats F) (atol : CString → ℤ) where
  pub parse_value-bracket :
      (fuel : ℕ) (s : CString)
      → parse_value fl atol (suc fuel) (91 ∷ s) ≡ parse_list fl atol fuel (json_skip_ws s)
  unfolding parse_value json_skip_ws start_of
  parse_value-bracket fuel s = refl

  pub parse_list-items :
      (fuel : ℕ) (s : CString)
      → starts 93 s ≡ false
      → parse_list fl atol (suc fuel) s ≡ parse_items fl atol fuel nil s
  unfolding parse_list
  parse_list-items fuel s h = rw (parse_list, h) refl

  pub parse_items-item :
      (fuel : ℕ) (l : Items F) (v : Value F) (s t : CString)
      → parse_value fl atol fuel s ≡ done (v, t)
      → parse_items fl atol (suc fuel) l s ≡ after_item fl atol fuel l v t
  unfolding parse_items
  parse_items-item fuel l v s t h =
      ap (λ (r : Run (Value F × CString)). r >>= λ r. after_item fl atol fuel l r.0 r.1) h

  pub after_item-close :
      (fuel : ℕ) (l : Items F) (v : Value F) (rest : CString)
      → is_err v ≡ false
      → after_item fl atol (suc fuel) l v (93 ∷ rest) ≡ done (list_value (append_item l v), rest)
  unfolding after_item json_skip_ws
  after_item-close fuel l v rest h = rw (after_item, h) refl

  pub after_item-comma :
      (fuel : ℕ) (l : Items F) (v : Value F) (s : CString)
      → is_err v ≡ false
      → after_item fl atol (suc fuel) l v (44 ∷ 32 ∷ s)
        ≡ parse_items fl atol fuel (append_item l v) (json_skip_ws s)
  unfolding after_item json_skip_ws
  after_item-comma fuel l v s h = rw (after_item, h) refl

extend-cons :
    {F : Type 0} (a : Value F) (l xs : Items F) → extend (cons a l) xs ≡ cons a (extend l xs)
unfolding extend append_item
extend-cons a l nil = refl
extend-cons a l (cons x xs) = extend-cons a (append_item l x) xs

pub extend-nil : {F : Type 0} (xs : Items F) → extend nil xs ≡ xs
unfolding extend append_item
extend-nil nil = refl
extend-nil (cons x xs) = extend-cons x nil xs ∙ ap (cons x) (extend-nil xs)
