-- ===== src/Matrix/Copying.antt =====
-- What memcpy leaves in a block, for src/abs_matrix.c.
use abscom.Prelude.{
  ℕ, zero, suc, ◌+◌, ◌-◌, ◌≤◌, ◌<◌, ◌≡◌, refl, ap, ◌∙◌, true, some, List, [], ◌∷◌, ◌++◌, length,
  take, drop, length-append, length-take, length-drop, get_elem?, get_or, leb, arith,
}
use abscom.Prelude.Run.{done}
use abscom.Matrix.Defs.{range, mem_copy}

module _ {ℓ} {A : Type ℓ} where
  get_elem?-append_left :
      (xs ys : List A) (p : ℕ) → p < length xs → get_elem? (xs ++ ys) p ≡ get_elem? xs p
  get_elem?-append_left [] ys p lt = absurd (omega (arith, lt))
  get_elem?-append_left (x ∷ xs) ys zero lt = refl
  get_elem?-append_left (x ∷ xs) ys (suc p) lt = get_elem?-append_left xs ys p (omega (arith, lt))

  get_elem?-append_right :
      (xs ys : List A) (p : ℕ)
      → length xs ≤ p
      → get_elem? (xs ++ ys) p ≡ get_elem? ys (p - length xs)
  get_elem?-append_right [] ys p le = ap (get_elem? ys) (omega arith)
  get_elem?-append_right (x ∷ xs) ys zero le = absurd (omega (arith, le))
  get_elem?-append_right (x ∷ xs) ys (suc p) le =
      get_elem?-append_right xs ys p (omega (arith, le)) ∙ ap (get_elem? ys) (omega arith)

  get_elem?-take : (n p : ℕ) (xs : List A) → p < n → get_elem? (take n xs) p ≡ get_elem? xs p
  get_elem?-take zero p xs lt = absurd (omega (arith, lt))
  get_elem?-take (suc n) p [] lt = refl
  get_elem?-take (suc n) zero (x ∷ xs) lt = refl
  get_elem?-take (suc n) (suc p) (x ∷ xs) lt = get_elem?-take n p xs (omega (arith, lt))

  get_elem?-drop : (n p : ℕ) (xs : List A) → get_elem? (drop n xs) p ≡ get_elem? xs (n + p)
  get_elem?-drop zero p xs = ap (get_elem? xs) (omega arith)
  get_elem?-drop (suc n) p [] = refl
  get_elem?-drop (suc n) p (x ∷ xs) =
      let place : suc (n + p) ≡ suc n + p = omega arith in
      get_elem?-drop n p xs ∙ ap (get_elem? (x ∷ xs)) place

  pub get_elem?_is :
      (xs : List A) (p : ℕ) (d : A) → p < length xs → get_elem? xs p ≡ some (get_or xs p d)
  get_elem?_is [] p d lt = absurd (omega (arith, lt))
  get_elem?_is (x ∷ xs) zero d lt = refl
  get_elem?_is (x ∷ xs) (suc p) d lt = get_elem?_is xs p d (omega (arith, lt))

  -- A range that lies inside is read.
  pub range-inside :
      (items : List A) (at n : ℕ)
      → at + n ≤ length items
      → (part : List A) × (range items at n ≡ done part)
        × (length part ≡ n)
        × ((k : ℕ) → k < n → get_elem? part k ≡ get_elem? items (at + k))
  unfolding range
  range-inside items at n le =
      let test : leb (at + n) (length items) ≡ true = ground (arith, le) in
      (
        take n (drop at items),
        rw (test) refl,
        rw (length-take, length-drop) (omega (arith, le)),
        λ k lt. get_elem?-take n k (drop at items) lt ∙ get_elem?-drop at k items,
      )

  -- The new items are in their places, and the others stay.
  pub record Copied (at : ℕ) (new before after : List A) : Type ℓ where
    pub size : length after ≡ length before
    pub inside : (k : ℕ) → k < length new → get_elem? after (at + k) ≡ get_elem? new k
    pub front : (p : ℕ) → p < at → get_elem? after p ≡ get_elem? before p
    pub back : (p : ℕ) → at + length new ≤ p → get_elem? after p ≡ get_elem? before p

  pub mem_copy-Copied :
      (before : List A) (at : ℕ) (new : List A)
      → at + length new ≤ length before
      → (after : List A) × (mem_copy before at new ≡ done after) × Copied at new before after
  unfolding mem_copy
  mem_copy-Copied before at new le =
      let test : leb (at + length new) (length before) ≡ true = ground (arith, le) in
      let head = take at before in
      let tail = drop (at + length new) before in
      let head_size : length head ≡ at = length-take at before ∙ omega (arith, le) in
      (
        head ++ (new ++ tail),
        rw (test) refl,
        record {
          size = rw (length-append, length-append, length-take, length-drop) (omega (arith, le));
          inside = λ k lt.
              get_elem?-append_right head (new ++ tail) (at + k) (omega (arith, head_size))
              ∙ ap (get_elem? (new ++ tail)) (omega (arith, head_size))
              ∙ get_elem?-append_left new tail k lt;
          front = λ p lt.
              get_elem?-append_left head (new ++ tail) p (omega (arith, lt, head_size))
              ∙ get_elem?-take at p before lt;
          back = λ p beyond.
              get_elem?-append_right head (new ++ tail) p (omega (arith, beyond, head_size))
              ∙ get_elem?-append_right new tail (p - length head) (omega (arith, beyond, head_size))
              ∙ get_elem?-drop (at + length new) (p - length head - length new) before
              ∙ ap (get_elem? before) (omega (arith, beyond, head_size));
        },
      )
