-- ===== src/Sort/Moving.antt =====
-- Runs of sort_quick that only move items between two bounds.
use abscom.Prelude.{
  ℕ, ◌≤◌, ◌<◌, ◌≡◌, refl, sym, ap, ◌∙◌, true, List, arith, ltb, length, length-set, set, get_elem?,
  get_elem?-set_same, get_elem?-set_other, ℕ_discrete, dec_lt,
}
use abscom.Prelude.Run.{◌>>=◌}
use abscom.Sort.Defs.{swap_items, write}
use abscom.Sort.Rearranging.{read_inside}
use abscom.Sort.Ordering.{Swapped, swap_items-Swapped}

module _ {ℓ} {A : Type ℓ} where
  -- Two places that may be the same.
  pub swap_items-Swapped_any :
      (items : List A) (i j : ℕ)
      → i < length items
      → j < length items
      → (items' : List A) × Swapped items i j items'
  unfolding swap_items write
  swap_items-Swapped_any items i j h h' = elim (ℕ_discrete i j) [
    | no apart ↦ swap_items-Swapped items i j h h' apart
    | yes e ↦
        let (x, run, ex) = read_inside items i h in
        let run' = rw e at run in
        let test : ltb i (length items) ≡ true = ground arith in
        let size : length (set items i x) ≡ length items = length-set items i x in
        let test' : ltb i (length (set items i x)) ≡ true = ground (arith, size) in
        let here : get_elem? (set (set items i x) i x) i ≡ get_elem? items i =
          get_elem?-set_same (set items i x) i x (omega (arith, h, size)) ∙ sym ex in
        (
          set (set items i x) i x,
          record {
            run = rw (← e) (rw (run, ◌>>=◌, test, test') refl);
            size = length-set (set items i x) i x ∙ size;
            at_i = here ∙ ap (get_elem? items) e;
            at_j = rw (← e) here;
            other = λ k ne ne'.
                get_elem?-set_other (set items i x) k i x ne ∙ get_elem?-set_other items k i x ne;
          },
        )
  ]

  -- Every item between the bounds was between them before, and the others stay.
  pub record Moved (lo hi : ℕ) (items items' : List A) : Type ℓ where
    pub size : length items' ≡ length items
    pub inside :
        (p : ℕ)
        → lo ≤ p
        → p < hi
        → (q : ℕ) × (lo ≤ q) × (q < hi) × (get_elem? items' p ≡ get_elem? items q)
    pub below_lo : (p : ℕ) → p < lo → get_elem? items' p ≡ get_elem? items p
    pub from_hi : (p : ℕ) → hi ≤ p → get_elem? items' p ≡ get_elem? items p

  pub Moved-refl : (lo hi : ℕ) (items : List A) → Moved lo hi items items
  Moved-refl lo hi items = record {
    size = refl;
    inside = λ p from upto. (p, from, upto, refl);
    below_lo = λ p lt. refl;
    from_hi = λ p le. refl;
  }

  pub Moved-trans :
      (lo hi : ℕ) (items items' items'' : List A)
      → Moved lo hi items items'
      → Moved lo hi items' items''
      → Moved lo hi items items''
  Moved-trans lo hi items items' items'' m m' = record {
    size = m'.size ∙ m.size;
    inside = λ p from upto.
        let (q, from', upto', e) = m'.inside p from upto in
        let (r, from'', upto'', e') = m.inside q from' upto' in (r, from'', upto'', e ∙ e');
    below_lo = λ p lt. m'.below_lo p lt ∙ m.below_lo p lt;
    from_hi = λ p le. m'.from_hi p le ∙ m.from_hi p le;
  }

  pub Moved-wider :
      (lo hi lo' hi' : ℕ) (items items' : List A)
      → lo' ≤ lo
      → hi ≤ hi'
      → Moved lo hi items items'
      → Moved lo' hi' items items'
  Moved-wider lo hi lo' hi' items items' less more m = record {
    size = m.size;
    inside = λ p from upto. elim (dec_lt p lo) [
      | yes before ↦ (p, from, upto, m.below_lo p before)
      | no behind ↦ elim (dec_lt p hi) [
        | yes between ↦
            let (q, from', upto', e) = m.inside p (omega (arith, behind)) between in
            (q, omega (arith, less, from'), omega (arith, more, upto'), e)
        | no beyond ↦ (p, from, upto, m.from_hi p (omega (arith, beyond)))
      ]
    ];
    below_lo = λ p lt. m.below_lo p (omega (arith, lt, less));
    from_hi = λ p le. m.from_hi p (omega (arith, le, more));
  }

  pub Swapped-Moved :
      (lo hi i j : ℕ) (items items' : List A)
      → lo ≤ i
      → i < hi
      → lo ≤ j
      → j < hi
      → Swapped items i j items'
      → Moved lo hi items items'
  Swapped-Moved lo hi i j items items' a b c d s = record {
    size = s.size;
    inside = λ p from upto. elim (ℕ_discrete p i) [
      | yes e ↦ (j, c, d, rw (e) s.at_i)
      | no ne ↦ elim (ℕ_discrete p j) [
        | yes e ↦ (i, a, b, rw (e) s.at_j)
        | no ne' ↦ (p, from, upto, s.other p ne ne')
      ]
    ];
    below_lo = λ p lt.
        s.other p (λ e. absurd (omega (arith, e, lt, a))) (λ e. absurd (omega (arith, e, lt, c)));
    from_hi = λ p le.
        s.other p (λ e. absurd (omega (arith, e, le, b))) (λ e. absurd (omega (arith, e, le, d)));
  }
