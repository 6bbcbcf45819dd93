-- ===== src/Matrix/Loops.antt =====
-- The loops of src/abs_matrix.c: an invariant, and loops that write every item of a block.
use native.Mathlib.Nat.{add-zero, zero-add}
use abscom.Prelude.{
  ℕ, zero, suc, ◌+◌, ◌≤◌, ◌<◌, ◌≡◌, ◌≢◌, refl, ◌∙◌, some, List, length, length-set, set, get_elem?,
  get_elem?-set_same, get_elem?-set_other, arith, ℕ_discrete,
}
use mathlib.Core.Path.{subst}
use abscom.Prelude.Run.{Run, done, ◌>>=◌}
use abscom.Matrix.Defs.{for_loop}

-- The run of a loop ends, and the invariant holds there, if every round keeps it.
pub for_loop-Invariant {ℓ} :
    {S : Type ℓ} (P : ℕ → S → Type ℓ) (n i : ℕ) (body : ℕ → S → Run S) (s : S)
    → ((j : ℕ) (s : S) → i ≤ j → j < i + n → P j s → (s' : S) × (body j s ≡ done s') × P (j + 1) s')
    → P i s
    → (s' : S) × (for_loop n i body s ≡ done s') × P (i + n) s'
unfolding for_loop
for_loop-Invariant P zero i body s keeps p = (s, refl, rw add-zero p)
for_loop-Invariant P (suc n) i body s keeps p =
    let (s', run, p') = keeps i s (omega arith) (omega arith) p in
    let (s'', run', p'') =
      for_loop-Invariant P n (i + 1) body s'
        (λ j t from upto. keeps j t (omega (arith, from)) (omega (arith, upto))) p' in
    (s'', rw (run, ◌>>=◌) run', subst (λ k. P k s'') (omega arith) p'')

module _ {ℓ} {A : Type ℓ} where
  -- In round j, `v j` is written at `at j`; the other items stay.
  pub record FilledTo (at : ℕ → ℕ) (v : ℕ → A) (n : ℕ) (before after : List A) : Type ℓ where
    pub size : length after ≡ length before
    pub new : (j : ℕ) → j < n → get_elem? after (at j) ≡ some (v j)
    pub old : (p : ℕ) → ((j : ℕ) → j < n → p ≢ at j) → get_elem? after p ≡ get_elem? before p

  pub for_loop-FilledTo :
      (at : ℕ → ℕ) (v : ℕ → A) (n : ℕ) (body : ℕ → List A → Run (List A)) (before : List A)
      → ((j : ℕ) → j < n → at j < length before)
      → ((j k : ℕ) → j < k → k < n → at j ≢ at k)
      → ((j : ℕ) (items : List A)
          → j < n
          → length items ≡ length before
          → body j items ≡ done (set items (at j) (v j)))
      → (after : List A) × (for_loop n 0 body before ≡ done after) × FilledTo at v n before after
  for_loop-FilledTo at v n body before inside apart writes = rw zero-add at (
      for_loop-Invariant (λ j items. FilledTo at v j before items) n 0 body before
        (λ j items from upto filled.
          let here : j < n = omega (arith, upto) in
          let room : at j < length items = omega (arith, inside j here, filled.size) in
          (
            set items (at j) (v j),
            writes j items here filled.size,
            record {
              size = length-set items (at j) (v j) ∙ filled.size;
              new = λ k lt. elim (ℕ_discrete k j) [
                | yes e ↦ rw (e) (get_elem?-set_same items (at j) (v j) room)
                | no ne ↦
                    let before_it : k < j = omega (arith, ne, lt) in
                    get_elem?-set_other items (at k) (at j) (v j) (apart k j before_it here)
                    ∙ filled.new k before_it
              ];
              old = λ p free.
                  get_elem?-set_other items p (at j) (v j) (free j (omega arith))
                  ∙ filled.old p (λ k lt. free k (omega (arith, lt)));
            },
          ))
        (record { size = refl; new = λ j lt. absurd (omega (arith, lt)); old = λ p free. refl }))
