-- ===== src/Hashmap/Methods/Grow.antt =====
-- The first steps of abs_hashmap_set: the first array, and growth, keep the map.
use native.Mathlib.Nat.{pow-suc}
use abscom.Prelude.{
  ℕ, suc, ◌%◌, dec_lt, ◌+◌, ◌*◌, ◌^◌, ◌≤◌, ◌<◌, ◌≡◌, inl, inr, refl, ◌∙◌, arith, true, Bool-cases,
  CString,
}
use abscom.Hashmap.Defs.{
  Hashmap, Status, success, failure, done, Site, new_keys, new_vals, new_states, Allocator, calloc,
  allocates, allocate_first, grow, min_cap,
}
use abscom.Hashmap.Invariant.{IsValid}
use abscom.Hashmap.Resize.{Resized, resize-failure, resize-Resized}
use abscom.Hashmap.Methods.Find.{view}

-- The same map, perhaps in a larger array.
pub record Kept {ℓ} {V : Type ℓ} (m m' : Hashmap V) : Type ℓ where
  pub valid : IsValid m'
  pub reads : (j : CString) → view m' j ≡ view m j
  pub count : m'.count ≡ m.count
  pub freed : (m'.free_value ≡ m.free_value) × (m'.freed ≡ m.freed)

-- There is room for one more entry.
abbrev pub HasRoom {ℓ} : {V : Type ℓ} → Hashmap V → Type 0
HasRoom m = (16 ≤ m.cap) × ((m.count + m.tombstones + 1) * 10 ≤ m.cap * 7)

-- Every request is granted.
abbrev pub IsGenerous : Allocator → Type 0
IsGenerous alloc = (site : Site) (n : ℕ) → alloc site n ≡ true

IsGenerous-allocates :
    (alloc : Allocator) (n : ℕ) → IsGenerous alloc → n * 8 < 2 ^ 64 → allocates alloc n ≡ true
unfolding allocates calloc
IsGenerous-allocates alloc n g h =
    ground (arith, g new_keys (n * 8), g new_vals (n * 8), g new_states (n * 1))

module _ {ℓ} {V : Type ℓ} where
  pub Kept-refl : (m : Hashmap V) → IsValid m → Kept m m
  Kept-refl m v = record { valid = v; reads = λ j. refl; count = refl; freed = (refl, refl) }

  pub Kept-trans : {a b c : Hashmap V} → Kept a b → Kept b c → Kept a c
  Kept-trans k l = record {
    valid = l.valid;
    reads = λ j. l.reads j ∙ k.reads j;
    count = l.count ∙ k.count;
    freed = (l.freed.0 ∙ k.freed.0, l.freed.1 ∙ k.freed.1);
  }

  Resized-Kept : {m m' : Hashmap V} {n : ℕ} → Resized m n m' → Kept m m'
  Resized-Kept r = record { valid = r.valid; reads = r.reads; count = r.count; freed = r.kept }

  pub power : (m : Hashmap V) → IsValid m → 16 ≤ m.cap → (p : ℕ) × (m.cap ≡ 2 ^ p)
  power m v wide = elim v.sized [ inl e ↦ absurd (omega arith) | inr (p, size, _) ↦ (p, size) ]

  pub allocate_first-Kept :
      (alloc : Allocator) (m : Hashmap V)
      → IsValid m
      → (s : Status) × (m' : Hashmap V) × (allocate_first alloc m ≡ done (s, m'))
        × Kept m m'
        × (s ≡ success → 16 ≤ m'.cap)
        × (IsGenerous alloc → (s ≡ success) × (m'.cap ≤ m.cap + 16))
  unfolding allocate_first
  allocate_first-Kept alloc m v = elim v.sized [
    | inl e ↦ elim (Bool-cases (allocates alloc min_cap)) [
      | inl ok ↦
          let (m', run, r) =
            resize-Resized alloc m 16 4 v refl (omega arith) (omega (arith, v.load)) ok in
          (
            success,
            m',
            ground (arith, run),
            Resized-Kept r,
            λ _. omega (arith, r.cap),
            λ _. (refl, omega (arith, r.cap)),
          )
      | inr short ↦ (
        failure,
        m,
        ground (arith, resize-failure alloc m 16 short),
        Kept-refl m v,
        λ c. cc,
        λ g. cc (IsGenerous-allocates alloc 16 g (omega arith)),
      )
    ]
    | inr (p, size, wide) ↦
        (success, m, ground arith, Kept-refl m v, λ _. wide, λ _. (refl, omega arith))
  ]

  pub grow-Kept :
      (alloc : Allocator) (m : Hashmap V)
      → IsValid m
      → 16 ≤ m.cap
      → (s : Status) × (m' : Hashmap V) × (grow alloc m ≡ done (s, m'))
        × Kept m m'
        × (s ≡ success → HasRoom m')
        × (IsGenerous alloc → m.cap * 16 < 2 ^ 64 → s ≡ success)
  unfolding grow
  grow-Kept alloc m v wide =
      let a : m.cap * 7 % 2 ^ 64 ≡ m.cap * 7 = omega (arith, v.bounded) in
      let b : (m.count + m.tombstones + 1) * 10 % 2 ^ 64 ≡ (m.count + m.tombstones + 1) * 10 =
        omega (arith, v.bounded, v.load) in
      let c : m.cap * 2 % 2 ^ 64 ≡ m.cap * 2 = omega (arith, v.bounded) in
      elim (dec_lt (m.cap * 7) ((m.count + m.tombstones + 1) * 10)) [
        | no roomy ↦
            (success, m, ground (arith, a, b), Kept-refl m v, λ _. (wide, omega arith), λ _ _. refl)
        | yes crowded ↦ elim (Bool-cases (allocates alloc (m.cap * 2))) [
          | inr short ↦ (
            failure,
            m,
            ground (arith, a, b, c, resize-failure alloc m (m.cap * 2) short),
            Kept-refl m v,
            λ e. cc,
            λ g h. cc (IsGenerous-allocates alloc (m.cap * 2) g (omega arith)),
          )
          | inl ok ↦
              let (p, size) = power m v wide in
              let (m', run, r) =
                resize-Resized alloc m (m.cap * 2) (suc p) v (omega (arith, size, pow-suc 2 p))
                  (omega arith) (omega (arith, v.load)) ok in
              (
                success,
                m',
                ground (arith, a, b, c, run),
                Resized-Kept r,
                λ _. omega (arith, r.cap, r.count, r.tombstones, v.load),
                λ _ _. refl,
              )
        ]
      ]
