-- ===== src/Runtime/Dict/Laws.antt =====
-- A dictionary under dset is a map from keys to values.
use native.Mathlib.Nat.{mod-lt}
use abscom.Hash.{dict_hash}
use abscom.Prelude.{
  ℕ, zero, suc, ◌+◌, ◌%◌, ◌<◌, ◌≡◌, inl, inr, refl, sym, ap, ◌∙◌, true, false, Option, none, some,
  List, [], ◌∷◌, arith, if◌then◌else◌, ◌==◌, CString, str_eq, str_eq_iff, length, length-set,
  get_elem?, get_elem?-set_same, get_elem?-set_other, set, get_or, get_or-set, Bool-cases,
  ℕ_discrete,
}
use abscom.Prelude.Run.{done, ◌>>=◌}
use abscom.Runtime.Dict.Defs.{Chain, Dict, replace, find, read_bucket, bucket_index, dget}

module _ {ℓ} {V : Type ℓ} where
  -- The value of a key in a chain.
  abbrev pub assoc : Chain V → CString → Option V
  assoc [] j = none
  assoc ((none, w) ∷ rest) j = assoc rest j
  assoc ((some k, w) ∷ rest) j = if str_eq k j then some w else assoc rest j

  -- The chain of bucket `h` has whole keys, no key twice, and only keys of that bucket.
  abbrev pub IsChain : ℕ → (CString → ℕ) → Chain V → Type ℓ
  IsChain h index [] = Unit
  IsChain h index ((none, w) ∷ rest) = Unit {ℓ} × ⊥
  IsChain h index ((some k, w) ∷ rest) =
      (index k ≡ h) × (assoc rest k ≡ none) × IsChain h index rest

  find-assoc :
      (h : ℕ) (index : CString → ℕ) (chain : Chain V) (j : CString)
      → IsChain h index chain
      → find chain j ≡ done (assoc chain j)
  unfolding find
  find-assoc h index [] j ok = refl
  find-assoc h index ((none, w) ∷ rest) j ok = absurd ok.1
  find-assoc h index ((some k, w) ∷ rest) j (here, new, ok) = elim (Bool-cases (str_eq k j)) [
    | inl same ↦ rw same
    | inr other ↦ rw (other, find-assoc h index rest j ok)
  ]

  pub replace_absent :
      (h : ℕ) (index : CString → ℕ) (chain : Chain V) (key : CString) (val : V)
      → IsChain h index chain
      → assoc chain key ≡ none
      → replace chain key val ≡ done none
  unfolding replace
  replace_absent h index [] key val ok e = refl
  replace_absent h index ((none, w) ∷ rest) key val ok e = absurd ok.1
  replace_absent h index ((some k, w) ∷ rest) key val (here, new, ok) e =
      elim (Bool-cases (str_eq k key)) [
        | inl same ↦ let bad : some w ≡ none = rw same at e in absurd (cc)
        | inr other ↦
            let e' : assoc rest key ≡ none = rw other at e in
            rw (other, replace_absent h index rest key val ok e', ◌>>=◌)
      ]

  -- A chain with the value of one key replaced.
  abbrev pub Replaced : ℕ → (CString → ℕ) → Chain V → CString → V → Chain V → Type ℓ
  Replaced h index chain key val chain' =
      IsChain h index chain'
      × ((j : CString) → assoc chain' j ≡ (if str_eq key j then some val else assoc chain j))
      × (length chain' ≡ length chain)

  pub replace_present :
      (h : ℕ) (index : CString → ℕ) (chain : Chain V) (key : CString) (val old : V)
      → IsChain h index chain
      → assoc chain key ≡ some old
      → (chain' : Chain V) × (replace chain key val ≡ done (some chain'))
        × Replaced h index chain key val chain'
  unfolding replace
  replace_present h index [] key val old ok e = absurd (cc)
  replace_present h index ((none, w) ∷ rest) key val old ok e = absurd ok.1
  replace_present h index ((some k, w) ∷ rest) key val old (here, new, ok) e =
      elim (Bool-cases (str_eq k key)) [
        | inl same ↦
            let k_key : k ≡ key = (str_eq_iff k key).0 same in
            ((some k, val) ∷ rest, rw same, ((here, new, ok), λ j. rw k_key (ground arith), refl))
        | inr other ↦
            let e' : assoc rest key ≡ some old = rw other at e in
            let (rest', run, (ok', read, size)) = replace_present h index rest key val old ok e' in
            (
              (some k, w) ∷ rest',
              rw (other, run, ◌>>=◌),
              (
                (here, ground (arith, read k, new, str_eq_iff k key, str_eq_iff key k, other), ok'),
                λ j.
                    ground
                      (arith, read j, str_eq_iff k j, str_eq_iff key j, str_eq_iff k key, other),
                ap suc size,
              ),
            )
      ]

  -- All nodes.
  abbrev pub total : List (Chain V) → ℕ
  total [] = 0
  total (chain ∷ rest) = length chain + total rest

  total-set :
      (buckets : List (Chain V)) (h : ℕ) (old new : Chain V)
      → get_elem? buckets h ≡ some old
      → total (set buckets h new) + length old ≡ total buckets + length new
  total-set [] h old new e = absurd (cc)
  total-set (c ∷ rest) zero old new e = let same : c ≡ old = cc in rw same (omega arith)
  total-set (c ∷ rest) (suc h) old new e = omega (arith, total-set rest h old new e)

  -- A dictionary whose buckets hold keys of theirs, each once; the count is that of the nodes.
  pub record IsDict (d : Dict V) : Type ℓ where
    pub sized : length d.buckets ≡ d.capacity
    pub filled : 0 < d.capacity
    pub chains :
        (h : ℕ) (c : Chain V) → get_elem? d.buckets h ≡ some c → IsChain h (bucket_index d) c
    pub counted : d.count ≡ total d.buckets

  -- The map that a dictionary stands for.
  abbrev pub view : Dict V → CString → Option V
  view d j = assoc (get_or d.buckets (bucket_index d j) []) j

  get_or-get_elem? :
      (xs : List (Chain V)) (i : ℕ) → i < length xs → get_elem? xs i ≡ some (get_or xs i [])
  get_or-get_elem? [] i h = absurd (omega arith)
  get_or-get_elem? (x ∷ xs) zero h = refl
  get_or-get_elem? (x ∷ xs) (suc i) h = get_or-get_elem? xs i (omega arith)

  pub index_inside : (d : Dict V) (key : CString) → IsDict d → bucket_index d key < length d.buckets
  unfolding bucket_index
  index_inside d key v = rw v.sized (mod-lt (dict_hash key) v.filled)

  pub bucket_of :
      (d : Dict V) (key : CString)
      → IsDict d
      → get_elem? d.buckets (bucket_index d key) ≡ some (get_or d.buckets (bucket_index d key) [])
  bucket_of d key v = get_or-get_elem? d.buckets (bucket_index d key) (index_inside d key v)

  -- `dget` on a valid dictionary returns the value of the key, or none if it has none.
  pub dget-view : (d : Dict V) (key : CString) → IsDict d → dget d key ≡ done (view d key)
  unfolding dget read_bucket
  dget-view d key v =
      let here = bucket_of d key v in
      rw (here, ◌>>=◌)
        (find-assoc (bucket_index d key) (bucket_index d) _ key
          (v.chains (bucket_index d key) _ here))

  some_inj : {a b : Chain V} → some a ≡ some b → a ≡ b
  some_inj e = cc

  -- A dictionary with another chain in the bucket of a key.
  abbrev pub with_chain : Dict V → CString → Chain V → ℕ → Dict V
  with_chain d key chain n = record d {
    buckets = set d.buckets (bucket_index d key) chain;
    count = n;
  }

  -- Such a chain changes the map at the keys of its bucket.
  pub view-with_chain :
      (d : Dict V) (key j : CString) (chain : Chain V) (val : V) (n : ℕ)
      → IsDict d
      → ((i : CString)
          → assoc chain i ≡ (
              if str_eq key i
              then some val
              else assoc (get_or d.buckets (bucket_index d key) []) i))
      → view (with_chain d key chain n) j ≡ (if str_eq key j then some val else view d j)
  unfolding bucket_index
  view-with_chain d key j chain val n v read =
      let i = dict_hash key % d.capacity in
      let i' = dict_hash j % d.capacity in
      let set_get = get_or-set d.buckets i i' chain [] (index_inside d key v) in
      elim (ℕ_discrete i i') [
        | yes same ↦
            let test : (i == i') ≡ true = ground arith in rw (set_get, test) (rw same at (read j))
        | no apart ↦
            let test : (i == i') ≡ false = ground (arith, apart) in
            let other : str_eq key j ≡ false = elim (Bool-cases (str_eq key j)) [
              | inl e ↦ absurd (apart (ap (λ k. dict_hash k % d.capacity) ((str_eq_iff key j).0 e)))
              | inr e ↦ e
            ] in
            rw (set_get, test, other)
      ]

  pub with_chain-IsDict :
      (d : Dict V) (key : CString) (chain : Chain V) (n : ℕ)
      → IsDict d
      → IsChain (bucket_index d key) (bucket_index d) chain
      → n + length (get_or d.buckets (bucket_index d key) []) ≡ d.count + length chain
      → IsDict (with_chain d key chain n)
  unfolding bucket_index
  with_chain-IsDict d key chain n v ok size =
      let i = dict_hash key % d.capacity in
      let here = bucket_of d key v in
      record {
        sized = length-set d.buckets i chain ∙ v.sized;
        filled = v.filled;
        chains = λ h c e. elim (ℕ_discrete h i) [
          | yes same ↦
              let found : chain ≡ c = some_inj (
                sym (get_elem?-set_same d.buckets i chain (index_inside d key v)) ∙ rw same at e) in
              rw (← found, same) ok
          | no apart ↦ v.chains h c (sym (get_elem?-set_other d.buckets h i chain apart) ∙ e)
        ];
        counted = omega (arith, size, v.counted, total-set d.buckets i _ chain here);
      }
