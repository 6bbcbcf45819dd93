-- ===== src/Runtime/Dict/Storing.antt =====
-- What dset does to the map that a dictionary stands for.
use abscom.Prelude.{
  ℕ, ◌+◌, ◌≡◌, refl, ap, Bool, true, false, Option, none, some, [], ◌∷◌, arith, if◌then◌else◌,
  CString, str_eq, get_elem?, get_or, Bool-cases, Option-cases, inl, inr, replicate,
  get_elem?-set_same, get_or-replicate, ◌%◌, suc, zero,
}
use abscom.Hash.{dict_hash}
use abscom.Prelude.Run.{done, fault, ◌>>=◌}
use abscom.Runtime.Dict.Defs.{
  Chain, Dict, NodeAlloc, find, read_bucket, add_node, copied, bucket_index, put, dget, new_dict,
}
use abscom.Runtime.Dict.Laws.{
  assoc, IsDict, view, bucket_of, index_inside, with_chain, view-with_chain, with_chain-IsDict,
  replace_absent, replace_present,
}

module _ {ℓ} {V : Type ℓ} where
  -- The map has the value at the key, and is the old one at any other.
  abbrev pub IsUpdate : Dict V → CString → V → Dict V → Type ℓ
  IsUpdate d key val d' = (j : CString) → view d' j ≡ (if str_eq key j then some val else view d j)

  -- What a call did, by the old value of the key and whether there was memory for a node.
  abbrev pub Stored : Option V → Bool → Dict V → CString → V → Dict V → Type ℓ
  Stored (some old) node d key val d' = IsUpdate d key val d' × (d'.count ≡ d.count)
  Stored none true d key val d' = IsUpdate d key val d' × (d'.count ≡ d.count + 1)
  Stored none false d key val d' = d' ≡ d

  put_present :
      (alloc : NodeAlloc) (d : Dict V) (key : CString) (val old : V)
      → IsDict d
      → view d key ≡ some old
      → (d' : Dict V) × (put alloc d key val ≡ done d')
        × IsDict d'
        × IsUpdate d key val d'
        × (d'.count ≡ d.count)
  unfolding put read_bucket
  put_present alloc d key val old v e =
      let here = bucket_of d key v in
      let (chain', run, (ok, read, size)) =
        replace_present (bucket_index d key) (bucket_index d) _ key val old
          (v.chains (bucket_index d key) _ here) e in
      (
        with_chain d key chain' d.count,
        rw (here, ◌>>=◌, run),
        with_chain-IsDict d key chain' d.count v ok (omega (arith, size)),
        λ j. view-with_chain d key j chain' val d.count v read,
        refl,
      )

  put_absent :
      (alloc : NodeAlloc) (d : Dict V) (key : CString) (val : V)
      → IsDict d
      → view d key ≡ none
      → put alloc d key val
        ≡ done (
            add_node alloc d
              (bucket_index d key)
              (get_or d.buckets (bucket_index d key) [])
              key
              val)
  unfolding put read_bucket
  put_absent alloc d key val v e =
      let here = bucket_of d key v in
      let run =
        replace_absent (bucket_index d key) (bucket_index d) _ key val
          (v.chains (bucket_index d key) _ here) e in
      rw (here, ◌>>=◌, run)

  -- `dset` on a valid dictionary, where the copies of keys are granted, ends in a valid dictionary. A key
  -- that has a value gets the new one, and the count stays; a new key is stored and counted if there is
  -- memory for a node, and the dictionary is unchanged if there is none.
  pub put-Stored :
      (alloc : NodeAlloc) (d : Dict V) (key : CString) (val : V)
      → IsDict d
      → alloc.key_copy ≡ true
      → (d' : Dict V) × (put alloc d key val ≡ done d')
        × IsDict d'
        × Stored (view d key) alloc.node d key val d'
  unfolding add_node
  put-Stored alloc d key val v copy = elim (Option-cases (view d key)) [
    | inr (old, e) ↦
        let (d', run, v', update, count) = put_present alloc d key val old v e in
        (d', run, v', rw e (update, count))
    | inl e ↦
        let run = put_absent alloc d key val v e in
        elim (Bool-cases alloc.node) [
          | inr full ↦ (d, rw (run, add_node, full), v, rw (e, full) refl)
          | inl space ↦
              let old = get_or d.buckets (bucket_index d key) [] in
              let chain : Chain V = (some key, val) ∷ old in
              (
                with_chain d key chain (d.count + 1),
                rw (run, add_node, space, copied, copy),
                with_chain-IsDict d key chain (d.count + 1) v
                    (refl, e, v.chains (bucket_index d key) _ (bucket_of d key v)) (omega arith),
                rw (e, space)
                    (λ j. view-with_chain d key j chain val (d.count + 1) v (λ i. refl), refl),
              )
        ]
  ]

  -- Where there is memory for a node and not for the copy of its key, `dset` of a new key ends, and then
  -- `dget` of any key of the same bucket compares it with NULL.
  put_uncopied-fault :
      (alloc : NodeAlloc) (d : Dict V) (key : CString) (val : V)
      → IsDict d
      → view d key ≡ none
      → alloc.node ≡ true
      → alloc.key_copy ≡ false
      → (d' : Dict V) × (put alloc d key val ≡ done d')
        × ((j : CString) → bucket_index d j ≡ bucket_index d key → dget d' j ≡ fault)
  unfolding add_node dget read_bucket find bucket_index
  put_uncopied-fault alloc d key val v e space copy =
      let chain : Chain V = (none, val) ∷ get_or d.buckets (bucket_index d key) [] in
      (
        with_chain d key chain (d.count + 1),
        rw (put_absent alloc d key val v e, add_node, space, copied, copy),
        λ j same. rw (
          same,
          get_elem?-set_same d.buckets (bucket_index d key) chain (index_inside d key v),
          ◌>>=◌,
        ),
      )

-- With memory for a node, the key has the new value.
pub Stored-IsUpdate {ℓ} :
    {V : Type ℓ} (old : Option V) (node : Bool) (d : Dict V) (key : CString) (val : V) (d' : Dict V)
    → node ≡ true
    → Stored old node d key val d'
    → IsUpdate d key val d'
Stored-IsUpdate none true d key val d' e (update, _) = update
Stored-IsUpdate none false d key val d' e stored = absurd cc
Stored-IsUpdate (some old) node d key val d' e (update, _) = update

replicate-get_elem? {ℓ} :
    {A : Type ℓ} (n i : ℕ) (a x : A) → get_elem? (replicate n a) i ≡ some x → a ≡ x
replicate-get_elem? zero i a x e = absurd (cc)
replicate-get_elem? (suc n) zero a x e = cc
replicate-get_elem? (suc n) (suc i) a x e = replicate-get_elem? n i a x e

-- A new dictionary is valid.
pub new_dict-IsDict {ℓ} : (V : Type ℓ) → IsDict {V = V} new_dict
unfolding new_dict
new_dict-IsDict V = record {
  sized = refl;
  filled = omega arith;
  chains = λ h c e. rw (← replicate-get_elem? 16 h [] c e) tt;
  counted = refl;
}

-- It stands for the empty map.
pub new_dict-view {ℓ} : (V : Type ℓ) (j : CString) → view {V = V} new_dict j ≡ none
unfolding new_dict bucket_index
new_dict-view V j = ap (λ c. assoc c j) (get_or-replicate {A = Chain V} 16 (dict_hash j % 16) [])
