-- ===== src/Runtime/Dict/Defs.antt =====
-- abs_new_dict, dset and dget of src/abs.c. A node is its key, or none where the copy of the key failed,
-- and its value; a value is a pointer, of any type. A comparison with a NULL key is a fault.
use mathlib.Core.Option.{map as map_option}
use abscom.Prelude.{
  ℕ, ◌+◌, ◌%◌, Bool, Option, none, some, List, [], ◌∷◌, if◌then◌else◌, CString, str_eq, get_elem?,
  set, replicate,
}
use abscom.Prelude.Run.{Run, done, fault, ◌>>=◌}
use abscom.Hash.{dict_hash}

abbrev pub Chain {ℓ} : Type ℓ → Type ℓ
Chain V = List (Option CString × V)

pub record Dict {ℓ} (V : Type ℓ) : Type ℓ where
  pub buckets : List (Chain V)
  pub capacity : ℕ
  pub count : ℕ

-- Whether malloc gives a new node, and abs_dup_str the copy of its key.
pub record NodeAlloc : Type 0 where
  pub node : Bool
  pub key_copy : Bool

-- what abs_dup_str returns
unfoldable pub copied : Bool → CString → Option CString
copied ok key = if ok then some key else none

module _ {ℓ} {V : Type ℓ} where
  unfoldable pub new_dict : Dict V
  new_dict = record { buckets = replicate 16 []; capacity = 16; count = 0 }

  -- the loop of dset: the chain with the value of the key replaced, or none
  unfoldable pub replace : Chain V → CString → V → Run (Option (Chain V))
  replace [] key val = done none
  replace ((none, w) ∷ rest) key val = fault
  replace ((some k, w) ∷ rest) key val =
      let further = replace rest key val >>= λ r. done (map_option (λ c. (some k, w) ∷ c) r) in
      if str_eq k key then done (some ((some k, val) ∷ rest)) else further

  -- the loop of dget
  unfoldable pub find : Chain V → CString → Run (Option V)
  find [] key = done none
  find ((none, w) ∷ rest) key = fault
  find ((some k, w) ∷ rest) key =
      let further = find rest key in if str_eq k key then done (some w) else further

  unfoldable pub read_bucket : Dict V → ℕ → Run (Chain V)
  read_bucket d h = elim (get_elem? d.buckets h) [ none ↦ fault | some chain ↦ done chain ]

  unfoldable pub add_node : NodeAlloc → Dict V → ℕ → Chain V → CString → V → Dict V
  unfolding copied
  add_node alloc d h chain key val =
      if alloc.node
      then record d {
        buckets = set d.buckets h ((copied alloc.key_copy key, val) ∷ chain);
        count = d.count + 1;
      }
      else d

  unfoldable pub bucket_index : Dict V → CString → ℕ
  bucket_index d key = dict_hash key % d.capacity

  -- dset past its test on the arguments
  unfoldable pub put : NodeAlloc → Dict V → CString → V → Run (Dict V)
  put alloc d key val = do
    chain ← read_bucket d (bucket_index d key)
    found ← replace chain key val
    elim found [
      | some chain' ↦ done (record d { buckets = set d.buckets (bucket_index d key) chain' })
      | none ↦ done (add_node alloc d (bucket_index d key) chain key val)
    ]

  -- An object that is not a dictionary, and a NULL key, are none.
  unfoldable pub dset : NodeAlloc → Option (Dict V) → Option CString → V → Run (Option (Dict V))
  dset alloc none key val = done none
  dset alloc (some d) none val = done (some d)
  dset alloc (some d) (some key) val = do d' ← put alloc d key val; done (some d')

  -- dget past its tests: none is the object None
  unfoldable pub dget : Dict V → CString → Run (Option V)
  dget d key = do chain ← read_bucket d (bucket_index d key); find chain key
