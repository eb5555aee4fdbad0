-- ===== src/Mysock/HashTable.antt =====
-- The hash table that the macros of transport-layer/src/mysock_hash.h declare, with the default
-- hash function and the default test of keys.
pub mod Chains
pub mod Refine
use computer_networks.Prelude.{
  ℕ, zero, suc, ◌%◌, Bool, true, false, not, Option, none, some, List, [], ◌∷◌, ◌==◌, if◌then◌else◌,
  length, get_or,
}
use computer_networks.Mysock.State.{Outcome, returns, aborts, assert_that}

pub record Entry {ℓ} (A : Type ℓ) : Type ℓ where
  pub key : ℕ
  pub value : A

-- `tbl`: the chain of each index, and the chain from its head on.
abbrev pub Chain {ℓ} : Type ℓ → Type ℓ
Chain A = List (Entry A)

abbrev pub HashTable {ℓ} : Type ℓ → Type ℓ
HashTable A = List (Chain A)

module _ {ℓ} {A : Type ℓ} where
  -- `HASH_DEFAULT_HASH_FN`. A key that is a descriptor is not negative.
  abbrev pub index_of : HashTable A → ℕ → ℕ
  index_of tbl key = key % length tbl

  unfoldable pub find_in : ℕ → Chain A → Option A
  find_in key [] = none
  find_in key (e ∷ es) = if e.key == key then some e.value else find_in key es

  unfoldable pub hash_get_entry : HashTable A → ℕ → Option A
  unfolding find_in
  hash_get_entry tbl key = find_in key (get_or tbl (index_of tbl key) [])

  unfoldable pub set_chain : ℕ → Chain A → HashTable A → HashTable A
  set_chain i chain [] = []
  set_chain zero chain (c ∷ cs) = chain ∷ cs
  set_chain (suc i) chain (c ∷ cs) = c ∷ set_chain i chain cs

  -- The new entry stands before an older one with its key.
  unfoldable pub hash_insert : HashTable A → ℕ → A → HashTable A
  unfolding set_chain
  hash_insert tbl key value =
      let ndx = index_of tbl key in
      set_chain ndx (record { key = key; value = value } ∷ get_or tbl ndx []) tbl

  unfoldable pub hash_lookup : HashTable A → ℕ → Outcome A
  unfolding hash_get_entry
  hash_lookup tbl key = elim (hash_get_entry tbl key) [ some d ↦ returns d | none ↦ aborts ]

  -- NULL is `none`.
  unfoldable pub hash_lookup_ptr : HashTable A → ℕ → Option A
  unfolding hash_get_entry
  hash_lookup_ptr tbl key = hash_get_entry tbl key

  unfoldable pub is_some : Option A → Bool
  is_some none = false
  is_some (some d) = true

  unfoldable pub hash_entry_exists : HashTable A → ℕ → Bool
  unfolding hash_get_entry is_some
  hash_entry_exists tbl key = is_some (hash_get_entry tbl key)

  -- `e->data = data` at the first entry with the key.
  unfoldable pub write_first : ℕ → A → Chain A → Chain A
  write_first key value [] = []
  write_first key value (e ∷ es) =
      if e.key == key then record e { value = value } ∷ es else e ∷ write_first key value es

  unfoldable pub hash_set_entry : HashTable A → ℕ → A → HashTable A
  unfolding hash_entry_exists hash_insert write_first set_chain
  hash_set_entry tbl key value =
      let ndx = index_of tbl key in
      if hash_entry_exists tbl key
      then set_chain ndx (write_first key value (get_or tbl ndx [])) tbl
      else hash_insert tbl key value

  unfoldable pub unlink_first : ℕ → Chain A → Chain A
  unlink_first key [] = []
  unlink_first key (e ∷ es) = if e.key == key then es else e ∷ unlink_first key es

  -- The assertion at the end: a second entry with the key would be found now.
  unfoldable pub hash_delete : HashTable A → ℕ → Outcome (HashTable A)
  unfolding unlink_first set_chain hash_entry_exists
  hash_delete tbl key =
      let ndx = index_of tbl key in
      let tbl' = set_chain ndx (unlink_first key (get_or tbl ndx [])) tbl in
      assert_that (not (hash_entry_exists tbl' key)) (returns tbl')
