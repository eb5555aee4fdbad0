-- ===== src/Mysock/HashTable/Refine.antt =====
-- The hash table is a finite map, whatever is done to it.
use computer_networks.Prelude.{
  ℕ, ◌<◌, ◌≡◌, ◌≢◌, refl, sym, inl, inr, ap, ◌∙◌, Option, none, some, List, [], ◌∷◌, ◌==◌,
  if◌then◌else◌, length, get_or, All, arith, Bool-cases, Option-cases, ==→eq, eq→==,
}
use native.Mathlib.Nat.{mod-lt}
use computer_networks.Mysock.State.{Outcome, returns, and_then}
use computer_networks.Mysock.HashTable.{
  Chain, HashTable, index_of, find_in, hash_get_entry, hash_insert, hash_entry_exists, is_some,
  hash_set_entry, hash_delete, write_first, unlink_first, set_chain,
}
use computer_networks.Mysock.HashTable.Chains.{
  IsUnique, find-write_first, write_first-IsUnique, find-unlink_first, unlink_first-IsUnique,
  length-set_chain, chain-set_chain, set_chain-All, chain-IsUnique,
}

-- What is done to a table.
pub data HashOp {ℓ} (A : Type ℓ) : Type ℓ where
  insert : ℕ → A → HashOp A
  set_entry : ℕ → A → HashOp A
  delete : ℕ → HashOp A

module _ {ℓ} {A : Type ℓ} where
  unfoldable pub run_op : HashOp A → HashTable A → Outcome (HashTable A)
  unfolding hash_insert hash_set_entry hash_delete
  run_op (insert key value) tbl = returns (hash_insert tbl key value)
  run_op (set_entry key value) tbl = returns (hash_set_entry tbl key value)
  run_op (delete key) tbl = hash_delete tbl key

  unfoldable pub run_ops : List (HashOp A) → HashTable A → Outcome (HashTable A)
  unfolding run_op
  run_ops [] tbl = returns tbl
  run_ops (op ∷ ops) tbl = and_then (run_op op tbl) (run_ops ops)

  -- The same on a map.
  unfoldable pub on_map : HashOp A → (ℕ → Option A) → ℕ → Option A
  on_map (insert key value) m j = if j == key then some value else m j
  on_map (set_entry key value) m j = if j == key then some value else m j
  on_map (delete key) m j = if j == key then none else m j

  unfoldable pub on_maps : List (HashOp A) → (ℕ → Option A) → ℕ → Option A
  unfolding on_map
  on_maps [] m = m
  on_maps (op ∷ ops) m = on_maps ops (on_map op m)

  -- Only a key that is not there is inserted.
  abbrev pub IsFit : HashOp A → (ℕ → Option A) → Type ℓ
  IsFit (insert key value) m = m key ≡ none
  IsFit (set_entry key value) m = Unit
  IsFit (delete key) m = Unit

  abbrev pub AreFit : List (HashOp A) → (ℕ → Option A) → Type ℓ
  AreFit [] m = Unit
  AreFit (op ∷ ops) m = IsFit op m × AreFit ops (on_map op m)

  -- The table has a chain or more, no key twice, and the entries of the map.
  pub record Represents (tbl : HashTable A) (m : ℕ → Option A) : Type ℓ where
    pub chains : 0 < length tbl
    pub unique : All IsUnique tbl
    pub entries : (key : ℕ) → hash_get_entry tbl key ≡ m key

  -- A lookup after the chain of `key` has changed.
  get_entry-set_chain :
      (tbl : HashTable A) (key j : ℕ) (c : Chain A)
      → 0 < length tbl
      → hash_get_entry (set_chain (index_of tbl key) c tbl) j
        ≡ (if index_of tbl j == index_of tbl key then find_in j c else hash_get_entry tbl j)
  unfolding hash_get_entry
  get_entry-set_chain tbl key j c some_chain =
      let lt : index_of tbl key < length tbl = mod-lt key some_chain in
      rw
        (
          length-set_chain (index_of tbl key) c tbl,
          chain-set_chain (index_of tbl key) (index_of tbl j) c tbl lt,
        )
        (ground arith)

  in_chain :
      (tbl : HashTable A) (m : ℕ → Option A)
      → Represents tbl m
      → (j : ℕ) → find_in j (get_or tbl (index_of tbl j) []) ≡ m j
  unfolding hash_get_entry
  in_chain tbl m r j = r.entries j

  -- A chain that differs in what it has for `key` only.
  changed :
      (tbl : HashTable A) (m m' : ℕ → Option A) (key : ℕ) (c : Chain A) (v : Option A)
      → Represents tbl m
      → IsUnique c
      → ((j : ℕ)
          → find_in j c ≡ (if j == key then v else find_in j (get_or tbl (index_of tbl key) [])))
      → ((j : ℕ) → m' j ≡ (if j == key then v else m j))
      → Represents (set_chain (index_of tbl key) c tbl) m'
  changed tbl m m' key c v r u found is_map = record {
    chains = rw (length-set_chain (index_of tbl key) c tbl) r.chains;
    unique = set_chain-All (index_of tbl key) c tbl u r.unique;
    entries = λ j. get_entry-set_chain tbl key j c r.chains ∙ entry j ∙ sym (is_map j);
  }
    where
      entry :
          (j : ℕ)
          → (if index_of tbl j == index_of tbl key then find_in j c else hash_get_entry tbl j)
            ≡ (if j == key then v else m j)
      entry j = elim (Bool-cases (index_of tbl j == index_of tbl key)) [
        | inl same ↦
            rw (same, found j, ← ==→eq (index_of tbl j) (index_of tbl key) same)
              (ap (λ o. if j == key then v else o) (in_chain tbl m r j))
        | inr differs ↦ elim (Bool-cases (j == key)) [
          | inl e ↦ absurd (ground (arith, differs, ap (index_of tbl) (==→eq j key e)))
          | inr ne ↦ rw (differs, ne) (r.entries j)
        ]
      ]

  -- Each operation.
  insert-Represents :
      (tbl : HashTable A) (m m' : ℕ → Option A) (key : ℕ) (value : A)
      → Represents tbl m
      → m key ≡ none
      → ((j : ℕ) → m' j ≡ (if j == key then some value else m j))
      → Represents (hash_insert tbl key value) m'
  unfolding hash_insert
  insert-Represents tbl m m' key value r absent is_map =
      let old : Chain A = get_or tbl (index_of tbl key) [] in
      changed tbl m m' key (record { key = key; value = value } ∷ old) (some value) r
        (in_chain tbl m r key ∙ absent, chain-IsUnique (index_of tbl key) tbl r.unique)
        (λ j. unfold find_in in ground arith) is_map

  set-Represents :
      (tbl : HashTable A) (m m' : ℕ → Option A) (key : ℕ) (value : A)
      → Represents tbl m
      → ((j : ℕ) → m' j ≡ (if j == key then some value else m j))
      → Represents (hash_set_entry tbl key value) m'
  unfolding hash_set_entry hash_entry_exists is_some
  set-Represents tbl m m' key value r is_map = elim (Option-cases (hash_get_entry tbl key)) [
    | inl absent ↦
        rw absent (insert-Represents tbl m m' key value r (sym (r.entries key) ∙ absent) is_map)
    | inr (d, there) ↦
        let old : Chain A = get_or tbl (index_of tbl key) [] in
        let found : find_in key old ≢ none = λ h.
          let clash : some d ≡ none = sym there ∙ r.entries key ∙ sym (in_chain tbl m r key) ∙ h in
          cc in
        rw there (
          changed tbl m m' key (write_first key value old) (some value) r
            (write_first-IsUnique key value old found
              (chain-IsUnique (index_of tbl key) tbl r.unique))
            (λ j. find-write_first key j value old found) is_map)
  ]

  delete-Represents :
      (tbl : HashTable A) (m m' : ℕ → Option A) (key : ℕ)
      → Represents tbl m
      → ((j : ℕ) → m' j ≡ (if j == key then none else m j))
      → (tbl' : HashTable A) × (hash_delete tbl key ≡ returns tbl') × Represents tbl' m'
  unfolding hash_delete hash_entry_exists is_some
  delete-Represents tbl m m' key r is_map =
      let old : Chain A = get_or tbl (index_of tbl key) [] in
      let u = chain-IsUnique (index_of tbl key) tbl r.unique in
      let tbl' : HashTable A = set_chain (index_of tbl key) (unlink_first key old) tbl in
      let r' : Represents tbl' m' =
        changed tbl m m' key (unlink_first key old) none r (unlink_first-IsUnique key old u)
          (λ j. find-unlink_first key j old u) is_map in
      let gone : hash_get_entry tbl' key ≡ none =
        r'.entries key ∙ is_map key ∙ rw (eq→== key key refl) refl in
      (tbl', rw gone refl, r')

  op-Represents :
      (op : HashOp A) (tbl : HashTable A) (m : ℕ → Option A)
      → Represents tbl m
      → IsFit op m
      → (tbl' : HashTable A) × (run_op op tbl ≡ returns tbl') × Represents tbl' (on_map op m)
  unfolding run_op on_map
  op-Represents (insert key value) tbl m r fit = (
    hash_insert tbl key value,
    refl,
    insert-Represents tbl m (on_map (insert key value) m) key value r fit (λ j. refl),
  )
  op-Represents (set_entry key value) tbl m r fit = (
    hash_set_entry tbl key value,
    refl,
    set-Represents tbl m (on_map (set_entry key value) m) key value r (λ j. refl),
  )
  op-Represents (delete key) tbl m r fit =
      delete-Represents tbl m (on_map (delete key) m) key r (λ j. refl)

  -- From a table that represents a map, any operations in which only absent keys are inserted never
  -- fail an assertion, and they end with a table that represents what they make of the map.
  pub run-Represents :
      (ops : List (HashOp A)) (tbl : HashTable A) (m : ℕ → Option A)
      → Represents tbl m
      → AreFit ops m
      → (tbl' : HashTable A) × (run_ops ops tbl ≡ returns tbl') × Represents tbl' (on_maps ops m)
  unfolding run_ops on_maps
  run-Represents [] tbl m r fit = (tbl, refl, r)
  run-Represents (op ∷ ops) tbl m r fit =
      let (next, went, r') = op-Represents op tbl m r fit.0 in
      let (tbl', rest, r'') = run-Represents ops next (on_map op m) r' fit.1 in
      (tbl', rw went rest, r'')
