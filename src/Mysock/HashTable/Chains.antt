-- ===== src/Mysock/HashTable/Chains.antt =====
-- A chain in which no key stands twice is a finite map.
use computer_networks.Prelude.{
  ℕ, zero, suc, ◌<◌, ◌≡◌, ◌≢◌, refl, inl, inr, ap, ◌∙◌, none, some, [], ◌∷◌, ◌==◌, if◌then◌else◌,
  length, get_or, All, arith, Bool-cases, ==→eq,
}
use computer_networks.Mysock.HashTable.{
  Chain, HashTable, find_in, write_first, unlink_first, set_chain,
}

module _ {ℓ} {A : Type ℓ} where
  -- No key stands twice.
  abbrev pub IsUnique : Chain A → Type ℓ
  IsUnique [] = Unit
  IsUnique (e ∷ es) = (find_in e.key es ≡ none) × IsUnique es

  pub find-write_first :
      (key j : ℕ) (d : A) (es : Chain A)
      → find_in key es ≢ none
      → find_in j (write_first key d es) ≡ (if j == key then some d else find_in j es)
  unfolding find_in write_first
  find-write_first key j d [] h = absurd (h refl)
  find-write_first key j d (e ∷ es) h = elim (Bool-cases (e.key == key)) [
    | inl same ↦ rw same (ground (arith, ==→eq e.key key same))
    | inr differs ↦
        rw differs (ground (arith, differs, find-write_first key j d es (rw differs at h)))
  ]

  pub write_first-IsUnique :
      (key : ℕ) (d : A) (es : Chain A)
      → find_in key es ≢ none
      → IsUnique es
      → IsUnique (write_first key d es)
  unfolding find_in write_first
  write_first-IsUnique key d [] h u = tt
  write_first-IsUnique key d (e ∷ es) h u = elim (Bool-cases (e.key == key)) [
    | inl same ↦ rw same u
    | inr differs ↦
        let h' = rw differs at h in
        rw differs (
          find-write_first key e.key d es h' ∙ (rw differs u.0),
          write_first-IsUnique key d es h' u.1,
        )
  ]

  pub find-unlink_first :
      (key j : ℕ) (es : Chain A)
      → IsUnique es
      → find_in j (unlink_first key es) ≡ (if j == key then none else find_in j es)
  unfolding find_in unlink_first
  find-unlink_first key j [] u = ground arith
  find-unlink_first key j (e ∷ es) u = elim (Bool-cases (e.key == key)) [
    | inl same ↦ rw same (ground (arith, ==→eq e.key key same, u.0))
    | inr differs ↦ rw differs (ground (arith, differs, find-unlink_first key j es u.1))
  ]

  pub unlink_first-IsUnique :
      (key : ℕ) (es : Chain A) → IsUnique es → IsUnique (unlink_first key es)
  unfolding unlink_first
  unlink_first-IsUnique key [] u = tt
  unlink_first-IsUnique key (e ∷ es) u = elim (Bool-cases (e.key == key)) [
    | inl same ↦ rw same u.1
    | inr differs ↦ rw differs (
      find-unlink_first key e.key es u.1 ∙ rw (differs, u.0) refl,
      unlink_first-IsUnique key es u.1,
    )
  ]

  pub length-set_chain :
      (i : ℕ) (c : Chain A) (tbl : HashTable A) → length (set_chain i c tbl) ≡ length tbl
  unfolding set_chain
  length-set_chain i c [] = refl
  length-set_chain zero c (x ∷ tbl) = refl
  length-set_chain (suc i) c (x ∷ tbl) = ap suc (length-set_chain i c tbl)

  pub chain-set_chain :
      (i j : ℕ) (c : Chain A) (tbl : HashTable A)
      → i < length tbl
      → get_or (set_chain i c tbl) j [] ≡ (if j == i then c else get_or tbl j [])
  unfolding set_chain
  chain-set_chain i j c [] lt = absurd (omega arith)
  chain-set_chain zero zero c (x ∷ tbl) lt = ground arith
  chain-set_chain zero (suc j) c (x ∷ tbl) lt = ground arith
  chain-set_chain (suc i) zero c (x ∷ tbl) lt = ground arith
  chain-set_chain (suc i) (suc j) c (x ∷ tbl) lt =
      ground (arith, chain-set_chain i j c tbl (omega arith))

  pub set_chain-All :
      (i : ℕ) (c : Chain A) (tbl : HashTable A)
      → IsUnique c
      → All IsUnique tbl
      → All IsUnique (set_chain i c tbl)
  unfolding set_chain
  set_chain-All i c [] uc u = tt
  set_chain-All zero c (x ∷ tbl) uc u = (uc, u.1)
  set_chain-All (suc i) c (x ∷ tbl) uc u = (u.0, set_chain-All i c tbl uc u.1)

  pub chain-IsUnique : (i : ℕ) (tbl : HashTable A) → All IsUnique tbl → IsUnique (get_or tbl i [])
  chain-IsUnique i [] u = tt
  chain-IsUnique zero (x ∷ tbl) u = u.0
  chain-IsUnique (suc i) (x ∷ tbl) u = chain-IsUnique i tbl u.1
