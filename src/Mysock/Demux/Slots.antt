-- ===== src/Mysock/Demux/Slots.antt =====
-- The slots of a listen queue, and how many of them are in use.
use computer_networks.Prelude.{
  ℕ, zero, suc, ◌+◌, ◌<◌, ◌≤◌, ◌≡◌, ◌≢◌, inl, inr, refl, sym, ap, true, false, Option, none, some,
  List, [], ◌∷◌, ◌++◌, if◌then◌else◌, length, get_or, arith, Bool-cases, Option-cases,
}
use computer_networks.Mysock.Demux.Pending.{
  ConnectRequest, free_request, set_slot, is_free, holds_sd, free_slot, slot_of, free_requests,
}

-- The slots in use.
unfoldable pub used : List ConnectRequest → ℕ
used [] = 0
used (r ∷ rs) = (if is_free r then 0 else 1) + used rs

abbrev pub slot : List ConnectRequest → ℕ → ConnectRequest
slot cs k = get_or cs k free_request

pub used-le-length : (cs : List ConnectRequest) → used cs ≤ length cs
unfolding used
used-le-length [] = omega arith
used-le-length (r ∷ rs) = ground (arith, used-le-length rs)

-- A queue that is not full has a free slot.
pub free_slot_lem :
    (cs : List ConnectRequest)
    → used cs < length cs
    → (k : ℕ) × (free_slot cs ≡ some k) × (k < length cs) × (is_free (slot cs k) ≡ true)
unfolding used free_slot
free_slot_lem [] h = absurd (omega arith)
free_slot_lem (r ∷ rs) h = elim (Bool-cases (is_free r)) [
  | inl free ↦ (0, rw free refl, omega arith, free)
  | inr taken ↦
      let (k, found, inside, free) = free_slot_lem rs (ground (arith, h, taken)) in
      (suc k, rw (taken, found) refl, omega (arith, inside), free)
]

pub used-set_slot_fill :
    (k : ℕ) (r : ConnectRequest) (cs : List ConnectRequest)
    → k < length cs
    → is_free (slot cs k) ≡ true
    → is_free r ≡ false
    → used (set_slot k r cs) ≡ used cs + 1
unfolding used set_slot
used-set_slot_fill k r [] lt free taken = absurd (omega arith)
used-set_slot_fill zero r (x ∷ cs) lt free taken = rw (free, taken) (omega arith)
used-set_slot_fill (suc k) r (x ∷ cs) lt free taken =
    omega (arith, used-set_slot_fill k r cs (omega arith) free taken)

pub used-set_slot_clear :
    (k : ℕ) (cs : List ConnectRequest)
    → is_free (slot cs k) ≡ false
    → used (set_slot k free_request cs) + 1 ≡ used cs
unfolding used set_slot
used-set_slot_clear k [] taken = absurd (ground (arith, taken))
used-set_slot_clear zero (x ∷ cs) taken = rw taken (omega arith)
used-set_slot_clear (suc k) (x ∷ cs) taken = omega (arith, used-set_slot_clear k cs taken)

pub used-set_slot_same :
    (k : ℕ) (cs : List ConnectRequest)
    → is_free (slot cs k) ≡ true
    → used (set_slot k free_request cs) ≡ used cs
unfolding used set_slot
used-set_slot_same k [] free = refl
used-set_slot_same zero (x ∷ cs) free = rw free refl
used-set_slot_same (suc k) (x ∷ cs) free = omega (arith, used-set_slot_same k cs free)

pub length-set_slot :
    (k : ℕ) (r : ConnectRequest) (cs : List ConnectRequest) → length (set_slot k r cs) ≡ length cs
unfolding set_slot
length-set_slot k r [] = refl
length-set_slot zero r (x ∷ cs) = refl
length-set_slot (suc k) r (x ∷ cs) = ap suc (length-set_slot k r cs)

pub slot-set_slot_other :
    (k j : ℕ) (r : ConnectRequest) (cs : List ConnectRequest)
    → j ≢ k
    → slot (set_slot k r cs) j ≡ slot cs j
unfolding set_slot
slot-set_slot_other k j r [] ne = refl
slot-set_slot_other zero zero r (x ∷ cs) ne = absurd (ne refl)
slot-set_slot_other zero (suc j) r (x ∷ cs) ne = refl
slot-set_slot_other (suc k) zero r (x ∷ cs) ne = refl
slot-set_slot_other (suc k) (suc j) r (x ∷ cs) ne =
    slot-set_slot_other k j r cs (λ e. ne (ap suc e))

in_use :
    (sd : ℕ) (o : Option ℕ) → holds_sd sd o ≡ true → elim o [ none ↦ true | some x ↦ false ] ≡ false
in_use sd none h = sym h
in_use sd (some x) h = refl

-- The slot of a descriptor is in use.
pub slot_of_lem :
    (sd k : ℕ) (cs : List ConnectRequest) → slot_of sd cs ≡ some k → is_free (slot cs k) ≡ false
unfolding slot_of
slot_of_lem sd k [] e = absurd cc
slot_of_lem sd k (r ∷ cs) e = elim (Bool-cases (holds_sd sd r.sd)) [
  | inl here ↦
      let at : some 0 ≡ some k = rw here at e in
      let zero_is : 0 ≡ k = cc in rw (← zero_is) (in_use sd r.sd here)
  | inr elsewhere ↦ elim (Option-cases (slot_of sd cs)) [
    | inl nowhere ↦ absurd (let at : none ≡ some k = rw (elsewhere, nowhere) at e in cc)
    | inr (j, found) ↦
        let at : some (suc j) ≡ some k = rw (elsewhere, found) at e in
        let next : suc j ≡ k = cc in rw (← next) (slot_of_lem sd j cs found)
  ]
]

pub used-append : (cs ds : List ConnectRequest) → used (cs ++ ds) ≡ used cs + used ds
unfolding used
used-append [] ds = omega arith
used-append (c ∷ cs) ds = omega (arith, used-append cs ds)

pub used-free_requests : (n : ℕ) → (used (free_requests n) ≡ 0) × (length (free_requests n) ≡ n)
unfolding used free_requests
used-free_requests zero = (refl, refl)
used-free_requests (suc n) =
    let rest = used-free_requests n in (omega (arith, rest.0), omega (arith, rest.1))

-- More slots behind leave the slots in use.
pub slot-append :
    (k : ℕ) (cs ds : List ConnectRequest)
    → is_free (slot cs k) ≡ false
    → slot (cs ++ ds) k ≡ slot cs k
slot-append k [] ds taken = absurd (ground (arith, taken))
slot-append zero (c ∷ cs) ds taken = refl
slot-append (suc k) (c ∷ cs) ds taken = slot-append k cs ds taken
