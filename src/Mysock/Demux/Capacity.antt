-- ===== src/Mysock/Demux/Capacity.antt =====
-- The invariant of a listen queue, and what it says of the slot that a request takes.
use computer_networks.Prelude.{
  ℕ, ◌<◌, ◌≤◌, ◌≡◌, ◌≢◌, inl, inr, refl, sym, ap, ◌∙◌, true, false, Option, none, some, List, [],
  ◌∷◌, ◌++◌, ltb, length, take, arith, Bool-cases, All, All-append, take_all, lt→ltb, le→ltb-false,
}
use computer_networks.Mysock.State.{returns, returns-returns}
use computer_networks.Mysock.Demux.Pending.{
  ConnectRequest, ListenQueue, set_slot, is_free, slot_of, take_slot, fill_request, no_request,
  complete_request, accept_request, set_max_len, new_queue,
}
use computer_networks.Mysock.Demux.Slots.{
  used, slot, free_slot_lem, slot-set_slot_other, slot-append,
}

-- No slot is completed twice.
abbrev pub IsDistinct : List ℕ → Type 0
IsDistinct [] = Unit
IsDistinct (k ∷ ks) = All (λ j. j ≢ k) ks × IsDistinct ks

abbrev pub InUse : List ConnectRequest → ℕ → Type 0
InUse cs k = is_free (slot cs k) ≡ false

pub record IsListenQueue (q : ListenQueue) : Type 0 where
  pub whole : length q.connection_queue ≡ q.max_len
  pub counted : q.cur_len ≡ used q.connection_queue
  pub distinct : IsDistinct q.completed_queue
  pub pending : All (InUse q.connection_queue) q.completed_queue

-- What happens to the queue of a mysocket that listens, where each operation ends before the next one
-- starts. Each connection is completed once, and the backlog is not made smaller.
pub data Step (q : ListenQueue) : ListenQueue → Type 0 where
  requested :
      (k : ℕ) (r : ConnectRequest)
      → take_slot q ≡ returns (some k)
      → is_free r ≡ false
      → Step q (fill_request q k r)
  refused : (k : ℕ) → take_slot q ≡ returns (some k) → Step q (no_request q k)
  completed :
      (k my_sd : ℕ) (q' : ListenQueue)
      → slot_of my_sd (take q.max_len q.connection_queue) ≡ some k
      → All (λ j. j ≢ k) q.completed_queue
      → complete_request q my_sd ≡ returns q'
      → Step q q'
  accepted : (sd : Option ℕ) (q' : ListenQueue) → accept_request q ≡ returns (sd, q') → Step q q'
  enlarged : (max_len : ℕ) → q.max_len ≤ max_len → Step q (set_max_len q max_len)

pub data Reaches : ListenQueue → Type 0 where
  fresh : (local_port : ℕ) → Reaches (new_queue local_port)
  onward : {q q' : ListenQueue} → Reaches q → Step q q' → Reaches q'

-- The slot that a request takes is free.
pub take_slot_lem :
    (q : ListenQueue)
    → IsListenQueue q
    → q.cur_len < q.max_len
    → (k : ℕ) × (take_slot q ≡ returns (some k))
      × (k < length q.connection_queue)
      × (is_free (slot q.connection_queue k) ≡ true)
unfolding take_slot
take_slot_lem q h room =
    let (k, found, inside, free) =
      free_slot_lem q.connection_queue (omega (arith, h.counted, h.whole, room)) in
    (
      k,
      rw
          (
            lt→ltb q.cur_len q.max_len room,
            take_all q.max_len q.connection_queue (omega (arith, h.whole)),
            found,
          )
          refl,
      inside,
      free,
    )

pub take_slot_full : (q : ListenQueue) → q.max_len ≤ q.cur_len → take_slot q ≡ returns none
unfolding take_slot
take_slot_full q full = rw (le→ltb-false q.cur_len q.max_len full) refl

-- A slot that was taken: there was room.
pub taken_free :
    (q : ListenQueue) (k : ℕ)
    → IsListenQueue q
    → take_slot q ≡ returns (some k)
    → (k < length q.connection_queue) × (is_free (slot q.connection_queue k) ≡ true)
taken_free q k h e = elim (Bool-cases (ltb q.cur_len q.max_len)) [
  | inl room ↦
      let (j, found, inside, free) = take_slot_lem q h (ground (arith, room)) in
      let same : some j ≡ some k = returns-returns (sym found ∙ e) in
      let is : j ≡ k = cc in (rw (← is) inside, rw (← is) free)
  | inr full ↦ absurd (
      let same : none ≡ some k =
        returns-returns (sym (take_slot_full q (ground (arith, full))) ∙ e) in
      cc)
]

-- Other slots keep their use.
pub pending-set_slot :
    (k : ℕ) (r : ConnectRequest) (cs : List ConnectRequest) (ks : List ℕ)
    → All (λ j. j ≢ k) ks
    → All (InUse cs) ks
    → All (InUse (set_slot k r cs)) ks
pending-set_slot k r cs [] ne h = tt
pending-set_slot k r cs (j ∷ ks) ne h =
    (ap is_free (slot-set_slot_other k j r cs ne.0) ∙ h.0, pending-set_slot k r cs ks ne.1 h.1)

-- A free slot is none of those in use.
pub used_not_free :
    (k : ℕ) (cs : List ConnectRequest) (ks : List ℕ)
    → is_free (slot cs k) ≡ true
    → All (InUse cs) ks
    → All (λ j. j ≢ k) ks
used_not_free k cs [] free h = tt
used_not_free k cs (j ∷ ks) free h = (
  λ e. absurd (ground (arith, free, h.0, ap (λ i. is_free (slot cs i)) e)),
  used_not_free k cs ks free h.1,
)

pub pending-append :
    (cs ds : List ConnectRequest) (ks : List ℕ) → All (InUse cs) ks → All (InUse (cs ++ ds)) ks
pending-append cs ds [] h = tt
pending-append cs ds (k ∷ ks) h =
    (ap is_free (slot-append k cs ds h.0) ∙ h.0, pending-append cs ds ks h.1)

pub IsDistinct-append :
    (ks : List ℕ) (k : ℕ) → IsDistinct ks → All (λ j. j ≢ k) ks → IsDistinct (ks ++ k ∷ [])
IsDistinct-append [] k d ne = (tt, tt)
IsDistinct-append (j ∷ ks) k d ne = (
  All-append (λ i. i ≢ j) ks (k ∷ []) d.0 ((λ e. ne.0 (sym e)), tt),
  IsDistinct-append ks k d.1 ne.1,
)
