-- ===== src/Mysock/Demux/Backlog.antt =====
-- Whatever happens to a listen queue, it counts its slots.
use computer_networks.Prelude.{
  ℕ, ◌-◌, ◌<◌, ◌≤◌, ◌≡◌, ◌≢◌, inl, inr, refl, sym, ap, ◌∙◌, true, false, Option, none, some, List,
  [], ◌∷◌, ltb, length, take, arith, Bool-cases, All, All-append, take_all, length-append, lt→ltb,
}
use computer_networks.Mysock.State.{returns, returns-returns, blocks-returns}
use computer_networks.Mysock.Demux.Pending.{
  ConnectRequest, ListenQueue, free_request, set_slot, is_free, slot_of, free_requests,
  fill_request, no_request, complete_request, accept_request, set_max_len,
}
use computer_networks.Mysock.Demux.Slots.{
  used, slot, used-set_slot_fill, used-set_slot_clear, used-set_slot_same, length-set_slot,
  slot_of_lem, used-append, used-free_requests,
}
use computer_networks.Mysock.Demux.Capacity.{
  IsDistinct, InUse, IsListenQueue, Step, requested, refused, completed, accepted, enlarged,
  Reaches, fresh, onward, taken_free, pending-set_slot, used_not_free, pending-append,
  IsDistinct-append,
}

fill-IsListenQueue :
    (q : ListenQueue) (k : ℕ) (r : ConnectRequest)
    → IsListenQueue q
    → k < length q.connection_queue
    → is_free (slot q.connection_queue k) ≡ true
    → is_free r ≡ false
    → IsListenQueue (fill_request q k r)
unfolding fill_request
fill-IsListenQueue q k r h inside free taken = record {
  whole = length-set_slot k r q.connection_queue ∙ h.whole;
  counted = omega (arith, h.counted, used-set_slot_fill k r q.connection_queue inside free taken);
  distinct = h.distinct;
  pending =
      pending-set_slot k r q.connection_queue q.completed_queue
        (used_not_free k q.connection_queue q.completed_queue free h.pending) h.pending;
}

refused-IsListenQueue :
    (q : ListenQueue) (k : ℕ)
    → IsListenQueue q
    → is_free (slot q.connection_queue k) ≡ true
    → IsListenQueue (no_request q k)
unfolding no_request
refused-IsListenQueue q k h free = record {
  whole = length-set_slot k free_request q.connection_queue ∙ h.whole;
  counted = omega (arith, h.counted, used-set_slot_same k q.connection_queue free);
  distinct = h.distinct;
  pending =
      pending-set_slot k free_request q.connection_queue q.completed_queue
        (used_not_free k q.connection_queue q.completed_queue free h.pending) h.pending;
}

complete-IsListenQueue :
    (q q' : ListenQueue) (k my_sd : ℕ)
    → IsListenQueue q
    → slot_of my_sd (take q.max_len q.connection_queue) ≡ some k
    → All (λ j. j ≢ k) q.completed_queue
    → complete_request q my_sd ≡ returns q'
    → IsListenQueue q'
unfolding complete_request
complete-IsListenQueue q q' k my_sd h found new e =
    let all = take_all q.max_len q.connection_queue (omega (arith, h.whole)) in
    let after = returns-returns (rw (found, complete_request) at e) in
    rw (← after) (record {
      whole = h.whole;
      counted = h.counted;
      distinct = IsDistinct-append q.completed_queue k h.distinct new;
      pending =
          All-append (InUse q.connection_queue) q.completed_queue (k ∷ []) h.pending
            (slot_of_lem my_sd k q.connection_queue (rw all at found), tt);
    })

-- What is accepted: the mysocket of the oldest completed connection.
accept_lem :
    (q : ListenQueue) (k : ℕ) (rest : List ℕ)
    → IsListenQueue q
    → q.completed_queue ≡ k ∷ rest
    → (sd : ℕ) × (q' : ListenQueue) × (accept_request q ≡ returns (some sd, q'))
      × IsListenQueue q'
      × (q'.completed_queue ≡ rest)
unfolding accept_request
accept_lem q k rest h e =
    let all_used : All (InUse q.connection_queue) (k ∷ rest) = rw e at h.pending in
    let no_twice : IsDistinct (k ∷ rest) = rw e at h.distinct in
    let (sd, is) = holder (slot q.connection_queue k) all_used.0 in
    let fewer = used-set_slot_clear k q.connection_queue all_used.0 in
    (
      sd,
      record q {
        cur_len = q.cur_len - 1;
        connection_queue = set_slot k free_request q.connection_queue;
        completed_queue = rest;
      },
      rw (e, lt→ltb 0 q.cur_len (omega (arith, h.counted, fewer)), is) refl,
      record {
        whole = length-set_slot k free_request q.connection_queue ∙ h.whole;
        counted = omega (arith, h.counted, fewer);
        distinct = no_twice.1;
        pending = pending-set_slot k free_request q.connection_queue rest no_twice.0 all_used.1;
      },
      refl,
    )
  where
    held :
        (o : Option ℕ) → elim o [ none ↦ true | some x ↦ false ] ≡ false → (sd : ℕ) × (o ≡ some sd)
    held none h = absurd (ground (arith, h))
    held (some sd) h = (sd, refl)

    holder : (r : ConnectRequest) → is_free r ≡ false → (sd : ℕ) × (r.sd ≡ some sd)
    holder r h = held r.sd h

enlarge-IsListenQueue :
    (q : ListenQueue) (max_len : ℕ)
    → IsListenQueue q
    → q.max_len ≤ max_len
    → IsListenQueue (set_max_len q max_len)
unfolding set_max_len
enlarge-IsListenQueue q max_len h more = elim (Bool-cases (ltb q.max_len max_len)) [
  | inl grows ↦
      let all = take_all q.max_len q.connection_queue (omega (arith, h.whole)) in
      let new : List ConnectRequest = free_requests (max_len - q.max_len) in
      let facts = used-free_requests (max_len - q.max_len) in
      rw (grows, all)
        (record {
          whole = omega (arith, length-append q.connection_queue new, facts.1, h.whole);
          counted = omega (arith, used-append q.connection_queue new, facts.0, h.counted);
          distinct = h.distinct;
          pending = pending-append q.connection_queue new q.completed_queue h.pending;
        })
  | inr same ↦ rw same (record {
    whole = ground (arith, h.whole, same);
    counted = h.counted;
    distinct = h.distinct;
    pending = h.pending;
  })
]

accepted-IsListenQueue :
    (q q' : ListenQueue) (sd : Option ℕ) (ks : List ℕ)
    → q.completed_queue ≡ ks
    → IsListenQueue q
    → accept_request q ≡ returns (sd, q')
    → IsListenQueue q'
unfolding accept_request
accepted-IsListenQueue q q' sd [] none_left h e = absurd (blocks-returns (rw none_left at e))
accepted-IsListenQueue q q' sd (k ∷ rest) some_left h e =
    let (held, next, accepts, h', left) = accept_lem q k rest h some_left in
    let same = returns-returns (sym accepts ∙ e) in rw (← ap (λ r. r.1) same) h'

Step-IsListenQueue : (q q' : ListenQueue) → IsListenQueue q → Step q q' → IsListenQueue q'
Step-IsListenQueue q q' h (requested k r e taken) =
    let (inside, free) = taken_free q k h e in fill-IsListenQueue q k r h inside free taken
Step-IsListenQueue q q' h (refused k e) = refused-IsListenQueue q k h (taken_free q k h e).1
Step-IsListenQueue q q' h (completed k my_sd q'' found new e) =
    complete-IsListenQueue q q' k my_sd h found new e
Step-IsListenQueue q q' h (accepted sd q'' e) =
    accepted-IsListenQueue q q' sd q.completed_queue refl h e
Step-IsListenQueue q q' h (enlarged max_len more) = enlarge-IsListenQueue q max_len h more

pub reaches-IsListenQueue : (q : ListenQueue) → Reaches q → IsListenQueue q
unfolding used
reaches-IsListenQueue q (fresh local_port) = record {
  whole = refl;
  counted = refl;
  distinct = tt;
  pending = tt;
}
reaches-IsListenQueue q (onward {q = p} reach step) =
    Step-IsListenQueue p q (reaches-IsListenQueue p reach) step

-- In every such state with a completed connection, an accept does not wait and fails no assertion:
-- it gives the descriptor of a mysocket.
pub accept_gives :
    (q : ListenQueue) (k : ℕ) (rest : List ℕ)
    → Reaches q
    → q.completed_queue ≡ k ∷ rest
    → (sd : ℕ) × (q' : ListenQueue) × (accept_request q ≡ returns (some sd, q'))
      × (q'.completed_queue ≡ rest)
accept_gives q k rest reach e =
    let (sd, q', accepts, h, left) = accept_lem q k rest (reaches-IsListenQueue q reach) e in
    (sd, q', accepts, left)
