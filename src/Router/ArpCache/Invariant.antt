-- ===== src/Router/ArpCache/Invariant.antt =====
-- The queue of requests keeps its invariant under every operation of the cache.
use computer_networks.Prelude.{
  ℕ, ◌+◌, ◌≡◌, ◌≢◌, refl, inl, inr, none, some, List, [], ◌∷◌, ◌==◌, take, arith, All, Bool-cases,
  Option-cases,
}
use computer_networks.Prelude.Words.{Bytes}
use computer_networks.Router.State.{Name, Packet, ArpReq, ArpCache}
use computer_networks.Router.Interfaces.{iface_namelen}
use computer_networks.Router.ArpCache.{
  find_req, add_packet, with_request, sr_arpcache_queuereq, unlink_ip, unlink_id,
  sr_arpcache_insert, sr_arpreq_destroy, sr_arpcache_init,
}
use computer_networks.Router.ArpCache.Queue.{
  IsOther, IsDistinct, IsRequest, IsQueue, queuereq-requests,
}

IsOther-add_packet :
    (r : ArpReq) (ip : ℕ) (p : Packet) (rs : List ArpReq)
    → All (IsOther r) rs
    → All (IsOther r) (add_packet ip p rs)
unfolding add_packet
IsOther-add_packet r ip p [] h = tt
IsOther-add_packet r ip p (x ∷ xs) h = elim (Bool-cases (x.ip == ip)) [
  | inl e ↦ rw e h
  | inr e ↦ rw e (h.0, IsOther-add_packet r ip p xs h.1)
]

IsDistinct-add_packet :
    (ip : ℕ) (p : Packet) (rs : List ArpReq) → IsDistinct rs → IsDistinct (add_packet ip p rs)
unfolding add_packet
IsDistinct-add_packet ip p [] h = tt
IsDistinct-add_packet ip p (x ∷ xs) h = elim (Bool-cases (x.ip == ip)) [
  | inl e ↦ rw e h
  | inr e ↦ rw e (IsOther-add_packet x ip p xs h.0, IsDistinct-add_packet ip p xs h.1)
]

IsRequest-add_packet :
    (n ip : ℕ) (p : Packet) (rs : List ArpReq)
    → All (IsRequest n) rs
    → All (IsRequest n) (add_packet ip p rs)
unfolding add_packet
IsRequest-add_packet n ip p [] h = tt
IsRequest-add_packet n ip p (x ∷ xs) h = elim (Bool-cases (x.ip == ip)) [
  | inl e ↦ rw e ((λ z. cc, h.0.1), h.1)
  | inr e ↦ rw e (h.0, IsRequest-add_packet n ip p xs h.1)
]

IsRequest-later : (n : ℕ) (rs : List ArpReq) → All (IsRequest n) rs → All (IsRequest (n + 1)) rs
IsRequest-later n [] h = tt
IsRequest-later n (x ∷ xs) h = ((h.0.0, omega arith), IsRequest-later n xs h.1)

IsOther-new :
    (new : ArpReq) (rs : List ArpReq)
    → find_req new.ip rs ≡ none
    → All (IsRequest new.id) rs
    → All (IsOther new) rs
unfolding find_req
IsOther-new new [] e h = tt
IsOther-new new (x ∷ xs) e h = ((ground arith, ground arith), IsOther-new new xs (ground arith) h.1)

-- A new request with the first packet on it.
abbrev fresh_request : ArpCache → ℕ → List Packet → ArpReq
fresh_request cache ip ps = record {
  id = cache.next_id;
  ip = ip;
  sent = 0;
  times_sent = 0;
  packets = ps;
}

with_request-found :
    (cache : ArpCache) (ip : ℕ) {r : ArpReq}
    → find_req ip cache.requests ≡ some r
    → with_request cache ip ≡ cache
unfolding with_request
with_request-found cache ip e = rw (e, with_request)

with_request-new :
    (cache : ArpCache) (ip : ℕ)
    → find_req ip cache.requests ≡ none
    → with_request cache ip ≡ record cache {
      requests = fresh_request cache ip [] ∷ cache.requests;
      next_id = cache.next_id + 1;
    }
unfolding with_request
with_request-new cache ip e = rw (e, with_request)

add_packet-new :
    (cache : ArpCache) (ip : ℕ) (p : Packet) (rs : List ArpReq)
    → add_packet ip p (fresh_request cache ip [] ∷ rs) ≡ fresh_request cache ip (p ∷ []) ∷ rs
unfolding add_packet
add_packet-new cache ip p rs = ground arith

queued :
    (cache : ArpCache) (ip : ℕ) (p : Packet)
    → IsQueue cache
    → IsDistinct (add_packet ip p (with_request cache ip).requests)
      × All
          (IsRequest (with_request cache ip).next_id)
          (add_packet ip p (with_request cache ip).requests)
queued cache ip p q = elim (Option-cases (find_req ip cache.requests)) [
  | inr (r, e) ↦ rw (with_request-found cache ip e) (
    IsDistinct-add_packet ip p cache.requests q.distinct,
    IsRequest-add_packet cache.next_id ip p cache.requests q.all_wait,
  )
  | inl e ↦
      rw (with_request-new cache ip e, add_packet-new cache ip p cache.requests)
        (
          (IsOther-new (fresh_request cache ip []) cache.requests e q.all_wait, q.distinct),
          ((λ z. cc, omega arith), IsRequest-later cache.next_id cache.requests q.all_wait),
        )
]

queuereq-next_id :
    (cache : ArpCache) (ip : ℕ) (packet : Bytes) (iface : Name)
    → packet ≢ []
    → (sr_arpcache_queuereq cache ip packet iface).0.next_id ≡ (with_request cache ip).next_id
unfolding sr_arpcache_queuereq
queuereq-next_id cache ip [] iface h = absurd (h refl)
queuereq-next_id cache ip (b ∷ bs) iface h = ground arith

-- Queueing a packet that has bytes keeps the invariant of the queue.
pub queuereq-IsQueue :
    (cache : ArpCache) (ip : ℕ) (packet : Bytes) (iface : Name)
    → packet ≢ []
    → IsQueue cache
    → IsQueue (sr_arpcache_queuereq cache ip packet iface).0
queuereq-IsQueue cache ip packet iface h q =
    let p : Packet = record { buf = packet; iface = take iface_namelen iface } in
    record {
      distinct = rw (queuereq-requests cache ip packet iface h) (queued cache ip p q).0;
      all_wait =
          rw (queuereq-requests cache ip packet iface h, queuereq-next_id cache ip packet iface h)
            (queued cache ip p q).1;
    }

module _ {κ} (P : ArpReq → Type κ) where
  All-unlink_ip : (ip : ℕ) (rs : List ArpReq) → All P rs → All P (unlink_ip ip rs)
  unfolding unlink_ip
  All-unlink_ip ip [] h = tt
  All-unlink_ip ip (x ∷ xs) h = elim (Bool-cases (x.ip == ip)) [
    | inl e ↦ rw e h.1
    | inr e ↦ rw e (h.0, All-unlink_ip ip xs h.1)
  ]

  All-unlink_id : (id : ℕ) (rs : List ArpReq) → All P rs → All P (unlink_id id rs)
  unfolding unlink_id
  All-unlink_id id [] h = tt
  All-unlink_id id (x ∷ xs) h = elim (Bool-cases (x.id == id)) [
    | inl e ↦ rw e h.1
    | inr e ↦ rw e (h.0, All-unlink_id id xs h.1)
  ]

IsDistinct-unlink_ip : (ip : ℕ) (rs : List ArpReq) → IsDistinct rs → IsDistinct (unlink_ip ip rs)
unfolding unlink_ip
IsDistinct-unlink_ip ip [] h = tt
IsDistinct-unlink_ip ip (x ∷ xs) h = elim (Bool-cases (x.ip == ip)) [
  | inl e ↦ rw e h.1
  | inr e ↦ rw e (All-unlink_ip (IsOther x) ip xs h.0, IsDistinct-unlink_ip ip xs h.1)
]

IsDistinct-unlink_id : (id : ℕ) (rs : List ArpReq) → IsDistinct rs → IsDistinct (unlink_id id rs)
unfolding unlink_id
IsDistinct-unlink_id id [] h = tt
IsDistinct-unlink_id id (x ∷ xs) h = elim (Bool-cases (x.id == id)) [
  | inl e ↦ rw e h.1
  | inr e ↦ rw e (All-unlink_id (IsOther x) id xs h.0, IsDistinct-unlink_id id xs h.1)
]

pub insert-IsQueue :
    (cache : ArpCache) (mac : Bytes) (ip now : ℕ)
    → IsQueue cache
    → IsQueue (sr_arpcache_insert cache mac ip now).0
unfolding sr_arpcache_insert
insert-IsQueue cache mac ip now q = record {
  distinct = IsDistinct-unlink_ip ip cache.requests q.distinct;
  all_wait = All-unlink_ip (IsRequest cache.next_id) ip cache.requests q.all_wait;
}

pub destroy-IsQueue :
    (cache : ArpCache) (id : ℕ) → IsQueue cache → IsQueue (sr_arpreq_destroy cache id)
unfolding sr_arpreq_destroy
destroy-IsQueue cache id q = record {
  distinct = IsDistinct-unlink_id id cache.requests q.distinct;
  all_wait = All-unlink_id (IsRequest cache.next_id) id cache.requests q.all_wait;
}

pub init-IsQueue : IsQueue sr_arpcache_init
unfolding sr_arpcache_init
init-IsQueue = record { distinct = tt; all_wait = tt }
