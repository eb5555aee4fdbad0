-- ===== src/Router/ArpCache/Queue.antt =====
-- The queue of requests: what waits for an address, and the invariant of the queue.
use computer_networks.Prelude.{
  ℕ, ◌<◌, ◌≡◌, ◌≢◌, refl, inl, inr, false, Option, none, some, List, [], ◌∷◌, ◌==◌, if◌then◌else◌,
  take, length, arith, All, Bool-cases, Option-cases,
}
use computer_networks.Prelude.Words.{Bytes}
use computer_networks.Router.State.{Name, Packet, ArpReq, ArpCache}
use computer_networks.Router.Interfaces.{iface_namelen}
use computer_networks.Router.ArpCache.{
  find_req, add_packet, with_request, sr_arpcache_queuereq, unlink_ip, sr_arpcache_insert,
}

-- The packets that wait for `ip`, the latest first.
pub packets_of : Option ArpReq → List Packet
packets_of none = []
packets_of (some r) = r.packets

pub waiting : List ArpReq → ℕ → List Packet
unfolding packets_of find_req
waiting reqs ip = packets_of (find_req ip reqs)

abbrev pub IsOther : ArpReq → ArpReq → Type 0
IsOther r x = (x.ip ≢ r.ip) × (x.id ≢ r.id)

-- No two requests have one address, and no two are one node.
abbrev pub IsDistinct : List ArpReq → Type 0
IsDistinct [] = Unit
IsDistinct (r ∷ rs) = All (IsOther r) rs × IsDistinct rs

-- Every request has a packet waiting, and is older than the next node.
abbrev pub IsRequest : ℕ → ArpReq → Type 0
IsRequest next_id r = (r.packets ≢ []) × (r.id < next_id)

pub record IsQueue (cache : ArpCache) : Type 0 where
  pub distinct : IsDistinct cache.requests
  pub all_wait : All (IsRequest cache.next_id) cache.requests

waiting-add_packet :
    (ip j : ℕ) (p : Packet) (reqs : List ArpReq)
    → find_req ip reqs ≢ none
    → waiting (add_packet ip p reqs) j ≡ (if j == ip then p ∷ waiting reqs ip else waiting reqs j)
unfolding waiting add_packet
waiting-add_packet ip j p [] h = absurd (h refl)
waiting-add_packet ip j p (r ∷ rs) h = elim (Bool-cases (r.ip == ip)) [
  | inl e ↦ ground arith
  | inr e ↦ ground (arith, waiting-add_packet ip j p rs (rw e at h))
]

length_pos : (b : ℕ) (bs : Bytes) → (length (b ∷ bs) == 0) ≡ false
length_pos b bs = ground arith

-- Making a request for `ip` leaves what waits as it is.
waiting-with_request :
    (cache : ArpCache) (ip j : ℕ)
    → (find_req ip (with_request cache ip).requests ≢ none)
      × (waiting (with_request cache ip).requests j ≡ waiting cache.requests j)
unfolding waiting with_request
waiting-with_request cache ip j = elim (Option-cases (find_req ip cache.requests)) [
  | inl e ↦ rw (e, find_req) (ground arith)
  | inr (r, e) ↦ rw (e, find_req) (λ n. cc, refl)
]

pub queuereq-requests :
    (cache : ArpCache) (ip : ℕ) (packet : Bytes) (iface : Name)
    → packet ≢ []
    → (sr_arpcache_queuereq cache ip packet iface).0.requests
      ≡ add_packet ip
          (record { buf = packet; iface = take iface_namelen iface })
          (with_request cache ip).requests
unfolding sr_arpcache_queuereq
queuereq-requests cache ip [] iface h = absurd (h refl)
queuereq-requests cache ip (b ∷ bs) iface h = rw (length_pos b bs)

-- Queueing a packet puts it before the packets that wait for its address, and changes nothing
-- that waits for another.
pub waiting-queuereq :
    (cache : ArpCache) (ip j : ℕ) (packet : Bytes) (iface : Name)
    → packet ≢ []
    → waiting (sr_arpcache_queuereq cache ip packet iface).0.requests j ≡ (
        if j == ip
        then record { buf = packet; iface = take iface_namelen iface } ∷ waiting cache.requests ip
        else waiting cache.requests j)
waiting-queuereq cache ip j packet iface h = rw (
  queuereq-requests cache ip packet iface h,
  waiting-add_packet ip j (record { buf = packet; iface = take iface_namelen iface })
      (with_request cache ip).requests (waiting-with_request cache ip j).0,
  (waiting-with_request cache ip ip).1,
  (waiting-with_request cache ip j).1,
)

-- No request for `ip` is on the queue.
find_req-none : (ip : ℕ) (reqs : List ArpReq) → All (λ x. x.ip ≢ ip) reqs → find_req ip reqs ≡ none
unfolding find_req
find_req-none ip [] h = refl
find_req-none ip (r ∷ rs) h = ground (arith, find_req-none ip rs, h.0)

others_ip : (r : ArpReq) (rs : List ArpReq) → All (IsOther r) rs → All (λ x. x.ip ≢ r.ip) rs
others_ip r [] h = tt
others_ip r (x ∷ rs) h = (h.0.0, others_ip r rs h.1)

waiting-unlink_ip :
    (ip j : ℕ) (reqs : List ArpReq)
    → IsDistinct reqs
    → waiting (unlink_ip ip reqs) j ≡ (if j == ip then [] else waiting reqs j)
unfolding waiting unlink_ip
waiting-unlink_ip ip j [] d = ground arith
waiting-unlink_ip ip j (r ∷ rs) d =
    ground (arith, waiting-unlink_ip ip j rs d.1, find_req-none r.ip rs (others_ip r rs d.0))

-- A reply hands over every packet that waits for its address, and leaves none of them on the
-- queue; what waits for another address stays.
pub waiting-insert :
    (cache : ArpCache) (mac : Bytes) (ip now j : ℕ)
    → IsQueue cache
    → (packets_of (sr_arpcache_insert cache mac ip now).1 ≡ waiting cache.requests ip)
      × (waiting (sr_arpcache_insert cache mac ip now).0.requests j
          ≡ (if j == ip then [] else waiting cache.requests j))
unfolding sr_arpcache_insert
waiting-insert cache mac ip now j q =
    (unfold waiting in refl, waiting-unlink_ip ip j cache.requests q.distinct)
