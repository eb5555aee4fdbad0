-- ===== src/Router/Invariant/Actions.antt =====
-- Every action of the router keeps the invariant.
use computer_networks.Prelude.{
  ℕ, ◌+◌, ◌<◌, ◌≡◌, ◌≢◌, refl, ◌∙◌, inl, inr, Bool, true, false, Option, none, some, List, [], ◌∷◌,
  ◌++◌, ◌==◌, ltb, if◌then◌else◌, length, take, arith, All, Bool-cases,
}
use computer_networks.Prelude.Words.{Bytes}
use computer_networks.Router.State.{Name, Interface, ArpEntry, ArpReq, ArpCache, Route, Router, Env}
use computer_networks.Router.ArpCache.{
  sr_arpcache_queuereq, sr_arpcache_insert, sr_arpreq_destroy, fill_slot, expire_entries,
}
use computer_networks.Router.ArpCache.Queue.{IsOther, IsDistinct, IsRequest}
use computer_networks.Router.ArpCache.Invariant.{queuereq-IsQueue, insert-IsQueue, destroy-IsQueue}
use computer_networks.Router.Send.HeaderSum.{buffer_lengths}
use computer_networks.Router.Machine.{malloc, M, done, ◌>>=◌}
use computer_networks.Router.Send.{
  sr_send_packet, sr_send_arp_request, sr_send_arp_reply, sr_ether_addrs_match_interface,
}
use computer_networks.Router.Errors.{queue_packet, error_to, sr_send_error, icmp_error}
use computer_networks.Router.Requests.{mark_sent, destroy_req}
use computer_networks.Router.Invariant.{IsCache, IsRouter, Holds, Keeps, keeps_rules}

pub sr_send_packet-Keeps : (buf : Bytes) (name : Name) → Keeps (sr_send_packet buf name)
unfolding sr_send_packet
sr_send_packet-Keeps buf name = record {
  at = λ r i.
      go (ltb (length buf) 14) (sr_ether_addrs_match_interface r.if_list buf name) r
        (record r { wire = r.wire ++ record { interface_name = take 16 name; frame = buf } ∷ [] }) i
        i;
}
  where
    go :
        (b c : Bool) (r s : Router)
        → IsRouter r
        → IsRouter s
        → Holds (if b then done tt r else if c then done tt s else done tt r)
    go true c r s i j = i
    go false true r s i j = j
    go false false r s i j = i

pub sr_send_arp_request-Keeps :
    (env : Env) (tip : ℕ) (iface : Interface) → Keeps (sr_send_arp_request env tip iface)
unfolding sr_send_arp_request
sr_send_arp_request-Keeps env tip iface = search (keeps_rules, sr_send_packet-Keeps)

pub sr_send_arp_reply-Keeps :
    (env : Env) (req : Bytes) (name : Name) → Keeps (sr_send_arp_reply env req name)
unfolding sr_send_arp_reply
sr_send_arp_reply-Keeps env req name = search (keeps_rules, sr_send_packet-Keeps)

-- Two fields of the cache are all that the operations write besides the queue.
entries-queuereq :
    (cache : ArpCache) (ip : ℕ) (packet : Bytes) (iface : Name)
    → (sr_arpcache_queuereq cache ip packet iface).0.entries ≡ cache.entries
unfolding sr_arpcache_queuereq
entries-queuereq cache ip packet iface = ground arith

length-fill_slot :
    (mac : Bytes) (ip now : ℕ) (es : List ArpEntry) → length (fill_slot mac ip now es) ≡ length es
unfolding fill_slot
length-fill_slot mac ip now [] = refl
length-fill_slot mac ip now (e ∷ es) = ground (arith, length-fill_slot mac ip now es)

length-expire : (curtime : ℕ) (es : List ArpEntry) → length (expire_entries curtime es) ≡ length es
unfolding expire_entries
length-expire curtime [] = refl
length-expire curtime (e ∷ es) = ground (arith, length-expire curtime es)

IsOther-mark_sent :
    (x : ArpReq) (id now : ℕ) (rs : List ArpReq)
    → All (IsOther x) rs
    → All (IsOther x) (mark_sent id now rs)
unfolding mark_sent
IsOther-mark_sent x id now [] h = tt
IsOther-mark_sent x id now (r ∷ rs) h = elim (Bool-cases (r.id == id)) [
  | inl e ↦ rw e h
  | inr e ↦ rw e (h.0, IsOther-mark_sent x id now rs h.1)
]

IsDistinct-mark_sent :
    (id now : ℕ) (rs : List ArpReq) → IsDistinct rs → IsDistinct (mark_sent id now rs)
unfolding mark_sent
IsDistinct-mark_sent id now [] h = tt
IsDistinct-mark_sent id now (r ∷ rs) h = elim (Bool-cases (r.id == id)) [
  | inl e ↦ rw e h
  | inr e ↦ rw e (IsOther-mark_sent r id now rs h.0, IsDistinct-mark_sent id now rs h.1)
]

IsRequest-mark_sent :
    (n id now : ℕ) (rs : List ArpReq)
    → All (IsRequest n) rs
    → All (IsRequest n) (mark_sent id now rs)
unfolding mark_sent
IsRequest-mark_sent n id now [] h = tt
IsRequest-mark_sent n id now (r ∷ rs) h = elim (Bool-cases (r.id == id)) [
  | inl e ↦ rw e h
  | inr e ↦ rw e (h.0, IsRequest-mark_sent n id now rs h.1)
]

-- Queueing a packet that has bytes, and handling its request.
pub queue_packet-Keeps :
    (handle : ℕ → M (Unit {0})) (ip : ℕ) (packet : Bytes) (iface : Name)
    → ((id : ℕ) → Keeps (handle id))
    → packet ≢ []
    → Keeps (queue_packet handle ip packet iface)
unfolding queue_packet
queue_packet-Keeps handle ip packet iface h full = record {
  at = λ r i.
      let q = sr_arpcache_queuereq r.cache ip packet iface in
      (h q.1).at (record r { cache = q.0 })
        (record {
          queue = queuereq-IsQueue r.cache ip packet iface full i.queue;
          slots = rw (entries-queuereq r.cache ip packet iface) i.slots;
        });
}

-- Marking a request as sent, and taking one off the queue.
pub marked-IsRouter :
    (id now : ℕ) (r : Router)
    → IsRouter r
    → IsCache (record r.cache { requests = mark_sent id now r.cache.requests })
marked-IsRouter id now r i = record {
  queue = record {
    distinct = IsDistinct-mark_sent id now r.cache.requests i.queue.distinct;
    all_wait = IsRequest-mark_sent r.cache.next_id id now r.cache.requests i.queue.all_wait;
  };
  slots = i.slots;
}

pub destroyed-IsCache : (id : ℕ) (r : Router) → IsRouter r → IsCache (sr_arpreq_destroy r.cache id)
destroyed-IsCache id r i = record {
  queue = destroy-IsQueue r.cache id i.queue;
  slots = unfold sr_arpreq_destroy in i.slots;
}

pub destroy_req-Keeps : (id : ℕ) → Keeps (destroy_req id)
destroy_req-Keeps id = record { at = λ r i. destroyed-IsCache id r i }

pub inserted-IsCache :
    (mac : Bytes) (ip now : ℕ) (r : Router)
    → IsRouter r
    → IsCache (sr_arpcache_insert r.cache mac ip now).0
inserted-IsCache mac ip now r i = record {
  queue = insert-IsQueue r.cache mac ip now i.queue;
  slots = unfold sr_arpcache_insert in length-fill_slot mac ip now r.cache.entries ∙ i.slots;
}

pub expired-IsCache :
    (curtime : ℕ) (r : Router)
    → IsRouter r
    → IsCache (record r.cache { entries = expire_entries curtime r.cache.entries })
expired-IsCache curtime r i = record {
  queue = record { distinct = i.queue.distinct; all_wait = i.queue.all_wait };
  slots = length-expire curtime r.cache.entries ∙ i.slots;
}

-- The blocks that `malloc` gives out have the size that was asked for.
abbrev pub IsEnv : Env → Type 0
IsEnv env = (k n : ℕ) → length (env.junk k n) ≡ n

pub Keeps-malloc_sized :
    {B : Type 0} (env : Env) (n : ℕ) (f : Bytes → M B)
    → IsEnv env
    → ((block : Bytes) → length block ≡ n → Keeps (f block))
    → Keeps (malloc env n >>= f)
Keeps-malloc_sized env n f sized h = record {
  at =
      λ r i. (h (env.junk r.allocs n) (sized r.allocs n)).at (record r { allocs = r.allocs + 1 }) i;
}

length-icmp_error :
    (src : ℕ) (packet : Bytes) (type code : ℕ) (block : Bytes)
    → length (icmp_error src packet type code block) ≡ length block
unfolding icmp_error
length-icmp_error src packet type code block = omega buffer_lengths

pub full_block : (p : Bytes) → 0 < length p → p ≢ []
full_block [] h = omega arith
full_block (b ∷ bs) h = λ e. cc

pub error_to-Keeps :
    (handle : ℕ → M (Unit {0})) (hit : Option ArpEntry) (rt : Route) (out : Interface) (p : Bytes)
    → ((id : ℕ) → Keeps (handle id))
    → 0 < length p
    → Keeps (error_to handle hit rt out p)
unfolding error_to
error_to-Keeps handle (some e) rt out p h full = sr_send_packet-Keeps _ out.name
error_to-Keeps handle none rt out p h full =
    queue_packet-Keeps handle rt.gw _ out.name h (full_block _ (omega buffer_lengths))

pub sr_send_error-Keeps :
    (env : Env) (handle : ℕ → M (Unit {0})) (packet : Bytes) (name : Name) (type code : ℕ)
    → IsEnv env
    → ((id : ℕ) → Keeps (handle id))
    → Keeps (sr_send_error env handle packet name type code)
unfolding sr_send_error
sr_send_error-Keeps env handle packet name type code sized h =
    let block_of_70 : (f : Bytes → M (Unit {0}))
        → ((block : Bytes) → length block ≡ 70 → Keeps (f block))
        → Keeps (malloc env 70 >>= f) =
      λ f k. Keeps-malloc_sized env 70 f sized k in
    let sent : (hit : Option ArpEntry) (rt : Route) (out : Interface) (src : ℕ) (block : Bytes)
        → length block ≡ 70
        → Keeps (error_to handle hit rt out (icmp_error src packet type code block)) =
      λ hit rt out src block len.
        error_to-Keeps handle hit rt out _ h
          (omega (arith, length-icmp_error src packet type code block)) in
    search (block_of_70, keeps_rules, sent) depth 20
