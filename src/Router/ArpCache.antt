-- ===== src/Router/ArpCache.antt =====
-- router/src/router/sr_arpcache.c: the table of IP to MAC mappings and the queue of requests.
-- The lock is held for the whole of each operation, which is why each is one function.
pub mod Table
pub mod Queue
pub mod Invariant
use computer_networks.Prelude.{
  ℕ, zero, suc, ◌+◌, Bool, true, false, ◌&&◌, not, Option, none, some, List, [], ◌∷◌, ◌==◌, ltb,
  if◌then◌else◌, take, length,
}
use computer_networks.Prelude.Words.{Bytes}
use computer_networks.Router.State.{Name, Packet, ArpEntry, ArpReq, ArpCache}
use computer_networks.Router.Interfaces.{iface_namelen}

-- `SR_ARPCACHE_SZ` and `SR_ARPCACHE_TO`.
abbrev pub arpcache_sz : ℕ
arpcache_sz = 100

abbrev pub arpcache_to : ℕ
arpcache_to = 15

abbrev pub empty_entry : ArpEntry
empty_entry = record { mac = 0 ∷ 0 ∷ 0 ∷ 0 ∷ 0 ∷ 0 ∷ []; ip = 0; added = 0; valid = false }

unfoldable pub empty_entries : ℕ → List ArpEntry
empty_entries zero = []
empty_entries (suc n) = empty_entry ∷ empty_entries n

unfoldable pub sr_arpcache_init : ArpCache
unfolding empty_entries
sr_arpcache_init = record { entries = empty_entries arpcache_sz; requests = []; next_id = 0 }

-- The loop does not stop at a hit: `entry` is the last one.
unfoldable pub lookup_loop : ℕ → List ArpEntry → Option ArpEntry → Option ArpEntry
lookup_loop ip [] entry = entry
lookup_loop ip (e ∷ es) entry = lookup_loop ip es (if e.valid && e.ip == ip then some e else entry)

unfoldable pub sr_arpcache_lookup : ArpCache → ℕ → Option ArpEntry
unfolding lookup_loop
sr_arpcache_lookup cache ip = lookup_loop ip cache.entries none

unfoldable pub find_req : ℕ → List ArpReq → Option ArpReq
find_req ip [] = none
find_req ip (r ∷ rs) = if r.ip == ip then some r else find_req ip rs

-- The packet goes to the head of the list of the request that was found.
unfoldable pub add_packet : ℕ → Packet → List ArpReq → List ArpReq
add_packet ip new_pkt [] = []
add_packet ip new_pkt (r ∷ rs) =
    if r.ip == ip
    then record r { packets = new_pkt ∷ r.packets } ∷ rs
    else r ∷ add_packet ip new_pkt rs

-- A request for `ip` is there: the one on the queue, or a new one at its head.
unfoldable pub with_request : ArpCache → ℕ → ArpCache
unfolding find_req
with_request cache ip = elim (find_req ip cache.requests) [
  | some r ↦ cache
  | none ↦ record cache {
    requests =
        record { id = cache.next_id; ip = ip; sent = 0; times_sent = 0; packets = [] }
        ∷ cache.requests;
    next_id = cache.next_id + 1;
  }
]

-- The returned pointer.
unfoldable pub request_id : ArpCache → ℕ → ℕ
unfolding find_req
request_id cache ip = elim (find_req ip cache.requests) [ some r ↦ r.id | none ↦ cache.next_id ]

-- Neither pointer argument is NULL at any call, so the test is that of `packet_len`.
unfoldable pub sr_arpcache_queuereq : ArpCache → ℕ → Bytes → Name → ArpCache × ℕ
unfolding with_request request_id add_packet
sr_arpcache_queuereq cache ip packet iface =
    let cache' = with_request cache ip in
    let new_pkt : Packet = record { buf = packet; iface = take iface_namelen iface } in
    (
      if length packet == 0
          then cache'
          else record cache' { requests = add_packet ip new_pkt cache'.requests },
      request_id cache ip,
    )

unfoldable pub unlink_ip : ℕ → List ArpReq → List ArpReq
unlink_ip ip [] = []
unlink_ip ip (r ∷ rs) = if r.ip == ip then rs else r ∷ unlink_ip ip rs

-- The first invalid slot takes the mapping; with none, the mapping is dropped.
unfoldable pub fill_slot : Bytes → ℕ → ℕ → List ArpEntry → List ArpEntry
fill_slot mac ip now [] = []
fill_slot mac ip now (e ∷ es) =
    if not e.valid
    then record { mac = take 6 mac; ip = ip; added = now; valid = true } ∷ es
    else e ∷ fill_slot mac ip now es

unfoldable pub sr_arpcache_insert : ArpCache → Bytes → ℕ → ℕ → ArpCache × Option ArpReq
unfolding find_req unlink_ip fill_slot
sr_arpcache_insert cache mac ip now = (
  record cache {
    requests = unlink_ip ip cache.requests;
    entries = fill_slot mac ip now cache.entries;
  },
  find_req ip cache.requests,
)

unfoldable pub unlink_id : ℕ → List ArpReq → List ArpReq
unlink_id id [] = []
unlink_id id (r ∷ rs) = if r.id == id then rs else r ∷ unlink_id id rs

-- The node is freed: no later read of `id` finds it.
unfoldable pub sr_arpreq_destroy : ArpCache → ℕ → ArpCache
unfolding unlink_id
sr_arpreq_destroy cache id = record cache { requests = unlink_id id cache.requests }

-- The loop of `sr_arpcache_timeout` over the table.
unfoldable pub expire_entries : ℕ → List ArpEntry → List ArpEntry
expire_entries curtime [] = []
expire_entries curtime (e ∷ es) =
    (if e.valid && ltb (e.added + arpcache_to) curtime then record e { valid = false } else e)
    ∷ expire_entries curtime es
