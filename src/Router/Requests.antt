-- ===== src/Router/Requests.antt =====
-- `handle_arpreq`, `sr_arpcache_sweepreqs` and a round of `sr_arpcache_timeout` of
-- router/src/router/sr_arpcache.c.
-- `handle_arpreq` calls itself: it reports an unreachable host, and the report may be queued for
-- a next hop whose request is then handled in turn. The depth of these calls is the fuel.
use computer_networks.Prelude.{
  ℕ, zero, suc, ◌+◌, ◌%◌, ◌^◌, Option, none, some, List, [], ◌∷◌, leb, ltb, ◌==◌, if◌then◌else◌,
}
use computer_networks.Router.State.{Packet, ArpReq, Env}
use computer_networks.Router.Interfaces.{sr_get_interface}
use computer_networks.Router.ArpCache.{sr_arpreq_destroy, expire_entries}
use computer_networks.Router.Machine.{
  M, spent, return, ◌>>=◌, ◌>>◌, gets, set_cache, deref, time_now,
}
use computer_networks.Router.Send.{sr_send_arp_request}
use computer_networks.Router.Errors.{sr_send_icmp_host_unreachable}

-- The node at an address, if it was not freed.
unfoldable pub req_at : ℕ → List ArpReq → Option ArpReq
req_at id [] = none
req_at id (r ∷ rs) = if r.id == id then some r else req_at id rs

-- `req->next`.
unfoldable pub next_at : ℕ → List ArpReq → Option ℕ
next_at id [] = none
next_at id (r ∷ []) = none
next_at id (r ∷ s ∷ rs) = if r.id == id then some s.id else next_at id (s ∷ rs)

-- `req->sent = now; req->times_sent++;`
unfoldable pub mark_sent : ℕ → ℕ → List ArpReq → List ArpReq
mark_sent id now [] = []
mark_sent id now (r ∷ rs) =
    if r.id == id
    then record r { sent = now; times_sent = (r.times_sent + 1) % 2 ^ 32 } ∷ rs
    else r ∷ mark_sent id now rs

abbrev pub first_packet : List Packet → Option Packet
first_packet [] = none
first_packet (p ∷ ps) = some p

abbrev pub load_req : ℕ → M ArpReq
load_req id = do reqs ← gets (λ r. r.cache.requests); deref (req_at id reqs)

abbrev pub destroy_req : ℕ → M (Unit {0})
destroy_req id = do cache ← gets (λ r. r.cache); set_cache (sr_arpreq_destroy cache id)

-- The loop over the waiting packets. New packets go to the head of the list, so the rest of the
-- list is as it was; after each report `pkt->next` is read, which must not have been freed.
unfoldable pub report_all : Env → (ℕ → M (Unit {0})) → ℕ → List Packet → M (Unit {0})
report_all env handle id [] = return
report_all env handle id (p ∷ ps) = do
  sr_send_icmp_host_unreachable env handle p.buf p.iface
  live ← load_req id
  report_all env handle id ps

-- The `else` branch: send the request, or send it again.
unfoldable pub send_request : Env → ℕ → ArpReq → ℕ → M (Unit {0})
send_request env id req now = do
  ifs ← gets (λ r. r.if_list)
  pkt ← deref (first_packet req.packets)
  iface ← deref (sr_get_interface ifs pkt.iface)
  sr_send_arp_request env req.ip iface
  cache ← gets (λ r. r.cache)
  set_cache (record cache { requests = mark_sent id now cache.requests })

unfoldable pub arpreq_body : Env → (ℕ → M (Unit {0})) → ℕ → M (Unit {0})
arpreq_body env handle id = do
  req ← load_req id
  now ← time_now env
  if ltb (req.sent + 1) now
      then if leb 5 req.times_sent
        then (do report_all env handle id req.packets; destroy_req id)
        else send_request env id req now
      else return

unfoldable pub handle_arpreq : Env → ℕ → ℕ → M (Unit {0})
handle_arpreq env zero id = λ r. spent
handle_arpreq env (suc fuel) id = arpreq_body env (handle_arpreq env fuel) id

-- The walk of `sr_arpcache_sweepreqs`: `next` is read before the request is handled.
-- `rounds` bounds the length of the walk, `fuel` the depth of `handle_arpreq`.
unfoldable pub sweep_from : Env → ℕ → ℕ → Option ℕ → M (Unit {0})
sweep_from env fuel rounds none = return
sweep_from env fuel zero (some id) = λ r. spent
sweep_from env fuel (suc rounds) (some id) = do
  live ← load_req id
  reqs ← gets (λ r. r.cache.requests)
  handle_arpreq env fuel id
  sweep_from env fuel rounds (next_at id reqs)

abbrev pub first_id : List ArpReq → Option ℕ
first_id [] = none
first_id (r ∷ rs) = some r.id

unfoldable pub sr_arpcache_sweepreqs : Env → ℕ → ℕ → M (Unit {0})
sr_arpcache_sweepreqs env fuel rounds = do
  reqs ← gets (λ r. r.cache.requests)
  sweep_from env fuel rounds (first_id reqs)

-- One round of the loop of the timeout thread, under the lock.
unfoldable pub sr_arpcache_timeout : Env → ℕ → ℕ → M (Unit {0})
sr_arpcache_timeout env fuel rounds = do
  curtime ← time_now env
  cache ← gets (λ r. r.cache)
  set_cache (record cache { entries = expire_entries curtime cache.entries })
  sr_arpcache_sweepreqs env fuel rounds
