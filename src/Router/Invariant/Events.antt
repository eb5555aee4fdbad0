-- ===== src/Router/Invariant/Events.antt =====
-- The router between events: every packet that arrives and every tick of the timeout thread
-- leaves the queue of requests and the table of mappings well formed.
use computer_networks.Prelude.{
  ℕ, zero, suc, ◌+◌, ◌<◌, Option, none, some, List, [], ◌∷◌, ◌==◌, length,
}
use computer_networks.Prelude.Words.{Bytes, byte, load32}
use computer_networks.Router.State.{
  Name, Interface, Packet, ArpEntry, ArpReq, ArpCache, Route, Router, Env,
}
use computer_networks.Router.ArpCache.{expire_entries}
use computer_networks.Router.Machine.{deref, M, ◌>>=◌, ◌>>◌, set_cache, gets}
use computer_networks.Router.Routes.{sr_get_longest_prefix_match}
use computer_networks.Router.Interfaces.{sr_get_interface}
use computer_networks.Router.Send.{set_cksum, sr_send_arp_request}
use computer_networks.Router.Send.HeaderSum.{buffer_lengths}
use computer_networks.Router.Errors.{
  sr_send_icmp_port_unreachable, sr_send_icmp_time_exceeded, sr_send_icmp_host_unreachable,
  sr_send_icmp_net_unreachable,
}
use computer_networks.Router.Requests.{
  first_packet, req_at, mark_sent, load_req, report_all, send_request, arpreq_body, handle_arpreq,
  sweep_from, sr_arpcache_sweepreqs, sr_arpcache_timeout, next_at, first_id,
}
use computer_networks.Router.Handlers.{
  address_and_send, send_or_queue, send_by, decrement_ttl, forward_along, sr_forward_packet,
  sr_handle_icmp_echo_request, sr_handle_icmp_packet, deliver,
}
use computer_networks.Router.Invariant.{
  IsCache, IsRouter, Holds, Keeps, keeps_rules, Keeps-bind, Keeps-return, Keeps-if, Keeps-gets,
  Keeps-deref,
}
use computer_networks.Router.Invariant.Actions.{
  sr_send_packet-Keeps, sr_send_arp_request-Keeps, queue_packet-Keeps, marked-IsRouter,
  destroy_req-Keeps, expired-IsCache, IsEnv, sr_send_error-Keeps, full_block,
}

load_req-Keeps : (id : ℕ) → Keeps (load_req id)
load_req-Keeps id = record { at = λ r i. (Keeps-deref (req_at id r.cache.requests)).at r i }

-- Actions that read the cache and write it back changed.
Keeps-update_cache :
    (f : ArpCache → ArpCache)
    → ((r : Router) → IsRouter r → IsCache (f r.cache))
    → Keeps (do cache ← gets (λ r. r.cache); set_cache (f cache))
Keeps-update_cache f h = record { at = λ r i. h r i }

module _ (env : Env) (sized : IsEnv env) where
  report_all-Keeps :
      (handle : ℕ → M (Unit {0})) (id : ℕ) (ps : List Packet)
      → ((n : ℕ) → Keeps (handle n))
      → Keeps (report_all env handle id ps)
  unfolding report_all sr_send_icmp_host_unreachable
  report_all-Keeps handle id [] h = Keeps-return
  report_all-Keeps handle id (p ∷ ps) h =
      let error = sr_send_error-Keeps env handle p.buf p.iface 3 1 sized h in
      let rest = report_all-Keeps handle id ps h in
      Keeps-bind (sr_send_icmp_host_unreachable env handle p.buf p.iface) _ error
        λ u. Keeps-bind (load_req id) _ (load_req-Keeps id) λ live. rest

  send_request-Keeps : (id : ℕ) (req : ArpReq) (now : ℕ) → Keeps (send_request env id req now)
  unfolding send_request
  send_request-Keeps id req now =
      let mark =
        Keeps-update_cache (λ c. record c { requests = mark_sent id now c.requests })
          λ r i. marked-IsRouter id now r i in
      let send : Interface → M (Unit {0}) = λ iface. (do
        sr_send_arp_request env req.ip iface
        cache ← gets (λ r. r.cache)
        set_cache (record cache { requests = mark_sent id now cache.requests })) in
      let send-Keeps : (iface : Interface) → Keeps (send iface) = λ iface.
        Keeps-bind (sr_send_arp_request env req.ip iface) _
          (sr_send_arp_request-Keeps env req.ip iface) λ u. mark in
      let chosen-Keeps : (ifs : List Interface) (pkt : Packet)
          → Keeps (deref (sr_get_interface ifs pkt.iface) >>= send) =
        λ ifs pkt.
          Keeps-bind (deref (sr_get_interface ifs pkt.iface)) send (Keeps-deref _) send-Keeps in
      record {
        at = λ r i.
            (Keeps-bind (deref (first_packet req.packets))
                (λ pkt. deref (sr_get_interface r.if_list pkt.iface) >>= send) (Keeps-deref _)
                (chosen-Keeps r.if_list)).at
              r i;
      }

  arpreq_body-Keeps :
      (handle : ℕ → M (Unit {0})) (id : ℕ)
      → ((n : ℕ) → Keeps (handle n))
      → Keeps (arpreq_body env handle id)
  unfolding arpreq_body
  arpreq_body-Keeps handle id h =
      search (keeps_rules, report_all-Keeps, send_request-Keeps, destroy_req-Keeps) depth 20

  pub handle_arpreq-Keeps : (fuel id : ℕ) → Keeps (handle_arpreq env fuel id)
  unfolding handle_arpreq
  handle_arpreq-Keeps zero id = record { at = λ r i. tt }
  handle_arpreq-Keeps (suc fuel) id =
      arpreq_body-Keeps (handle_arpreq env fuel) id (handle_arpreq-Keeps fuel)

  sweep_from-Keeps : (fuel rounds : ℕ) (next : Option ℕ) → Keeps (sweep_from env fuel rounds next)
  unfolding sweep_from
  sweep_from-Keeps fuel rounds none = Keeps-return
  sweep_from-Keeps fuel zero (some id) = record { at = λ r i. tt }
  sweep_from-Keeps fuel (suc rounds) (some id) =
      let handled = handle_arpreq-Keeps fuel id in
      let rest = sweep_from-Keeps fuel rounds in
      Keeps-bind (load_req id) _ (load_req-Keeps id) λ live.
        Keeps-bind (gets (λ r. r.cache.requests)) _ (Keeps-gets (λ r. r.cache.requests))
          λ reqs. Keeps-bind (handle_arpreq env fuel id) _ handled λ u. rest (next_at id reqs)

  pub sr_arpcache_timeout-Keeps : (fuel rounds : ℕ) → Keeps (sr_arpcache_timeout env fuel rounds)
  unfolding sr_arpcache_timeout sr_arpcache_sweepreqs
  sr_arpcache_timeout-Keeps fuel rounds = record {
    at = λ r i.
        let curtime : ℕ = env.clock r.clock_reads in
        let swept : Router = record r {
          clock_reads = r.clock_reads + 1;
          cache = record r.cache { entries = expire_entries curtime r.cache.entries };
        } in
        (sweep_from-Keeps fuel rounds (first_id r.cache.requests)).at swept
          (expired-IsCache curtime r i);
  }

  module _ (handle : ℕ → M (Unit {0})) (h : (n : ℕ) → Keeps (handle n)) where
    send_or_queue-Keeps :
        (hit : Option ArpEntry) (rt : Route) (out : Interface) (p : Bytes)
        → 0 < length p
        → Keeps (send_or_queue handle hit rt out p)
    unfolding send_or_queue address_and_send
    send_or_queue-Keeps (some e) rt out p full = sr_send_packet-Keeps _ out.name
    send_or_queue-Keeps none rt out p full =
        queue_packet-Keeps handle rt.gw p out.name h (full_block p full)

    send_by-Keeps : (rt : Route) (p : Bytes) → 0 < length p → Keeps (send_by handle rt p)
    unfolding send_by
    send_by-Keeps rt p full = search (keeps_rules, send_or_queue-Keeps) depth 20

    forward_along-Keeps :
        (p : Bytes) (name : Name) (route : Option Route)
        → 0 < length p
        → Keeps (forward_along env handle p name route)
    unfolding forward_along sr_send_icmp_net_unreachable
    forward_along-Keeps p name none full = sr_send_error-Keeps env handle p name 3 0 sized h
    forward_along-Keeps p name (some rt) full = send_by-Keeps rt p full

    sr_forward_packet-Keeps :
        (p : Bytes) (name : Name) → 0 < length p → Keeps (sr_forward_packet env handle p name)
    unfolding sr_forward_packet sr_send_icmp_time_exceeded
    sr_forward_packet-Keeps p name full =
        let aged : Bytes = decrement_ttl p in
        let summed : Bytes = set_cksum 24 14 20 aged in
        let full' : 0 < length summed = unfold decrement_ttl in omega buffer_lengths in
        let forward : (r : Router)
            → IsRouter r
            → Holds (
                forward_along env handle summed name
                  (sr_get_longest_prefix_match r.routing_table (load32 summed 30)) r) =
          λ r i. (forward_along-Keeps summed name _ full').at r i in
        Keeps-if (byte aged 22 == 0) _ _ (sr_send_error-Keeps env handle aged name 11 0 sized h)
          (record { at = forward })

    sr_handle_icmp_packet-Keeps :
        (p : Bytes) → 0 < length p → Keeps (sr_handle_icmp_packet handle p)
    unfolding sr_handle_icmp_packet
    sr_handle_icmp_packet-Keeps p full =
        let full' : 0 < length (sr_handle_icmp_echo_request p p) =
          unfold sr_handle_icmp_echo_request in omega buffer_lengths in
        let reply : (rt : Route) → Keeps (send_by handle rt (sr_handle_icmp_echo_request p p)) =
          λ rt. send_by-Keeps rt _ full' in
        search (keeps_rules, reply) depth 20

    pub deliver-Keeps :
        (p : Bytes) (name : Name) (ours : Option Interface)
        → 0 < length p
        → Keeps (deliver env handle p name ours)
    unfolding deliver sr_send_icmp_port_unreachable
    deliver-Keeps p name none full = sr_forward_packet-Keeps p name full
    deliver-Keeps p name (some iface) full =
        Keeps-if (byte p 23 == 1) _ _ (sr_handle_icmp_packet-Keeps p full)
          (sr_send_error-Keeps env handle p name 3 3 sized h)
