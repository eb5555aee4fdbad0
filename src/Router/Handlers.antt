-- ===== src/Router/Handlers.antt =====
-- The packet handlers of router/src/router/sr_router.c: dispatch, ARP, IP, ICMP and forwarding.
-- `len` is the length of the packet's buffer.
pub mod Forward
pub mod Guard
pub mod Ignored
use computer_networks.Prelude.{
  ℕ, zero, suc, ◌+◌, ◌-◌, ◌%◌, Bool, true, false, Option, none, some, List, [], ◌∷◌, ltb, ◌==◌,
  if◌then◌else◌, length, take,
}
use computer_networks.Prelude.Words.{Bytes, byte, slice, put, le16, htons, load16, load32}
use computer_networks.Router.State.{Name, Interface, Packet, ArpEntry, ArpReq, Route, Router, Env}
use computer_networks.Router.Checksum.{cksum}
use computer_networks.Router.Interfaces.{sr_get_interface, get_interface_from_ip}
use computer_networks.Router.Routes.{sr_get_longest_prefix_match}
use computer_networks.Router.ArpCache.{sr_arpcache_lookup, sr_arpcache_insert, sr_arpreq_destroy}
use computer_networks.Router.Machine.{
  M, done, fault, spent, return, ◌>>=◌, ◌>>◌, gets, set_cache, need, deref, unless_null, time_now,
}
use computer_networks.Router.Send.{set_cksum, sr_send_packet, sr_send_arp_reply}
use computer_networks.Router.Errors.{
  queue_packet, sr_send_icmp_port_unreachable, sr_send_icmp_time_exceeded,
  sr_send_icmp_net_unreachable,
}
use computer_networks.Router.Requests.{handle_arpreq, destroy_req}

-- Rewrite the Ethernet addresses, source first, and send.
unfoldable pub address_and_send : ArpEntry → Interface → Bytes → M (Unit {0})
address_and_send arp_entry out_iface packet =
    sr_send_packet (put 0 (take 6 arp_entry.mac) (put 6 (take 6 out_iface.addr) packet))
      out_iface.name

-- The last step of a packet with a next hop: send it, or queue it and handle the request.
unfoldable pub send_or_queue :
    (ℕ → M (Unit {0})) → Option ArpEntry → Route → Interface → Bytes → M (Unit {0})
send_or_queue handle (some arp_entry) rt out_iface packet =
    address_and_send arp_entry out_iface packet
send_or_queue handle none rt out_iface packet = queue_packet handle rt.gw packet out_iface.name

-- The lookup of the interface and of the next hop's mapping, for a route that was found.
unfoldable pub send_by : (ℕ → M (Unit {0})) → Route → Bytes → M (Unit {0})
send_by handle rt packet = do
  ifs ← gets (λ r. r.if_list)
  unless_null (sr_get_interface ifs rt.interface) λ out_iface. do
    arp_entry ← gets (λ r. sr_arpcache_lookup r.cache rt.gw)
    send_or_queue handle arp_entry rt out_iface packet

-- `ip_ttl--` on a `uint8_t`.
unfoldable pub decrement_ttl : Bytes → Bytes
decrement_ttl packet = put 22 ((byte packet 22 + 255) % 256 ∷ []) packet

-- The branches on the result of the route lookup.
unfoldable pub forward_along : Env → (ℕ → M (Unit {0})) → Bytes → Name → Option Route → M (Unit {0})
forward_along env handle packet interface none =
    sr_send_icmp_net_unreachable env handle packet interface
forward_along env handle packet interface (some rt) = send_by handle rt packet

unfoldable pub sr_forward_packet : Env → (ℕ → M (Unit {0})) → Bytes → Name → M (Unit {0})
sr_forward_packet env handle packet interface =
    let aged = decrement_ttl packet in
    if byte aged 22 == 0 then sr_send_icmp_time_exceeded env handle aged interface else (do
      let summed = set_cksum 24 14 20 aged
      table ← gets (λ r. r.routing_table)
      forward_along env handle summed interface
          (sr_get_longest_prefix_match table (load32 summed 30)))

-- The reply that is built in a copy of the request: the copies of unchanged header fields come
-- first, then the lifetime, the protocol, the swapped addresses and the two checksums.
unfoldable pub sr_handle_icmp_echo_request : Bytes → Bytes → Bytes
sr_handle_icmp_echo_request packet new_packet =
    let p₁ = put 12 (slice packet 12 2) new_packet in
    let p₂ = put 14 (slice packet 14 8) p₁ in
    let p₃ = put 22 (64 ∷ 1 ∷ []) p₂ in
    let p₄ = put 30 (slice packet 26 4) p₃ in
    let p₅ = put 26 (slice packet 30 4) p₄ in
    let p₆ = set_cksum 24 14 20 p₅ in
    let p₇ = put 34 (0 ∷ 0 ∷ []) p₆ in set_cksum 36 34 (length packet - 34) p₇

-- The type is read, and for a request the checksum field is written, whether or not the packet
-- is long enough to hold them.
unfoldable pub sr_handle_icmp_packet : (ℕ → M (Unit {0})) → Bytes → M (Unit {0})
sr_handle_icmp_packet handle packet = do
  need packet 35
  if byte packet 34 == 8
      then (do
        need packet 38
        table ← gets (λ r. r.routing_table)
        unless_null (sr_get_longest_prefix_match table (load32 packet 26))
            λ rt. send_by handle rt (sr_handle_icmp_echo_request packet packet))
      else return

-- The checksum of the header with its field set to zero; the field is put back afterwards.
unfoldable pub header_sum : Bytes → ℕ
header_sum packet = cksum (slice (put 24 (le16 0) packet) 14 20)

-- The branches on the search of the interfaces for the destination.
unfoldable pub deliver : Env → (ℕ → M (Unit {0})) → Bytes → Name → Option Interface → M (Unit {0})
deliver env handle packet interface (some iface) =
    if byte packet 23 == 1
    then sr_handle_icmp_packet handle packet
    else sr_send_icmp_port_unreachable env handle packet interface
deliver env handle packet interface none = sr_forward_packet env handle packet interface

unfoldable pub sr_handle_ip_packet : Env → (ℕ → M (Unit {0})) → Bytes → Name → M (Unit {0})
sr_handle_ip_packet env handle packet interface =
    if ltb (length packet) 34
    then return
    else if load16 packet 24 == header_sum packet
    then (do
      ifs ← gets (λ r. r.if_list)
      deliver env handle packet interface (get_interface_from_ip ifs (load32 packet 30)))
    else return

-- The loop over the packets that waited for a reply.
unfoldable pub send_waiting : Bytes → List Packet → M (Unit {0})
send_waiting sha [] = return
send_waiting sha (pkt ∷ pkts) = do
  ifs ← gets (λ r. r.if_list)
  out_iface ← deref (sr_get_interface ifs pkt.iface)
  need pkt.buf 12
  sr_send_packet (put 6 (take 6 out_iface.addr) (put 0 sha pkt.buf)) pkt.iface
  send_waiting sha pkts

-- The branch of a reply to this interface: learn the mapping, send what waited for it. The clock
-- is read even if no slot takes the mapping; the code skips that reading, which nothing uses.
unfoldable pub take_arp_reply : Env → Bytes → M (Unit {0})
take_arp_reply env packet = do
  now ← time_now env
  cache ← gets (λ r. r.cache)
  let inserted = sr_arpcache_insert cache (slice packet 22 6) (load32 packet 28) now
  set_cache inserted.0
  unless_null inserted.1 λ req. do send_waiting (slice packet 22 6) req.packets; destroy_req req.id

unfoldable pub sr_handle_arp_packet : Env → Bytes → Name → M (Unit {0})
sr_handle_arp_packet env packet interface = if ltb (length packet) 42 then return else (do
  ifs ← gets (λ r. r.if_list)
  unless_null (sr_get_interface ifs interface) λ iface.
      if htons (load16 packet 20) == 1
      then if load32 packet 38 == iface.ip then sr_send_arp_reply env packet interface else return
      else if htons (load16 packet 20) == 2
      then if load32 packet 38 == iface.ip then take_arp_reply env packet else return
      else return)

-- `ethertype` reads the type with no test of the length. `fuel` bounds `handle_arpreq`.
unfoldable pub sr_handlepacket : Env → ℕ → Bytes → Name → M (Unit {0})
sr_handlepacket env fuel packet interface = do
  need packet 14
  if htons (load16 packet 12) == 0x0806
      then sr_handle_arp_packet env packet interface
      else if htons (load16 packet 12) == 0x0800
      then sr_handle_ip_packet env (handle_arpreq env fuel) packet interface
      else return
