-- ===== src/Router/Tests/Frames.antt =====
-- The handlers on small packets.
use computer_networks.Prelude.{
  ℕ, zero, suc, ◌≡◌, ◌≢◌, ◌↔◌, ◌⊎◌, ◌<◌, refl, ap, inl, inr, [], ◌∷◌, length, arith,
}
use computer_networks.Prelude.Words.{Bytes, IsBytes, byte, slice, put, overlay, load16}
use computer_networks.Router.State.{Router}
use computer_networks.Router.Checksum.{cksum_sum, cksum_fold}
use computer_networks.Router.Interfaces.{
  sr_get_interface, strncmp_eq, get_interface_from_ip, addr_eq,
}
use computer_networks.Router.Routes.{sr_get_longest_prefix_match, match_loop, takes_over}
use computer_networks.Router.ArpCache.{
  empty_entries, sr_arpcache_init, lookup_loop, sr_arpcache_lookup, fill_slot, sr_arpcache_insert,
}
use computer_networks.Router.ArpCache.Invariant.{insert-IsQueue, init-IsQueue}
use computer_networks.Router.Machine.{done, fault, return}
use computer_networks.Router.Send.{
  sr_send_packet, sr_send_arp_reply, sr_ether_addrs_match_interface, arp_message,
}
use computer_networks.Router.Send.Packets.{sent}
use computer_networks.Router.Handlers.{
  header_sum, sr_forward_packet, sr_handlepacket, sr_handle_arp_packet,
}
use computer_networks.Router.Handlers.Forward.{IsForwarded, sr_forward_packet_sends}
use computer_networks.Router.Handlers.Guard.{
  header_sum_iff, sr_handlepacket_drops, unanswered_icmp_lem,
}
use computer_networks.Router.Invariant.{IsRouter}
use computer_networks.Router.Invariant.Reach.{start, receive, Reaches-IsRouter}
use computer_networks.Router.Tests.Data.{
  eth1, eth2, lan_route, hop_mac, hop_mapping, small_router, small_env, sevens, udp_packet,
  icmp_packet, arp_request, are_bytes, are_bytes-IsBytes, address,
}

udp_packet-IsBytes : IsBytes udp_packet
unfolding are_bytes
udp_packet-IsBytes = are_bytes-IsBytes udp_packet refl

sr_forward_packet_sends_example :
    (f : Bytes) × (sr_forward_packet small_env (λ id. return) udp_packet eth1.name small_router
      ≡ done tt (sent small_router eth2.name f))
    × IsForwarded udp_packet hop_mac eth2.addr f
sr_forward_packet_sends_example =
    sr_forward_packet_sends small_env (λ id. return) udp_packet eth1.name small_router lan_route
      eth2 hop_mapping (omega arith) udp_packet-IsBytes (omega arith)
      (unfold sr_get_longest_prefix_match match_loop takes_over in refl)
      (unfold sr_get_interface strncmp_eq in refl)
      (unfold sr_arpcache_lookup lookup_loop sr_arpcache_insert sr_arpcache_init empty_entries
          fill_slot in
        refl)
      refl refl

header_sum_iff_example :
    (load16 udp_packet 24 ≡ header_sum udp_packet)
    ↔ ((cksum_fold 2 (cksum_sum 0 (slice udp_packet 14 20)) ≡ 0xffff) × (load16 udp_packet 24 ≢ 0))
header_sum_iff_example = header_sum_iff udp_packet (omega arith) udp_packet-IsBytes

-- A header whose lifetime was changed without its checksum.
abbrev damaged : Bytes
damaged =
    2 ∷ 0 ∷ 0 ∷ 0 ∷ 0 ∷ 1 ∷ 2 ∷ 0 ∷ 0 ∷ 0 ∷ 0 ∷ 7 ∷ 8 ∷ 0 ∷ 69 ∷ 0 ∷ 0 ∷ 20 ∷ 0 ∷ 1 ∷ 0 ∷ 0 ∷ 63
    ∷ 17 ∷ 98 ∷ 205 ∷ 10 ∷ 0 ∷ 1 ∷ 5 ∷ 10 ∷ 0 ∷ 3 ∷ 7 ∷ []

sr_handlepacket_drops_example :
    sr_handlepacket small_env 3 damaged eth1.name small_router ≡ done tt small_router
sr_handlepacket_drops_example =
    sr_handlepacket_drops small_env 3 damaged eth1.name small_router (omega arith)
      (unfold are_bytes in are_bytes-IsBytes damaged refl) refl
      (inr (unfold cksum_sum cksum_fold in λ e. omega arith))

icmp_packet-IsBytes : IsBytes icmp_packet
unfolding are_bytes
icmp_packet-IsBytes = are_bytes-IsBytes icmp_packet refl

unanswered_icmp_lem_example :
    (((length icmp_packet ≡ 34) ⊎ (byte icmp_packet 34 ≡ 8))
      × (sr_handlepacket small_env 3 icmp_packet eth1.name small_router ≡ fault))
    ⊎ ((34 < length icmp_packet)
        × (byte icmp_packet 34 ≢ 8)
        × (sr_handlepacket small_env 3 icmp_packet eth1.name small_router ≡ done tt small_router))
unanswered_icmp_lem_example =
    unanswered_icmp_lem small_env 3 icmp_packet eth1.name small_router eth1 (omega arith)
      icmp_packet-IsBytes refl (unfold cksum_sum cksum_fold in refl)
      (λ e. absurd (omega (arith, e))) refl (unfold get_interface_from_ip in refl)
      (inl (omega arith))

length-sevens : (n : ℕ) → length (sevens n) ≡ n
unfolding sevens
length-sevens zero = refl
length-sevens (suc n) = ap suc (length-sevens n)

small-IsRouter : IsRouter small_router
small-IsRouter = record {
  queue = insert-IsQueue sr_arpcache_init hop_mac (address 10 0 2 2) 100 init-IsQueue;
  slots = unfold sr_arpcache_insert sr_arpcache_init empty_entries fill_slot in refl;
}

-- The reply to the ARP request.
abbrev arp_reply : Bytes
arp_reply =
    2 ∷ 0 ∷ 0 ∷ 0 ∷ 0 ∷ 7 ∷ 2 ∷ 0 ∷ 0 ∷ 0 ∷ 0 ∷ 1 ∷ 8 ∷ 6 ∷ 0 ∷ 1 ∷ 8 ∷ 0 ∷ 6 ∷ 4 ∷ 0 ∷ 2 ∷ 2 ∷ 0
    ∷ 0 ∷ 0 ∷ 0 ∷ 1 ∷ 10 ∷ 0 ∷ 1 ∷ 1 ∷ 2 ∷ 0 ∷ 0 ∷ 0 ∷ 0 ∷ 7 ∷ 10 ∷ 0 ∷ 1 ∷ 5 ∷ []

abbrev replied : Router
replied = record (sent small_router eth1.name arp_reply) { allocs = 1 }

request_answered : sr_handlepacket small_env 3 arp_request eth1.name small_router ≡ done tt replied
unfolding sr_handlepacket sr_handle_arp_packet sr_send_arp_reply sr_send_packet sr_get_interface
    strncmp_eq addr_eq sr_ether_addrs_match_interface arp_message put overlay sevens
request_answered = refl

Reaches-IsRouter_example : IsRouter replied
Reaches-IsRouter_example =
    Reaches-IsRouter (λ k n. length-sevens n) small-IsRouter
      (receive 3 arp_request eth1.name start request_answered)
