-- ===== src/Router/Errors.antt =====
-- ICMP errors: `sr_send_error` of router/src/router/sr_router.c and the functions that call it.
use computer_networks.Prelude.{ℕ, Option, none, some, [], ◌∷◌, take}
use computer_networks.Prelude.Words.{Bytes, slice, put, le16, le32, htons, load32}
use computer_networks.Router.State.{Name, Interface, ArpEntry, Route, Env}
use computer_networks.Router.Interfaces.{sr_get_interface}
use computer_networks.Router.Routes.{sr_get_longest_prefix_match}
use computer_networks.Router.ArpCache.{sr_arpcache_lookup, sr_arpcache_queuereq}
use computer_networks.Router.Machine.{
  M, ◌>>=◌, ◌>>◌, gets, set_cache, need, deref, unless_null, malloc,
}
use computer_networks.Router.Send.{set_cksum, sr_send_packet}

-- The IP and the ICMP header of an error message, written into the block in the order of the
-- code: 20 bytes of IP header behind the 14 of Ethernet, then type, code, checksum, two unused
-- words and the first 28 bytes of the packet that caused the error.
unfoldable pub icmp_error : ℕ → Bytes → ℕ → ℕ → Bytes → Bytes
icmp_error src_ip packet type code block =
    let p₁ = put 14 (0x45 ∷ 0 ∷ []) block in
    let p₂ = put 16 (le16 (htons 56)) p₁ in
    let p₃ = put 18 (le16 (htons 0)) p₂ in
    let p₄ = put 20 (le16 (htons 0x4000)) p₃ in
    let p₅ = put 22 (64 ∷ 1 ∷ []) p₄ in
    let p₆ = put 26 (le32 src_ip) p₅ in
    let p₇ = put 30 (le32 (load32 packet 26)) p₆ in
    let p₈ = set_cksum 24 14 20 p₇ in
    let p₉ = put 34 (type ∷ code ∷ []) p₈ in
    let p₁₀ = put 38 (le16 0) p₉ in
    let p₁₁ = put 40 (le16 0) p₁₀ in
    let p₁₂ = put 42 (slice packet 14 28) p₁₁ in set_cksum 36 34 36 p₁₂

-- `sr_arpcache_queuereq` on the router's cache, then `handle_arpreq` of the request: the way of
-- a packet whose next hop has no mapping. `handle` stands for `handle_arpreq`.
unfoldable pub queue_packet : (ℕ → M (Unit {0})) → ℕ → Bytes → Name → M (Unit {0})
queue_packet handle ip packet iface r =
    let (cache, id) = sr_arpcache_queuereq r.cache ip packet iface in
    (do set_cache cache; handle id) r

-- The branches on the result of the cache lookup for the next hop.
unfoldable pub error_to :
    (ℕ → M (Unit {0})) → Option ArpEntry → Route → Interface → Bytes → M (Unit {0})
error_to handle (some arp_entry) rt out_iface p =
    let p₁ = put 0 (take 6 arp_entry.mac) p in
    let p₂ = put 6 (take 6 out_iface.addr) p₁ in
    sr_send_packet (put 12 (le16 (htons 0x0800)) p₂) out_iface.name
error_to handle none rt out_iface p =
    let p₁ = put 12 (le16 (htons 0x0800)) p in
    queue_packet handle rt.gw (put 6 (take 6 out_iface.addr) p₁) out_iface.name

unfoldable pub sr_send_error : Env → (ℕ → M (Unit {0})) → Bytes → Name → ℕ → ℕ → M (Unit {0})
sr_send_error env handle packet interface type code = do
  icmp_packet ← malloc env 70
  need packet 30
  ifs ← gets (λ r. r.if_list)
  table ← gets (λ r. r.routing_table)
  unless_null (sr_get_longest_prefix_match table (load32 packet 26)) λ rt.
      unless_null (sr_get_interface ifs rt.interface) λ out_iface. do
        iface ← deref (sr_get_interface ifs interface)
        need packet 42
        arp_entry ← gets (λ r. sr_arpcache_lookup r.cache rt.gw)
        error_to handle arp_entry rt out_iface (icmp_error iface.ip packet type code icmp_packet)

module _ (env : Env) (handle : ℕ → M (Unit {0})) (packet : Bytes) (interface : Name) where
  unfoldable pub sr_send_icmp_port_unreachable : M (Unit {0})
  sr_send_icmp_port_unreachable = sr_send_error env handle packet interface 3 3

  unfoldable pub sr_send_icmp_time_exceeded : M (Unit {0})
  sr_send_icmp_time_exceeded = sr_send_error env handle packet interface 11 0

  unfoldable pub sr_send_icmp_host_unreachable : M (Unit {0})
  sr_send_icmp_host_unreachable = sr_send_error env handle packet interface 3 1

  unfoldable pub sr_send_icmp_net_unreachable : M (Unit {0})
  sr_send_icmp_net_unreachable = sr_send_error env handle packet interface 3 0
