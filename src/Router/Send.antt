-- ===== src/Router/Send.antt =====
-- Sending frames: `sr_send_packet` of router/src/router/sr_vns_comm.c, and the ARP messages of
-- sr_router.c.
pub mod HeaderSum
pub mod Packets
use computer_networks.Prelude.{
  ℕ, ◌+◌, ◌-◌, Bool, true, false, Option, none, some, List, [], ◌∷◌, ◌++◌, ltb, if◌then◌else◌,
  length, take,
}
use computer_networks.Prelude.Words.{Bytes, byte, slice, put, le16, le32, htons, load32}
use computer_networks.Router.State.{Name, Interface, VnsPacket, Router, Env}
use computer_networks.Router.Interfaces.{sr_get_interface, addr_eq}
use computer_networks.Router.Checksum.{cksum}
use computer_networks.Router.Machine.{
  M, done, return, ◌>>=◌, ◌>>◌, gets, deref, malloc, unless_null,
}

-- `x_sum = 0; x_sum = cksum(x, n);` for the field at `field` of the header at `start`.
unfoldable pub set_cksum : ℕ → ℕ → ℕ → Bytes → Bytes
set_cksum field start n p =
    let cleared = put field (le16 0) p in put field (le16 (cksum (slice cleared start n))) cleared

-- The source address of the frame is that of the interface.
unfoldable pub sr_ether_addrs_match_interface : List Interface → Bytes → Name → Bool
sr_ether_addrs_match_interface if_list buf name = elim (sr_get_interface if_list name) [
  | none ↦ false
  | some iface ↦ addr_eq 6 (slice buf 6 6) iface.addr
]

-- No caller reads the result, so both refusals are plain returns. The log is not modelled.
unfoldable pub sr_send_packet : Bytes → Name → M (Unit {0})
sr_send_packet buf iface r =
    if ltb (length buf) 14
    then done tt r
    else if sr_ether_addrs_match_interface r.if_list buf iface
    then done tt
        (record r { wire = r.wire ++ record { interface_name = take 16 iface; frame = buf } ∷ [] })
    else done tt r

abbrev pub broadcast : Bytes
broadcast = 255 ∷ 255 ∷ 255 ∷ 255 ∷ 255 ∷ 255 ∷ []

abbrev pub zero_mac : Bytes
zero_mac = 0 ∷ 0 ∷ 0 ∷ 0 ∷ 0 ∷ 0 ∷ []

-- The fields of an ARP message in an Ethernet frame, written into the block in the order of the
-- code; `op` is 1 for a request and 2 for a reply.
unfoldable pub arp_message : ℕ → Bytes → Interface → Bytes → ℕ → Bytes → Bytes
arp_message op dhost iface tha tip block =
    let p₁ = put 0 (take 6 dhost) block in
    let p₂ = put 6 (take 6 iface.addr) p₁ in
    let p₃ = put 12 (le16 (htons 0x0806)) p₂ in
    let p₄ = put 14 (le16 (htons 1)) p₃ in
    let p₅ = put 16 (le16 (htons 0x0800)) p₄ in
    let p₆ = put 18 (6 ∷ []) p₅ in
    let p₇ = put 19 (4 ∷ []) p₆ in
    let p₈ = put 20 (le16 (htons op)) p₇ in
    let p₉ = put 22 (take 6 iface.addr) p₈ in
    let p₁₀ = put 28 (le32 iface.ip) p₉ in
    let p₁₁ = put 32 (take 6 tha) p₁₀ in put 38 (le32 tip) p₁₁

unfoldable pub sr_send_arp_request : Env → ℕ → Interface → M (Unit {0})
sr_send_arp_request env tip iface = do
  arp_packet ← malloc env 42
  sr_send_packet (arp_message 1 broadcast iface zero_mac tip arp_packet) iface.name

-- The block is as long as the request, and what lies behind the ARP message is sent uncleared.
-- The caller has checked that the request holds an ARP message.
unfoldable pub sr_send_arp_reply : Env → Bytes → Name → M (Unit {0})
sr_send_arp_reply env req_packet interface = do
  ifs ← gets (λ r. r.if_list)
  reply_packet ← malloc env (length req_packet)
  iface ← deref (sr_get_interface ifs interface)
  sr_send_packet
      (arp_message 2 (slice req_packet 6 6) iface (slice req_packet 22 6) (load32 req_packet 28)
        reply_packet)
      interface
