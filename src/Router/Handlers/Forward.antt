-- ===== src/Router/Handlers/Forward.antt =====
-- Forwarding: the frame that leaves, and when it leaves.
use computer_networks.Prelude.{
  ℕ, ◌+◌, ◌%◌, ◌≤◌, ◌<◌, ◌≡◌, ◌∙◌, inl, inr, false, some, [], ◌∷◌, ◌==◌, length, take, drop, arith,
  take_all, length-take,
}
use computer_networks.Prelude.Words.{
  Bytes, IsBytes, byte, slice, put, load32, length-put, byte-put, IsBytes-put, IsBytes-byte,
}
use computer_networks.Prelude.Words.Slices.{slice-put_outside, slice-put_self, drop-put}
use computer_networks.Router.State.{Name, Interface, ArpEntry, Route, Router, Env}
use computer_networks.Router.Checksum.{cksum_sum, cksum_fold}
use computer_networks.Router.Interfaces.{sr_get_interface}
use computer_networks.Router.Interfaces.Lookup.{get_interface_own, addr_eq_refl}
use computer_networks.Router.Routes.{sr_get_longest_prefix_match}
use computer_networks.Router.ArpCache.{sr_arpcache_lookup}
use computer_networks.Router.Machine.{M, done}
use computer_networks.Router.Send.{set_cksum}
use computer_networks.Router.Send.HeaderSum.{
  length-set_cksum, byte-set_cksum, set_cksum_verifies, slice-set_cksum_outside, drop-set_cksum,
  buffer_lengths,
}
use computer_networks.Router.Send.Packets.{sent, sr_send_packet_sends}
use computer_networks.Router.Handlers.{
  address_and_send, send_or_queue, send_by, decrement_ttl, forward_along, sr_forward_packet,
}

-- The frame that carries `p` on to `mac` from the interface with address `addr`: new Ethernet
-- addresses, one less hop to live, a header that sums to all ones, and the rest unchanged.
pub record IsForwarded (p mac addr f : Bytes) : Type 0 where
  pub same_length : length f ≡ length p
  pub to_mac : slice f 0 6 ≡ mac
  pub from_addr : slice f 6 6 ≡ addr
  pub one_less : byte f 22 + 1 ≡ byte p 22
  pub sums : cksum_fold 2 (cksum_sum 0 (slice f 14 20)) ≡ 0xffff
  pub up_to_ttl : slice f 12 10 ≡ slice p 12 10
  pub protocol : byte f 23 ≡ byte p 23
  pub behind : drop 26 f ≡ drop 26 p

-- The frame as the code builds it.
abbrev pub forwarded : Bytes → Bytes → Bytes → Bytes
forwarded p mac addr =
    put 0 (take 6 mac) (put 6 (take 6 addr) (set_cksum 24 14 20 (decrement_ttl p)))

length-forwarded : (p mac addr : Bytes) → length (forwarded p mac addr) ≡ length p
unfolding decrement_ttl
length-forwarded p mac addr = omega buffer_lengths

-- Forwarding a packet with hops left makes such a frame.
pub forwarded-IsForwarded :
    (p mac addr : Bytes)
    → 34 ≤ length p
    → IsBytes p
    → 0 < byte p 22
    → length mac ≡ 6
    → length addr ≡ 6
    → IsForwarded p mac addr (forwarded p mac addr)
unfolding decrement_ttl
forwarded-IsForwarded p mac addr long hb live six six' =
    let ttl : Bytes = (byte p 22 + 255) % 256 ∷ [] in
    let p₀ : Bytes = put 22 ttl p in
    let p₁ : Bytes = set_cksum 24 14 20 p₀ in
    let e : take 6 mac ≡ mac = take_all 6 mac (omega arith) in
    let e' : take 6 addr ≡ addr = take_all 6 addr (omega arith) in
    let l₀ : length p₀ ≡ length p = length-put 22 ttl p in
    let l₁ : length p₁ ≡ length p = length-set_cksum 24 14 20 p₀ ∙ l₀ in
    let p₂ : Bytes = put 6 addr p₁ in
    let l₂ : length p₂ ≡ length p = length-put 6 addr p₁ ∙ l₁ in
    let outer : (s n : ℕ) → 12 ≤ s → s + n ≤ length p → slice (put 0 mac p₂) s n ≡ slice p₁ s n =
      λ s n lo hi.
        slice-put_outside 0 mac p₂ s n (omega arith) (omega arith) (inl (omega arith))
        ∙ slice-put_outside 6 addr p₁ s n (omega arith) (omega arith) (inl (omega arith)) in
    rw (e, e')
      (record {
        same_length = omega buffer_lengths;
        to_mac = slice-put_self 0 mac p₂ 6 six (omega arith);
        from_addr =
            slice-put_outside 0 mac p₂ 6 6 (omega arith) (omega arith) (inl (omega arith))
            ∙ slice-put_self 6 addr p₁ 6 six' (omega arith);
        one_less = ground (
          arith,
          byte-put 0 mac p₂ 22,
          byte-put 6 addr p₁ 22,
          byte-set_cksum 24 14 20 p₀ 22,
          byte-put 22 ttl p 22,
          IsBytes-byte p 22 hb,
        );
        sums = rw (outer 14 20 (omega arith) (omega arith)) (
            set_cksum_verifies 5 14 20 p₀ (IsBytes-put 22 ttl p (omega arith) hb) (omega arith)
              (omega arith) (omega arith));
        up_to_ttl =
            outer 12 10 (omega arith) (omega arith)
            ∙ slice-set_cksum_outside 24 14 20 p₀ 12 10 (omega arith) (omega arith)
                (inr (omega arith))
            ∙ slice-put_outside 22 ttl p 12 10 (omega arith) (omega arith) (inr (omega arith));
        protocol = ground (
          arith,
          byte-put 0 mac p₂ 23,
          byte-put 6 addr p₁ 23,
          byte-set_cksum 24 14 20 p₀ 23,
          byte-put 22 ttl p 23,
        );
        behind =
            drop-put 26 0 mac p₂ (omega arith) (omega arith)
            ∙ drop-put 26 6 addr p₁ (omega arith) (omega arith)
            ∙ drop-set_cksum 24 14 20 p₀ 26 (omega arith) (omega arith)
            ∙ drop-put 26 22 ttl p (omega arith) (omega arith);
      })

-- The destination address of the packet with its new header is that of the packet.
summed_dest :
    (p : Bytes) → 34 ≤ length p → load32 (set_cksum 24 14 20 (decrement_ttl p)) 30 ≡ load32 p 30
unfolding decrement_ttl
summed_dest p long =
    let ttl : Bytes = (byte p 22 + 255) % 256 ∷ [] in
    let p₀ : Bytes = put 22 ttl p in
    let l₀ : length p₀ ≡ length p = length-put 22 ttl p in
    let same : (i : ℕ) → 30 ≤ i → byte (set_cksum 24 14 20 p₀) i ≡ byte p i = λ i lo.
      byte-set_cksum 24 14 20 p₀ i (omega arith) (inr (omega arith))
      ∙ ground (arith, byte-put 22 ttl p i) in
    omega (arith, same 30, same 31, same 32, same 33)

address_and_send_sends :
    (r : Router) (e : ArpEntry) (out : Interface) (p : Bytes)
    → 34 ≤ length p
    → length out.addr ≡ 6
    → sr_get_interface r.if_list out.name ≡ some out
    → let f = put 0 (take 6 e.mac) (put 6 (take 6 out.addr) p) in
      address_and_send e out p r ≡ done tt (sent r out.name f)
unfolding address_and_send
address_and_send_sends r e out p long six own =
    let a : take 6 out.addr ≡ out.addr = take_all 6 out.addr (omega arith) in
    let q : Bytes = put 6 out.addr p in
    let m : length (take 6 e.mac) ≤ 6 = omega (arith, length-take 6 e.mac) in
    let l : length q ≡ length p = length-put 6 out.addr p in
    let source : slice (put 0 (take 6 e.mac) q) 6 6 ≡ out.addr =
      slice-put_outside 0 (take 6 e.mac) q 6 6 (omega arith) (omega arith) (inl (omega arith))
      ∙ slice-put_self 6 out.addr p 6 six (omega arith) in
    rw a (
      sr_send_packet_sends r (put 0 (take 6 e.mac) q) out.name out
        (omega (arith, length-put 0 (take 6 e.mac) q)) own (rw source (addr_eq_refl 6 out.addr)))

-- With two hops or more left, the lifetime does not run out.
ttl_left :
    (p : Bytes)
    → 34 ≤ length p
    → IsBytes p
    → 2 ≤ byte p 22
    → (byte (decrement_ttl p) 22 == 0) ≡ false
unfolding decrement_ttl
ttl_left p long hb live =
    ground (arith, byte-put 22 ((byte p 22 + 255) % 256 ∷ []) p 22, IsBytes-byte p 22 hb)

-- A packet with two or more hops to live, a route, an interface for it and a mapping for the
-- next hop is forwarded: one frame is written, the rest of the state stays, and the frame is
-- the packet with new Ethernet addresses, one hop less and a header checksum that verifies.
pub sr_forward_packet_sends :
    (env : Env) (handle : ℕ → M (Unit {0})) (p : Bytes) (interface : Name) (r : Router) (rt : Route)
    (out : Interface) (e : ArpEntry)
    → 34 ≤ length p
    → IsBytes p
    → 2 ≤ byte p 22
    → sr_get_longest_prefix_match r.routing_table (load32 p 30) ≡ some rt
    → sr_get_interface r.if_list rt.interface ≡ some out
    → sr_arpcache_lookup r.cache rt.gw ≡ some e
    → length e.mac ≡ 6
    → length out.addr ≡ 6
    → (f : Bytes) × (sr_forward_packet env handle p interface r ≡ done tt (sent r out.name f))
      × IsForwarded p e.mac out.addr f
unfolding sr_forward_packet forward_along send_by send_or_queue
sr_forward_packet_sends env handle p interface r rt out e long hb live route iface hit six six' =
    let summed : Bytes = set_cksum 24 14 20 (decrement_ttl p) in
    let route' : sr_get_longest_prefix_match r.routing_table (load32 summed 30) ≡ some rt =
      rw (summed_dest p long) route in
    let long' : 34 ≤ length summed =
      unfold decrement_ttl in
      rw (length-set_cksum 24 14 20 (put 22 ((byte p 22 + 255) % 256 ∷ []) p), length-put) long in
    let own : sr_get_interface r.if_list out.name ≡ some out =
      get_interface_own r.if_list rt.interface out iface in
    (
      forwarded p e.mac out.addr,
      rw (ttl_left p long hb live, route', iface, hit)
          (address_and_send_sends r e out summed long' six' own),
      forwarded-IsForwarded p e.mac out.addr long hb (omega arith) six six',
    )
