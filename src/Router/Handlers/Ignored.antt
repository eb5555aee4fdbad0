-- ===== src/Router/Handlers/Ignored.antt =====
-- ARP requests for other hosts.
use computer_networks.Prelude.{
  ℕ, ◌≤◌, ◌≡◌, refl, inl, inr, Bool, true, false, ◌&&◌, not, some, List, ◌==◌, ltb, length, arith,
  Bool-cases, Option-cases, ltb-false→le, le→leb, le→ltb-false, ==→eq,
}
use computer_networks.Prelude.Words.{Bytes, load16, load32, htons}
use computer_networks.Router.State.{Name, Interface, Router, Env}
use computer_networks.Router.Interfaces.{sr_get_interface}
use computer_networks.Router.Interfaces.Hardware.{sr_arp_req_not_for_us}
use computer_networks.Router.Machine.{done}
use computer_networks.Router.Handlers.{sr_handlepacket, sr_handle_arp_packet}

record IsForOther (ifs : List Interface) (p : Bytes) (interface : Name) : Type 0 where
  iface : Interface
  long : 42 ≤ length p
  is_arp : load16 p 12 ≡ htons 0x0806
  is_request : load16 p 20 ≡ htons 1
  other : (load32 p 38 == iface.ip) ≡ false
  known : sr_get_interface ifs interface ≡ some iface

some_is_true : {b : Bool} → some b ≡ some true → b ≡ true
some_is_true e = cc

three_true : (a b c : Bool) → ((a && b) && not c) ≡ true → (a ≡ true) × ((b ≡ true) × (c ≡ false))
three_true true true false e = (refl, (refl, refl))
three_true true true true e = cc
three_true true false c e = cc
three_true false b c e = cc

not_for_us_facts :
    (ifs : List Interface) (p : Bytes) (interface : Name)
    → sr_arp_req_not_for_us ifs p interface ≡ some true
    → IsForOther ifs p interface
unfolding sr_arp_req_not_for_us
not_for_us_facts ifs p interface h = elim (Bool-cases (ltb (length p) 42)) [
  | inl e ↦ absurd (ground arith)
  | inr e ↦ elim (Option-cases (sr_get_interface ifs interface)) [
    | inl miss ↦ absurd (ground arith)
    | inr (iface, found) ↦
        let (a, (b, c)) =
          three_true (load16 p 12 == htons 0x0806) (load16 p 20 == htons 1)
            (load32 p 38 == iface.ip) (some_is_true (rw (e, found) at h)) in
        record {
          iface = iface;
          long = ltb-false→le (length p) 42 e;
          is_arp = ==→eq (load16 p 12) (htons 0x0806) a;
          is_request = ==→eq (load16 p 20) (htons 1) b;
          other = c;
          known = found;
        }
  ]
]

-- A frame that `sr_arp_req_not_for_us` reports as an ARP request for another host is ignored by
-- the handler: no frame is sent and no state changes.
pub not_for_us_ignored :
    (env : Env) (fuel : ℕ) (p : Bytes) (interface : Name) (r : Router)
    → sr_arp_req_not_for_us r.if_list p interface ≡ some true
    → sr_handlepacket env fuel p interface r ≡ done tt r
unfolding sr_handlepacket sr_handle_arp_packet
not_for_us_ignored env fuel p interface r h =
    let f = not_for_us_facts r.if_list p interface h in
    rw
      (
        le→leb 14 (length p) (omega (arith, f.long)),
        f.is_arp,
        le→ltb-false (length p) 42 f.long,
        f.known,
        f.is_request,
        f.other,
      )
      refl
