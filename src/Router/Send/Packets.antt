-- ===== src/Router/Send/Packets.antt =====
-- When `sr_send_packet` writes the frame to the socket.
use computer_networks.Prelude.{◌≤◌, ◌≡◌, true, some, [], ◌∷◌, ◌++◌, length, take, arith}
use computer_networks.Prelude.Words.{Bytes, slice}
use computer_networks.Router.State.{Name, Interface, Router}
use computer_networks.Router.Interfaces.{sr_get_interface, addr_eq}
use computer_networks.Router.Machine.{done}
use computer_networks.Router.Send.{sr_ether_addrs_match_interface, sr_send_packet}

-- The router after it wrote a frame for an interface.
abbrev pub sent : Router → Name → Bytes → Router
sent r name buf = record r {
  wire = r.wire ++ record { interface_name = take 16 name; frame = buf } ∷ [];
}

-- A frame with the address of its interface as the source is written.
pub sr_send_packet_sends :
    (r : Router) (buf : Bytes) (name : Name) (i : Interface)
    → 14 ≤ length buf
    → sr_get_interface r.if_list name ≡ some i
    → addr_eq 6 (slice buf 6 6) i.addr ≡ true
    → sr_send_packet buf name r ≡ done tt (sent r name buf)
unfolding sr_send_packet
sr_send_packet_sends r buf name i long found own =
    let e : sr_ether_addrs_match_interface r.if_list buf name ≡ true =
      unfold sr_ether_addrs_match_interface in rw (found, sr_ether_addrs_match_interface) own in
    ground arith
