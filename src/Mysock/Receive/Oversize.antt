-- ===== src/Mysock/Receive/Oversize.antt =====
-- A packet that is too long for the buffer of the receive thread of
-- transport-layer/src/network_io_socket.c.
use computer_networks.Prelude.{
  ℕ, zero, suc, ◌+◌, ◌-◌, ◌^◌, ◌<◌, ◌≡◌, refl, true, false, some, List, [], ◌∷◌, ◌++◌, min, length,
  gt→leb-false, lt→ltb, ne→==, take, drop, length-append, length-drop, arith,
}
use computer_networks.Prelude.Words.{Bytes}
use computer_networks.Mysock.State.{MysockContext, Outcome, returns, aborts}
use computer_networks.Mysock.Stcp.{network_packet}
use computer_networks.Transport.Segment.{be16, read16}
use computer_networks.Mysock.Framing.{
  IoCall, discard, unless_ended, read_packet, network_recv_packet,
}
use computer_networks.Mysock.Framing.RoundTrip.{IsConnection, read_done, read_lem}
use computer_networks.Mysock.Receive.{max_ip_payload_len, poll_loop, Round, dispatch, recv_thread}

-- It is cut to the room, the rest is read and dropped, and its whole length is the result.
oversize_cut :
    (calls : List IoCall) (max_len : ℕ) (packet behind : Bytes)
    → IsConnection calls (2 + length packet)
    → 0 < max_len
    → max_len < length packet
    → length packet < 2 ^ 16
    → (left : List IoCall) × (network_recv_packet calls max_len
          (be16 (length packet) ++ packet ++ behind)
        ≡ read_done
            (length packet)
            (take max_len (packet ++ behind))
            (drop (length packet - max_len) (drop max_len (packet ++ behind)))
            left)
unfolding network_recv_packet read_packet unless_ended discard
oversize_cut calls max_len packet behind c positive long short =
    let n : ℕ = length packet in
    let (left, first, cl) =
      read_lem calls 2 2 [] (be16 n ++ packet ++ behind) c.working (omega (arith, c.enough))
        (omega arith) in
    let (left', second, cl') =
      read_lem left max_len max_len [] (packet ++ behind) cl.working
        (omega (arith, c.enough, cl.enough)) (omega (arith, length-append packet behind)) in
    let (left'', third, cl'') =
      read_lem left' (n - max_len) (n - max_len) [] (drop max_len (packet ++ behind)) cl'.working
        (omega (arith, c.enough, cl.enough, cl'.enough))
        (omega (arith, length-append packet behind, length-drop max_len (packet ++ behind))) in
    let len : read16 (be16 n) 0 ≡ n = omega (arith, short) in
    let wanted : min n max_len ≡ max_len = omega arith in
    (
      left'',
      rw (first, len, wanted, second, ne→== max_len 0 (omega arith), lt→ltb max_len n long, third)
          refl,
    )

dispatch_aborts {ℓ} :
    {A : Type ℓ} (n : ℕ) (ends on : Outcome A)
    → max_ip_payload_len < n
    → dispatch (some n) ends on ≡ aborts
dispatch_aborts zero ends on long = absurd (omega arith)
dispatch_aborts (suc n) ends on long = rw (gt→leb-false (suc n) max_ip_payload_len long) refl

-- A packet of more than 1500 bytes from the other end fails an assertion of the receive thread, and so
-- ends the program: the length that is tested is that of the packet and not of what was kept of it.
pub oversize_aborts :
    (r : Round) (rounds : List Round) (ctx : MysockContext) (packet behind : Bytes)
    → poll_loop r.polls ≡ returns false
    → r.connects ≡ true
    → IsConnection r.calls (2 + length packet)
    → max_ip_payload_len < length packet
    → length packet < 2 ^ 16
    → recv_thread (r ∷ rounds) ctx (be16 (length packet) ++ packet ++ behind) ≡ aborts
unfolding recv_thread
oversize_aborts r rounds ctx packet behind ready connected c long short =
    let (left, cut) =
      oversize_cut r.calls max_ip_payload_len packet behind c (omega arith) long short in
    rw
      (
        ready,
        connected,
        cut,
        dispatch_aborts (length packet) (returns (network_packet ctx []))
            (recv_thread rounds (network_packet ctx (take max_ip_payload_len (packet ++ behind))) (
              drop (length packet - max_ip_payload_len)
                (drop max_ip_payload_len (packet ++ behind))))
            long,
      )
      refl
