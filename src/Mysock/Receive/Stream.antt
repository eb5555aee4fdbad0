-- ===== src/Mysock/Receive/Stream.antt =====
-- What the receive thread of transport-layer/src/network_io_socket.c puts into the queue.
use mathlib.Core.List.{append_assoc, append-nil}
use computer_networks.Prelude.{
  ℕ, zero, suc, ◌+◌, ◌<◌, ◌≤◌, ◌≡◌, refl, ◌∙◌, ap, sym, true, false, some, List, [], ◌∷◌, ◌++◌,
  length, le→leb, All, arith,
}
use computer_networks.Prelude.Words.{Bytes}
use computer_networks.Mysock.State.{MysockContext, PacketQueue, Outcome, returns, and_then}
use computer_networks.Mysock.Queue.{mysock_enqueue_buffer}
use computer_networks.Mysock.Stcp.{network_packet}
use computer_networks.Transport.Segment.{be16}
use computer_networks.Mysock.Framing.{IoCall, network_send_packet, network_recv_packet}
use computer_networks.Mysock.Framing.RoundTrip.{IsConnection, read_done, send_lem, recv_lem}
use computer_networks.Mysock.Receive.{max_ip_payload_len, poll_loop, Round, dispatch, recv_thread}

-- A packet, with the calls of `write` that send it and the round of the thread that takes it.
pub record Delivery : Type 0 where
  pub packet : Bytes
  pub writes : List IoCall
  pub round : Round

pub record IsDelivery (d : Delivery) : Type 0 where
  pub some_bytes : 0 < length d.packet
  pub fits : length d.packet ≤ max_ip_payload_len
  pub sends : IsConnection d.writes (2 + length d.packet)
  pub ready : poll_loop d.round.polls ≡ returns false
  pub connected : d.round.connects ≡ true
  pub receives : IsConnection d.round.calls (2 + length d.packet)

abbrev pub packets_of : List Delivery → PacketQueue
packets_of [] = []
packets_of (d ∷ ds) = d.packet ∷ packets_of ds

abbrev pub rounds_of : List Delivery → List Round
rounds_of [] = []
rounds_of (d ∷ ds) = d.round ∷ rounds_of ds

-- One `_network_send_packet` behind the other: what goes to the connection.
unfoldable pub send_packets : List Delivery → Bytes → Outcome Bytes
send_packets [] out = returns out
send_packets (d ∷ ds) out =
    and_then (network_send_packet d.writes d.packet out) (λ w. send_packets ds w.out)

abbrev framed : List Delivery → Bytes → Bytes
framed [] behind = behind
framed (d ∷ ds) behind = be16 (length d.packet) ++ (d.packet ++ framed ds behind)

send_packets_lem :
    (ds : List Delivery) (out behind : Bytes)
    → All IsDelivery ds
    → (sent : Bytes) × (send_packets ds out ≡ returns sent)
      × (sent ++ behind ≡ out ++ framed ds behind)
unfolding send_packets
send_packets_lem [] out behind ok = (out, refl, refl)
send_packets_lem (d ∷ ds) out behind (ok, oks) =
    let (left, first) = send_lem d.writes d.packet out ok.sends in
    let (sent, rest, whole) =
      send_packets_lem ds (out ++ be16 (length d.packet) ++ d.packet) behind oks in
    (sent, rw first rest, whole ∙ simp append_assoc)

pub dispatch_lem {ℓ} :
    {A : Type ℓ} (n : ℕ) (ends on : Outcome A)
    → 0 < n
    → n ≤ max_ip_payload_len
    → dispatch (some n) ends on ≡ on
dispatch_lem zero ends on positive fits = absurd (omega arith)
dispatch_lem (suc n) ends on positive fits = rw (le→leb (suc n) max_ip_payload_len fits) refl

round_lem :
    (r : Round) (rounds : List Round) (ctx : MysockContext) (packet waiting behind : Bytes)
    (calls : List IoCall)
    → poll_loop r.polls ≡ returns false
    → r.connects ≡ true
    → network_recv_packet r.calls max_ip_payload_len waiting
      ≡ read_done (length packet) packet behind calls
    → 0 < length packet
    → length packet ≤ max_ip_payload_len
    → recv_thread (r ∷ rounds) ctx waiting ≡ recv_thread rounds (network_packet ctx packet) behind
unfolding recv_thread
round_lem r rounds ctx packet waiting behind calls ready connected read positive fits =
    rw
      (
        ready,
        connected,
        read,
        dispatch_lem (length packet) (returns (network_packet ctx []))
            (recv_thread rounds (network_packet ctx packet) behind) positive fits,
      )
      refl

recv_thread_lem :
    (ds : List Delivery) (more : List Round) (ctx : MysockContext) (behind : Bytes)
    → All IsDelivery ds
    → recv_thread (rounds_of ds ++ more) ctx (framed ds behind)
      ≡ recv_thread more
          (record ctx { network_recv_queue = ctx.network_recv_queue ++ packets_of ds })
          behind
unfolding network_packet mysock_enqueue_buffer
recv_thread_lem [] more ctx behind ok =
    ap (λ q. recv_thread more (record ctx { network_recv_queue = q }) behind)
      (sym (append-nil ctx.network_recv_queue))
recv_thread_lem (d ∷ ds) more ctx behind (ok, oks) =
    let (calls, read) =
      recv_lem d.round.calls max_ip_payload_len d.packet (framed ds behind) ok.receives
        ok.some_bytes ok.fits (omega (arith, ok.fits)) in
    round_lem d.round (rounds_of ds ++ more) ctx d.packet (framed (d ∷ ds) behind)
      (framed ds behind) calls ok.ready ok.connected read ok.some_bytes ok.fits
    ∙ recv_thread_lem ds more (network_packet ctx d.packet) behind oks
    ∙ ap (λ q. recv_thread more (record ctx { network_recv_queue = q }) behind)
        (append_assoc ctx.network_recv_queue (d.packet ∷ []) (packets_of ds))

-- However the connection cuts what is written and read, packets of 1 to 1500 bytes that one end sends
-- come into the queue of the other end's mysocket in their order, each whole, and the thread then goes
-- on with what was sent behind them.
pub packets_arrive :
    (ds : List Delivery) (more : List Round) (ctx : MysockContext) (behind : Bytes)
    → All IsDelivery ds
    → (sent : Bytes) × (send_packets ds [] ≡ returns sent)
      × (recv_thread (rounds_of ds ++ more) ctx (sent ++ behind)
          ≡ recv_thread more
              (record ctx { network_recv_queue = ctx.network_recv_queue ++ packets_of ds })
              behind)
packets_arrive ds more ctx behind ok =
    let (sent, sends, whole) = send_packets_lem ds [] behind ok in
    (sent, sends, rw whole (recv_thread_lem ds more ctx behind ok))
