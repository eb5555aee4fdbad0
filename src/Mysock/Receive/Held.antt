-- ===== src/Mysock/Receive/Held.antt =====
-- The socket that the receive thread of a listening mysocket holds for a new connection:
-- transport-layer/src/network_io_socket.c and network_io_tcp.c.
use computer_networks.Prelude.{
  ℕ, ◌<◌, ◌≤◌, ◌≡◌, refl, ◌∙◌, not, true, false, some, List, [], ◌∷◌, length,
}
use computer_networks.Prelude.Words.{Bytes}
use computer_networks.Mysock.State.{MysockContext, returns, aborts, and_then}
use computer_networks.Mysock.Stcp.{network_packet}
use computer_networks.Mysock.Framing.{IoCall, network_recv_packet}
use computer_networks.Mysock.Framing.RoundTrip.{read_done}
use computer_networks.Mysock.Demux.Connections.{Mysockets}
use computer_networks.Mysock.Receive.{
  max_ip_payload_len, poll_loop, ListenRound, with_peer, enqueue, listen_thread,
}
use computer_networks.Mysock.Receive.Stream.{dispatch_lem}

-- A connection of which a whole first packet comes.
pub record Connects (r : ListenRound) (peer : Bytes × ℕ) (packet : Bytes) : Type 0 where
  pub ready : poll_loop r.polls ≡ returns false
  pub accepted : r.accepts ≡ some peer
  pub left : Bytes × List IoCall
  pub received :
      network_recv_packet r.calls max_ip_payload_len r.stream
      ≡ read_done (length packet) packet left.0 left.1
  pub some_bytes : 0 < length packet
  pub fits : length packet ≤ max_ip_payload_len

-- One round with such a connection.
connects_lem :
    (r : ListenRound) (rounds : List ListenRound) (s : Mysockets) (ctx : MysockContext)
    (peer : Bytes × ℕ) (packet : Bytes)
    → Connects r peer packet
    → listen_thread (r ∷ rounds) false s ctx
      ≡ and_then
          (enqueue s (with_peer ctx (some peer)) r.initialised packet)
          (λ queued. listen_thread rounds (not queued.0) queued.1 (with_peer ctx (some peer)))
unfolding listen_thread
connects_lem r rounds s ctx peer packet c =
    rw
      (
        c.ready,
        c.accepted,
        c.received,
        dispatch_lem (length packet) (returns (s, network_packet (with_peer ctx (some peer)) []))
            (and_then (enqueue s (with_peer ctx (some peer)) r.initialised packet)
              (λ queued. listen_thread rounds (not queued.0) queued.1 (with_peer ctx (some peer))))
            c.some_bytes c.fits,
      )
      refl

held_aborts :
    (r : ListenRound) (rounds : List ListenRound) (s : Mysockets) (ctx : MysockContext)
    (peer : Bytes × ℕ)
    → poll_loop r.polls ≡ returns false
    → r.accepts ≡ some peer
    → listen_thread (r ∷ rounds) true s ctx ≡ aborts
unfolding listen_thread
held_aborts r rounds s ctx peer ready accepted = rw (ready, accepted) refl

-- If the first packet of a connection is not taken for a request, because it is no SYN, or one of a
-- peer that already waits, or since there is no free slot, then the next connection fails an assertion
-- of the receive thread, and so ends the program.
pub second_connection_aborts :
    (r r' : ListenRound) (rounds : List ListenRound) (s s' : Mysockets) (ctx : MysockContext)
    (peer peer' : Bytes × ℕ) (packet : Bytes)
    → Connects r peer packet
    → enqueue s (with_peer ctx (some peer)) r.initialised packet ≡ returns (false, s')
    → poll_loop r'.polls ≡ returns false
    → r'.accepts ≡ some peer'
    → listen_thread (r ∷ r' ∷ rounds) false s ctx ≡ aborts
second_connection_aborts r r' rounds s s' ctx peer peer' packet c passed_over ready accepted =
    connects_lem r (r' ∷ rounds) s ctx peer packet c
    ∙ rw passed_over (held_aborts r' rounds s' (with_peer ctx (some peer)) peer' ready accepted)
