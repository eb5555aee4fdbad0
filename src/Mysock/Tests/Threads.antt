-- ===== src/Mysock/Tests/Threads.antt =====
-- Runs of the receive thread on small inputs.
use computer_networks.Prelude.{
  some, ℕ, zero, suc, ◌+◌, ◌≡◌, refl, ap, true, false, List, [], ◌∷◌, ◌++◌, length, arith,
}
use computer_networks.Prelude.Words.{Bytes}
use computer_networks.Mysock.State.{MysockContext, returns, aborts}
use computer_networks.Mysock.Table.{new_context}
use computer_networks.Transport.Segment.{be16}
use computer_networks.Mysock.Framing.{IoCall, moves, network_recv_packet}
use computer_networks.Mysock.Demux.Connections.{Mysockets, mysock_enqueue_connection}
use computer_networks.Mysock.Framing.RoundTrip.{IsConnection, IsWorking}
use computer_networks.Mysock.Receive.{
  Poll, poll_interrupted, events, poll_loop, Round, recv_thread, ListenRound, with_peer,
  listen_thread,
}
use computer_networks.Mysock.Receive.Stream.{
  Delivery, IsDelivery, packets_of, rounds_of, send_packets, packets_arrive,
}
use computer_networks.Mysock.Receive.Held.{Connects, second_connection_aborts}
use computer_networks.Mysock.Receive.Oversize.{oversize_aborts}

abbrev small_moves : List IoCall
small_moves = moves 1 ∷ moves 2 ∷ moves 3 ∷ moves 1 ∷ moves 9 ∷ []

is_connection : IsConnection small_moves 5
is_connection = record {
  working = (omega arith, (omega arith, (omega arith, (omega arith, (omega arith, tt)))));
  enough = omega arith;
}

-- A signal comes first.
abbrev data_ready : List Poll
data_ready = poll_interrupted ∷ events false true ∷ []

abbrev delivery : Bytes → Delivery
delivery packet = record {
  packet = packet;
  writes = small_moves;
  round = record { polls = data_ready; connects = true; calls = small_moves };
}

IsDelivery-three : (a b c : ℕ) → IsDelivery (delivery (a ∷ b ∷ c ∷ []))
unfolding poll_loop
IsDelivery-three a b c = record {
  some_bytes = omega arith;
  fits = omega arith;
  sends = is_connection;
  ready = refl;
  connected = refl;
  receives = is_connection;
}

abbrev two_packets : List Delivery
two_packets = delivery (7 ∷ 8 ∷ 9 ∷ []) ∷ delivery (4 ∷ 5 ∷ 6 ∷ []) ∷ []

packets_arrive_example :
    (sent : Bytes) × (send_packets two_packets [] ≡ returns sent)
    × (recv_thread (rounds_of two_packets ++ []) new_context (sent ++ 0 ∷ [])
        ≡ recv_thread []
            (record new_context {
              network_recv_queue = new_context.network_recv_queue ++ packets_of two_packets;
            })
            (0 ∷ []))
packets_arrive_example =
    packets_arrive two_packets [] new_context (0 ∷ [])
      (IsDelivery-three 7 8 9, (IsDelivery-three 4 5 6, tt))

unfoldable zeros : ℕ → Bytes
zeros zero = []
zeros (suc n) = 0 ∷ zeros n

length-zeros : (n : ℕ) → length (zeros n) ≡ n
unfolding zeros
length-zeros zero = refl
length-zeros (suc n) = ap suc (length-zeros n)

unfoldable single_bytes : ℕ → List IoCall
single_bytes zero = []
single_bytes (suc n) = moves 1 ∷ single_bytes n

length-single_bytes : (n : ℕ) → length (single_bytes n) ≡ n
unfolding single_bytes
length-single_bytes zero = refl
length-single_bytes (suc n) = ap suc (length-single_bytes n)

single_bytes-IsWorking : (n : ℕ) → IsWorking (single_bytes n)
unfolding single_bytes
single_bytes-IsWorking zero = tt
single_bytes-IsWorking (suc n) = (omega arith, single_bytes-IsWorking n)

abbrev long_round : Round
long_round = record { polls = data_ready; connects = true; calls = single_bytes 1503 }

single_bytes-IsConnection : IsConnection (single_bytes 1503) (2 + length (zeros 1501))
single_bytes-IsConnection = record {
  working = single_bytes-IsWorking 1503;
  enough = omega (arith, length-single_bytes 1503, length-zeros 1501);
}

ready_lem : poll_loop data_ready ≡ returns false
unfolding poll_loop
ready_lem = refl

-- A packet of 1501 bytes.
oversize_aborts_example :
    recv_thread (long_round ∷ []) new_context (be16 (length (zeros 1501)) ++ zeros 1501 ++ 0 ∷ [])
    ≡ aborts
oversize_aborts_example =
    oversize_aborts long_round [] new_context (zeros 1501) (0 ∷ []) ready_lem refl
      single_bytes-IsConnection (omega (arith, length-zeros 1501))
      (omega (arith, length-zeros 1501))

abbrev no_mysockets : Mysockets
no_mysockets = record { global_ctx = []; listen_table = [] ∷ [] }

abbrev listening_ctx : MysockContext
listening_ctx = record new_context { listening = true; bound = true }

abbrev peer_a : Bytes × ℕ
peer_a = (2 ∷ 0 ∷ 0 ∷ 80 ∷ 10 ∷ 0 ∷ 0 ∷ 1 ∷ [], 16)

-- A connection that sends three bytes.
abbrev accepted : ListenRound
accepted = record {
  polls = data_ready;
  accepts = some peer_a;
  calls = small_moves;
  stream = be16 3 ++ 7 ∷ 8 ∷ 9 ∷ [];
  initialised = true;
}

accepted-Connects : Connects accepted peer_a (7 ∷ 8 ∷ 9 ∷ [])
unfolding poll_loop network_recv_packet
accepted-Connects = record {
  ready = refl;
  accepted = refl;
  left = ([], moves 1 ∷ moves 9 ∷ []);
  received = refl;
  some_bytes = omega arith;
  fits = omega arith;
}

-- They are too few for a header.
not_taken :
    mysock_enqueue_connection no_mysockets
      (with_peer listening_ctx (some peer_a))
      true
      (7 ∷ 8 ∷ 9 ∷ [])
      peer_a.0
      16
    ≡ returns (false, no_mysockets)
unfolding mysock_enqueue_connection
not_taken = refl

second_connection_aborts_example :
    listen_thread (accepted ∷ accepted ∷ []) false no_mysockets listening_ctx ≡ aborts
second_connection_aborts_example =
    second_connection_aborts accepted accepted [] no_mysockets no_mysockets listening_ctx peer_a
      peer_a (7 ∷ 8 ∷ 9 ∷ []) accepted-Connects not_taken ready_lem refl
