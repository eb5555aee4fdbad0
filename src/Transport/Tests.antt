-- ===== src/Transport/Tests.antt =====
-- Runs of the transport on small inputs.
use computer_networks.Prelude.{
  ℕ, zero, suc, ◌+◌, ◌-◌, ◌%◌, ◌^◌, ◌<◌, ◌≡◌, refl, ap, inr, true, false, some, List, [], ◌∷◌,
  length, drop, arith,
}
use computer_networks.Prelude.Words.Slices.{joined}
use computer_networks.Prelude.Words.{Bytes, byte, put, le16}
use computer_networks.Transport.State.{established, fin_wait_1, Context, Socket, Wakeup}
use computer_networks.Transport.Segment.{
  send_packet, segment, th_ack, th_fin, seg_seq, seg_ack, seg_win, data_start, header_size,
}
use computer_networks.Transport.Segment.Fields.{segment_fields}
use computer_networks.Transport.Loop.{
  control_loop, iteration, on_close, request_close, close_state, handle_segment,
}
use computer_networks.Transport.Loop.Stream.{IsPiece, IsFollowing}
use computer_networks.Transport.Loop.Delivery.{control_loop-follows}
use computer_networks.Transport.Loop.States.{IsConsistent, open_both}
use computer_networks.Transport.Loop.Closing.{control_loop-IsConsistent}
use computer_networks.Transport.Loop.LostData.{fin_drops_data}
use computer_networks.Mysock.State.{returns}
use computer_networks.Transport.TcpSum.{
  header_words, pseudo_header, mysock_set_checksum, mysock_verify_checksum,
}
use computer_networks.Transport.TcpSum.AllOnes.{all_words, set_verifies}
use computer_networks.Transport.Connect.{opened, open_active, open_passive}
use computer_networks.Transport.Connect.Handshake.{
  fresh, syn, syn_ack, last_ack_segment, handshake_agrees,
}

unfoldable zeros : ℕ → Bytes
zeros zero = []
zeros (suc n) = 0 ∷ zeros n

length-zeros : (n : ℕ) → length (zeros n) ≡ n
unfolding zeros
length-zeros zero = refl
length-zeros (suc n) = ap suc (length-zeros n)

-- An established connection that expects 500 next.
abbrev open_context : Context
open_context = record {
  is_done = false;
  connection_state = established;
  initial_sequence_num = 10;
  sequence_num = 11;
  ack_num = 500;
  fin_sent = false;
  fin_received = false;
  fin_acked = false;
  recv_window_size = 3072;
  recv_buffer_used = 0;
  next_seq_expected = 500;
  peer_window_size = 3072;
  last_ack_received = 10;
  last_byte_sent = 10;
}

abbrev open_socket : Bytes → Socket
open_socket buf = record {
  ctx = open_context;
  sent = [];
  delivered = [];
  fins_reported = 0;
  buf = buf;
}

segment_fields_example :
    (seg_seq (segment open_context (1 ∷ 2 ∷ []) th_ack) ≡ 11)
    × (seg_ack (segment open_context (1 ∷ 2 ∷ []) th_ack) ≡ 500)
    × (byte (segment open_context (1 ∷ 2 ∷ []) th_ack) 13 ≡ th_ack)
    × (seg_win (segment open_context (1 ∷ 2 ∷ []) th_ack) ≡ 3072 - 0)
    × (data_start (segment open_context (1 ∷ 2 ∷ []) th_ack) ≡ header_size)
    × (drop header_size (segment open_context (1 ∷ 2 ∷ []) th_ack) ≡ 1 ∷ 2 ∷ [])
segment_fields_example =
    segment_fields open_context (1 ∷ 2 ∷ []) th_ack (omega arith) (omega arith) (omega arith)
      (omega arith)

-- The peer's stream, and its two bytes in two segments.
abbrev two_bytes : Bytes
two_bytes = 65 ∷ 66 ∷ []

abbrev first_piece : Bytes
first_piece =
    0 ∷ 0 ∷ 0 ∷ 0 ∷ 0 ∷ 0 ∷ 1 ∷ 244 ∷ 0 ∷ 0 ∷ 0 ∷ 11 ∷ 80 ∷ 16 ∷ 12 ∷ 0 ∷ 0 ∷ 0 ∷ 0 ∷ 0 ∷ 65 ∷ []

abbrev second_piece : Bytes
second_piece =
    0 ∷ 0 ∷ 0 ∷ 0 ∷ 0 ∷ 0 ∷ 1 ∷ 245 ∷ 0 ∷ 0 ∷ 0 ∷ 11 ∷ 80 ∷ 16 ∷ 12 ∷ 0 ∷ 0 ∷ 0 ∷ 0 ∷ 0 ∷ 66 ∷ []

abbrev arrival : Bytes → Wakeup
arrival d = record {
  app_data = true;
  network_data = true;
  close_requested = false;
  offered = 1 ∷ 2 ∷ 3 ∷ [];
  datagram = d;
}

first-IsPiece : IsPiece 500 two_bytes first_piece
first-IsPiece = record {
  offset = 0;
  at_least = omega arith;
  at_most = omega arith;
  no_options = refl;
  no_fin = refl;
  numbered = refl;
  inside = omega arith;
  carries = refl;
}

second-IsPiece : IsPiece 500 two_bytes second_piece
second-IsPiece = record {
  offset = 1;
  at_least = omega arith;
  at_most = omega arith;
  no_options = refl;
  no_fin = refl;
  numbered = refl;
  inside = omega arith;
  carries = refl;
}

-- The second piece comes too early, then both in order, with the first repeated.
abbrev arrivals : List Wakeup
arrivals =
    arrival second_piece ∷ arrival first_piece ∷ arrival first_piece ∷ arrival second_piece ∷ []

following : IsFollowing 500 two_bytes (open_socket (zeros 556))
unfolding joined
following = record {
  got = 0;
  within = omega arith;
  prefix = refl;
  acked = refl;
  expected = refl;
  room = length-zeros 556;
}

control_loop-follows_example :
    (s' : Socket) × (control_loop arrivals (open_socket (zeros 556)) ≡ some s')
    × IsFollowing 500 two_bytes s'
control_loop-follows_example =
    control_loop-follows 500 two_bytes arrivals (open_socket (zeros 556)) (omega arith)
      (inr second-IsPiece, (inr first-IsPiece, (inr first-IsPiece, (inr second-IsPiece, tt))))
      following

-- The application asks to close, and the peer acknowledges nothing.
abbrev asks_to_close : Wakeup
asks_to_close = record {
  app_data = false;
  network_data = false;
  close_requested = true;
  offered = [];
  datagram = [];
}

abbrev closing_socket : Socket
closing_socket = record (open_socket []) {
  ctx = record open_context { fin_sent = true; sequence_num = 12; connection_state = fin_wait_1 };
  sent = segment (record open_context { fin_sent = true }) [] (th_fin + th_ack) ∷ [];
}

control_loop-IsConsistent_example : IsConsistent closing_socket.ctx fin_wait_1
control_loop-IsConsistent_example =
    control_loop-IsConsistent (asks_to_close ∷ []) (open_socket []) closing_socket
      (open_both refl refl refl refl)
      (unfold control_loop iteration on_close request_close send_packet close_state in refl)

-- A FIN with one byte of data.
abbrev fin_piece : Bytes
fin_piece =
    0 ∷ 0 ∷ 0 ∷ 0 ∷ 0 ∷ 0 ∷ 1 ∷ 244 ∷ 0 ∷ 0 ∷ 0 ∷ 11 ∷ 80 ∷ 17 ∷ 12 ∷ 0 ∷ 0 ∷ 0 ∷ 0 ∷ 0 ∷ 65 ∷ []

fin_drops_data_example :
    (s' : Socket) × (handle_segment 21 (open_socket fin_piece) ≡ some s')
    × (s'.delivered ≡ [])
    × (s'.ctx.ack_num ≡ (seg_seq fin_piece + 1) % 2 ^ 32)
fin_drops_data_example = fin_drops_data 21 (open_socket fin_piece) refl (omega arith)

handshake_agrees_example :
    (a : Socket) × (p : Socket) × (open_active
        (some (syn_ack 300 7 (zeros 556) (zeros 556)))
        (fresh 300 (zeros 556))
      ≡ opened a)
    × (open_passive
          (some (syn 300 7 (zeros 556) (zeros 556)))
          (some (last_ack_segment 300 7 (zeros 556) (zeros 556)))
          (fresh 7 (zeros 556))
        ≡ opened p)
    × (a.sent
        ≡ syn 300 7 (zeros 556) (zeros 556) ∷ last_ack_segment 300 7 (zeros 556) (zeros 556) ∷ [])
    × (p.sent ≡ syn_ack 300 7 (zeros 556) (zeros 556) ∷ [])
    × (a.ctx.connection_state ≡ established)
    × (p.ctx.connection_state ≡ established)
    × IsFollowing p.ctx.sequence_num two_bytes a
    × IsFollowing a.ctx.sequence_num [] p
handshake_agrees_example =
    handshake_agrees 300 7 (zeros 556) (zeros 556) [] two_bytes (length-zeros 556)
      (length-zeros 556)

set_verifies_example :
    (sum : ℕ) × (sum < 2 ^ 16)
    × (mysock_set_checksum 33554442 16777226 first_piece ≡ returns (put 16 (le16 sum) first_piece))
    × ((header_words (pseudo_header 33554442 16777226 21)
            + all_words (put 16 (le16 sum) first_piece))
          % 65535
        ≡ 0)
    × (mysock_verify_checksum 16777226 33554442 (put 16 (le16 sum) first_piece) ≡ returns true)
set_verifies_example =
    set_verifies 33554442 16777226 first_piece (omega arith) (omega arith) (ground arith)
      (omega arith) (omega arith)
