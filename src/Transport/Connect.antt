-- ===== src/Transport/Connect.antt =====
-- `transport_init` of transport-layer/src/transport.c.
pub mod Handshake
use computer_networks.Prelude.{
  ℕ, ◌+◌, ◌%◌, ◌^◌, Bool, true, false, ◌&&◌, Option, none, some, List, [], ◌∷◌, ◌==◌, ltb,
  if◌then◌else◌, length, take,
}
use computer_networks.Prelude.Words.{Bytes, byte}
use computer_networks.Transport.State.{
  ConnectionState, closed, syn_sent, syn_rcvd, established, Context, Socket, Wakeup,
}
use computer_networks.Transport.Segment.{
  header_size, th_syn, th_ack, seg_seq, seg_ack, seg_win, has_syn, has_ack, read32, read16,
  send_packet, is_readable,
}
use computer_networks.Transport.Loop.{control_loop}

-- `RECEIVER_WINDOW_SIZE`.
abbrev pub receiver_window_size : ℕ
receiver_window_size = 3072

-- `generate_initial_seq_num`, without `FIXED_INITNUM`; `random` is the value of `rand()`.
unfoldable pub generate_initial_seq_num : ℕ → ℕ
generate_initial_seq_num random = random % 256

-- The context before the handshake; `calloc` cleared the other fields.
unfoldable pub initial_context : ℕ → Context
initial_context random =
    let isn = generate_initial_seq_num random in
    record {
      is_done = false;
      connection_state = closed;
      initial_sequence_num = isn;
      sequence_num = isn;
      ack_num = 0;
      fin_sent = false;
      fin_received = false;
      fin_acked = false;
      recv_window_size = receiver_window_size;
      recv_buffer_used = 0;
      next_seq_expected = 0;
      peer_window_size = receiver_window_size;
      last_ack_received = isn;
      last_byte_sent = isn;
    }

-- The handshake either fails, with `errno` set to `ECONNREFUSED` and the application unblocked,
-- or leaves an established connection; or the program ends by an assertion on what arrives.
pub data Opened : Type 0 where
  refused : Socket → Opened
  opened : Socket → Opened
  ended : Socket → Opened

unfoldable pub sequence_after : Socket → Socket
sequence_after s = record s {
  ctx = record s.ctx { sequence_num = (s.ctx.sequence_num + 1) % 2 ^ 32 };
}

unfoldable pub in_state : ConnectionState → Socket → Socket
in_state c s = record s { ctx = record s.ctx { connection_state = c } }

-- The peer's first sequence number and its window.
unfoldable pub learn_peer : Bytes → Socket → Socket
learn_peer header s = record s {
  ctx = record s.ctx {
    ack_num = (seg_seq header + 1) % 2 ^ 32;
    peer_window_size = seg_win header;
    next_seq_expected = (seg_seq header + 1) % 2 ^ 32;
  };
}

-- What a wait and a receive into a buffer of one header give: no data, or an empty datagram; a header;
-- or a datagram of another length, at which the program ends.
pub data Arrival : Type 0 where
  no_data : Arrival
  header : Bytes → Arrival
  unreadable : Arrival

unfoldable pub header_of : Option Bytes → Arrival
header_of none = no_data
header_of (some datagram) =
    if length datagram == 0
    then no_data
    else if is_readable header_size datagram
    then header datagram
    else unreadable

-- The answer to the SYN of the active end.
unfoldable pub take_syn_ack : Arrival → Socket → Opened
take_syn_ack no_data s = refused s
take_syn_ack unreadable s = ended s
take_syn_ack (header h) s =
    if (has_syn h && has_ack h) && seg_ack h == s.ctx.sequence_num
    then opened (in_state established (send_packet [] th_ack (learn_peer h s)))
    else refused s

unfoldable pub open_active : Option Bytes → Socket → Opened
open_active answer s =
    take_syn_ack (header_of answer) (sequence_after (send_packet [] th_syn (in_state syn_sent s)))

-- The acknowledgement that the passive end waits for.
unfoldable pub take_last_ack : Arrival → Socket → Opened
take_last_ack no_data s = refused s
take_last_ack unreadable s = ended s
take_last_ack (header h) s =
    if has_ack h && seg_ack h == s.ctx.sequence_num
    then opened
        (in_state established (record s { ctx = record s.ctx { peer_window_size = seg_win h } }))
    else refused s

unfoldable pub take_syn : Arrival → Option Bytes → Socket → Opened
take_syn no_data third s = refused s
take_syn unreadable third s = ended s
take_syn (header h) third s =
    if has_syn h
    then take_last_ack (header_of third)
        (sequence_after (send_packet [] (th_syn + th_ack) (learn_peer h (in_state syn_rcvd s))))
    else refused s

unfoldable pub open_passive : Option Bytes → Option Bytes → Socket → Opened
open_passive first third s = take_syn (header_of first) third s

-- The whole of a connection: `first` and `second` are what the waits of the handshake give.
unfoldable pub transport_init :
    Bool → ℕ → Bytes → Option Bytes → Option Bytes → List Wakeup → Option Socket
transport_init is_active random buf first second ws =
    let s : Socket = record {
      ctx = initial_context random;
      sent = [];
      delivered = [];
      fins_reported = 0;
      buf = buf;
    } in
    elim (if is_active then open_active first s else open_passive first second s) [
      | refused s' ↦ some s'
      | ended s' ↦ none
      | opened s' ↦ control_loop ws s'
    ]
