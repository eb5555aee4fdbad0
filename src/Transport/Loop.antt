-- ===== src/Transport/Loop.antt =====
-- `control_loop` of transport-layer/src/transport.c.
pub mod Stream
pub mod Delivery
pub mod States
pub mod Closing
pub mod LostData
use computer_networks.Prelude.{
  ℕ, zero, suc, ◌+◌, ◌-◌, ◌*◌, ◌/◌, ◌%◌, ◌^◌, Bool, true, false, ◌&&◌, Option, none, some, List, [],
  ◌∷◌, ◌++◌, ◌==◌, ltb, leb, if◌then◌else◌, length, take,
}
use computer_networks.Prelude.Words.{Bytes, byte, slice, put}
use computer_networks.Transport.State.{
  ConnectionState, closed, syn_sent, syn_rcvd, established, fin_wait_1, fin_wait_2, closing,
  close_wait, last_ack, Context, Socket, Wakeup,
}
use computer_networks.Transport.Segment.{
  header_size, stcp_mss, th_fin, th_ack, seg_seq, seg_ack, seg_win, has_fin, has_ack, data_start,
  read32, read16, send_packet, is_readable,
}

-- `peer_window_size - (last_byte_sent - last_ack_received)` in 32 bits, at most one segment.
unfoldable pub max_to_send : Context → ℕ
max_to_send ctx =
    let in_flight = (ctx.last_byte_sent + 2 ^ 32 - ctx.last_ack_received) % 2 ^ 32 in
    let room = (ctx.peer_window_size + 2 ^ 32 - in_flight) % 2 ^ 32 in
    if ltb stcp_mss room then stcp_mss else room

-- The `APP_DATA` event. `stcp_app_recv` gives as much of what is offered as was asked for; for
-- nothing read nothing is sent.
unfoldable pub send_app_data : Bytes → Socket → Socket
send_app_data offered s =
    let app_buf = take (max_to_send s.ctx) offered in
    let s' = send_packet app_buf th_ack s in
    if ltb 0 (length app_buf)
    then record s' {
      ctx = record s.ctx { sequence_num = (s.ctx.sequence_num + length app_buf) % 2 ^ 32 };
    }
    else s

-- The new state when a FIN arrives. In `FIN_WAIT_2` the state stays, and the loop is done.
unfoldable pub fin_state : ConnectionState → ConnectionState
fin_state established = close_wait
fin_state fin_wait_1 = closing
fin_state closed = closed
fin_state syn_sent = syn_sent
fin_state syn_rcvd = syn_rcvd
fin_state fin_wait_2 = fin_wait_2
fin_state closing = closing
fin_state close_wait = close_wait
fin_state last_ack = last_ack

unfoldable pub fin_ends : ConnectionState → Bool
fin_ends fin_wait_2 = true
fin_ends closed = false
fin_ends syn_sent = false
fin_ends syn_rcvd = false
fin_ends established = false
fin_ends fin_wait_1 = false
fin_ends closing = false
fin_ends close_wait = false
fin_ends last_ack = false

-- The FIN is acknowledged first, then the application is told, then the state changes.
unfoldable pub handle_fin : ℕ → Socket → Socket
handle_fin recv_seq s =
    let acked = send_packet [] th_ack (record s {
      ctx = record s.ctx { fin_received = true; ack_num = (recv_seq + 1) % 2 ^ 32 };
    }) in
    record acked {
      fins_reported = acked.fins_reported + 1;
      ctx = record acked.ctx {
        connection_state = fin_state acked.ctx.connection_state;
        is_done = if fin_ends acked.ctx.connection_state then true else acked.ctx.is_done;
      };
    }

-- An acknowledgement of everything that was sent, by the state that waits for it.
unfoldable pub fin_acked_in : ConnectionState → Context → Context
fin_acked_in fin_wait_1 ctx = record ctx { fin_acked = true; connection_state = fin_wait_2 }
fin_acked_in closing ctx = record ctx { fin_acked = true; is_done = true }
fin_acked_in last_ack ctx = record ctx {
  fin_acked = true;
  connection_state = closed;
  is_done = true;
}
fin_acked_in closed ctx = ctx
fin_acked_in syn_sent ctx = ctx
fin_acked_in syn_rcvd ctx = ctx
fin_acked_in established ctx = ctx
fin_acked_in fin_wait_2 ctx = ctx
fin_acked_in close_wait ctx = ctx

unfoldable pub handle_ack : ℕ → Socket → Socket
handle_ack recv_ack s =
    if recv_ack == s.ctx.sequence_num
    then record s { ctx = fin_acked_in s.ctx.connection_state s.ctx }
    else s

-- `bytes_received - TCP_DATA_START(buf)` on `size_t`.
unfoldable pub data_len : ℕ → Bytes → ℕ
data_len bytes_received buf = (bytes_received + 2 ^ 64 - data_start buf) % 2 ^ 64

-- The data is passed up, and what was buffered for it is free again.
unfoldable pub pass_up : ℕ → ℕ → Socket → Socket
pass_up recv_seq n s =
    let used = (s.ctx.recv_buffer_used + n) % 2 ^ 16 in
    send_packet [] th_ack (record s {
      delivered = s.delivered ++ slice s.buf (data_start s.buf) n ∷ [];
      ctx = record s.ctx {
        next_seq_expected = (recv_seq + n) % 2 ^ 32;
        recv_buffer_used = (used + 2 ^ 64 - n) % 2 ^ 16;
        ack_num = (s.ctx.ack_num + n) % 2 ^ 32;
      };
    })

-- What is not passed up goes on counting as buffered.
unfoldable pub hold_back : ℕ → Socket → Socket
hold_back n s = send_packet [] th_ack (record s {
  ctx = record s.ctx {
    recv_buffer_used = (s.ctx.recv_buffer_used + n) % 2 ^ 16;
    ack_num = (s.ctx.ack_num + n) % 2 ^ 32;
  };
})

-- The data is passed up if it starts where the next is expected. `none`: the data is read past
-- the end of the buffer.
unfoldable pub accept_data : ℕ → ℕ → Socket → Option Socket
accept_data recv_seq n s =
    if recv_seq == s.ctx.next_seq_expected
    then if leb (data_start s.buf + n) (length s.buf) then some (pass_up recv_seq n s) else none
    else some (hold_back n s)

unfoldable pub handle_data : ℕ → ℕ → Socket → Option Socket
handle_data bytes_received recv_seq s =
    let n = data_len bytes_received s.buf in
    if ltb 0 n
    then if recv_seq == s.ctx.ack_num
      then accept_data recv_seq n s
      else some (send_packet [] th_ack s)
    else some s

-- A datagram is in the buffer: the window, the FIN, the acknowledgement, the data.
unfoldable pub handle_segment : ℕ → Socket → Option Socket
handle_segment bytes_received s =
    let s₁ = record s { ctx = record s.ctx { peer_window_size = seg_win s.buf } } in
    let s₂ = if has_fin s.buf then handle_fin (seg_seq s.buf) s₁ else s₁ in
    let s₃ = if has_ack s.buf then handle_ack (seg_ack s.buf) s₂ else s₂ in
    handle_data bytes_received (seg_seq s.buf) s₃

-- `stcp_network_recv` fills the front of the buffer.
unfoldable pub network_recv : Bytes → Socket → Socket
network_recv datagram s = record s { buf = put 0 datagram s.buf }

-- `stcp_network_recv` failed. Only an established connection is given up.
unfoldable pub lost : ConnectionState → Context → Context
lost established ctx = record ctx { connection_state = closed; is_done = true }
lost closed ctx = ctx
lost syn_sent ctx = ctx
lost syn_rcvd ctx = ctx
lost fin_wait_1 ctx = ctx
lost fin_wait_2 ctx = ctx
lost closing ctx = ctx
lost close_wait ctx = ctx
lost last_ack ctx = ctx

unfoldable pub close_state : ConnectionState → ConnectionState
close_state established = fin_wait_1
close_state close_wait = last_ack
close_state closed = closed
close_state syn_sent = syn_sent
close_state syn_rcvd = syn_rcvd
close_state fin_wait_1 = fin_wait_1
close_state fin_wait_2 = fin_wait_2
close_state closing = closing
close_state last_ack = last_ack

-- The `APP_CLOSE_REQUESTED` event.
unfoldable pub request_close : Socket → Socket
request_close s =
    let finned =
      send_packet [] (th_fin + th_ack) (record s { ctx = record s.ctx { fin_sent = true } }) in
    if s.ctx.fin_sent then s else record finned {
      ctx = record finned.ctx {
        sequence_num = (finned.ctx.sequence_num + 1) % 2 ^ 32;
        connection_state = close_state finned.ctx.connection_state;
      };
    }

abbrev pub and_then : Option Socket → (Socket → Option Socket) → Option Socket
and_then none f = none
and_then (some s) f = f s

unfoldable pub on_close : Bool → Socket → Option Socket
on_close requested s = some (if requested then request_close s else s)

-- One round of the loop. A failed receive skips the rest of the round. `none` stands for a failed
-- assertion, too.
unfoldable pub iteration : Wakeup → Socket → Option Socket
iteration w s =
    let s₁ = if w.app_data then send_app_data w.offered s else s in
    if w.network_data
    then if length w.datagram == 0
      then some (record s₁ { ctx = lost s₁.ctx.connection_state s₁.ctx })
      else if is_readable (stcp_mss + header_size) w.datagram
      then and_then (handle_segment (length w.datagram) (network_recv w.datagram s₁))
          (on_close w.close_requested)
      else none
    else on_close w.close_requested s₁

-- The loop over the wakeups that come; with no more to come, the call to wait does not return.
unfoldable pub control_loop : List Wakeup → Socket → Option Socket
control_loop [] s = some s
control_loop (w ∷ ws) s =
    if s.ctx.is_done then some s else and_then (iteration w s) (control_loop ws)
