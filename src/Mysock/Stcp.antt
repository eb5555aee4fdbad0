-- ===== src/Mysock/Stcp.antt =====
-- The interface of transport-layer/src/stcp_api.c to the transport, on the context of its mysocket,
-- and the end of the transport thread in mysock.c.
pub mod Send
pub mod Waiting
use computer_networks.Prelude.{
  ℕ, ◌+◌, ◌/◌, ◌%◌, ◌≡◌, Bool, true, false, not, ◌&&◌, ◌||◌, Option, none, some, List, [], ◌∷◌,
  ◌++◌, ◌==◌, ltb, leb, if◌then◌else◌, length,
}
use computer_networks.Prelude.Words.{Bytes, byte, load16, load32, put, slice}
use computer_networks.Mysock.State.{
  MysockContext, PacketQueue, Errno, no_error, eintr, econnrefused, econnaborted, Outcome, returns,
  blocks, aborts, and_then, assert_that,
}
use computer_networks.Mysock.Queue.{mysock_enqueue_buffer, Dequeued, mysock_dequeue_buffer}
use computer_networks.Mysock.Api.{is_inet}
use computer_networks.Transport.TcpSum.{mysock_set_checksum, mysock_verify_checksum}

unfoldable pub without_eintr : Errno → Errno
without_eintr eintr = no_error
without_eintr e = e

-- `stcp_unblock_application`, up to the move of a passive connection to the completed ones.
unfoldable pub stcp_unblock_application : Errno → MysockContext → Outcome MysockContext
unfolding without_eintr
stcp_unblock_application errno ctx =
    assert_that ctx.blocking
      (returns (record ctx { blocking = false; stcp_errno = without_eintr errno }))

abbrev pub app_data : ℕ
app_data = 1

abbrev pub network_data : ℕ
network_data = 2

abbrev pub app_close_requested : ℕ
app_close_requested = 4

-- `queue.head != NULL`.
abbrev pub has_node : PacketQueue → Bool
has_node pq = ltb 0 (length pq)

-- A bit of `rc`. The three are different, so `|=` adds.
abbrev pub event : Bool → ℕ → ℕ
event b bit = if b then bit else 0

abbrev pub app_ready : ℕ → MysockContext → Bool
app_ready flags ctx = flags % 2 == 1 && has_node ctx.app_recv_queue

abbrev pub network_ready : ℕ → MysockContext → Bool
network_ready flags ctx = flags / 2 % 2 == 1 && has_node ctx.network_recv_queue

-- The request is passed on only once all data from the application was.
abbrev pub close_ready : MysockContext → Bool
close_ready ctx = ctx.close_requested && not (has_node ctx.app_recv_queue)

-- The tests of one round of `stcp_wait_for_event`.
unfoldable pub look : ℕ → MysockContext → ℕ × MysockContext
look flags ctx = (
  event (app_ready flags ctx) app_data
      + event (network_ready flags ctx) network_data
      + event (close_ready ctx) app_close_requested,
  record ctx { close_requested = if close_ready ctx then false else ctx.close_requested },
)

-- How a wait on `data_ready_cond` ends, and what other threads did to the context meanwhile: it is
-- woken, or ended by the time limit of a call that has an `abstime`.
pub data Waking : Type 0 where
  woken : (MysockContext → MysockContext) → Waking
  timed_out : (MysockContext → MysockContext) → Waking

-- `stcp_wait_for_event`, with the ends of its waits. With no more of them it waits on.
unfoldable pub stcp_wait_for_event : ℕ → MysockContext → List Waking → Outcome (ℕ × MysockContext)
unfolding look
stcp_wait_for_event flags ctx [] =
    let seen = look flags ctx in if seen.0 == 0 then blocks else returns seen
stcp_wait_for_event flags ctx (woken others ∷ wakings) =
    let seen = look flags ctx in
    let on = stcp_wait_for_event flags (others seen.1) wakings in
    if seen.0 == 0 then on else returns seen
stcp_wait_for_event flags ctx (timed_out others ∷ wakings) =
    let seen = look flags ctx in if seen.0 == 0 then returns (0, others seen.1) else returns seen

-- `stcp_app_recv`: the bytes and the context.
unfoldable pub stcp_app_recv : MysockContext → ℕ → Outcome (Bytes × MysockContext)
unfolding mysock_dequeue_buffer
stcp_app_recv ctx max_len =
    and_then (mysock_dequeue_buffer ctx.app_recv_queue max_len true)
      (λ d. returns (d.copied, record ctx { app_recv_queue = d.queue }))

unfoldable pub stcp_app_send : MysockContext → Bytes → MysockContext
unfolding mysock_enqueue_buffer
stcp_app_send ctx src =
    if ltb 0 (length src)
    then record ctx { app_send_queue = mysock_enqueue_buffer ctx.app_send_queue src }
    else ctx

unfoldable pub stcp_fin_received : MysockContext → MysockContext
unfolding mysock_enqueue_buffer
stcp_fin_received ctx = record ctx { app_send_queue = mysock_enqueue_buffer ctx.app_send_queue [] }

-- What the network layer's thread does with a packet of a connection.
unfoldable pub network_packet : MysockContext → Bytes → MysockContext
unfolding mysock_enqueue_buffer
network_packet ctx packet = record ctx {
  network_recv_queue = mysock_enqueue_buffer ctx.network_recv_queue packet;
}

-- `_network_recv`: a datagram is not left in part. The result is its length, also where only
-- `max_len` bytes of it were copied.
unfoldable pub network_recv : MysockContext → ℕ → Outcome (ℕ × Bytes × MysockContext)
unfolding mysock_dequeue_buffer
network_recv ctx max_len =
    and_then (mysock_dequeue_buffer ctx.network_recv_queue max_len false)
      (λ d. returns (d.packet_len, d.copied, record ctx { network_recv_queue = d.queue }))

-- `sin_port` as stored, and `sin_addr.s_addr`, of a `struct sockaddr_in`.
abbrev pub sin_port : Bytes → Bytes
sin_port addr = slice addr 2 2

abbrev pub sin_addr : Bytes → ℕ
sin_addr addr = load32 addr 4

-- `guessed` takes the place of an `errno` that says nothing.
unfoldable pub bail_out : Errno → Bool → Errno
bail_out no_error is_active = if is_active then econnrefused else econnaborted
bail_out eintr is_active = if is_active then econnrefused else econnaborted
bail_out e is_active = e

-- The end of `transport_thread_func`, after `transport_init` has returned with `errno`.
unfoldable pub transport_thread_end : Errno → MysockContext → Outcome MysockContext
unfolding bail_out stcp_unblock_application mysock_enqueue_buffer
transport_thread_end errno ctx =
    and_then
      (if ctx.blocking
        then stcp_unblock_application (bail_out errno ctx.is_active) ctx
        else returns ctx)
      (λ after.
        returns (record after { app_send_queue = mysock_enqueue_buffer after.app_send_queue [] }))
