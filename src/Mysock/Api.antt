-- ===== src/Mysock/Api.antt =====
-- The calls of transport-layer/src/mysock_api.c on one mysocket. The condition `ctx != NULL` of
-- each is left out: `_mysock_get_context` has ended the program before. Lengths are below 2 ^ 31,
-- so that an `int` holds them.
pub mod EndOfFile
use computer_networks.Prelude.{
  ℕ, ◌≡◌, min, Bool, true, false, not, Option, none, some, List, [], ◌∷◌, ◌==◌, ltb, if◌then◌else◌,
  length, take,
}
use computer_networks.Prelude.Words.{Bytes, load16}
use computer_networks.Mysock.State.{
  MysockContext, Errno, einval, eisconn, enotconn, eaddrnotavail, Outcome, returns, blocks, aborts,
  Reply, ok, failed, unless_error, and_then, assert_that,
}
use computer_networks.Mysock.Queue.{mysock_enqueue_buffer, Dequeued, mysock_dequeue_buffer}
use computer_networks.Mysock.Table.{Table, mysock_get_context, put_context}

-- `sa_family == AF_INET`.
abbrev pub is_inet : Bytes → Bool
is_inet addr = load16 addr 0 == 2

-- What a call of the network layer gives: `ok 0`, or -1 with `errno`.
unfoldable pub bind_to : Table → Bytes → Reply → MysockContext → Outcome (Reply × Table)
unfolding put_context
bind_to table addr bound ctx =
    if is_inet addr
    then assert_that (not ctx.listening)
        (returns (bound, put_context table (record ctx { bound = true; local_addr = addr })))
    else returns (failed eaddrnotavail, table)

-- `bound` is the result of `_network_bind`.
unfoldable pub mybind : Table → ℕ → Bytes → Reply → Outcome (Reply × Table)
unfolding mysock_get_context bind_to
mybind table sd addr bound = and_then (mysock_get_context table sd) (bind_to table addr bound)

unfoldable pub write_to : Table → Bytes → MysockContext → Outcome (Reply × Table)
unfolding put_context mysock_enqueue_buffer
write_to table buf ctx =
    if ctx.listening
    then returns (failed einval, table)
    else assert_that (not ctx.close_requested) (
        returns (
          ok (length buf),
          put_context table
              (record ctx { app_recv_queue = mysock_enqueue_buffer ctx.app_recv_queue buf }),
        ))

unfoldable pub mywrite : Table → ℕ → Bytes → Outcome (Reply × Table)
unfolding mysock_get_context write_to
mywrite table sd buf = and_then (mysock_get_context table sd) (write_to table buf)

unfoldable pub take_read : Table → MysockContext → Dequeued → Outcome (Reply × Bytes × Table)
unfolding put_context
take_read table ctx d = returns (
  ok d.packet_len,
  d.copied,
  put_context table
      (record ctx { app_send_queue = d.queue; eof = if d.packet_len == 0 then true else ctx.eof }),
)

unfoldable pub read_from : Table → ℕ → MysockContext → Outcome (Reply × Bytes × Table)
unfolding mysock_dequeue_buffer take_read
read_from table buf_len ctx =
    if ctx.listening
    then returns (failed einval, [], table)
    else assert_that (not ctx.close_requested) (
        if ctx.eof
        then returns (ok 0, [], table)
        else and_then (mysock_dequeue_buffer ctx.app_send_queue buf_len true) (take_read table ctx))

-- The result, the bytes put into the caller's buffer, and the table.
unfoldable pub myread : Table → ℕ → ℕ → Outcome (Reply × Bytes × Table)
unfolding mysock_get_context read_from
myread table sd buf_len = and_then (mysock_get_context table sd) (read_from table buf_len)

-- The result, the bytes put into `name`, and what `*namelen` is set to.
unfoldable pub peer_of : ℕ → MysockContext → Outcome (Reply × Bytes × ℕ)
peer_of namelen ctx = returns (
  if ltb 0 ctx.peer_addr_len then ok 0 else failed enotconn,
  take (min namelen ctx.peer_addr_len) ctx.peer_addr,
  ctx.peer_addr_len,
)

unfoldable pub mygetpeername : Table → ℕ → ℕ → Outcome (Reply × Bytes × ℕ)
unfolding mysock_get_context peer_of
mygetpeername table sd namelen = and_then (mysock_get_context table sd) (peer_of namelen)

-- `_mysock_transport_init`: both threads are started, which does not fail.
unfoldable pub mysock_transport_init : Bool → MysockContext → Outcome MysockContext
mysock_transport_init is_active ctx =
    assert_that (not ctx.listening)
      (returns (record ctx { is_active = is_active; transport_thread_started = true }))

-- `_mysock_bind_ephemeral`; `bound` is the result of `_network_bind`, and a failure ends in
-- `assert(0)`.
unfoldable pub mysock_bind_ephemeral : Reply → MysockContext → Outcome MysockContext
mysock_bind_ephemeral (ok n) ctx =
    assert_that (not ctx.bound) (returns (record ctx { bound = true }))
mysock_bind_ephemeral (failed e) ctx = aborts

unfoldable pub bind_if_needed : Reply → MysockContext → Outcome MysockContext
unfolding mysock_bind_ephemeral
bind_if_needed bound ctx = if ctx.bound then returns ctx else mysock_bind_ephemeral bound ctx

-- `_mysock_wait_for_connection`.
unfoldable pub mysock_wait_for_connection : MysockContext → Outcome Reply
unfolding unless_error
mysock_wait_for_connection ctx =
    if ctx.blocking then blocks else returns (unless_error ctx.stcp_errno 0)

unfoldable pub connect_to :
    Table
    → Bytes
    → ℕ
    → Reply
    → (MysockContext → MysockContext)
    → MysockContext
    → Outcome (Reply × Table)
unfolding bind_if_needed mysock_transport_init mysock_wait_for_connection put_context
connect_to table name namelen bound transport_runs ctx =
    if ctx.peer_addr_len == 0
    then and_then
        (bind_if_needed bound
          (record ctx { peer_addr = name; peer_addr_len = namelen; peer_addr_valid = true }))
        (λ ready. and_then (mysock_transport_init true ready) (λ started.
          let after = transport_runs started in
          and_then (mysock_wait_for_connection after)
            (λ reply. returns (reply, put_context table after))))
    else returns (failed eisconn, table)

-- `transport_runs` is what the two threads do to the context while the call waits.
unfoldable pub myconnect :
    Table → ℕ → Bytes → ℕ → Reply → (MysockContext → MysockContext) → Outcome (Reply × Table)
unfolding mysock_get_context connect_to
myconnect table sd name namelen bound transport_runs =
    and_then (mysock_get_context table sd) (connect_to table name namelen bound transport_runs)
