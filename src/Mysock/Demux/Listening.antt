-- ===== src/Mysock/Demux/Listening.antt =====
-- `mylisten`, `myaccept` and `myclose` of transport-layer/src/mysock_api.c, and
-- `_mysock_close_passive_socket`.
use computer_networks.Prelude.{
  ℕ, Bool, true, false, not, ◌&&◌, ◌||◌, Option, none, some, List, [], ◌∷◌, ltb, if◌then◌else◌,
  take,
}
use computer_networks.Prelude.Words.{Bytes}
use computer_networks.Mysock.State.{
  MysockContext, Errno, no_error, einval, Outcome, returns, Reply, ok, failed, unless_error,
  and_then, assert_that,
}
use computer_networks.Mysock.Table.{mysock_get_context, mysock_free_context, put_context}
use computer_networks.Mysock.HashTable.{hash_delete}
use computer_networks.Mysock.Demux.Pending.{ConnectRequest, ListenQueue, holds_sd}
use computer_networks.Mysock.Demux.Connections.{
  Mysockets, get_connection_queue, mysock_dequeue_connection, mysock_set_backlog,
}

-- `listened` is the result of `listen`; the receive thread always starts.
unfoldable pub listen_on : Mysockets → ℕ → ℕ → Reply → MysockContext → Outcome (Reply × Mysockets)
unfolding put_context mysock_set_backlog
listen_on s local_port backlog listened ctx = assert_that ctx.bound (
    let ctx' = record ctx { listening = true } in
    and_then
      (mysock_set_backlog (record s { global_ctx = put_context s.global_ctx ctx' }) ctx' local_port
        backlog)
      (λ s'. returns (listened, s')))

unfoldable pub mylisten : Mysockets → ℕ → ℕ → ℕ → Reply → Outcome (Reply × Mysockets)
unfolding mysock_get_context listen_on
mylisten s sd local_port backlog listened =
    and_then (mysock_get_context s.global_ctx sd) (listen_on s local_port backlog listened)

-- What is written to `*addr`.
unfoldable pub accepted_addr : Errno → Bytes → Bytes
accepted_addr no_error addr = addr
accepted_addr e addr = []

unfoldable pub is_set : Errno → Bool
is_set no_error = false
is_set e = true

-- The result, the peer's address, and the tables.
unfoldable pub accepted_as : ℕ → MysockContext × Mysockets → Outcome (Reply × Bytes × Mysockets)
unfolding unless_error accepted_addr is_set
accepted_as sd (ctx, s) = assert_that (is_set ctx.stcp_errno || ltb 0 ctx.peer_addr_len) (
    assert_that (holds_sd sd ctx.listen_sd) (
      returns
        (unless_error ctx.stcp_errno ctx.my_sd, accepted_addr ctx.stcp_errno ctx.peer_addr, s)))

unfoldable pub accept_on : Mysockets → ℕ → MysockContext → Outcome (Reply × Bytes × Mysockets)
unfolding mysock_dequeue_connection accepted_as
accept_on s sd accept_ctx =
    if accept_ctx.listening
    then and_then (mysock_dequeue_connection s accept_ctx) (accepted_as sd)
    else returns (failed einval, [], s)

unfoldable pub myaccept : Mysockets → ℕ → Outcome (Reply × Bytes × Mysockets)
unfolding mysock_get_context accept_on
myaccept s sd = and_then (mysock_get_context s.global_ctx sd) (accept_on s sd)

-- The assertions before a transport thread is joined.
abbrev pub may_join : MysockContext → Bool
may_join ctx =
    if ctx.transport_thread_started
    then not ctx.listening
      && (ctx.is_active || elim ctx.listen_sd [ none ↦ false | some sd ↦ true ])
    else true

-- `myclose` of a connection that was not accepted: it does not listen. `others` is what the
-- threads do until they are joined.
unfoldable pub close_pending : (Mysockets → Mysockets) → Mysockets → ℕ → Outcome Mysockets
unfolding mysock_get_context mysock_free_context
close_pending others s sd = and_then (mysock_get_context s.global_ctx sd) (λ ctx.
    assert_that (may_join ctx) (
      let s' = others s in
      returns (record s' { global_ctx = mysock_free_context s'.global_ctx ctx })))

unfoldable pub close_used : (Mysockets → Mysockets) → Mysockets → Option ℕ → Outcome Mysockets
unfolding close_pending
close_used others s none = returns s
close_used others s (some sd) = close_pending others s sd

unfoldable pub close_requests :
    (Mysockets → Mysockets) → List ConnectRequest → Mysockets → Outcome Mysockets
unfolding close_used
close_requests others [] s = returns s
close_requests others (r ∷ rs) s = and_then (close_used others s r.sd) (close_requests others rs)

unfoldable pub close_queue :
    (Mysockets → Mysockets) → Mysockets → ℕ → Option ListenQueue → Outcome Mysockets
unfolding close_requests hash_delete
close_queue others s my_sd none = returns s
close_queue others s my_sd (some q) =
    and_then (close_requests others (take q.max_len q.connection_queue) s) (λ s'.
      and_then (hash_delete s'.listen_table my_sd)
        (λ listen_table. returns (record s' { listen_table = listen_table })))

-- `_mysock_close_passive_socket`.
unfoldable pub mysock_close_passive_socket :
    (Mysockets → Mysockets) → Mysockets → MysockContext → Outcome Mysockets
unfolding get_connection_queue close_queue
mysock_close_passive_socket others s ctx =
    and_then (get_connection_queue s ctx) (close_queue others s ctx.my_sd)

unfoldable pub close_context :
    (Mysockets → Mysockets) → Mysockets → MysockContext → Outcome (Reply × Mysockets)
unfolding mysock_close_passive_socket mysock_free_context
close_context others s ctx = assert_that (may_join ctx) (
    let s' = others s in
    and_then (if ctx.listening then mysock_close_passive_socket others s' ctx else returns s')
      (λ s''. returns (ok 0, record s'' { global_ctx = mysock_free_context s''.global_ctx ctx })))

unfoldable pub myclose : (Mysockets → Mysockets) → Mysockets → ℕ → Outcome (Reply × Mysockets)
unfolding mysock_get_context close_context
myclose others s sd = and_then (mysock_get_context s.global_ctx sd) (close_context others s)
