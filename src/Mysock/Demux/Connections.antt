-- ===== src/Mysock/Demux/Connections.antt =====
-- transport-layer/src/connection_demux.c on both tables.
use computer_networks.Prelude.{
  ℕ, ◌+◌, Bool, true, false, not, ◌&&◌, ◌||◌, Option, none, some, ◌==◌, ltb, if◌then◌else◌, length,
  take,
}
use computer_networks.Prelude.Words.{Bytes}
use computer_networks.Mysock.State.{
  MysockContext, Outcome, returns, aborts, Reply, ok, failed, and_then, assert_that,
}
use computer_networks.Mysock.Table.{Table, mysock_new_mysocket, mysock_get_context, put_context}
use computer_networks.Mysock.HashTable.{HashTable, hash_lookup_ptr, hash_insert, hash_set_entry}
use computer_networks.Mysock.Api.{mysock_transport_init}
use computer_networks.Mysock.Stcp.{network_packet}
use computer_networks.Transport.Segment.{has_syn, header_size}
use computer_networks.Mysock.Demux.Pending.{
  ConnectRequest, ListenQueue, retransmitted, take_slot, fill_request, no_request, complete_request,
  accept_request, set_max_len, new_queue,
}

-- Both tables: `global_ctx` and `listen_table`.
pub record Mysockets : Type 0 where
  pub global_ctx : Table
  pub listen_table : HashTable ListenQueue

-- `_get_connection_queue`.
unfoldable pub get_connection_queue : Mysockets → MysockContext → Outcome (Option ListenQueue)
unfolding hash_lookup_ptr
get_connection_queue s ctx =
    assert_that (ctx.listening && ctx.bound) (returns (hash_lookup_ptr s.listen_table ctx.my_sd))

-- What the code writes through the pointer to a queue.
unfoldable pub put_queue : Mysockets → ℕ → ListenQueue → Mysockets
unfolding hash_set_entry
put_queue s sd q = record s { listen_table = hash_set_entry s.listen_table sd q }

-- The context of a new connection, and its start.
abbrev pub new_connection : ℕ → Bytes → ℕ → MysockContext → MysockContext
new_connection listening_sd peer_addr peer_addr_len ctx = record ctx {
  listen_sd = some listening_sd;
  peer_addr = peer_addr;
  peer_addr_len = peer_addr_len;
  peer_addr_valid = true;
}

-- The rest of `_mysock_enqueue_connection` once slot `k` is free for the request, after
-- `_mysock_new_mysocket`. The transport thread starts, and finds the SYN in its queue. The system's
-- socket, which `_network_update_passive_state` moves to the new context, is left out.
unfoldable pub establish :
    Mysockets → ListenQueue → ℕ → ℕ → Bytes → Bytes → ℕ → Reply × Table → Outcome (Bool × Mysockets)
unfolding no_request fill_request put_queue mysock_get_context mysock_transport_init network_packet
    put_context
establish s q k my_sd packet peer_addr peer_addr_len (failed e, table) =
    returns (false, put_queue (record s { global_ctx = table }) my_sd (no_request q k))
establish s q k my_sd packet peer_addr peer_addr_len (ok sd, table) =
    let request : ConnectRequest = record {
      peer_addr = peer_addr;
      peer_addr_len = peer_addr_len;
      sd = some sd;
    } in
    and_then (mysock_get_context table sd) (λ new_ctx.
      and_then (mysock_transport_init false (new_connection my_sd peer_addr peer_addr_len new_ctx))
        (λ started. returns (
          true,
          put_queue (record s { global_ctx = put_context table (network_packet started packet) })
              my_sd (fill_request q k request),
        )))

unfoldable pub request_slot :
    Mysockets → ListenQueue → ℕ → Bool → Bytes → Bytes → ℕ → Option ℕ → Outcome (Bool × Mysockets)
unfolding mysock_new_mysocket establish
request_slot s q my_sd initialised packet peer_addr peer_addr_len none = returns (false, s)
request_slot s q my_sd initialised packet peer_addr peer_addr_len (some k) =
    and_then (mysock_new_mysocket initialised s.global_ctx)
      (establish s q k my_sd packet peer_addr peer_addr_len)

-- A SYN for a queue that may be there.
unfoldable pub request_in :
    Mysockets → ℕ → Bool → Bytes → Bytes → ℕ → Option ListenQueue → Outcome (Bool × Mysockets)
unfolding retransmitted take_slot request_slot
request_in s my_sd initialised packet peer_addr peer_addr_len none = returns (false, s)
request_in s my_sd initialised packet peer_addr peer_addr_len (some q) =
    and_then (retransmitted peer_addr peer_addr_len (take q.max_len q.connection_queue)) (λ again.
      if again
      then returns (false, s)
      else and_then (take_slot q)
          (request_slot s q my_sd initialised packet peer_addr peer_addr_len))

-- `_mysock_enqueue_connection`; `initialised` says whether `_network_init` of the new mysocket
-- succeeds.
unfoldable pub mysock_enqueue_connection :
    Mysockets → MysockContext → Bool → Bytes → Bytes → ℕ → Outcome (Bool × Mysockets)
unfolding get_connection_queue request_in
mysock_enqueue_connection s ctx initialised packet peer_addr peer_addr_len =
    assert_that (ctx.listening && ctx.bound) (
      assert_that (ltb 0 peer_addr_len) (
        if ltb (length packet) header_size || not (has_syn packet)
        then returns (false, s)
        else and_then (get_connection_queue s ctx)
            (request_in s ctx.my_sd initialised packet peer_addr peer_addr_len)))

unfoldable pub complete_in : Mysockets → ℕ → ℕ → Option ListenQueue → Outcome Mysockets
unfolding complete_request put_queue
complete_in s listening_sd my_sd none = returns s
complete_in s listening_sd my_sd (some q) =
    and_then (complete_request q my_sd) (λ q'. returns (put_queue s listening_sd q'))

-- `_mysock_passive_connection_complete`.
unfoldable pub mysock_passive_connection_complete : Mysockets → MysockContext → Outcome Mysockets
unfolding mysock_get_context get_connection_queue complete_in
mysock_passive_connection_complete s ctx = elim ctx.listen_sd [
  | none ↦ aborts
  | some listening_sd ↦ and_then (mysock_get_context s.global_ctx listening_sd) (λ listener.
      and_then (get_connection_queue s listener) (complete_in s listening_sd ctx.my_sd))
]

unfoldable pub context_of_request :
    Mysockets → ℕ → Option ℕ × ListenQueue → Outcome (MysockContext × Mysockets)
unfolding mysock_get_context put_queue
context_of_request s my_sd (none, q') = aborts
context_of_request s my_sd (some sd, q') =
    and_then (mysock_get_context s.global_ctx sd)
      (λ new_ctx. returns (new_ctx, put_queue s my_sd q'))

unfoldable pub accept_in : Mysockets → ℕ → Option ListenQueue → Outcome (MysockContext × Mysockets)
unfolding accept_request context_of_request
accept_in s my_sd none = aborts
accept_in s my_sd (some q) = and_then (accept_request q) (context_of_request s my_sd)

-- `_mysock_dequeue_connection`.
unfoldable pub mysock_dequeue_connection :
    Mysockets → MysockContext → Outcome (MysockContext × Mysockets)
unfolding get_connection_queue accept_in
mysock_dequeue_connection s ctx = and_then (get_connection_queue s ctx) (accept_in s ctx.my_sd)

-- `_mysock_set_backlog`; `local_port` is `_network_get_port` in host byte order. A backlog is below
-- 2 ^ 32 - 1.
unfoldable pub backlog_in : Mysockets → ℕ → ℕ → ℕ → Option ListenQueue → Outcome Mysockets
unfolding set_max_len put_queue hash_insert
backlog_in s my_sd local_port backlog none = returns (record s {
  listen_table =
      hash_insert s.listen_table my_sd (set_max_len (new_queue local_port) (backlog + 1));
})
backlog_in s my_sd local_port backlog (some q) =
    assert_that (q.local_port == local_port)
      (returns (put_queue s my_sd (set_max_len q (backlog + 1))))

unfoldable pub mysock_set_backlog : Mysockets → MysockContext → ℕ → ℕ → Outcome Mysockets
unfolding get_connection_queue backlog_in
mysock_set_backlog s ctx local_port backlog =
    assert_that (ltb 0 local_port)
      (and_then (get_connection_queue s ctx) (backlog_in s ctx.my_sd local_port backlog))
