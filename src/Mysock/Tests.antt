-- ===== src/Mysock/Tests.antt =====
-- Runs of the socket layer on small inputs.
mod Links
mod Threads
use computer_networks.Prelude.{
  ℕ, zero, suc, ◌+◌, ◌≡◌, ◌≢◌, ◌≤◌, ◌<◌, ◌⊎◌, inl, inr, refl, ap, Bool, true, false, Option, none,
  some, List, [], ◌∷◌, ◌++◌, ◌==◌, length, get_or, take, arith, All,
}
use computer_networks.Prelude.Words.{Bytes}
use computer_networks.Prelude.Words.Slices.{joined}
use computer_networks.Mysock.State.{
  MysockContext, PacketQueue, emfile, Outcome, returns, Reply, ok, failed,
}
use computer_networks.Mysock.Queue.{
  mysock_enqueue_buffer, dequeue_node, mysock_dequeue_buffer, mysock_free_queue, free_nodes,
}
use computer_networks.Mysock.Queue.Stream.{
  QueueOp, enqueue, dequeue, Runs, done, put_in, taken, StreamRuns, run_refines, IsDrained, size,
  reads_drain,
}
use computer_networks.Mysock.Table.{Table, max_num_connections, new_context, mysock_new_mysocket}
use computer_networks.Mysock.Table.Descriptors.{IsTaken, IsFresh, context_of}
use computer_networks.Mysock.Stcp.{Waking, woken, timed_out, stcp_wait_for_event}
use computer_networks.Mysock.Stcp.Send.{IsConnected, IsSent, stcp_network_send, network_send_lem}
use computer_networks.Mysock.Stcp.Waiting.{Arrival, packet, arrive, Returned, wait_misses_none}
use computer_networks.Mysock.Api.{myread}
use computer_networks.Mysock.Api.EndOfFile.{IsOpen, zero_read_ends}

-- Five bytes in, two reads: the second takes the rest of the first buffer only.
abbrev two_reads : List QueueOp
two_reads = dequeue 2 ∷ enqueue (4 ∷ 5 ∷ []) ∷ dequeue 5 ∷ []

run_two : Runs ((1 ∷ 2 ∷ 3 ∷ []) ∷ []) two_reads ((1 ∷ 2 ∷ []) ∷ (3 ∷ []) ∷ []) ((4 ∷ 5 ∷ []) ∷ [])
unfolding mysock_dequeue_buffer dequeue_node mysock_enqueue_buffer
run_two =
    taken 2 (dequeue_node (1 ∷ 2 ∷ 3 ∷ []) [] 2 true) refl
      (put_in (4 ∷ 5 ∷ []) (taken 5 (dequeue_node (3 ∷ []) ((4 ∷ 5 ∷ []) ∷ []) 5 true) refl done))

run_refines_example :
    StreamRuns
      (joined ((1 ∷ 2 ∷ 3 ∷ []) ∷ []))
      two_reads
      ((1 ∷ 2 ∷ []) ∷ (3 ∷ []) ∷ [])
      (joined ((4 ∷ 5 ∷ []) ∷ []))
run_refines_example = run_refines run_two

abbrev waiting_queue : PacketQueue
waiting_queue = (1 ∷ 2 ∷ 3 ∷ []) ∷ [] ∷ (4 ∷ []) ∷ []

reads_drain_example : IsDrained waiting_queue 2 (size waiting_queue)
reads_drain_example = reads_drain 2 waiting_queue (omega arith)

-- A queue with only the empty buffer of a FIN counts as one that held data.
free_empty : (mysock_free_queue ([] ∷ [])).0 ≡ true
unfolding mysock_free_queue free_nodes
free_empty = refl

unfoldable free_entries : ℕ → Table
free_entries zero = []
free_entries (suc n) = none ∷ free_entries n

length-free_entries : (n : ℕ) → length (free_entries n) ≡ n
unfolding free_entries
length-free_entries zero = refl
length-free_entries (suc n) = ap suc (length-free_entries n)

-- An open connection to 10.0.0.1 port 80, with three bytes for the application.
abbrev open_ctx : MysockContext
open_ctx = record new_context {
  blocking = false;
  peer_addr = 2 ∷ 0 ∷ 0 ∷ 80 ∷ 10 ∷ 0 ∷ 0 ∷ 1 ∷ 0 ∷ 0 ∷ 0 ∷ 0 ∷ 0 ∷ 0 ∷ 0 ∷ 0 ∷ [];
  peer_addr_len = 16;
  peer_addr_valid = true;
  app_send_queue = (7 ∷ 8 ∷ 9 ∷ []) ∷ [];
}

abbrev one_open : Table
one_open = some open_ctx ∷ free_entries 63

length-one_open : length one_open ≡ max_num_connections
length-one_open = ap suc (length-free_entries 63)

-- A packet arrives at the second of three waits.
wait_misses_none_example : Returned (
    stcp_wait_for_event 2 open_ctx
      (woken (λ c. c) ∷ [] ++ woken (arrive (packet (1 ∷ []))) ∷ timed_out (λ c. c) ∷ []))
wait_misses_none_example =
    wait_misses_none 2 open_ctx (woken (λ c. c) ∷ []) (packet (1 ∷ [])) (timed_out (λ c. c) ∷ [])
      refl

is_connected : IsConnected open_ctx 16777226
is_connected = record {
  peer = omega arith;
  local = omega arith;
  inet = refl;
  has_port = λ e. absurd (omega (arith, e));
  valid = refl;
  has_addr = omega arith;
  whole = refl;
}

-- A header of 20 bytes and two of data, in two buffers.
abbrev header_20 : Bytes
header_20 = 0 ∷ 0 ∷ 0 ∷ 0 ∷ 0 ∷ 0 ∷ 0 ∷ 1 ∷ 0 ∷ 0 ∷ 0 ∷ 2 ∷ 80 ∷ 16 ∷ 12 ∷ 0 ∷ 0 ∷ 0 ∷ 0 ∷ 0 ∷ []

abbrev header_and_data : Bytes
header_and_data = joined (header_20 ∷ (104 ∷ 105 ∷ []) ∷ [])

network_send_lem_example :
    (p : Bytes) × (stcp_network_send open_ctx
        (31 ∷ 144 ∷ [])
        16777226
        header_20
        ((104 ∷ 105 ∷ []) ∷ [])
      ≡ returns p)
    × IsSent open_ctx (31 ∷ 144 ∷ []) 16777226 (joined (header_20 ∷ (104 ∷ 105 ∷ []) ∷ [])) p
unfolding joined
network_send_lem_example =
    network_send_lem open_ctx (31 ∷ 144 ∷ []) 16777226 header_20 ((104 ∷ 105 ∷ []) ∷ [])
      is_connected refl (omega arith) (omega arith)

is_open : IsOpen one_open 0 open_ctx
is_open = record {
  in_range = omega arith;
  entries = length-one_open;
  here = refl;
  numbered = refl;
  no_listener = refl;
  no_close = refl;
}

-- Three bytes wait, and a read of none ends the stream.
zero_read_ends_example :
    (copied : Bytes) × (table' : Table) × (myread one_open 0 0 ≡ returns (ok 0, copied, table'))
    × ((later_len : ℕ) → myread table' 0 later_len ≡ returns (ok 0, [], table'))
zero_read_ends_example =
    zero_read_ends one_open 0 0 open_ctx (7 ∷ 8 ∷ 9 ∷ []) [] is_open refl refl (inr refl)
