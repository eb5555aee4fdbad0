-- ===== src/Mysock/Queue.antt =====
-- The packet queues of transport-layer/src/mysock.c, which all data between the application, the
-- transport and the network passes through. Each operation is one step here; the code releases the lock
-- before it copies the bytes, but each queue has one reader. The move of the rest of a packet to its
-- front, by memcpy on ranges that may overlap, is taken to keep the rest.
pub mod Stream
use computer_networks.Prelude.{
  ℕ, ◌+◌, ◌-◌, ◌≤◌, ◌≡◌, min, Bool, true, false, ◌&&◌, List, [], ◌∷◌, ◌++◌, ltb, if◌then◌else◌,
  length, take, drop,
}
use computer_networks.Prelude.Words.{Bytes}
use computer_networks.Mysock.State.{PacketQueue, Outcome, returns, blocks}

-- `_mysock_enqueue_buffer`: a new node behind the tail.
unfoldable pub mysock_enqueue_buffer : PacketQueue → Bytes → PacketQueue
mysock_enqueue_buffer pq packet = pq ++ packet ∷ []

-- What `_mysock_dequeue_buffer` leaves: its result, the bytes it copied, and the queue.
pub record Dequeued : Type 0 where
  pub packet_len : ℕ
  pub copied : Bytes
  pub queue : PacketQueue

-- The node at the head, and those behind it.
unfoldable pub dequeue_node : Bytes → PacketQueue → ℕ → Bool → Dequeued
dequeue_node node rest max_len remove_partial =
    if ltb max_len (length node) && remove_partial
    then record {
      packet_len = max_len;
      copied = take max_len node;
      queue = drop max_len node ∷ rest;
    }
    else record {
      packet_len = length node;
      copied = take (min max_len (length node)) node;
      queue = rest;
    }

unfoldable pub mysock_dequeue_buffer : PacketQueue → ℕ → Bool → Outcome Dequeued
unfolding dequeue_node
mysock_dequeue_buffer [] max_len remove_partial = blocks
mysock_dequeue_buffer (node ∷ rest) max_len remove_partial =
    returns (dequeue_node node rest max_len remove_partial)

unfoldable pub free_nodes : PacketQueue → Bool → Bool
free_nodes [] result = result
free_nodes (node ∷ rest) result = free_nodes rest (if ltb 0 (length node) then true else result)

-- `_mysock_free_queue`: `result` starts as "not empty".
unfoldable pub mysock_free_queue : PacketQueue → Bool × PacketQueue
unfolding free_nodes
mysock_free_queue pq = (free_nodes pq (ltb 0 (length pq)), [])
