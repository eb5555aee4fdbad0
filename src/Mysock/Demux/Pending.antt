-- ===== src/Mysock/Demux/Pending.antt =====
-- `listen_queue_t` of transport-layer/src/connection_demux.c, and what is done to one queue. Each
-- operation is one step: that `++q->cur_len` of a request runs under listen_lock for reading, and
-- `--q->cur_len` of myaccept under that and connection_lock, so that one of two that run at once can be
-- lost, is not modelled.
use computer_networks.Prelude.{
  ℕ, zero, suc, ◌+◌, ◌-◌, Bool, true, false, ◌||◌, Option, none, some, List, [], ◌∷◌, ◌++◌, ◌==◌,
  ltb, if◌then◌else◌, get_or, take,
}
use computer_networks.Prelude.Words.{Bytes}
use computer_networks.Mysock.State.{Outcome, returns, blocks, aborts, assert_that}
use computer_networks.Mysock.Table.{no_addr}

-- `connect_request_t`. A free slot has the descriptor -1, which is `none`.
pub record ConnectRequest : Type 0 where
  pub peer_addr : Bytes
  pub peer_addr_len : ℕ
  pub sd : Option ℕ

-- `listen_queue_t`. A `completed_connect_t` points to a slot, by its index.
pub record ListenQueue : Type 0 where
  pub local_port : ℕ
  pub max_len : ℕ
  pub cur_len : ℕ
  pub connection_queue : List ConnectRequest
  pub completed_queue : List ℕ

-- `INVALIDATE_CONNECT_REQUEST`.
abbrev pub free_request : ConnectRequest
free_request = record { peer_addr = no_addr; peer_addr_len = 0; sd = none }

unfoldable pub set_slot : ℕ → ConnectRequest → List ConnectRequest → List ConnectRequest
set_slot k r [] = []
set_slot zero r (x ∷ xs) = r ∷ xs
set_slot (suc k) r (x ∷ xs) = x ∷ set_slot k r xs

-- `memcmp` gives 0.
unfoldable pub same_bytes : Bytes → Bytes → Bool
same_bytes [] [] = true
same_bytes [] (b ∷ bs) = false
same_bytes (a ∷ p) [] = false
same_bytes (a ∷ p) (b ∷ bs) = if a == b then same_bytes p bs else false

abbrev pub is_free : ConnectRequest → Bool
is_free r = elim r.sd [ none ↦ true | some sd ↦ false ]

-- The search for a retransmission among the slots that are in use or free, with its assertion.
unfoldable pub retransmitted : Bytes → ℕ → List ConnectRequest → Outcome Bool
unfolding same_bytes
retransmitted peer_addr peer_addr_len [] = returns false
retransmitted peer_addr peer_addr_len (r ∷ rs) =
    let rest = retransmitted peer_addr peer_addr_len rs in
    assert_that (is_free r || (peer_addr_len == r.peer_addr_len)) (
      if same_bytes (take peer_addr_len r.peer_addr) (take peer_addr_len peer_addr)
      then returns true
      else rest)

-- The first free slot.
unfoldable pub free_slot : List ConnectRequest → Option ℕ
free_slot [] = none
free_slot (r ∷ rs) =
    if is_free r then some 0 else elim (free_slot rs) [ none ↦ none | some k ↦ some (suc k) ]

abbrev pub holds_sd : ℕ → Option ℕ → Bool
holds_sd my_sd none = false
holds_sd my_sd (some sd) = sd == my_sd

-- The first slot of a descriptor.
unfoldable pub slot_of : ℕ → List ConnectRequest → Option ℕ
slot_of my_sd [] = none
slot_of my_sd (r ∷ rs) =
    if holds_sd my_sd r.sd
    then some 0
    else elim (slot_of my_sd rs) [ none ↦ none | some k ↦ some (suc k) ]

-- The slot that a new request takes: none with a full queue.
unfoldable pub take_slot : ListenQueue → Outcome (Option ℕ)
unfolding free_slot
take_slot q =
    if ltb q.cur_len q.max_len
    then elim (free_slot (take q.max_len q.connection_queue)) [
      | none ↦ aborts
      | some k ↦ returns (some k)
    ]
    else returns none

-- The queue with the request in the slot, and with the slot free again after no mysocket was left.
unfoldable pub fill_request : ListenQueue → ℕ → ConnectRequest → ListenQueue
unfolding set_slot
fill_request q k r = record q {
  cur_len = q.cur_len + 1;
  connection_queue = set_slot k r q.connection_queue;
}

unfoldable pub no_request : ListenQueue → ℕ → ListenQueue
unfolding set_slot
no_request q k = record q { connection_queue = set_slot k free_request q.connection_queue }

-- `_mysock_passive_connection_complete` on the queue.
unfoldable pub complete_request : ListenQueue → ℕ → Outcome ListenQueue
unfolding slot_of
complete_request q my_sd = elim (slot_of my_sd (take q.max_len q.connection_queue)) [
  | none ↦ aborts
  | some k ↦ returns (record q { completed_queue = q.completed_queue ++ k ∷ [] })
]

-- `_mysock_dequeue_connection` on the queue, with the descriptor of the request.
unfoldable pub accept_request : ListenQueue → Outcome (Option ℕ × ListenQueue)
unfolding set_slot
accept_request q = elim q.completed_queue [
  | [] ↦ blocks
  | k ∷ rest ↦ assert_that (ltb 0 q.cur_len) (
      returns (
        (get_or q.connection_queue k free_request).sd,
        record q {
          cur_len = q.cur_len - 1;
          connection_queue = set_slot k free_request q.connection_queue;
          completed_queue = rest;
        },
      ))
]

unfoldable pub free_requests : ℕ → List ConnectRequest
free_requests zero = []
free_requests (suc n) = free_request ∷ free_requests n

-- `_mysock_set_backlog` on the queue. The slots from the old length on are new, `realloc` keeps
-- those before.
unfoldable pub set_max_len : ListenQueue → ℕ → ListenQueue
unfolding free_requests
set_max_len q max_len = record q {
  max_len = max_len;
  connection_queue =
      if ltb q.max_len max_len
      then take q.max_len q.connection_queue ++ free_requests (max_len - q.max_len)
      else q.connection_queue;
}

abbrev pub new_queue : ℕ → ListenQueue
new_queue local_port = record {
  local_port = local_port;
  max_len = 0;
  cur_len = 0;
  connection_queue = [];
  completed_queue = [];
}
