-- ===== src/Mysock/Table.antt =====
-- The descriptor table of transport-layer/src/mysock.c.
pub mod Descriptors
use computer_networks.Prelude.{
  ℕ, zero, suc, ◌≡◌, Bool, true, false, not, Option, none, some, List, [], ◌∷◌, ◌==◌, ltb,
  if◌then◌else◌, length, get_or,
}
use computer_networks.Prelude.Words.{Bytes}
use computer_networks.Mysock.State.{
  MysockContext, no_error, emfile, Outcome, returns, blocks, aborts, Reply, ok, failed, assert_that,
}

-- `global_ctx`: an entry that is NULL is `none`.
abbrev pub Table : Type 0
Table = List (Option MysockContext)

abbrev pub max_num_connections : ℕ
max_num_connections = 64

-- A `struct sockaddr`, which has 16 bytes, all 0.
abbrev pub no_addr : Bytes
no_addr = 0 ∷ 0 ∷ 0 ∷ 0 ∷ 0 ∷ 0 ∷ 0 ∷ 0 ∷ 0 ∷ 0 ∷ 0 ∷ 0 ∷ 0 ∷ 0 ∷ 0 ∷ 0 ∷ []

-- The context of `_mysock_allocate_context`, whose `_network_init` succeeded.
-- `calloc` leaves zeros.
abbrev pub new_context : MysockContext
new_context = record {
  is_active = false;
  bound = false;
  listening = false;
  my_sd = 0;
  listen_sd = none;
  blocking = true;
  stcp_errno = no_error;
  transport_thread_started = false;
  close_requested = false;
  eof = false;
  local_addr = no_addr;
  peer_addr = no_addr;
  peer_addr_len = 0;
  peer_addr_valid = false;
  network_recv_queue = [];
  app_send_queue = [];
  app_recv_queue = [];
}

-- The loop of `_mysock_new_mysocket` from descriptor `k` on: the first free one, and the entries with
-- the context there.
unfoldable pub place : MysockContext → ℕ → Table → Option (ℕ × Table)
place c k [] = none
place c k (none ∷ es) = some (k, some (record c { my_sd = k }) ∷ es)
place c k (some e ∷ es) = elim (place c (suc k) es) [
  | none ↦ none
  | some (sd, rest) ↦ some (sd, some e ∷ rest)
]

-- A context that finds no place is freed; it is in no entry, so the table stays.
unfoldable pub placed : Table → Option (ℕ × Table) → Outcome (Reply × Table)
placed table none = returns (failed emfile, table)
placed table (some (sd, table')) = returns (ok sd, table')

-- `_mysock_new_mysocket`; `initialised` says whether `_network_init` succeeds.
unfoldable pub mysock_new_mysocket : Bool → Table → Outcome (Reply × Table)
unfolding place placed
mysock_new_mysocket initialised table =
    assert_that initialised (placed table (place new_context 0 table))

unfoldable pub context_at : Option MysockContext → ℕ → Outcome MysockContext
context_at none sd = aborts
context_at (some c) sd = assert_that (c.my_sd == sd) (returns c)

-- `_mysock_get_context` with `verify_mysocket_descriptor`, whose assertions are in the build. A
-- descriptor below 0 fails the first of them, as one past the end does.
unfoldable pub mysock_get_context : Table → ℕ → Outcome MysockContext
unfolding context_at
mysock_get_context table sd =
    assert_that (ltb sd max_num_connections) (context_at (get_or table sd none) sd)

-- The entry of a descriptor: what the code changes through the context's pointer.
unfoldable pub set_entry : ℕ → Option MysockContext → Table → Table
set_entry k e [] = []
set_entry zero e (x ∷ es) = e ∷ es
set_entry (suc k) e (x ∷ es) = x ∷ set_entry k e es

-- `_mysock_free_context` of a context that the table holds. Its queues are freed with it.
unfoldable pub mysock_free_context : Table → MysockContext → Table
unfolding set_entry
mysock_free_context table c = set_entry c.my_sd none table

-- A change of the context at its entry.
unfoldable pub put_context : Table → MysockContext → Table
unfolding set_entry
put_context table c = set_entry c.my_sd (some c) table
