-- ===== src/Transport/State.antt =====
-- The connection states and `context_t` of transport-layer/src/transport.c.
use computer_networks.Prelude.{ℕ, Bool, List}
use computer_networks.Prelude.Words.{Bytes}

-- `CSTATE_CLOSED` and the others.
pub data ConnectionState : Type 0 where
  closed : ConnectionState
  syn_sent : ConnectionState
  syn_rcvd : ConnectionState
  established : ConnectionState
  fin_wait_1 : ConnectionState
  fin_wait_2 : ConnectionState
  closing : ConnectionState
  close_wait : ConnectionState
  last_ack : ConnectionState

-- `context_t`. Sequence numbers are of 32 bits, window sizes of 16.
pub record Context : Type 0 where
  pub is_done : Bool
  pub connection_state : ConnectionState
  pub initial_sequence_num : ℕ
  pub sequence_num : ℕ
  pub ack_num : ℕ
  pub fin_sent : Bool
  pub fin_received : Bool
  pub fin_acked : Bool
  pub recv_window_size : ℕ
  pub recv_buffer_used : ℕ
  pub next_seq_expected : ℕ
  pub peer_window_size : ℕ
  pub last_ack_received : ℕ
  pub last_byte_sent : ℕ

-- A mysocket as the transport sees it: its context, the segments sent and the data passed up to
-- the application so far, both oldest first, how often the end of the peer's data was reported,
-- and the receive buffer, whose old contents stay behind a shorter segment.
pub record Socket : Type 0 where
  pub ctx : Context
  pub sent : List Bytes
  pub delivered : List Bytes
  pub fins_reported : ℕ
  pub buf : Bytes

-- What one return of `stcp_wait_for_event` finds: the events, the bytes that the application has
-- written and that were not taken yet, and the datagram that `stcp_network_recv` gives. An empty
-- datagram stands for a result that is not positive.
pub record Wakeup : Type 0 where
  pub app_data : Bool
  pub network_data : Bool
  pub close_requested : Bool
  pub offered : Bytes
  pub datagram : Bytes
