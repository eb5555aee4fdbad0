-- ===== src/Mysock/State.antt =====
-- `mysock_context_t` of transport-layer/src/mysock_impl.h, and what a call of the socket layer
-- comes to.
use computer_networks.Prelude.{ℕ, ◌≡◌, ◌≢◌, Bool, true, false, Option, List}
use computer_networks.Prelude.Words.{Bytes}

-- A `packet_queue_t` is the list of its nodes' data, the head first; `data_len` is the length.
abbrev pub PacketQueue : Type 0
PacketQueue = List Bytes

-- The values of `errno` that the code names; `no_error` is 0, and `other` what a system call set.
pub data Errno : Type 0 where
  no_error : Errno
  eintr : Errno
  ebadf : Errno
  einval : Errno
  emfile : Errno
  eisconn : Errno
  enotconn : Errno
  eaddrnotavail : Errno
  econnrefused : Errno
  econnaborted : Errno
  other : ℕ → Errno

-- `mysock_context_t` with the addresses of its `network_context_t`. A descriptor of -1 is `none`.
pub record MysockContext : Type 0 where
  pub is_active : Bool
  pub bound : Bool
  pub listening : Bool
  pub my_sd : ℕ
  pub listen_sd : Option ℕ
  pub blocking : Bool
  pub stcp_errno : Errno
  pub transport_thread_started : Bool
  pub close_requested : Bool
  pub eof : Bool
  pub local_addr : Bytes
  pub peer_addr : Bytes
  pub peer_addr_len : ℕ
  pub peer_addr_valid : Bool
  pub network_recv_queue : PacketQueue
  pub app_send_queue : PacketQueue
  pub app_recv_queue : PacketQueue

-- A call gives a result, or waits on a condition variable, or ends the program by a failed `assert`.
pub data Outcome {ℓ} (A : Type ℓ) : Type ℓ where
  returns : A → Outcome A
  blocks : Outcome A
  aborts : Outcome A

pub returns-returns : {A : Type 0} {a b : A} → Outcome.returns a ≡ returns b → a ≡ b
returns-returns e = cc

pub blocks-returns : {A : Type 0} {a : A} → Outcome.blocks ≢ returns a
blocks-returns e = cc

-- The result of an `int` function: a number, or -1 with `errno`.
pub data Reply : Type 0 where
  ok : ℕ → Reply
  failed : Errno → Reply

-- `errno = e`, then -1 if `e` is set and the result else.
unfoldable pub unless_error : Errno → ℕ → Reply
unless_error no_error n = ok n
unless_error e n = failed e

-- What a call goes on with, once it has its context.
abbrev pub and_then {ℓ κ} : {A : Type ℓ} {B : Type κ} → Outcome A → (A → Outcome B) → Outcome B
and_then (returns a) f = f a
and_then blocks f = blocks
and_then aborts f = aborts

-- `assert(b)`.
abbrev pub assert_that {ℓ} : {A : Type ℓ} → Bool → Outcome A → Outcome A
assert_that true call = call
assert_that false call = aborts
