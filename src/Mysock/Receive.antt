-- ===== src/Mysock/Receive.antt =====
-- The receive thread of transport-layer/src/network_io_socket.c: network_recv_thread_func.
pub mod Stream
pub mod Oversize
pub mod Held
use computer_networks.Prelude.{
  ℕ, zero, suc, Bool, true, false, not, ◌||◌, Option, none, some, List, [], ◌∷◌, leb, if◌then◌else◌,
}
use computer_networks.Prelude.Words.{Bytes}
use computer_networks.Mysock.State.{
  MysockContext, Outcome, returns, blocks, aborts, and_then, assert_that,
}
use computer_networks.Mysock.Stcp.{network_packet}
use computer_networks.Mysock.Framing.{IoCall, Read, network_recv_packet}
use computer_networks.Mysock.Demux.Connections.{Mysockets, mysock_enqueue_connection}

abbrev pub max_ip_payload_len : ℕ
max_ip_payload_len = 1500

-- What `poll` gives: -1 with EINTR, which of the exit pipe and the socket has an event, or what fails an
-- assertion: another error, 0, or POLLERR.
pub data Poll : Type 0 where
  poll_interrupted : Poll
  poll_broken : Poll
  events : Bool → Bool → Poll

-- The inner loop: whether the thread is done.
unfoldable pub poll_loop : List Poll → Outcome Bool
poll_loop [] = blocks
poll_loop (poll_interrupted ∷ polls) = poll_loop polls
poll_loop (poll_broken ∷ polls) = aborts
poll_loop (events exit socket ∷ polls) =
    let rest = poll_loop polls in if exit || socket then returns exit else rest

-- One round: the polls, whether an active socket is or gets connected, and the calls of `read`.
pub record Round : Type 0 where
  pub polls : List Poll
  pub connects : Bool
  pub calls : List IoCall

-- `_network_recv_packet`, which connects first; -1 if it cannot.
abbrev pub receive : Round → Bytes → Outcome Read
receive r waiting =
    if r.connects
    then network_recv_packet r.calls max_ip_payload_len waiting
    else returns (record { rc = none; got = []; waiting = waiting; calls = r.calls })

-- The end of the stream, or an error, is an empty packet for the transport; a packet is passed to
-- `on`.
abbrev pub dispatch {ℓ} : {A : Type ℓ} → Option ℕ → Outcome A → Outcome A → Outcome A
dispatch none ends on = ends
dispatch (some zero) ends on = ends
dispatch (some (suc n)) ends on = assert_that (leb (suc n) max_ip_payload_len) on

-- The thread of a mysocket that does not listen; `waiting` is what the connection holds for it. The
-- result is the context when the thread ends.
unfoldable pub recv_thread : List Round → MysockContext → Bytes → Outcome MysockContext
recv_thread [] ctx waiting = blocks
recv_thread (r ∷ rounds) ctx waiting = and_then (poll_loop r.polls) (λ done.
    if done
    then returns ctx
    else and_then (receive r waiting) (λ read.
      dispatch read.rc (returns (network_packet ctx []))
        (recv_thread rounds (network_packet ctx read.got) read.waiting)))

-- A round of a mysocket that listens: what `accept` gives, the address of the peer or -1, with what
-- comes from the new connection, and whether `_network_init` of a new mysocket would succeed.
pub record ListenRound : Type 0 where
  pub polls : List Poll
  pub accepts : Option (Bytes × ℕ)
  pub calls : List IoCall
  pub stream : Bytes
  pub initialised : Bool

-- `_network_recv_packet` of a mysocket that listens; `held` says whether `new_socket` still holds the
-- socket of an earlier connection.
abbrev pub accept_packet : Bool → ListenRound → Option (Bytes × ℕ) → Outcome Read
accept_packet held r none =
    returns (record { rc = none; got = []; waiting = r.stream; calls = r.calls })
accept_packet held r (some peer) =
    assert_that (not held) (network_recv_packet r.calls max_ip_payload_len r.stream)

-- The address of the peer is written into the context, and its length, of a `struct sockaddr`.
abbrev pub with_peer : MysockContext → Option (Bytes × ℕ) → MysockContext
with_peer ctx none = record ctx { peer_addr_len = 16 }
with_peer ctx (some peer) = record ctx { peer_addr = peer.0; peer_addr_len = peer.1 }

-- What the thread does with a packet of a new connection.
abbrev pub enqueue : Mysockets → MysockContext → Bool → Bytes → Outcome (Bool × Mysockets)
enqueue s ctx initialised packet =
    mysock_enqueue_connection s ctx initialised packet ctx.peer_addr ctx.peer_addr_len

-- The thread of a mysocket that listens. The socket of a connection is held until a new mysocket
-- takes it over. When the thread ends by an error, the empty packet is put into the queue of its own
-- context, which is a part of the result.
unfoldable pub listen_thread :
    List ListenRound → Bool → Mysockets → MysockContext → Outcome (Mysockets × MysockContext)
listen_thread [] held s ctx = blocks
listen_thread (r ∷ rounds) held s ctx = and_then (poll_loop r.polls) (λ done.
    if done
    then returns (s, ctx)
    else and_then (accept_packet held r r.accepts) (λ read.
      dispatch read.rc (returns (s, network_packet (with_peer ctx r.accepts) [])) (
        and_then (enqueue s (with_peer ctx r.accepts) r.initialised read.got)
          (λ queued. listen_thread rounds (not queued.0) queued.1 (with_peer ctx r.accepts)))))
