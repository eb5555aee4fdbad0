-- ===== src/Mysock/Framing.antt =====
-- transport-layer/src/network_io_tcp.c: datagrams over a TCP connection, each behind its length.
pub mod RoundTrip
use computer_networks.Prelude.{
  ℕ, zero, suc, ◌-◌, ◌≡◌, min, Bool, true, false, Option, none, some, List, [], ◌∷◌, ◌++◌, ◌==◌,
  ltb, if◌then◌else◌, length, take, drop,
}
use computer_networks.Prelude.Words.{Bytes}
use computer_networks.Mysock.State.{Outcome, returns, blocks, and_then}
use computer_networks.Transport.Segment.{be16, read16}

-- What a call of `read` or `write` does: it moves at most so many bytes, or gives -1.
pub data IoCall : Type 0 where
  moves : ℕ → IoCall
  breaks : IoCall

-- What `_tcp_io` gives: its result, where -1 is `none`, the bytes that were read, those that wait
-- to be read, and the calls to come.
pub record Read : Type 0 where
  pub rc : Option ℕ
  pub got : Bytes
  pub waiting : Bytes
  pub calls : List IoCall

-- `_tcp_io` with `read`, after `got`, with `remaining` of the `count` bytes to go. A call with
-- nothing left to read gives 0.
unfoldable pub tcp_read : List IoCall → ℕ → ℕ → Bytes → Bytes → Outcome Read
tcp_read calls count zero got waiting =
    returns (record { rc = some count; got = got; waiting = waiting; calls = calls })
tcp_read [] count (suc r) got waiting = blocks
tcp_read (breaks ∷ calls) count (suc r) got waiting =
    returns (record { rc = none; got = got; waiting = waiting; calls = calls })
tcp_read (moves n ∷ calls) count (suc r) got waiting =
    let rc = min (min n (suc r)) (length waiting) in
    let on = tcp_read calls count (suc r - rc) (got ++ take rc waiting) (drop rc waiting) in
    if rc == 0
    then returns (record { rc = some 0; got = got; waiting = waiting; calls = calls })
    else on

pub record Written : Type 0 where
  pub rc : Option ℕ
  pub out : Bytes
  pub calls : List IoCall

-- `_tcp_io` with `write`, for the bytes that remain. `out` is what went to the connection.
unfoldable pub tcp_write : List IoCall → ℕ → Bytes → Bytes → Outcome Written
tcp_write calls count [] out = returns (record { rc = some count; out = out; calls = calls })
tcp_write [] count (b ∷ bs) out = blocks
tcp_write (breaks ∷ calls) count (b ∷ bs) out =
    returns (record { rc = none; out = out; calls = calls })
tcp_write (moves n ∷ calls) count (b ∷ bs) out =
    let rc = min n (length (b ∷ bs)) in
    let on = tcp_write calls count (drop rc (b ∷ bs)) (out ++ take rc (b ∷ bs)) in
    if rc == 0 then returns (record { rc = some 0; out = out; calls = calls }) else on

-- The write of the packet, once that of its length was no -1.
unfoldable pub write_packet : Bytes → Written → Outcome Written
unfolding tcp_write
write_packet src w = elim w.rc [
  | none ↦ returns w
  | some n ↦ tcp_write w.calls (length src) src w.out
]

-- `_network_send_packet` on a connection that is set up: -1 or the length of the packet. `len` is
-- cut to 16 bits for the header.
unfoldable pub network_send_packet : List IoCall → Bytes → Bytes → Outcome Written
unfolding tcp_write write_packet
network_send_packet calls src out = and_then (tcp_write calls 2 (be16 (length src)) out) (λ w.
    and_then (write_packet src w)
      (λ w'. returns (record w' { rc = elim w'.rc [ none ↦ none | some n ↦ some (length src) ] })))

-- The remainder of a packet that is too long is read and dropped, whatever `_tcp_io` gives.
unfoldable pub discard : ℕ → ℕ → Read → Outcome Read
unfolding tcp_read
discard packet_len max_len r =
    if ltb max_len packet_len
    then and_then (tcp_read r.calls (packet_len - max_len) (packet_len - max_len) [] r.waiting)
        (λ d.
          returns
            (record { rc = some packet_len; got = r.got; waiting = d.waiting; calls = d.calls }))
    else returns (record r { rc = some packet_len })

-- `if ((rc = ...) <= 0) return rc;`
unfoldable pub unless_ended : Read → Outcome Read → Outcome Read
unless_ended r on = elim r.rc [ none ↦ returns r | some n ↦ if n == 0 then returns r else on ]

unfoldable pub read_packet : ℕ → Read → Outcome Read
unfolding tcp_read unless_ended discard
read_packet max_len r =
    let packet_len = read16 r.got 0 in
    let wanted = min packet_len max_len in
    unless_ended r (
      and_then (tcp_read r.calls wanted wanted [] r.waiting)
        (λ p. unless_ended p (discard packet_len max_len p)))

-- `_network_recv_packet` on a connection that is set up, with at most `max_len` bytes for `dst`.
unfoldable pub network_recv_packet : List IoCall → ℕ → Bytes → Outcome Read
unfolding tcp_read read_packet
network_recv_packet calls max_len waiting =
    and_then (tcp_read calls 2 2 [] waiting) (read_packet max_len)
