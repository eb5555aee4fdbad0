-- ===== src/Mysock/Framing/RoundTrip.antt =====
-- A packet that one end sends is what the other end receives.
use computer_networks.Prelude.{
  ℕ, zero, suc, ◌+◌, ◌-◌, ◌^◌, ◌<◌, ◌≤◌, ◌≡◌, refl, sym, ap, ◌∙◌, min, some, List, [], ◌∷◌, ◌++◌,
  length, take, drop, arith, ne→==, le→ltb-false, length-append, length-drop,
}
use mathlib.Core.List.{append-nil, append_assoc}
use computer_networks.Prelude.Words.{Bytes}
use computer_networks.Prelude.Words.Slices.{take-add, drop-add, take-drop, take-append, drop-append}
use computer_networks.Mysock.State.{Outcome, returns}
use computer_networks.Transport.Segment.{be16, read16}
use computer_networks.Mysock.Framing.{
  IoCall, moves, breaks, Read, tcp_read, Written, tcp_write, write_packet, network_send_packet,
  discard, unless_ended, read_packet, network_recv_packet,
}

-- Every call moves a byte or more.
abbrev pub IsWorking : List IoCall → Type 0
IsWorking [] = Unit
IsWorking (moves n ∷ calls) = (0 < n) × IsWorking calls
IsWorking (breaks ∷ calls) = ⊥

-- The calls to come, after some that moved `moved` bytes.
pub record CallsLeft (calls : List IoCall) (moved : ℕ) (left : List IoCall) : Type 0 where
  pub working : IsWorking left
  pub enough : length calls ≤ moved + length left

abbrev pub read_done : ℕ → Bytes → Bytes → List IoCall → Outcome Read
read_done count got waiting calls =
    returns (record { rc = some count; got = got; waiting = waiting; calls = calls })

abbrev pub written_done : ℕ → Bytes → List IoCall → Outcome Written
written_done count out calls = returns (record { rc = some count; out = out; calls = calls })

-- Two reads, one after the other, are one.
reads_join :
    (count k n total : ℕ) (got waiting : Bytes) (left : List IoCall)
    → k + n ≡ total
    → read_done count
        ((got ++ take k waiting) ++ take n (drop k waiting))
        (drop n (drop k waiting))
        left
      ≡ read_done count (got ++ take total waiting) (drop total waiting) left
reads_join count k n total got waiting left e =
    rw
      (
        append_assoc got (take k waiting) (take n (drop k waiting)),
        take-add k n waiting,
        drop-add k n waiting,
        e,
      )
      refl

pub read_lem :
    (calls : List IoCall) (count remaining : ℕ) (got waiting : Bytes)
    → IsWorking calls
    → remaining ≤ length calls
    → remaining ≤ length waiting
    → (left : List IoCall) × (tcp_read calls count remaining got waiting
        ≡ read_done count (got ++ take remaining waiting) (drop remaining waiting) left)
      × CallsLeft calls remaining left
unfolding tcp_read
read_lem calls count zero got waiting w enough long = (
  calls,
  ap (λ g. read_done count g waiting calls) (sym (append-nil got)),
  record { working = w; enough = omega arith },
)
read_lem [] count (suc r) got waiting w enough long = absurd (omega arith)
read_lem (breaks ∷ calls) count (suc r) got waiting w enough long = absurd w
read_lem (moves n ∷ calls) count (suc r) got waiting w enough long =
    let rc : ℕ = min (min n (suc r)) (length waiting) in
    let some_moved : 0 < rc = omega (arith, w.0) in
    let (left, on, c) =
      read_lem calls count (suc r - rc) (got ++ take rc waiting) (drop rc waiting) w.1 (omega arith)
        (omega (arith, length-drop rc waiting)) in
    let total : rc + (suc r - rc) ≡ suc r = omega arith in
    (
      left,
      rw (ne→== rc 0 (omega arith))
          (on ∙ reads_join count rc (suc r - rc) (suc r) got waiting left total),
      record { working = c.working; enough = omega (arith, c.enough) },
    )

writes_join :
    (count k : ℕ) (src out : Bytes) (left : List IoCall)
    → written_done count ((out ++ take k src) ++ drop k src) left
      ≡ written_done count (out ++ src) left
writes_join count k src out left =
    ap (λ o. written_done count o left)
      (append_assoc out (take k src) (drop k src) ∙ ap (λ t. out ++ t) (sym (take-drop k src)))

write_lem :
    (calls : List IoCall) (count : ℕ) (src out : Bytes)
    → IsWorking calls
    → length src ≤ length calls
    → (left : List IoCall) × (tcp_write calls count src out ≡ written_done count (out ++ src) left)
      × CallsLeft calls (length src) left
unfolding tcp_write
write_lem calls count [] out w enough = (
  calls,
  ap (λ o. written_done count o calls) (sym (append-nil out)),
  record { working = w; enough = omega arith },
)
write_lem [] count (b ∷ bs) out w enough = absurd (omega arith)
write_lem (breaks ∷ calls) count (b ∷ bs) out w enough = absurd w
write_lem (moves n ∷ calls) count (b ∷ bs) out w enough =
    let src : Bytes = b ∷ bs in
    let rc : ℕ = min n (length src) in
    let some_moved : 0 < rc = omega (arith, w.0) in
    let (left, on, c) =
      write_lem calls count (drop rc src) (out ++ take rc src) w.1
        (omega (arith, length-drop rc src)) in
    (
      left,
      rw (ne→== rc 0 (omega arith)) (on ∙ writes_join count rc src out left),
      record { working = c.working; enough = omega (arith, c.enough, length-drop rc src) },
    )

-- A connection on which every call moves a byte or more, with calls enough.
pub record IsConnection (calls : List IoCall) (bytes : ℕ) : Type 0 where
  pub working : IsWorking calls
  pub enough : bytes ≤ length calls

pub send_lem :
    (calls : List IoCall) (packet out : Bytes)
    → IsConnection calls (2 + length packet)
    → (left : List IoCall) × (network_send_packet calls packet out
        ≡ written_done (length packet) (out ++ be16 (length packet) ++ packet) left)
unfolding network_send_packet write_packet
send_lem calls packet out c =
    let header : Bytes = be16 (length packet) in
    let (left, first, cl) = write_lem calls 2 header out c.working (omega (arith, c.enough)) in
    let (left', second, cl') =
      write_lem left (length packet) packet (out ++ header) cl.working
        (omega (arith, c.enough, cl.enough)) in
    (left', rw (first, second, append_assoc out header packet) refl)

pub recv_lem :
    (calls : List IoCall) (max_len : ℕ) (packet rest : Bytes)
    → IsConnection calls (2 + length packet)
    → 0 < length packet
    → length packet ≤ max_len
    → length packet < 2 ^ 16
    → (left : List IoCall) × (network_recv_packet calls max_len
          (be16 (length packet) ++ packet ++ rest)
        ≡ read_done (length packet) packet rest left)
unfolding network_recv_packet read_packet unless_ended discard
recv_lem calls max_len packet rest c positive fits short =
    let n : ℕ = length packet in
    let (left, first, cl) =
      read_lem calls 2 2 [] (be16 n ++ packet ++ rest) c.working (omega (arith, c.enough))
        (omega arith) in
    let (left', second, cl') =
      read_lem left n n [] (packet ++ rest) cl.working (omega (arith, c.enough, cl.enough))
        (omega (arith, length-append packet rest)) in
    let len : read16 (be16 n) 0 ≡ n = omega (arith, short) in
    let wanted : min n max_len ≡ n = omega arith in
    (
      left',
      rw
          (
            first,
            len,
            wanted,
            second,
            ne→== n 0 (omega arith),
            le→ltb-false max_len n fits,
            take-append packet rest,
            drop-append packet rest,
          )
          refl,
    )

-- However the connection cuts the bytes of `write` and of `read`, a packet of 1 to 65535 bytes that
-- was sent is received whole if the buffer has room for it, and what was sent behind it stays.
packet_roundtrip :
    (writes reads : List IoCall) (max_len : ℕ) (packet behind : Bytes)
    → IsConnection writes (2 + length packet)
    → IsConnection reads (2 + length packet)
    → 0 < length packet
    → length packet ≤ max_len
    → length packet < 2 ^ 16
    → (out : Bytes) × (writes_left : List IoCall) × (reads_left : List IoCall)
      × (network_send_packet writes packet [] ≡ written_done (length packet) out writes_left)
      × (network_recv_packet reads max_len (out ++ behind)
          ≡ read_done (length packet) packet behind reads_left)
packet_roundtrip writes reads max_len packet behind cw cr positive fits short =
    let (writes_left, sent) = send_lem writes packet [] cw in
    let (reads_left, received) = recv_lem reads max_len packet behind cr positive fits short in
    (be16 (length packet) ++ packet, writes_left, reads_left, sent, received)
