-- ===== src/Mysock/Queue/Stream.antt =====
-- A queue that is read in parts is a stream of bytes.
use computer_networks.Prelude.{
  ℕ, zero, suc, ◌+◌, ◌≤◌, ◌<◌, ◌≡◌, refl, sym, ap, ◌∙◌, inl, inr, min, true, List, [], ◌∷◌, ◌++◌,
  ltb, length, take, drop, arith, Bool-cases, take_all, length-append, length-drop, length-take,
  ltb→lt, ltb-false→le,
}
use mathlib.Core.List.{append_assoc}
use computer_networks.Prelude.Words.{Bytes}
use computer_networks.Mysock.State.{PacketQueue, returns, returns-returns, blocks-returns}
use computer_networks.Mysock.Queue.{
  mysock_enqueue_buffer, Dequeued, dequeue_node, mysock_dequeue_buffer,
}
use computer_networks.Prelude.Words.Slices.{joined, joined-append, take-drop}

-- What is done to a queue: a buffer is put in, or at most `max_len` bytes are taken out in part.
pub data QueueOp : Type 0 where
  enqueue : Bytes → QueueOp
  dequeue : ℕ → QueueOp

-- A run of the code. A read of an empty queue waits, so it is no step.
pub data Runs : PacketQueue → List QueueOp → List Bytes → PacketQueue → Type 0 where
  done : {q : PacketQueue} → Runs q [] [] q
  put_in :
      {q r : PacketQueue} {ops : List QueueOp} {outs : List Bytes} (packet : Bytes)
      → Runs (mysock_enqueue_buffer q packet) ops outs r
      → Runs q (enqueue packet ∷ ops) outs r
  taken :
      {q r : PacketQueue} {ops : List QueueOp} {outs : List Bytes} (max_len : ℕ) (d : Dequeued)
      → mysock_dequeue_buffer q max_len true ≡ returns d
      → Runs d.queue ops outs r
      → Runs q (dequeue max_len ∷ ops) (d.copied ∷ outs) r

-- The same run of a stream of bytes: a read gives a piece of its front of at most `max_len` bytes.
pub data StreamRuns : Bytes → List QueueOp → List Bytes → Bytes → Type 0 where
  ended : {p : Bytes} → StreamRuns p [] [] p
  written :
      {p r : Bytes} {ops : List QueueOp} {outs : List Bytes} (packet : Bytes)
      → StreamRuns (p ++ packet) ops outs r
      → StreamRuns p (enqueue packet ∷ ops) outs r
  read :
      {p r : Bytes} {ops : List QueueOp} {outs : List Bytes} (max_len : ℕ) (front back : Bytes)
      → p ≡ front ++ back
      → length front ≤ max_len
      → StreamRuns back ops outs r
      → StreamRuns p (dequeue max_len ∷ ops) (front ∷ outs) r

-- What a read in parts takes from a queue that is not empty.
pub dequeue_front :
    (node : Bytes) (rest : PacketQueue) (n : ℕ)
    → let d = dequeue_node node rest n true in
      (joined (node ∷ rest) ≡ d.copied ++ joined d.queue)
      × (length d.copied ≤ n)
      × (d.packet_len ≡ length d.copied)
unfolding joined dequeue_node
dequeue_front node rest n = elim (Bool-cases (ltb n (length node))) [
  | inl part ↦ (
    rw part (
        ap (λ t. t ++ joined rest) (take-drop n node)
        ∙ append_assoc (take n node) (drop n node) (joined rest)),
    rw part (omega (arith, length-take n node)),
    rw part (omega (arith, length-take n node, ltb→lt n (length node) part)),
  )
  | inr whole ↦
      let short : length node ≤ n = ltb-false→le n (length node) whole in
      let m : min n (length node) ≡ length node = omega arith in
      let all : take (length node) node ≡ node = take_all (length node) node (omega arith) in
      (rw (whole, m, all) refl, rw (whole, m, all) short, rw (whole, m, all) refl)
]

dequeued :
    (q : PacketQueue) (n : ℕ) (d : Dequeued)
    → mysock_dequeue_buffer q n true ≡ returns d
    → (joined q ≡ d.copied ++ joined d.queue) × (length d.copied ≤ n)
unfolding mysock_dequeue_buffer
dequeued [] n d e = absurd (blocks-returns e)
dequeued (node ∷ rest) n d e =
    let front = dequeue_front node rest n in
    (rw (← returns-returns e) front.0, rw (← returns-returns e) front.1)

-- Every run of a packet queue that is read in parts is a run of the stream of its bytes: a buffer
-- put in comes behind all bytes there, a read gives a piece of the front no longer than asked for,
-- and the queue that is left holds the stream that is left.
pub run_refines :
    {q r : PacketQueue} {ops : List QueueOp} {outs : List Bytes}
    → Runs q ops outs r
    → StreamRuns (joined q) ops outs (joined r)
unfolding mysock_enqueue_buffer
run_refines done = ended
run_refines {q} (put_in packet run) =
    written packet (rw (← joined-append q packet) (run_refines run))
run_refines {q} (taken max_len d e run) =
    let front = dequeued q max_len d e in
    read max_len d.copied (joined d.queue) front.0 front.1 (run_refines run)

-- The bytes and the nodes of a queue.
abbrev pub size : PacketQueue → ℕ
size q = length (joined q) + length q

dequeue_smaller :
    (node : Bytes) (rest : PacketQueue) (n : ℕ)
    → 0 < n
    → size (dequeue_node node rest n true).queue < size (node ∷ rest)
unfolding joined dequeue_node
dequeue_smaller node rest n pos = elim (Bool-cases (ltb n (length node))) [
  | inl part ↦ rw part (
      omega (
        arith,
        ltb→lt n (length node) part,
        length-drop n node,
        length-append (drop n node) (joined rest),
        length-append node (joined rest),
      ))
  | inr whole ↦ rw whole (omega (arith, length-append node (joined rest)))
]

-- The reads of a loop that asks for `n` bytes, `k` times.
unfoldable pub dequeues : ℕ → ℕ → List QueueOp
dequeues zero n = []
dequeues (suc k) n = dequeue n ∷ dequeues k n

-- `k` reads of at most `n` bytes empty the queue, and they give all its bytes in order.
pub record IsDrained (q : PacketQueue) (n bound : ℕ) : Type 0 where
  pub reads : ℕ
  pub outs : List Bytes
  pub few : reads ≤ bound
  pub empties : Runs q (dequeues reads n) outs []
  pub all_bytes : joined outs ≡ joined q

drain : (n bound : ℕ) (q : PacketQueue) → 0 < n → size q ≤ bound → IsDrained q n bound
unfolding dequeues joined mysock_dequeue_buffer
drain n bound [] pos fits = record {
  reads = 0;
  outs = [];
  few = omega arith;
  empties = done;
  all_bytes = refl;
}
drain n zero (node ∷ rest) pos fits = absurd (omega arith)
drain n (suc bound) (node ∷ rest) pos fits =
    let d : Dequeued = dequeue_node node rest n true in
    let next = drain n bound d.queue pos (omega (arith, dequeue_smaller node rest n pos)) in
    record {
      reads = suc next.reads;
      outs = d.copied ∷ next.outs;
      few = omega (arith, next.few);
      empties = taken n d refl next.empties;
      all_bytes = ap (λ b. d.copied ++ b) next.all_bytes ∙ sym (dequeue_front node rest n).0;
    }

-- Reads of at least one byte empty every queue: as many as it has bytes and nodes are enough, none
-- of them waits, and together they give all its bytes in order.
pub reads_drain : (n : ℕ) (q : PacketQueue) → 0 < n → IsDrained q n (size q)
reads_drain n q pos = drain n (size q) q pos (omega arith)
