-- ===== src/Transfer/Socket/Filled.antt =====
-- The mysockets of transport-layer/src/mysock_api.c as the sockets of client.c and server.c.
use computer_networks.Prelude.{
  ℕ, ◌<◌, ◌≡◌, refl, sym, ap, ◌∙◌, inl, inr, Bool-cases, true, false, [], ◌∷◌, ◌++◌, length, ltb,
  ne→==, All, arith, ltb→lt, length-drop,
}
use computer_networks.Prelude.Words.{Bytes}
use computer_networks.Prelude.Words.Slices.{joined, joined-append}
use computer_networks.Mysock.State.{MysockContext, PacketQueue, returns, ok}
use computer_networks.Mysock.Queue.{mysock_enqueue_buffer, Dequeued, dequeue_node}
use computer_networks.Mysock.Queue.Stream.{dequeue_front}
use computer_networks.Mysock.Table.{Table, put_context}
use computer_networks.Mysock.Api.{write_to, mywrite, myread}
use computer_networks.Mysock.Api.EndOfFile.{
  IsOpen, get_context_open, put_context-IsOpen, after_read, read_node,
}
use computer_networks.Transfer.Socket.{Connection, SomeRead, IsStream}

abbrev pub mysocket : ℕ → Connection Table
mysocket sd = record {
  read = λ table n. myread table sd n;
  write = λ table buf. mywrite table sd buf;
}

abbrev pub IsFilled : Bytes → Type 0
IsFilled packet = 0 < length packet

-- The queue that the application reads has no empty packet, which would be the end of the file.
pub record IsOpenStream (sd : ℕ) (table : Table) (inbound outbound : Bytes) : Type 0 where
  pub ctx : MysockContext
  pub is_open : IsOpen table sd ctx
  pub no_eof : ctx.eof ≡ false
  pub filled : All IsFilled ctx.app_send_queue
  pub to_read : joined ctx.app_send_queue ≡ inbound
  pub written : joined ctx.app_recv_queue ≡ outbound

left-IsFilled :
    (node : Bytes) (rest : PacketQueue) (n : ℕ)
    → IsFilled node
    → All IsFilled rest
    → 0 < n
    → let d = dequeue_node node rest n true in All IsFilled d.queue × (0 < d.packet_len)
unfolding dequeue_node
left-IsFilled node rest n filled more positive = elim (Bool-cases (ltb n (length node))) [
  | inl part ↦
      rw part ((omega (arith, length-drop n node, ltb→lt n (length node) part), more), positive)
  | inr whole ↦ rw whole (more, filled)
]

packet_SomeRead :
    (sd : ℕ) (table : Table) (n : ℕ) (inbound outbound : Bytes) (ctx : MysockContext) (node : Bytes)
    (rest : PacketQueue)
    → IsOpen table sd ctx
    → ctx.eof ≡ false
    → ctx.app_send_queue ≡ node ∷ rest
    → All IsFilled (node ∷ rest)
    → joined (node ∷ rest) ≡ inbound
    → joined ctx.app_recv_queue ≡ outbound
    → 0 < n
    → SomeRead (IsOpenStream sd) (myread table sd n) n inbound outbound
packet_SomeRead sd table n inbound outbound ctx node rest is_open no_eof waits filled to_read
      written positive =
    let d : Dequeued = dequeue_node node rest n true in
    let ctx' : MysockContext = after_read ctx d in
    let (front, few, counted) = dequeue_front node rest n in
    let (more, some_bytes) = left-IsFilled node rest n filled.0 filled.1 positive in
    record {
      got = d.copied;
      rest = joined d.queue;
      left = put_context table ctx';
      gives =
          read_node table sd n ctx node rest is_open no_eof waits
          ∙ ap (λ k. returns (ok k, d.copied, put_context table ctx')) counted;
      some_bytes = omega (arith, counted, some_bytes);
      few = few;
      front = sym to_read ∙ front;
      holds = record {
        ctx = ctx';
        is_open =
            put_context-IsOpen table sd ctx ctx' is_open is_open.numbered is_open.no_listener
              is_open.no_close;
        no_eof = rw (ne→== d.packet_len 0 (omega (arith, some_bytes))) no_eof;
        filled = more;
        to_read = refl;
        written = written;
      };
    }

read_queue :
    (sd : ℕ) (table : Table) (n b : ℕ) (inbound outbound : Bytes) (ctx : MysockContext)
    (queue : PacketQueue)
    → IsOpen table sd ctx
    → ctx.eof ≡ false
    → ctx.app_send_queue ≡ queue
    → All IsFilled queue
    → joined queue ≡ b ∷ inbound
    → joined ctx.app_recv_queue ≡ outbound
    → 0 < n
    → SomeRead (IsOpenStream sd) (myread table sd n) n (b ∷ inbound) outbound
unfolding joined
read_queue sd table n b inbound outbound ctx [] is_open no_eof waits filled to_read written
      positive =
    absurd (omega (arith, ap length to_read))
read_queue sd table n b inbound outbound ctx (node ∷ rest) is_open no_eof waits filled to_read
      written positive =
    packet_SomeRead sd table n (b ∷ inbound) outbound ctx node rest is_open no_eof waits filled
      to_read written positive

write_lem :
    (sd : ℕ) (table : Table) (inbound outbound buf : Bytes)
    → IsOpenStream sd table inbound outbound
    → (left : Table) × (mywrite table sd buf ≡ returns (ok (length buf), left))
      × IsOpenStream sd left inbound (outbound ++ buf)
unfolding mywrite write_to mysock_enqueue_buffer
write_lem sd table inbound outbound buf h =
    let ctx' : MysockContext = record h.ctx { app_recv_queue = h.ctx.app_recv_queue ++ buf ∷ [] } in
    (
      put_context table ctx',
      rw (get_context_open table sd h.ctx h.is_open, h.is_open.no_listener, h.is_open.no_close)
          refl,
      record {
        ctx = ctx';
        is_open =
            put_context-IsOpen table sd h.ctx ctx' h.is_open h.is_open.numbered
              h.is_open.no_listener h.is_open.no_close;
        no_eof = h.no_eof;
        filled = h.filled;
        to_read = h.to_read;
        written = joined-append h.ctx.app_recv_queue buf ∙ ap (λ o. o ++ buf) h.written;
      },
    )

-- An open mysocket is a stream in both directions.
pub mysocket-IsStream : (sd : ℕ) → IsStream (mysocket sd) (IsOpenStream sd)
mysocket-IsStream sd = record {
  reads = λ table n b inbound outbound h positive.
      read_queue sd table n b inbound outbound h.ctx h.ctx.app_send_queue h.is_open h.no_eof refl
        h.filled h.to_read h.written positive;
  writes = write_lem sd;
}
