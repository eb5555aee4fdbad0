-- ===== src/Mysock/Api/EndOfFile.antt =====
-- When `myread` gives 0, and what it gives after that.
use computer_networks.Prelude.{
  ℕ, zero, suc, ◌<◌, ◌≡◌, ◌⊎◌, inl, inr, refl, ap, ◌∙◌, true, false, Option, none, some, [], ◌∷◌,
  ◌==◌, if◌then◌else◌, length, get_or, arith, lt→ltb, le→ltb-false, eq→==,
}
use computer_networks.Prelude.Words.{Bytes}
use computer_networks.Mysock.State.{MysockContext, PacketQueue, returns, ok}
use computer_networks.Mysock.Queue.{Dequeued, dequeue_node, mysock_dequeue_buffer}
use computer_networks.Mysock.Table.{
  Table, max_num_connections, context_at, mysock_get_context, set_entry, put_context,
}
use computer_networks.Mysock.Table.Descriptors.{entry-set_self}
use computer_networks.Mysock.Api.{take_read, read_from, myread}

-- `sd` is the descriptor of an open mysocket that does not listen, with the context `ctx`.
pub record IsOpen (table : Table) (sd : ℕ) (ctx : MysockContext) : Type 0 where
  pub in_range : sd < max_num_connections
  pub entries : length table ≡ max_num_connections
  pub here : get_or table sd none ≡ some ctx
  pub numbered : ctx.my_sd ≡ sd
  pub no_listener : ctx.listening ≡ false
  pub no_close : ctx.close_requested ≡ false

pub get_context_open :
    (table : Table) (sd : ℕ) (ctx : MysockContext)
    → IsOpen table sd ctx
    → mysock_get_context table sd ≡ returns ctx
unfolding mysock_get_context context_at
get_context_open table sd ctx h =
    rw (lt→ltb sd max_num_connections h.in_range, h.here, eq→== ctx.my_sd sd h.numbered) refl

length-set_entry :
    (k : ℕ) (e : Option MysockContext) (es : Table) → length (set_entry k e es) ≡ length es
unfolding set_entry
length-set_entry k e [] = refl
length-set_entry zero e (x ∷ es) = refl
length-set_entry (suc k) e (x ∷ es) = ap suc (length-set_entry k e es)

-- A context that was changed is found, changed.
pub put_context-IsOpen :
    (table : Table) (sd : ℕ) (ctx ctx' : MysockContext)
    → IsOpen table sd ctx
    → ctx'.my_sd ≡ sd
    → ctx'.listening ≡ false
    → ctx'.close_requested ≡ false
    → IsOpen (put_context table ctx') sd ctx'
unfolding put_context
put_context-IsOpen table sd ctx ctx' h same no_listener no_close = record {
  in_range = h.in_range;
  entries = length-set_entry ctx'.my_sd (some ctx') table ∙ h.entries;
  here =
      ap (λ k. get_or (set_entry k (some ctx') table) sd none) same
      ∙ entry-set_self sd (some ctx') table (omega (arith, h.in_range, h.entries));
  numbered = same;
  no_listener = no_listener;
  no_close = no_close;
}

-- A read at the end of the file.
read_after_eof :
    (table : Table) (sd buf_len : ℕ) (ctx : MysockContext)
    → IsOpen table sd ctx
    → ctx.eof ≡ true
    → myread table sd buf_len ≡ returns (ok 0, [], table)
unfolding myread read_from
read_after_eof table sd buf_len ctx h ended =
    rw (get_context_open table sd ctx h, h.no_listener, h.no_close, ended) refl

-- The context that a read of `node` leaves.
abbrev pub after_read : MysockContext → Dequeued → MysockContext
after_read ctx d = record ctx {
  app_send_queue = d.queue;
  eof = if d.packet_len == 0 then true else ctx.eof;
}

pub read_node :
    (table : Table) (sd buf_len : ℕ) (ctx : MysockContext) (node : Bytes) (rest : PacketQueue)
    → IsOpen table sd ctx
    → ctx.eof ≡ false
    → ctx.app_send_queue ≡ node ∷ rest
    → let d = dequeue_node node rest buf_len true in
      myread table sd buf_len
      ≡ returns (ok d.packet_len, d.copied, put_context table (after_read ctx d))
unfolding myread read_from mysock_dequeue_buffer take_read
read_node table sd buf_len ctx node rest h more waits =
    rw (get_context_open table sd ctx h, h.no_listener, h.no_close, more, waits) refl

nothing_taken :
    (node : Bytes) (rest : PacketQueue) (buf_len : ℕ)
    → (node ≡ []) ⊎ (buf_len ≡ 0)
    → (dequeue_node node rest buf_len true).packet_len ≡ 0
unfolding dequeue_node
nothing_taken node rest buf_len (inl empty) = rw (empty, le→ltb-false buf_len 0 (omega arith)) refl
nothing_taken [] rest buf_len (inr short) = rw short refl
nothing_taken (x ∷ node) rest buf_len (inr short) = rw short (ground arith)

-- A read that meets the empty buffer of the peer's FIN gives 0, and so do all reads to come; and so
-- it is, whatever still waits, after a read that asks for 0 bytes of data that is there.
pub zero_read_ends :
    (table : Table) (sd buf_len : ℕ) (ctx : MysockContext) (node : Bytes) (rest : PacketQueue)
    → IsOpen table sd ctx
    → ctx.eof ≡ false
    → ctx.app_send_queue ≡ node ∷ rest
    → (node ≡ []) ⊎ (buf_len ≡ 0)
    → (copied : Bytes) × (table' : Table) × (myread table sd buf_len
        ≡ returns (ok 0, copied, table'))
      × ((later_len : ℕ) → myread table' sd later_len ≡ returns (ok 0, [], table'))
zero_read_ends table sd buf_len ctx node rest h more waits none_asked =
    let nothing = nothing_taken node rest buf_len none_asked in
    let d : Dequeued = dequeue_node node rest buf_len true in
    let ctx' : MysockContext = after_read ctx d in
    (
      d.copied,
      put_context table ctx',
      read_node table sd buf_len ctx node rest h more waits
          ∙ ap (λ n. returns (ok n, d.copied, put_context table ctx')) nothing,
      λ later_len.
          read_after_eof (put_context table ctx') sd later_len ctx'
            (put_context-IsOpen table sd ctx ctx' h h.numbered h.no_listener h.no_close)
            (rw (eq→== d.packet_len 0 nothing) refl),
    )
