-- ===== src/Mysock/Stcp/Waiting.antt =====
-- `stcp_wait_for_event` misses no event, and `myconnect` does not wait for ever.
use computer_networks.Prelude.{
  ℕ, ◌/◌, ◌%◌, ◌≡◌, inl, inr, refl, sym, ap, ◌∙◌, Bool, true, false, not, ◌&&◌, List, [], ◌∷◌, ◌++◌,
  ◌==◌, arith, Bool-cases, length-append,
}
use computer_networks.Prelude.Words.{Bytes}
use computer_networks.Mysock.State.{
  MysockContext, Errno, no_error, eintr, ebadf, einval, emfile, eisconn, enotconn, eaddrnotavail,
  econnrefused, econnaborted, other, Outcome, returns, returns-returns, blocks-returns, failed,
  unless_error,
}
use computer_networks.Mysock.Queue.{mysock_enqueue_buffer}
use computer_networks.Mysock.Api.{mysock_wait_for_connection}
use computer_networks.Mysock.Stcp.{
  has_node, close_ready, look, Waking, woken, timed_out, stcp_wait_for_event, network_packet,
  without_eintr, stcp_unblock_application, bail_out, transport_thread_end,
}

-- What other threads do to a mysocket whose transport waits: a packet arrives, or the application
-- writes or asks for the close.
pub data Arrival : Type 0 where
  packet : Bytes → Arrival
  write : Bytes → Arrival
  close_request : Arrival

unfoldable pub arrive : Arrival → MysockContext → MysockContext
unfolding network_packet mysock_enqueue_buffer
arrive (packet p) ctx = network_packet ctx p
arrive (write buf) ctx = record ctx {
  app_recv_queue = mysock_enqueue_buffer ctx.app_recv_queue buf;
}
arrive close_request ctx = record ctx { close_requested = true }

-- The flags ask for the event, or, for a close, for the data that has to be passed on before it.
abbrev pub IsAwaited : ℕ → Arrival → Type 0
IsAwaited flags (packet p) = (flags / 2 % 2 == 1) ≡ true
IsAwaited flags (write buf) = (flags % 2 == 1) ≡ true
IsAwaited flags close_request = (flags % 2 == 1) ≡ true

has_node-enqueue : (q : List Bytes) (p : Bytes) → has_node (q ++ p ∷ []) ≡ true
has_node-enqueue q p = ground (arith, length-append q (p ∷ []))

-- The tests see what has arrived.
look-arrive :
    (flags : ℕ) (a : Arrival) (ctx : MysockContext)
    → IsAwaited flags a
    → ((look flags (arrive a ctx)).0 == 0) ≡ false
unfolding look arrive network_packet mysock_enqueue_buffer
look-arrive flags (packet p) ctx asked =
    rw (asked, has_node-enqueue ctx.network_recv_queue p) (ground arith)
look-arrive flags (write buf) ctx asked =
    rw (asked, has_node-enqueue ctx.app_recv_queue buf) (ground arith)
look-arrive flags close_request ctx asked = elim (Bool-cases (has_node ctx.app_recv_queue)) [
  | inl some_left ↦ rw (asked, some_left) (ground arith)
  | inr none_left ↦ rw (asked, none_left) (ground arith)
]

abbrev pub Returned : Outcome (ℕ × MysockContext) → Type 0
Returned call = (rc : ℕ) × (ctx' : MysockContext) × (call ≡ returns (rc, ctx'))

wait_sees :
    (flags : ℕ) (ctx : MysockContext) (wakings : List Waking)
    → ((look flags ctx).0 == 0) ≡ false
    → Returned (stcp_wait_for_event flags ctx wakings)
unfolding stcp_wait_for_event
wait_sees flags ctx [] seen = ((look flags ctx).0, (look flags ctx).1, rw seen refl)
wait_sees flags ctx (woken others ∷ wakings) seen =
    ((look flags ctx).0, (look flags ctx).1, rw seen refl)
wait_sees flags ctx (timed_out others ∷ wakings) seen =
    ((look flags ctx).0, (look flags ctx).1, rw seen refl)

-- A wait that is woken goes on with the changed context.
wait_on :
    (flags : ℕ) (ctx : MysockContext) (others : MysockContext → MysockContext)
    (wakings : List Waking)
    → ((look flags ctx).0 == 0) ≡ true
    → stcp_wait_for_event flags ctx (woken others ∷ wakings)
      ≡ stcp_wait_for_event flags (others (look flags ctx).1) wakings
unfolding stcp_wait_for_event
wait_on flags ctx others wakings none_seen = rw none_seen refl

-- However the waits before it ended, `stcp_wait_for_event` returns once a packet arrives, or the
-- application writes or asks for the close, if the flags ask for it (for a close: for data of the
-- application).
pub wait_misses_none :
    (flags : ℕ) (ctx : MysockContext) (before : List Waking) (a : Arrival) (after : List Waking)
    → IsAwaited flags a
    → Returned (stcp_wait_for_event flags ctx (before ++ woken (arrive a) ∷ after))
wait_misses_none flags ctx [] a after asked = elim (Bool-cases ((look flags ctx).0 == 0)) [
  | inr seen ↦ wait_sees flags ctx (woken (arrive a) ∷ after) seen
  | inl none_seen ↦ rw (wait_on flags ctx (arrive a) after none_seen) (
      wait_sees flags (arrive a (look flags ctx).1) after
        (look-arrive flags a (look flags ctx).1 asked))
]
wait_misses_none flags ctx (timed_out others ∷ before) a after asked =
    elim (Bool-cases ((look flags ctx).0 == 0)) [
      | inr seen ↦
          wait_sees flags ctx (timed_out others ∷ (before ++ woken (arrive a) ∷ after)) seen
      | inl none_seen ↦
          (0, others (look flags ctx).1, unfold stcp_wait_for_event in rw none_seen refl)
    ]
wait_misses_none flags ctx (woken others ∷ before) a after asked =
    elim (Bool-cases ((look flags ctx).0 == 0)) [
      | inr seen ↦ wait_sees flags ctx (woken others ∷ (before ++ woken (arrive a) ∷ after)) seen
      | inl none_seen ↦
          rw (wait_on flags ctx others (before ++ woken (arrive a) ∷ after) none_seen)
            (wait_misses_none flags (others (look flags ctx).1) before a after asked)
    ]

-- A wait that was not ended by its time limit gives what one round saw.
wait_saw :
    (flags rc : ℕ) (ctx ctx' : MysockContext) (wakings : List Waking)
    → stcp_wait_for_event flags ctx wakings ≡ returns (rc, ctx')
    → (rc == 0) ≡ false
    → (c : MysockContext) × ((rc, ctx') ≡ look flags c)
unfolding stcp_wait_for_event
wait_saw flags rc ctx ctx' [] e some_rc = elim (Bool-cases ((look flags ctx).0 == 0)) [
  | inl none_seen ↦ absurd (blocks-returns (rw none_seen at e))
  | inr seen ↦ (ctx, sym (returns-returns (rw seen at e)))
]
wait_saw flags rc ctx ctx' (timed_out others ∷ wakings) e some_rc =
    elim (Bool-cases ((look flags ctx).0 == 0)) [
      | inl none_seen ↦
          let zero_rc : 0 ≡ rc = ap (λ r. r.0) (returns-returns (rw none_seen at e)) in
          absurd (ground (arith, some_rc, zero_rc))
      | inr seen ↦ (ctx, sym (returns-returns (rw seen at e)))
    ]
wait_saw flags rc ctx ctx' (woken others ∷ wakings) e some_rc =
    elim (Bool-cases ((look flags ctx).0 == 0)) [
      | inl none_seen ↦
          wait_saw flags rc (others (look flags ctx).1) ctx' wakings (rw none_seen at e) some_rc
      | inr seen ↦ (ctx, sym (returns-returns (rw seen at e)))
    ]

no_node : (b : Bool) (q : List Bytes) → (b && not (has_node q)) ≡ true → q ≡ []
no_node b [] e = refl
no_node false (x ∷ q) e = absurd (ground (arith, e))
no_node true (x ∷ q) e = absurd (ground (arith, e))

look_close :
    (flags : ℕ) (c : MysockContext)
    → ((look flags c).0 / 4 == 1) ≡ true
    → ((look flags c).1.app_recv_queue ≡ [])
      × ((look flags c).1.close_requested ≡ false)
      × ((look flags c).0 % 2 ≡ 0)
unfolding look
look_close flags c closes = elim (Bool-cases (close_ready c)) [
  | inl ready ↦
      let none_left : c.app_recv_queue ≡ [] = no_node c.close_requested c.app_recv_queue ready in
      let empty : has_node c.app_recv_queue ≡ false = rw none_left refl in
      (none_left, rw ready refl, rw (ready, empty) (ground arith))
  | inr not_yet ↦ absurd (ground (arith, closes, not_yet))
]

-- The close is passed on only when no data of the application is left, it is not reported together
-- with such data, and the request is taken back, so that it is reported once.
pub close_comes_last :
    (flags rc : ℕ) (ctx ctx' : MysockContext) (wakings : List Waking)
    → stcp_wait_for_event flags ctx wakings ≡ returns (rc, ctx')
    → (rc / 4 == 1) ≡ true
    → (ctx'.app_recv_queue ≡ []) × (ctx'.close_requested ≡ false) × (rc % 2 ≡ 0)
close_comes_last flags rc ctx ctx' wakings e closes =
    let (c, saw) = wait_saw flags rc ctx ctx' wakings e (ground (arith, closes)) in
    let facts = look_close flags c (ap (λ r. r.0 / 4 == 1) (sym saw) ∙ closes) in
    (
      ap (λ r. r.1.app_recv_queue) saw ∙ facts.0,
      ap (λ r. r.1.close_requested) saw ∙ facts.1,
      ap (λ r. r.0 % 2) saw ∙ facts.2,
    )

never_silent :
    (e : Errno) (is_active : Bool)
    → (e' : Errno) × (unless_error (without_eintr (bail_out e is_active)) 0 ≡ failed e')
unfolding unless_error without_eintr bail_out
never_silent no_error true = (econnrefused, refl)
never_silent no_error false = (econnaborted, refl)
never_silent eintr true = (econnrefused, refl)
never_silent eintr false = (econnaborted, refl)
never_silent ebadf b = (ebadf, refl)
never_silent einval b = (einval, refl)
never_silent emfile b = (emfile, refl)
never_silent eisconn b = (eisconn, refl)
never_silent enotconn b = (enotconn, refl)
never_silent eaddrnotavail b = (eaddrnotavail, refl)
never_silent econnrefused b = (econnrefused, refl)
never_silent econnaborted b = (econnaborted, refl)
never_silent (other n) b = (other n, refl)

-- The transport thread's end always lets the application go on, and a connection that was not
-- established by then is reported as failed, whatever `errno` says.
pub thread_end_unblocks :
    (errno : Errno) (ctx : MysockContext)
    → ctx.blocking ≡ true
    → (ctx' : MysockContext) × (e : Errno) × (transport_thread_end errno ctx ≡ returns ctx')
      × (mysock_wait_for_connection ctx' ≡ returns (failed e))
unfolding transport_thread_end stcp_unblock_application mysock_wait_for_connection
thread_end_unblocks errno ctx waits =
    let (e, silent) = never_silent errno ctx.is_active in
    (
      record ctx {
        blocking = false;
        stcp_errno = without_eintr (bail_out errno ctx.is_active);
        app_send_queue = mysock_enqueue_buffer ctx.app_send_queue [];
      },
      e,
      rw waits refl,
      rw silent refl,
    )
