-- ===== src/Transport/Loop/Closing.antt =====
-- The control loop keeps the flags and the state of a connection in step.
use computer_networks.Prelude.{
  ℕ, ◌+◌, ◌≡◌, refl, sym, ◌∙◌, Bool, true, false, Option, none, some, List, [], ◌∷◌, ◌==◌, ltb,
  if◌then◌else◌, length,
}
use computer_networks.Prelude.Words.{Bytes}
use computer_networks.Transport.State.{
  ConnectionState, closed, syn_sent, syn_rcvd, established, fin_wait_1, fin_wait_2, closing,
  close_wait, last_ack, Context, Socket, Wakeup,
}
use computer_networks.Transport.Segment.{
  seg_seq, seg_ack, seg_win, has_fin, has_ack, send_packet, header_size, stcp_mss, is_readable,
}
use computer_networks.Transport.Loop.{
  send_app_data, handle_fin, handle_ack, data_len, pass_up, hold_back, accept_data, handle_data,
  handle_segment, network_recv, request_close, and_then, on_close, iteration, control_loop,
}
use computer_networks.Transport.Loop.States.{
  IsConsistent, open_both, peer_closed, we_closed, we_closed_acked, both_closing, our_fin_last,
  all_closed, IsSteady, GivesSteady, fin-IsConsistent, ack-IsConsistent, lost-IsConsistent,
  close-IsConsistent,
}

if-IsSteady : (b : Bool) (s t : Socket) → IsSteady s → IsSteady t → IsSteady (if b then s else t)
if-IsSteady true s t hs ht = hs
if-IsSteady false s t hs ht = ht

-- Fields that the flags do not speak of may change.
data IsSameFlags (a b : Context) : Type 0 where
  same :
      b.fin_sent ≡ a.fin_sent
      → b.fin_received ≡ a.fin_received
      → b.fin_acked ≡ a.fin_acked
      → b.is_done ≡ a.is_done
      → IsSameFlags a b

same-IsConsistent :
    {a b : Context} (c : ConnectionState) → IsSameFlags a b → IsConsistent a c → IsConsistent b c
same-IsConsistent established (same e f g h) (open_both x y z w) =
    open_both (e ∙ x) (f ∙ y) (g ∙ z) (h ∙ w)
same-IsConsistent close_wait (same e f g h) (peer_closed x y z) =
    peer_closed (e ∙ x) (f ∙ y) (h ∙ z)
same-IsConsistent fin_wait_1 (same e f g h) (we_closed x y z w) =
    we_closed (e ∙ x) (f ∙ y) (g ∙ z) (h ∙ w)
same-IsConsistent fin_wait_2 (same e f g h) (we_closed_acked x y z) =
    we_closed_acked (e ∙ x) (g ∙ y) (h ∙ z ∙ sym f)
same-IsConsistent closing (same e f g h) (both_closing x y z) =
    both_closing (e ∙ x) (f ∙ y) (h ∙ z ∙ sym g)
same-IsConsistent last_ack (same e f g h) (our_fin_last x y z) =
    our_fin_last (e ∙ x) (f ∙ y) (h ∙ z)
same-IsConsistent closed (same e f g h) (all_closed x) = all_closed (h ∙ x)
same-IsConsistent syn_sent (same e f g h) k = elim k [ ]
same-IsConsistent syn_rcvd (same e f g h) k = elim k [ ]

send_app_data-IsSteady :
    (offered : Bytes) (s : Socket) → IsSteady s → IsSteady (send_app_data offered s)
unfolding send_app_data send_packet
send_app_data-IsSteady offered s h =
    if-IsSteady _ _ s (same-IsConsistent s.ctx.connection_state (same refl refl refl refl) h) h

handle_fin-IsSteady : (recv_seq : ℕ) (s : Socket) → IsSteady s → IsSteady (handle_fin recv_seq s)
unfolding handle_fin send_packet
handle_fin-IsSteady recv_seq s h = fin-IsConsistent s.ctx _ s.ctx.connection_state h

handle_ack-IsSteady : (recv_ack : ℕ) (s : Socket) → IsSteady s → IsSteady (handle_ack recv_ack s)
unfolding handle_ack
handle_ack-IsSteady recv_ack s h =
    if-IsSteady _ _ s (ack-IsConsistent s.ctx s.ctx.connection_state refl h) h

if_sent-IsSteady :
    (b : Bool) (s t : Socket)
    → s.ctx.fin_sent ≡ b
    → IsSteady s
    → (s.ctx.fin_sent ≡ false → IsSteady t)
    → IsSteady (if b then s else t)
if_sent-IsSteady true s t e h k = h
if_sent-IsSteady false s t e h k = k e

request_close-IsSteady : (s : Socket) → IsSteady s → IsSteady (request_close s)
unfolding request_close send_packet
request_close-IsSteady s h =
    if_sent-IsSteady s.ctx.fin_sent s _ refl h
      (λ e. close-IsConsistent s.ctx _ s.ctx.connection_state e h)

if-GivesSteady :
    (b : Bool) (o p : Option Socket)
    → GivesSteady o
    → GivesSteady p
    → GivesSteady (if b then o else p)
if-GivesSteady true o p ho hp = ho
if-GivesSteady false o p ho hp = hp

pass_up-IsSteady : (seq n : ℕ) (s : Socket) → IsSteady s → IsSteady (pass_up seq n s)
unfolding pass_up send_packet
pass_up-IsSteady seq n s h = same-IsConsistent s.ctx.connection_state (same refl refl refl refl) h

hold_back-IsSteady : (n : ℕ) (s : Socket) → IsSteady s → IsSteady (hold_back n s)
unfolding hold_back send_packet
hold_back-IsSteady n s h = same-IsConsistent s.ctx.connection_state (same refl refl refl refl) h

accept_data-GivesSteady : (seq n : ℕ) (s : Socket) → IsSteady s → GivesSteady (accept_data seq n s)
unfolding accept_data
accept_data-GivesSteady seq n s h =
    if-GivesSteady (seq == s.ctx.next_seq_expected) _ (some (hold_back n s))
      (if-GivesSteady _ (some (pass_up seq n s)) none (pass_up-IsSteady seq n s h) tt)
      (hold_back-IsSteady n s h)

handle_data-GivesSteady : (n seq : ℕ) (s : Socket) → IsSteady s → GivesSteady (handle_data n seq s)
unfolding handle_data send_packet
handle_data-GivesSteady n seq s h =
    if-GivesSteady (ltb 0 (data_len n s.buf)) _ (some s)
      (if-GivesSteady (seq == s.ctx.ack_num) (accept_data seq (data_len n s.buf) s) _
        (accept_data-GivesSteady seq (data_len n s.buf) s h) h)
      h

handle_segment-GivesSteady : (n : ℕ) (s : Socket) → IsSteady s → GivesSteady (handle_segment n s)
unfolding handle_segment
handle_segment-GivesSteady n s h =
    let s₁ : Socket = record s { ctx = record s.ctx { peer_window_size = seg_win s.buf } } in
    let h₁ : IsSteady s₁ = same-IsConsistent s.ctx.connection_state (same refl refl refl refl) h in
    let s₂ : Socket = if has_fin s.buf then handle_fin (seg_seq s.buf) s₁ else s₁ in
    let h₂ : IsSteady s₂ =
      if-IsSteady (has_fin s.buf) _ s₁ (handle_fin-IsSteady (seg_seq s.buf) s₁ h₁) h₁ in
    let s₃ : Socket = if has_ack s.buf then handle_ack (seg_ack s.buf) s₂ else s₂ in
    handle_data-GivesSteady n (seg_seq s.buf) s₃
      (if-IsSteady (has_ack s.buf) _ s₂ (handle_ack-IsSteady (seg_ack s.buf) s₂ h₂) h₂)

and_then-GivesSteady :
    (o : Option Socket) (f : Socket → Option Socket)
    → GivesSteady o
    → ((s : Socket) → IsSteady s → GivesSteady (f s))
    → GivesSteady (and_then o f)
and_then-GivesSteady none f h k = tt
and_then-GivesSteady (some s) f h k = k s h

on_close-GivesSteady : (b : Bool) (s : Socket) → IsSteady s → GivesSteady (on_close b s)
unfolding on_close
on_close-GivesSteady b s h = if-IsSteady b (request_close s) s (request_close-IsSteady s h) h

iteration-GivesSteady : (w : Wakeup) (s : Socket) → IsSteady s → GivesSteady (iteration w s)
unfolding iteration network_recv
iteration-GivesSteady w s h =
    let s₁ : Socket = if w.app_data then send_app_data w.offered s else s in
    let h₁ : IsSteady s₁ = if-IsSteady w.app_data _ s (send_app_data-IsSteady w.offered s h) h in
    let d : Bytes = w.datagram in
    if-GivesSteady w.network_data _ _
      (if-GivesSteady (length d == 0) _ _ (lost-IsConsistent s₁.ctx s₁.ctx.connection_state refl h₁)
        (if-GivesSteady (is_readable (stcp_mss + header_size) d) _ none
          (and_then-GivesSteady (handle_segment (length d) (network_recv d s₁))
            (on_close w.close_requested)
            (handle_segment-GivesSteady (length d) (network_recv d s₁) h₁)
            (on_close-GivesSteady w.close_requested))
          tt))
      (on_close-GivesSteady w.close_requested s₁ h₁)

loop-GivesSteady : (ws : List Wakeup) (s : Socket) → IsSteady s → GivesSteady (control_loop ws s)
unfolding control_loop
loop-GivesSteady [] s h = h
loop-GivesSteady (w ∷ ws) s h = if-GivesSteady s.ctx.is_done (some s) _ h (
    and_then-GivesSteady (iteration w s) (control_loop ws) (iteration-GivesSteady w s h)
      (loop-GivesSteady ws))

-- From an established connection, whatever arrives and whatever the application does: the flags
-- go with the state all the way. Our FIN was sent in the states that wait for its acknowledgement
-- and in no open state before them; in `FIN_WAIT_2` the loop is over exactly if the peer's FIN has
-- come, in `CLOSING` exactly if ours was acknowledged, and in `CLOSED` always.
pub control_loop-IsConsistent :
    (ws : List Wakeup) (s s' : Socket)
    → IsConsistent s.ctx s.ctx.connection_state
    → control_loop ws s ≡ some s'
    → IsConsistent s'.ctx s'.ctx.connection_state
control_loop-IsConsistent ws s s' h e = rw e at (loop-GivesSteady ws s h)
