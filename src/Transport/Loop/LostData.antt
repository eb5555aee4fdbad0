-- ===== src/Transport/Loop/LostData.antt =====
-- A FIN that carries data.
use computer_networks.Prelude.{
  ℕ, ◌+◌, ◌%◌, ◌^◌, ◌<◌, ◌≡◌, ◌≢◌, refl, ◌∙◌, true, some, ◌==◌, ltb, if◌then◌else◌, arith,
  Bool-cases, inl, inr, ne→==,
}
use computer_networks.Transport.State.{
  ConnectionState, closed, syn_sent, syn_rcvd, established, fin_wait_1, fin_wait_2, closing,
  close_wait, last_ack, Context, Socket,
}
use computer_networks.Transport.Segment.{seg_seq, seg_ack, seg_win, has_fin, has_ack, send_packet}
use computer_networks.Transport.Loop.{
  handle_fin, handle_ack, fin_acked_in, data_len, handle_data, handle_segment,
}

-- The acknowledgement of our FIN changes neither the data nor the number that is expected.
ack_num-fin_acked_in :
    (c : ConnectionState) (ctx : Context) → (fin_acked_in c ctx).ack_num ≡ ctx.ack_num
unfolding fin_acked_in
ack_num-fin_acked_in closed ctx = refl
ack_num-fin_acked_in syn_sent ctx = refl
ack_num-fin_acked_in syn_rcvd ctx = refl
ack_num-fin_acked_in established ctx = refl
ack_num-fin_acked_in fin_wait_1 ctx = refl
ack_num-fin_acked_in fin_wait_2 ctx = refl
ack_num-fin_acked_in closing ctx = refl
ack_num-fin_acked_in close_wait ctx = refl
ack_num-fin_acked_in last_ack ctx = refl

handle_ack_keeps :
    (a : ℕ) (s : Socket)
    → ((handle_ack a s).delivered ≡ s.delivered) × ((handle_ack a s).ctx.ack_num ≡ s.ctx.ack_num)
unfolding handle_ack
handle_ack_keeps a s = elim (Bool-cases (a == s.ctx.sequence_num)) [
  | inl e ↦ rw e (refl, ack_num-fin_acked_in s.ctx.connection_state s.ctx)
  | inr e ↦ rw e (refl, refl)
]

-- Data that starts at another number than the expected one is not passed up.
handle_data_refused :
    (n seq : ℕ) (s : Socket)
    → seq ≢ s.ctx.ack_num
    → (s' : Socket) × (handle_data n seq s ≡ some s')
      × (s'.delivered ≡ s.delivered)
      × (s'.ctx.ack_num ≡ s.ctx.ack_num)
unfolding handle_data send_packet
handle_data_refused n seq s ne = elim (Bool-cases (ltb 0 (data_len n s.buf))) [
  | inl e ↦ rw (e, ne→== seq s.ctx.ack_num ne) (_, refl, refl, refl)
  | inr e ↦ rw e (s, refl, refl, refl)
]

-- Data that comes in one segment with a FIN is lost: none of it is passed up, and the
-- acknowledgement counts the FIN alone.
pub fin_drops_data :
    (n : ℕ) (s : Socket)
    → has_fin s.buf ≡ true
    → seg_seq s.buf < 2 ^ 32
    → (s' : Socket) × (handle_segment n s ≡ some s')
      × (s'.delivered ≡ s.delivered)
      × (s'.ctx.ack_num ≡ (seg_seq s.buf + 1) % 2 ^ 32)
unfolding handle_segment handle_fin send_packet
fin_drops_data n s fin small =
    let s₁ : Socket = record s { ctx = record s.ctx { peer_window_size = seg_win s.buf } } in
    let s₂ : Socket = handle_fin (seg_seq s.buf) s₁ in
    let s₃ : Socket = if has_ack s.buf then handle_ack (seg_ack s.buf) s₂ else s₂ in
    let kept : (s₃.delivered ≡ s.delivered) × (s₃.ctx.ack_num ≡ (seg_seq s.buf + 1) % 2 ^ 32) =
      elim (Bool-cases (has_ack s.buf)) [
        | inl e ↦ rw e (handle_ack_keeps (seg_ack s.buf) s₂)
        | inr e ↦ rw e (refl, refl)
      ] in
    let (s', e, same, num) =
      handle_data_refused n (seg_seq s.buf) s₃ (λ e. omega (arith, kept.1, e, small)) in
    rw fin (s', e, same ∙ kept.0, num ∙ kept.1)
