-- ===== src/Transport/Loop/Delivery.antt =====
-- The rounds of the control loop on the pieces of the peer's stream.
use computer_networks.Prelude.{
  ℕ, ◌+◌, ◌-◌, ◌^◌, ◌≤◌, ◌<◌, ◌≡◌, refl, sym, ◌∙◌, inl, inr, Bool, true, false, Option, some, List,
  [], ◌∷◌, ◌==◌, if◌then◌else◌, length, drop, arith, All, Bool-cases, ne→==, le→leb, take_all,
  length-drop,
}
use computer_networks.Prelude.Words.{Bytes, byte, slice, put, length-put}
use computer_networks.Transport.State.{Socket, Wakeup}
use computer_networks.Transport.Segment.{
  seg_seq, seg_ack, seg_win, has_fin, has_ack, data_start, header_size, stcp_mss,
}
use computer_networks.Transport.Loop.{
  send_app_data, handle_ack, handle_data, handle_segment, network_recv, request_close, and_then,
  on_close, iteration, control_loop,
}
use computer_networks.Transport.Loop.Stream.{
  IsPiece, Brings, IsFollowing, if-follows, send_app_data-follows, request_close-follows,
  lost-follows, handle_ack-follows, handle_data-follows, received_byte, received_data,
}

true_is_false : true ≡ false → ⊥
true_is_false e = cc

module _ (base : ℕ) (stream : Bytes) (short : length stream < 2 ^ 32) where
  buf-handle_ack : (recv_ack : ℕ) (s : Socket) → (handle_ack recv_ack s).buf ≡ s.buf
  unfolding handle_ack
  buf-handle_ack recv_ack s = ground arith

  -- The data of a piece that fills the front of the buffer.
  data_of_piece :
      (d : Bytes) (p : IsPiece base stream d) (s : Socket) (buf : Bytes)
      → length d ≤ length buf
      → s.buf ≡ put 0 d buf
      → data_start (put 0 d buf) ≡ header_size
      → IsFollowing base stream s
      → (s' : Socket) × (handle_data (length d) (seg_seq d) s ≡ some s')
        × IsFollowing base stream s'
  data_of_piece d p s buf fits front starts h =
      let n : ℕ = length d - header_size in
      let same : slice (put 0 d buf) header_size n ≡ drop header_size d =
        received_data d buf header_size n fits (omega (arith, p.at_least))
        ∙ take_all n (drop header_size d) (omega (arith, length-drop header_size d)) in
      handle_data-follows base stream short d p s h (rw front same) (rw front starts)

  handle_segment-follows :
      (d : Bytes) (p : IsPiece base stream d) (s : Socket)
      → IsFollowing base stream s
      → (s' : Socket) × (handle_segment (length d) (network_recv d s) ≡ some s')
        × IsFollowing base stream s'
  unfolding handle_segment network_recv
  handle_segment-follows d p s h =
      let fits : length d ≤ length s.buf = omega (arith, h.room, p.at_most) in
      let at : (i : ℕ) → i < header_size → byte (put 0 d s.buf) i ≡ byte d i =
        λ i lt. received_byte d s.buf i fits (omega (arith, p.at_least)) in
      let no_fin : has_fin (put 0 d s.buf) ≡ false = rw (at 13 (omega arith)) p.no_fin in
      let starts : data_start (put 0 d s.buf) ≡ header_size =
        rw (at 12 (omega arith)) p.no_options in
      let numbered : seg_seq (put 0 d s.buf) ≡ seg_seq d =
        omega
          (arith, at 4 (omega arith), at 5 (omega arith), at 6 (omega arith), at 7 (omega arith)) in
      let s₁ : Socket = record s {
        buf = put 0 d s.buf;
        ctx = record s.ctx { peer_window_size = seg_win (put 0 d s.buf) };
      } in
      let h₁ : IsFollowing base stream s₁ = record {
        got = h.got;
        within = h.within;
        prefix = h.prefix;
        acked = h.acked;
        expected = h.expected;
        room = length-put 0 d s.buf ∙ h.room;
      } in
      let a : ℕ = seg_ack (put 0 d s.buf) in
      elim (Bool-cases (has_ack (put 0 d s.buf))) [
        | inr e ↦ rw (no_fin, e, numbered) (data_of_piece d p s₁ s.buf fits refl starts h₁)
        | inl e ↦
            rw (no_fin, e, numbered)
              (data_of_piece d p (handle_ack a s₁) s.buf fits (buf-handle_ack a s₁) starts
                (handle_ack-follows base stream short a s₁ h₁))
      ]

  on_close-follows :
      (requested : Bool) (s : Socket)
      → IsFollowing base stream s
      → (s' : Socket) × (on_close requested s ≡ some s') × IsFollowing base stream s'
  unfolding on_close
  on_close-follows requested s h = (
    (if requested then request_close s else s),
    refl,
    if-follows base stream short requested (request_close s) s
        (request_close-follows base stream short s h) h,
  )

  -- A step that follows, and then one that follows.
  and_then-follows :
      (o : Option Socket) (f : Socket → Option Socket)
      → (s : Socket) × (o ≡ some s) × IsFollowing base stream s
      → ((s : Socket)
          → IsFollowing base stream s
          → (s' : Socket) × (f s ≡ some s') × IsFollowing base stream s')
      → (s' : Socket) × (and_then o f ≡ some s') × IsFollowing base stream s'
  and_then-follows o f (s, e, h) k = rw e (k s h)

  -- The test of the loop.
  unless_done-follows :
      (is_done : Bool) (s : Socket) (o : Option Socket)
      → IsFollowing base stream s
      → (s' : Socket) × (o ≡ some s') × IsFollowing base stream s'
      → (s' : Socket) × ((if is_done then some s else o) ≡ some s') × IsFollowing base stream s'
  unless_done-follows true s o h k = (s, refl, h)
  unless_done-follows false s o h k = k

  iteration-follows :
      (w : Wakeup) (s : Socket)
      → Brings base stream w
      → IsFollowing base stream s
      → (s' : Socket) × (iteration w s ≡ some s') × IsFollowing base stream s'
  unfolding iteration
  iteration-follows w s b h =
      let s₁ : Socket = if w.app_data then send_app_data w.offered s else s in
      let h₁ : IsFollowing base stream s₁ =
        if-follows base stream short w.app_data (send_app_data w.offered s) s
          (send_app_data-follows base stream short w.offered s h) h in
      elim (Bool-cases w.network_data) [
        | inr quiet ↦ rw quiet (on_close-follows w.close_requested s₁ h₁)
        | inl busy ↦ elim b [
          | inl (inl quiet) ↦ absurd (true_is_false (sym busy ∙ quiet))
          | inl (inr empty) ↦ rw (busy, empty) (_, refl, lost-follows base stream short s₁ h₁)
          | inr p ↦
              let filled : (length w.datagram == 0) ≡ false =
                ne→== (length w.datagram) 0 (λ e. omega (arith, p.at_least)) in
              rw
                (
                  busy,
                  filled,
                  le→leb header_size (length w.datagram) p.at_least,
                  le→leb (length w.datagram) (stcp_mss + header_size) p.at_most,
                )
                (and_then-follows _ (on_close w.close_requested)
                  (handle_segment-follows w.datagram p s₁ h₁) (on_close-follows w.close_requested))
        ]
      ]

-- Take a socket that has passed up the first bytes of the peer's stream and expects the next one,
-- and let each wakeup bring nothing from the network, a failed receive, or a segment with a piece
-- of the stream: in any order, with repetitions and gaps, whatever the application writes, and
-- whenever it asks to close. The loop then reads nothing outside its buffer, and what was passed
-- up is again the first bytes of the stream.
pub control_loop-follows :
    (base : ℕ) (stream : Bytes) (ws : List Wakeup) (s : Socket)
    → length stream < 2 ^ 32
    → All (Brings base stream) ws
    → IsFollowing base stream s
    → (s' : Socket) × (control_loop ws s ≡ some s') × IsFollowing base stream s'
unfolding control_loop
control_loop-follows base stream [] s short b h = (s, refl, h)
control_loop-follows base stream (w ∷ ws) s short b h =
    unless_done-follows base stream short s.ctx.is_done s _ h (
      and_then-follows base stream short (iteration w s) (control_loop ws)
        (iteration-follows base stream short w s b.0 h)
        (λ s' h'. control_loop-follows base stream ws s' short b.1 h'))
