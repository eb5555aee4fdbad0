-- ===== src/Transport/Loop/Stream.antt =====
-- What reaches the application: a prefix of the peer's stream, in whatever order and however
-- often its pieces arrive.
use computer_networks.Prelude.{
  ℕ, ◌+◌, ◌-◌, ◌%◌, ◌^◌, ◌≤◌, ◌<◌, ◌≡◌, refl, sym, ◌∙◌, ◌⊎◌, inl, inr, Bool, true, false, some,
  List, [], ◌==◌, ltb, leb, if◌then◌else◌, length, take, drop, arith, Bool-cases, le→leb, ==→eq,
}
use computer_networks.Prelude.Words.{Bytes, byte, slice, put, length-put, byte-put}
use computer_networks.Prelude.Words.Slices.{
  bytes_ext, byte-slice, length-slice, joined, joined-append, take-add,
}
use computer_networks.Transport.State.{
  ConnectionState, closed, syn_sent, syn_rcvd, established, fin_wait_1, fin_wait_2, closing,
  close_wait, last_ack, Context, Socket, Wakeup,
}
use computer_networks.Transport.Segment.{
  seg_seq, has_fin, data_start, send_packet, header_size, stcp_mss, th_ack,
}
use computer_networks.Transport.Loop.{
  send_app_data, handle_ack, fin_acked_in, data_len, pass_up, accept_data, handle_data, lost,
  request_close,
}

-- The datagram is a segment with no FIN that carries the peer's bytes from `offset` on.
pub record IsPiece (base : ℕ) (stream datagram : Bytes) : Type 0 where
  pub offset : ℕ
  pub at_least : header_size ≤ length datagram
  pub at_most : length datagram ≤ stcp_mss + header_size
  pub no_options : data_start datagram ≡ header_size
  pub no_fin : has_fin datagram ≡ false
  pub numbered : seg_seq datagram ≡ (base + offset) % 2 ^ 32
  pub inside : offset + (length datagram - header_size) ≤ length stream
  pub carries :
      drop header_size datagram ≡ take (length datagram - header_size) (drop offset stream)

-- A wakeup brings nothing from the network, or a failed receive, or a piece of the stream.
abbrev pub Brings : ℕ → Bytes → Wakeup → Type 0
Brings base stream w =
    ((w.network_data ≡ false) ⊎ (w.datagram ≡ [])) ⊎ IsPiece base stream w.datagram

-- The application has the first `got` bytes, and the next one is expected.
pub record Follows (base : ℕ) (stream : Bytes) (delivered : List Bytes) (ack next : ℕ) (buf : Bytes)
    : Type 0 where
  pub got : ℕ
  pub within : got ≤ length stream
  pub prefix : joined delivered ≡ take got stream
  pub acked : ack ≡ (base + got) % 2 ^ 32
  pub expected : next ≡ ack
  pub room : length buf ≡ stcp_mss + header_size

abbrev pub IsFollowing : ℕ → Bytes → Socket → Type 0
IsFollowing base stream s =
    Follows base stream s.delivered s.ctx.ack_num s.ctx.next_seq_expected s.buf

-- What a received datagram leaves in the buffer.
pub received_byte :
    (d buf : Bytes) (i : ℕ) → length d ≤ length buf → i < length d → byte (put 0 d buf) i ≡ byte d i
received_byte d buf i fits inside = ground (arith, byte-put 0 d buf i)

pub received_data :
    (d buf : Bytes) (k n : ℕ)
    → length d ≤ length buf
    → k + n ≤ length d
    → slice (put 0 d buf) k n ≡ slice d k n
received_data d buf k n fits inside =
    let len : length (slice (put 0 d buf) k n) ≡ n =
      length-slice (put 0 d buf) k n (omega (arith, length-put 0 d buf)) in
    bytes_ext (slice (put 0 d buf) k n) (slice d k n) (len ∙ sym (length-slice d k n inside))
      λ i lt.
        byte-slice (put 0 d buf) k n i (omega arith)
        ∙ received_byte d buf (k + i) fits (omega arith)
        ∙ sym (byte-slice d k n i (omega arith))

module _ (base : ℕ) (stream : Bytes) (short : length stream < 2 ^ 32) where
  pub if-follows :
      (b : Bool) (s t : Socket)
      → IsFollowing base stream s
      → IsFollowing base stream t
      → IsFollowing base stream (if b then s else t)
  if-follows true s t hs ht = hs
  if-follows false s t hs ht = ht

  pub send_app_data-follows :
      (offered : Bytes) (s : Socket)
      → IsFollowing base stream s
      → IsFollowing base stream (send_app_data offered s)
  unfolding send_app_data send_packet
  send_app_data-follows offered s h = if-follows _ _ s h h

  pub request_close-follows :
      (s : Socket) → IsFollowing base stream s → IsFollowing base stream (request_close s)
  unfolding request_close send_packet
  request_close-follows s h = if-follows s.ctx.fin_sent s _ h h

  pub lost-follows :
      (s : Socket)
      → IsFollowing base stream s
      → IsFollowing base stream (record s { ctx = lost s.ctx.connection_state s.ctx })
  unfolding lost
  lost-follows s h =
      rw ((kept s.ctx.connection_state s.ctx).0, (kept s.ctx.connection_state s.ctx).1) h
    where
      kept :
          (c : ConnectionState) (ctx : Context)
          → ((lost c ctx).ack_num ≡ ctx.ack_num)
            × ((lost c ctx).next_seq_expected ≡ ctx.next_seq_expected)
      kept closed ctx = (refl, refl)
      kept syn_sent ctx = (refl, refl)
      kept syn_rcvd ctx = (refl, refl)
      kept established ctx = (refl, refl)
      kept fin_wait_1 ctx = (refl, refl)
      kept fin_wait_2 ctx = (refl, refl)
      kept closing ctx = (refl, refl)
      kept close_wait ctx = (refl, refl)
      kept last_ack ctx = (refl, refl)

  pub handle_ack-follows :
      (recv_ack : ℕ) (s : Socket)
      → IsFollowing base stream s
      → IsFollowing base stream (handle_ack recv_ack s)
  unfolding handle_ack fin_acked_in
  handle_ack-follows recv_ack s h =
      if-follows (recv_ack == s.ctx.sequence_num) _ s
        (rw ((kept s.ctx.connection_state s.ctx).0, (kept s.ctx.connection_state s.ctx).1) h) h
    where
      kept :
          (c : ConnectionState) (ctx : Context)
          → ((fin_acked_in c ctx).ack_num ≡ ctx.ack_num)
            × ((fin_acked_in c ctx).next_seq_expected ≡ ctx.next_seq_expected)
      kept closed ctx = (refl, refl)
      kept syn_sent ctx = (refl, refl)
      kept syn_rcvd ctx = (refl, refl)
      kept established ctx = (refl, refl)
      kept fin_wait_1 ctx = (refl, refl)
      kept fin_wait_2 ctx = (refl, refl)
      kept closing ctx = (refl, refl)
      kept close_wait ctx = (refl, refl)
      kept last_ack ctx = (refl, refl)

  -- Passing up the piece that is expected.
  pass_up-follows :
      (d : Bytes) (p : IsPiece base stream d) (s : Socket)
      → (h : IsFollowing base stream s) → p.offset ≡ h.got
      → slice s.buf (data_start s.buf) (length d - header_size) ≡ drop header_size d
      → IsFollowing base stream (pass_up (seg_seq d) (length d - header_size) s)
  unfolding pass_up send_packet
  pass_up-follows d p s h here same =
      let n : ℕ = length d - header_size in
      record {
        got = h.got + n;
        within = omega (arith, p.inside);
        prefix =
            joined-append s.delivered (slice s.buf (data_start s.buf) n)
            ∙ rw (same, h.prefix, p.carries, here) (take-add h.got n stream);
        acked = omega (arith, h.acked);
        expected = omega (arith, h.acked, p.numbered, here);
        room = h.room;
      }

  -- A piece that starts at the next expected number is the expected one.
  expected_offset :
      (d : Bytes) (p : IsPiece base stream d) (s : Socket) (h : IsFollowing base stream s)
      → seg_seq d ≡ s.ctx.ack_num
      → p.offset ≡ h.got
  expected_offset d p s h e = omega (arith, short, p.numbered, h.acked, p.inside, h.within)

  pub handle_data-follows :
      (d : Bytes) (p : IsPiece base stream d) (s : Socket)
      → (h : IsFollowing base stream s)
      → slice s.buf header_size (length d - header_size) ≡ drop header_size d
      → data_start s.buf ≡ header_size
      → (s' : Socket) × (handle_data (length d) (seg_seq d) s ≡ some s')
        × IsFollowing base stream s'
  unfolding handle_data data_len accept_data send_packet
  handle_data-follows d p s h same starts =
      let n : ℕ = length d - header_size in
      let len : (length d + 2 ^ 64 - data_start s.buf) % 2 ^ 64 ≡ n =
        omega (arith, starts, p.at_least, p.at_most) in
      elim (Bool-cases (ltb 0 n)) [
        | inr none_carried ↦ (s, rw (len, none_carried) refl, h)
        | inl some_carried ↦ elim (Bool-cases (seg_seq d == s.ctx.ack_num)) [
          | inr other ↦ (send_packet [] th_ack s, rw (len, some_carried, other) refl, h)
          | inl e ↦
              let next : (seg_seq d == s.ctx.next_seq_expected) ≡ true = rw (h.expected) e in
              let fits : leb (data_start s.buf + n) (length s.buf) ≡ true =
                le→leb (data_start s.buf + n) (length s.buf)
                  (omega (arith, starts, h.room, p.at_most, p.at_least)) in
              (
                pass_up (seg_seq d) n s,
                rw (len, some_carried, e, next, fits) refl,
                pass_up-follows d p s h
                    (expected_offset d p s h (==→eq (seg_seq d) s.ctx.ack_num e)) (rw starts same),
              )
        ]
      ]
