-- ===== src/Transport/Connect/Handshake.antt =====
-- The three-way handshake between an active and a passive end.
use computer_networks.Prelude.{
  ℕ, ◌+◌, ◌%◌, ◌^◌, ◌≡◌, refl, true, some, [], ◌∷◌, ◌==◌, length, arith, eq→==,
}
use computer_networks.Prelude.Words.{Bytes}
use computer_networks.Transport.State.{syn_sent, syn_rcvd, established, Socket}
use computer_networks.Transport.Segment.{
  segment, send_packet, th_syn, th_ack, seg_ack, seg_win, header_size, stcp_mss,
}
use computer_networks.Prelude.Words.Slices.{joined}
use computer_networks.Transport.Loop.Stream.{IsFollowing}
use computer_networks.Transport.Connect.{
  initial_context, generate_initial_seq_num, opened, sequence_after, in_state, learn_peer,
  header_of, take_syn_ack, open_active, take_last_ack, take_syn, open_passive,
}

abbrev pub fresh : ℕ → Bytes → Socket
fresh random buf = record {
  ctx = initial_context random;
  sent = [];
  delivered = [];
  fins_reported = 0;
  buf = buf;
}

-- The three segments, and the two ends when they have been exchanged.
module _ (random₁ random₂ : ℕ) (buf₁ buf₂ : Bytes) where
  abbrev pub syn_sender : Socket
  syn_sender = in_state syn_sent (fresh random₁ buf₁)

  abbrev pub syn : Bytes
  syn = segment syn_sender.ctx [] th_syn

  abbrev pub syn_receiver : Socket
  syn_receiver = learn_peer syn (in_state syn_rcvd (fresh random₂ buf₂))

  abbrev pub syn_ack : Bytes
  syn_ack = segment syn_receiver.ctx [] (th_syn + th_ack)

  abbrev pub active_end : Socket
  active_end = learn_peer syn_ack (sequence_after (send_packet [] th_syn syn_sender))

  abbrev pub last_ack_segment : Bytes
  last_ack_segment = segment active_end.ctx [] th_ack

-- Whatever the two random numbers, the active end sends a SYN, the passive end that gets it answers by
-- a SYN with an acknowledgement, and the active end that gets this sends a last acknowledgement, which
-- the passive end waits for. None sends anything else, both then have an established connection, and
-- each expects the number that the other sends next: the control loop can start from there on both
-- sides.
pub handshake_agrees :
    (random₁ random₂ : ℕ) (buf₁ buf₂ : Bytes) (stream₁ stream₂ : Bytes)
    → length buf₁ ≡ stcp_mss + header_size
    → length buf₂ ≡ stcp_mss + header_size
    → (a : Socket) × (p : Socket) × (open_active
          (some (syn_ack random₁ random₂ buf₁ buf₂))
          (fresh random₁ buf₁)
        ≡ opened a)
      × (open_passive
            (some (syn random₁ random₂ buf₁ buf₂))
            (some (last_ack_segment random₁ random₂ buf₁ buf₂))
            (fresh random₂ buf₂)
          ≡ opened p)
      × (a.sent ≡ syn random₁ random₂ buf₁ buf₂ ∷ last_ack_segment random₁ random₂ buf₁ buf₂ ∷ [])
      × (p.sent ≡ syn_ack random₁ random₂ buf₁ buf₂ ∷ [])
      × (a.ctx.connection_state ≡ established)
      × (p.ctx.connection_state ≡ established)
      × IsFollowing p.ctx.sequence_num stream₂ a
      × IsFollowing a.ctx.sequence_num stream₁ p
unfolding open_active open_passive take_syn_ack take_syn take_last_ack header_of learn_peer
    sequence_after in_state send_packet segment initial_context generate_initial_seq_num joined
handshake_agrees random₁ random₂ buf₁ buf₂ stream₁ stream₂ room₁ room₂ =
    let isn₁ : ℕ = random₁ % 256 in
    let isn₂ : ℕ = random₂ % 256 in
    let first : (seg_ack (syn_ack random₁ random₂ buf₁ buf₂) == (isn₁ + 1) % 2 ^ 32) ≡ true =
      eq→== (seg_ack (syn_ack random₁ random₂ buf₁ buf₂)) ((isn₁ + 1) % 2 ^ 32) (omega arith) in
    let second : (seg_ack (last_ack_segment random₁ random₂ buf₁ buf₂) == (isn₂ + 1) % 2 ^ 32)
        ≡ true =
      eq→== (seg_ack (last_ack_segment random₁ random₂ buf₁ buf₂)) ((isn₂ + 1) % 2 ^ 32)
        (omega arith) in
    let answered : Socket =
      sequence_after (send_packet [] (th_syn + th_ack) (syn_receiver random₁ random₂ buf₁ buf₂)) in
    (
      in_state established (send_packet [] th_ack (active_end random₁ random₂ buf₁ buf₂)),
      in_state established (record answered {
        ctx = record answered.ctx {
          peer_window_size = seg_win (last_ack_segment random₁ random₂ buf₁ buf₂);
        };
      }),
      rw first refl,
      rw second refl,
      refl,
      refl,
      refl,
      refl,
      record {
        got = 0;
        within = omega arith;
        prefix = refl;
        acked = omega arith;
        expected = refl;
        room = room₁;
      },
      record {
        got = 0;
        within = omega arith;
        prefix = refl;
        acked = omega arith;
        expected = refl;
        room = room₂;
      },
    )
