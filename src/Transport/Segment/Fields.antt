-- ===== src/Transport/Segment/Fields.antt =====
-- A segment that is sent is read back as it was meant.
use computer_networks.Prelude.{ℕ, ◌-◌, ◌^◌, ◌≤◌, ◌<◌, ◌≡◌, refl, drop, arith}
use computer_networks.Prelude.Words.{Bytes, byte}
use computer_networks.Transport.State.{Context}
use computer_networks.Transport.Segment.{
  segment, seg_seq, seg_ack, seg_win, data_start, header_size,
}

-- The receiver of a segment reads the sender's sequence number, acknowledgement, flags and free
-- window, finds the data behind 20 bytes of header, and finds all of it, if the sender's numbers
-- fit their fields and no more is buffered than the window holds.
pub segment_fields :
    (ctx : Context) (payload : Bytes) (flags : ℕ)
    → ctx.sequence_num < 2 ^ 32
    → ctx.ack_num < 2 ^ 32
    → ctx.recv_buffer_used ≤ ctx.recv_window_size
    → ctx.recv_window_size < 2 ^ 16
    → (seg_seq (segment ctx payload flags) ≡ ctx.sequence_num)
      × (seg_ack (segment ctx payload flags) ≡ ctx.ack_num)
      × (byte (segment ctx payload flags) 13 ≡ flags)
      × (seg_win (segment ctx payload flags) ≡ ctx.recv_window_size - ctx.recv_buffer_used)
      × (data_start (segment ctx payload flags) ≡ header_size)
      × (drop header_size (segment ctx payload flags) ≡ payload)
unfolding segment
segment_fields ctx payload flags h k fits small =
    (omega arith, omega arith, refl, omega arith, refl, refl)
