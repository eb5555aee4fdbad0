-- ===== src/Transport/Segment.antt =====
-- The segments of transport-layer/src/transport.c: `send_packet` and the fields of `STCPHeader`.
pub mod Fields
use computer_networks.Prelude.{
  ℕ, ◌+◌, ◌-◌, ◌*◌, ◌/◌, ◌%◌, ◌^◌, Bool, true, false, List, [], ◌∷◌, ◌++◌, ◌==◌, ◌&&◌, leb, length,
}
use computer_networks.Prelude.Words.{Bytes, byte}
use computer_networks.Transport.State.{Context, Socket}

-- `htonl` and `htons` into the bytes of a field, and `ntohl` and `ntohs` of one.
abbrev pub be32 : ℕ → Bytes
be32 v = v / 16777216 % 256 ∷ v / 65536 % 256 ∷ v / 256 % 256 ∷ v % 256 ∷ []

abbrev pub be16 : ℕ → Bytes
be16 v = v / 256 % 256 ∷ v % 256 ∷ []

abbrev pub read32 : Bytes → ℕ → ℕ
read32 p o = 16777216 * byte p o + 65536 * byte p (o + 1) + 256 * byte p (o + 2) + byte p (o + 3)

abbrev pub read16 : Bytes → ℕ → ℕ
read16 p o = 256 * byte p o + byte p (o + 1)

abbrev pub header_size : ℕ
header_size = 20

-- `STCP_MSS`.
abbrev pub stcp_mss : ℕ
stcp_mss = 536

abbrev pub th_fin : ℕ
th_fin = 0x01

abbrev pub th_syn : ℕ
th_syn = 0x02

abbrev pub th_ack : ℕ
th_ack = 0x10

-- The fields at their offsets: sequence number, acknowledgement, flags, window.
abbrev pub seg_seq : Bytes → ℕ
seg_seq p = read32 p 4

abbrev pub seg_ack : Bytes → ℕ
seg_ack p = read32 p 8

abbrev pub seg_win : Bytes → ℕ
seg_win p = read16 p 14

-- `header->th_flags & TH_FIN`, and so on: one bit each.
abbrev pub has_fin : Bytes → Bool
has_fin p = byte p 13 % 2 == 1

abbrev pub has_syn : Bytes → Bool
has_syn p = byte p 13 / 2 % 2 == 1

abbrev pub has_ack : Bytes → Bool
has_ack p = byte p 13 / 16 % 2 == 1

-- `TCP_DATA_START`: `th_off` is the high half of its byte.
abbrev pub data_start : Bytes → ℕ
data_start p = byte p 12 / 16 * 4

-- The segment that `send_packet` builds. `th_off` is 5.
unfoldable pub segment : Context → Bytes → ℕ → Bytes
segment ctx data_ flags =
    let available_window = (ctx.recv_window_size + 2 ^ 16 - ctx.recv_buffer_used) % 2 ^ 16 in
    0 ∷ 0 ∷ 0 ∷ 0 ∷ be32 ctx.sequence_num
    ++ be32 ctx.ack_num
    ++ 0x50 ∷ flags ∷ be16 available_window
    ++ 0 ∷ 0 ∷ 0 ∷ 0 ∷ data_

-- No caller reads the result. The data is at most one `STCP_MSS` at every call.
unfoldable pub send_packet : Bytes → ℕ → Socket → Socket
send_packet data_ flags s = record s { sent = s.sent ++ segment s.ctx data_ flags ∷ [] }

-- `stcp_network_recv` gives the whole length of a datagram, also if `room` is less, and asserts that its
-- checksum is right: fewer bytes than a header fail an assertion of the checksum, and of more than
-- `room` it reads past the buffer. That the checksum of the others is right is a premise.
abbrev pub is_readable : ℕ → Bytes → Bool
is_readable room datagram = leb header_size (length datagram) && leb (length datagram) room
