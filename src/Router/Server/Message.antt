-- ===== src/Router/Server/Message.antt =====
-- From a message of the server to the packet handlers.
use computer_networks.Prelude.{
  ℕ, ◌+◌, ◌-◌, ◌/◌, ◌%◌, ◌≤◌, ◌≡◌, ◌≢◌, refl, sym, inl, inr, true, false, none, List, [], ◌∷◌, ◌++◌,
  leb, length, take, drop, arith, Option-cases, length-append, le→ltb-false, le→leb,
}
use computer_networks.Prelude.Words.{Bytes}
use computer_networks.Prelude.Words.Slices.{take-append, drop-append}
use computer_networks.Router.State.{Interface, Router, Env}
use computer_networks.Router.Interfaces.Hardware.{c_string, sr_arp_req_not_for_us}
use computer_networks.Router.Machine.{go_on, pure}
use computer_networks.Router.Handlers.{sr_handlepacket}
use computer_networks.Router.Handlers.Ignored.{not_for_us_ignored}
use computer_networks.Router.Server.{
  net32, ServerCall, reads_on, vns_packet, Files, packet_message, act_on, take_message, take_length,
  sr_read_from_server_expect,
}
use computer_networks.Router.Server.Verified.{AreReady, giving, read_whole}

-- `htonl` into the bytes of a field.
abbrev pub word : ℕ → Bytes
word v = v / 16777216 % 256 ∷ v / 65536 % 256 ∷ v / 256 % 256 ∷ v % 256 ∷ []

-- A packet message behind its length: the command, the field of the interface's name, the frame.
abbrev pub packet_body : Bytes → Bytes → Bytes
packet_body name frame = word vns_packet ++ name ++ frame

abbrev pub packet_length : Bytes → ℕ
packet_length frame = 24 + length frame

-- The frame is handled, or dropped, which is the same.
packet_message_lem :
    (env : Env) (fuel v : ℕ) (name frame : Bytes) (r : Router)
    → length name ≡ 16
    → sr_arp_req_not_for_us r.if_list frame (c_string (name ++ frame)) ≢ none
    → packet_message env fuel (word v ++ packet_body name frame) r
      ≡ sr_handlepacket env fuel frame (c_string (name ++ frame)) r
unfolding packet_message
packet_message_lem env fuel v name frame r hn known =
    let long : leb 24 (length (word v ++ packet_body name frame)) ≡ true =
      le→leb 24 (length (word v ++ packet_body name frame))
        (omega (arith, length-append name frame)) in
    let behind : drop 16 (name ++ frame) ≡ frame = rw (← hn) (drop-append name frame) in
    elim (Option-cases (sr_arp_req_not_for_us r.if_list frame (c_string (name ++ frame)))) [
      | inl none_known ↦ absurd (known none_known)
      | inr (true, e) ↦
          rw (long, behind, e)
            (sym (not_for_us_ignored env fuel frame (c_string (name ++ frame)) r e))
      | inr (false, e) ↦ rw (long, behind, e) refl
    ]

-- A packet message is handled as the frame in it is, however the connection cuts it, and reading
-- goes on behind it: for a frame of no more than 9976 bytes, with calls enough that give bytes, and
-- if the message names an interface, where the test for ARP requests looks for it.
pub message_handled :
    (env : Env) (fuel : ℕ) (raw : Interface) (files : Files) (calls : List ServerCall)
    (name frame behind : Bytes) (r : Router)
    → length name ≡ 16
    → length frame ≤ 9976
    → AreReady calls
    → packet_length frame ≤ giving calls
    → sr_arp_req_not_for_us r.if_list frame (c_string (name ++ frame)) ≢ none
    → (left : List ServerCall) × (sr_read_from_server_expect env fuel raw files 0
          (record {
            stream = word (packet_length frame) ++ packet_body name frame ++ behind;
            calls = calls;
          })
          r
        ≡ go_on
            (sr_handlepacket env fuel frame (c_string (name ++ frame)) r)
            (λ handled. pure (reads_on (record { stream = behind; calls = left }))))
unfolding sr_read_from_server_expect take_length take_message act_on
message_handled env fuel raw files calls name frame behind r hn short ready enough known =
    let len : ℕ = packet_length frame in
    let body : Bytes = packet_body name frame in
    let size : length body ≡ len - 4 = omega (arith, length-append name frame, hn) in
    let (left, first, after) =
      read_whole calls 4 [] (word len ++ body ++ behind) ready (omega arith) (omega arith) in
    let (left', second, after') =
      read_whole left (len - 4) [] (body ++ behind) after.ready (omega (arith, after.enough))
        (omega (arith, length-append body behind, size)) in
    let taken : take (len - 4) (body ++ behind) ≡ body = rw (← size) (take-append body behind) in
    let dropped : drop (len - 4) (body ++ behind) ≡ behind =
      rw (← size) (drop-append body behind) in
    let is_len : net32 (word len) 0 ≡ len = omega (arith, short) in
    let long : leb 8 (length (word len ++ body)) ≡ true =
      le→leb 8 (length (word len ++ body)) (omega (arith, size)) in
    (
      left',
      rw
          (
            first,
            is_len,
            le→ltb-false 10000 len (omega arith),
            le→ltb-false len 4 (omega arith),
            second,
            taken,
            dropped,
            long,
            packet_message_lem env fuel len name frame r hn known,
          )
          refl,
    )
