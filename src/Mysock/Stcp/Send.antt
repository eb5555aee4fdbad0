-- ===== src/Mysock/Stcp/Send.antt =====
-- `stcp_network_send` of transport-layer/src/stcp_api.c, and what the peer makes of a segment.
use computer_networks.Prelude.{
  ℕ, ◌+◌, ◌≤◌, ◌<◌, ◌≡◌, ◌≢◌, ◌⊎◌, inl, inr, ◌-◌, sym, ap, ◌∙◌, true, not, List, [], ◌∷◌, ◌++◌,
  ◌==◌, leb, ltb, length, arith, le→leb, lt→ltb, ne→==, length-append,
}
use mathlib.Core.List.{append-nil, append_assoc}
use computer_networks.Prelude.Words.{Bytes, byte, load16, le16, put, length-put, byte-put}
use computer_networks.Prelude.Words.Slices.{joined, length-slice}
use computer_networks.Mysock.State.{MysockContext, Outcome, returns, and_then, assert_that}
use computer_networks.Mysock.Api.{is_inet}
use computer_networks.Mysock.Stcp.{sin_port, sin_addr}
use computer_networks.Transport.TcpSum.{
  mysock_set_checksum, mysock_verify_checksum, sum_of, set_lem,
}

abbrev pub max_ip_payload_len : ℕ
max_ip_payload_len = 1500

-- The buffers of the call behind `packet`.
unfoldable pub gather : Bytes → List Bytes → Outcome Bytes
gather packet [] = returns packet
gather packet (next_buf ∷ bufs) =
    assert_that (leb (length packet + length next_buf) max_ip_payload_len)
      (gather (packet ++ next_buf) bufs)

-- `th_sport`, `th_dport`, `th_sum` and `th_urp`.
unfoldable pub fill_header : Bytes → Bytes → Bytes → Bytes
fill_header local_port peer_port packet =
    put 18 (le16 0) (put 16 (le16 0) (put 2 peer_port (put 0 local_port packet)))

-- The packet that is handed to `_network_send`, which sends it as it is. `local_port` is the result
-- of `_network_get_port`, and `local_addr` that of `_network_get_interface_ip`.
unfoldable pub stcp_network_send : MysockContext → Bytes → ℕ → Bytes → List Bytes → Outcome Bytes
unfolding gather fill_header
stcp_network_send ctx local_port local_addr src bufs =
    assert_that (leb (length src) max_ip_payload_len) (
      and_then (gather src bufs) (λ packet. assert_that (leb 20 (length packet)) (
        assert_that (is_inet ctx.peer_addr) (
          assert_that (not (load16 ctx.peer_addr 2 == 0)) (
            assert_that ctx.peer_addr_valid (
              assert_that (ltb 0 ctx.peer_addr_len) (
                mysock_set_checksum local_addr (sin_addr ctx.peer_addr)
                  (fill_header local_port (sin_port ctx.peer_addr) packet))))))))

-- The context of a mysocket that knows its peer, and has an address of its own.
pub record IsConnected (ctx : MysockContext) (local_addr : ℕ) : Type 0 where
  pub peer : 0 < sin_addr ctx.peer_addr
  pub local : 0 < local_addr
  pub inet : is_inet ctx.peer_addr ≡ true
  pub has_port : load16 ctx.peer_addr 2 ≢ 0
  pub valid : ctx.peer_addr_valid ≡ true
  pub has_addr : 0 < ctx.peer_addr_len
  pub whole : length ctx.peer_addr ≡ 16

-- `p` is `whole` with the ports and the checksum written into its header.
pub record IsStamped (local_port peer_port whole p : Bytes) : Type 0 where
  pub same_length : length p ≡ length whole
  pub source : (i : ℕ) → i < 2 → byte p i ≡ byte local_port i
  pub target : (i : ℕ) → i < 2 → byte p (2 + i) ≡ byte peer_port i
  pub rest : (i : ℕ) → ((4 ≤ i) × (i < 16)) ⊎ (20 ≤ i) → byte p i ≡ byte whole i

gather_lem :
    (packet : Bytes) (bufs : List Bytes)
    → length (joined (packet ∷ bufs)) ≤ max_ip_payload_len
    → gather packet bufs ≡ returns (joined (packet ∷ bufs))
unfolding gather joined
gather_lem packet [] h = ap returns (sym (append-nil packet))
gather_lem packet (b ∷ bufs) h =
    let assoc = append_assoc packet b (joined bufs) in
    let total : length packet + length b ≤ max_ip_payload_len =
      omega (arith, length-append packet (b ++ joined bufs), length-append b (joined bufs)) in
    rw (le→leb (length packet + length b) max_ip_payload_len total)
      (gather_lem (packet ++ b) bufs (rw assoc h) ∙ ap returns assoc)

length-fill_header :
    (local_port peer_port whole : Bytes)
    → length (fill_header local_port peer_port whole) ≡ length whole
unfolding fill_header
length-fill_header local_port peer_port whole =
    length-put 18 (le16 0) (put 16 (le16 0) (put 2 peer_port (put 0 local_port whole)))
    ∙ length-put 16 (le16 0) (put 2 peer_port (put 0 local_port whole))
    ∙ length-put 2 peer_port (put 0 local_port whole)
    ∙ length-put 0 local_port whole

stamped :
    (local_port peer_port whole : Bytes) (sum : ℕ)
    → length local_port ≡ 2
    → length peer_port ≡ 2
    → 20 ≤ length whole
    → IsStamped local_port peer_port whole
        (put 16 (le16 sum) (fill_header local_port peer_port whole))
unfolding fill_header
stamped local_port peer_port whole sum hl hp long =
    let a : Bytes = put 0 local_port whole in
    let b : Bytes = put 2 peer_port a in
    let c : Bytes = put 16 (le16 0) b in
    let d : Bytes = put 18 (le16 0) c in
    let la = length-put 0 local_port whole in
    let lb = length-put 2 peer_port a in
    let lc = length-put 16 (le16 0) b in
    let ld = length-put 18 (le16 0) c in
    let le = length-put 16 (le16 sum) d in
    let at : (i : ℕ) → (i < 16) ⊎ (20 ≤ i) → byte (put 16 (le16 sum) d) i ≡ byte b i = λ i h.
      ground
        (arith, byte-put 16 (le16 sum) d i, byte-put 18 (le16 0) c i, byte-put 16 (le16 0) b i) in
    record {
      same_length = omega arith;
      source = λ i lt.
          at i (inl (omega arith))
          ∙ ground (arith, byte-put 2 peer_port a i, byte-put 0 local_port whole i);
      target = λ i lt.
          let back : 2 + i - 2 ≡ i = omega arith in
          at (2 + i) (inl (omega arith)) ∙ ground (arith, byte-put 2 peer_port a (2 + i));
      rest = λ i h. elim h [
        | inl mid ↦
            at i (inl mid.1)
            ∙ ground (arith, byte-put 2 peer_port a i, byte-put 0 local_port whole i)
        | inr up ↦
            at i (inr up) ∙ ground (arith, byte-put 2 peer_port a i, byte-put 0 local_port whole i)
      ];
    }

-- What is sent for a connected mysocket.
pub record IsSent (ctx : MysockContext) (local_port : Bytes) (local_addr : ℕ) (whole : Bytes)
    (p : Bytes) : Type 0 where
  pub fields : IsStamped local_port (sin_port ctx.peer_addr) whole p
  pub accepted : mysock_verify_checksum (sin_addr ctx.peer_addr) local_addr p ≡ returns true

-- On a mysocket that knows its peer, with two addresses and a port of the peer that are not 0, the
-- buffers of a call are sent as one packet if together they have 20 bytes or more and no more than
-- 1500: it differs from them only in the two ports, the checksum and the urgent pointer, and
-- the other end accepts its checksum.
pub network_send_lem :
    (ctx : MysockContext) (local_port : Bytes) (local_addr : ℕ) (src : Bytes) (bufs : List Bytes)
    → IsConnected ctx local_addr
    → length local_port ≡ 2
    → 20 ≤ length (joined (src ∷ bufs))
    → length (joined (src ∷ bufs)) ≤ max_ip_payload_len
    → (p : Bytes) × (stcp_network_send ctx local_port local_addr src bufs ≡ returns p)
      × IsSent ctx local_port local_addr (joined (src ∷ bufs)) p
unfolding stcp_network_send
network_send_lem ctx local_port local_addr src bufs con hl long short =
    let whole : Bytes = joined (src ∷ bufs) in
    let filled : Bytes = fill_header local_port (sin_port ctx.peer_addr) whole in
    let sum : ℕ = sum_of local_addr (sin_addr ctx.peer_addr) filled in
    let p : Bytes = put 16 (le16 sum) filled in
    let (sets, accepts) =
      set_lem local_addr (sin_addr ctx.peer_addr) filled con.local con.peer
        (omega (arith, length-fill_header local_port (sin_port ctx.peer_addr) whole)) in
    let first : length src ≤ max_ip_payload_len =
      unfold joined in omega (arith, length-append src (joined bufs)) in
    (
      p,
      rw
          (
            le→leb (length src) max_ip_payload_len first,
            gather_lem src bufs short,
            le→leb 20 (length whole) long,
            con.inet,
            ne→== (load16 ctx.peer_addr 2) 0 con.has_port,
            con.valid,
            lt→ltb 0 ctx.peer_addr_len con.has_addr,
          )
          sets,
      record {
        fields =
            stamped local_port (sin_port ctx.peer_addr) whole sum hl
              (length-slice ctx.peer_addr 2 2 (omega (arith, con.whole))) long;
        accepted = accepts;
      },
    )
