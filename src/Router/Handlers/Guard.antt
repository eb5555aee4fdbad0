-- ===== src/Router/Handlers/Guard.antt =====
-- The checks on an incoming IP packet.
use computer_networks.Prelude.{
  ℕ, ◌+◌, ◌-◌, ◌%◌, ◌^◌, ◌≤◌, ◌<◌, ◌≡◌, ◌≢◌, ◌↔◌, refl, sym, ◌∙◌, ap, ◌⊎◌, inl, inr, false, some,
  ◌==◌, ltb, le→leb, gt→leb-false, leb, ne→==, ==→eq, eq→==, lt→ltb, le→ltb-false, ltb-false→le,
  Bool-cases, if◌then◌else◌, length, arith,
}
use computer_networks.Prelude.Words.{
  Bytes, IsBytes, byte, slice, put, le16, load16, load32, htons, length-put, byte-put, IsBytes-put,
  IsBytes-byte,
}
use computer_networks.Prelude.Words.Slices.{
  byte-slice, length-slice, IsBytes-slice, slice-put_inside, put_back, le16-load16,
}
use computer_networks.Router.State.{Name, Interface, Router, Env}
use computer_networks.Router.Checksum.{cksum, cksum_sum, cksum_fold}
use computer_networks.Router.Checksum.Laws.{
  word_sum, cksum_sum-lt, word_sum_bound, word_sum-put, cksum_fold_lem, cksum_stored,
}
use computer_networks.Router.Interfaces.{get_interface_from_ip}
use computer_networks.Router.Machine.{done, fault}
use computer_networks.Router.Requests.{handle_arpreq}
use computer_networks.Router.Handlers.{
  header_sum, deliver, sr_handle_icmp_packet, sr_handle_ip_packet, sr_handlepacket,
}

-- The header with its checksum field cleared.
abbrev cleared : Bytes → Bytes
cleared p = slice (put 24 (le16 0) p) 14 20

-- Putting the stored checksum back gives the header.
header_restored :
    (p : Bytes)
    → 34 ≤ length p
    → IsBytes p
    → put 10 (le16 (load16 p 24)) (cleared p) ≡ slice p 14 20
header_restored p long hb =
    let header : Bytes = slice p 14 20 in
    let len : length header ≡ 20 = length-slice p 14 20 long in
    let stored : slice header 10 2 ≡ le16 (load16 p 24) =
      let e : load16 header 10 ≡ load16 p 24 =
        omega (arith, byte-slice p 14 20 10, byte-slice p 14 20 11) in
      sym (le16-load16 header 10 (IsBytes-slice p 14 20 hb) (omega arith)) ∙ ap le16 e in
    rw (slice-put_inside 10 (le16 0) p 14 20 long (omega arith), ← stored)
      (put_back 10 2 (le16 0) header refl (omega arith))

cleared_zero : (p : Bytes) → 34 ≤ length p → (byte (cleared p) 10 ≡ 0) × (byte (cleared p) 11 ≡ 0)
cleared_zero p long = (
  byte-slice (put 24 (le16 0) p) 14 20 10 (omega arith) ∙ byte-put 24 (le16 0) p 24 (omega arith),
  byte-slice (put 24 (le16 0) p) 14 20 11 (omega arith) ∙ byte-put 24 (le16 0) p 25 (omega arith),
)

-- The stored checksum against the complement of a sum `s`.
complement_iff :
    (s c sum : ℕ)
    → s + 65535 < 2 ^ 32
    → c < 65536
    → sum ≡ (let t = htons ((2 ^ 32 - 1 - cksum_fold 2 s) % 2 ^ 16) in if t == 0 then 0xffff else t)
    → (c ≡ sum) ↔ ((cksum_fold 2 (s + htons c) ≡ 0xffff) × (c ≢ 0))
complement_iff s c sum small lt e = (
  λ h. ground (arith, cksum_fold_lem s, cksum_fold_lem (s + htons c)),
  λ h. ground (arith, cksum_fold_lem s, cksum_fold_lem (s + htons c)),
)

-- The check of an incoming header: it passes exactly if the header sums to all ones and the
-- stored checksum is not zero.
pub header_sum_iff :
    (p : Bytes)
    → 34 ≤ length p
    → IsBytes p
    → (load16 p 24 ≡ header_sum p)
      ↔ ((cksum_fold 2 (cksum_sum 0 (slice p 14 20)) ≡ 0xffff) × (load16 p 24 ≢ 0))
unfolding header_sum
header_sum_iff p long hb =
    let c : ℕ = load16 p 24 in
    let z : Bytes = cleared p in
    let len : length z ≡ 20 =
      length-slice (put 24 (le16 0) p) 14 20 (omega (arith, length-put 24 (le16 0) p)) in
    let hz : IsBytes z =
      IsBytes-slice (put 24 (le16 0) p) 14 20 (IsBytes-put 24 (le16 0) p (omega arith) hb) in
    let small = word_sum_bound z hz in
    let lt : c < 65536 = omega (arith, IsBytes-byte p 24 hb, IsBytes-byte p 25 hb) in
    let exact : cksum_sum 0 (slice p 14 20) ≡ word_sum z + htons c =
      (cksum_sum-lt (slice p 14 20) (IsBytes-slice p 14 20 hb)
        (omega (arith, length-slice p 14 20 long))).0
      ∙ ap word_sum (sym (header_restored p long hb))
      ∙ word_sum-put 5 c z (omega arith) (cleared_zero p long).0 (cleared_zero p long).1 lt in
    rw exact (
      complement_iff (word_sum z) c (cksum z) (omega arith) lt
        (cksum_stored z (cksum_sum-lt z hz (omega arith)).0))

-- An IP packet that is shorter than the two headers, or whose header does not sum to all ones,
-- is dropped: no frame is sent and no state changes.
pub sr_handlepacket_drops :
    (env : Env) (fuel : ℕ) (p : Bytes) (interface : Name) (r : Router)
    → 14 ≤ length p
    → IsBytes p
    → htons (load16 p 12) ≡ 0x0800
    → (length p < 34) ⊎ (cksum_fold 2 (cksum_sum 0 (slice p 14 20)) ≢ 0xffff)
    → sr_handlepacket env fuel p interface r ≡ done tt r
unfolding sr_handlepacket sr_handle_ip_packet
sr_handlepacket_drops env fuel p interface r long hb ip (inl short) =
    rw (le→leb 14 (length p) long, ip, lt→ltb (length p) 34 short)
sr_handlepacket_drops env fuel p interface r long hb ip (inr bad) =
    elim (Bool-cases (ltb (length p) 34)) [
      | inl e ↦ rw (le→leb 14 (length p) long, ip, e)
      | inr e ↦
          let ne : (load16 p 24 == header_sum p) ≡ false =
            ne→== (load16 p 24) (header_sum p)
              (λ h. bad ((header_sum_iff p (ltb-false→le (length p) 34 e) hb).0 h).0) in
          rw (le→leb 14 (length p) long, ip, e, ne)
    ]

-- What is left of a packet for the router itself once its header has passed the check.
icmp_for_us :
    (env : Env) (fuel : ℕ) (p : Bytes) (interface : Name) (r : Router) (iface : Interface)
    → 34 ≤ length p
    → IsBytes p
    → htons (load16 p 12) ≡ 0x0800
    → cksum_fold 2 (cksum_sum 0 (slice p 14 20)) ≡ 0xffff
    → load16 p 24 ≢ 0
    → byte p 23 ≡ 1
    → get_interface_from_ip r.if_list (load32 p 30) ≡ some iface
    → sr_handlepacket env fuel p interface r ≡ sr_handle_icmp_packet (handle_arpreq env fuel) p r
unfolding sr_handlepacket sr_handle_ip_packet deliver
icmp_for_us env fuel p interface r iface long hb ip ones stored icmp ours = rw (
  le→leb 14 (length p) (omega arith),
  ip,
  le→ltb-false (length p) 34 long,
  eq→== (load16 p 24) (header_sum p) ((header_sum_iff p long hb).1 (ones, stored)),
  ours,
  icmp,
)

-- An ICMP packet for the router itself, with a header that sums to all ones and a stored checksum that
-- is not 0, which is not a whole echo request: one with no byte behind the IP header, and an echo request
-- of less than four, is read or written past its end; one with another type is ignored.
pub unanswered_icmp_lem :
    (env : Env) (fuel : ℕ) (p : Bytes) (interface : Name) (r : Router) (iface : Interface)
    → 34 ≤ length p
    → IsBytes p
    → htons (load16 p 12) ≡ 0x0800
    → cksum_fold 2 (cksum_sum 0 (slice p 14 20)) ≡ 0xffff
    → load16 p 24 ≢ 0
    → byte p 23 ≡ 1
    → get_interface_from_ip r.if_list (load32 p 30) ≡ some iface
    → (length p < 38) ⊎ (byte p 34 ≢ 8)
    → (((length p ≡ 34) ⊎ (byte p 34 ≡ 8)) × (sr_handlepacket env fuel p interface r ≡ fault))
      ⊎ ((34 < length p) × (byte p 34 ≢ 8) × (sr_handlepacket env fuel p interface r ≡ done tt r))
unfolding sr_handle_icmp_packet
unanswered_icmp_lem env fuel p interface r iface long hb ip ones stored icmp ours other =
    let on = icmp_for_us env fuel p interface r iface long hb ip ones stored icmp ours in
    elim (Bool-cases (leb 35 (length p))) [
      | inr short ↦ inl (inl (ground (arith, short, long)), on ∙ rw short refl)
      | inl typed ↦ elim (Bool-cases (byte p 34 == 8)) [
        | inr else_type ↦
            inr (ground (arith, typed), ground (arith, else_type), on ∙ rw (typed, else_type) refl)
        | inl request ↦
            let few : length p < 38 = elim other [
              | inl few ↦ few
              | inr not_request ↦ absurd (not_request (==→eq (byte p 34) 8 request))
            ] in
            inl (
              inr (==→eq (byte p 34) 8 request),
              on ∙ rw (typed, request, gt→leb-false 38 (length p) few) refl,
            )
      ]
    ]
