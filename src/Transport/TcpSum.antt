-- ===== src/Transport/TcpSum.antt =====
-- transport-layer/src/tcp_sum.c: the checksum of a segment with its pseudo header. The two
-- addresses are those of the socket's ends; words are loaded on a little-endian machine.
pub mod AllOnes
use computer_networks.Prelude.{
  ℕ, zero, suc, ◌+◌, ◌-◌, ◌*◌, ◌/◌, ◌%◌, ◌^◌, ◌≤◌, ◌<◌, ◌≡◌, refl, ◌∙◌, ap, Bool, true, [], ◌∷◌,
  ◌++◌, ◌==◌, if◌then◌else◌, length, ltb, leb, lt→ltb, le→leb, arith, eq→==,
}
use computer_networks.Mysock.State.{Outcome, returns, and_then, assert_that}
use computer_networks.Prelude.Words.{
  Bytes, put, overlay, le16, le32, htons, load16, length-put, byte-put,
}

-- The words of the pseudo header.
unfoldable pub header_words : Bytes → ℕ
header_words [] = 0
header_words (a ∷ []) = 0
header_words (a ∷ b ∷ r) = a + 256 * b + header_words r

-- The words of the segment from number `k` on, but for number 8, which is `th_sum`; a last odd
-- byte counts as the low half of a word.
unfoldable pub segment_words : ℕ → Bytes → ℕ
segment_words k [] = 0
segment_words k (a ∷ []) = a
segment_words k (a ∷ b ∷ r) = (if k == 8 then 0 else a + 256 * b) + segment_words (k + 1) r

-- `IPPROTO_TCP` is 6.
unfoldable pub pseudo_header : ℕ → ℕ → ℕ → Bytes
pseudo_header src_addr dst_addr len =
    le32 src_addr ++ le32 dst_addr ++ 0 ∷ 6 ∷ le16 (htons (len % 2 ^ 16))

-- `sum >> 16` of an `int32_t`, as the words that stand for both.
unfoldable pub high_half : ℕ → ℕ
high_half sum = if ltb sum (2 ^ 31) then sum / 2 ^ 16 else sum / 2 ^ 16 + (2 ^ 32 - 2 ^ 16)

-- The sum is folded and complemented.
unfoldable pub folded : ℕ → ℕ
unfolding high_half
folded sum =
    let once = (high_half sum + sum % 2 ^ 16) % 2 ^ 32 in
    let twice = (once + high_half once) % 2 ^ 32 in (2 ^ 32 - 1 - twice) % 2 ^ 16

-- The assertions on alignment and on sizes that are constants are left out.
unfoldable pub mysock_tcp_checksum : ℕ → ℕ → Bytes → Outcome ℕ
unfolding folded
mysock_tcp_checksum src_addr dst_addr packet = assert_that (leb 20 (length packet)) (
    assert_that (ltb 0 src_addr) (
      assert_that (ltb 0 dst_addr) (
        returns (
          folded (
            (header_words (pseudo_header src_addr dst_addr (length packet))
              + segment_words 0 packet)
            % 2 ^ 32)))))

-- On the way out, with the local address as the source.
unfoldable pub mysock_set_checksum : ℕ → ℕ → Bytes → Outcome Bytes
mysock_set_checksum local_addr peer_addr packet =
    and_then (mysock_tcp_checksum local_addr peer_addr packet)
      (λ sum. returns (put 16 (le16 sum) packet))

-- On the way in, with the peer's address as the source.
unfoldable pub mysock_verify_checksum : ℕ → ℕ → Bytes → Outcome Bool
mysock_verify_checksum local_addr peer_addr packet =
    and_then (mysock_tcp_checksum peer_addr local_addr packet)
      (λ my_sum. returns (my_sum == load16 packet 16))

-- The field itself does not count.
segment_words-put :
    (j v k : ℕ) (p : Bytes)
    → k + j ≡ 8
    → 2 * j + 2 ≤ length p
    → segment_words k (put (2 * j) (le16 v) p) ≡ segment_words k p
unfolding segment_words put overlay
segment_words-put zero v k [] e h = absurd (omega arith)
segment_words-put zero v k (a ∷ []) e h = absurd (omega arith)
segment_words-put zero v k (a ∷ b ∷ r) e h = let here : k ≡ 8 = omega arith in rw here refl
segment_words-put (suc j) v k [] e h = absurd (omega arith)
segment_words-put (suc j) v k (a ∷ []) e h = absurd (omega arith)
segment_words-put (suc j) v k (a ∷ b ∷ r) e h =
    let shift : 2 * suc j ≡ suc (suc (2 * j)) = omega arith in
    rw shift (
      ap (λ t. (if k == 8 then 0 else a + 256 * b) + t)
        (segment_words-put j v (k + 1) r (omega arith) (omega arith)))

-- The checksum of a segment, where the assertions hold.
abbrev pub sum_of : ℕ → ℕ → Bytes → ℕ
sum_of src_addr dst_addr packet = folded (
    (header_words (pseudo_header src_addr dst_addr (length packet)) + segment_words 0 packet)
    % 2 ^ 32)

tcp_checksum_lem :
    (src_addr dst_addr : ℕ) (packet : Bytes)
    → 0 < src_addr
    → 0 < dst_addr
    → 20 ≤ length packet
    → mysock_tcp_checksum src_addr dst_addr packet ≡ returns (sum_of src_addr dst_addr packet)
unfolding mysock_tcp_checksum
tcp_checksum_lem src_addr dst_addr packet src dst long =
    rw (le→leb 20 (length packet) long, lt→ltb 0 src_addr src, lt→ltb 0 dst_addr dst) refl

pub folded_small : (sum : ℕ) → folded sum < 2 ^ 16
unfolding folded
folded_small sum = omega arith

-- What `mysock_set_checksum` makes of a segment, and what the other end makes of that.
pub set_lem :
    (local_addr peer_addr : ℕ) (packet : Bytes)
    → 0 < local_addr
    → 0 < peer_addr
    → 20 ≤ length packet
    → let p = put 16 (le16 (sum_of local_addr peer_addr packet)) packet in
      (mysock_set_checksum local_addr peer_addr packet ≡ returns p)
      × (mysock_verify_checksum peer_addr local_addr p ≡ returns true)
unfolding mysock_verify_checksum mysock_set_checksum
set_lem local_addr peer_addr packet local peer long =
    let c : ℕ = sum_of local_addr peer_addr packet in
    let p : Bytes = put 16 (le16 c) packet in
    let same : sum_of local_addr peer_addr p ≡ c =
      rw (length-put 16 (le16 c) packet, segment_words-put 8 c 0 packet refl (omega arith)) refl in
    let small : c < 2 ^ 16 = folded_small (
      (header_words (pseudo_header local_addr peer_addr (length packet)) + segment_words 0 packet)
      % 2 ^ 32) in
    let stored : load16 p 16 ≡ c =
      ground (arith, small, byte-put 16 (le16 c) packet 16, byte-put 16 (le16 c) packet 17) in
    (
      rw (tcp_checksum_lem local_addr peer_addr packet local peer long) refl,
      rw
          (
            tcp_checksum_lem local_addr peer_addr p local peer
                (omega (arith, length-put 16 (le16 c) packet)),
            same,
            stored,
            eq→== c c refl,
          )
          refl,
    )
