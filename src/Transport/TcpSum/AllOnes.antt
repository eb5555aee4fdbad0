-- ===== src/Transport/TcpSum/AllOnes.antt =====
-- The checksum of transport-layer/src/tcp_sum.c as RFC 793 has it: all words of a segment that carries
-- it, with those of its pseudo header, sum to all ones.
use computer_networks.Prelude.{
  ℕ, zero, suc, ◌+◌, ◌*◌, ◌%◌, ◌^◌, ◌≤◌, ◌<◌, ◌≡◌, refl, ◌∙◌, ap, true, Bool-cases, inl, inr, [],
  ◌∷◌, ◌==◌, ne→==, length, arith,
}
use computer_networks.Prelude.Words.{Bytes, IsBytes, put, overlay, le16}
use computer_networks.Mysock.State.{returns}
use computer_networks.Transport.TcpSum.{
  header_words, segment_words, pseudo_header, high_half, folded, mysock_set_checksum,
  mysock_verify_checksum, sum_of, folded_small, set_lem,
}

-- The sum of all little-endian words; an odd last byte is padded.
unfoldable pub all_words : Bytes → ℕ
all_words [] = 0
all_words (a ∷ []) = a
all_words (a ∷ b ∷ r) = a + 256 * b + all_words r

-- Behind the field, every word counts.
segment_words-after : (k : ℕ) (p : Bytes) → 8 < k → segment_words k p ≡ all_words p
unfolding segment_words all_words
segment_words-after k [] after = refl
segment_words-after k (a ∷ []) after = refl
segment_words-after k (a ∷ b ∷ r) after =
    rw (ne→== k 8 (λ e. omega (arith, after)), segment_words-after (k + 1) r (omega arith)) refl

all_words-put :
    (j v k : ℕ) (p : Bytes)
    → k + j ≡ 8
    → v < 2 ^ 16
    → 2 * j + 2 ≤ length p
    → all_words (put (2 * j) (le16 v) p) ≡ segment_words k p + v
unfolding segment_words all_words put overlay
all_words-put zero v k [] e small h = absurd (omega arith)
all_words-put zero v k (a ∷ []) e small h = absurd (omega arith)
all_words-put zero v k (a ∷ b ∷ r) e small h =
    let here : k ≡ 8 = omega arith in
    rw (here, segment_words-after 9 r (omega arith)) (omega (arith, small))
all_words-put (suc j) v k [] e small h = absurd (omega arith)
all_words-put (suc j) v k (a ∷ []) e small h = absurd (omega arith)
all_words-put (suc j) v k (a ∷ b ∷ r) e small h =
    let shift : 2 * suc j ≡ suc (suc (2 * j)) = omega arith in
    rw
      (
        shift,
        ne→== k 8 (λ t. omega (arith, e, t)),
        all_words-put j v (k + 1) r (omega arith) small (omega arith),
      )
      (omega arith)

segment_words-bound :
    (k : ℕ) (p : Bytes) → IsBytes p → 2 * segment_words k p ≤ 65535 * (length p + 1)
unfolding segment_words
segment_words-bound k [] h = omega arith
segment_words-bound k (a ∷ []) h = omega (arith, h.0)
segment_words-bound k (a ∷ b ∷ r) h = elim (Bool-cases (k == 8)) [
  | inl here ↦ rw here (omega (arith, segment_words-bound (k + 1) r h.1.1))
  | inr other ↦ rw other (omega (arith, segment_words-bound (k + 1) r h.1.1, h.0, h.1.0))
]

header_words-bound :
    (src_addr dst_addr len : ℕ) → header_words (pseudo_header src_addr dst_addr len) ≤ 6 * 65535
unfolding header_words pseudo_header
header_words-bound src_addr dst_addr len = omega arith

-- Folding and complementing what is short of 2 ^ 31 completes it to a multiple of 2 ^ 16 - 1.
folded_completes : (sum : ℕ) → sum < 2 ^ 31 → (sum + folded (sum % 2 ^ 32)) % 65535 ≡ 0
unfolding folded high_half
folded_completes sum short = ground (arith, short)

-- The checksum of a segment of 20 to 1500 bytes between two addresses that are not 0: the words of the
-- segment that carries it and of its pseudo header sum to a multiple of 2 ^ 16 - 1, which is how the sum
-- is all ones; nothing else of the segment is changed; and the other end accepts it.
pub set_verifies :
    (local_addr peer_addr : ℕ) (packet : Bytes)
    → 0 < local_addr
    → 0 < peer_addr
    → IsBytes packet
    → 20 ≤ length packet
    → length packet ≤ 1500
    → (sum : ℕ) × (sum < 2 ^ 16)
      × (mysock_set_checksum local_addr peer_addr packet ≡ returns (put 16 (le16 sum) packet))
      × ((header_words (pseudo_header local_addr peer_addr (length packet))
              + all_words (put 16 (le16 sum) packet))
            % 65535
          ≡ 0)
      × (mysock_verify_checksum peer_addr local_addr (put 16 (le16 sum) packet) ≡ returns true)
set_verifies local_addr peer_addr packet local peer bytes long short =
    let sum : ℕ = sum_of local_addr peer_addr packet in
    let total : ℕ =
      header_words (pseudo_header local_addr peer_addr (length packet)) + segment_words 0 packet in
    let below : total < 2 ^ 31 = omega (
      arith,
      header_words-bound local_addr peer_addr (length packet),
      segment_words-bound 0 packet bytes,
      short,
    ) in
    let (sets, accepts) = set_lem local_addr peer_addr packet local peer long in
    let words : all_words (put 16 (le16 sum) packet) ≡ segment_words 0 packet + sum =
      all_words-put 8 sum 0 packet refl (folded_small (total % 2 ^ 32)) (omega arith) in
    (
      sum,
      folded_small (total % 2 ^ 32),
      sets,
      rw words (ap (λ n. n % 65535) (omega arith) ∙ folded_completes total below),
      accepts,
    )
