-- ===== src/Router/Checksum/Laws.antt =====
-- What `cksum` promises: the folding loop ends, the sum of a range with its checksum put in is
-- all ones, and equal checksums mean equal sums modulo 65535.
use computer_networks.Prelude.{
  ℕ, zero, suc, ◌+◌, ◌-◌, ◌*◌, ◌%◌, ◌^◌, ◌≤◌, ◌<◌, ◌≡◌, ◌∙◌, [], ◌∷◌, arith, length, ◌==◌,
  if◌then◌else◌,
}
use computer_networks.Prelude.Words.{
  Bytes, IsBytes, byte, htons, le16, put, overlay, length-put, IsBytes-put,
}
use computer_networks.Router.Checksum.{cksum_sum, cksum_fold, cksum}

-- The sum of the big-endian 16-bit words of a range, with no wrap; an odd last byte is padded.
unfoldable pub word_sum : Bytes → ℕ
word_sum [] = 0
word_sum (a ∷ []) = a * 256
word_sum (a ∷ b ∷ r) = a * 256 + b + word_sum r

pub word_sum_bound : (d : Bytes) → IsBytes d → 2 * word_sum d ≤ 65535 * (length d + 1)
unfolding word_sum
word_sum_bound [] h = omega arith
word_sum_bound (a ∷ []) h = omega arith
word_sum_bound (a ∷ b ∷ r) h = omega (arith, word_sum_bound r h.1.1)

pub cksum_sum_exact :
    (sum : ℕ) (d : Bytes) → sum + word_sum d < 2 ^ 32 → cksum_sum sum d ≡ sum + word_sum d
unfolding cksum_sum word_sum
cksum_sum_exact sum [] h = omega arith
cksum_sum_exact sum (a ∷ []) h = omega arith
cksum_sum_exact sum (a ∷ b ∷ r) h =
    let e : (sum + (a * 256 + b)) % 2 ^ 32 ≡ sum + (a * 256 + b) = omega arith in
    rw e (cksum_sum_exact (sum + (a * 256 + b)) r (omega arith) ∙ omega arith)

-- For a sum that fits 32 bits, two rounds end the folding loop: more fuel gives the same result,
-- and the result fits 16 bits.
pub cksum_fold_ends :
    (fuel sum : ℕ)
    → sum < 2 ^ 32
    → (cksum_fold (suc (suc fuel)) sum ≡ cksum_fold 2 sum) × (cksum_fold 2 sum ≤ 0xffff)
unfolding cksum_fold
cksum_fold_ends zero sum h = ground arith
cksum_fold_ends (suc fuel) sum h = ground arith

-- The folded sum is the residue modulo 65535, with 65535 itself for a positive multiple.
pub cksum_fold_lem :
    (sum : ℕ) → sum < 2 ^ 32 → cksum_fold 2 sum ≡ (if sum == 0 then 0 else (sum - 1) % 65535 + 1)
unfolding cksum_fold
cksum_fold_lem sum h = ground arith

pub cksum_sum-lt :
    (d : Bytes)
    → IsBytes d
    → length d ≤ 65536
    → (cksum_sum 0 d ≡ word_sum d) × (word_sum d < 2 ^ 32)
cksum_sum-lt d h len = omega (arith, word_sum_bound d h, cksum_sum_exact 0 d)

-- Writing a 16-bit value over two zero bytes at an even offset adds its big-endian reading.
pub word_sum-put :
    (k v : ℕ) (d : Bytes)
    → 2 * k + 2 ≤ length d
    → byte d (2 * k) ≡ 0
    → byte d (suc (2 * k)) ≡ 0
    → v < 65536
    → word_sum (put (2 * k) (le16 v) d) ≡ word_sum d + htons v
unfolding word_sum put overlay
word_sum-put zero v [] h y z lt = absurd (omega arith)
word_sum-put zero v (a ∷ []) h y z lt = absurd (omega arith)
word_sum-put zero v (a ∷ b ∷ r) h y z lt = omega arith
word_sum-put (suc k) v [] h y z lt = absurd (omega arith)
word_sum-put (suc k) v (a ∷ []) h y z lt = absurd (omega arith)
word_sum-put (suc k) v (a ∷ b ∷ r) h y z lt =
    let e : 2 * suc k ≡ suc (suc (2 * k)) = omega arith in
    rw e (omega (arith, word_sum-put k v r (omega arith) (rw e at y) (rw e at z) lt))

-- The complement of the folded sum, in the byte order in which it is stored.
pub cksum-lt : (d : Bytes) → cksum d < 65536
unfolding cksum
cksum-lt d = ground arith

-- What the stored checksum adds to the sum, and what the fold then makes of it.
fold_complement :
    (s : ℕ)
    → s + 65535 < 2 ^ 32
    → (c : ℕ)
    → c ≡ (let t = htons ((2 ^ 32 - 1 - cksum_fold 2 s) % 2 ^ 16) in if t == 0 then 0xffff else t)
    → cksum_fold 2 (s + htons c) ≡ 0xffff
fold_complement s h c e = ground (arith, cksum_fold_lem s, cksum_fold_lem (s + htons c))

pub cksum_stored :
    (d : Bytes) {s : ℕ}
    → cksum_sum 0 d ≡ s
    → cksum d
      ≡ (let t = htons ((2 ^ 32 - 1 - cksum_fold 2 s) % 2 ^ 16) in if t == 0 then 0xffff else t)
cksum_stored d e = unfold cksum in rw (← e)

-- A range whose checksum field was zero sums to all ones once `cksum` of it is stored there.
pub cksum-put-verifies :
    (k : ℕ) (d : Bytes)
    → IsBytes d
    → length d ≤ 65536
    → 2 * k + 2 ≤ length d
    → byte d (2 * k) ≡ 0
    → byte d (suc (2 * k)) ≡ 0
    → cksum_fold 2 (cksum_sum 0 (put (2 * k) (le16 (cksum d)) d)) ≡ 0xffff
cksum-put-verifies k d hb len fits y z =
    let (exact, _) = cksum_sum-lt d hb len in
    let d' : Bytes = put (2 * k) (le16 (cksum d)) d in
    let grown = word_sum-put k (cksum d) d fits y z (cksum-lt d) in
    let hb' : IsBytes d' = IsBytes-put (2 * k) (le16 (cksum d)) d (omega arith) hb in
    let (exact', _) = cksum_sum-lt d' hb' (rw length-put len) in
    rw (exact', grown)
      (fold_complement (word_sum d) (omega (arith, word_sum_bound d hb)) (cksum d)
        (cksum_stored d exact))

-- Ranges with the same checksum have the same sum modulo 65535: a change of a range that its
-- checksum does not show adds a multiple of 65535 to the sum.
cksum-eq_mod :
    (d e : Bytes)
    → IsBytes d
    → IsBytes e
    → length d ≤ 65536
    → length e ≤ 65536
    → cksum d ≡ cksum e
    → word_sum d % 65535 ≡ word_sum e % 65535
cksum-eq_mod d e hd he ld le_ h =
    let (exact, lt) = cksum_sum-lt d hd ld in
    let (exact', lt') = cksum_sum-lt e he le_ in
    ground (
      arith,
      cksum_fold_lem (word_sum d),
      cksum_fold_lem (word_sum e),
      cksum_stored d exact,
      cksum_stored e exact',
    )
