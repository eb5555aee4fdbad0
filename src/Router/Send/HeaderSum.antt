-- ===== src/Router/Send/HeaderSum.antt =====
-- `set_cksum`: the bytes that it leaves alone, and that the range then sums to all ones.
use computer_networks.Prelude.{
  ℕ, zero, suc, ◌+◌, ◌-◌, ◌*◌, ◌≤◌, ◌<◌, ◌≡◌, refl, ◌∙◌, sym, ◌⊎◌, inl, inr, [], ◌∷◌, ◌&&◌, leb,
  ltb, if◌then◌else◌, length, drop, arith,
}
use computer_networks.Prelude.Words.{
  Bytes, IsBytes, byte, slice, put, le16, length-put, byte-put, IsBytes-put,
}
use computer_networks.Prelude.Words.Slices.{
  slice-put_inside, slice-put_outside, drop-put, length-slice, IsBytes-slice,
}
use computer_networks.Router.Checksum.{cksum, cksum_sum, cksum_fold}
use computer_networks.Router.Checksum.Laws.{cksum-put-verifies}
use computer_networks.Router.Send.{set_cksum}

ruleset lengths = (arith, length-put)

pub length-set_cksum :
    (field start n : ℕ) (p : Bytes) → length (set_cksum field start n p) ≡ length p
unfolding set_cksum
length-set_cksum field start n p = length-put field _ _ ∙ length-put field _ p

pub byte-set_cksum :
    (field start n : ℕ) (p : Bytes) (i : ℕ)
    → field + 2 ≤ length p
    → (i < field) ⊎ (field + 2 ≤ i)
    → byte (set_cksum field start n p) i ≡ byte p i
unfolding set_cksum
byte-set_cksum field start n p i fits apart =
    let cleared = put field (le16 0) p in
    let sum = le16 (cksum (slice cleared start n)) in
    ground (
      arith,
      length-put field (le16 0) p,
      byte-put field sum cleared i,
      byte-put field (le16 0) p i,
    )

pub slice-set_cksum_outside :
    (field start n : ℕ) (p : Bytes) (s m : ℕ)
    → field + 2 ≤ length p
    → s + m ≤ length p
    → (field + 2 ≤ s) ⊎ (s + m ≤ field)
    → slice (set_cksum field start n p) s m ≡ slice p s m
unfolding set_cksum
slice-set_cksum_outside field start n p s m fits inside apart =
    slice-put_outside field _ _ s m (omega lengths) (omega lengths) apart
    ∙ slice-put_outside field (le16 0) p s m fits inside apart

pub drop-set_cksum :
    (field start n : ℕ) (p : Bytes) (s : ℕ)
    → field + 2 ≤ length p
    → field + 2 ≤ s
    → drop s (set_cksum field start n p) ≡ drop s p
unfolding set_cksum
drop-set_cksum field start n p s fits before =
    drop-put s field _ _ (omega lengths) before ∙ drop-put s field (le16 0) p fits before

pub IsBytes-set_cksum :
    (field start n : ℕ) (p : Bytes) → IsBytes p → IsBytes (set_cksum field start n p)
unfolding set_cksum
IsBytes-set_cksum field start n p h =
    IsBytes-put field _ _ (omega arith) (IsBytes-put field (le16 0) p (omega arith) h)

byte-le16_zero : (i : ℕ) → byte (le16 0) i ≡ 0
byte-le16_zero zero = refl
byte-le16_zero (suc zero) = refl
byte-le16_zero (suc (suc i)) = refl

zero_at :
    (o : ℕ) (range p : Bytes)
    → range ≡ put o (le16 0) p
    → o + 2 ≤ length p
    → (j : ℕ) → o ≤ j
    → j < o + 2
    → byte range j ≡ 0
zero_at o range p e fits j lo hi =
    rw e (ground (arith, byte-put o (le16 0) p j, byte-le16_zero (j - o)))

-- The range that starts at `start` sums to all ones once its checksum is set.
pub set_cksum_verifies :
    (k start n : ℕ) (p : Bytes)
    → IsBytes p
    → n ≤ 65536
    → 2 * k + 2 ≤ n
    → start + n ≤ length p
    → cksum_fold 2 (cksum_sum 0 (slice (set_cksum (start + 2 * k) start n p) start n)) ≡ 0xffff
unfolding set_cksum
set_cksum_verifies k start n p hb small fits inside =
    let cleared : Bytes = put (start + 2 * k) (le16 0) p in
    let range : Bytes = slice cleared start n in
    let clear : range ≡ put (2 * k) (le16 0) (slice p start n) =
      slice-put_inside (2 * k) (le16 0) p start n inside (omega arith) in
    let len : length (slice p start n) ≡ n = length-slice p start n inside in
    let inside' : start + n ≤ length cleared =
      omega (arith, length-put (start + 2 * k) (le16 0) p) in
    let hb' : IsBytes range =
      IsBytes-slice cleared start n (IsBytes-put (start + 2 * k) (le16 0) p (omega arith) hb) in
    let len' : length range ≡ n = length-slice cleared start n inside' in
    rw (slice-put_inside (2 * k) (le16 (cksum range)) cleared start n inside' (omega arith)) (
      cksum-put-verifies k range hb' (omega (arith, len')) (omega (arith, len'))
        (zero_at (2 * k) range _ clear (omega (arith, len)) (2 * k) (omega arith) (omega arith))
        (zero_at (2 * k) range _ clear (omega (arith, len)) (suc (2 * k)) (omega arith)
          (omega arith)))

-- The lengths of buffers that were written to, for `omega`.
pub ruleset buffer_lengths = (arith, length-put, length-set_cksum)
