-- ===== src/Router/Checksum.antt =====
-- `cksum` of router/src/router/sr_utils.c: the Internet checksum of a byte range.
pub mod Laws
use computer_networks.Prelude.{
  ℕ, zero, suc, ◌+◌, ◌-◌, ◌*◌, ◌/◌, ◌%◌, ◌^◌, List, [], ◌∷◌, ltb, ◌==◌, if◌then◌else◌,
}
use computer_networks.Prelude.Words.{Bytes, htons}

-- The `for` loop over pairs of bytes and the odd byte behind it; `sum` is a `uint32_t`.
-- `data[0] << 8 | data[1]` joins disjoint bits, and is a sum.
unfoldable pub cksum_sum : ℕ → Bytes → ℕ
cksum_sum sum [] = sum
cksum_sum sum (a ∷ []) = (sum + a * 256) % 2 ^ 32
cksum_sum sum (a ∷ b ∷ range) = cksum_sum ((sum + (a * 256 + b)) % 2 ^ 32) range

-- `while (sum > 0xffff)`, on fuel.
unfoldable pub cksum_fold : ℕ → ℕ → ℕ
cksum_fold zero sum = sum
cksum_fold (suc fuel) sum =
    let rest = cksum_fold fuel (sum / 2 ^ 16 + sum % 2 ^ 16) in if ltb 0xffff sum then rest else sum

-- Two rounds of folding are enough for a `uint32_t`. `htons` takes the low half of `~sum`.
unfoldable pub cksum : Bytes → ℕ
unfolding cksum_sum cksum_fold
cksum range =
    let sum = htons ((2 ^ 32 - 1 - cksum_fold 2 (cksum_sum 0 range)) % 2 ^ 16) in
    if sum == 0 then 0xffff else sum
