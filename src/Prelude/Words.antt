-- ===== src/Prelude/Words.antt =====
-- Byte buffers and machine words. A buffer is a list of bytes; the program runs on a
-- little-endian machine, so the low byte of a loaded word comes first.
pub mod Slices
use computer_networks.Prelude.Tests.{leb, ltb, if◌then◌else◌}
use computer_networks.Prelude.Lists.{length, get_or, take, drop, All}
use Prim.Native.Nat.{ℕ, zero, suc, ◌+◌, ◌-◌, ◌*◌, ◌/◌, ◌%◌, ◌≤◌, ◌<◌}
use mathlib.Core.Path.{◌≡◌, refl, ap}
use mathlib.Core.Bool.{Bool, ◌&&◌}
use mathlib.Core.List.{List, [], ◌∷◌}
use native.Mathlib.Omega.{arith}

abbrev pub Bytes : Type 0
Bytes = List ℕ

-- Every element fits a `uint8_t`.
abbrev pub IsBytes : Bytes → Type 0
IsBytes p = All (λ b. b < 256) p

abbrev pub byte : Bytes → ℕ → ℕ
byte p i = get_or p i 0

-- A load of a `uint16_t` and of a `uint32_t` at a byte offset.
abbrev pub load16 : Bytes → ℕ → ℕ
load16 p o = byte p o + 256 * byte p (o + 1)

abbrev pub load32 : Bytes → ℕ → ℕ
load32 p o = byte p o + 256 * byte p (o + 1) + 65536 * byte p (o + 2) + 16777216 * byte p (o + 3)

-- `memcpy(buf + o, &buf[i], n)` takes its source from here.
abbrev pub slice : Bytes → ℕ → ℕ → Bytes
slice p o n = take n (drop o p)

unfoldable pub overlay : Bytes → Bytes → Bytes
overlay [] p = p
overlay (b ∷ bs) [] = []
overlay (b ∷ bs) (x ∷ p) = b ∷ overlay bs p

-- `memcpy(p + o, bs, length bs)`.
unfoldable pub put : ℕ → Bytes → Bytes → Bytes
unfolding overlay
put zero bs p = overlay bs p
put (suc o) bs [] = []
put (suc o) bs (x ∷ p) = x ∷ put o bs p

abbrev pub le16 : ℕ → Bytes
le16 v = v % 256 ∷ v / 256 % 256 ∷ []

abbrev pub le32 : ℕ → Bytes
le32 v = v % 256 ∷ v / 256 % 256 ∷ v / 65536 % 256 ∷ v / 16777216 % 256 ∷ []

-- `htons`, and `ntohs`, which is the same swap.
abbrev pub htons : ℕ → ℕ
htons v = v % 256 * 256 + v / 256 % 256

pub length-overlay : (bs p : Bytes) → length (overlay bs p) ≡ length p
unfolding overlay
length-overlay [] p = refl
length-overlay (b ∷ bs) [] = refl
length-overlay (b ∷ bs) (x ∷ p) = ap suc (length-overlay bs p)

pub length-put : (o : ℕ) (bs p : Bytes) → length (put o bs p) ≡ length p
unfolding put
length-put zero bs p = length-overlay bs p
length-put (suc o) bs [] = refl
length-put (suc o) bs (x ∷ p) = ap suc (length-put o bs p)

-- A byte of a buffer after a write inside it.
pub byte-overlay :
    (bs p : Bytes) (i : ℕ)
    → length bs ≤ length p
    → byte (overlay bs p) i ≡ (if ltb i (length bs) then byte bs i else byte p i)
unfolding overlay
byte-overlay [] p i h = ground arith
byte-overlay (b ∷ bs) [] i h = absurd (omega arith)
byte-overlay (b ∷ bs) (x ∷ p) zero h = ground arith
byte-overlay (b ∷ bs) (x ∷ p) (suc i) h = ground (arith, byte-overlay bs p i)

pub byte-put :
    (o : ℕ) (bs p : Bytes) (i : ℕ)
    → o + length bs ≤ length p
    → byte (put o bs p) i ≡ (if leb o i && ltb i (o + length bs) then byte bs (i - o) else byte p i)
unfolding put
byte-put zero bs p i h = ground (arith, byte-overlay bs p i)
byte-put (suc o) bs [] i h = absurd (omega arith)
byte-put (suc o) bs (x ∷ p) zero h = ground arith
byte-put (suc o) bs (x ∷ p) (suc i) h = ground (arith, byte-put o bs p i)

pub IsBytes-overlay : (bs p : Bytes) → IsBytes bs → IsBytes p → IsBytes (overlay bs p)
unfolding overlay
IsBytes-overlay [] p hb hp = hp
IsBytes-overlay (b ∷ bs) [] hb hp = tt
IsBytes-overlay (b ∷ bs) (x ∷ p) hb hp = (hb.0, IsBytes-overlay bs p hb.1 hp.1)

pub IsBytes-put : (o : ℕ) (bs p : Bytes) → IsBytes bs → IsBytes p → IsBytes (put o bs p)
unfolding put
IsBytes-put zero bs p hb hp = IsBytes-overlay bs p hb hp
IsBytes-put (suc o) bs [] hb hp = tt
IsBytes-put (suc o) bs (x ∷ p) hb hp = (hp.0, IsBytes-put o bs p hb hp.1)

pub IsBytes-byte : (p : Bytes) (i : ℕ) → IsBytes p → byte p i < 256
IsBytes-byte [] i h = omega arith
IsBytes-byte (x ∷ p) zero h = h.0
IsBytes-byte (x ∷ p) (suc i) h = IsBytes-byte p i h.1

pub htons-htons : (v : ℕ) → v < 65536 → htons (htons v) ≡ v
htons-htons v h = omega arith
