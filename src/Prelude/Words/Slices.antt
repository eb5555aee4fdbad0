-- ===== src/Prelude/Words/Slices.antt =====
-- A range of a buffer, before and after a write inside or outside it.
use computer_networks.Prelude.Lists.{length, take, drop, length-take, length-drop, take_all}
use computer_networks.Prelude.Words.{
  Bytes, IsBytes, byte, slice, put, le16, load16, length-put, byte-put, IsBytes-byte,
}
use Prim.Native.Nat.{ℕ, zero, suc, ◌+◌, ◌-◌, ◌≤◌, ◌<◌}
use mathlib.Core.Path.{◌≡◌, refl, ap, ap₂, ◌∙◌, sym}
use mathlib.Core.Logic.{◌⊎◌}
use mathlib.Core.List.{List, [], ◌∷◌, ◌++◌, append-nil, append_assoc}
use native.Mathlib.Omega.{arith}

-- Buffers of one length with the same bytes are equal.
pub bytes_ext :
    (a b : Bytes) → length a ≡ length b → ((i : ℕ) → i < length a → byte a i ≡ byte b i) → a ≡ b
bytes_ext [] [] e h = refl
bytes_ext [] (y ∷ b) e h = absurd (omega arith)
bytes_ext (x ∷ a) [] e h = absurd (omega arith)
bytes_ext (x ∷ a) (y ∷ b) e h =
    ap₂ ◌∷◌ (h 0 (omega arith)) (bytes_ext a b (omega arith) (λ i lt. h (suc i) (omega arith)))

pub byte-take : (n i : ℕ) (p : Bytes) → i < n → byte (take n p) i ≡ byte p i
byte-take zero i p h = absurd (omega arith)
byte-take (suc n) i [] h = refl
byte-take (suc n) zero (x ∷ p) h = refl
byte-take (suc n) (suc i) (x ∷ p) h = byte-take n i p (omega arith)

byte-drop : (o i : ℕ) (p : Bytes) → byte (drop o p) i ≡ byte p (o + i)
byte-drop zero i p = let e : i ≡ 0 + i = omega arith in ap (λ j. byte p j) e
byte-drop (suc o) i [] = refl
byte-drop (suc o) i (x ∷ p) = ground (arith, byte-drop o i p)

pub byte-slice : (p : Bytes) (o n i : ℕ) → i < n → byte (slice p o n) i ≡ byte p (o + i)
byte-slice p o n i h = byte-take n i (drop o p) h ∙ byte-drop o i p

pub length-slice : (p : Bytes) (o n : ℕ) → o + n ≤ length p → length (slice p o n) ≡ n
length-slice p o n h = omega (arith, length-take n (drop o p), length-drop o p)

-- A write outside a range leaves the range as it was.
pub slice-put_outside :
    (o : ℕ) (bs p : Bytes) (s n : ℕ)
    → o + length bs ≤ length p
    → s + n ≤ length p
    → (o + length bs ≤ s) ⊎ (s + n ≤ o)
    → slice (put o bs p) s n ≡ slice p s n
slice-put_outside o bs p s n fits inside apart =
    bytes_ext (slice (put o bs p) s n) (slice p s n) (same ∙ sym (length-slice p s n inside))
      λ i lt.
        let lt' : i < n = omega (arith, same) in
        byte-slice (put o bs p) s n i lt'
        ∙ ground (arith, byte-put o bs p (s + i))
        ∙ sym (byte-slice p s n i lt')
  where
    same : length (slice (put o bs p) s n) ≡ n
    same = length-slice (put o bs p) s n (omega (arith, length-put o bs p))

-- A write inside a range is a write to the range.
pub slice-put_inside :
    (o : ℕ) (bs p : Bytes) (s n : ℕ)
    → s + n ≤ length p
    → o + length bs ≤ n
    → slice (put (s + o) bs p) s n ≡ put o bs (slice p s n)
slice-put_inside o bs p s n inside fits =
    bytes_ext (slice (put (s + o) bs p) s n) (put o bs (slice p s n))
      (same ∙ sym (length-slice p s n inside) ∙ sym (length-put o bs (slice p s n)))
      λ i lt.
        let lt' : i < n = omega (arith, same) in
        byte-slice (put (s + o) bs p) s n i lt'
        ∙ ground (
          arith,
          byte-put (s + o) bs p (s + i),
          byte-put o bs (slice p s n) i,
          length-slice p s n inside,
          byte-slice p s n i lt',
        )
  where
    same : length (slice (put (s + o) bs p) s n) ≡ n
    same = length-slice (put (s + o) bs p) s n (omega (arith, length-put (s + o) bs p))

IsBytes-take : (n : ℕ) (p : Bytes) → IsBytes p → IsBytes (take n p)
IsBytes-take zero p h = tt
IsBytes-take (suc n) [] h = tt
IsBytes-take (suc n) (x ∷ p) h = (h.0, IsBytes-take n p h.1)

IsBytes-drop : (o : ℕ) (p : Bytes) → IsBytes p → IsBytes (drop o p)
IsBytes-drop zero p h = h
IsBytes-drop (suc o) [] h = tt
IsBytes-drop (suc o) (x ∷ p) h = IsBytes-drop o p h.1

pub IsBytes-slice : (p : Bytes) (o n : ℕ) → IsBytes p → IsBytes (slice p o n)
IsBytes-slice p o n h = IsBytes-take n (drop o p) (IsBytes-drop o p h)

-- A write before a tail leaves the tail as it was.
pub drop-put :
    (s o : ℕ) (bs p : Bytes)
    → o + length bs ≤ length p
    → o + length bs ≤ s
    → drop s (put o bs p) ≡ drop s p
drop-put s o bs p fits before =
    bytes_ext (drop s (put o bs p)) (drop s p)
      (omega (arith, length-drop s (put o bs p), length-drop s p, length-put o bs p))
      λ i lt.
        byte-drop s i (put o bs p) ∙ ground (arith, byte-put o bs p (s + i)) ∙ sym (byte-drop s i p)

-- What was just written is read back.
pub slice-put_self :
    (o : ℕ) (bs p : Bytes) (n : ℕ) → length bs ≡ n → o + n ≤ length p → slice (put o bs p) o n ≡ bs
slice-put_self o bs p n e fits = bytes_ext (slice (put o bs p) o n) bs (same ∙ sym e) λ i lt.
    let lt' : i < n = omega (arith, same) in
    byte-slice (put o bs p) o n i lt' ∙ ground (arith, byte-put o bs p (o + i))
  where
    same : length (slice (put o bs p) o n) ≡ n
    same = length-slice (put o bs p) o n (omega (arith, length-put o bs p))

-- Writing the old bytes back over a write undoes it.
pub put_back :
    (o n : ℕ) (bs q : Bytes)
    → length bs ≡ n
    → o + n ≤ length q
    → put o (slice q o n) (put o bs q) ≡ q
put_back o n bs q e fits =
    bytes_ext (put o old (put o bs q)) q (length-put o old (put o bs q) ∙ length-put o bs q) λ i lt.
      byte-put o old (put o bs q) i (omega (arith, len, length-put o bs q))
      ∙ ground (arith, len, byte-put o bs q i, byte-slice q o n (i - o))
  where
    old : Bytes
    old = slice q o n

    len : length old ≡ n
    len = length-slice q o n fits

-- A 16-bit load, stored again, is the two bytes that were read.
pub le16-load16 :
    (p : Bytes) (o : ℕ) → IsBytes p → o + 2 ≤ length p → le16 (load16 p o) ≡ slice p o 2
le16-load16 p o hb fits =
    bytes_ext (le16 (load16 p o)) (slice p o 2) (sym (length-slice p o 2 fits)) two
  where
    two : (j : ℕ) → j < 2 → byte (le16 (load16 p o)) j ≡ byte (slice p o 2) j
    two zero h =
        omega (arith, byte-slice p o 2 0, IsBytes-byte p o hb, IsBytes-byte p (o + 1) hb, zero_off)
      where
        zero_off : byte p (o + 0) ≡ byte p o
        zero_off = ap (λ j. byte p j) (omega arith)
    two (suc zero) h =
        omega (arith, byte-slice p o 2 1, IsBytes-byte p o hb, IsBytes-byte p (o + 1) hb)
    two (suc (suc j)) h = absurd (omega arith)

-- Buffers put one behind the other.
unfoldable pub joined : List Bytes → Bytes
joined [] = []
joined (d ∷ ds) = d ++ joined ds

pub joined-append : (ds : List Bytes) (d : Bytes) → joined (ds ++ d ∷ []) ≡ joined ds ++ d
unfolding joined
joined-append [] d = append-nil d
joined-append (x ∷ ds) d =
    ap (λ r. x ++ r) (joined-append ds d) ∙ sym (append_assoc x (joined ds) d)

pub take-add : (k n : ℕ) (p : Bytes) → take k p ++ take n (drop k p) ≡ take (k + n) p
take-add zero n p = ground arith
take-add (suc k) zero [] = sym (take_all (suc k + 0) [] (omega arith))
take-add (suc k) (suc n) [] = sym (take_all (suc k + suc n) [] (omega arith))
take-add (suc k) n (x ∷ p) =
    let shift : suc k + n ≡ suc (k + n) = omega arith in rw shift (ap (λ q. x ∷ q) (take-add k n p))

pub take-drop : (n : ℕ) (p : Bytes) → p ≡ take n p ++ drop n p
take-drop zero p = refl
take-drop (suc n) [] = refl
take-drop (suc n) (x ∷ p) = ap (λ t. x ∷ t) (take-drop n p)

drop_nil : {A : Type 0} (n : ℕ) → drop {A = A} n [] ≡ []
drop_nil zero = refl
drop_nil (suc n) = refl

pub drop-add : (k n : ℕ) (p : Bytes) → drop n (drop k p) ≡ drop (k + n) p
drop-add zero n p = ap (λ i. drop i p) (omega arith)
drop-add (suc k) n [] = drop_nil n ∙ sym (drop_nil (suc k + n))
drop-add (suc k) n (x ∷ p) =
    let shift : suc k + n ≡ suc (k + n) = omega arith in rw shift (drop-add k n p)

pub take-append : (packet rest : Bytes) → take (length packet) (packet ++ rest) ≡ packet
take-append [] rest = refl
take-append (x ∷ packet) rest = ap (λ t. x ∷ t) (take-append packet rest)

pub drop-append : (packet rest : Bytes) → drop (length packet) (packet ++ rest) ≡ rest
drop-append [] rest = refl
drop-append (x ∷ packet) rest = drop-append packet rest
