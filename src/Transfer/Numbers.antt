-- ===== src/Transfer/Numbers.antt =====
-- The conversions of `sprintf` and `sscanf` that client.c and server.c of transport-layer/src use.
use computer_networks.Prelude.{
  ℕ, zero, suc, ◌+◌, ◌-◌, ◌*◌, ◌/◌, ◌%◌, ◌^◌, ◌<◌, ◌≤◌, ◌≡◌, refl, ap, ◌∙◌, Bool, true, Bool-cases,
  inl, inr, ◌&&◌, Option, none, some, [], ◌∷◌, ◌++◌, ◌==◌, if◌then◌else◌, ltb, leb, le→leb, ne→==,
  length, length-append, All, All-append, arith,
}
use computer_networks.Prelude.Words.{Bytes}
use computer_networks.Proxy.Parse.Strings.{skip}

-- `%lu`: the decimal digits of `n`, at most `k` of them. 20 hold every 64-bit number.
unfoldable pub decimal : ℕ → ℕ → Bytes
decimal zero n = []
decimal (suc k) n =
    let front = decimal k (n / 10) in
    if ltb n 10 then (48 + n) ∷ [] else front ++ (48 + n % 10) ∷ []

abbrev pub is_digit : ℕ → Bool
is_digit b = leb 48 b && leb b 57

unfoldable pub scan_digits : ℕ → Bytes → ℕ
scan_digits n [] = n
scan_digits n (b ∷ p) =
    let rest = scan_digits (n * 10 + (b - 48)) p in if is_digit b then rest else n

-- The digits behind a sign: none if there are none.
abbrev pub magnitude : Bytes → Option ℕ
magnitude [] = none
magnitude (b ∷ p) = if is_digit b then some (scan_digits 0 (b ∷ p)) else none

-- A negative number as the word that stands for it.
abbrev pub negated : Option ℕ → Option ℕ
negated none = none
negated (some n) = some ((2 ^ 32 - n % 2 ^ 32) % 2 ^ 32)

abbrev pub signed : Bytes → Option ℕ
signed [] = none
signed (b ∷ p) = if b == 45 then negated (magnitude p) else magnitude (if b == 43 then p else b ∷ p)

-- What `isspace` accepts.
abbrev spaces : Bytes
spaces = 32 ∷ 9 ∷ 10 ∷ 11 ∷ 12 ∷ 13 ∷ []

abbrev as_word : Option ℕ → Option ℕ
as_word none = none
as_word (some n) = some (n % 2 ^ 32)

-- `%d` of `sscanf`: the 32-bit word that is stored, or none; for a number that a long holds.
unfoldable pub scan_int : Bytes → Option ℕ
unfolding skip scan_digits
scan_int p = as_word (signed (skip spaces p))

abbrev pub IsDigit : ℕ → Type 0
IsDigit b = (48 ≤ b) × (b ≤ 57)

pub decimal-IsDigit : (k n : ℕ) → All IsDigit (decimal k n)
unfolding decimal
decimal-IsDigit zero n = tt
decimal-IsDigit (suc k) n = elim (Bool-cases (ltb n 10)) [
  | inl small ↦ rw small ((omega arith, ground arith), tt)
  | inr large ↦ rw large (
      All-append IsDigit (decimal k (n / 10)) ((48 + n % 10) ∷ []) (decimal-IsDigit k (n / 10))
        ((omega arith, omega arith), tt))
]

pub length-decimal : (k n : ℕ) → length (decimal k n) ≤ k
unfolding decimal
length-decimal zero n = omega arith
length-decimal (suc k) n = elim (Bool-cases (ltb n 10)) [
  | inl small ↦ rw small (omega arith)
  | inr large ↦ rw large (
      omega
        (arith, length-append (decimal k (n / 10)) ((48 + n % 10) ∷ []), length-decimal k (n / 10)))
]

digit_test : (b : ℕ) → IsDigit b → is_digit b ≡ true
digit_test b (low, high) = rw (le→leb 48 b low, le→leb b 57 high) refl

scan_digits-snoc :
    (m d : ℕ) (p : Bytes)
    → All IsDigit p
    → d < 10
    → scan_digits m (p ++ (48 + d) ∷ []) ≡ scan_digits m p * 10 + d
unfolding scan_digits
scan_digits-snoc m d [] digits small =
    rw (digit_test (48 + d) (omega arith, omega arith)) (omega arith)
scan_digits-snoc m d (b ∷ p) (digit, digits) small =
    rw (digit_test b digit) (scan_digits-snoc (m * 10 + (b - 48)) d p digits small)

scan_digits-decimal : (k n : ℕ) → n < 10 ^ k → scan_digits 0 (decimal k n) ≡ n
unfolding decimal scan_digits
scan_digits-decimal zero n short = omega arith
scan_digits-decimal (suc k) n short = elim (Bool-cases (ltb n 10)) [
  | inl small ↦ rw (small, digit_test (48 + n) (omega arith, ground arith)) (omega arith)
  | inr large ↦
      rw
        (
          large,
          scan_digits-snoc 0 (n % 10) (decimal k (n / 10)) (decimal-IsDigit k (n / 10))
              (omega arith),
          scan_digits-decimal k (n / 10) (omega arith),
        )
        (omega arith)
]

positive_decimal : (k n : ℕ) → 0 < length (decimal (suc k) n)
unfolding decimal
positive_decimal k n = elim (Bool-cases (ltb n 10)) [
  | inl small ↦ rw small (omega arith)
  | inr large ↦ rw large (omega (arith, length-append (decimal k (n / 10)) ((48 + n % 10) ∷ [])))
]

skip-digit : (b : ℕ) (p : Bytes) → IsDigit b → skip spaces (b ∷ p) ≡ b ∷ p
unfolding skip
skip-digit b p digit =
    rw
      (
        ne→== b 32 (omega arith),
        ne→== b 9 (omega arith),
        ne→== b 10 (omega arith),
        ne→== b 11 (omega arith),
        ne→== b 12 (omega arith),
        ne→== b 13 (omega arith),
      )
      refl

signed-digit : (b : ℕ) (p : Bytes) → IsDigit b → signed (b ∷ p) ≡ some (scan_digits 0 (b ∷ p))
signed-digit b p digit =
    rw (ne→== b 45 (omega arith), ne→== b 43 (omega arith), digit_test b digit) refl

scan_int-digits :
    (p : Bytes) → 0 < length p → All IsDigit p → scan_int p ≡ some (scan_digits 0 p % 2 ^ 32)
unfolding scan_int
scan_int-digits [] some_digit digits = absurd (omega arith)
scan_int-digits (b ∷ p) some_digit (digit, digits) =
    ap (λ q. as_word (signed q)) (skip-digit b p digit) ∙ ap as_word (signed-digit b p digit)

-- What is printed is what is scanned.
pub scan_int-decimal : (n : ℕ) → n < 2 ^ 31 → scan_int (decimal 20 n) ≡ some n
scan_int-decimal n short =
    scan_int-digits (decimal 20 n) (positive_decimal 19 n) (decimal-IsDigit 20 n)
    ∙ rw (scan_digits-decimal 20 n (omega arith)) (ap some (omega arith))
