-- ===== src/Proxy/Parse/Strings/Laws.antt =====
-- The string functions on texts that avoid the bytes looked for.
use computer_networks.Prelude.{
  ℕ, ◌≡◌, ◌≢◌, refl, ap, inl, inr, true, false, none, some, [], ◌∷◌, ◌++◌, ◌==◌, All, Bool-cases,
  arith,
}
use computer_networks.Prelude.Words.{Bytes}
use computer_networks.Proxy.Parse.Strings.{
  c_string, starts_with, strstr, is_in, skip, cut, strtok_r, cut_mark, strtok_mark,
}

-- None of the bytes stands in the text.
abbrev pub Avoids : Bytes → Bytes → Type 0
Avoids ds t = All (λ b. is_in ds b ≡ false) t

pub cut_word :
    (ds t : Bytes) (d : ℕ) (rest : Bytes)
    → Avoids ds t
    → is_in ds d ≡ true
    → cut ds (t ++ d ∷ rest) ≡ (t, some rest)
unfolding cut
cut_word ds [] d rest h e = rw e refl
cut_word ds (x ∷ t) d rest (hx, h) e = rw (hx, cut_word ds t d rest h e) refl

cut_all : (ds t : Bytes) → Avoids ds t → cut ds t ≡ (t, none)
unfolding cut
cut_all ds [] h = refl
cut_all ds (x ∷ t) (hx, h) = rw (hx, cut_all ds t h) refl

pub strtok_word :
    (ds t : Bytes) (d : ℕ) (rest : Bytes)
    → t ≢ []
    → Avoids ds t
    → is_in ds d ≡ true
    → strtok_r ds (t ++ d ∷ rest) ≡ some (t, some rest)
unfolding strtok_r skip
strtok_word ds [] d rest ne h e = absurd (ne refl)
strtok_word ds (x ∷ t) d rest ne h e = rw h.0 (ap some (cut_word ds (x ∷ t) d rest h e))

pub strtok_all : (ds t : Bytes) → t ≢ [] → Avoids ds t → strtok_r ds t ≡ some (t, none)
unfolding strtok_r skip
strtok_all ds [] ne h = absurd (ne refl)
strtok_all ds (x ∷ t) ne h = rw h.0 (ap some (cut_all ds (x ∷ t) h))

pub strtok_skip :
    (ds : Bytes) (d : ℕ) (t : Bytes) → is_in ds d ≡ true → strtok_r ds (d ∷ t) ≡ strtok_r ds t
unfolding strtok_r skip
strtok_skip ds d t e = rw e refl

cut_mark_word :
    (ds t : Bytes) (d : ℕ) (rest : Bytes)
    → Avoids ds t
    → is_in ds d ≡ true
    → cut_mark ds (t ++ d ∷ rest) ≡ t ++ 0 ∷ rest
unfolding cut_mark
cut_mark_word ds [] d rest h e = rw e refl
cut_mark_word ds (x ∷ t) d rest (hx, h) e = rw (hx, cut_mark_word ds t d rest h e) refl

pub strtok_mark_word :
    (ds t : Bytes) (d : ℕ) (rest : Bytes)
    → t ≢ []
    → Avoids ds t
    → is_in ds d ≡ true
    → strtok_mark ds (t ++ d ∷ rest) ≡ t ++ 0 ∷ rest
unfolding strtok_mark
strtok_mark_word ds [] d rest ne h e = absurd (ne refl)
strtok_mark_word ds (x ∷ t) d rest ne h e =
    rw h.0 (ap (λ r. x ∷ r) (cut_mark_word ds t d rest h.1 e))

pub c_string_word : (t rest : Bytes) → Avoids (0 ∷ []) t → c_string (t ++ 0 ∷ rest) ≡ t
unfolding c_string
c_string_word [] rest h = refl
c_string_word (x ∷ t) rest (hx, h) = ground (arith, hx, c_string_word t rest h)

-- A pattern that starts with `d` is not found in a text without `d`.
pub strstr_word :
    (d : ℕ) (pattern t rest : Bytes)
    → Avoids (0 ∷ d ∷ []) t
    → starts_with (d ∷ pattern) rest ≡ true
    → strstr (d ∷ pattern) (t ++ rest) ≡ some (t, rest)
unfolding strstr starts_with
strstr_word d pattern [] [] h e = cc
strstr_word d pattern [] (y ∷ rest) h e = rw e refl
strstr_word d pattern (x ∷ t) rest (hx, h) e =
    let other : (d == x) ≡ false = ground (arith, hx) in
    let nonzero : (x == 0) ≡ false = ground (arith, hx) in
    rw (other, nonzero, strstr_word d pattern t rest h e) refl

-- A pattern is found wherever it stands, if no 0 is before it.
pub strstr_there :
    (pattern a rest : Bytes)
    → Avoids (0 ∷ []) a
    → pattern ≢ []
    → starts_with pattern rest ≡ true
    → (found : Bytes × Bytes) × (strstr pattern (a ++ rest) ≡ some found)
unfolding strstr
strstr_there [] a rest h ne e = absurd (ne refl)
strstr_there (d ∷ pattern) [] [] h ne e = unfold starts_with in cc
strstr_there (d ∷ pattern) [] (y ∷ rest) h ne e = (([], y ∷ rest), rw e refl)
strstr_there (d ∷ pattern) (x ∷ a) rest (hx, h) ne e =
    elim (Bool-cases (starts_with (d ∷ pattern) (x ∷ (a ++ rest)))) [
      | inl here ↦ (([], x ∷ (a ++ rest)), rw here refl)
      | inr on ↦
          let (found, later) = strstr_there (d ∷ pattern) a rest h ne e in
          let nonzero : (x == 0) ≡ false = ground (arith, hx) in
          ((x ∷ found.0, found.1), rw (on, nonzero, later) refl)
    ]

-- The weaker of two such conditions.
pub Avoids-sub :
    (ds es t : Bytes)
    → ((b : ℕ) → is_in ds b ≡ false → is_in es b ≡ false)
    → Avoids ds t
    → Avoids es t
Avoids-sub ds es [] weaker h = tt
Avoids-sub ds es (x ∷ t) weaker (hx, h) = (weaker x hx, Avoids-sub ds es t weaker h)
