-- ===== src/Router/Routes/Longest.antt =====
-- Which entry `sr_get_longest_prefix_match` picks.
use computer_networks.Prelude.{
  ℕ, ◌+◌, ◌≤◌, ◌<◌, ◌≡◌, refl, ap, ◌⊎◌, inl, inr, true, false, Option, none, some, List, [], ◌∷◌,
  ◌++◌, ltb, bit_and, arith, All, All-append, Bool-cases, each_below, each_below-at, ltb→lt,
  ltb-false→le, ◌^◌, ◌-◌, ◌*◌, ◌/◌, ◌%◌,
}
use mathlib.Core.Path.{subst}
use mathlib.Core.List.{Memᴰ}
use native.Mathlib.Nat.{le_refl}
use native.Mathlib.Decide.{ℕ_discrete}
use computer_networks.Router.State.{Route}
use computer_networks.Router.Routes.{takes_over, match_loop, sr_get_longest_prefix_match}

-- The destination and the address agree under the entry's mask.
abbrev pub Matches : ℕ → Route → Type 0
Matches ip r = bit_and ip r.mask ≡ bit_and r.dest r.mask

-- `x` does not match, or its mask is at most, or is below, `m`.
abbrev pub UpTo : ℕ → ℕ → Route → Type 0
UpTo ip m x = (¬ Matches ip x) ⊎ (x.mask ≤ m)

abbrev pub Below : ℕ → ℕ → Route → Type 0
Below ip m x = (¬ Matches ip x) ⊎ (x.mask < m)

-- `r` stands in the table and matches; no matching entry has a larger mask, and none that
-- stands behind it one as large.
pub record IsBest (ip : ℕ) (table : List Route) (r : Route) : Type 0 where
  pub before : List Route
  pub after : List Route
  pub stands : table ≡ before ++ r ∷ after
  pub matches : Matches ip r
  pub up_to : All (UpTo ip r.mask) before
  pub beyond : All (Below ip r.mask) after

abbrev pub LongestMatch : ℕ → List Route → Option Route → Type 0
LongestMatch ip table none = All (λ x. ¬ Matches ip x) table
LongestMatch ip table (some r) = IsBest ip table r

Below-UpTo : (ip : ℕ) (x : Route) {m n : ℕ} → m ≤ n → Below ip m x → UpTo ip n x
Below-UpTo ip x le (inl no_match) = inl no_match
Below-UpTo ip x le (inr lt) = inr (omega arith)

Below-zero : (ip : ℕ) (x : Route) → Below ip 0 x → ¬ Matches ip x
Below-zero ip x (inl no_match) = no_match
Below-zero ip x (inr lt) = absurd (omega arith)

IsBest-cons :
    {ip : ℕ} {table : List Route} {r : Route} (x : Route)
    → UpTo ip r.mask x
    → IsBest ip table r
    → IsBest ip (x ∷ table) r
IsBest-cons x h b = record {
  before = x ∷ b.before;
  after = b.after;
  stands = ap (λ t. x ∷ t) b.stands;
  matches = b.matches;
  up_to = (h, b.up_to);
  beyond = b.beyond;
}

takes_over-true : (ip m : ℕ) (x : Route) → takes_over ip m x ≡ true → Matches ip x × (m ≤ x.mask)
unfolding takes_over
takes_over-true ip m x h = ground arith

takes_over-false : (ip m : ℕ) (x : Route) → takes_over ip m x ≡ false → Below ip m x
unfolding takes_over
takes_over-false ip m x h = elim (ℕ_discrete (bit_and ip x.mask) (bit_and x.dest x.mask)) [
  | yes e ↦ inr (ground arith)
  | no n ↦ inl n
]

-- The loop with a match `c` in hand: `c` stays, or a later entry is the best.
loop_from :
    (ip : ℕ) (table : List Route) (c : Route)
    → ((match_loop ip table (some c) c.mask ≡ some c) × All (Below ip c.mask) table)
      ⊎ ((r : Route) × (match_loop ip table (some c) c.mask ≡ some r)
          × (c.mask ≤ r.mask)
          × IsBest ip table r)
unfolding match_loop
loop_from ip [] c = inl (refl, tt)
loop_from ip (x ∷ table) c = elim (Bool-cases (takes_over ip c.mask x)) [
  | inl e ↦
      let (m, le) = takes_over-true ip c.mask x e in
      rw e (elim (loop_from ip table x) [
        | inl (p, all) ↦ inr (
          x,
          p,
          le,
          record {
            before = [];
            after = table;
            stands = refl;
            matches = m;
            up_to = tt;
            beyond = all;
          },
        )
        | inr (r, p, le', best) ↦ inr (r, p, omega arith, IsBest-cons x (inr le') best)
      ])
  | inr e ↦ rw e (elim (loop_from ip table c) [
    | inl (p, all) ↦ inl (p, (takes_over-false ip c.mask x e, all))
    | inr (r, p, le, best) ↦
        inr (r, p, le, IsBest-cons x (Below-UpTo ip x le (takes_over-false ip c.mask x e)) best)
  ])
]

LongestMatch-cons :
    (ip : ℕ) (table : List Route) (x : Route) (found : Option Route)
    → ¬ Matches ip x
    → LongestMatch ip table found
    → LongestMatch ip (x ∷ table) found
LongestMatch-cons ip table x none n h = (n, h)
LongestMatch-cons ip table x (some r) n h = IsBest-cons x (inl n) h

match_from_none : (ip : ℕ) (table : List Route) → LongestMatch ip table (match_loop ip table none 0)
unfolding match_loop
match_from_none ip [] = tt
match_from_none ip (x ∷ table) = elim (Bool-cases (takes_over ip 0 x)) [
  | inl e ↦ rw e (elim (loop_from ip table x) [
    | inl (p, all) ↦ rw p (record {
      before = [];
      after = table;
      stands = refl;
      matches = (takes_over-true ip 0 x e).0;
      up_to = tt;
      beyond = all;
    })
    | inr (r, p, le, best) ↦ rw p (IsBest-cons x (inr le) best)
  ])
  | inr e ↦ rw e (
      LongestMatch-cons ip table x _ (Below-zero ip x (takes_over-false ip 0 x e))
        (match_from_none ip table))
]

-- The result matches the address; no matching entry of the table has a larger mask, and of those
-- with the same mask it is the last; without a result no entry matches.
pub sr_get_longest_prefix_match_lem :
    (table : List Route) (ip : ℕ) → LongestMatch ip table (sr_get_longest_prefix_match table ip)
unfolding sr_get_longest_prefix_match
sr_get_longest_prefix_match_lem table ip = match_from_none ip table

-- `htonl`.
abbrev pub htonl : ℕ → ℕ
htonl v = v % 256 * 16777216 + v / 256 % 256 * 65536 + v / 65536 % 256 * 256 + v / 16777216 % 256

-- The mask of a prefix of `k` bits, as the program loads it.
abbrev pub netmask : ℕ → ℕ
netmask k = htonl (2 ^ 32 - 2 ^ (32 - k))

netmask_table : each_below (λ k. each_below (λ j. ltb (netmask j) (netmask k)) k) 33 ≡ true
unfolding each_below
netmask_table = refl

lt_irrefl_of : {a b : ℕ} → a < b → b ≤ a → ⊥
lt_irrefl_of h k = omega arith

netmask_mono : (j k : ℕ) → j < k → k < 33 → netmask j < netmask k
netmask_mono j k jk k33 =
    ltb→lt (netmask j) (netmask k) (each_below-at _ k j jk (each_below-at _ 33 k k33 netmask_table))

netmask_cancel : (k j : ℕ) → k < 33 → netmask k ≤ netmask j → k ≤ j
netmask_cancel k j lt le = elim (Bool-cases (ltb j k)) [
  | inl h ↦ absurd (lt_irrefl_of (netmask_mono j k (ltb→lt j k h) lt) le)
  | inr h ↦ ltb-false→le j k h
]

-- Every entry's mask is that of a prefix, whose length `prefix_len` gives.
abbrev pub HasPrefixes : (Route → ℕ) → List Route → Type 0
HasPrefixes prefix_len table =
    All (λ r. (prefix_len r < 33) × (r.mask ≡ netmask (prefix_len r))) table

module _ (prefix_len : Route → ℕ) (ip : ℕ) where
  shorter :
      (r x : Route) (xs : List Route)
      → prefix_len r < 33
      → r.mask ≡ netmask (prefix_len r)
      → HasPrefixes prefix_len xs
      → All (UpTo ip r.mask) xs
      → Memᴰ x xs
      → Matches ip x
      → prefix_len x ≤ prefix_len r
  shorter r x [] lt e h all mem m = elim mem [ ]
  shorter r x (y ∷ ys) lt e h all (Memᴰ.head p) m = elim all.0 [
    | inl n ↦ absurd (n (subst (Matches ip) p m))
    | inr le ↦ rw p (netmask_cancel (prefix_len y) (prefix_len r) h.0.0 (rw (← h.0.1, ← e) le))
  ]
  shorter r x (y ∷ ys) lt e h all (Memᴰ.tail p) m = shorter r x ys lt e h.1 all.1 p m

weaken : (ip m : ℕ) (xs : List Route) → All (Below ip m) xs → All (UpTo ip m) xs
weaken ip m [] h = tt
weaken ip m (x ∷ xs) h = (Below-UpTo ip x (le_refl m) h.0, weaken ip m xs h.1)

All-at {ℓ κ} :
    {A : Type ℓ} (P : A → Type κ) (xs : List A) (y : A) (ys : List A) → All P (xs ++ y ∷ ys) → P y
All-at P [] y ys h = h.0
All-at P (x ∷ xs) y ys h = All-at P xs y ys h.1

-- No matching entry has a larger mask than the one that was picked.
IsBest-largest :
    (ip : ℕ) (table : List Route) (r : Route) → IsBest ip table r → All (UpTo ip r.mask) table
IsBest-largest ip table r b = rw b.stands (
    All-append (UpTo ip r.mask) b.before (r ∷ b.after) b.up_to
      (inr (le_refl r.mask), weaken ip r.mask b.after b.beyond))

-- Where all masks are those of prefixes, no matching entry has a longer prefix than the one
-- that is picked: the comparison of masks as little-endian words orders them by length.
pub longest_prefix_picked :
    (prefix_len : Route → ℕ) (ip : ℕ) (table : List Route) (r x : Route)
    → HasPrefixes prefix_len table
    → sr_get_longest_prefix_match table ip ≡ some r
    → Memᴰ x table
    → Matches ip x
    → prefix_len x ≤ prefix_len r
longest_prefix_picked prefix_len ip table r x h e mem m =
    let best : IsBest ip table r =
      subst (LongestMatch ip table) e (sr_get_longest_prefix_match_lem table ip) in
    let own =
      All-at (λ x. (prefix_len x < 33) × (x.mask ≡ netmask (prefix_len x))) best.before r best.after
        (rw (← best.stands) h) in
    shorter prefix_len ip r x table own.0 own.1 h (IsBest-largest ip table r best) mem m
