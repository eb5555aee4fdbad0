-- ===== src/Router/ArpCache/Table.antt =====
-- The table of mappings: what a lookup finds after an insertion and after a sweep.
use computer_networks.Prelude.{
  ℕ, ◌+◌, ◌≤◌, ◌≡◌, refl, sym, ◌∙◌, inl, inr, Bool, true, false, ◌&&◌, ◌||◌, not, Option, none,
  some, List, [], ◌∷◌, ◌==◌, if◌then◌else◌, take, arith, All, Bool-cases, Option-cases,
}
use computer_networks.Prelude.Words.{Bytes}
use computer_networks.Router.State.{ArpEntry, ArpCache}
use computer_networks.Router.ArpCache.{
  lookup_loop, sr_arpcache_lookup, fill_slot, sr_arpcache_insert, expire_entries, arpcache_to,
}

-- The entry holds a mapping for `ip`.
abbrev pub hits : ℕ → ArpEntry → Bool
hits ip e = e.valid && e.ip == ip

abbrev pub or_else {ℓ} : {A : Type ℓ} → Option A → Option A → Option A
or_else (some a) other = some a
or_else none other = other

or_else_assoc {ℓ} :
    {A : Type ℓ} (a b c : Option A) → or_else (or_else a b) c ≡ or_else a (or_else b c)
or_else_assoc (some a) b c = refl
or_else_assoc none b c = refl

-- The last entry that holds a mapping for `ip`.
unfoldable pub last_hit : ℕ → List ArpEntry → Option ArpEntry
last_hit ip [] = none
last_hit ip (e ∷ es) = or_else (last_hit ip es) (if hits ip e then some e else none)

lookup_loop-last_hit :
    (ip : ℕ) (es : List ArpEntry) (entry : Option ArpEntry)
    → lookup_loop ip es entry ≡ or_else (last_hit ip es) entry
unfolding lookup_loop last_hit
lookup_loop-last_hit ip [] entry = refl
lookup_loop-last_hit ip (e ∷ es) entry = elim (Bool-cases (hits ip e)) [
  | inl h ↦ rw (h, or_else_assoc) (lookup_loop-last_hit ip es (some e))
  | inr h ↦ rw (h, or_else_assoc) (lookup_loop-last_hit ip es entry)
]

or_else-none {ℓ} : {A : Type ℓ} (a : Option A) → or_else a none ≡ a
or_else-none (some a) = refl
or_else-none none = refl

lookup-last_hit :
    (cache : ArpCache) (ip : ℕ) → sr_arpcache_lookup cache ip ≡ last_hit ip cache.entries
unfolding sr_arpcache_lookup
lookup-last_hit cache ip = lookup_loop-last_hit ip cache.entries none ∙ or_else-none _

-- Whether a slot is free, and the slots behind the first free one.
unfoldable pub has_free : List ArpEntry → Bool
has_free [] = false
has_free (e ∷ es) = not e.valid || has_free es

unfoldable pub behind_free : List ArpEntry → List ArpEntry
behind_free [] = []
behind_free (e ∷ es) = if not e.valid then es else behind_free es

abbrev pub mapping : Bytes → ℕ → ℕ → ArpEntry
mapping mac ip now = record { mac = take 6 mac; ip = ip; added = now; valid = true }

last_hit-fill_slot :
    (mac : Bytes) (ip now j : ℕ) (es : List ArpEntry)
    → last_hit j (fill_slot mac ip now es) ≡ (
        if j == ip && has_free es
        then or_else (last_hit j (behind_free es)) (some (mapping mac ip now))
        else last_hit j es)
unfolding last_hit fill_slot has_free behind_free
last_hit-fill_slot mac ip now j [] = ground arith
last_hit-fill_slot mac ip now j (e ∷ es) = ground (arith, last_hit-fill_slot mac ip now j es)

-- After an insertion, a lookup of the inserted address finds the last mapping behind the first
-- free slot, and otherwise the new one; with a full table, and at any other address, it finds
-- what it found before.
pub sr_arpcache_lookup-insert :
    (cache : ArpCache) (mac : Bytes) (ip now j : ℕ)
    → sr_arpcache_lookup (sr_arpcache_insert cache mac ip now).0 j ≡ (
        if j == ip && has_free cache.entries
        then or_else (last_hit j (behind_free cache.entries)) (some (mapping mac ip now))
        else sr_arpcache_lookup cache j)
unfolding sr_arpcache_insert
sr_arpcache_lookup-insert cache mac ip now j =
    rw (lookup-last_hit, lookup-last_hit) (last_hit-fill_slot mac ip now j cache.entries)

last_hit-behind :
    (ip : ℕ) (es : List ArpEntry) → last_hit ip es ≡ none → last_hit ip (behind_free es) ≡ none
unfolding last_hit behind_free
last_hit-behind ip [] h = refl
last_hit-behind ip (e ∷ es) h = ground (arith, last_hit-behind ip es)

-- A reply for an address that has no mapping yet is found afterwards, if a slot is free.
lookup-insert_fresh :
    (cache : ArpCache) (mac : Bytes) (ip now : ℕ)
    → sr_arpcache_lookup cache ip ≡ none
    → has_free cache.entries ≡ true
    → sr_arpcache_lookup (sr_arpcache_insert cache mac ip now).0 ip ≡ some (mapping mac ip now)
lookup-insert_fresh cache mac ip now missing free = ground (
  arith,
  sr_arpcache_lookup-insert cache mac ip now ip,
  lookup-last_hit cache ip,
  last_hit-behind ip cache.entries,
)

last_hit-behind_some :
    (ip : ℕ) (es : List ArpEntry) (old : ArpEntry)
    → last_hit ip (behind_free es) ≡ some old
    → last_hit ip es ≡ some old
unfolding last_hit behind_free
last_hit-behind_some ip [] old h = cc
last_hit-behind_some ip (e ∷ es) old h = ground (arith, last_hit-behind_some ip es old)

-- A new mapping for an address whose old one stands behind the first free slot is not found: the
-- lookup goes on giving the old mapping.
pub lookup-insert_stale :
    (cache : ArpCache) (mac : Bytes) (ip now : ℕ) (old : ArpEntry)
    → last_hit ip (behind_free cache.entries) ≡ some old
    → sr_arpcache_lookup (sr_arpcache_insert cache mac ip now).0 ip ≡ sr_arpcache_lookup cache ip
lookup-insert_stale cache mac ip now old behind = ground (
  arith,
  sr_arpcache_lookup-insert cache mac ip now ip,
  lookup-last_hit cache ip,
  last_hit-behind_some ip cache.entries old,
)

last_hit-expire :
    (ip curtime : ℕ) (es : List ArpEntry)
    → All (λ e. hits ip e ≡ true → curtime ≤ e.added + arpcache_to) es
    → last_hit ip (expire_entries curtime es) ≡ last_hit ip es
unfolding last_hit expire_entries
last_hit-expire ip curtime [] h = refl
last_hit-expire ip curtime (e ∷ es) h = ground (arith, last_hit-expire ip curtime es, h.0)

expire-young :
    (ip curtime : ℕ) (es : List ArpEntry) (found : ArpEntry)
    → last_hit ip (expire_entries curtime es) ≡ some found
    → (hits ip found ≡ true) × (curtime ≤ found.added + arpcache_to)
unfolding last_hit expire_entries
expire-young ip curtime [] found h = cc
expire-young ip curtime (e ∷ es) found h =
    elim (Option-cases (last_hit ip (expire_entries curtime es))) [
      | inl q ↦ ground arith
      | inr (o, q) ↦ expire-young ip curtime es found (ground arith)
    ]

-- The table after the sweep at `curtime`.
abbrev pub swept : ℕ → ArpCache → ArpCache
swept curtime cache = record cache { entries = expire_entries curtime cache.entries }

-- After the sweep at `curtime` a lookup finds no mapping added more than 15 seconds before.
lookup-expire_old :
    (cache : ArpCache) (curtime ip : ℕ) (found : ArpEntry)
    → sr_arpcache_lookup (swept curtime cache) ip ≡ some found
    → (hits ip found ≡ true) × (curtime ≤ found.added + arpcache_to)
lookup-expire_old cache curtime ip found h =
    expire-young ip curtime cache.entries found (rw (← lookup-last_hit (swept curtime cache) ip) h)

-- Where all mappings for an address are at most 15 seconds old, the sweep changes no lookup of it.
lookup-expire_young :
    (cache : ArpCache) (curtime ip : ℕ)
    → All (λ e. hits ip e ≡ true → curtime ≤ e.added + arpcache_to) cache.entries
    → sr_arpcache_lookup (swept curtime cache) ip ≡ sr_arpcache_lookup cache ip
lookup-expire_young cache curtime ip young =
    lookup-last_hit (swept curtime cache) ip
    ∙ last_hit-expire ip curtime cache.entries young
    ∙ sym (lookup-last_hit cache ip)
