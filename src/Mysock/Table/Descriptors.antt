-- ===== src/Mysock/Table/Descriptors.antt =====
-- A new descriptor is the first free one.
use computer_networks.Prelude.{
  ℕ, zero, suc, ◌+◌, ◌<◌, ◌≡◌, ◌≢◌, ◌⊎◌, inl, inr, refl, sym, ap, ◌∙◌, true, Option, none, some, [],
  ◌∷◌, length, get_or, arith, All, lt→ltb, eq→==,
}
use computer_networks.Mysock.State.{MysockContext, emfile, returns, ok, failed}
use computer_networks.Mysock.Table.{
  Table, max_num_connections, new_context, place, placed, mysock_new_mysocket, context_at,
  mysock_get_context, set_entry, mysock_free_context,
}

-- Every context in the table knows its descriptor.
abbrev pub IsNumbered : ℕ → Table → Type 0
IsNumbered k [] = Unit
IsNumbered k (none ∷ es) = IsNumbered (suc k) es
IsNumbered k (some c ∷ es) = (c.my_sd ≡ k) × IsNumbered (suc k) es

pub record IsTable (table : Table) : Type 0 where
  pub whole : length table ≡ max_num_connections
  pub numbered : IsNumbered 0 table

abbrev pub IsTaken : Option MysockContext → Type 0
IsTaken e = e ≢ none

-- The loop ends at the first free entry.
pub record IsPlaced (c : MysockContext) (k : ℕ) (table : Table) (sd : ℕ) (table' : Table)
    : Type 0 where
  pub index : ℕ
  pub here : sd ≡ k + index
  pub inside : index < length table
  pub was_free : get_or table index none ≡ none
  pub first : (j : ℕ) → j < index → IsTaken (get_or table j none)
  pub after : table' ≡ set_entry index (some (record c { my_sd = sd })) table

place_lem :
    (c : MysockContext) (k : ℕ) (table : Table)
    → ((place c k table ≡ none) × All IsTaken table)
      ⊎ ((sd : ℕ) × (table' : Table) × (place c k table ≡ some (sd, table'))
          × IsPlaced c k table sd table')
unfolding place set_entry
place_lem c k [] = inl (refl, tt)
place_lem c k (none ∷ es) = inr (
  k,
  some (record c { my_sd = k }) ∷ es,
  refl,
  record {
    index = 0;
    here = omega arith;
    inside = omega arith;
    was_free = refl;
    first = λ j lt. absurd (omega arith);
    after = refl;
  },
)
place_lem c k (some e ∷ es) = elim (place_lem c (suc k) es) [
  | inl (full, all) ↦ inl (rw full refl, (λ h. cc, all))
  | inr (sd, rest, at, p) ↦ inr (
    sd,
    some e ∷ rest,
    rw at refl,
    record {
      index = suc p.index;
      here = omega (arith, p.here);
      inside = omega (arith, p.inside);
      was_free = p.was_free;
      first = taken_before e es p.index p.first;
      after = ap (λ t. some e ∷ t) p.after;
    },
  )
]
  where
    taken_before :
        (e : MysockContext) (es : Table) (i : ℕ)
        → ((j : ℕ) → j < i → IsTaken (get_or es j none))
        → (j : ℕ) → j < suc i
        → IsTaken (get_or (some e ∷ es) j none)
    taken_before e es i h zero lt = λ h. cc
    taken_before e es i h (suc j) lt = h j (omega arith)

pub entry-set_self :
    (k : ℕ) (e : Option MysockContext) (es : Table)
    → k < length es
    → get_or (set_entry k e es) k none ≡ e
unfolding set_entry
entry-set_self k e [] lt = absurd (omega arith)
entry-set_self zero e (x ∷ es) lt = refl
entry-set_self (suc k) e (x ∷ es) lt = entry-set_self k e es (omega arith)

pub entry-set_other :
    (k j : ℕ) (e : Option MysockContext) (es : Table)
    → j ≢ k
    → get_or (set_entry k e es) j none ≡ get_or es j none
unfolding set_entry
entry-set_other k j e [] ne = refl
entry-set_other zero zero e (x ∷ es) ne = absurd (ne refl)
entry-set_other zero (suc j) e (x ∷ es) ne = refl
entry-set_other (suc k) zero e (x ∷ es) ne = refl
entry-set_other (suc k) (suc j) e (x ∷ es) ne = entry-set_other k j e es (λ h. ne (ap suc h))

-- A free entry that is filled and freed again is as before.
set_entry_undone :
    (k : ℕ) (e : Option MysockContext) (es : Table)
    → get_or es k none ≡ none
    → set_entry k none (set_entry k e es) ≡ es
unfolding set_entry
set_entry_undone k e [] free = refl
set_entry_undone zero e (x ∷ es) free = ap (λ y. y ∷ es) (sym free)
set_entry_undone (suc k) e (x ∷ es) free = ap (λ t. x ∷ t) (set_entry_undone k e es free)

abbrev pub context_of : ℕ → MysockContext
context_of sd = record new_context { my_sd = sd }

-- `sd` is the first free descriptor; its context is found there, the other entries stay, and
-- freeing the context gives the old table back.
pub record IsFresh (table : Table) (sd : ℕ) (table' : Table) : Type 0 where
  pub in_range : sd < max_num_connections
  pub was_free : get_or table sd none ≡ none
  pub first : (j : ℕ) → j < sd → IsTaken (get_or table j none)
  pub found : mysock_get_context table' sd ≡ returns (context_of sd)
  pub others : (j : ℕ) → j ≢ sd → get_or table' j none ≡ get_or table j none
  pub freed : mysock_free_context table' (context_of sd) ≡ table

fresh :
    (table : Table) (sd : ℕ) (table' : Table)
    → length table ≡ max_num_connections
    → IsPlaced new_context 0 table sd table'
    → IsFresh table sd table'
unfolding mysock_get_context context_at mysock_free_context
fresh table sd table' whole p =
    let at : p.index ≡ sd = omega (arith, p.here) in
    let in_range : sd < max_num_connections = omega (arith, p.inside) in
    let after : table' ≡ set_entry sd (some (context_of sd)) table =
      p.after ∙ ap (λ k. set_entry k (some (context_of sd)) table) at in
    let was_free : get_or table sd none ≡ none = rw (← at) p.was_free in
    record {
      in_range = in_range;
      was_free = was_free;
      first = λ j lt. p.first j (omega arith);
      found =
          rw
            (
              lt→ltb sd max_num_connections in_range,
              after,
              entry-set_self sd (some (context_of sd)) table (omega arith),
              eq→== sd sd refl,
            )
            refl;
      others = λ j ne. rw after (entry-set_other sd j (some (context_of sd)) table ne);
      freed = rw after (set_entry_undone sd (some (context_of sd)) table was_free);
    }

-- With a free entry in the table a new mysocket gets the first one; with none, `EMFILE`, and the
-- table stays.
new_mysocket_lem :
    (table : Table)
    → length table ≡ max_num_connections
    → ((mysock_new_mysocket true table ≡ returns (failed emfile, table)) × All IsTaken table)
      ⊎ ((sd : ℕ) × (table' : Table) × (mysock_new_mysocket true table ≡ returns (ok sd, table'))
          × IsFresh table sd table')
unfolding mysock_new_mysocket placed
new_mysocket_lem table whole = elim (place_lem new_context 0 table) [
  | inl (full, all) ↦ inl (rw full refl, all)
  | inr (sd, table', at, p) ↦ inr (sd, table', rw at refl, fresh table sd table' whole p)
]
