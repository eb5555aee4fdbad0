-- ===== src/Mysock/Tests/Links.antt =====
-- Runs of the hash table and the listen queue on small inputs.
use computer_networks.Prelude.{
  ℕ, zero, suc, ◌≡◌, refl, Option, none, List, [], ◌∷◌, get_or, ◌%◌, arith,
}
use computer_networks.Mysock.State.{returns}
use computer_networks.Mysock.HashTable.{HashTable, hash_get_entry, find_in}
use computer_networks.Mysock.HashTable.Refine.{
  HashOp, insert, set_entry, delete, run_ops, on_maps, AreFit, Represents, run-Represents,
}
use computer_networks.Mysock.Demux.Pending.{ListenQueue, new_queue, set_max_len}

-- Two chains, both empty.
abbrev two_chains : HashTable ℕ
two_chains = [] ∷ [] ∷ []

nothing : ℕ → Option ℕ
nothing key = none

empty_at : (key i : ℕ) → find_in key (get_or two_chains i []) ≡ none
unfolding find_in
empty_at key zero = refl
empty_at key (suc zero) = refl
empty_at key (suc (suc i)) = refl

empty-Represents : Represents two_chains nothing
unfolding hash_get_entry find_in nothing
empty-Represents = record {
  chains = omega arith;
  unique = (tt, (tt, tt));
  entries = λ key. empty_at key (key % 2);
}

abbrev three_ops : List (HashOp ℕ)
three_ops = insert 3 30 ∷ set_entry 5 50 ∷ delete 3 ∷ []

three_fit : AreFit three_ops nothing
unfolding nothing
three_fit = (refl, (tt, (tt, tt)))

run-Represents_example :
    (tbl' : HashTable ℕ) × (run_ops three_ops two_chains ≡ returns tbl')
    × Represents tbl' (on_maps three_ops nothing)
run-Represents_example = run-Represents three_ops two_chains nothing empty-Represents three_fit

-- The queue of a mysocket that listens with a backlog of 1.
abbrev backlog_1 : ListenQueue
backlog_1 = set_max_len (new_queue 80) 2
