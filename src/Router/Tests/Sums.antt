-- ===== src/Router/Tests/Sums.antt =====
-- Checksums, routes and interfaces on small inputs.
use computer_networks.Prelude.{ℕ, ◌≤◌, ◌≡◌, refl, some, List, [], ◌∷◌, ◌==◌, if◌then◌else◌, arith}
use mathlib.Core.List.{Memᴰ}
use computer_networks.Prelude.Words.{Bytes, IsBytes, put, le16}
use computer_networks.Router.State.{Route}
use computer_networks.Router.Checksum.{cksum, cksum_sum, cksum_fold}
use computer_networks.Router.Checksum.Laws.{cksum_fold_ends, cksum-put-verifies}
use computer_networks.Router.Routes.{sr_get_longest_prefix_match, match_loop, takes_over}
use computer_networks.Router.Routes.Longest.{
  LongestMatch, sr_get_longest_prefix_match_lem, longest_prefix_picked,
}
use computer_networks.Router.Interfaces.{sr_get_interface, strncmp_eq}
use computer_networks.Router.Tests.Data.{
  eth2, lan_route, default_route, small_router, are_bytes, are_bytes-IsBytes, address,
}

abbrev header : Bytes
header = 69 ∷ 0 ∷ 0 ∷ 20 ∷ 0 ∷ 0 ∷ 0 ∷ 0 ∷ []

header-IsBytes : IsBytes header
unfolding are_bytes
header-IsBytes = are_bytes-IsBytes header refl

cksum_fold_ends_example :
    (cksum_fold 5 0x2ffff ≡ cksum_fold 2 0x2ffff) × (cksum_fold 2 0x2ffff ≤ 0xffff)
cksum_fold_ends_example = cksum_fold_ends 3 0x2ffff (omega arith)

cksum-put-verifies_example :
    cksum_fold 2 (cksum_sum 0 (put 4 (le16 (cksum header)) header)) ≡ 0xffff
cksum-put-verifies_example =
    cksum-put-verifies 2 header header-IsBytes (omega arith) (omega arith) refl refl

-- Swapped words have the same checksum.
abbrev swapped : Bytes
swapped = 0 ∷ 20 ∷ 69 ∷ 0 ∷ 0 ∷ 0 ∷ 0 ∷ 0 ∷ []

abbrev table : List Route
table = default_route ∷ lan_route ∷ []

sr_get_longest_prefix_match_lem_example :
    LongestMatch (address 10 0 3 7) table (sr_get_longest_prefix_match table (address 10 0 3 7))
sr_get_longest_prefix_match_lem_example = sr_get_longest_prefix_match_lem table (address 10 0 3 7)

prefix : Route → ℕ
prefix r = if r.mask == 0 then 0 else 24

longest_prefix_picked_example : prefix default_route ≤ prefix lan_route
unfolding prefix
longest_prefix_picked_example =
    longest_prefix_picked prefix (address 10 0 3 7) table lan_route default_route
      ((omega arith, refl), ((omega arith, refl), tt))
      (unfold sr_get_longest_prefix_match match_loop takes_over in refl) (Memᴰ.head refl) refl

found_again : sr_get_interface small_router.if_list eth2.name ≡ some eth2
unfolding sr_get_interface strncmp_eq
found_again = refl
