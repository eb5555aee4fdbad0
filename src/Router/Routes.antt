-- ===== src/Router/Routes.antt =====
-- The routing table: router/src/router/sr_rt.c, and `sr_get_longest_prefix_match` of sr_router.c.
pub mod Longest
pub mod Load
use computer_networks.Prelude.{
  ℕ, zero, suc, Bool, true, false, ◌&&◌, Option, none, some, List, [], ◌∷◌, ◌==◌, leb,
  if◌then◌else◌, take, bit_and,
}
use computer_networks.Prelude.Words.{Bytes}
use computer_networks.Router.State.{Name, Route}
use computer_networks.Router.Interfaces.{iface_namelen}

-- The new entry stands at the end.
unfoldable pub sr_add_rt_entry : List Route → ℕ → ℕ → ℕ → Name → List Route
sr_add_rt_entry [] dest gw mask if_name =
    record { dest = dest; gw = gw; mask = mask; interface = take iface_namelen if_name } ∷ []
sr_add_rt_entry (r ∷ rs) dest gw mask if_name = r ∷ sr_add_rt_entry rs dest gw mask if_name

-- The two tests of the loop body.
unfoldable pub takes_over : ℕ → ℕ → Route → Bool
takes_over ip longest_mask r = bit_and ip r.mask == bit_and r.dest r.mask && leb longest_mask r.mask

-- The loop over the table, with `longest_match` and `longest_mask`.
unfoldable pub match_loop : ℕ → List Route → Option Route → ℕ → Option Route
unfolding takes_over
match_loop ip [] longest_match longest_mask = longest_match
match_loop ip (r ∷ rs) longest_match longest_mask =
    match_loop ip rs (if takes_over ip longest_mask r then some r else longest_match)
      (if takes_over ip longest_mask r then r.mask else longest_mask)

unfoldable pub sr_get_longest_prefix_match : List Route → ℕ → Option Route
unfolding match_loop
sr_get_longest_prefix_match routing_table ip = match_loop ip routing_table none 0
