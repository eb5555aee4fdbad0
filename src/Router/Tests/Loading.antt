-- ===== src/Router/Tests/Loading.antt =====
-- The loading of a table.
use computer_networks.Prelude.{ℕ, ◌≡◌, refl, arith, true, Option, none, some, List, [], ◌∷◌}
use computer_networks.Prelude.Words.{Bytes, byte}
use computer_networks.Router.State.{Route}
use computer_networks.Router.Routes.Load.{Words, IsEntry, sr_load_rt, sr_load_rt_loads}
use computer_networks.Router.Tests.Data.{small_router}

-- A line is four bytes, each a word of its own; a word is the address of its byte.
unfoldable words_of : Bytes → List Bytes
words_of [] = []
words_of (b ∷ bs) = (b ∷ []) ∷ words_of bs

unfoldable address_of : Bytes → Option ℕ
address_of [] = none
address_of (b ∷ bs) = some b

abbrev route_of : Bytes → Route
route_of line = record {
  dest = byte line 0;
  gw = byte line 1;
  mask = byte line 2;
  interface = byte line 3 ∷ [];
}

abbrev old_words : Words
old_words = record { dest = []; gw = []; mask = []; iface = [] }

abbrev line₁ : Bytes
line₁ = 10 ∷ 1 ∷ 255 ∷ 101 ∷ []

abbrev line₂ : Bytes
line₂ = 11 ∷ 2 ∷ 255 ∷ 102 ∷ []

entry₁ : IsEntry words_of address_of (line₁, route_of line₁)
unfolding words_of address_of
entry₁ = record {
  words = record { dest = 10 ∷ []; gw = 1 ∷ []; mask = 255 ∷ []; iface = 101 ∷ [] };
  scanned = refl;
  short = (omega arith, (omega arith, (omega arith, (omega arith, tt))));
  to_dest = refl;
  to_gw = refl;
  to_mask = refl;
  named = refl;
}

entry₂ : IsEntry words_of address_of (line₂, route_of line₂)
unfolding words_of address_of
entry₂ = record {
  words = record { dest = 11 ∷ []; gw = 2 ∷ []; mask = 255 ∷ []; iface = 102 ∷ [] };
  scanned = refl;
  short = (omega arith, (omega arith, (omega arith, (omega arith, tt))));
  to_dest = refl;
  to_gw = refl;
  to_mask = refl;
  named = refl;
}

sr_load_rt_loads_example :
    sr_load_rt words_of address_of (some (line₁ ∷ line₂ ∷ [])) old_words small_router.routing_table
    ≡ some (true, route_of line₁ ∷ route_of line₂ ∷ [])
sr_load_rt_loads_example =
    sr_load_rt_loads words_of address_of (line₁, route_of line₁) ((line₂, route_of line₂) ∷ [])
      old_words small_router.routing_table (entry₁, (entry₂, tt))
