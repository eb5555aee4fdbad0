-- ===== src/Transfer/Refusal.antt =====
-- A file that the server of transport-layer/src/server.c cannot read, and what the client makes of it.
use computer_networks.Prelude.{ℕ, Bool, true, false, not, ◌&&◌, List, [], ◌∷◌, ◌==◌, if◌then◌else◌}
use computer_networks.Prelude.Words.{Bytes}
use computer_networks.Proxy.Parse.Strings.{codes}
use computer_networks.Mysock.Table.{Table}
use computer_networks.Transfer.Server.{Lookup, denied, unopened}

-- The texts of the two errors.
abbrev pub reason : Bool → Bytes
reason true = codes "File does not exist or access denied"
reason false = codes "File could not be opened"

abbrev pub refusal : Bool → Lookup
refusal true = denied
refusal false = unopened

abbrev is_plain : ℕ → Bool
is_plain b = not (b == 0) && not (b == 13) && not (b == 44)

unfoldable plain_text : Bytes → Bool
plain_text [] = true
plain_text (b ∷ p) = if is_plain b then plain_text p else false
