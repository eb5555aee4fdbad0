-- ===== src/Transfer/Server/Overflow.antt =====
-- The buffer of do_connection of transport-layer/src/server.c.
use computer_networks.Prelude.{
  ℕ, zero, suc, ◌<◌, ◌≡◌, ◌≢◌, refl, sym, ◌∙◌, false, List, [], ◌∷◌, ◌++◌, ne→==, length, All,
  arith,
}
use computer_networks.Prelude.Words.{Bytes}
use computer_networks.Mysock.State.{returns}
use computer_networks.Mysock.Table.{Table}
use computer_networks.Transfer.Socket.{Connection, IsStream}
use computer_networks.Transfer.Socket.Filled.{mysocket, IsOpenStream, mysocket-IsStream}
use computer_networks.Transfer.Line.{overwritten, last_char, get_nvt_line}
use computer_networks.Transfer.Line.Whole.{NoReturn, last_char-snoc, read_one, char_lem}
use computer_networks.Transfer.Server.{Lookup, do_connection}

module _ {M : Type 0} (s : Connection M) (Holds : M → Bytes → Bytes → Type 0)
    (stream : IsStream s Holds) where
  too_long :
      (room : ℕ) (got text : Bytes) (m : M) (inbound outbound : Bytes)
      → Holds m (text ++ inbound) outbound
      → last_char 0 got ≢ 13
      → All NoReturn text
      → room < length text
      → (left : M) × (get_nvt_line s room got m ≡ returns (overwritten, left))
  unfolding get_nvt_line
  too_long room got [] m inbound outbound h other plain long = absurd (omega arith)
  too_long zero got (b ∷ text) m inbound outbound h other plain long =
      let (left, gives, holds) = read_one s Holds stream m b (text ++ inbound) outbound h in
      (left, rw (gives, ne→== (last_char 0 got) 13 other) refl)
  too_long (suc room) got (b ∷ text) m inbound outbound h other plain long =
      let (left, on, holds) =
        char_lem s Holds stream room b got m (text ++ inbound) outbound h other in
      let (left', rest) =
        too_long room (got ++ b ∷ []) text left inbound outbound holds
          (λ e. plain.0 (sym (last_char-snoc 0 b got) ∙ e)) plain.1 (omega arith) in
      (left', on ∙ rest)

  overwrites_lem :
      (files : Bytes → Lookup) (rounds : List (Bytes → Lookup)) (text inbound outbound : Bytes)
      (m : M)
      → Holds m (text ++ inbound) outbound
      → All NoReturn text
      → 256 < length text
      → (left : M) × (do_connection s (files ∷ rounds) m ≡ returns (false, left))
  unfolding do_connection last_char
  overwrites_lem files rounds text inbound outbound m h plain long =
      let (left, over) =
        too_long 256 [] text m inbound outbound h (λ e. absurd (omega (arith, e))) plain long in
      (left, rw over refl)

-- A client that sends more than 256 bytes without a carriage return makes the server write behind its
-- buffer.
pub long_line_overwrites :
    (sd : ℕ) (table : Table) (files : Bytes → Lookup) (rounds : List (Bytes → Lookup))
    (text inbound outbound : Bytes)
    → IsOpenStream sd table (text ++ inbound) outbound
    → All NoReturn text
    → 256 < length text
    → (left : Table) × (do_connection (mysocket sd) (files ∷ rounds) table ≡ returns (false, left))
long_line_overwrites sd table files rounds text inbound outbound =
    overwrites_lem (mysocket sd) (IsOpenStream sd) (mysocket-IsStream sd) files rounds text inbound
      outbound table
