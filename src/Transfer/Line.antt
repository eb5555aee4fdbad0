-- ===== src/Transfer/Line.antt =====
-- get_nvt_line, which client.c and server.c of transport-layer/src both have.
pub mod Whole
use computer_networks.Prelude.{
  ℕ, zero, suc, ◌-◌, Bool, ◌&&◌, List, [], ◌∷◌, ◌++◌, ◌==◌, if◌then◌else◌, length, take,
}
use computer_networks.Prelude.Words.{Bytes}
use computer_networks.Mysock.State.{Outcome, returns, Reply, ok, failed, and_then}
use computer_networks.Transfer.Socket.{Connection}

-- -1, the bytes before the 0 that ends the line, or a write behind the caller's buffer.
pub data Line : Type 0 where
  unread : Line
  line : Bytes → Line
  overwritten : Line

-- `last_char`: the byte that was read last, at first 0.
unfoldable pub last_char : ℕ → Bytes → ℕ
last_char last [] = last
last_char last (b ∷ got) = last_char b got

-- `this_char`.
abbrev pub this_char : Bytes → ℕ
this_char [] = 0
this_char (b ∷ read) = b

abbrev pub ends_line : Bytes → ℕ → Bool
ends_line got c = (last_char 0 got == 13) && (c == 10)

-- One pass of the loop after its call of `myread`, with what the end of the stream leaves, and what the
-- loop comes to if it goes on.
abbrev pub on_char :
    {M : Type 0} → Reply → Bytes → M → Line → Outcome (Line × M) → Bytes → Outcome (Line × M)
on_char (failed e) got m ended next read = returns (unread, m)
on_char (ok zero) got m ended next read = returns (ended, m)
on_char (ok (suc n)) got m ended next read =
    if ends_line got (this_char read) then returns (line (take (length got - 1) got), m) else next

-- `room` bytes of the buffer are left behind those in `got`.
unfoldable pub get_nvt_line : {M : Type 0} → Connection M → ℕ → Bytes → M → Outcome (Line × M)
get_nvt_line s zero got m =
    and_then (s.read m 1) (λ r. on_char r.0 got r.2 overwritten (returns (overwritten, r.2)) r.1)
get_nvt_line s (suc room) got m =
    and_then (s.read m 1) (λ r.
      on_char r.0 got r.2 (line got) (get_nvt_line s room (got ++ this_char r.1 ∷ []) r.2) r.1)
