-- ===== src/Transfer/Client.antt =====
-- loop_until_end of transport-layer/src/client.c, for a file name of the command line.
pub mod Commas
pub mod Response
use computer_networks.Prelude.{
  ℕ, zero, suc, ◌-◌, ◌+◌, ◌^◌, min, Bool, true, false, Option, none, some, List, [], ◌∷◌, ◌++◌,
  ◌==◌, ltb, leb, if◌then◌else◌, length,
}
use computer_networks.Prelude.Words.{Bytes}
use computer_networks.Proxy.Parse.Strings.{codes, c_string}
use computer_networks.Mysock.State.{Outcome, returns, blocks, Reply, ok, failed, and_then}
use computer_networks.Transfer.Socket.{Connection}
use computer_networks.Transfer.Numbers.{scan_int}
use computer_networks.Transfer.Line.{Line, unread, line, overwritten, get_nvt_line}

-- What the loop comes to: `errcnd` is set, the file is stored, the program exits since bytes are
-- missing, or memory outside of a buffer is used.
pub data Ending : Type 0 where
  errcnd : Ending
  stored : Bytes → Ending
  bytes_missing : Bytes → Ending
  outside : Ending

-- `strrchr(p, c)` of a string: what stands before the byte, and what stands behind it.
unfoldable pub strrchr : ℕ → Bytes → Option (Bytes × Bytes)
strrchr c [] = none
strrchr c (b ∷ p) = elim (strrchr c p) [
  | some (before, behind) ↦ some (b ∷ before, behind)
  | none ↦ if b == c then some ([], p) else none
]

-- What is written to the file of the bytes that were read.
abbrev pub to_file : Bool → Bytes → Bytes
to_file quiet got = if quiet then [] else got

-- After a call of `myread`: `next` is the loop with what was read.
abbrev pub on_read :
    {M : Type 0}
    → Bytes
    → M
    → Reply × Bytes × M
    → (ℕ → Bytes → M → Outcome (Ending × M))
    → Outcome (Ending × M)
on_read file m (failed e, got, m') next = returns (bytes_missing file, m')
on_read file m (ok zero, got, m') next = returns (bytes_missing file, m')
on_read file m (ok (suc n), got, m') next = next (suc n) got m'

-- The loop that takes the file, `length` bytes of which are to come, into `file`. Every pass that goes
-- on takes a byte or more, so that `length` passes are enough.
unfoldable pub download :
    {M : Type 0} → Connection M → Bool → (passes length : ℕ) → Bytes → M → Outcome (Ending × M)
download s quiet zero zero file m = returns (stored file, m)
download s quiet zero (suc n) file m = blocks
download s quiet (suc passes) zero file m = returns (stored file, m)
download s quiet (suc passes) (suc n) file m = and_then (s.read m (min (suc n) 1000)) (λ r.
    on_read file m r (λ got_len got left.
      download s quiet passes (suc n - got_len) (file ++ to_file quiet got) left))

-- What the loop does with the number of the response, as a 32-bit word; `opens` says whether the local
-- file can be opened. A number below -1 asks for more than the buffer holds.
abbrev pub on_length : {M : Type 0} → Connection M → Bool → Bool → M → ℕ → Outcome (Ending × M)
on_length s quiet opens m length =
    if length == 2 ^ 32 - 1
    then returns (errcnd, m)
    else if opens
    then (if ltb length (2 ^ 31) then download s quiet length length [] m else returns (outside, m))
    else returns (errcnd, m)

-- The number that `sscanf` stores; `before` is what the variable holds if it stores none.
abbrev pub stored_length : ℕ → Option ℕ → ℕ
stored_length before none = before
stored_length before (some n) = n

-- The part of the response before its last comma, which has the number behind its own last comma.
abbrev pub on_number :
    {M : Type 0}
    → Connection M
    → Bool
    → Bool
    → ℕ
    → M
    → Option (Bytes × Bytes)
    → Outcome (Ending × M)
on_number s quiet opens before m none = returns (errcnd, m)
on_number s quiet opens before m (some (name, number)) =
    on_length s quiet opens m (stored_length before (scan_int number))

abbrev pub on_text :
    {M : Type 0}
    → Connection M
    → Bool
    → Bool
    → ℕ
    → M
    → Option (Bytes × Bytes)
    → Outcome (Ending × M)
on_text s quiet opens before m none = returns (errcnd, m)
on_text s quiet opens before m (some (front, text)) =
    on_number s quiet opens before m (strrchr 44 front)

abbrev pub on_response :
    {M : Type 0} → Connection M → Bool → Bool → ℕ → M → Line → Outcome (Ending × M)
on_response s quiet opens before m unread = returns (errcnd, m)
on_response s quiet opens before m overwritten = returns (outside, m)
on_response s quiet opens before m (line got) =
    on_text s quiet opens before m (strrchr 44 (c_string got))

abbrev pub on_request : {M : Type 0} → Reply × M → (M → Outcome (Ending × M)) → Outcome (Ending × M)
on_request (ok n, m) next = next m
on_request (failed e, m) next = returns (errcnd, m)

-- `loop_until_end`: the name, its line end and a 0 are put into a buffer of 1000 bytes. `before` is what
-- the variable `length` holds at first.
unfoldable pub loop_until_end :
    {M : Type 0} → Connection M → Bool → Bool → ℕ → Bytes → M → Outcome (Ending × M)
loop_until_end s quiet opens before filename m =
    if leb (length filename + 3) 1000
    then and_then (s.write m (filename ++ codes "\r\n")) (λ w.
      on_request w (λ m'.
        and_then (get_nvt_line s 1000 [] m') (λ l. on_response s quiet opens before l.1 l.0)))
    else returns (outside, m)
