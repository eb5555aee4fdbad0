-- ===== src/Transfer/Server.antt =====
-- The connection of transport-layer/src/server.c: process_line and do_connection.
pub mod Serves
pub mod Overflow
use computer_networks.Prelude.{
  ℕ, min, Bool, true, false, List, [], ◌∷◌, ◌++◌, ◌==◌, if◌then◌else◌, length, take, drop,
}
use computer_networks.Prelude.Words.{Bytes}
use computer_networks.Proxy.Parse.Strings.{codes, c_string}
use computer_networks.Mysock.State.{Outcome, returns, blocks, Reply, ok, failed, and_then}
use computer_networks.Mysock.Framing.{IoCall, moves, breaks}
use computer_networks.Transfer.Socket.{Connection}
use computer_networks.Transfer.Numbers.{decimal}
use computer_networks.Transfer.Line.{Line, unread, line, overwritten, get_nvt_line}

-- What `access` and `open` give for a path: a file that opens has its bytes, and what each call of
-- `read` does.
pub data Lookup : Type 0 where
  denied : Lookup
  unopened : Lookup
  opened : Bytes → List IoCall → Lookup

-- What is sent first. `lseek` to the end gives the number of bytes.
abbrev pub response : Bytes → Lookup → Bytes
response name denied = name ++ codes ",-1,File does not exist or access denied\r\n"
response name unopened = name ++ codes ",-1,File could not be opened\r\n"
response name (opened contents reads) =
    name ++ codes "," ++ decimal 20 (length contents) ++ codes ",Ok\r\n"

-- A write that fails ends the call.
abbrev pub if_written : {M : Type 0} → Reply × M → Outcome (Bool × M) → Outcome (Bool × M)
if_written (ok n, m) next = next
if_written (failed e, m) next = returns (false, m)

-- The loop that sends the file, with the bytes that are still to be read: whether the result is 0.
unfoldable pub send_file :
    {M : Type 0} → Connection M → List IoCall → Bytes → M → Outcome (Bool × M)
send_file s [] contents m = blocks
send_file s (breaks ∷ reads) contents m = returns (false, m)
send_file s (moves n ∷ reads) contents m =
    if length (take (min n 5000) contents) == 0
    then returns (true, m)
    else and_then (s.write m (take (min n 5000) contents))
        (λ w. if_written w (send_file s reads (drop (min n 5000) contents) w.1))

abbrev pub file_of : {M : Type 0} → Connection M → Lookup → M → Outcome (Bool × M)
file_of s denied m = returns (true, m)
file_of s unopened m = returns (true, m)
file_of s (opened contents reads) m = send_file s reads contents m

-- The path is not tried if the line is empty.
abbrev pub lookup_of : (Bytes → Lookup) → Bytes → Lookup
lookup_of files [] = denied
lookup_of files (b ∷ name) = files (b ∷ name)

-- Whether the result is 0.
unfoldable pub process_line :
    {M : Type 0} → Connection M → (Bytes → Lookup) → Bytes → M → Outcome (Bool × M)
unfolding send_file
process_line s files name m =
    and_then (s.write m (response name (lookup_of files name)))
      (λ w. if_written w (file_of s (lookup_of files name) w.1))

-- What comes of a line: whether the call ends without a write behind its buffer.
abbrev pub on_line :
    {M : Type 0}
    → Connection M
    → (Bytes → Lookup)
    → (M → Outcome (Bool × M))
    → M
    → Line
    → Outcome (Bool × M)
on_line s files next m unread = returns (true, m)
on_line s files next m overwritten = returns (false, m)
on_line s files next m (line got) =
    if length (c_string got) == 0
    then returns (true, m)
    else and_then (process_line s files (c_string got) m)
        (λ r. if r.0 then next r.1 else returns (true, r.1))

-- One client, up to the call of `myclose`; for each round of the loop, what the files are then.
unfoldable pub do_connection :
    {M : Type 0} → Connection M → List (Bytes → Lookup) → M → Outcome (Bool × M)
unfolding get_nvt_line process_line c_string
do_connection s [] m = blocks
do_connection s (files ∷ rounds) m =
    and_then (get_nvt_line s 256 [] m)
      (λ l. on_line s files (λ m'. do_connection s rounds m') l.1 l.0)
