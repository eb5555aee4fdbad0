-- ===== src/Transfer/Tests.antt =====
-- Runs of the transfer of files on small inputs.
use computer_networks.Prelude.{
  ℕ, zero, suc, ◌≡◌, refl, ap, true, false, Option, none, some, List, [], ◌∷◌, ◌++◌, length, All,
  arith,
}
use computer_networks.Prelude.Words.{Bytes}
use computer_networks.Prelude.Words.Slices.{joined}
use computer_networks.Proxy.Parse.Strings.{codes, skip, c_string}
use computer_networks.Mysock.State.{MysockContext, PacketQueue, Outcome, returns, blocks, aborts}
use computer_networks.Mysock.Table.{Table, new_context, put_context}
use computer_networks.Mysock.Framing.{IoCall, moves}
use computer_networks.Transfer.Socket.Filled.{mysocket, IsFilled, IsOpenStream}
use computer_networks.Transfer.Numbers.{scan_int, scan_digits}
use computer_networks.Transfer.Line.{get_nvt_line, last_char}
use computer_networks.Mysock.Api.{myread, mywrite, read_from, write_to}
use computer_networks.Transfer.Line.Whole.{NoReturn}
use computer_networks.Transfer.Server.{Lookup, opened, denied, do_connection}
use computer_networks.Transfer.Server.Serves.{IsName, IsReadable}
use computer_networks.Transfer.Server.Overflow.{long_line_overwrites}
use computer_networks.Transfer.Client.{Ending, strrchr, download, stored, loop_until_end}
use computer_networks.Transfer.Fetch.{request, file_fetched}

unfoldable free_entries : ℕ → Table
free_entries zero = []
free_entries (suc n) = none ∷ free_entries n

length-free_entries : (n : ℕ) → length (free_entries n) ≡ n
unfolding free_entries
length-free_entries zero = refl
length-free_entries (suc n) = ap suc (length-free_entries n)

-- A mysocket with packets for the application.
abbrev open_ctx : PacketQueue → MysockContext
open_ctx packets = record new_context { app_send_queue = packets }

abbrev table_of : PacketQueue → Table
table_of packets = some (open_ctx packets) ∷ free_entries 63

table_of-IsOpenStream :
    (packets : PacketQueue) (inbound : Bytes)
    → All IsFilled packets
    → joined packets ≡ inbound
    → IsOpenStream 0 (table_of packets) inbound []
unfolding joined
table_of-IsOpenStream packets inbound filled to_read = record {
  ctx = open_ctx packets;
  is_open = record {
    in_range = omega arith;
    entries = ap suc (length-free_entries 63);
    here = refl;
    numbered = refl;
    no_listener = refl;
    no_close = refl;
  };
  no_eof = refl;
  filled = filled;
  to_read = to_read;
  written = refl;
}

abbrev small_name : Bytes
small_name = 97 ∷ 46 ∷ 99 ∷ []

small_name-IsName : IsName small_name
small_name-IsName = record {
  one_line = (
    (λ e. absurd (omega (arith, e))),
    ((λ e. absurd (omega (arith, e))), ((λ e. absurd (omega (arith, e))), tt)),
  );
  text = (
    (λ e. absurd (omega (arith, e))),
    ((λ e. absurd (omega (arith, e))), ((λ e. absurd (omega (arith, e))), tt)),
  );
  some_bytes = omega arith;
  short = omega arith;
}

-- A file of five bytes, which three calls of `read` give.
abbrev small_reads : List IoCall
small_reads = moves 2 ∷ moves 1 ∷ moves 9 ∷ moves 9 ∷ moves 9 ∷ moves 9 ∷ []

abbrev small_files : Bytes → Lookup
small_files path = opened (codes "hello") small_reads

small-IsReadable : IsReadable (codes "hello") small_reads
small-IsReadable = record {
  working =
      (omega arith, (omega arith, (omega arith, (omega arith, (omega arith, (omega arith, tt))))));
  enough = omega arith;
}

-- The request comes in two packets.
abbrev asking : PacketQueue
asking = (97 ∷ 46 ∷ []) ∷ (99 ∷ 13 ∷ 10 ∷ []) ∷ []

asking_lem : joined asking ≡ request small_name
unfolding joined
asking_lem = refl

file_fetched_example :
    (sent : Bytes) × (server' : Table) × (do_connection
        (mysocket 0)
        (small_files ∷ [])
        (table_of asking)
      ≡ do_connection (mysocket 0) [] server')
    × IsOpenStream 0 server' [] sent
    × ((client : Table) (later : Bytes)
        → IsOpenStream 3 client (sent ++ later) []
        → (client' : Table) × (loop_until_end (mysocket 3) false true 7 small_name client
            ≡ returns (stored (codes "hello"), client'))
          × IsOpenStream 3 client' later (request small_name))
file_fetched_example =
    file_fetched 0 3 (table_of asking) small_files [] small_name (codes "hello") small_reads 7
      small_name-IsName refl small-IsReadable (omega arith)
      (table_of-IsOpenStream asking (request small_name) (omega arith, (omega arith, tt))
        asking_lem)

unfoldable blanks : ℕ → Bytes
blanks zero = []
blanks (suc n) = 32 ∷ blanks n

length-blanks : (n : ℕ) → length (blanks n) ≡ n
unfolding blanks
length-blanks zero = refl
length-blanks (suc n) = ap suc (length-blanks n)

blanks_plain : (n : ℕ) → All NoReturn (blanks n)
unfolding blanks
blanks_plain zero = tt
blanks_plain (suc n) = ((λ e. absurd (omega (arith, e))), blanks_plain n)

one_packet : (packet : Bytes) → joined (packet ∷ []) ≡ packet ++ []
unfolding joined
one_packet packet = refl

long_line_overwrites_example :
    (left : Table) × (do_connection (mysocket 0) (small_files ∷ []) (table_of (blanks 257 ∷ []))
      ≡ returns (false, left))
long_line_overwrites_example =
    long_line_overwrites 0 (table_of (blanks 257 ∷ [])) small_files [] (blanks 257) [] []
      (table_of-IsOpenStream (blanks 257 ∷ []) (blanks 257 ++ [])
        (omega (arith, length-blanks 257), tt) (one_packet (blanks 257)))
      (blanks_plain 257) (omega (arith, length-blanks 257))

abbrev no_files : Bytes → Lookup
no_files path = denied

-- The client reads a response and a file in two packets.
abbrev answering : PacketQueue
answering = codes "a.c,5,Ok\r\nhel" ∷ codes "lo" ∷ []

abbrev ending_of : Outcome (Ending × Table) → Option Ending
ending_of (returns (ending, table)) = some ending
ending_of blocks = none
ending_of aborts = none

answer_stored :
    ending_of (loop_until_end (mysocket 0) false true 7 small_name (table_of answering))
    ≡ some (stored (codes "hello"))
unfolding loop_until_end get_nvt_line strrchr scan_int scan_digits skip c_string download last_char
    myread mywrite put_context read_from write_to
answer_stored = refl
