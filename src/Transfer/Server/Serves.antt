-- ===== src/Transfer/Server/Serves.antt =====
-- What the server of transport-layer/src/server.c sends for a name.
use mathlib.Core.List.{append_assoc, append-nil}
use computer_networks.Prelude.{
  ℕ, ◌<◌, ◌≡◌, ◌≢◌, refl, sym, ap, ◌∙◌, true, min, List, [], ◌∷◌, ◌++◌, ne→==, length, take, drop,
  take_all, length-take, length-drop, All, arith,
}
use computer_networks.Prelude.Words.{Bytes}
use computer_networks.Prelude.Words.Slices.{take-drop}
use computer_networks.Proxy.Parse.Strings.{c_string}
use computer_networks.Mysock.State.{returns}
use computer_networks.Mysock.Framing.{IoCall, moves, breaks}
use computer_networks.Mysock.Framing.RoundTrip.{IsWorking}
use computer_networks.Transfer.Socket.{Connection, IsStream}
use computer_networks.Transfer.Line.{last_char}
use computer_networks.Transfer.Line.Whole.{NoReturn, get_nvt_line_lem}
use computer_networks.Transfer.Server.{
  Lookup, opened, response, send_file, lookup_of, process_line, do_connection,
}

abbrev pub NoZero : ℕ → Type 0
NoZero b = b ≢ 0

pub c_string_whole : (p : Bytes) → All NoZero p → c_string p ≡ p
unfolding c_string
c_string_whole [] plain = refl
c_string_whole (b ∷ p) (other, plain) =
    rw (ne→== b 0 other) (ap (λ q. b ∷ q) (c_string_whole p plain))

-- A file name that one line takes to the server.
pub record IsName (name : Bytes) : Type 0 where
  pub one_line : All NoReturn name
  pub text : All NoZero name
  pub some_bytes : 0 < length name
  pub short : length name < 256

-- Every `read` gives a byte or more until the end, and there are enough of them.
pub record IsReadable (contents : Bytes) (reads : List IoCall) : Type 0 where
  pub working : IsWorking reads
  pub enough : length contents < length reads

pub lookup_lem :
    (files : Bytes → Lookup) (name : Bytes) → 0 < length name → lookup_of files name ≡ files name
lookup_lem files [] some_bytes = absurd (omega arith)
lookup_lem files (b ∷ name) some_bytes = refl

module _ {M : Type 0} (s : Connection M) (Holds : M → Bytes → Bytes → Type 0)
    (stream : IsStream s Holds) where
  send_file_lem :
      (reads : List IoCall) (contents : Bytes) (m : M) (inbound outbound : Bytes)
      → IsWorking reads
      → length contents < length reads
      → Holds m inbound outbound
      → (left : M) × (send_file s reads contents m ≡ returns (true, left))
        × Holds left inbound (outbound ++ contents)
  unfolding send_file
  send_file_lem [] contents m inbound outbound w enough h = absurd (omega arith)
  send_file_lem (breaks ∷ reads) contents m inbound outbound w enough h = absurd w
  send_file_lem (moves n ∷ reads) [] m inbound outbound w enough h =
      (m, rw (take_all {A = ℕ} (min n 5000) [] (omega arith)) refl, rw (append-nil outbound) h)
  send_file_lem (moves n ∷ reads) (b ∷ contents) m inbound outbound w enough h =
      let k : ℕ = min n 5000 in
      let (left, writes, holds) = stream.writes m inbound outbound (take k (b ∷ contents)) h in
      let (left', rest, holds') =
        send_file_lem reads (drop k (b ∷ contents)) left inbound (outbound ++ take k (b ∷ contents))
          w.1 (omega (arith, length-drop k (b ∷ contents), w.0)) holds in
      let some_bytes : length (take k (b ∷ contents)) ≢ 0 =
        omega (arith, length-take k (b ∷ contents), w.0) in
      (
        left',
        rw (ne→== (length (take k (b ∷ contents))) 0 some_bytes, writes) rest,
        rw
            (ap (λ p. outbound ++ p) (take-drop k (b ∷ contents))
              ∙ sym (append_assoc outbound (take k (b ∷ contents)) (drop k (b ∷ contents))))
            holds',
      )

  process_line_lem :
      (files : Bytes → Lookup) (name contents : Bytes) (reads : List IoCall) (m : M)
      (inbound outbound : Bytes)
      → lookup_of files name ≡ opened contents reads
      → IsReadable contents reads
      → Holds m inbound outbound
      → (left : M) × (process_line s files name m ≡ returns (true, left))
        × Holds left inbound (outbound ++ (response name (opened contents reads) ++ contents))
  unfolding process_line
  process_line_lem files name contents reads m inbound outbound found r h =
      let first : Bytes = response name (opened contents reads) in
      let (left, writes, holds) = stream.writes m inbound outbound first h in
      let (left', sent, holds') =
        send_file_lem reads contents left inbound (outbound ++ first) r.working r.enough holds in
      (left', rw (found, writes) sent, rw (← append_assoc outbound first contents) holds')

  -- A request for a file that can be read is answered by the response, then the file, and the server
  -- goes on with the next line.
  pub do_connection_serves :
      (files : Bytes → Lookup) (rounds : List (Bytes → Lookup)) (name contents : Bytes)
      (reads : List IoCall) (m : M) (inbound outbound : Bytes)
      → IsName name
      → files name ≡ opened contents reads
      → IsReadable contents reads
      → Holds m (name ++ 13 ∷ 10 ∷ inbound) outbound
      → (left : M) × (do_connection s (files ∷ rounds) m ≡ do_connection s rounds left)
        × Holds left inbound (outbound ++ (response name (opened contents reads) ++ contents))
  unfolding do_connection last_char
  do_connection_serves files rounds name contents reads m inbound outbound n found r h =
      let (asked, reads_line, holds) =
        get_nvt_line_lem s Holds stream 256 [] name m inbound outbound h
          (λ e. absurd (omega (arith, e))) n.one_line n.short in
      let (left, served, holds') =
        process_line_lem files name contents reads asked inbound outbound
          (lookup_lem files name n.some_bytes ∙ found) r holds in
      (
        left,
        rw
            (
              reads_line,
              c_string_whole name n.text,
              ne→== (length name) 0 (omega (arith, n.some_bytes)),
              served,
            )
            refl,
        holds',
      )
