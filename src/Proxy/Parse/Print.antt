-- ===== src/Proxy/Parse/Print.antt =====
-- Printing a request: the functions for lengths and for printing of http-proxy/src/proxy_parse.c. A
-- `size_t` gets no larger than the memory, and is a number; `len` of headersLen is an `int`.
pub mod Text
pub mod Unparse
use computer_networks.Prelude.{
  ℕ, ◌+◌, ◌-◌, ◌%◌, ◌^◌, ◌≡◌, Bool, true, false, Option, none, some, List, [], ◌∷◌, ◌++◌, leb, ltb,
  if◌then◌else◌, length,
}
use computer_networks.Prelude.Words.{Bytes, put}
use computer_networks.Proxy.Sockets.{Run, gives, faults, and_on}
use computer_networks.Proxy.Parse.Strings.{codes}
use computer_networks.Proxy.Parse.Headers.{ParsedHeader, RequestLine, ParsedRequest}

abbrev pub key_line_len : Option Bytes → Bytes → ℕ
key_line_len none value = 0
key_line_len (some key) value = length key + length value + 4

abbrev pub parsed_header_line_len : ParsedHeader → ℕ
parsed_header_line_len ph = key_line_len ph.key ph.value

-- `len` behind the loop, as the word that it is kept in.
unfoldable pub add_line_lens : ℕ → List ParsedHeader → ℕ
add_line_lens len [] = len
add_line_lens len (ph ∷ hs) = add_line_lens ((len + parsed_header_line_len ph) % 2 ^ 32) hs

-- An `int` as a `size_t`.
abbrev pub int_to_size : ℕ → ℕ
int_to_size len = if ltb len (2 ^ 31) then len else len + (2 ^ 64 - 2 ^ 32)

abbrev pub headers_len_of : Option RequestLine → List ParsedHeader → ℕ
headers_len_of none hs = 0
headers_len_of (some line) hs = int_to_size ((add_line_lens 0 hs + 2) % 2 ^ 32)

unfoldable pub parsed_header_headers_len : ParsedRequest → ℕ
unfolding add_line_lens
parsed_header_headers_len pr = headers_len_of pr.line pr.headers

abbrev pub port_len : Option Bytes → ℕ
port_len none = 0
port_len (some port) = length port + 1

abbrev pub line_len_of : Option RequestLine → ℕ
line_len_of none = 0
line_len_of (some l) =
    length l.method
    + 1
    + length l.protocol
    + 3
    + length l.host
    + 1
    + length l.version
    + 2
    + port_len l.port
    + length l.path

unfoldable pub parsed_request_request_line_len : ParsedRequest → ℕ
parsed_request_request_line_len pr = line_len_of pr.line

abbrev pub total_len_of : Option RequestLine → ParsedRequest → ℕ
total_len_of none pr = 0
total_len_of (some line) pr = parsed_request_request_line_len pr + parsed_header_headers_len pr

unfoldable pub parsed_request_total_len : ParsedRequest → ℕ
unfolding parsed_request_request_line_len parsed_header_headers_len
parsed_request_total_len pr = total_len_of pr.line pr

-- Writes one behind the other, from an offset on: the offset behind them, and the buffer.
unfoldable pub write_all : ℕ → List Bytes → Bytes → Run (ℕ × Bytes)
write_all current [] buf = gives (current, buf)
write_all current (piece ∷ pieces) buf =
    let rest = write_all (current + length piece) pieces (put current piece buf) in
    if leb (current + length piece) (length buf) then rest else faults

abbrev pub header_pieces : Option Bytes → Bytes → List Bytes
header_pieces none value = []
header_pieces (some key) value = key ∷ codes ": " ∷ value ∷ codes "\r\n" ∷ []

-- What the loop of `ParsedHeader_printHeaders` writes, and what is written behind it.
unfoldable pub headers_pieces : List ParsedHeader → List Bytes
headers_pieces [] = codes "\r\n" ∷ []
headers_pieces (ph ∷ hs) = header_pieces ph.key ph.value ++ headers_pieces hs

-- Whether it gives 0, and not -1, and the buffer; `buf + start` is passed, and `len`.
unfoldable pub parsed_header_print_headers : ParsedRequest → ℕ → ℕ → Bytes → Run (Bool × Bytes)
unfolding parsed_header_headers_len
parsed_header_print_headers pr start len buf =
    if ltb len (parsed_header_headers_len pr)
    then gives (false, buf)
    else and_on (write_all start (headers_pieces pr.headers) buf) (λ out. gives (true, out.1))

abbrev pub port_pieces : Option Bytes → List Bytes
port_pieces none = []
port_pieces (some port) = codes ":" ∷ port ∷ []

abbrev pub line_pieces : RequestLine → List Bytes
line_pieces l =
    l.method
    ∷ codes " "
    ∷ l.protocol
    ∷ codes "://"
    ∷ l.host
    ∷ (port_pieces l.port ++ l.path ∷ codes " " ∷ l.version ∷ codes "\r\n" ∷ [])

-- The value of `*tmp`, if it gives 0, and the buffer.
unfoldable pub parsed_request_print_request_line :
    ParsedRequest → RequestLine → Bytes → ℕ → Run (Option ℕ × Bytes)
unfolding parsed_request_request_line_len
parsed_request_print_request_line pr line buf buflen =
    if ltb buflen (parsed_request_request_line_len pr)
    then gives (none, buf)
    else and_on (write_all 0 (line_pieces line) buf) (λ out. gives (some out.0, out.1))

-- The headers behind the request line.
abbrev pub unparse_rest : ParsedRequest → ℕ → Option ℕ × Bytes → Run (Bool × Bytes)
unparse_rest pr buflen (none, buf) = gives (false, buf)
unparse_rest pr buflen (some tmp, buf) = parsed_header_print_headers pr tmp (buflen - tmp) buf

abbrev pub unparse_line : Option RequestLine → ParsedRequest → Bytes → ℕ → Run (Bool × Bytes)
unparse_line none pr buf buflen = gives (false, buf)
unparse_line (some line) pr buf buflen =
    and_on (parsed_request_print_request_line pr line buf buflen) (unparse_rest pr buflen)

unfoldable pub parsed_request_unparse : ParsedRequest → Bytes → ℕ → Run (Bool × Bytes)
unfolding parsed_request_print_request_line parsed_header_print_headers
parsed_request_unparse pr buf buflen = unparse_line pr.line pr buf buflen

abbrev pub unparse_headers_of : Option RequestLine → ParsedRequest → Bytes → ℕ → Run (Bool × Bytes)
unparse_headers_of none pr buf buflen = gives (false, buf)
unparse_headers_of (some line) pr buf buflen = parsed_header_print_headers pr 0 buflen buf

unfoldable pub parsed_request_unparse_headers : ParsedRequest → Bytes → ℕ → Run (Bool × Bytes)
unfolding parsed_header_print_headers
parsed_request_unparse_headers pr buf buflen = unparse_headers_of pr.line pr buf buflen
