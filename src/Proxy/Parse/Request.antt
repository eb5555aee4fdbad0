-- ===== src/Proxy/Parse/Request.antt =====
-- `ParsedRequest_parse` of http-proxy/src/proxy_parse.c.
use computer_networks.Prelude.{
  ℕ, ◌+◌, Bool, true, false, ◌||◌, Option, none, some, List, [], ◌∷◌, ◌++◌, ◌==◌, ltb,
  if◌then◌else◌, length, drop,
}
use computer_networks.Prelude.Words.{Bytes, byte}
use computer_networks.Proxy.Sockets.{Run, gives, faults, and_on}
use computer_networks.Proxy.Parse.Strings.{
  codes, c_string, starts_with, strstr, strtok_r, saved, strtok_mark, Token,
}
use computer_networks.Proxy.Parse.Headers.{RequestLine, ParsedRequest, parsed_header_parse}

abbrev pub min_req_len : ℕ
min_req_len = 4

abbrev pub max_req_len : ℕ
max_req_len = 65535

-- A token that is NULL ends the parse with -1.
abbrev pub or_fail {ℓ} :
    {A : Type ℓ} → Option A → (A → Run (Option RequestLine)) → Run (Option RequestLine)
or_fail none f = gives none
or_fail (some a) f = f a

-- The path is `none` if it would begin with two slashes.
abbrev pub path_of : Option Token → Option Bytes
path_of none = some (codes "/")
path_of (some t) = if starts_with (codes "/") t.0 then none else some (codes "/" ++ t.0)

abbrev pub refused_port : (Bytes → Bool) → Option Token → Bool
refused_port bad_port none = false
refused_port bad_port (some t) = bad_port t.0

abbrev pub port_text : Option Token → Option Bytes
port_text none = none
port_text (some t) = some t.0

-- From the second call for the host on. `bad_port` says whether `strtol` gives 0 and errno is EINVAL.
unfoldable pub authority :
    (Bytes → Bool) → Bytes → Bytes → Bytes → Bytes → Bytes → Run (Option RequestLine)
authority bad_port method protocol version path host = or_fail (strtok_r (codes ":") host) (λ name.
    let port = strtok_r (codes "/") (saved name.1) in
    if refused_port bad_port port
    then gives none
    else gives (
        some (record {
          method = method;
          protocol = protocol;
          host = name.0;
          port = port_text port;
          path = path;
          version = version;
        })))

-- `strlen(rem)`, where `rem` is counted from the start of the address, whose string has a 0 behind the
-- protocol by then. What follows it in the buffer is the version.
abbrev pub abs_uri_len : Bytes → Bytes → Bytes → ℕ
abs_uri_len full_addr version protocol = length (
    c_string
      (drop (length protocol + 3) (strtok_mark (codes "://") full_addr ++ 0 ∷ version ++ 0 ∷ [])))

-- From the protocol on.
unfoldable pub address : (Bytes → Bool) → Bytes → Bytes → Bytes → Run (Option RequestLine)
address bad_port method full_addr version = or_fail (strtok_r (codes "://") full_addr) (λ protocol.
    or_fail (strtok_r (codes "/") (saved protocol.1)) (λ host.
      if length host.0 == abs_uri_len full_addr version protocol.0
      then gives none
      else or_fail (path_of (strtok_r (codes " ") (saved host.1)))
          (λ path. authority bad_port method protocol.0 version path host.0)))

-- From the version on, which stands behind the space that ends the address. Without one, the pointer
-- leads behind the buffer, and is read.
abbrev pub versioned : (Bytes → Bool) → Bytes → Bytes → Option Bytes → Run (Option RequestLine)
versioned bad_port method full_addr none = faults
versioned bad_port method full_addr (some version) =
    if starts_with (codes "HTTP/") version
    then address bad_port method full_addr version
    else gives none

-- The request line, of the string in `parse->buf`.
unfoldable pub request_line : (Bytes → Bool) → Bytes → Run (Option RequestLine)
request_line bad_port buf = or_fail (strtok_r (codes " ") buf) (λ method.
    or_fail (strtok_r (codes " ") (saved method.1))
      (λ full_addr. versioned bad_port method.0 full_addr.0 full_addr.1))

-- The places behind each "\r\n" of a string, in order: the values of `currentHeader`.
unfoldable pub line_starts : Bytes → List Bytes
line_starts [] = []
line_starts (b ∷ p) =
    let later = line_starts p in
    if b == 0 then [] else if starts_with (codes "\r\n") (b ∷ p) then drop 1 p ∷ later else later

-- The loop over the headers, and the value of `ret` behind it.
unfoldable pub parse_headers : ParsedRequest → List Bytes → Run (Bool × ParsedRequest)
parse_headers pr [] = gives (true, pr)
parse_headers pr (current ∷ later) =
    if byte current 0 == 0 || starts_with (codes "\r\n") current
    then gives (true, pr)
    else and_on (parsed_header_parse pr current)
        (λ parsed. if parsed.0 then parse_headers parsed.1 later else gives (false, parsed.1))

-- The request line is there, or not.
abbrev pub with_line : ParsedRequest → Bytes → Option RequestLine → Run (Bool × ParsedRequest)
with_line pr tmp_buf none = gives (false, pr)
with_line pr tmp_buf (some line) =
    parse_headers (record pr { line = some line }) (line_starts tmp_buf)

-- From the copy of the request line on. There is one, since the string has an empty line.
abbrev pub parse_line :
    (Bytes → Bool) → ParsedRequest → Bytes → Option (Bytes × Bytes) → Run (Bool × ParsedRequest)
parse_line bad_port pr tmp_buf none = faults
parse_line bad_port pr tmp_buf (some found) =
    and_on (request_line bad_port found.0) (with_line pr tmp_buf)

-- From the look for the empty line on.
abbrev pub parse_string :
    (Bytes → Bool) → ParsedRequest → Bytes → Option (Bytes × Bytes) → Run (Bool × ParsedRequest)
parse_string bad_port pr tmp_buf none = gives (false, pr)
parse_string bad_port pr tmp_buf (some found) =
    parse_line bad_port pr tmp_buf (strstr (codes "\r\n") tmp_buf)

abbrev pub is_assigned : Option RequestLine → Bool
is_assigned none = false
is_assigned (some line) = true

-- Whether it gives 0, and not -1, and the request. The buffer's length is `buflen`.
unfoldable pub parsed_request_parse :
    (Bytes → Bool) → ParsedRequest → Bytes → Run (Bool × ParsedRequest)
parsed_request_parse bad_port pr buf =
    if is_assigned pr.line || ltb (length buf) min_req_len || ltb max_req_len (length buf)
    then gives (false, pr)
    else parse_string bad_port pr (buf ++ 0 ∷ []) (strstr (codes "\r\n\r\n") (buf ++ 0 ∷ []))
