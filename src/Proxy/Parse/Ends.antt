-- ===== src/Proxy/Parse/Ends.antt =====
-- `ParsedRequest_parse` of http-proxy/src/proxy_parse.c does not wait for anything.
use computer_networks.Prelude.{
  length, ◌==◌, Bool, true, false, Option, none, some, List, [], ◌∷◌, ◌++◌, drop, if◌then◌else◌,
}
use computer_networks.Prelude.Words.{Bytes}
use computer_networks.Proxy.Sockets.{Run, gives, waits, faults, and_on}
use computer_networks.Proxy.Parse.Strings.{strstr, index, strtok_r, codes, saved}
use computer_networks.Proxy.Parse.Headers.{
  RequestLine, ParsedRequest, set_found, set_value, header_of, parsed_header_parse,
}
use computer_networks.Proxy.Parse.Request.{
  or_fail, abs_uri_len, path_of, authority, address, versioned, request_line, line_starts,
  parse_headers, with_line, parse_line, parse_string, parsed_request_parse,
}

-- It ends with a result, or in a fault.
pub data Ends {ℓ} {A : Type ℓ} : Run A → Type ℓ where
  ended : {a : A} → Ends (gives a)
  faulted : Ends faults

if-Ends {ℓ} : {A : Type ℓ} (b : Bool) (r s : Run A) → Ends r → Ends s → Ends (if b then r else s)
if-Ends true r s hr hs = hr
if-Ends false r s hr hs = hs

and_on-Ends {ℓ κ} :
    {A : Type ℓ} {B : Type κ} (r : Run A) (f : A → Run B)
    → Ends r
    → ((a : A) → Ends (f a))
    → Ends (and_on r f)
and_on-Ends (gives a) f ended hf = hf a
and_on-Ends waits f hr hf = elim hr [ ]
and_on-Ends faults f faulted hf = faulted

or_fail-Ends {ℓ} :
    {A : Type ℓ} (o : Option A) (f : A → Run (Option RequestLine))
    → ((a : A) → Ends (f a))
    → Ends (or_fail o f)
or_fail-Ends none f h = ended
or_fail-Ends (some a) f h = h a

set_value-Ends : (pr : ParsedRequest) (key rest : Bytes) → Ends (set_value pr key rest)
set_value-Ends pr key [] = faulted
set_value-Ends pr key (b ∷ rest) = found (strstr (codes "\r\n") (b ∷ rest))
  where
    found : (o : Option (Bytes × Bytes)) → Ends (set_found pr key o)
    found none = faulted
    found (some x) = ended

header_of-Ends : (pr : ParsedRequest) (o : Option (Bytes × Bytes)) → Ends (header_of pr o)
header_of-Ends pr none = ended
header_of-Ends pr (some found) = set_value-Ends pr found.0 (drop 2 found.1)

header-Ends : (pr : ParsedRequest) (line : Bytes) → Ends (parsed_header_parse pr line)
unfolding parsed_header_parse
header-Ends pr line = header_of-Ends pr (index b':' line)

headers-Ends : (starts : List Bytes) (pr : ParsedRequest) → Ends (parse_headers pr starts)
unfolding parse_headers
headers-Ends [] pr = ended
headers-Ends (current ∷ later) pr = if-Ends _ _ _ ended (
    and_on-Ends (parsed_header_parse pr current) _ (header-Ends pr current)
      (λ parsed. if-Ends parsed.0 _ _ (headers-Ends later parsed.1) ended))

authority-Ends :
    (bad_port : Bytes → Bool) (method protocol version path host : Bytes)
    → Ends (authority bad_port method protocol version path host)
unfolding authority
authority-Ends bad_port method protocol version path host =
    or_fail-Ends (strtok_r (codes ":") host) _ (λ name. if-Ends _ _ _ ended ended)

address-Ends :
    (bad_port : Bytes → Bool) (method full_addr version : Bytes)
    → Ends (address bad_port method full_addr version)
unfolding address
address-Ends bad_port method full_addr version =
    or_fail-Ends (strtok_r (codes "://") full_addr) _ (λ protocol.
      or_fail-Ends (strtok_r (codes "/") (saved protocol.1)) _ (λ host.
        if-Ends (length host.0 == abs_uri_len full_addr version protocol.0) (gives none) _ ended (
          or_fail-Ends (path_of (strtok_r (codes " ") (saved host.1))) _
            (λ path. authority-Ends bad_port method protocol.0 version path host.0))))

versioned-Ends :
    (bad_port : Bytes → Bool) (method full_addr : Bytes) (version : Option Bytes)
    → Ends (versioned bad_port method full_addr version)
versioned-Ends bad_port method full_addr none = faulted
versioned-Ends bad_port method full_addr (some version) =
    if-Ends _ _ _ (address-Ends bad_port method full_addr version) ended

line-Ends : (bad_port : Bytes → Bool) (buf : Bytes) → Ends (request_line bad_port buf)
unfolding request_line
line-Ends bad_port buf = or_fail-Ends (strtok_r (codes " ") buf) _ (λ method.
    or_fail-Ends (strtok_r (codes " ") (saved method.1)) _
      (λ full_addr. versioned-Ends bad_port method.0 full_addr.0 full_addr.1))

with_line-Ends :
    (pr : ParsedRequest) (tmp_buf : Bytes) (o : Option RequestLine) → Ends (with_line pr tmp_buf o)
with_line-Ends pr tmp_buf none = ended
with_line-Ends pr tmp_buf (some line) =
    headers-Ends (line_starts tmp_buf) (record pr { line = some line })

parse_line-Ends :
    (bad_port : Bytes → Bool) (pr : ParsedRequest) (tmp_buf : Bytes) (o : Option (Bytes × Bytes))
    → Ends (parse_line bad_port pr tmp_buf o)
parse_line-Ends bad_port pr tmp_buf none = faulted
parse_line-Ends bad_port pr tmp_buf (some found) =
    and_on-Ends (request_line bad_port found.0) (with_line pr tmp_buf) (line-Ends bad_port found.0)
      (with_line-Ends pr tmp_buf)

parse_string-Ends :
    (bad_port : Bytes → Bool) (pr : ParsedRequest) (tmp_buf : Bytes) (o : Option (Bytes × Bytes))
    → Ends (parse_string bad_port pr tmp_buf o)
parse_string-Ends bad_port pr tmp_buf none = ended
parse_string-Ends bad_port pr tmp_buf (some found) =
    parse_line-Ends bad_port pr tmp_buf (strstr (codes "\r\n") tmp_buf)

pub parse-Ends :
    (bad_port : Bytes → Bool) (pr : ParsedRequest) (buf : Bytes)
    → Ends (parsed_request_parse bad_port pr buf)
unfolding parsed_request_parse
parse-Ends bad_port pr buf =
    if-Ends _ _ _ ended
      (parse_string-Ends bad_port pr (buf ++ 0 ∷ []) (strstr (codes "\r\n\r\n") (buf ++ 0 ∷ [])))
