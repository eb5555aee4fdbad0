-- ===== src/Proxy/Parse/Tests.antt =====
-- Runs of the parser and of the printer of requests on small inputs.
use computer_networks.Prelude.{
  ◌<◌, ◌≡◌, ◌⊎◌, refl, Bool, true, false, none, some, List, [], ◌∷◌, ◌++◌, leb, length, take, drop,
  arith,
}
use computer_networks.Prelude.Words.{Bytes}
use computer_networks.Proxy.Sockets.{gives, faults}
use computer_networks.Proxy.Parse.Strings.{
  codes, same_text, strtok_r, strtok_mark, c_string, starts_with, strstr, index,
}
use computer_networks.Proxy.Parse.Headers.{
  RequestLine, ParsedRequest, parsed_request_create, new_header, header_at, parsed_header_remove,
  parsed_header_parse, parsed_header_set,
}
use computer_networks.Proxy.Parse.Headers.Map.{found, value_of}
use computer_networks.Proxy.Parse.Headers.Refine.{
  IsRequest, HeaderCall, set, remove, calls, map_calls, calls_refine,
}
use computer_networks.Proxy.Parse.Request.{
  parsed_request_parse, request_line, address, authority, line_starts, parse_headers,
}
use computer_networks.Proxy.Parse.Faults.{short_request, unversioned_faults}
use computer_networks.Proxy.Parse.Print.{parsed_request_unparse, parsed_request_total_len}
use computer_networks.Proxy.Parse.Print.Text.{line_onto, headers_text, full_text}
use computer_networks.Proxy.Parse.Print.Unparse.{unparse_prints}
use computer_networks.Proxy.Parse.RoundTrip.Line.{IsLine}
use computer_networks.Proxy.Parse.RoundTrip.Lines.{AreHeaders}
use computer_networks.Proxy.Parse.RoundTrip.Printed.{parse-unparse}

abbrev takes_ports : Bytes → Bool
takes_ports port = false

abbrev example_line : RequestLine
example_line = record {
  method = codes "GET";
  protocol = codes "http";
  host = codes "www.google.com";
  port = some (codes "80");
  path = codes "/index.html/";
  version = codes "HTTP/1.0";
}

abbrev example_text : Bytes
example_text =
    codes
      "GET http://www.google.com:80/index.html/ HTTP/1.0\r\nContent-Length: 80\r\nIf-Modified-Since: Sat\r\n\r\n"

abbrev example_request : ParsedRequest
example_request = record {
  line = some example_line;
  headers =
      new_header (codes "Content-Length") (codes "80")
      ∷ new_header (codes "If-Modified-Since") (codes "Sat")
      ∷ [];
  headerslen = 8;
}

-- The request of the example in proxy_parse.h.
example_parsed :
    parsed_request_parse takes_ports parsed_request_create example_text
    ≡ gives (true, example_request)
unfolding parsed_request_parse parsed_request_create request_line address authority line_starts
    parse_headers parsed_header_parse parsed_header_set strtok_r strtok_mark c_string starts_with
    strstr index
example_parsed = refl

-- A line without a colon takes its key from the next one, and an empty value goes on there.
merged_lines :
    (parsed_request_parse takes_ports parsed_request_create
        (codes "GET http://a/b HTTP/1.0\r\nHost\r\nA:\r\nB: c\r\n\r\n")
      ≡ gives (
        true,
        record {
          line = some (record {
            method = codes "GET";
            protocol = codes "http";
            host = codes "a";
            port = none;
            path = codes "/b";
            version = codes "HTTP/1.0";
          });
          headers =
              new_header (codes "Host\r\nA") (codes "\nB: c")
              ∷ new_header (codes "A") (codes "\nB: c")
              ∷ new_header (codes "B") (codes "c")
              ∷ [];
          headerslen = 8;
        },
      ))
unfolding parsed_request_parse parsed_request_create request_line address authority line_starts
    parse_headers parsed_header_parse parsed_header_set strtok_r strtok_mark c_string starts_with
    strstr index
merged_lines = refl

example_line-IsLine : IsLine takes_ports example_line
example_line-IsLine = record {
  method = (λ e. cc, ground arith);
  protocol = (λ e. cc, ground arith);
  host = (λ e. cc, ground arith);
  port = ((λ e. cc, ground arith), refl);
  path = (refl, ground arith, unfold starts_with in refl);
  version = ground arith;
  http = unfold starts_with in refl;
}

example_headers : AreHeaders example_request.headers
example_headers = (ground arith, (ground arith, tt))

-- A header replaced, one removed twice, and one set.
abbrev header_calls : List HeaderCall
header_calls =
    set (codes "Content-Length") (codes "81")
    ∷ remove (codes "If-Modified-Since")
    ∷ remove (codes "If-Modified-Since")
    ∷ set (codes "Host") (codes "a")
    ∷ []

example_request-IsRequest : IsRequest example_request
example_request-IsRequest = record {
  unique = (unfold found header_at same_text in refl, (unfold found header_at in refl, tt));
  room = omega arith;
}

calls_refine_example :
    ((calls header_calls example_request).0 ≡ (map_calls header_calls (value_of example_request)).0)
    × (value_of (calls header_calls example_request).1
        ≡ (map_calls header_calls (value_of example_request)).1)
    × IsRequest (calls header_calls example_request).1
calls_refine_example = calls_refine header_calls example_request example_request-IsRequest

header_calls_give : (calls header_calls example_request).0 ≡ true ∷ true ∷ false ∷ true ∷ []
unfolding parsed_header_remove parsed_header_set same_text
header_calls_give = refl

unparse_prints_example :
    (parsed_request_total_len example_request
      ≡ length (full_text example_line example_request.headers))
    × (b : Bytes) × (parsed_request_unparse example_request (codes "too short") 9
        ≡ gives (leb (length (full_text example_line example_request.headers)) 9, b))
    × ((9 < length (full_text example_line example_request.headers))
        ⊎ (b
            ≡ full_text example_line example_request.headers
              ++ drop
                  (length (full_text example_line example_request.headers))
                  (codes "too short")))
unparse_prints_example =
    unparse_prints example_line example_request.headers 8 (codes "too short") 9
      (unfold line_onto headers_text in omega arith) (omega arith)

parse-unparse_example :
    (b : Bytes) × (pr : ParsedRequest) × (parsed_request_unparse example_request example_text
        (parsed_request_total_len example_request)
      ≡ gives (true, b))
    × (parsed_request_parse takes_ports parsed_request_create
          (take (parsed_request_total_len example_request) b)
        ≡ gives (true, pr))
    × (pr.line ≡ some example_line)
    × (value_of pr ≡ value_of example_request)
parse-unparse_example =
    parse-unparse takes_ports example_line example_request.headers 8 example_text
      example_line-IsLine example_headers example_request-IsRequest.unique
      (unfold line_onto headers_text in omega arith) (unfold line_onto headers_text in omega arith)

unversioned_faults_example :
    parsed_request_parse takes_ports parsed_request_create
      (short_request (codes "GET") (codes "http://a/") (codes "more"))
    ≡ faults
unversioned_faults_example =
    unversioned_faults takes_ports (codes "GET") (codes "http://a/") (codes "more")
      (λ e. cc, ground arith) (λ e. cc, ground arith) (omega arith)
