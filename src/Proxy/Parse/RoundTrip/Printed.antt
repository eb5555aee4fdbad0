-- ===== src/Proxy/Parse/RoundTrip/Printed.antt =====
-- A request printed and parsed again by http-proxy/src/proxy_parse.c.
use mathlib.Core.Path.{fun_ext}
use computer_networks.Prelude.{
  ℕ, ◌≤◌, ◌≡◌, refl, ◌∙◌, ap, sym, inl, inr, Bool, true, Option, none, some, List, [], ◌∷◌, ◌++◌,
  le→leb, if◌then◌else◌, length, take, drop, Bool-cases, arith,
}
use computer_networks.Prelude.Words.{Bytes}
use computer_networks.Prelude.Words.Slices.{take-append}
use computer_networks.Proxy.Sockets.{gives}
use computer_networks.Proxy.Parse.Strings.{same_text}
use computer_networks.Proxy.Parse.Headers.{
  ParsedHeader, RequestLine, ParsedRequest, parsed_request_create, default_nhdrs, has_key,
  header_at, parsed_header_set, parsed_header_get,
}
use computer_networks.Proxy.Parse.Headers.Map.{
  value_of, found, found-cons, IsUnique, IsFresh, or_else, same_text→eq,
}
use computer_networks.Proxy.Parse.Headers.Refine.{
  HeaderCall, set, remove, call, calls, calls_refine, map_calls, written, value_of-found,
  remove_lem,
}
use computer_networks.Proxy.Parse.Request.{max_req_len, parsed_request_parse}
use computer_networks.Proxy.Parse.Print.{parsed_request_total_len, parsed_request_unparse}
use computer_networks.Proxy.Parse.Print.Text.{full_text}
use computer_networks.Proxy.Parse.Print.Unparse.{unparse_prints}
use computer_networks.Proxy.Parse.RoundTrip.Line.{IsLine}
use computer_networks.Proxy.Parse.RoundTrip.Lines.{AreHeaders, sets_of, set_of}
use computer_networks.Proxy.Parse.RoundTrip.Again.{parse_lem}

call-line : (c : HeaderCall) (pr : ParsedRequest) → (call c pr).1.line ≡ pr.line
unfolding parsed_header_set
call-line (set key value) pr = rw (remove_lem pr key) refl
call-line (remove key) pr = rw (remove_lem pr key) refl

calls-line : (cs : List HeaderCall) (pr : ParsedRequest) → (calls cs pr).1.line ≡ pr.line
calls-line [] pr = refl
calls-line (c ∷ cs) pr = calls-line cs (call c pr).1 ∙ call-line c pr

-- Headers with different keys, set in turn, are found behind what was there.
sets_step :
    (key : Option Bytes) (value : Bytes) (hs : List ParsedHeader) (cs : List HeaderCall)
    (m : Bytes → Option Bytes) (j : Bytes)
    → IsFresh key hs
    → ((n : Bytes → Option Bytes) → (map_calls cs n).1 j ≡ or_else (found hs j) (n j))
    → (map_calls (set_of key value cs) m).1 j
      ≡ or_else (if has_key j key then some value else found hs j) (m j)
sets_step none value hs cs m j fresh later = later m
sets_step (some key) value hs cs m j fresh later = elim (Bool-cases (same_text key j)) [
  | inl same ↦ rw (later (written key value m), same, ← (same_text→eq key j same), fresh) refl
  | inr other ↦ rw (later (written key value m), other) refl
]

sets_lem :
    (hs : List ParsedHeader) (m : Bytes → Option Bytes) (j : Bytes)
    → IsUnique hs
    → (map_calls (sets_of hs) m).1 j ≡ or_else (found hs j) (m j)
sets_lem [] m j u = unfold found header_at in refl
sets_lem (h ∷ hs) m j (fresh, u) =
    sets_step h.key h.value hs (sets_of hs) m j fresh (λ n. sets_lem hs n j u)
    ∙ ap (λ o. or_else o (m j)) (sym (found-cons h hs j))

or_else-none : (o : Option Bytes) → or_else o none ≡ o
or_else-none none = refl
or_else-none (some v) = refl

abbrev request : RequestLine → List ParsedHeader → ℕ → ParsedRequest
request l hs headerslen = record { line = some l; headers = hs; headerslen = headerslen }

parse_again :
    (bad_port : Bytes → Bool) (l : RequestLine) (hs : List ParsedHeader) (headerslen : ℕ)
    → IsLine bad_port l
    → AreHeaders hs
    → IsUnique hs
    → length (full_text l hs) ≤ max_req_len
    → (pr : ParsedRequest) × (parsed_request_parse bad_port parsed_request_create (full_text l hs)
        ≡ gives (true, pr))
      × (pr.line ≡ some l)
      × (value_of pr ≡ value_of (request l hs headerslen))
unfolding parsed_request_create
parse_again bad_port l hs headerslen line_ok headers_ok u short =
    let start = request l [] default_nhdrs in
    let (gave, meets, ok) =
      calls_refine (sets_of hs) start (record { unique = tt; room = omega arith }) in
    (
      (calls (sets_of hs) start).1,
      parse_lem bad_port l hs line_ok headers_ok [] default_nhdrs short,
      calls-line (sets_of hs) start,
      meets
          ∙ fun_ext (λ j.
            let empty : value_of start j ≡ none = unfold parsed_header_get in refl in
            sets_lem hs (value_of start) j u
            ∙ rw empty (
                or_else-none (found hs j)
                ∙ ap (λ f. f j) (sym (value_of-found (request l hs headerslen))))),
    )

-- A request with fields and headers that stand in one line, with different keys, and with a text of no
-- more than 65535 bytes, is parsed again from what is printed of it: the parser gives a request with
-- the same line, in which each key has the same value.
pub parse-unparse :
    (bad_port : Bytes → Bool) (l : RequestLine) (hs : List ParsedHeader) (headerslen : ℕ)
    (buf : Bytes)
    → IsLine bad_port l
    → AreHeaders hs
    → IsUnique hs
    → length (full_text l hs) ≤ max_req_len
    → length (full_text l hs) ≤ length buf
    → (b : Bytes) × (pr : ParsedRequest) × (parsed_request_unparse
          (request l hs headerslen)
          buf
          (parsed_request_total_len (request l hs headerslen))
        ≡ gives (true, b))
      × (parsed_request_parse bad_port parsed_request_create
            (take (parsed_request_total_len (request l hs headerslen)) b)
          ≡ gives (true, pr))
      × (pr.line ≡ some l)
      × (value_of pr ≡ value_of (request l hs headerslen))
parse-unparse bad_port l hs headerslen buf line_ok headers_ok u short room =
    let size = length (full_text l hs) in
    let (measures, b, prints, front) = unparse_prints l hs headerslen buf size (omega arith) room in
    let (pr, parses, same_line, same_values) =
      parse_again bad_port l hs headerslen line_ok headers_ok u short in
    let exact : b ≡ full_text l hs ++ drop size buf = elim front [
      | inl less ↦ absurd (omega arith)
      | inr e ↦ e
    ] in
    (
      b,
      pr,
      rw measures (prints ∙ ap (λ t. gives (t, b)) (le→leb size size (omega arith))),
      rw (measures, exact, take-append (full_text l hs) (drop size buf)) parses,
      same_line,
      same_values,
    )
