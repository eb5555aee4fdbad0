-- ===== src/Proxy/Parse/RoundTrip/Lines.antt =====
-- The headers of a text, by http-proxy/src/proxy_parse.c.
use mathlib.Core.List.{append_assoc}
use computer_networks.Prelude.{
  ◌≡◌, refl, ◌∙◌, true, false, ◌||◌, Option, none, some, List, [], ◌∷◌, ◌++◌, ◌==◌, All, All-append,
  arith,
}
use computer_networks.Prelude.Words.{Bytes, byte}
use computer_networks.Proxy.Sockets.{gives}
use computer_networks.Proxy.Parse.Strings.{codes, starts_with, is_in, strstr, index}
use computer_networks.Proxy.Parse.Strings.Laws.{Avoids, Avoids-sub, strstr_word}
use computer_networks.Proxy.Parse.Headers.{
  ParsedHeader, ParsedRequest, parsed_header_set, set_value, parsed_header_parse,
}
use computer_networks.Proxy.Parse.Headers.Refine.{HeaderCall, set, calls}
use computer_networks.Proxy.Parse.Request.{line_starts, parse_headers}
use computer_networks.Proxy.Parse.Print.Text.{header_onto, headers_text, line_end}

-- A header that is parsed as it was printed, if it is not cleared.
abbrev pub IsHeader : Option Bytes → Bytes → Type 0
IsHeader none value = Unit
IsHeader (some key) value = Avoids (0 ∷ b'\r' ∷ b':' ∷ []) key × Avoids (0 ∷ b'\r' ∷ []) value

abbrev pub AreHeaders : List ParsedHeader → Type 0
AreHeaders hs = All (λ h. IsHeader h.key h.value) hs

-- What the parser makes of the headers, each in turn.
abbrev pub set_of : Option Bytes → Bytes → List HeaderCall → List HeaderCall
set_of none value cs = cs
set_of (some key) value cs = set key value ∷ cs

abbrev pub sets_of : List ParsedHeader → List HeaderCall
sets_of [] = []
sets_of (h ∷ hs) = set_of h.key h.value (sets_of hs)

pub line_starts_word :
    (t rest : Bytes)
    → Avoids (0 ∷ b'\r' ∷ []) t
    → line_starts (t ++ line_end rest) ≡ rest ∷ line_starts rest
unfolding line_starts starts_with
line_starts_word [] rest h = refl
line_starts_word (x ∷ t) rest (hx, h) =
    let other : (b'\r' == x) ≡ false = ground (arith, hx) in
    let nonzero : (x == 0) ≡ false = ground (arith, hx) in
    rw (nonzero, other) (line_starts_word t rest h)

set_value_lem :
    (pr : ParsedRequest) (key value rest : Bytes)
    → Avoids (0 ∷ b'\r' ∷ []) value
    → set_value pr key (value ++ line_end rest) ≡ gives (true, parsed_header_set pr key value)
set_value_lem pr key [] rest h = unfold strstr starts_with in refl
set_value_lem pr key (x ∷ value) rest h =
    rw (strstr_word b'\r' (b'\n' ∷ []) (x ∷ value) (line_end rest) h (unfold starts_with in refl))
      refl

header_parse_lem :
    (pr : ParsedRequest) (key value rest : Bytes)
    → IsHeader (some key) value
    → parsed_header_parse pr (header_onto (some key) value rest)
      ≡ gives (true, parsed_header_set pr key value)
unfolding parsed_header_parse index
header_parse_lem pr key value rest (hk, hv) =
    rw
      (strstr_word b':' [] key (b':' ∷ b' ' ∷ (value ++ line_end rest))
        (Avoids-sub (0 ∷ b'\r' ∷ b':' ∷ []) (0 ∷ b':' ∷ []) key (λ b h. ground arith) hk)
        (unfold starts_with in refl))
      (set_value_lem pr key value rest hv)

goes_on :
    (key : Bytes) (rest : Bytes)
    → Avoids (0 ∷ b'\r' ∷ b':' ∷ []) key
    → (byte (key ++ b':' ∷ rest) 0 == 0 || starts_with (codes "\r\n") (key ++ b':' ∷ rest)) ≡ false
unfolding starts_with
goes_on [] rest h = refl
goes_on (x ∷ key) rest (hx, h) = ground (arith, hx)

header_onto-append :
    (key : Option Bytes) (value rest tail : Bytes)
    → header_onto key value rest ++ tail ≡ header_onto key value (rest ++ tail)
header_onto-append none value rest tail = refl
header_onto-append (some key) value rest tail = simp append_assoc

header_onto-line :
    (key value rest : Bytes)
    → header_onto (some key) value rest ≡ (key ++ (b':' ∷ b' ' ∷ value)) ++ line_end rest
header_onto-line key value rest = simp append_assoc

line_starts-header :
    (key value rest : Bytes)
    → IsHeader (some key) value
    → line_starts (header_onto (some key) value rest) ≡ rest ∷ line_starts rest
line_starts-header key value rest (hk, hv) = rw (header_onto-line key value rest) (
    line_starts_word (key ++ (b':' ∷ b' ' ∷ value)) rest (
      All-append (λ b. is_in (0 ∷ b'\r' ∷ []) b ≡ false) key (b':' ∷ b' ' ∷ value)
        (Avoids-sub (0 ∷ b'\r' ∷ b':' ∷ []) (0 ∷ b'\r' ∷ []) key (λ b h. ground arith) hk)
        (refl, (refl, hv))))

parse_one :
    (pr q : ParsedRequest) (current : Bytes) (later : List Bytes)
    → (byte current 0 == 0 || starts_with (codes "\r\n") current) ≡ false
    → parsed_header_parse pr current ≡ gives (true, q)
    → parse_headers pr (current ∷ later) ≡ parse_headers q later
unfolding parse_headers
parse_one pr q current later more parsed = rw (more, parsed) refl

parse_step :
    (pr : ParsedRequest) (key : Option Bytes) (value rest : Bytes) (cs : List HeaderCall)
    → IsHeader key value
    → ((q : ParsedRequest)
        → parse_headers q (rest ∷ line_starts rest) ≡ gives (true, (calls cs q).1))
    → parse_headers pr (header_onto key value rest ∷ line_starts (header_onto key value rest))
      ≡ gives (true, (calls (set_of key value cs) pr).1)
parse_step pr none value rest cs ok later = later pr
parse_step pr (some key) value rest cs ok later = rw (line_starts-header key value rest ok) (
    parse_one pr (parsed_header_set pr key value) (header_onto (some key) value rest)
      (rest ∷ line_starts rest) (goes_on key (b' ' ∷ (value ++ line_end rest)) ok.0)
      (header_parse_lem pr key value rest ok)
    ∙ later (parsed_header_set pr key value))

-- The loop sets the headers of the text in turn.
pub parse_headers_lem :
    (hs : List ParsedHeader) (pr : ParsedRequest)
    → AreHeaders hs
    → parse_headers pr ((headers_text hs ++ 0 ∷ []) ∷ line_starts (headers_text hs ++ 0 ∷ []))
      ≡ gives (true, (calls (sets_of hs) pr).1)
unfolding headers_text
parse_headers_lem [] pr ok = unfold parse_headers line_starts starts_with in refl
parse_headers_lem (h ∷ hs) pr (ok, oks) =
    rw (header_onto-append h.key h.value (headers_text hs) (0 ∷ [])) (
      parse_step pr h.key h.value (headers_text hs ++ 0 ∷ []) (sets_of hs) ok
        (λ q. parse_headers_lem hs q oks))
