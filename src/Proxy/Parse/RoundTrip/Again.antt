-- ===== src/Proxy/Parse/RoundTrip/Again.antt =====
-- A request parsed again by http-proxy/src/proxy_parse.c from its own text.
use mathlib.Core.List.{append_assoc}
use computer_networks.Prelude.{
  ℕ, ◌≤◌, ◌≡◌, refl, ◌∙◌, ap, sym, Bool, true, false, Option, none, some, List, [], ◌∷◌, ◌++◌,
  length, length-append, All-append, le→ltb-false, arith,
}
use computer_networks.Prelude.Words.{Bytes}
use computer_networks.Proxy.Sockets.{gives}
use computer_networks.Proxy.Parse.Strings.{codes, starts_with, is_in, strstr}
use computer_networks.Proxy.Parse.Strings.Laws.{Avoids, Avoids-sub, strstr_word, strstr_there}
use computer_networks.Proxy.Parse.Headers.{ParsedHeader, RequestLine}
use computer_networks.Proxy.Parse.Headers.Map.{found}
use computer_networks.Proxy.Parse.Headers.Refine.{calls}
use computer_networks.Proxy.Parse.Request.{min_req_len, max_req_len, parsed_request_parse}
use computer_networks.Proxy.Parse.Print.Text.{header_onto, headers_text, full_text, line_end}
use computer_networks.Proxy.Parse.RoundTrip.Line.{IsLine, buf_text}
use computer_networks.Proxy.Parse.RoundTrip.Buffer.{
  request_line_lem, line_onto-split, buf_text-Avoids,
}
use computer_networks.Proxy.Parse.RoundTrip.Lines.{
  AreHeaders, sets_of, line_starts_word, parse_headers_lem,
}

-- The string that the parser reads.
text_split :
    (l : RequestLine) (hs : List ParsedHeader)
    → full_text l hs ++ 0 ∷ [] ≡ buf_text l ++ line_end (headers_text hs ++ 0 ∷ [])
text_split l hs =
    rw (line_onto-split l (headers_text hs))
      (append_assoc (buf_text l) (line_end (headers_text hs)) (0 ∷ []))

abbrev empty_line : Bytes → Bytes
empty_line rest = b'\r' ∷ b'\n' ∷ b'\r' ∷ b'\n' ∷ rest

-- Behind the line, and some more without a 0, an empty line ends the text.
EndsEmpty : Bytes → Type 0
EndsEmpty rest = (a : Bytes) × (line_end rest ≡ a ++ empty_line (0 ∷ [])) × Avoids (0 ∷ []) a

header-EndsEmpty :
    (key : Option Bytes) (value rest : Bytes)
    → EndsEmpty (rest ++ 0 ∷ [])
    → AreHeaders (record { key = key; keylen = 0; value = value; valuelen = 0 } ∷ [])
    → EndsEmpty (header_onto key value rest ++ 0 ∷ [])
unfolding EndsEmpty
header-EndsEmpty none value rest ends ok = ends
header-EndsEmpty (some key) value rest (a, e, clean) ((hk, hv), _) =
    let in_value =
      All-append (λ b. is_in (0 ∷ []) b ≡ false) value a
        (Avoids-sub (0 ∷ b'\r' ∷ []) (0 ∷ []) value (λ b h. ground arith) hv) clean in
    let in_key =
      All-append (λ b. is_in (0 ∷ []) b ≡ false) key (b':' ∷ b' ' ∷ (value ++ a))
        (Avoids-sub (0 ∷ b'\r' ∷ b':' ∷ []) (0 ∷ []) key (λ b h. ground arith) hk)
        (refl, (refl, in_value)) in
    (
      b'\r' ∷ b'\n' ∷ (key ++ (b':' ∷ b' ' ∷ (value ++ a))),
      simp (append_assoc, e),
      (refl, (refl, in_key)),
    )

headers-EndsEmpty : (hs : List ParsedHeader) → AreHeaders hs → EndsEmpty (headers_text hs ++ 0 ∷ [])
unfolding headers_text
headers-EndsEmpty [] ok = unfold EndsEmpty in ([], refl, tt)
headers-EndsEmpty (h ∷ hs) (ok, oks) =
    header-EndsEmpty h.key h.value (headers_text hs) (headers-EndsEmpty hs oks) (ok, tt)

module _ (bad_port : Bytes → Bool) (l : RequestLine) (hs : List ParsedHeader)
    (line_ok : IsLine bad_port l) (headers_ok : AreHeaders hs) where
  empty_line_found :
      (found : Bytes × Bytes) × (strstr (codes "\r\n\r\n") (full_text l hs ++ 0 ∷ []) ≡ some found)
      × (min_req_len ≤ length (full_text l hs))
  unfolding EndsEmpty
  empty_line_found =
      let (a, e, clean) = headers-EndsEmpty hs headers_ok in
      let text : full_text l hs ++ 0 ∷ [] ≡ (buf_text l ++ a) ++ empty_line (0 ∷ []) =
        text_split l hs ∙ rw e (sym (append_assoc (buf_text l) a (empty_line (0 ∷ [])))) in
      let no_zero : Avoids (0 ∷ []) (buf_text l ++ a) =
        All-append (λ b. is_in (0 ∷ []) b ≡ false) (buf_text l) a
          (Avoids-sub (0 ∷ b'\r' ∷ []) (0 ∷ []) (buf_text l) (λ b h. ground arith)
            (buf_text-Avoids bad_port l line_ok))
          clean in
      let (found, there) =
        strstr_there (codes "\r\n\r\n") (buf_text l ++ a) (empty_line (0 ∷ [])) no_zero (λ nil. cc)
          (unfold starts_with in refl) in
      (
        found,
        rw text there,
        omega (
          arith,
          ap length text,
          length-append (full_text l hs) (0 ∷ []),
          length-append (buf_text l ++ a) (empty_line (0 ∷ [])),
        ),
      )

  pub parse_lem :
      (headers : List ParsedHeader) (headerslen : ℕ)
      → length (full_text l hs) ≤ max_req_len
      → parsed_request_parse bad_port
          (record { line = none; headers = headers; headerslen = headerslen })
          (full_text l hs)
        ≡ gives (
          true,
          (calls
              (sets_of hs)
              (record { line = some l; headers = headers; headerslen = headerslen })).1,
        )
  unfolding parsed_request_parse
  parse_lem headers headerslen short =
      let (found, there, long) = empty_line_found in
      rw
        (
          le→ltb-false (length (full_text l hs)) min_req_len long,
          le→ltb-false max_req_len (length (full_text l hs)) short,
          there,
          text_split l hs,
          strstr_word b'\r' (b'\n' ∷ []) (buf_text l) (line_end (headers_text hs ++ 0 ∷ []))
              (buf_text-Avoids bad_port l line_ok) (unfold starts_with in refl),
          request_line_lem bad_port l line_ok,
          line_starts_word (buf_text l) (headers_text hs ++ 0 ∷ [])
              (buf_text-Avoids bad_port l line_ok),
        )
        (parse_headers_lem hs (record { line = some l; headers = headers; headerslen = headerslen })
          headers_ok)
