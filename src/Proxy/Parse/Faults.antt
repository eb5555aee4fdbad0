-- ===== src/Proxy/Parse/Faults.antt =====
-- A request line without a version, in `ParsedRequest_parse` of http-proxy/src/proxy_parse.c.
use mathlib.Core.List.{append_assoc}
use computer_networks.Prelude.{
  ℕ, ◌≤◌, ◌≡◌, refl, Bool, false, [], ◌∷◌, ◌++◌, length, length-append, All-append, le→ltb-false,
  arith,
}
use computer_networks.Prelude.Words.{Bytes}
use computer_networks.Proxy.Sockets.{faults}
use computer_networks.Proxy.Parse.Strings.{codes, starts_with, is_in}
use computer_networks.Proxy.Parse.Strings.Laws.{
  Avoids, strtok_word, strtok_all, strstr_word, strstr_there,
}
use computer_networks.Proxy.Parse.Headers.{parsed_request_create}
use computer_networks.Proxy.Parse.Request.{
  min_req_len, max_req_len, request_line, parsed_request_parse,
}
use computer_networks.Proxy.Parse.Print.Text.{line_end}
use computer_networks.Proxy.Parse.RoundTrip.Line.{IsWord, IsWord-sub}

-- A line with a method and an address only.
abbrev pub short_line : Bytes → Bytes → Bytes
short_line method addr = method ++ (b' ' ∷ addr)

-- It ends its request, or any bytes follow behind an empty line.
abbrev pub short_request : Bytes → Bytes → Bytes → Bytes
short_request method addr more = short_line method addr ++ line_end (line_end more)

short_line_faults :
    (bad_port : Bytes → Bool) (method addr : Bytes)
    → IsWord (codes " ") method
    → IsWord (codes " ") addr
    → request_line bad_port (short_line method addr) ≡ faults
unfolding request_line
short_line_faults bad_port method addr hm ha =
    rw
      (
        strtok_word (codes " ") method b' ' addr hm.0
            (IsWord-sub (codes " ") (codes " ") method (λ b h. ground arith) hm) refl,
        strtok_all (codes " ") addr ha.0
            (IsWord-sub (codes " ") (codes " ") addr (λ b h. ground arith) ha),
      )
      refl

short_line-Avoids :
    (ds method addr : Bytes)
    → ((b : ℕ) → is_in (0 ∷ b'\r' ∷ codes " ") b ≡ false → is_in ds b ≡ false)
    → is_in ds b' ' ≡ false
    → IsWord (codes " ") method
    → IsWord (codes " ") addr
    → Avoids ds (short_line method addr)
short_line-Avoids ds method addr weaker space hm ha =
    All-append (λ b. is_in ds b ≡ false) method (b' ' ∷ addr)
      (IsWord-sub (codes " ") ds method weaker hm) (space, IsWord-sub (codes " ") ds addr weaker ha)

-- A request whose line has a method and an address, but no space behind the address, is read past the
-- end of the buffer, whatever stands behind its empty line.
pub unversioned_faults :
    (bad_port : Bytes → Bool) (method addr more : Bytes)
    → IsWord (codes " ") method
    → IsWord (codes " ") addr
    → length (short_request method addr more) ≤ max_req_len
    → parsed_request_parse bad_port parsed_request_create (short_request method addr more) ≡ faults
unfolding parsed_request_parse parsed_request_create
unversioned_faults bad_port method addr more hm ha short =
    let line = short_line method addr in
    let long : min_req_len ≤ length (short_request method addr more) =
      omega (arith, length-append line (line_end (line_end more))) in
    let behind = append_assoc line (line_end (line_end more)) (0 ∷ []) in
    let (found, there) =
      strstr_there (codes "\r\n\r\n") line (line_end (line_end (more ++ 0 ∷ [])))
        (short_line-Avoids (0 ∷ []) method addr (λ b h. ground arith) refl hm ha) (λ nil. cc)
        (unfold starts_with in refl) in
    rw
      (
        le→ltb-false (length (short_request method addr more)) min_req_len long,
        le→ltb-false max_req_len (length (short_request method addr more)) short,
        behind,
        there,
        strstr_word b'\r' (b'\n' ∷ []) line (line_end (line_end (more ++ 0 ∷ [])))
            (short_line-Avoids (0 ∷ b'\r' ∷ []) method addr (λ b h. ground arith) refl hm ha)
            (unfold starts_with in refl),
        short_line_faults bad_port method addr hm ha,
      )
      refl
