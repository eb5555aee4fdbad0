-- ===== src/Proxy/Parse/Print/Text.antt =====
-- What the printer of http-proxy/src/proxy_parse.c writes, and where.
use mathlib.Core.List.{append_assoc}
use computer_networks.Prelude.{
  ℕ, zero, suc, ◌+◌, ◌%◌, ◌^◌, ◌≤◌, ◌<◌, ◌≡◌, refl, ◌∙◌, ap, inl, inr, Option, none, some, List, [],
  ◌∷◌, ◌++◌, leb, length, drop, length-append, Bool-cases, arith,
}
use computer_networks.Prelude.Words.{Bytes, put, overlay, length-put}
use computer_networks.Prelude.Words.Slices.{joined}
use computer_networks.Proxy.Sockets.{gives}
use computer_networks.Proxy.Parse.Headers.{ParsedHeader, RequestLine}
use computer_networks.Proxy.Parse.Print.{
  key_line_len, parsed_header_line_len, add_line_lens, port_len, line_len_of, write_all,
  headers_pieces, header_pieces, line_pieces, port_pieces,
}

-- The text of a request: its line, its headers and an empty line, each before what follows it.
abbrev pub port_onto : Option Bytes → Bytes → Bytes
port_onto none rest = rest
port_onto (some port) rest = b':' ∷ (port ++ rest)

abbrev pub line_end : Bytes → Bytes
line_end rest = b'\r' ∷ b'\n' ∷ rest

unfoldable pub line_onto : RequestLine → Bytes → Bytes
line_onto l rest =
    l.method
    ++ (b' '
        ∷ (l.protocol
            ++ (b':'
                ∷ b'/'
                ∷ b'/'
                ∷ (l.host ++ port_onto l.port (l.path ++ (b' ' ∷ (l.version ++ line_end rest)))))))

abbrev pub header_onto : Option Bytes → Bytes → Bytes → Bytes
header_onto none value rest = rest
header_onto (some key) value rest = key ++ (b':' ∷ b' ' ∷ (value ++ line_end rest))

unfoldable pub headers_text : List ParsedHeader → Bytes
headers_text [] = line_end []
headers_text (h ∷ hs) = header_onto h.key h.value (headers_text hs)

abbrev pub full_text : RequestLine → List ParsedHeader → Bytes
full_text l hs = line_onto l (headers_text hs)

overlay-overlay :
    (a b p : Bytes) → length a ≤ length p → put (length a) b (overlay a p) ≡ overlay (a ++ b) p
unfolding overlay put
overlay-overlay [] b p h = refl
overlay-overlay (x ∷ a) b [] h = absurd (omega arith)
overlay-overlay (x ∷ a) b (y ∷ p) h = ap (λ t. x ∷ t) (overlay-overlay a b p (omega arith))

pub put-put :
    (o : ℕ) (a b p : Bytes)
    → o + length a ≤ length p
    → put (o + length a) b (put o a p) ≡ put o (a ++ b) p
unfolding put
put-put zero a b p h = rw zero_left (overlay-overlay a b p (omega arith))
  where
    zero_left : 0 + length a ≡ length a
    zero_left = omega arith
put-put (suc o) a b [] h = absurd (omega arith)
put-put (suc o) a b (y ∷ p) h = rw shift (ap (λ t. y ∷ t) (put-put o a b p (omega arith)))
  where
    shift : suc o + length a ≡ suc (o + length a)
    shift = omega arith

pub put_nil : (o : ℕ) (p : Bytes) → put o [] p ≡ p
unfolding put overlay
put_nil zero p = refl
put_nil (suc o) [] = refl
put_nil (suc o) (x ∷ p) = ap (λ t. x ∷ t) (put_nil o p)

pub overlay_front : (a p : Bytes) → length a ≤ length p → overlay a p ≡ a ++ drop (length a) p
unfolding overlay
overlay_front [] p h = refl
overlay_front (x ∷ a) [] h = absurd (omega arith)
overlay_front (x ∷ a) (y ∷ p) h = ap (λ t. x ∷ t) (overlay_front a p (omega arith))

pub write_all_lem :
    (o : ℕ) (pieces : List Bytes) (buf : Bytes)
    → o + length (joined pieces) ≤ length buf
    → write_all o pieces buf ≡ gives (o + length (joined pieces), put o (joined pieces) buf)
unfolding write_all joined
write_all_lem o [] buf h = rw (put_nil o buf) (ap (λ n. gives (n, buf)) (omega arith))
write_all_lem o (piece ∷ pieces) buf h =
    let fits : o + length piece ≤ length buf = omega (arith, length-append piece (joined pieces)) in
    elim (Bool-cases (leb (o + length piece) (length buf))) [
      | inl yes_fits ↦ rw yes_fits (
          write_all_lem (o + length piece) pieces (put o piece buf)
            (omega (arith, length-append piece (joined pieces), length-put o piece buf))
          ∙ rw (put-put o piece (joined pieces) buf fits) (
              ap (λ n. gives (n, put o (piece ++ joined pieces) buf))
                (omega (arith, length-append piece (joined pieces)))))
      | inr no_fits ↦ absurd (ground (arith, no_fits, fits))
    ]

joined-header :
    (key : Option Bytes) (value : Bytes) (pieces : List Bytes)
    → joined (header_pieces key value ++ pieces) ≡ header_onto key value (joined pieces)
unfolding joined
joined-header none value pieces = refl
joined-header (some key) value pieces = refl

pub joined-headers_pieces : (hs : List ParsedHeader) → joined (headers_pieces hs) ≡ headers_text hs
unfolding joined headers_pieces headers_text
joined-headers_pieces [] = refl
joined-headers_pieces (h ∷ hs) =
    joined-header h.key h.value (headers_pieces hs)
    ∙ ap (header_onto h.key h.value) (joined-headers_pieces hs)

port-append :
    (port : Option Bytes) (rest more : Bytes)
    → port_onto port rest ++ more ≡ port_onto port (rest ++ more)
port-append none rest more = refl
port-append (some port) rest more = ap (λ t. b':' ∷ t) (append_assoc port rest more)

joined-port :
    (port : Option Bytes) (pieces : List Bytes)
    → joined (port_pieces port ++ pieces) ≡ port_onto port (joined pieces)
unfolding joined
joined-port none pieces = refl
joined-port (some port) pieces = refl

pub joined-line_pieces : (l : RequestLine) → joined (line_pieces l) ≡ line_onto l []
unfolding joined line_onto
joined-line_pieces l = rw (joined-port l.port) refl

pub line-append : (l : RequestLine) (rest : Bytes) → line_onto l [] ++ rest ≡ line_onto l rest
unfolding line_onto
line-append l rest = simp (append_assoc, port-append)

length-port :
    (port : Option Bytes) (rest : Bytes)
    → length (port_onto port rest) ≡ port_len port + length rest
length-port none rest = omega arith
length-port (some port) rest = omega (arith, length-append port rest)

pub length-line : (l : RequestLine) → length (line_onto l []) ≡ line_len_of (some l)
unfolding line_onto
length-line l = omega (arith, length-append {0}, length-port)

length-header :
    (key : Option Bytes) (value rest : Bytes)
    → length (header_onto key value rest) ≡ key_line_len key value + length rest
length-header none value rest = omega arith
length-header (some key) value rest = omega (arith, length-append {0})

-- The sum of the lines' lengths does not overflow if the text is short.
pub add_line_lens_lem :
    (hs : List ParsedHeader) (len : ℕ)
    → len + length (headers_text hs) < 2 ^ 31
    → add_line_lens len hs + 2 ≡ len + length (headers_text hs)
unfolding add_line_lens headers_text
add_line_lens_lem [] len h = omega arith
add_line_lens_lem (h ∷ hs) len small =
    let line = parsed_header_line_len h in
    let all = length-header h.key h.value (headers_text hs) in
    let word : (len + line) % 2 ^ 32 ≡ len + line = omega arith in
    rw word (add_line_lens_lem hs (len + line) (omega arith) ∙ omega arith)
