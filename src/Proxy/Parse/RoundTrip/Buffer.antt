-- ===== src/Proxy/Parse/RoundTrip/Buffer.antt =====
-- The request line in the buffer of http-proxy/src/proxy_parse.c, and in the text.
use mathlib.Core.List.{append_assoc}
use computer_networks.Prelude.{
  ℕ, ◌≡◌, ◌≢◌, refl, ◌∙◌, ap, sym, Bool, false, Option, none, some, [], ◌∷◌, ◌++◌, All-append,
  arith,
}
use computer_networks.Prelude.Words.{Bytes}
use computer_networks.Proxy.Sockets.{gives}
use computer_networks.Proxy.Parse.Strings.{codes, starts_with, is_in}
use computer_networks.Proxy.Parse.Strings.Laws.{Avoids, strtok_word}
use computer_networks.Proxy.Parse.Headers.{RequestLine}
use computer_networks.Proxy.Parse.Request.{request_line, address}
use computer_networks.Proxy.Parse.Print.Text.{line_onto, port_onto, line_end}
use computer_networks.Proxy.Parse.RoundTrip.Line.{
  IsPath, IsLine, port_text, host_text, address_text, buf_text, IsWord-sub, host_text-Avoids,
  path-Avoids, append-ne-nil, address_lem,
}

address_text-Avoids :
    (ds : Bytes) (bad_port : Bytes → Bool) (l : RequestLine)
    → ((b : ℕ) → is_in (0 ∷ b'\r' ∷ codes " ") b ≡ false → is_in ds b ≡ false)
    → is_in ds b':' ≡ false
    → is_in ds b'/' ≡ false
    → IsLine bad_port l
    → Avoids ds (address_text l)
address_text-Avoids ds bad_port l weaker colon slash ok =
    All-append (λ b. is_in ds b ≡ false) l.protocol (b':' ∷ b'/' ∷ b'/' ∷ (host_text l ++ l.path))
      (IsWord-sub (codes " :/") ds l.protocol (λ b h. weaker b (ground arith)) ok.protocol)
      (
        colon,
        (
          slash,
          (
            slash,
            All-append (λ b. is_in ds b ≡ false) (host_text l) l.path
                (host_text-Avoids ds bad_port l (λ b h. weaker b (ground arith))
                  (λ b h. weaker b (ground arith)) colon ok)
                (path-Avoids ds l.path weaker slash ok.path),
          ),
        ),
      )

split_path :
    (path : Bytes)
    → IsPath path
    → (p : Bytes) × (path ≡ b'/' ∷ p)
      × Avoids (0 ∷ b'\r' ∷ codes " ") p
      × (starts_with (codes "/") p ≡ false)
split_path [] h = absurd h
split_path (x ∷ p) (e, clean, single) = (p, ap (λ b. b ∷ p) e, clean, single)

-- The line is read as it was printed.
pub request_line_lem :
    (bad_port : Bytes → Bool) (l : RequestLine)
    → IsLine bad_port l
    → request_line bad_port (buf_text l) ≡ gives (some l)
unfolding request_line
request_line_lem bad_port l ok =
    let (p, e, clean, single) = split_path l.path ok.path in
    let ne : address_text l ≢ [] =
      append-ne-nil l.protocol (b':' ∷ b'/' ∷ b'/' ∷ (host_text l ++ l.path)) ok.protocol.0 in
    let no_space : Avoids (codes " ") (address_text l) =
      address_text-Avoids (codes " ") bad_port l (λ b h. ground arith) refl refl ok in
    rw
      (
        strtok_word (codes " ") l.method b' ' (address_text l ++ b' ' ∷ l.version) ok.method.0
            (IsWord-sub (codes " ") (codes " ") l.method (λ b h. ground arith) ok.method) refl,
        strtok_word (codes " ") (address_text l) b' ' l.version ne no_space refl,
        ok.http,
      )
      (ap
          (λ path.
            address bad_port l.method (l.protocol ++ (b':' ∷ b'/' ∷ b'/' ∷ (host_text l ++ path)))
              l.version)
          e
        ∙ address_lem bad_port l p ok e clean single
        ∙ ap (λ path. gives (some (record l { path = path }))) (sym e))

port-split : (port : Option Bytes) (rest : Bytes) → port_onto port rest ≡ port_text port ++ rest
port-split none rest = refl
port-split (some port) rest = refl

-- The text is the line, "\r\n" and what follows.
pub line_onto-split :
    (l : RequestLine) (rest : Bytes) → line_onto l rest ≡ buf_text l ++ line_end rest
unfolding line_onto
line_onto-split l rest = simp (append_assoc, port-split)

pub buf_text-Avoids :
    (bad_port : Bytes → Bool) (l : RequestLine)
    → IsLine bad_port l
    → Avoids (0 ∷ b'\r' ∷ []) (buf_text l)
buf_text-Avoids bad_port l ok =
    All-append (λ b. is_in (0 ∷ b'\r' ∷ []) b ≡ false) l.method
      (b' ' ∷ (address_text l ++ b' ' ∷ l.version))
      (IsWord-sub (codes " ") (0 ∷ b'\r' ∷ []) l.method (λ b h. ground arith) ok.method)
      (
        refl,
        All-append (λ b. is_in (0 ∷ b'\r' ∷ []) b ≡ false) (address_text l) (b' ' ∷ l.version)
            (address_text-Avoids (0 ∷ b'\r' ∷ []) bad_port l (λ b h. ground arith) refl refl ok)
            (refl, ok.version),
      )
