-- ===== src/Proxy/Parse/RoundTrip/Line.antt =====
-- The request line of a text, by http-proxy/src/proxy_parse.c.
use computer_networks.Prelude.{
  ℕ, ◌≡◌, ◌≢◌, refl, ap, Bool, true, false, Option, none, some, [], ◌∷◌, ◌++◌, ◌==◌, length,
  length-append, ne→==, All-append, arith,
}
use mathlib.Core.List.{append_assoc, append-nil}
use computer_networks.Prelude.Words.{Bytes}
use computer_networks.Prelude.Words.Slices.{drop-append, drop-add}
use computer_networks.Proxy.Sockets.{gives}
use computer_networks.Proxy.Parse.Strings.{codes, starts_with, is_in, strtok_r}
use computer_networks.Proxy.Parse.Strings.Laws.{
  Avoids, strtok_word, strtok_all, strtok_skip, strtok_mark_word, c_string_word, Avoids-sub,
}
use computer_networks.Proxy.Parse.Headers.{RequestLine}
use computer_networks.Proxy.Parse.Request.{abs_uri_len, authority, address, path_of}

-- A text that is not empty, and avoids the bytes, 0 and "\r".
abbrev pub IsWord : Bytes → Bytes → Type 0
IsWord ds t = (t ≢ []) × Avoids (0 ∷ b'\r' ∷ ds) t

abbrev pub IsPort : (Bytes → Bool) → Option Bytes → Type 0
IsPort bad_port none = Unit
IsPort bad_port (some port) = IsWord (codes " /") port × (bad_port port ≡ false)

-- One slash, and what does not begin with another one.
abbrev pub IsPath : Bytes → Type 0
IsPath [] = ⊥
IsPath (b ∷ p) = (b ≡ b'/') × Avoids (0 ∷ b'\r' ∷ codes " ") p × (starts_with (codes "/") p ≡ false)

-- A request line that is parsed as it was printed.
pub record IsLine (bad_port : Bytes → Bool) (l : RequestLine) : Type 0 where
  pub method : IsWord (codes " ") l.method
  pub protocol : IsWord (codes " :/") l.protocol
  pub host : IsWord (codes " :/") l.host
  pub port : IsPort bad_port l.port
  pub path : IsPath l.path
  pub version : Avoids (0 ∷ b'\r' ∷ []) l.version
  pub http : starts_with (codes "HTTP/") l.version ≡ true

-- The parts of the line as the parser cuts them.
abbrev pub port_text : Option Bytes → Bytes
port_text none = []
port_text (some port) = b':' ∷ port

abbrev pub host_text : RequestLine → Bytes
host_text l = l.host ++ port_text l.port

abbrev pub address_text : RequestLine → Bytes
address_text l = l.protocol ++ (b':' ∷ b'/' ∷ b'/' ∷ (host_text l ++ l.path))

abbrev pub buf_text : RequestLine → Bytes
buf_text l = l.method ++ (b' ' ∷ (address_text l ++ (b' ' ∷ l.version)))

pub IsWord-sub :
    (ds es t : Bytes)
    → ((b : ℕ) → is_in (0 ∷ b'\r' ∷ ds) b ≡ false → is_in es b ≡ false)
    → IsWord ds t
    → Avoids es t
IsWord-sub ds es t weaker word = Avoids-sub (0 ∷ b'\r' ∷ ds) es t weaker word.1

authority_lem :
    (bad_port : Bytes → Bool) (method protocol version path host : Bytes) (port : Option Bytes)
    → IsWord (codes " :/") host
    → IsPort bad_port port
    → authority bad_port method protocol version path (host ++ port_text port)
      ≡ gives (
          some (record {
            method = method;
            protocol = protocol;
            host = host;
            port = port;
            path = path;
            version = version;
          }))
unfolding authority
authority_lem bad_port method protocol version path host none word ok =
    rw
      (
        append-nil host,
        strtok_all (codes ":") host word.0
            (IsWord-sub (codes " :/") (codes ":") host (λ b h. ground arith) word),
      )
      (unfold strtok_r in refl)
authority_lem bad_port method protocol version path host (some port) word (ok, good) =
    rw
      (
        strtok_word (codes ":") host b':' port word.0
            (IsWord-sub (codes " :/") (codes ":") host (λ b h. ground arith) word) refl,
        strtok_all (codes "/") port ok.0
            (IsWord-sub (codes " /") (codes "/") port (λ b h. ground arith) ok),
        good,
      )
      refl

path_lem :
    (p : Bytes)
    → Avoids (0 ∷ b'\r' ∷ codes " ") p
    → starts_with (codes "/") p ≡ false
    → path_of (strtok_r (codes " ") p) ≡ some (b'/' ∷ p)
path_lem [] ok single = unfold strtok_r in refl
path_lem (x ∷ p) ok single =
    rw
      (
        strtok_all (codes " ") (x ∷ p) (λ e. cc)
            (Avoids-sub (0 ∷ b'\r' ∷ codes " ") (codes " ") (x ∷ p) (λ b h. ground arith) ok),
        single,
      )
      refl

abs_uri_len_lem :
    (protocol rest version : Bytes)
    → IsWord (codes " :/") protocol
    → Avoids (0 ∷ []) rest
    → abs_uri_len (protocol ++ (b':' ∷ b'/' ∷ b'/' ∷ rest)) version protocol ≡ length rest
abs_uri_len_lem protocol rest version word clean =
    rw
      (
        strtok_mark_word (codes "://") protocol b':' (b'/' ∷ b'/' ∷ rest) word.0
            (IsWord-sub (codes " :/") (codes "://") protocol (λ b h. ground arith) word) refl,
        append_assoc protocol,
        append_assoc protocol,
        ← (drop-add (length protocol) 3),
        drop-append protocol,
        append_assoc rest,
      )
      (ap length (c_string_word rest (version ++ 0 ∷ []) clean))

pub append-ne-nil : (a b : Bytes) → a ≢ [] → a ++ b ≢ []
append-ne-nil [] b ne = absurd (ne refl)
append-ne-nil (x ∷ a) b ne = λ e. cc

pub host_text-Avoids :
    (ds : Bytes) (bad_port : Bytes → Bool) (l : RequestLine)
    → ((b : ℕ) → is_in (0 ∷ b'\r' ∷ codes " :/") b ≡ false → is_in ds b ≡ false)
    → ((b : ℕ) → is_in (0 ∷ b'\r' ∷ codes " /") b ≡ false → is_in ds b ≡ false)
    → is_in ds b':' ≡ false
    → IsLine bad_port l
    → Avoids ds (host_text l)
host_text-Avoids ds bad_port l in_host in_port colon ok =
    All-append (λ b. is_in ds b ≡ false) l.host (port_text l.port)
      (IsWord-sub (codes " :/") ds l.host in_host ok.host) (of_port l.port ok.port)
  where
    of_port : (port : Option Bytes) → IsPort bad_port port → Avoids ds (port_text port)
    of_port none h = tt
    of_port (some port) h = (colon, IsWord-sub (codes " /") ds port in_port h.0)

pub path-Avoids :
    (ds path : Bytes)
    → ((b : ℕ) → is_in (0 ∷ b'\r' ∷ codes " ") b ≡ false → is_in ds b ≡ false)
    → is_in ds b'/' ≡ false
    → IsPath path
    → Avoids ds path
path-Avoids ds [] weaker slash h = tt
path-Avoids ds (x ∷ p) weaker slash (e, h, single) =
    (rw e slash, Avoids-sub (0 ∷ b'\r' ∷ codes " ") ds p weaker h)

pub address_lem :
    (bad_port : Bytes → Bool) (l : RequestLine) (p : Bytes)
    → IsLine bad_port l
    → l.path ≡ b'/' ∷ p
    → Avoids (0 ∷ b'\r' ∷ codes " ") p
    → starts_with (codes "/") p ≡ false
    → address bad_port l.method
        (l.protocol ++ (b':' ∷ b'/' ∷ b'/' ∷ (host_text l ++ b'/' ∷ p)))
        l.version
      ≡ gives (some (record l { path = b'/' ∷ p }))
unfolding address
address_lem bad_port l p ok e clean single =
    let ne : host_text l ≢ [] = append-ne-nil l.host (port_text l.port) ok.host.0 in
    let no_slash : Avoids (codes "/") (host_text l) =
      host_text-Avoids (codes "/") bad_port l (λ b h. ground arith) (λ b h. ground arith) refl ok in
    let no_zero : Avoids (0 ∷ []) (host_text l ++ b'/' ∷ p) =
      All-append (λ b. is_in (0 ∷ []) b ≡ false) (host_text l) (b'/' ∷ p)
        (host_text-Avoids (0 ∷ []) bad_port l (λ b h. ground arith) (λ b h. ground arith) refl ok)
        (refl, Avoids-sub (0 ∷ b'\r' ∷ codes " ") (0 ∷ []) p (λ b h. ground arith) clean) in
    let longer : (length (host_text l) == length (host_text l ++ b'/' ∷ p)) ≡ false =
      ne→== (length (host_text l)) (length (host_text l ++ b'/' ∷ p))
        (λ same. absurd (omega (arith, same, length-append (host_text l) (b'/' ∷ p)))) in
    rw
      (
        strtok_word (codes "://") l.protocol b':' (b'/' ∷ b'/' ∷ (host_text l ++ b'/' ∷ p))
            ok.protocol.0
            (IsWord-sub (codes " :/") (codes "://") l.protocol (λ b h. ground arith) ok.protocol)
            refl,
        strtok_skip (codes "/") b'/' (b'/' ∷ (host_text l ++ b'/' ∷ p)) refl,
        strtok_skip (codes "/") b'/' (host_text l ++ b'/' ∷ p) refl,
        strtok_word (codes "/") (host_text l) b'/' p ne no_slash refl,
        abs_uri_len_lem l.protocol (host_text l ++ b'/' ∷ p) l.version ok.protocol no_zero,
        longer,
        path_lem p clean single,
        authority_lem bad_port l.method l.protocol l.version (b'/' ∷ p) l.host l.port ok.host
            ok.port,
      )
      refl
