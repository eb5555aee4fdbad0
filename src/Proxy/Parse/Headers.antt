-- ===== src/Proxy/Parse/Headers.antt =====
-- The headers of a request: ParsedHeader_set, _get, _remove, _create, _destroy and _parse of
-- http-proxy/src/proxy_parse.c. The list holds the used entries of the array `headers`; allocation
-- does not fail, and what is freed is only not read again.
pub mod Map
pub mod Refine
use computer_networks.Prelude.{
  ℕ, zero, suc, ◌+◌, ◌*◌, ◌≡◌, Bool, true, false, Option, none, some, List, [], ◌∷◌, ◌++◌, leb,
  if◌then◌else◌, length, drop,
}
use computer_networks.Prelude.Words.{Bytes}
use computer_networks.Proxy.Sockets.{Run, gives, faults}
use computer_networks.Proxy.Parse.Strings.{codes, same_text, strstr, index}
use mathlib.Core.Option

pub record ParsedHeader : Type 0 where
  pub key : Option Bytes
  pub keylen : ℕ
  pub value : Bytes
  pub valuelen : ℕ

-- The request line, whose fields `ParsedRequest_parse` sets together.
pub record RequestLine : Type 0 where
  pub method : Bytes
  pub protocol : Bytes
  pub host : Bytes
  pub port : Option Bytes
  pub path : Bytes
  pub version : Bytes

-- There is no line as long as `buf` is NULL. `headersused` is the length of the list.
pub record ParsedRequest : Type 0 where
  pub line : Option RequestLine
  pub headers : List ParsedHeader
  pub headerslen : ℕ

abbrev pub default_nhdrs : ℕ
default_nhdrs = 8

unfoldable pub parsed_header_create : ParsedRequest → ParsedRequest
parsed_header_create pr = record pr { headers = []; headerslen = default_nhdrs }

unfoldable pub parsed_request_create : ParsedRequest
unfolding parsed_header_create
parsed_request_create = parsed_header_create (record { line = none; headers = []; headerslen = 0 })

abbrev pub has_key : Bytes → Option Bytes → Bool
has_key key none = false
has_key key (some k) = same_text k key

unfoldable pub header_at : List ParsedHeader → Bytes → Option ℕ
unfolding same_text
header_at [] key = none
header_at (h ∷ hs) key = if has_key key h.key then some 0 else Option.map suc (header_at hs key)

-- The index of the header, for the pointer to it.
unfoldable pub parsed_header_get : ParsedRequest → Bytes → Option ℕ
unfolding header_at
parsed_header_get pr key = header_at pr.headers key

abbrev pub clear_at : ℕ → List ParsedHeader → List ParsedHeader
clear_at i [] = []
clear_at zero (h ∷ hs) = (record h { key = none }) ∷ hs
clear_at (suc i) (h ∷ hs) = h ∷ clear_at i hs

abbrev pub cleared : ParsedRequest → Option ℕ → Bool × ParsedRequest
cleared pr none = (false, pr)
cleared pr (some i) = (true, record pr { headers = clear_at i pr.headers })

-- Whether it gives 0, and not -1.
unfoldable pub parsed_header_remove : ParsedRequest → Bytes → Bool × ParsedRequest
unfolding parsed_header_get
parsed_header_remove pr key = cleared pr (parsed_header_get pr key)

abbrev pub new_header : Bytes → Bytes → ParsedHeader
new_header key value = record {
  key = some key;
  keylen = length key + 1;
  value = value;
  valuelen = length value + 1;
}

-- Entry `headersused` of the array is written.
unfoldable pub parsed_header_set : ParsedRequest → Bytes → Bytes → ParsedRequest
unfolding parsed_header_remove
parsed_header_set pr key value =
    let kept = (parsed_header_remove pr key).1 in
    record kept {
      headers = kept.headers ++ new_header key value ∷ [];
      headerslen =
          if leb kept.headerslen (length kept.headers + 1)
          then kept.headerslen * 2
          else kept.headerslen;
    }

unfoldable pub parsed_header_destroy : ParsedRequest → ParsedRequest
parsed_header_destroy pr = record pr { headers = []; headerslen = 0 }

-- The end of the value, which is searched for in what may be several lines.
abbrev pub set_found : ParsedRequest → Bytes → Option (Bytes × Bytes) → Run (Bool × ParsedRequest)
set_found pr key none = faults
set_found pr key (some found) = gives (true, parsed_header_set pr key found.0)

-- From the value on: `rest` is what stands behind the colon and the byte that follows it.
abbrev pub set_value : ParsedRequest → Bytes → Bytes → Run (Bool × ParsedRequest)
set_value pr key [] = faults
set_value pr key (b ∷ rest) = set_found pr key (strstr (codes "\r\n") (b ∷ rest))

abbrev pub header_of : ParsedRequest → Option (Bytes × Bytes) → Run (Bool × ParsedRequest)
header_of pr none = gives (false, pr)
header_of pr (some found) = set_value pr found.0 (drop 2 found.1)

-- The header at `line`, which may go on behind the line. A pointer behind the block is read, or the
-- difference to a NULL pointer taken, in a fault.
unfoldable pub parsed_header_parse : ParsedRequest → Bytes → Run (Bool × ParsedRequest)
parsed_header_parse pr line = header_of pr (index b':' line)
