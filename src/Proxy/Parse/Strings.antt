-- ===== src/Proxy/Parse/Strings.antt =====
-- What http-proxy/src/proxy_parse.c and proxy.c use of the C library's strings. A pointer is what its
-- block holds from there on, and a string ends at its first 0.
pub mod Laws
use Prim.Native.Char.{code}
use Prim.Native.String.{String}
use computer_networks.Prelude.{
  ℕ, ◌≡◌, refl, ap, Bool, true, false, ◌||◌, Option, none, some, List, [], ◌∷◌, ◌++◌, ◌==◌,
  if◌then◌else◌,
}
use computer_networks.Prelude.Words.{Bytes}
use mathlib.Core.Option

-- The bytes of a literal, without the 0 at its end.
abbrev pub codes : String → Bytes
codes String.[] = []
codes (String.◌∷◌ c s) = code c ∷ codes s

-- The bytes up to the first 0.
unfoldable pub c_string : Bytes → Bytes
c_string [] = []
c_string (b ∷ p) = if b == 0 then [] else b ∷ c_string p

-- `strcmp` gives 0.
unfoldable pub same_text : Bytes → Bytes → Bool
same_text [] [] = true
same_text [] (b ∷ bs) = false
same_text (a ∷ p) [] = false
same_text (a ∷ p) (b ∷ bs) = if a == b then same_text p bs else false

-- `strncmp(p, prefix, strlen(prefix))` gives 0.
unfoldable pub starts_with : Bytes → Bytes → Bool
starts_with [] p = true
starts_with (a ∷ prefix) [] = false
starts_with (a ∷ prefix) (b ∷ p) = if a == b then starts_with prefix p else false

-- `strstr(p, pattern)`: what stands before the match, and the pointer to it.
unfoldable pub strstr : Bytes → Bytes → Option (Bytes × Bytes)
unfolding starts_with
strstr pattern [] = none
strstr pattern (b ∷ p) =
    if starts_with pattern (b ∷ p)
    then some ([], b ∷ p)
    else if b == 0
    then none
    else Option.map (λ found. (b ∷ found.0, found.1)) (strstr pattern p)

-- `index(p, c)`, in the same way.
unfoldable pub index : ℕ → Bytes → Option (Bytes × Bytes)
unfolding strstr
index c p = strstr (c ∷ []) p

abbrev pub is_in : Bytes → ℕ → Bool
is_in [] b = false
is_in (d ∷ delims) b = b == d || is_in delims b

-- A token, and the string behind the delimiter that ends it. There is none if the token ends where
-- the string does.
abbrev pub Token : Type 0
Token = Bytes × Option Bytes

unfoldable pub skip : Bytes → Bytes → Bytes
skip delims [] = []
skip delims (b ∷ p) = if is_in delims b then skip delims p else b ∷ p

unfoldable pub cut : Bytes → Bytes → Token
cut delims [] = ([], none)
cut delims (b ∷ p) =
    let rest = cut delims p in if is_in delims b then ([], some p) else (b ∷ rest.0, rest.1)

abbrev pub token_of : Bytes → Bytes → Option Token
token_of delims [] = none
token_of delims (b ∷ p) = some (cut delims (b ∷ p))

-- `strtok_r` of a string.
unfoldable pub strtok_r : Bytes → Bytes → Option Token
unfolding skip cut
strtok_r delims p = token_of delims (skip delims p)

-- The string at `saveptr`, for `strtok_r(NULL, ...)`.
abbrev pub saved : Option Bytes → Bytes
saved none = []
saved (some p) = p

-- What `strtok_r` leaves of its string: a 0 in the place of the delimiter behind the token.
unfoldable pub cut_mark : Bytes → Bytes → Bytes
cut_mark delims [] = []
cut_mark delims (b ∷ p) = let rest = cut_mark delims p in if is_in delims b then 0 ∷ p else b ∷ rest

unfoldable pub strtok_mark : Bytes → Bytes → Bytes
unfolding cut_mark
strtok_mark delims [] = []
strtok_mark delims (b ∷ p) =
    let rest = strtok_mark delims p in if is_in delims b then b ∷ rest else cut_mark delims (b ∷ p)
