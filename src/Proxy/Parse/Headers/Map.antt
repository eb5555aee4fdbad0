-- ===== src/Proxy/Parse/Headers/Map.antt =====
-- The headers of http-proxy/src/proxy_parse.c as a map from keys to values.
use mathlib.Core.Option
use computer_networks.Prelude.{
  ℕ, zero, suc, ◌≡◌, refl, ◌∙◌, ap, inl, inr, true, false, Option, none, some, List, [], ◌∷◌, ◌++◌,
  if◌then◌else◌, length, Bool-cases, arith,
}
use computer_networks.Prelude.Words.{Bytes}
use computer_networks.Proxy.Parse.Strings.{same_text}
use computer_networks.Proxy.Parse.Headers.{
  ParsedHeader, ParsedRequest, has_key, header_at, parsed_header_get, clear_at, new_header,
}

pub same_text_self : (a : Bytes) → same_text a a ≡ true
unfolding same_text
same_text_self [] = refl
same_text_self (x ∷ a) = ground (arith, same_text_self a)

pub same_text→eq : (a b : Bytes) → same_text a b ≡ true → a ≡ b
unfolding same_text
same_text→eq [] [] h = refl
same_text→eq [] (y ∷ b) h = cc
same_text→eq (x ∷ a) [] h = cc
same_text→eq (x ∷ a) (y ∷ b) h = ground (arith, same_text→eq a b)

-- The value that the pointer to a header leads to.
abbrev pub value_at : List ParsedHeader → Option ℕ → Option Bytes
value_at hs none = none
value_at [] (some i) = none
value_at (h ∷ hs) (some zero) = some h.value
value_at (h ∷ hs) (some (suc i)) = value_at hs (some i)

abbrev pub value_of : ParsedRequest → Bytes → Option Bytes
value_of pr key = value_at pr.headers (parsed_header_get pr key)

unfoldable pub found : List ParsedHeader → Bytes → Option Bytes
found hs key = value_at hs (header_at hs key)

pub found-cons :
    (h : ParsedHeader) (hs : List ParsedHeader) (key : Bytes)
    → found (h ∷ hs) key ≡ (if has_key key h.key then some h.value else found hs key)
unfolding found header_at
found-cons h hs key = elim (Bool-cases (has_key key h.key)) [
  | inl here ↦ rw here refl
  | inr on ↦ rw on (value_at-suc (header_at hs key))
]
  where
    value_at-suc : (o : Option ℕ) → value_at (h ∷ hs) (Option.map (λ i. suc i) o) ≡ value_at hs o
    value_at-suc none = refl
    value_at-suc (some i) = refl

-- No two headers have one key.
abbrev pub IsFresh : Option Bytes → List ParsedHeader → Type 0
IsFresh none hs = Unit
IsFresh (some k) hs = found hs k ≡ none

abbrev pub IsUnique : List ParsedHeader → Type 0
IsUnique [] = Unit
IsUnique (h ∷ hs) = IsFresh h.key hs × IsUnique hs

abbrev pub without : List ParsedHeader → Bytes → List ParsedHeader
without [] key = []
without (h ∷ hs) key =
    if has_key key h.key then (record h { key = none }) ∷ hs else h ∷ without hs key

has_key→eq : (key : Bytes) (o : Option Bytes) → has_key key o ≡ true → o ≡ some key
has_key→eq key none e = cc
has_key→eq key (some k) e = ap some (same_text→eq k key e)

IsFresh-found :
    (o : Option Bytes) (hs : List ParsedHeader) (key : Bytes)
    → IsFresh o hs
    → o ≡ some key
    → found hs key ≡ none
IsFresh-found none hs key fresh e = cc
IsFresh-found (some k) hs key fresh e = ground (arith, fresh)

pub same_text_sym : (a b : Bytes) → same_text a b ≡ same_text b a
unfolding same_text
same_text_sym [] [] = refl
same_text_sym [] (y ∷ b) = refl
same_text_sym (x ∷ a) [] = refl
same_text_sym (x ∷ a) (y ∷ b) = ground (arith, same_text_sym a b)

pub found-without :
    (hs : List ParsedHeader) (key j : Bytes)
    → IsUnique hs
    → found (without hs key) j ≡ (if same_text key j then none else found hs j)
found-without [] key j u = elim (Bool-cases (same_text key j)) [
  | inl same ↦ rw same (unfold found header_at in refl)
  | inr other ↦ rw other refl
]
found-without (h ∷ hs) key j (fresh, u) = elim (Bool-cases (has_key key h.key)) [
  | inl here ↦
      let gone = IsFresh-found h.key hs key fresh (has_key→eq key h.key here) in
      elim (Bool-cases (same_text key j)) [
        | inl same ↦ rw (here, same, found-cons, ← (same_text→eq key j same)) gone
        | inr other ↦
            rw (here, other, found-cons, found-cons, has_key→eq key h.key here, other) refl
      ]
  | inr on ↦ elim (Bool-cases (same_text key j)) [
    | inl same ↦
        rw
          (
            on,
            same,
            found-cons,
            ← (same_text→eq key j same),
            on,
            found-without hs key key u,
            same_text_self key,
          )
          refl
    | inr other ↦ rw (on, other, found-cons, found-cons, found-without hs key j u, other) refl
  ]
]

abbrev pub cleared_list : List ParsedHeader → Option ℕ → List ParsedHeader
cleared_list hs none = hs
cleared_list hs (some i) = clear_at i hs

pub clear-without :
    (hs : List ParsedHeader) (key : Bytes) → cleared_list hs (header_at hs key) ≡ without hs key
unfolding header_at
clear-without [] key = refl
clear-without (h ∷ hs) key = elim (Bool-cases (has_key key h.key)) [
  | inl here ↦ rw here refl
  | inr on ↦ rw on (behind (header_at hs key) ∙ ap (λ t. h ∷ t) (clear-without hs key))
]
  where
    behind :
        (o : Option ℕ) → cleared_list (h ∷ hs) (Option.map (λ i. suc i) o) ≡ h ∷ cleared_list hs o
    behind none = refl
    behind (some i) = refl

IsFresh-without :
    (o : Option Bytes) (hs : List ParsedHeader) (key : Bytes)
    → IsUnique hs
    → IsFresh o hs
    → IsFresh o (without hs key)
IsFresh-without none hs key u fresh = tt
IsFresh-without (some k) hs key u fresh = ground (arith, found-without hs key k u)

pub IsUnique-without :
    (hs : List ParsedHeader) (key : Bytes) → IsUnique hs → IsUnique (without hs key)
IsUnique-without [] key u = tt
IsUnique-without (h ∷ hs) key (fresh, u) = elim (Bool-cases (has_key key h.key)) [
  | inl here ↦ rw here (tt, u)
  | inr on ↦ rw on (IsFresh-without h.key hs key u fresh, IsUnique-without hs key u)
]

pub length-without : (hs : List ParsedHeader) (key : Bytes) → length (without hs key) ≡ length hs
length-without [] key = refl
length-without (h ∷ hs) key = ground (arith, length-without hs key)

abbrev pub or_else : Option Bytes → Option Bytes → Option Bytes
or_else none o = o
or_else (some v) o = some v

pub found-append :
    (hs : List ParsedHeader) (h : ParsedHeader) (j : Bytes)
    → found (hs ++ h ∷ []) j ≡ or_else (found hs j) (if has_key j h.key then some h.value else none)
found-append [] h j = unfold found header_at in found-cons h [] j
found-append (x ∷ hs) h j = elim (Bool-cases (has_key j x.key)) [
  | inl here ↦ rw (found-cons, found-cons, here) refl
  | inr on ↦ rw (found-cons, found-cons, on) (found-append hs h j)
]

IsFresh-append :
    (o : Option Bytes) (hs : List ParsedHeader) (key value : Bytes)
    → IsFresh o hs
    → has_key key o ≡ false
    → IsFresh o (hs ++ new_header key value ∷ [])
IsFresh-append none hs key value fresh other = tt
IsFresh-append (some k) hs key value fresh other =
    rw (found-append hs (new_header key value) k, fresh, ← (same_text_sym k key), other) refl

pub IsUnique-append :
    (hs : List ParsedHeader) (key value : Bytes)
    → IsUnique hs
    → found hs key ≡ none
    → IsUnique (hs ++ new_header key value ∷ [])
IsUnique-append [] key value u absent = (unfold found header_at in refl, tt)
IsUnique-append (h ∷ hs) key value (fresh, u) absent = elim (Bool-cases (has_key key h.key)) [
  | inl here ↦ let clash = rw (found-cons, here) at absent in cc
  | inr on ↦ (
    IsFresh-append h.key hs key value fresh on,
    IsUnique-append hs key value u (rw (found-cons, on) at absent),
  )
]
