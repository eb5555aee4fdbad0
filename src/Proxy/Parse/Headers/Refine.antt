-- ===== src/Proxy/Parse/Headers/Refine.antt =====
-- ParsedHeader_set and ParsedHeader_remove of http-proxy/src/proxy_parse.c against a map.
use mathlib.Core.Path.{fun_ext, ap₂}
use mathlib.Core.Option
use computer_networks.Prelude.{
  ℕ, suc, ◌<◌, ◌≡◌, refl, ◌∙◌, ap, sym, inl, inr, Bool, true, false, Option, none, some, List, [],
  ◌∷◌, ◌++◌, if◌then◌else◌, length, length-append, Bool-cases, arith,
}
use computer_networks.Prelude.Words.{Bytes}
use computer_networks.Proxy.Parse.Strings.{same_text}
use computer_networks.Proxy.Parse.Headers.{
  ParsedHeader, ParsedRequest, has_key, header_at, parsed_header_get, cleared, parsed_header_remove,
  new_header, parsed_header_set,
}
use computer_networks.Proxy.Parse.Headers.Map.{
  value_of, found, IsUnique, without, found-without, cleared_list, clear-without, IsUnique-without,
  length-without, or_else, found-append, found-cons, IsUnique-append, same_text_self,
}

-- The keys differ, and the array has room for one header more than there are.
pub record IsRequest (pr : ParsedRequest) : Type 0 where
  pub unique : IsUnique pr.headers
  pub room : length pr.headers < pr.headerslen

abbrev pub is_some : Option Bytes → Bool
is_some none = false
is_some (some v) = true

was_found : Option ℕ → Bool
was_found none = false
was_found (some i) = true

found-was_found :
    (hs : List ParsedHeader) (key : Bytes) → was_found (header_at hs key) ≡ is_some (found hs key)
unfolding header_at was_found
found-was_found [] key = unfold found in refl
found-was_found (h ∷ hs) key = elim (Bool-cases (has_key key h.key)) [
  | inl here ↦ rw (found-cons, here) refl
  | inr on ↦ rw (found-cons, on) (behind (header_at hs key) ∙ found-was_found hs key)
]
  where
    behind : (o : Option ℕ) → was_found (Option.map (λ i. suc i) o) ≡ was_found o
    behind none = refl
    behind (some i) = refl

cleared_lem :
    (pr : ParsedRequest) (o : Option ℕ)
    → cleared pr o ≡ (was_found o, record pr { headers = cleared_list pr.headers o })
unfolding was_found
cleared_lem pr none = refl
cleared_lem pr (some i) = refl

pub remove_lem :
    (pr : ParsedRequest) (key : Bytes)
    → parsed_header_remove pr key
      ≡ (is_some (value_of pr key), record pr { headers = without pr.headers key })
unfolding parsed_header_remove parsed_header_get
remove_lem pr key =
    cleared_lem pr (header_at pr.headers key)
    ∙ rw (found-was_found pr.headers key, clear-without pr.headers key) (unfold found in refl)

-- What the pointer of a header leads to, as a value.
pub value_of-found : (pr : ParsedRequest) → value_of pr ≡ found pr.headers
unfolding found parsed_header_get
value_of-found pr = refl

-- The map after a removal, and after a write.
abbrev pub erased : Bytes → (Bytes → Option Bytes) → Bytes → Option Bytes
erased key m j = if same_text key j then none else m j

abbrev pub written : Bytes → Bytes → (Bytes → Option Bytes) → Bytes → Option Bytes
written key value m j = if same_text key j then some value else m j

value_of-without :
    (pr : ParsedRequest) (key : Bytes)
    → IsUnique pr.headers
    → found (without pr.headers key) ≡ erased key (found pr.headers)
value_of-without pr key u = fun_ext (λ j. found-without pr.headers key j u)

value_of-set :
    (hs : List ParsedHeader) (key value : Bytes)
    → IsUnique hs
    → found (without hs key ++ new_header key value ∷ []) ≡ written key value (found hs)
value_of-set hs key value u = fun_ext (λ j.
    found-append (without hs key) (new_header key value) j ∙ (elim (Bool-cases (same_text key j)) [
      | inl same ↦ rw (found-without hs key j u, same) refl
      | inr other ↦ rw (found-without hs key j u, other) (unset (found hs j))
    ]))
  where
    unset : (o : Option Bytes) → or_else o none ≡ o
    unset none = refl
    unset (some v) = refl

set_lem :
    (pr : ParsedRequest) (key value : Bytes)
    → IsRequest pr
    → (value_of (parsed_header_set pr key value) ≡ written key value (value_of pr))
      × IsRequest (parsed_header_set pr key value)
unfolding parsed_header_set
set_lem pr key value ok =
    let hs = pr.headers in
    rw (remove_lem pr key) (
      value_of-found (record pr { headers = without hs key ++ new_header key value ∷ [] })
          ∙ value_of-set hs key value ok.unique
          ∙ ap (written key value) (sym (value_of-found pr)),
      record {
        unique =
            IsUnique-append (without hs key) key value (IsUnique-without hs key ok.unique)
              (found-without hs key key ok.unique ∙ rw (same_text_self key) refl);
        room = ground (
          arith,
          length-append (without hs key) (new_header key value ∷ []),
          length-without hs key,
        );
      },
    )

pub data HeaderCall : Type 0 where
  set : Bytes → Bytes → HeaderCall
  remove : Bytes → HeaderCall

-- Calls one after the other: the results, whether 0, and the request behind them.
abbrev pub call : HeaderCall → ParsedRequest → Bool × ParsedRequest
call (set key value) pr = (true, parsed_header_set pr key value)
call (remove key) pr = parsed_header_remove pr key

abbrev pub calls : List HeaderCall → ParsedRequest → List Bool × ParsedRequest
calls [] pr = ([], pr)
calls (c ∷ cs) pr =
    let first = call c pr in let rest = calls cs first.1 in (first.0 ∷ rest.0, rest.1)

abbrev pub map_call : HeaderCall → (Bytes → Option Bytes) → Bool × (Bytes → Option Bytes)
map_call (set key value) m = (true, written key value m)
map_call (remove key) m = (is_some (m key), erased key m)

abbrev pub map_calls : List HeaderCall → (Bytes → Option Bytes) → List Bool × (Bytes → Option Bytes)
map_calls [] m = ([], m)
map_calls (c ∷ cs) m =
    let first = map_call c m in let rest = map_calls cs first.1 in (first.0 ∷ rest.0, rest.1)

call-refines :
    (c : HeaderCall) (pr : ParsedRequest)
    → IsRequest pr
    → ((call c pr).0 ≡ (map_call c (value_of pr)).0)
      × (value_of (call c pr).1 ≡ (map_call c (value_of pr)).1)
      × IsRequest (call c pr).1
call-refines (set key value) pr ok =
    let (meets, ok') = set_lem pr key value ok in (refl, meets, ok')
call-refines (remove key) pr ok = rw (remove_lem pr key) (
  refl,
  value_of-found (record pr { headers = without pr.headers key })
      ∙ value_of-without pr key ok.unique
      ∙ ap (erased key) (sym (value_of-found pr)),
  record {
    unique = IsUnique-without pr.headers key ok.unique;
    room = omega (arith, length-without pr.headers key);
  },
)

-- Any calls of ParsedHeader_set and ParsedHeader_remove give what they give on a map from keys to
-- values, which is what ParsedHeader_get then finds; and the array always has room for a header more,
-- so that none is written behind its end.
pub calls_refine :
    (cs : List HeaderCall) (pr : ParsedRequest)
    → IsRequest pr
    → ((calls cs pr).0 ≡ (map_calls cs (value_of pr)).0)
      × (value_of (calls cs pr).1 ≡ (map_calls cs (value_of pr)).1)
      × IsRequest (calls cs pr).1
calls_refine [] pr ok = (refl, refl, ok)
calls_refine (c ∷ cs) pr ok =
    let (gave, meets, ok') = call-refines c pr ok in
    let (gave', meets', ok'') = calls_refine cs (call c pr).1 ok' in
    (ap₂ ◌∷◌ gave (rw meets at gave'), rw meets at meets', ok'')
