-- ===== src/Router/Server/Verified.antt =====
-- A message of the server is read whole, and a routing table that passes the check names only
-- interfaces that are there.
use computer_networks.Prelude.{
  ℕ, zero, suc, ◌+◌, ◌-◌, ◌≤◌, ◌<◌, ◌≡◌, ◌≢◌, refl, sym, ap, ◌∙◌, min, inl, inr, true, none, List,
  [], ◌∷◌, ◌++◌, length, take, drop, arith, Bool-cases, All, length-drop,
}
use mathlib.Core.List.{append-nil, append_assoc}
use computer_networks.Prelude.Words.{Bytes}
use computer_networks.Prelude.Words.Slices.{take-add, drop-add}
use computer_networks.Router.State.{Name, Interface, Route}
use computer_networks.Router.Interfaces.{strncmp_eq, iface_namelen, sr_get_interface}
use computer_networks.Router.Server.{
  interface_known, count_unknown, sr_verify_routing_table, ServerCall, server_bytes, server_eintr,
  server_failure, Got, whole, read_more,
}

known_found :
    (ifs : List Interface) (name : Name)
    → interface_known name ifs ≡ true
    → sr_get_interface ifs name ≢ none
unfolding interface_known sr_get_interface
known_found [] name h = absurd (ground (arith, h))
known_found (i ∷ ifs) name h = elim (Bool-cases (strncmp_eq iface_namelen i.name name)) [
  | inl same ↦ rw same (λ e. cc)
  | inr other ↦ rw other (known_found ifs name (rw (other, interface_known) at h))
]

routes_known :
    (ifs : List Interface) (rt : List Route)
    → count_unknown ifs rt ≡ 0
    → All (λ r. sr_get_interface ifs r.interface ≢ none) rt
unfolding count_unknown
routes_known ifs [] h = tt
routes_known ifs (r ∷ rt) h = elim (Bool-cases (interface_known r.interface ifs)) [
  | inl known ↦ (known_found ifs r.interface known, routes_known ifs rt (ground (arith, h, known)))
  | inr unknown ↦ absurd (ground (arith, h, unknown))
]

-- If the check passes, the interface of each route is found by its name.
pub verified_found :
    (ifs : List Interface) (rt : List Route)
    → sr_verify_routing_table ifs rt ≡ 0
    → All (λ r. sr_get_interface ifs r.interface ≢ none) rt
unfolding sr_verify_routing_table
verified_found [] rt h = absurd (omega (arith, h))
verified_found (i ∷ ifs) [] h = tt
verified_found (i ∷ ifs) (r ∷ rt) h = routes_known (i ∷ ifs) (r ∷ rt) h

-- Calls may be interrupted, but do not fail, and those that are not give a byte or more.
abbrev pub AreReady : List ServerCall → Type 0
AreReady [] = Unit
AreReady (server_bytes k ∷ calls) = (0 < k) × AreReady calls
AreReady (server_eintr ∷ calls) = AreReady calls
AreReady (server_failure ∷ calls) = ⊥

-- The calls that give bytes.
unfoldable pub giving : List ServerCall → ℕ
giving [] = 0
giving (server_bytes k ∷ calls) = 1 + giving calls
giving (server_eintr ∷ calls) = giving calls
giving (server_failure ∷ calls) = giving calls

abbrev pub got_whole : Bytes → Bytes → List ServerCall → Got
got_whole got stream calls = whole got (record { stream = stream; calls = calls })

pub record ReadyAfter (calls : List ServerCall) (n : ℕ) (left : List ServerCall) : Type 0 where
  pub ready : AreReady left
  pub enough : giving calls ≤ n + giving left

joins :
    (k n total : ℕ) (got stream : Bytes) (left : List ServerCall)
    → k + n ≡ total
    → got_whole ((got ++ take k stream) ++ take n (drop k stream)) (drop n (drop k stream)) left
      ≡ got_whole (got ++ take total stream) (drop total stream) left
joins k n total got stream left e =
    rw
      (
        append_assoc got (take k stream) (take n (drop k stream)),
        take-add k n stream,
        drop-add k n stream,
        e,
      )
      refl

-- However the calls cut the stream, `n` bytes of it are read if as many calls give bytes.
pub read_whole :
    (calls : List ServerCall) (n : ℕ) (got stream : Bytes)
    → AreReady calls
    → n ≤ giving calls
    → n ≤ length stream
    → (left : List ServerCall) × (read_more calls n got stream
        ≡ got_whole (got ++ take n stream) (drop n stream) left)
      × ReadyAfter calls n left
unfolding read_more giving
read_whole calls zero got stream r enough long = (
  calls,
  ap (λ g. got_whole g stream calls) (sym (append-nil got)),
  record { ready = r; enough = omega arith },
)
read_whole [] (suc n) got stream r enough long = absurd (omega arith)
read_whole (server_failure ∷ calls) (suc n) got stream r enough long = absurd r
read_whole (server_eintr ∷ calls) (suc n) got stream r enough long =
    let (left, read, after) = read_whole calls (suc n) got stream r enough long in
    (left, read, record { ready = after.ready; enough = after.enough })
read_whole (server_bytes k ∷ calls) (suc n) got stream r enough long =
    let ret : ℕ = min (min k (suc n)) (length stream) in
    let some_read : 0 < ret = omega (arith, r.0) in
    let (left, read, after) =
      read_whole calls (suc n - ret) (got ++ take ret stream) (drop ret stream) r.1 (omega arith)
        (omega (arith, length-drop ret stream)) in
    let total : ret + (suc n - ret) ≡ suc n = omega arith in
    (
      left,
      read ∙ joins ret (suc n - ret) (suc n) got stream left total,
      record { ready = after.ready; enough = omega (arith, after.enough) },
    )
