-- ===== src/Router/Interfaces.antt =====
-- router/src/router/sr_if.c: the list of interfaces.
pub mod Config
pub mod Lookup
pub mod Hardware
pub mod Announced
use computer_networks.Prelude.{
  ℕ, zero, suc, Bool, true, false, ◌&&◌, Option, none, some, List, [], ◌∷◌, ◌==◌, if◌then◌else◌,
  take,
}
use computer_networks.Prelude.Words.{Bytes, byte}
use computer_networks.Router.State.{Name, Interface}

-- `!strncmp(a, b, n)`.
unfoldable pub strncmp_eq : ℕ → Name → Name → Bool
strncmp_eq zero a b = true
strncmp_eq (suc n) [] [] = true
strncmp_eq (suc n) [] (y ∷ b) = false
strncmp_eq (suc n) (x ∷ a) [] = false
strncmp_eq (suc n) (x ∷ a) (y ∷ b) = x == y && strncmp_eq n a b

-- `sr_IFACE_NAMELEN`.
abbrev pub iface_namelen : ℕ
iface_namelen = 32

unfoldable pub sr_get_interface : List Interface → Name → Option Interface
sr_get_interface [] name = none
sr_get_interface (i ∷ is) name =
    if strncmp_eq iface_namelen i.name name then some i else sr_get_interface is name

unfoldable pub get_interface_from_ip : List Interface → ℕ → Option Interface
get_interface_from_ip [] ip_address = none
get_interface_from_ip (i ∷ is) ip_address =
    if ip_address == i.ip then some i else get_interface_from_ip is ip_address

-- The inner loop: the first `n` bytes of two addresses agree.
unfoldable pub addr_eq : ℕ → Bytes → Bytes → Bool
addr_eq zero a b = true
addr_eq (suc n) a b = byte a n == byte b n && addr_eq n a b

unfoldable pub get_interface_from_eth : List Interface → Bytes → Option Interface
unfolding addr_eq
get_interface_from_eth [] eth_address = none
get_interface_from_eth (i ∷ is) eth_address =
    if addr_eq 6 i.addr eth_address then some i else get_interface_from_eth is eth_address

-- The new node stands at the end; `raw` is what `malloc` left in its other fields.
unfoldable pub sr_add_interface : List Interface → Name → Interface → List Interface
sr_add_interface [] name raw = record raw { name = take iface_namelen name } ∷ []
sr_add_interface (i ∷ is) name raw = i ∷ sr_add_interface is name raw

-- Both setters write the last node; `none` is the failed assertion on an empty list.
unfoldable pub sr_set_ether_addr : List Interface → Bytes → Option (List Interface)
sr_set_ether_addr [] addr = none
sr_set_ether_addr (i ∷ []) addr = some (record i { addr = take 6 addr } ∷ [])
sr_set_ether_addr (i ∷ j ∷ is) addr = elim (sr_set_ether_addr (j ∷ is) addr) [
  | none ↦ none
  | some js ↦ some (i ∷ js)
]

unfoldable pub sr_set_ether_ip : List Interface → ℕ → Option (List Interface)
sr_set_ether_ip [] ip_nbo = none
sr_set_ether_ip (i ∷ []) ip_nbo = some (record i { ip = ip_nbo } ∷ [])
sr_set_ether_ip (i ∷ j ∷ is) ip_nbo = elim (sr_set_ether_ip (j ∷ is) ip_nbo) [
  | none ↦ none
  | some js ↦ some (i ∷ js)
]
