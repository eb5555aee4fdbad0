-- ===== src/Router/Interfaces/Config.antt =====
-- Configuring an interface and finding it again.
use computer_networks.Prelude.{
  ℕ, zero, suc, ◌≡◌, refl, ◌≤◌, true, Option, none, some, List, [], ◌∷◌, ◌++◌, if◌then◌else◌, take,
  length, arith, take_all, inl, inr, Bool-cases,
}
use computer_networks.Prelude.Words.{Bytes}
use computer_networks.Router.State.{Name, Interface}
use computer_networks.Router.Interfaces.{
  strncmp_eq, iface_namelen, sr_get_interface, sr_add_interface, sr_set_ether_addr, sr_set_ether_ip,
}

-- What `sr_handle_hwinfo` does for one interface: add it, then set its two addresses.
abbrev pub configure : List Interface → Name → Interface → Bytes → ℕ → Option (List Interface)
configure is name raw addr ip = elim (sr_set_ether_addr (sr_add_interface is name raw) addr) [
  | none ↦ none
  | some js ↦ sr_set_ether_ip js ip
]

strncmp_eq_refl : (n : ℕ) (a : Name) → strncmp_eq n a a ≡ true
unfolding strncmp_eq
strncmp_eq_refl zero a = refl
strncmp_eq_refl (suc n) [] = refl
strncmp_eq_refl (suc n) (x ∷ a) = ground (arith, strncmp_eq_refl n a)

sr_add_interface-append :
    (is : List Interface) (name : Name) (raw : Interface)
    → sr_add_interface is name raw ≡ is ++ record raw { name = take iface_namelen name } ∷ []
unfolding sr_add_interface
sr_add_interface-append [] name raw = refl
sr_add_interface-append (i ∷ is) name raw = ground (arith, sr_add_interface-append is name raw)

set_addr_last :
    (is : List Interface) (i : Interface) (addr : Bytes)
    → sr_set_ether_addr (is ++ i ∷ []) addr ≡ some (is ++ record i { addr = take 6 addr } ∷ [])
unfolding sr_set_ether_addr
set_addr_last [] i addr = refl
set_addr_last (j ∷ []) i addr = refl
set_addr_last (j ∷ k ∷ is) i addr = ground (arith, set_addr_last (k ∷ is) i addr)

set_ip_last :
    (is : List Interface) (i : Interface) (ip : ℕ)
    → sr_set_ether_ip (is ++ i ∷ []) ip ≡ some (is ++ record i { ip = ip } ∷ [])
unfolding sr_set_ether_ip
set_ip_last [] i ip = refl
set_ip_last (j ∷ []) i ip = refl
set_ip_last (j ∷ k ∷ is) i ip = ground (arith, set_ip_last (k ∷ is) i ip)

get_interface-append :
    (is : List Interface) (i : Interface) (name : Name)
    → sr_get_interface (is ++ i ∷ []) name ≡ elim (sr_get_interface is name) [
      | some j ↦ some j
      | none ↦ if strncmp_eq iface_namelen i.name name then some i else none
    ]
unfolding sr_get_interface
get_interface-append [] i name = refl
get_interface-append (j ∷ is) i name = elim (Bool-cases (strncmp_eq iface_namelen j.name name)) [
  | inl e ↦ rw e
  | inr e ↦ rw e (get_interface-append is i name)
]

-- After an interface was added and given its addresses, a lookup of any name finds what it found
-- before, and otherwise, if the name compares equal to the new one, the new interface with both
-- addresses set.
sr_get_interface-configure :
    (is : List Interface) (name sought : Name) (raw : Interface) (addr : Bytes) (ip : ℕ)
    → length name ≤ 32
    → length addr ≤ 6
    → (js : List Interface) × (configure is name raw addr ip ≡ some js)
      × (sr_get_interface js sought ≡ elim (sr_get_interface is sought) [
        | some i ↦ some i
        | none ↦
            if strncmp_eq iface_namelen name sought
            then some (record { name = name; addr = addr; ip = ip; speed = raw.speed })
            else none
      ])
sr_get_interface-configure is name sought raw addr ip short six =
    let i : Interface = record { name = name; addr = addr; ip = ip; speed = raw.speed } in
    (is ++ i ∷ [], configured, get_interface-append is i sought)
  where
    configured :
        configure is name raw addr ip
        ≡ some (is ++ record { name = name; addr = addr; ip = ip; speed = raw.speed } ∷ [])
    configured = ground (
      arith,
      sr_add_interface-append is name raw,
      take_all 32 name short,
      take_all 6 addr six,
      set_addr_last is (record raw { name = name }) addr,
      set_ip_last is (record raw { name = name; addr = addr }) ip,
    )
