-- ===== src/Router/Interfaces/Lookup.antt =====
-- Lookups of interfaces by name: the interface that is found is found by its own name too.
use computer_networks.Prelude.{
  ℕ, zero, suc, ◌≡◌, refl, inl, inr, true, some, List, [], ◌∷◌, arith, Bool-cases,
}
use mathlib.Core.Path.{subst}
use computer_networks.Prelude.Words.{Bytes}
use computer_networks.Router.State.{Name, Interface}
use computer_networks.Router.Interfaces.{strncmp_eq, iface_namelen, sr_get_interface, addr_eq}

pub strncmp_eq_refl : (n : ℕ) (a : Name) → strncmp_eq n a a ≡ true
unfolding strncmp_eq
strncmp_eq_refl zero a = refl
strncmp_eq_refl (suc n) [] = refl
strncmp_eq_refl (suc n) (x ∷ a) = ground (arith, strncmp_eq_refl n a)

-- Names that compare equal cannot be told apart by a comparison.
strncmp_eq_right :
    (n : ℕ) (a b c : Name) → strncmp_eq n a b ≡ true → strncmp_eq n c a ≡ strncmp_eq n c b
unfolding strncmp_eq
strncmp_eq_right zero a b c h = refl
strncmp_eq_right (suc n) [] [] c h = refl
strncmp_eq_right (suc n) [] (y ∷ b) c h = cc
strncmp_eq_right (suc n) (x ∷ a) [] c h = cc
strncmp_eq_right (suc n) (x ∷ a) (y ∷ b) [] h = refl
strncmp_eq_right (suc n) (x ∷ a) (y ∷ b) (z ∷ c) h = ground (arith, strncmp_eq_right n a b c)

some_cancel : {i j : Interface} → some i ≡ some j → i ≡ j
some_cancel e = cc

get_interface_named :
    (is : List Interface) (name : Name) (i : Interface)
    → sr_get_interface is name ≡ some i
    → strncmp_eq iface_namelen i.name name ≡ true
unfolding sr_get_interface
get_interface_named [] name i h = cc
get_interface_named (j ∷ is) name i h = elim (Bool-cases (strncmp_eq iface_namelen j.name name)) [
  | inl e ↦
      let j_is_i : some j ≡ some i = rw e at h in
      subst (λ k. strncmp_eq iface_namelen k.name name ≡ true) (some_cancel j_is_i) e
  | inr e ↦ get_interface_named is name i (rw e at h)
]

pub get_interface_own :
    (is : List Interface) (name : Name) (i : Interface)
    → sr_get_interface is name ≡ some i
    → sr_get_interface is i.name ≡ some i
unfolding sr_get_interface
get_interface_own [] name i h = cc
get_interface_own (j ∷ is) name i h = elim (Bool-cases (strncmp_eq iface_namelen j.name name)) [
  | inl e ↦
      let j_is_i : some j ≡ some i = rw e at h in
      subst (λ k. sr_get_interface (j ∷ is) k.name ≡ some k) (some_cancel j_is_i)
        (rw (strncmp_eq_refl iface_namelen j.name))
  | inr e ↦
      let rest : sr_get_interface is name ≡ some i = rw e at h in
      rw (strncmp_eq_right iface_namelen i.name name j.name (get_interface_named is name i rest), e)
        (get_interface_own is name i rest)
]

pub addr_eq_refl : (n : ℕ) (a : Bytes) → addr_eq n a a ≡ true
unfolding addr_eq
addr_eq_refl zero a = refl
addr_eq_refl (suc n) a = ground (arith, addr_eq_refl n a)
