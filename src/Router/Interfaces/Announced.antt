-- ===== src/Router/Interfaces/Announced.antt =====
-- A hardware message that announces interfaces.
use computer_networks.Prelude.{◌≡◌, refl, inl, inr, List, ◌∷◌, Option-cases}
use computer_networks.Prelude.Words.{Bytes, load32}
use computer_networks.Router.State.{Interface}
use computer_networks.Router.Interfaces.{sr_add_interface, sr_set_ether_addr}
use computer_networks.Router.Interfaces.Config.{configure}
use computer_networks.Router.Interfaces.Hardware.{
  HwEntry, hw_interface, hw_ether, hw_ethip, c_string, apply_entry, then_entries, sr_handle_hwinfo,
}

-- The three entries of an interface, in the order name, hardware address, IP address.
abbrev pub announce : Bytes → Bytes → Bytes → List HwEntry → List HwEntry
announce name addr ip rest =
    record { key = hw_interface; value = name }
    ∷ record { key = hw_ether; value = addr }
    ∷ record { key = hw_ethip; value = ip }
    ∷ rest

-- A message that starts with the three entries of an interface adds that interface, with both of
-- its addresses, to the interfaces that are there, and goes on with the rest of the message.
hwinfo_announces :
    (raw : Interface) (name addr ip : Bytes) (rest : List HwEntry) (ifs : List Interface)
    → sr_handle_hwinfo raw (announce name addr ip rest) ifs
      ≡ then_entries
          (configure ifs (c_string name) raw addr (load32 ip 0))
          (sr_handle_hwinfo raw rest)
unfolding sr_handle_hwinfo apply_entry
hwinfo_announces raw name addr ip rest ifs =
    elim (Option-cases (sr_set_ether_addr (sr_add_interface ifs (c_string name) raw) addr)) [
      | inl e ↦ rw (e, configure) refl
      | inr (js, e) ↦ rw (e, configure) refl
    ]
