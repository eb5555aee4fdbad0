-- ===== src/Router/Interfaces/Hardware.antt =====
-- `sr_handle_hwinfo` and `sr_arp_req_not_for_us` of router/src/router/sr_vns_comm.c.
use computer_networks.Prelude.{
  ℕ, Bool, false, ◌&&◌, not, Option, none, some, List, [], ◌∷◌, ◌==◌, ltb, if◌then◌else◌, length,
}
use computer_networks.Prelude.Words.{Bytes, load16, load32, htons}
use computer_networks.Router.State.{Name, Interface}
use computer_networks.Router.Interfaces.{
  sr_get_interface, sr_add_interface, sr_set_ether_addr, sr_set_ether_ip,
}

-- `c_hw_entry`: the key in host order, and 32 bytes.
pub record HwEntry : Type 0 where
  pub key : ℕ
  pub value : Bytes

abbrev pub hw_interface : ℕ
hw_interface = 1

abbrev pub hw_ether : ℕ
hw_ether = 32

abbrev pub hw_ethip : ℕ
hw_ethip = 64

-- The C string in a value: what stands before the first NUL.
unfoldable pub c_string : Bytes → Name
c_string [] = []
c_string (b ∷ bs) = let rest = c_string bs in if b == 0 then [] else b ∷ rest

-- One round of the loop. The other keys are only printed.
unfoldable pub apply_entry : Interface → HwEntry → List Interface → Option (List Interface)
apply_entry raw e ifs =
    if e.key == hw_interface
    then some (sr_add_interface ifs (c_string e.value) raw)
    else if e.key == hw_ethip
    then sr_set_ether_ip ifs (load32 e.value 0)
    else if e.key == hw_ether
    then sr_set_ether_addr ifs e.value
    else some ifs

abbrev pub then_entries :
    Option (List Interface) → (List Interface → Option (List Interface)) → Option (List Interface)
then_entries none f = none
then_entries (some ifs) f = f ifs

-- `raw` is what `malloc` leaves in a new node.
unfoldable pub sr_handle_hwinfo :
    Interface → List HwEntry → List Interface → Option (List Interface)
sr_handle_hwinfo raw [] ifs = some ifs
sr_handle_hwinfo raw (e ∷ es) ifs = then_entries (apply_entry raw e ifs) (sr_handle_hwinfo raw es)

-- `none` is the failed assertion on the interface.
unfoldable pub sr_arp_req_not_for_us : List Interface → Bytes → Name → Option Bool
sr_arp_req_not_for_us ifs packet interface =
    if ltb (length packet) 42 then some false else elim (sr_get_interface ifs interface) [
      | none ↦ none
      | some iface ↦ some (
          (load16 packet 12 == htons 0x0806 && load16 packet 20 == htons 1)
          && not (load32 packet 38 == iface.ip))
    ]
