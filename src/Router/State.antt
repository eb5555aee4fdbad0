-- ===== src/Router/State.antt =====
-- The structures of the router: `sr_if` (sr_if.h), `sr_rt` (sr_rt.h), `sr_packet`,
-- `sr_arpentry`, `sr_arpreq` and `sr_arpcache` (sr_arpcache.h), `sr_instance` (sr_router.h).
use computer_networks.Prelude.{ℕ, Bool, List}
use computer_networks.Prelude.Words.{Bytes}

-- A C string, without its NUL.
abbrev pub Name : Type 0
Name = Bytes

-- `struct sr_if`. Addresses are the 32-bit words as the program loads them.
pub record Interface : Type 0 where
  pub name : Name
  pub addr : Bytes
  pub ip : ℕ
  pub speed : ℕ

-- `struct sr_rt`.
pub record Route : Type 0 where
  pub dest : ℕ
  pub gw : ℕ
  pub mask : ℕ
  pub interface : Name

-- `struct sr_packet`: `len` is the length of `buf`, which is allocated with `len` bytes.
pub record Packet : Type 0 where
  pub buf : Bytes
  pub iface : Name

-- `struct sr_arpentry`.
pub record ArpEntry : Type 0 where
  pub mac : Bytes
  pub ip : ℕ
  pub added : ℕ
  pub valid : Bool

-- `struct sr_arpreq`. `id` stands for the address of the node.
pub record ArpReq : Type 0 where
  pub id : ℕ
  pub ip : ℕ
  pub sent : ℕ
  pub times_sent : ℕ
  pub packets : List Packet

-- `struct sr_arpcache`. `next_id` numbers the nodes that `calloc` has not handed out yet.
pub record ArpCache : Type 0 where
  pub entries : List ArpEntry
  pub requests : List ArpReq
  pub next_id : ℕ

-- What is written to the VNS socket: the message's interface name and the frame behind it.
pub record VnsPacket : Type 0 where
  pub interface_name : Name
  pub frame : Bytes

-- `struct sr_instance`, with what was written to its socket so far, oldest first, the number of
-- times that the clock was read, and the number of blocks that `malloc` gave out uncleared.
pub record Router : Type 0 where
  pub if_list : List Interface
  pub routing_table : List Route
  pub cache : ArpCache
  pub wire : List VnsPacket
  pub clock_reads : ℕ
  pub allocs : ℕ

-- What the program asks of its environment: the successive readings of `time(NULL)`, and the
-- bytes that a block of a given size holds when `malloc` gives it out.
pub record Env : Type 0 where
  pub clock : ℕ → ℕ
  pub junk : ℕ → ℕ → Bytes
