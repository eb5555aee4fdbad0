-- ===== src/Router/Tests/Data.antt =====
-- A small router: two interfaces, one route, one mapping for its next hop.
use computer_networks.Prelude.{
  ℕ, zero, suc, ◌+◌, ◌*◌, ◌≡◌, refl, Bool, true, false, ◌&&◌, [], ◌∷◌, ltb, ltb→lt,
}
use computer_networks.Prelude.Words.{Bytes, IsBytes}
use computer_networks.Router.State.{Interface, ArpEntry, ArpCache, Route, Router, Env}
use computer_networks.Router.Routes.Longest.{netmask}
use computer_networks.Router.ArpCache.{sr_arpcache_init, sr_arpcache_insert}

abbrev pub address : ℕ → ℕ → ℕ → ℕ → ℕ
address a b c d = a + 256 * b + 65536 * c + 16777216 * d

abbrev pub eth1 : Interface
eth1 = record {
  name = 101 ∷ 116 ∷ 104 ∷ 49 ∷ [];
  addr = 2 ∷ 0 ∷ 0 ∷ 0 ∷ 0 ∷ 1 ∷ [];
  ip = address 10 0 1 1;
  speed = 0;
}

abbrev pub eth2 : Interface
eth2 = record {
  name = 101 ∷ 116 ∷ 104 ∷ 50 ∷ [];
  addr = 2 ∷ 0 ∷ 0 ∷ 0 ∷ 0 ∷ 2 ∷ [];
  ip = address 10 0 2 1;
  speed = 0;
}

abbrev pub lan_route : Route
lan_route = record {
  dest = address 10 0 3 0;
  gw = address 10 0 2 2;
  mask = netmask 24;
  interface = eth2.name;
}

abbrev pub default_route : Route
default_route = record { dest = 0; gw = address 10 0 1 9; mask = netmask 0; interface = eth1.name }

abbrev pub hop_mac : Bytes
hop_mac = 2 ∷ 0 ∷ 0 ∷ 0 ∷ 0 ∷ 9 ∷ []

abbrev pub hop_mapping : ArpEntry
hop_mapping = record { mac = hop_mac; ip = address 10 0 2 2; added = 100; valid = true }

abbrev pub hop_cache : ArpCache
hop_cache = (sr_arpcache_insert sr_arpcache_init hop_mac (address 10 0 2 2) 100).0

abbrev pub small_router : Router
small_router = record {
  if_list = eth1 ∷ eth2 ∷ [];
  routing_table = default_route ∷ lan_route ∷ [];
  cache = hop_cache;
  wire = [];
  clock_reads = 0;
  allocs = 0;
}

-- `n` bytes of 7.
unfoldable pub sevens : ℕ → Bytes
sevens zero = []
sevens (suc n) = 7 ∷ sevens n

abbrev pub small_env : Env
small_env = record { clock = λ k. 100 + k; junk = λ k n. sevens n }

-- A UDP packet to 10.0.3.7, and an ICMP packet to the router with nothing behind its header.
abbrev pub udp_packet : Bytes
udp_packet =
    2 ∷ 0 ∷ 0 ∷ 0 ∷ 0 ∷ 1 ∷ 2 ∷ 0 ∷ 0 ∷ 0 ∷ 0 ∷ 7 ∷ 8 ∷ 0 ∷ 69 ∷ 0 ∷ 0 ∷ 20 ∷ 0 ∷ 1 ∷ 0 ∷ 0 ∷ 64
    ∷ 17 ∷ 98 ∷ 205 ∷ 10 ∷ 0 ∷ 1 ∷ 5 ∷ 10 ∷ 0 ∷ 3 ∷ 7 ∷ []

abbrev pub icmp_packet : Bytes
icmp_packet =
    2 ∷ 0 ∷ 0 ∷ 0 ∷ 0 ∷ 1 ∷ 2 ∷ 0 ∷ 0 ∷ 0 ∷ 0 ∷ 7 ∷ 8 ∷ 0 ∷ 69 ∷ 0 ∷ 0 ∷ 20 ∷ 0 ∷ 1 ∷ 0 ∷ 0 ∷ 64 ∷ 1
    ∷ 100 ∷ 227 ∷ 10 ∷ 0 ∷ 1 ∷ 5 ∷ 10 ∷ 0 ∷ 1 ∷ 1 ∷ []

-- An ARP request for the address of `eth1`.
abbrev pub arp_request : Bytes
arp_request =
    255 ∷ 255 ∷ 255 ∷ 255 ∷ 255 ∷ 255 ∷ 2 ∷ 0 ∷ 0 ∷ 0 ∷ 0 ∷ 7 ∷ 8 ∷ 6 ∷ 0 ∷ 1 ∷ 8 ∷ 0 ∷ 6 ∷ 4 ∷ 0
    ∷ 1 ∷ 2 ∷ 0 ∷ 0 ∷ 0 ∷ 0 ∷ 7 ∷ 10 ∷ 0 ∷ 1 ∷ 5 ∷ 0 ∷ 0 ∷ 0 ∷ 0 ∷ 0 ∷ 0 ∷ 10 ∷ 0 ∷ 1 ∷ 1 ∷ []

-- A check of `IsBytes` that evaluates.
unfoldable pub are_bytes : Bytes → Bool
are_bytes [] = true
are_bytes (b ∷ bs) = ltb b 256 && are_bytes bs

and_left : (b c : Bool) → (b && c) ≡ true → b ≡ true
and_left true c e = refl
and_left false c e = e

and_right : (b c : Bool) → (b && c) ≡ true → c ≡ true
and_right true c e = e
and_right false c e = cc

pub are_bytes-IsBytes : (p : Bytes) → are_bytes p ≡ true → IsBytes p
unfolding are_bytes
are_bytes-IsBytes [] e = tt
are_bytes-IsBytes (b ∷ bs) e = (
  ltb→lt b 256 (and_left (ltb b 256) (are_bytes bs) e),
  are_bytes-IsBytes bs (and_right (ltb b 256) (are_bytes bs) e),
)
