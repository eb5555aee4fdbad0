-- ===== src/Router/Tests/Caches.antt =====
-- The table of mappings and the queue of requests on small inputs.
use computer_networks.Prelude.{ℕ, ◌≡◌, ◌≢◌, refl, some, [], ◌∷◌, ◌==◌, ◌&&◌, if◌then◌else◌, take}
use computer_networks.Router.State.{ArpCache}
use computer_networks.Router.ArpCache.{
  empty_entry, sr_arpcache_init, sr_arpcache_lookup, sr_arpcache_insert, sr_arpcache_queuereq,
}
use computer_networks.Router.ArpCache.Table.{
  has_free, behind_free, last_hit, mapping, or_else, sr_arpcache_lookup-insert, lookup-insert_stale,
}
use computer_networks.Router.ArpCache.Queue.{
  IsQueue, waiting, packets_of, waiting-queuereq, waiting-insert,
}
use computer_networks.Router.ArpCache.Invariant.{queuereq-IsQueue, init-IsQueue}
use computer_networks.Router.Tests.Data.{eth2, hop_mac, hop_mapping, address, udp_packet}

abbrev hop : ℕ
hop = address 10 0 2 2

sr_arpcache_lookup-insert_example :
    sr_arpcache_lookup (sr_arpcache_insert sr_arpcache_init hop_mac hop 100).0 hop ≡ (
      if hop == hop && has_free sr_arpcache_init.entries
      then or_else
          (last_hit hop (behind_free sr_arpcache_init.entries))
          (some (mapping hop_mac hop 100))
      else sr_arpcache_lookup sr_arpcache_init hop)
sr_arpcache_lookup-insert_example = sr_arpcache_lookup-insert sr_arpcache_init hop_mac hop 100 hop

-- The old mapping stands behind a free slot.
abbrev holed : ArpCache
holed = record { entries = empty_entry ∷ hop_mapping ∷ []; requests = []; next_id = 0 }

lookup-insert_stale_example :
    sr_arpcache_lookup (sr_arpcache_insert holed (2 ∷ 0 ∷ 0 ∷ 0 ∷ 0 ∷ 8 ∷ []) hop 200).0 hop
    ≡ sr_arpcache_lookup holed hop
lookup-insert_stale_example =
    lookup-insert_stale holed (2 ∷ 0 ∷ 0 ∷ 0 ∷ 0 ∷ 8 ∷ []) hop 200 hop_mapping
      (unfold last_hit behind_free in refl)

full_packet : udp_packet ≢ []
full_packet = λ e. cc

waiting-queuereq_example :
    waiting (sr_arpcache_queuereq sr_arpcache_init hop udp_packet eth2.name).0.requests hop ≡ (
      if hop == hop
      then record { buf = udp_packet; iface = take 32 eth2.name }
        ∷ waiting sr_arpcache_init.requests hop
      else waiting sr_arpcache_init.requests hop)
waiting-queuereq_example =
    waiting-queuereq sr_arpcache_init hop hop udp_packet eth2.name full_packet

-- A cache on which one packet waits.
abbrev one_waits : ArpCache
one_waits = (sr_arpcache_queuereq sr_arpcache_init hop udp_packet eth2.name).0

one_waits-IsQueue : IsQueue one_waits
one_waits-IsQueue =
    queuereq-IsQueue sr_arpcache_init hop udp_packet eth2.name full_packet init-IsQueue

waiting-insert_example :
    (packets_of (sr_arpcache_insert one_waits hop_mac hop 100).1 ≡ waiting one_waits.requests hop)
    × (waiting (sr_arpcache_insert one_waits hop_mac hop 100).0.requests hop
        ≡ (if hop == hop then [] else waiting one_waits.requests hop))
waiting-insert_example = waiting-insert one_waits hop_mac hop 100 hop one_waits-IsQueue
