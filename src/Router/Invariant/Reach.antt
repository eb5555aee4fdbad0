-- ===== src/Router/Invariant/Reach.antt =====
-- The states that the router reaches from packets and from rounds of the timeout thread.
use computer_networks.Prelude.{
  ℕ, ◌+◌, ◌≤◌, ◌≡◌, inl, inr, List, [], ◌∷◌, ◌==◌, ltb, if◌then◌else◌, length, take, arith,
  Bool-cases, ltb-false→le,
}
use computer_networks.Prelude.Words.{Bytes, load16, load32, slice, put}
use computer_networks.Router.State.{Name, Interface, Packet, ArpReq, Router, Env}
use computer_networks.Router.Interfaces.{sr_get_interface, get_interface_from_ip}
use computer_networks.Router.ArpCache.{sr_arpcache_insert}
use computer_networks.Router.Machine.{M, done, ◌>>◌, need, deref}
use computer_networks.Router.Send.{sr_send_packet}
use computer_networks.Router.Requests.{destroy_req, handle_arpreq, sr_arpcache_timeout}
use computer_networks.Router.Handlers.{
  deliver, sr_handle_ip_packet, send_waiting, take_arp_reply, sr_handle_arp_packet, sr_handlepacket,
  header_sum,
}
use computer_networks.Router.Invariant.{
  IsRouter, Holds, Keeps, keeps_rules, Keeps-bind, Keeps-return, Keeps-if, Keeps-unless_null,
  Keeps-need, Keeps-deref,
}
use computer_networks.Router.Invariant.Actions.{
  sr_send_packet-Keeps, sr_send_arp_reply-Keeps, destroy_req-Keeps, inserted-IsCache, IsEnv,
}
use computer_networks.Router.Invariant.Events.{
  deliver-Keeps, handle_arpreq-Keeps, sr_arpcache_timeout-Keeps,
}

Keeps-if_long :
    (p : Bytes) (n : ℕ) (m k : M (Unit {0}))
    → Keeps m
    → (n ≤ length p → Keeps k)
    → Keeps (if ltb (length p) n then m else k)
Keeps-if_long p n m k hm hk = elim (Bool-cases (ltb (length p) n)) [
  | inl e ↦ rw e hm
  | inr e ↦ rw e (hk (ltb-false→le (length p) n e))
]

send_waiting-Keeps : (sha : Bytes) (ps : List Packet) → Keeps (send_waiting sha ps)
unfolding send_waiting
send_waiting-Keeps sha [] = Keeps-return
send_waiting-Keeps sha (p ∷ ps) =
    let send : (out : Interface)
        → Keeps (do
          need p.buf 12
          sr_send_packet (put 6 (take 6 out.addr) (put 0 sha p.buf)) p.iface
          send_waiting sha ps) =
      λ out. Keeps-bind (need p.buf 12) _ (Keeps-need p.buf 12) λ u.
        Keeps-bind (sr_send_packet _ p.iface) _ (sr_send_packet-Keeps _ p.iface)
          λ v. send_waiting-Keeps sha ps in
    record {
      at = λ r i.
          (Keeps-bind (deref (sr_get_interface r.if_list p.iface)) _ (Keeps-deref _) send).at r i;
    }

module _ (env : Env) (sized : IsEnv env) where
  sr_handle_ip_packet-Keeps :
      (fuel : ℕ) (p : Bytes) (name : Name)
      → Keeps (sr_handle_ip_packet env (handle_arpreq env fuel) p name)
  unfolding sr_handle_ip_packet
  sr_handle_ip_packet-Keeps fuel p name =
      let handle : ℕ → M (Unit {0}) = handle_arpreq env fuel in
      let given : (r : Router)
          → 34 ≤ length p
          → IsRouter r
          → Holds (deliver env handle p name (get_interface_from_ip r.if_list (load32 p 30)) r) =
        λ r long i.
          (deliver-Keeps env sized handle (handle_arpreq-Keeps env sized fuel) p name _
              (omega arith)).at
            r i in
      Keeps-if_long p 34 _ _ Keeps-return λ long.
        Keeps-if (load16 p 24 == header_sum p) _ _ (record { at = λ r i. given r long i })
          Keeps-return

  take_arp_reply-Keeps : (p : Bytes) → Keeps (take_arp_reply env p)
  unfolding take_arp_reply
  take_arp_reply-Keeps p =
      let learn : (req : ArpReq)
          → Keeps (send_waiting (slice p 22 6) req.packets >> destroy_req req.id) =
        λ req.
          Keeps-bind (send_waiting (slice p 22 6) req.packets) _
            (send_waiting-Keeps (slice p 22 6) req.packets) λ u. destroy_req-Keeps req.id in
      record {
        at = λ r i.
            let now : ℕ = env.clock r.clock_reads in
            let inserted = sr_arpcache_insert r.cache (slice p 22 6) (load32 p 28) now in
            let read : Router = record r { clock_reads = r.clock_reads + 1 } in
            (Keeps-unless_null inserted.1 _ learn).at (record read { cache = inserted.0 })
              (inserted-IsCache (slice p 22 6) (load32 p 28) now read i);
      }

  sr_handle_arp_packet-Keeps : (p : Bytes) (name : Name) → Keeps (sr_handle_arp_packet env p name)
  unfolding sr_handle_arp_packet
  sr_handle_arp_packet-Keeps p name =
      search (keeps_rules, sr_send_arp_reply-Keeps, take_arp_reply-Keeps) depth 20

  -- Whatever packet arrives, and however deep the requests recurse.
  pub sr_handlepacket-Keeps :
      (fuel : ℕ) (p : Bytes) (name : Name) → Keeps (sr_handlepacket env fuel p name)
  unfolding sr_handlepacket
  sr_handlepacket-Keeps fuel p name =
      search (keeps_rules, sr_handle_arp_packet-Keeps, sr_handle_ip_packet-Keeps) depth 20

-- `s` is a state in which the router may stand after packets and ticks, from `r`.
pub data Reaches (env : Env) (r : Router) : Router → Type 0 where
  start : Reaches env r r
  receive :
      {s t : Router} (fuel : ℕ) (packet : Bytes) (interface : Name)
      → Reaches env r s
      → sr_handlepacket env fuel packet interface s ≡ done tt t
      → Reaches env r t
  tick :
      {s t : Router} (fuel rounds : ℕ)
      → Reaches env r s
      → sr_arpcache_timeout env fuel rounds s ≡ done tt t
      → Reaches env r t

left_good : {m : M (Unit {0})} {s t : Router} → Keeps m → IsRouter s → m s ≡ done tt t → IsRouter t
left_good {s = s} k i e = rw e at (k.at s i)

-- In every state that the router reaches, the queue of requests is well formed (no two requests
-- have one address, every request has a packet waiting) and the table has its hundred slots, if
-- so it was at the start and blocks have the size that was asked for.
pub Reaches-IsRouter :
    {env : Env} {r s : Router} → IsEnv env → IsRouter r → Reaches env r s → IsRouter s
Reaches-IsRouter sized i start = i
Reaches-IsRouter sized i (receive fuel p name before e) =
    left_good (sr_handlepacket-Keeps _ sized fuel p name) (Reaches-IsRouter sized i before) e
Reaches-IsRouter sized i (tick fuel rounds before e) =
    left_good (sr_arpcache_timeout-Keeps _ sized fuel rounds) (Reaches-IsRouter sized i before) e
