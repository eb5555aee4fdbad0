-- ===== src/Transport/Loop/States.antt =====
-- Which flags go with which state of a connection, and what changes both.
use computer_networks.Prelude.{
  ℕ, ◌≡◌, refl, sym, ◌∙◌, true, false, Option, none, some, if◌then◌else◌,
}
use computer_networks.Transport.State.{
  ConnectionState, closed, syn_sent, syn_rcvd, established, fin_wait_1, fin_wait_2, closing,
  close_wait, last_ack, Context, Socket,
}
use computer_networks.Transport.Loop.{fin_state, fin_ends, fin_acked_in, lost, close_state}

-- What the flags say in each state. In `FIN_WAIT_2` and in `CLOSING` our FIN was sent, and the loop
-- is over exactly if both FINs are through; `CLOSED` is only reached at the end.
pub data IsConsistent (ctx : Context) : ConnectionState → Type 0 where
  open_both :
      ctx.fin_sent ≡ false
      → ctx.fin_received ≡ false
      → ctx.fin_acked ≡ false
      → ctx.is_done ≡ false
      → IsConsistent ctx established
  peer_closed :
      ctx.fin_sent ≡ false
      → ctx.fin_received ≡ true
      → ctx.is_done ≡ false
      → IsConsistent ctx close_wait
  we_closed :
      ctx.fin_sent ≡ true
      → ctx.fin_received ≡ false
      → ctx.fin_acked ≡ false
      → ctx.is_done ≡ false
      → IsConsistent ctx fin_wait_1
  we_closed_acked :
      ctx.fin_sent ≡ true
      → ctx.fin_acked ≡ true
      → ctx.is_done ≡ ctx.fin_received
      → IsConsistent ctx fin_wait_2
  both_closing :
      ctx.fin_sent ≡ true
      → ctx.fin_received ≡ true
      → ctx.is_done ≡ ctx.fin_acked
      → IsConsistent ctx closing
  our_fin_last :
      ctx.fin_sent ≡ true
      → ctx.fin_received ≡ true
      → ctx.is_done ≡ false
      → IsConsistent ctx last_ack
  all_closed : ctx.is_done ≡ true → IsConsistent ctx closed

abbrev pub IsSteady : Socket → Type 0
IsSteady s = IsConsistent s.ctx s.ctx.connection_state

pub fin-IsConsistent :
    (ctx : Context) (n : ℕ) (c : ConnectionState)
    → IsConsistent ctx c
    → IsConsistent
        (record ctx {
          fin_received = true;
          ack_num = n;
          connection_state = fin_state c;
          is_done = if fin_ends c then true else ctx.is_done;
        })
        (fin_state c)
unfolding fin_state fin_ends
fin-IsConsistent ctx n established (open_both a b f d) = peer_closed a refl d
fin-IsConsistent ctx n close_wait (peer_closed a b d) = peer_closed a refl d
fin-IsConsistent ctx n fin_wait_1 (we_closed a b e d) = both_closing a refl (d ∙ sym e)
fin-IsConsistent ctx n fin_wait_2 (we_closed_acked a b d) = we_closed_acked a b refl
fin-IsConsistent ctx n closing (both_closing a b d) = both_closing a refl d
fin-IsConsistent ctx n last_ack (our_fin_last a b d) = our_fin_last a refl d
fin-IsConsistent ctx n closed (all_closed d) = all_closed d
fin-IsConsistent ctx n syn_sent h = elim h [ ]
fin-IsConsistent ctx n syn_rcvd h = elim h [ ]

pub ack-IsConsistent :
    (ctx : Context) (c : ConnectionState)
    → ctx.connection_state ≡ c
    → IsConsistent ctx c
    → IsConsistent (fin_acked_in c ctx) (fin_acked_in c ctx).connection_state
unfolding fin_acked_in
ack-IsConsistent ctx established e (open_both a b f d) = rw e (open_both a b f d)
ack-IsConsistent ctx close_wait e (peer_closed a b d) = rw e (peer_closed a b d)
ack-IsConsistent ctx fin_wait_1 e (we_closed a b f d) = we_closed_acked a refl (d ∙ sym b)
ack-IsConsistent ctx fin_wait_2 e (we_closed_acked a b d) = rw e (we_closed_acked a b d)
ack-IsConsistent ctx closing e (both_closing a b d) = rw e (both_closing a b refl)
ack-IsConsistent ctx last_ack e (our_fin_last a b d) = all_closed refl
ack-IsConsistent ctx closed e (all_closed d) = rw e (all_closed d)
ack-IsConsistent ctx syn_sent e h = elim h [ ]
ack-IsConsistent ctx syn_rcvd e h = elim h [ ]

pub lost-IsConsistent :
    (ctx : Context) (c : ConnectionState)
    → ctx.connection_state ≡ c
    → IsConsistent ctx c
    → IsConsistent (lost c ctx) (lost c ctx).connection_state
unfolding lost
lost-IsConsistent ctx established e (open_both a b f d) = all_closed refl
lost-IsConsistent ctx close_wait e (peer_closed a b d) = rw e (peer_closed a b d)
lost-IsConsistent ctx fin_wait_1 e (we_closed a b f d) = rw e (we_closed a b f d)
lost-IsConsistent ctx fin_wait_2 e (we_closed_acked a b d) = rw e (we_closed_acked a b d)
lost-IsConsistent ctx closing e (both_closing a b d) = rw e (both_closing a b d)
lost-IsConsistent ctx last_ack e (our_fin_last a b d) = rw e (our_fin_last a b d)
lost-IsConsistent ctx closed e (all_closed d) = rw e (all_closed d)
lost-IsConsistent ctx syn_sent e h = elim h [ ]
lost-IsConsistent ctx syn_rcvd e h = elim h [ ]

pub close-IsConsistent :
    (ctx : Context) (n : ℕ) (c : ConnectionState)
    → ctx.fin_sent ≡ false
    → IsConsistent ctx c
    → IsConsistent
        (record ctx { fin_sent = true; sequence_num = n; connection_state = close_state c })
        (close_state c)
unfolding close_state
close-IsConsistent ctx n established f (open_both a b g d) = we_closed refl b g d
close-IsConsistent ctx n close_wait f (peer_closed a b d) = our_fin_last refl b d
close-IsConsistent ctx n fin_wait_1 f (we_closed a b e d) = we_closed refl b e d
close-IsConsistent ctx n fin_wait_2 f (we_closed_acked a b d) = we_closed_acked refl b d
close-IsConsistent ctx n closing f (both_closing a b d) = both_closing refl b d
close-IsConsistent ctx n last_ack f (our_fin_last a b d) = our_fin_last refl b d
close-IsConsistent ctx n closed f (all_closed d) = all_closed d
close-IsConsistent ctx n syn_sent f h = elim h [ ]
close-IsConsistent ctx n syn_rcvd f h = elim h [ ]

-- Every socket that a computation gives is steady.
abbrev pub GivesSteady : Option Socket → Type 0
GivesSteady none = Unit
GivesSteady (some s) = IsSteady s
