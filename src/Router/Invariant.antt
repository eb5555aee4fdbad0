-- ===== src/Router/Invariant.antt =====
-- What holds of the router between two events, and how it is carried through an action.
pub mod Actions
pub mod Events
pub mod Reach
use computer_networks.Prelude.{
  ℕ, zero, suc, ◌+◌, ◌≤◌, ◌≡◌, ◌≢◌, refl, Bool, true, false, Option, none, some, List, [], ◌∷◌,
  length, leb, if◌then◌else◌,
}
use computer_networks.Prelude.Words.{Bytes}
use computer_networks.Router.State.{Router, Env, ArpCache}
use computer_networks.Router.ArpCache.{arpcache_sz}
use computer_networks.Router.ArpCache.Queue.{IsQueue}
use computer_networks.Router.Machine.{
  Outcome, done, fault, spent, M, pure, return, go_on, ◌>>=◌, ◌>>◌, gets, need, deref, unless_null,
  time_now, malloc,
}

-- The queue of requests is well formed, and the table has its hundred slots.
pub record IsCache (cache : ArpCache) : Type 0 where
  pub queue : IsQueue cache
  pub slots : length cache.entries ≡ arpcache_sz

abbrev pub IsRouter : Router → Type 0
IsRouter r = IsCache r.cache

-- A result that leaves a router behind leaves a good one.
abbrev pub Holds : {A : Type 0} → Outcome A → Type 0
Holds (done a r) = IsRouter r
Holds fault = Unit
Holds spent = Unit

-- The action keeps the invariant.
pub record Keeps {A : Type 0} (m : M A) : Type 0 where
  pub at : (r : Router) → IsRouter r → Holds (m r)

go_on-Holds :
    {A B : Type 0} (o : Outcome A) (f : A → M B)
    → Holds o
    → ((a : A) → Keeps (f a))
    → Holds (go_on o f)
go_on-Holds (done a r) f h k = (k a).at r h
go_on-Holds fault f h k = tt
go_on-Holds spent f h k = tt

pub Keeps-bind :
    {A B : Type 0} (m : M A) (f : A → M B) → Keeps m → ((a : A) → Keeps (f a)) → Keeps (m >>= f)
Keeps-bind m f h k = record { at = λ r i. go_on-Holds (m r) f (h.at r i) k }

pub Keeps-return : Keeps return
Keeps-return = record { at = λ r i. i }

pub Keeps-gets : {A : Type 0} (f : Router → A) → Keeps (gets f)
Keeps-gets f = record { at = λ r i. i }

pub Keeps-need : (p : Bytes) (n : ℕ) → Keeps (need p n)
Keeps-need p n = record { at = λ r i. go (leb n (length p)) r i }
  where
    go : (b : Bool) (r : Router) → IsRouter r → Holds (if b then done tt r else fault)
    go true r i = i
    go false r i = tt

pub Keeps-deref : {A : Type 0} (o : Option A) → Keeps (deref o)
Keeps-deref none = record { at = λ r i. tt }
Keeps-deref (some a) = record { at = λ r i. i }

pub Keeps-unless_null :
    {A : Type 0} (o : Option A) (k : A → M (Unit {0}))
    → ((a : A) → Keeps (k a))
    → Keeps (unless_null o k)
Keeps-unless_null none k h = Keeps-return
Keeps-unless_null (some a) k h = record { at = λ r i. (h a).at r i }

pub Keeps-time_now : (env : Env) → Keeps (time_now env)
Keeps-time_now env = record { at = λ r i. i }

pub Keeps-malloc : (env : Env) (n : ℕ) → Keeps (malloc env n)
Keeps-malloc env n = record { at = λ r i. i }

pub Keeps-if : (b : Bool) (m k : M (Unit {0})) → Keeps m → Keeps k → Keeps (if b then m else k)
Keeps-if true m k hm hk = hm
Keeps-if false m k hm hk = hk

pub ruleset keeps_rules = (
  Keeps-bind, Keeps-return, Keeps-gets, Keeps-need, Keeps-deref, Keeps-unless_null, Keeps-time_now,
  Keeps-malloc, Keeps-if,
)
