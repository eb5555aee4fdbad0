-- ===== src/Router/Machine.antt =====
-- Actions of the router: state passing, with the two ways in which C code gives no result.
use computer_networks.Prelude.{ℕ, ◌+◌, Option, none, some, leb, if◌then◌else◌, length}
use computer_networks.Prelude.Words.{Bytes}
use computer_networks.Router.State.{Router, Env, ArpCache}

-- `fault`: the code read or wrote outside a buffer, or followed a NULL or freed pointer.
-- `spent`: the fuel of a recursion ran out.
pub data Outcome (A : Type 0) : Type 0 where
  done : A → Router → Outcome A
  fault : Outcome A
  spent : Outcome A

abbrev pub M : Type 0 → Type 0
M A = Router → Outcome A

abbrev pub pure : {A : Type 0} → A → M A
pure a r = done a r

-- A `return` from a function of type `void`.
abbrev pub return : M (Unit {0})
return r = done tt r

abbrev pub go_on : {A B : Type 0} → Outcome A → (A → M B) → Outcome B
go_on (done a r) f = f a r
go_on fault f = fault
go_on spent f = spent

infixl 5 ◌>>=◌ ◌>>◌
abbrev pub ◌>>=◌ : {A B : Type 0} → M A → (A → M B) → M B
◌>>=◌ m f r = go_on (m r) f

abbrev pub ◌>>◌ : {B : Type 0} → M (Unit {0}) → M B → M B
m >> k = m >>= λ _. k

abbrev pub gets : {A : Type 0} → (Router → A) → M A
gets f r = done (f r) r

abbrev pub set_cache : ArpCache → M (Unit {0})
set_cache c r = done tt (record r { cache = c })

-- The code touches the first `n` bytes of the buffer.
abbrev pub need : Bytes → ℕ → M (Unit {0})
need p n r = if leb n (length p) then done tt r else fault

-- The code follows the pointer.
abbrev pub deref : {A : Type 0} → Option A → M A
deref none r = fault
deref (some a) r = done a r

-- `if (!x) return;` before the rest.
abbrev pub unless_null : {A : Type 0} → Option A → (A → M (Unit {0})) → M (Unit {0})
unless_null none k r = done tt r
unless_null (some a) k r = k a r

-- `time(NULL)`, and `malloc` of a block that is not cleared.
abbrev pub time_now : Env → M ℕ
time_now env r = done (env.clock r.clock_reads) (record r { clock_reads = r.clock_reads + 1 })

abbrev pub malloc : Env → ℕ → M Bytes
malloc env n r = done (env.junk r.allocs n) (record r { allocs = r.allocs + 1 })
