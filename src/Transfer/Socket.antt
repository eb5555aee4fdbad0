-- ===== src/Transfer/Socket.antt =====
-- What client.c and server.c of transport-layer/src use of a mysocket.
pub mod Filled
use computer_networks.Prelude.{ℕ, ◌<◌, ◌≤◌, ◌≡◌, List, [], ◌∷◌, ◌++◌, length}
use computer_networks.Prelude.Words.{Bytes}
use computer_networks.Mysock.State.{Outcome, returns, Reply, ok}

-- The calls of `myread` and `mywrite` on one descriptor, over a state `M` that holds the mysocket.
pub record Connection (M : Type 0) : Type 0 where
  pub read : M → ℕ → Outcome (Reply × Bytes × M)
  pub write : M → Bytes → Outcome (Reply × M)

-- What a read leaves: some of the bytes to come, no more than asked for.
pub record SomeRead {M : Type 0} (Holds : M → Bytes → Bytes → Type 0)
    (call : Outcome (Reply × Bytes × M)) (n : ℕ) (inbound outbound : Bytes) : Type 0 where
  pub got : Bytes
  pub rest : Bytes
  pub left : M
  pub gives : call ≡ returns (ok (length got), got, left)
  pub some_bytes : 0 < length got
  pub few : length got ≤ n
  pub front : inbound ≡ got ++ rest
  pub holds : Holds left rest outbound

-- `Holds m inbound outbound`: the first are the bytes that the application can still read, the second
-- those it has written and the transport has not yet taken.
pub record IsStream {M : Type 0} (s : Connection M) (Holds : M → Bytes → Bytes → Type 0)
    : Type 0 where
  pub reads :
      (m : M) (n b : ℕ) (inbound outbound : Bytes)
      → Holds m (b ∷ inbound) outbound
      → 0 < n
      → SomeRead Holds (s.read m n) n (b ∷ inbound) outbound
  pub writes :
      (m : M) (inbound outbound buf : Bytes)
      → Holds m inbound outbound
      → (left : M) × (s.write m buf ≡ returns (ok (length buf), left))
        × Holds left inbound (outbound ++ buf)
