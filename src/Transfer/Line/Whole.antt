-- ===== src/Transfer/Line/Whole.antt =====
-- Lines that get_nvt_line of transport-layer/src/client.c and server.c reads whole.
use mathlib.Core.List.{append_assoc, append-nil}
use computer_networks.Prelude.{
  ℕ, zero, suc, ◌-◌, ◌<◌, ◌≤◌, ◌≡◌, ◌≢◌, refl, sym, ap, ◌∙◌, [], ◌∷◌, ◌++◌, ne→==, length, get_or,
  drop, take, length-append, All, arith,
}
use computer_networks.Prelude.Words.{Bytes}
use computer_networks.Prelude.Words.Slices.{take-append}
use computer_networks.Mysock.State.{Outcome, returns, Reply, ok}
use computer_networks.Transfer.Socket.{Connection, IsStream}
use computer_networks.Transfer.Line.{line, last_char, get_nvt_line}

pub last_char-snoc : (last b : ℕ) (got : Bytes) → last_char last (got ++ b ∷ []) ≡ b
unfolding last_char
last_char-snoc last b [] = refl
last_char-snoc last b (x ∷ got) = last_char-snoc x b got

abbrev pub NoReturn : ℕ → Type 0
NoReturn b = b ≢ 13

take-snoc : (got : Bytes) (b : ℕ) → take (length (got ++ b ∷ []) - 1) (got ++ b ∷ []) ≡ got
take-snoc got b =
    let whole : length (got ++ b ∷ []) - 1 ≡ length got =
      omega (arith, length-append got (b ∷ [])) in
    rw whole (take-append got (b ∷ []))

module _ {M : Type 0} (s : Connection M) (Holds : M → Bytes → Bytes → Type 0)
    (stream : IsStream s Holds) where
  -- A call for one byte.
  pub read_one :
      (m : M) (b : ℕ) (inbound outbound : Bytes)
      → Holds m (b ∷ inbound) outbound
      → (left : M) × (s.read m 1 ≡ returns (ok 1, b ∷ [], left)) × Holds left inbound outbound
  read_one m b inbound outbound h =
      let r = stream.reads m 1 b inbound outbound h (omega arith) in
      one_byte r.got r.rest r.left (s.read m 1) r.gives r.some_bytes r.few r.front r.holds
    where
      one_byte :
          (got rest : Bytes) (left : M) (call : Outcome (Reply × Bytes × M))
          → call ≡ returns (ok (length got), got, left)
          → 0 < length got
          → length got ≤ 1
          → b ∷ inbound ≡ got ++ rest
          → Holds left rest outbound
          → (left : M) × (call ≡ returns (ok 1, b ∷ [], left)) × Holds left inbound outbound
      one_byte [] rest left call gives some_bytes few front holds = absurd (omega arith)
      one_byte (x ∷ []) rest left call gives some_bytes few front holds =
          let here : b ≡ x = ap (λ p. get_or p 0 0) front in
          let behind : inbound ≡ rest = ap (drop 1) front in (left, rw here gives, rw behind holds)
      one_byte (x ∷ y ∷ got) rest left call gives some_bytes few front holds = absurd (omega arith)

  end_lem :
      (room : ℕ) (got : Bytes) (m : M) (inbound outbound : Bytes)
      → Holds m (10 ∷ inbound) outbound
      → (left : M) × (get_nvt_line s room (got ++ 13 ∷ []) m ≡ returns (line got, left))
        × Holds left inbound outbound
  unfolding get_nvt_line
  end_lem zero got m inbound outbound h =
      let (left, gives, holds) = read_one m 10 inbound outbound h in
      (left, rw (gives, last_char-snoc 0 13 got, take-snoc got 13) refl, holds)
  end_lem (suc room) got m inbound outbound h =
      let (left, gives, holds) = read_one m 10 inbound outbound h in
      (left, rw (gives, last_char-snoc 0 13 got, take-snoc got 13) refl, holds)

  -- A byte that does not end the line.
  pub char_lem :
      (room b : ℕ) (got : Bytes) (m : M) (inbound outbound : Bytes)
      → Holds m (b ∷ inbound) outbound
      → last_char 0 got ≢ 13
      → (left : M) × (get_nvt_line s (suc room) got m ≡ get_nvt_line s room (got ++ b ∷ []) left)
        × Holds left inbound outbound
  unfolding get_nvt_line
  char_lem room b got m inbound outbound h other =
      let (left, gives, holds) = read_one m b inbound outbound h in
      (left, rw (gives, ne→== (last_char 0 got) 13 other) refl, holds)

  pub get_nvt_line_lem :
      (room : ℕ) (got text : Bytes) (m : M) (inbound outbound : Bytes)
      → Holds m (text ++ 13 ∷ 10 ∷ inbound) outbound
      → last_char 0 got ≢ 13
      → All NoReturn text
      → length text < room
      → (left : M) × (get_nvt_line s room got m ≡ returns (line (got ++ text), left))
        × Holds left inbound outbound
  get_nvt_line_lem zero got text m inbound outbound h other plain short = absurd (omega arith)
  get_nvt_line_lem (suc room) got [] m inbound outbound h other plain short =
      let (left, on, holds) = char_lem room 13 got m (10 ∷ inbound) outbound h other in
      let (left', ends, holds') = end_lem room got left inbound outbound holds in
      (left', on ∙ ends ∙ rw (append-nil got) refl, holds')
  get_nvt_line_lem (suc room) got (b ∷ text) m inbound outbound h other plain short =
      let (left, on, holds) = char_lem room b got m (text ++ 13 ∷ 10 ∷ inbound) outbound h other in
      let (left', rest, holds') =
        get_nvt_line_lem room (got ++ b ∷ []) text left inbound outbound holds
          (λ e. plain.0 (sym (last_char-snoc 0 b got) ∙ e)) plain.1 (omega arith) in
      (left', on ∙ rest ∙ rw (append_assoc got (b ∷ []) text) refl, holds')
