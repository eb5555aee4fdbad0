-- ===== src/Transfer/Client/Response.antt =====
-- What the client of transport-layer/src/client.c makes of the server's response.
use mathlib.Core.List.{append_assoc, append-nil}
use computer_networks.Prelude.{
  ℕ, zero, suc, ◌-◌, ◌^◌, ◌<◌, ◌≤◌, ◌≡◌, refl, sym, ap, ◌∙◌, true, false, min, List, [], ◌∷◌, ◌++◌,
  ne→==, lt→ltb, length, get_or, drop, length-drop, All-map, arith,
}
use computer_networks.Prelude.Words.{Bytes}
use computer_networks.Mysock.State.{Outcome, returns, ok}
use computer_networks.Mysock.Framing.{IoCall}
use computer_networks.Transfer.Socket.{Connection, IsStream}
use computer_networks.Transfer.Numbers.{
  decimal, IsDigit, decimal-IsDigit, length-decimal, scan_int-decimal,
}
use computer_networks.Transfer.Server.{opened, response}
use computer_networks.Transfer.Server.Serves.{IsName}
use computer_networks.Transfer.Client.Commas.{IsPlain, plain, IsAnswer, response_line, answer_lem}
use computer_networks.Transfer.Client.{Ending, stored, on_read, download, on_length, loop_until_end}

-- A front of `p ++ rest` that is no longer than `p`.
split_lem :
    (got p rest tail : Bytes)
    → p ++ rest ≡ got ++ tail
    → length got ≤ length p
    → (p ≡ got ++ drop (length got) p) × (drop (length got) p ++ rest ≡ tail)
split_lem [] p rest tail e short = (refl, e)
split_lem (x ∷ got) [] rest tail e short = absurd (omega arith)
split_lem (x ∷ got) (y ∷ p) rest tail e short =
    let (front, back) = split_lem got p rest tail (ap (drop 1) e) (omega arith) in
    let here : y ≡ x = ap (λ l. get_or l 0 0) e in
    (ap (λ q. y ∷ q) front ∙ ap (λ h. h ∷ (got ++ drop (length got) p)) here, back)

on_read_lem :
    {M : Type 0} (file : Bytes) (m : M) (k : ℕ) (got : Bytes) (left : M)
    (next : ℕ → Bytes → M → Outcome (Ending × M))
    → 0 < k
    → on_read file m (ok k, got, left) next ≡ next k got left
on_read_lem file m zero got left next some_bytes = absurd (omega arith)
on_read_lem file m (suc k) got left next some_bytes = refl

-- What is behind the number.
abbrev ok_text : Bytes
ok_text = 79 ∷ 107 ∷ []

response_lem :
    (name contents rest : Bytes) (reads : List IoCall)
    → response name (opened contents reads) ++ contents ++ rest
      ≡ response_line name (decimal 20 (length contents)) ok_text ++ 13 ∷ 10 ∷ (contents ++ rest)
response_lem name contents rest reads = simp append_assoc

decimal-IsAnswer : (n : ℕ) → n < 2 ^ 31 → IsAnswer (decimal 20 n) ok_text n
decimal-IsAnswer n small = record {
  number_plain =
      All-map IsDigit IsPlain (decimal 20 n) (λ b d. plain b (omega (arith, d)))
        (decimal-IsDigit 20 n);
  text_plain = (plain 79 (omega arith), (plain 107 (omega arith), tt));
  short = omega (arith, length-decimal 20 n);
  scanned = scan_int-decimal n small;
}

on_length_lem :
    {M : Type 0} (s : Connection M) (n : ℕ) (m : M)
    → n < 2 ^ 31
    → on_length s false true m n ≡ download s false n n [] m
on_length_lem s n m small = rw (ne→== n (2 ^ 32 - 1) (omega arith), lt→ltb n (2 ^ 31) small) refl

module _ {M : Type 0} (s : Connection M) (Holds : M → Bytes → Bytes → Type 0)
    (stream : IsStream s Holds) where
  download_lem :
      (passes n : ℕ) (file contents : Bytes) (m : M) (rest outbound : Bytes)
      → length contents ≡ n
      → n ≤ passes
      → Holds m (contents ++ rest) outbound
      → (left : M) × (download s false passes n file m ≡ returns (stored (file ++ contents), left))
        × Holds left rest outbound
  unfolding download
  download_lem zero zero file [] m rest outbound whole enough h = (m, rw (append-nil file) refl, h)
  download_lem (suc passes) zero file [] m rest outbound whole enough h =
      (m, rw (append-nil file) refl, h)
  download_lem zero (suc n) file contents m rest outbound whole enough h = absurd (omega arith)
  download_lem zero zero file (b ∷ contents) m rest outbound whole enough h = absurd (omega arith)
  download_lem (suc passes) zero file (b ∷ contents) m rest outbound whole enough h =
      absurd (omega arith)
  download_lem (suc passes) (suc n) file [] m rest outbound whole enough h = absurd (omega arith)
  download_lem (suc passes) (suc n) file (b ∷ contents) m rest outbound whole enough h =
      let r = stream.reads m (min (suc n) 1000) b (contents ++ rest) outbound h (omega arith) in
      let (front, back) =
        split_lem r.got (b ∷ contents) rest r.rest r.front (omega (arith, r.few)) in
      let (left, on, holds) =
        download_lem passes (suc n - length r.got) (file ++ r.got)
          (drop (length r.got) (b ∷ contents)) r.left rest outbound
          (omega (arith, length-drop (length r.got) (b ∷ contents), whole))
          (omega (arith, r.some_bytes)) (rw back r.holds) in
      (
        left,
        rw r.gives (
            on_read_lem file m (length r.got) r.got r.left
              (λ got_len got left'. download s false passes (suc n - got_len) (file ++ got) left')
              r.some_bytes
            ∙ on
            ∙ ap (λ f. returns (stored f, left))
                (append_assoc file r.got (drop (length r.got) (b ∷ contents))
                  ∙ ap (λ p. file ++ p) (sym front))),
        holds,
      )

  -- The client asks for its file by one line and stores what the response announces.
  pub loop_until_end_stores :
      (name contents rest outbound : Bytes) (reads : List IoCall) (before : ℕ) (m : M)
      → IsName name
      → length contents < 2 ^ 31
      → Holds m (response name (opened contents reads) ++ contents ++ rest) outbound
      → (left : M) × (loop_until_end s false true before name m ≡ returns (stored contents, left))
        × Holds left rest (outbound ++ (name ++ 13 ∷ 10 ∷ []))
  loop_until_end_stores name contents rest outbound reads before m n small h =
      let size : ℕ = length contents in
      let (after, on, hr) =
        answer_lem s Holds stream false true before size name (decimal 20 size) ok_text
          (contents ++ rest) outbound m n (decimal-IsAnswer size small)
          (rw (← response_lem name contents rest reads) h) in
      let (left, loads, hl) =
        download_lem size size [] contents after rest (outbound ++ (name ++ 13 ∷ 10 ∷ [])) refl
          (omega arith) hr in
      (left, on ∙ on_length_lem s size after small ∙ loads, hl)
