-- ===== src/Transfer/Client/Commas.antt =====
-- The response's line as the client of transport-layer/src/client.c takes it apart.
use mathlib.Core.List.{append_assoc}
use computer_networks.Prelude.{
  ℕ, ◌+◌, ◌≤◌, ◌≡◌, ◌<◌, ◌≢◌, refl, sym, ap, ◌∙◌, Bool, none, some, [], ◌∷◌, ◌++◌, eq→==, ne→==,
  le→leb, length, length-append, All, All-append, All-map, arith,
}
use computer_networks.Prelude.Words.{Bytes}
use computer_networks.Mysock.State.{returns, ok}
use computer_networks.Transfer.Socket.{Connection, IsStream}
use computer_networks.Transfer.Numbers.{scan_int}
use computer_networks.Transfer.Line.{line, last_char, get_nvt_line}
use computer_networks.Transfer.Line.Whole.{NoReturn, get_nvt_line_lem}
use computer_networks.Transfer.Server.Serves.{NoZero, IsName, c_string_whole}
use computer_networks.Transfer.Client.{
  strrchr, on_length, stored_length, on_number, on_text, on_response, loop_until_end,
}

strrchr-none : (c : ℕ) (p : Bytes) → All (λ b. b ≢ c) p → strrchr c p ≡ none
unfolding strrchr
strrchr-none c [] others = refl
strrchr-none c (b ∷ p) (other, others) = rw (strrchr-none c p others, ne→== b c other) refl

strrchr_lem :
    (c : ℕ) (before behind : Bytes)
    → All (λ b. b ≢ c) behind
    → strrchr c (before ++ c ∷ behind) ≡ some (before, behind)
unfolding strrchr
strrchr_lem c [] behind others = rw (strrchr-none c behind others, eq→== c c refl) refl
strrchr_lem c (b ∷ before) behind others = rw (strrchr_lem c before behind others) refl

abbrev NoComma : ℕ → Type 0
NoComma b = b ≢ 44

abbrev pub IsPlain : ℕ → Type 0
IsPlain b = (b ≢ 0) × (b ≢ 13) × (b ≢ 44)

pub plain : (b : ℕ) → 44 < b → IsPlain b
plain b large = (
  (λ e. absurd (omega (arith, e))),
  (λ e. absurd (omega (arith, e))),
  (λ e. absurd (omega (arith, e))),
)

-- The parts of a response, which announces `n`.
pub record IsAnswer (number text : Bytes) (n : ℕ) : Type 0 where
  pub number_plain : All IsPlain number
  pub text_plain : All IsPlain text
  pub short : length number + length text < 700
  pub scanned : scan_int number ≡ some n

abbrev pub response_line : (name number text : Bytes) → Bytes
response_line name number text = name ++ 44 ∷ (number ++ 44 ∷ text)

-- The name and the number, by the last two commas.
commas_lem :
    (name number text : Bytes)
    → All NoComma number
    → All NoComma text
    → (strrchr 44 (response_line name number text) ≡ some (name ++ 44 ∷ number, text))
      × (strrchr 44 (name ++ 44 ∷ number) ≡ some (name, number))
commas_lem name number text plain_number plain_text =
    let regroup : response_line name number text ≡ (name ++ 44 ∷ number) ++ 44 ∷ text =
      sym (append_assoc name (44 ∷ number) (44 ∷ text)) in
    (
      ap (strrchr 44) regroup ∙ strrchr_lem 44 (name ++ 44 ∷ number) text plain_text,
      strrchr_lem 44 name number plain_number,
    )

on_response_lem :
    {M : Type 0} (s : Connection M) (quiet opens : Bool) (name number text : Bytes) (n before : ℕ)
    (m : M)
    → All NoZero (response_line name number text)
    → All NoComma number
    → All NoComma text
    → scan_int number ≡ some n
    → on_response s quiet opens before m (line (response_line name number text))
      ≡ on_length s quiet opens m n
on_response_lem s quiet opens name number text n before m plain plain_number plain_text scanned =
    let (front, back) = commas_lem name number text plain_number plain_text in
    ap (λ got. on_text s quiet opens before m (strrchr 44 got))
      (c_string_whole (response_line name number text) plain)
    ∙ ap (on_text s quiet opens before m) front
    ∙ ap (on_number s quiet opens before m) back
    ∙ ap (λ word. on_length s quiet opens m (stored_length before word)) scanned

request_lem :
    {M : Type 0} (s : Connection M) (quiet opens : Bool) (before k : ℕ) (name got : Bytes)
    (m asked after : M)
    → length name + 3 ≤ 1000
    → s.write m (name ++ 13 ∷ 10 ∷ []) ≡ returns (ok k, asked)
    → get_nvt_line s 1000 [] asked ≡ returns (line got, after)
    → loop_until_end s quiet opens before name m ≡ on_response s quiet opens before after (line got)
unfolding loop_until_end
request_lem s quiet opens before k name got m asked after short writes reads_line =
    rw (le→leb (length name + 3) 1000 short, writes, reads_line) refl

-- A property of the line, from one of its parts.
line_plain :
    (P : ℕ → Type 0) (name number text : Bytes)
    → ((b : ℕ) → IsPlain b → P b)
    → All P name
    → P 44
    → All IsPlain number
    → All IsPlain text
    → All P (response_line name number text)
line_plain P name number text on plain comma number_plain text_plain =
    All-append P name (44 ∷ (number ++ 44 ∷ text)) plain (
      comma,
      All-append P number (44 ∷ text) (All-map IsPlain P number on number_plain)
          (comma, All-map IsPlain P text on text_plain),
    )

module _ {M : Type 0} (s : Connection M) (Holds : M → Bytes → Bytes → Type 0)
    (stream : IsStream s Holds) where
  -- The client writes its request, reads the line, and goes on with the number in it.
  pub answer_lem :
      (quiet opens : Bool) (before n : ℕ) (name number text inbound outbound : Bytes) (m : M)
      → IsName name
      → IsAnswer number text n
      → Holds m (response_line name number text ++ 13 ∷ 10 ∷ inbound) outbound
      → (after : M) × (loop_until_end s quiet opens before name m ≡ on_length s quiet opens after n)
        × Holds after inbound (outbound ++ (name ++ 13 ∷ 10 ∷ []))
  unfolding last_char
  answer_lem quiet opens before n name number text inbound outbound m is_name a h =
      let got : Bytes = response_line name number text in
      let asked_out : Bytes = outbound ++ (name ++ 13 ∷ 10 ∷ []) in
      let (asked, writes, hw) =
        stream.writes m (got ++ 13 ∷ 10 ∷ inbound) outbound (name ++ 13 ∷ 10 ∷ []) h in
      let (after, reads_line, hr) =
        get_nvt_line_lem s Holds stream 1000 [] got asked inbound asked_out hw
          (λ e. absurd (omega (arith, e)))
          (line_plain NoReturn name number text (λ b p. p.1) is_name.one_line
            (λ e. absurd (omega (arith, e))) a.number_plain a.text_plain)
          (omega (
            arith,
            is_name.short,
            a.short,
            length-append name (44 ∷ (number ++ 44 ∷ text)),
            length-append number (44 ∷ text),
          )) in
      let plain =
        line_plain NoZero name number text (λ b p. p.0) is_name.text
          (λ e. absurd (omega (arith, e))) a.number_plain a.text_plain in
      (
        after,
        request_lem s quiet opens before (length (name ++ 13 ∷ 10 ∷ [])) name got m asked after
              (omega (arith, is_name.short)) writes reads_line
            ∙ on_response_lem s quiet opens name number text n before after plain
                (All-map IsPlain NoComma number (λ b p. p.2) a.number_plain)
                (All-map IsPlain NoComma text (λ b p. p.2) a.text_plain) a.scanned,
        hr,
      )
