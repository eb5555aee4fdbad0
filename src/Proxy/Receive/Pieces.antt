-- ===== src/Proxy/Receive/Pieces.antt =====
-- Where `receive_from_socket` of http-proxy/src/proxy.c goes on behind a piece, and where it stops.
use computer_networks.Prelude.{
  ℕ, ◌+◌, ◌-◌, ◌≡◌, ◌≤◌, ◌<◌, ◌⊎◌, inl, inr, refl, ap, ◌∙◌, false, List, [], ◌∷◌, ◌++◌, ◌==◌,
  length, take, drop, get_or, arith, Bool-cases, take_all, length-append, length-take, leb, sym,
}
use mathlib.Core.List.{append-nil, append_assoc}
use computer_networks.Prelude.Words.{Bytes, put, length-put}
use computer_networks.Prelude.Words.Slices.{joined, byte-take}
use computer_networks.Proxy.Sockets.{
  ℤ, Run, gives, waits, faults, pos, negsuc, recv_buffer_size, is_end, receive_from_socket,
}
use computer_networks.Proxy.Receive.{arrivals, take-put}

-- The test looks at nothing behind the total.
pub is_end-take : (b : Bytes) (n : ℕ) → is_end (take n b) n ≡ is_end b n
is_end-take b n = elim (Bool-cases (leb 4 n)) [
  | inr few ↦ rw few refl
  | inl four ↦
      let long : 4 ≤ n = ground (arith, four) in
      rw
        (
          byte-take n (n - 4) b (omega (arith, long)),
          byte-take n (n - 3) b (omega (arith, long)),
          byte-take n (n - 2) b (omega (arith, long)),
          byte-take n (n - 1) b (omega (arith, long)),
        )
        refl
]

abbrev total_of : Run (ℤ × Bytes) → ℕ
total_of (gives (pos n, p)) = n
total_of (gives (negsuc n, p)) = 0
total_of waits = 0
total_of faults = 0

abbrev stopped : ℕ → Bytes → Run (ℤ × Bytes)
stopped total buffer = gives (pos total, buffer)

gives-gives : (a b : ℕ) (p q : Bytes) → stopped a p ≡ stopped b q → a ≡ b
gives-gives a b p q e = ap total_of e

-- A piece behind which the call goes on ends no header, and the rest is the call for the next pieces.
goes_on_lem :
    (q : Bytes) (pieces : List Bytes) (from : ℕ) (buffer buffer' : Bytes) (total : ℕ)
    → receive_from_socket (arrivals (q ∷ pieces)) (pos from) buffer ≡ gives (pos total, buffer')
    → total ≤ recv_buffer_size
    → from + length q < total
    → (is_end (put from q buffer) (from + length q) ≡ false)
      × (receive_from_socket (arrivals pieces) (pos (from + length q)) (put from q buffer)
          ≡ gives (pos total, buffer'))
unfolding receive_from_socket
goes_on_lem q pieces from buffer buffer' total read most before =
    let whole : take (recv_buffer_size - from) q ≡ q =
      take_all (recv_buffer_size - from) q (omega (arith, before, most)) in
    let read' = rw whole at read in
    elim (Bool-cases (length q == 0)) [
      | inl none_read ↦
          absurd
            (omega (arith, before, gives-gives from total buffer buffer' (rw none_read at read')))
      | inr some_read ↦ elim (Bool-cases (is_end (put from q buffer) (from + length q))) [
        | inl ended ↦ absurd (
            omega (
              arith,
              before,
              gives-gives (from + length q) total (put from q buffer) buffer'
                  (rw (some_read, ended) at read'),
            ))
        | inr further ↦ (further, rw (some_read, further) at read')
      ]
    ]

-- A piece that ends a header before the call returns would have ended it.
pub goes_on :
    (pieces : List Bytes) (from : ℕ) (buffer buffer' : Bytes) (total : ℕ)
    → receive_from_socket (arrivals pieces) (pos from) buffer ≡ gives (pos total, buffer')
    → length buffer ≡ recv_buffer_size
    → total ≤ recv_buffer_size
    → (p : Bytes) (early late : List Bytes) → pieces ≡ p ∷ (early ++ late)
    → from + length (p ++ joined early) < total
    → is_end (take from buffer ++ (p ++ joined early)) (from + length (p ++ joined early)) ≡ false
unfolding joined
goes_on [] from buffer buffer' total read room most p early late is before =
    absurd (omega (arith, ap length is))
goes_on (q ∷ pieces) from buffer buffer' total read room most p [] late is before =
    let same : q ≡ p = ap (λ l. get_or l 0 []) is in
    let plain : from + length p < total = omega (arith, before, length-append p []) in
    let (further, rest) =
      goes_on_lem q pieces from buffer buffer' total read most (rw same plain) in
    rw
      (
        append-nil p,
        ← take-put from p buffer (omega (arith, plain, most, room)),
        is_end-take (put from p buffer) (from + length p),
      )
      (rw same at further)
goes_on (q ∷ pieces) from buffer buffer' total read room most p (e ∷ early) late is before =
    let same : q ≡ p = ap (λ l. get_or l 0 []) is in
    let len = length-append p (e ++ joined early) in
    let (further, rest) =
      goes_on_lem q pieces from buffer buffer' total read most
        (rw same (omega (arith, before, len))) in
    let on =
      goes_on pieces (from + length q) (put from q buffer) buffer' total rest
        (length-put from q buffer ∙ room) most e early late (ap (drop 1) is)
        (rw same (omega (arith, before, len))) in
    let on' =
      rw
        (
          same,
          take-put from p buffer (omega (arith, before, len, most, room)),
          append_assoc (take from buffer) p (e ++ joined early),
        )
        at on in
    let sum : from + length (p ++ (e ++ joined early))
        ≡ from + length p + length (e ++ joined early) =
      omega (arith, len) in
    rw sum on'

-- The total at which the call returns fills the buffer, or is all of some of the pieces.
pub ends_between :
    (pieces : List Bytes) (from : ℕ) (buffer buffer' : Bytes) (total : ℕ)
    → receive_from_socket (arrivals pieces) (pos from) buffer ≡ gives (pos total, buffer')
    → from ≤ recv_buffer_size
    → total ≤ recv_buffer_size
    → (total ≡ recv_buffer_size)
      ⊎ ((early : List Bytes) × (late : List Bytes) × (pieces ≡ early ++ late)
          × (total ≡ from + length (joined early)))
unfolding receive_from_socket joined
ends_between [] from buffer buffer' total read below most =
    inr ([], [], refl, sym (gives-gives from total buffer buffer' read) ∙ omega arith)
ends_between (p ∷ pieces) from buffer buffer' total read below most =
    let k : ℕ = recv_buffer_size - from in
    let piece : Bytes = take k p in
    let len = length-take k p in
    let one = length-append p [] in
    elim (Bool-cases (length piece == 0)) [
      | inl none_read ↦ inr (
        [],
        p ∷ pieces,
        refl,
        sym (gives-gives from total buffer buffer' (rw none_read at read)) ∙ omega arith,
      )
      | inr some_read ↦ elim (Bool-cases (leb (length p) k)) [
        | inr longer ↦
            let full : from + length piece ≡ recv_buffer_size =
              ground (arith, longer, len, below) in
            elim (Bool-cases (is_end (put from piece buffer) (from + length piece))) [
              | inl ended ↦ inl (
                  sym (
                    gives-gives (from + length piece) total (put from piece buffer) buffer'
                      (rw (some_read, ended) at read))
                  ∙ full)
              | inr further ↦
                  elim (ends_between pieces (from + length piece) (put from piece buffer) buffer'
                    total (rw (some_read, further) at read) (omega (arith, full)) most) [
                      | inl filled ↦ inl filled
                      | inr (early, late, is, sum) ↦ inl (omega (arith, sum, full, most))
                    ]
            ]
        | inl whole ↦
            let same : length piece ≡ length p = ground (arith, whole, len) in
            elim (Bool-cases (is_end (put from piece buffer) (from + length piece))) [
              | inl ended ↦ inr (
                p ∷ [],
                pieces,
                refl,
                sym (
                      gives-gives (from + length piece) total (put from piece buffer) buffer'
                        (rw (some_read, ended) at read))
                    ∙ omega (arith, same, one),
              )
              | inr further ↦
                  elim (ends_between pieces (from + length piece) (put from piece buffer) buffer'
                    total (rw (some_read, further) at read) (ground (arith, whole, len, below))
                    most) [
                      | inl filled ↦ inl filled
                      | inr (early, late, is, sum) ↦ inr (
                        p ∷ early,
                        late,
                        ap (λ l. p ∷ l) is,
                        omega (arith, sum, same, length-append p (joined early)),
                      )
                    ]
            ]
      ]
    ]

pub joined-append : (early late : List Bytes) → joined (early ++ late) ≡ joined early ++ joined late
unfolding joined
joined-append [] late = refl
joined-append (p ∷ early) late =
    ap (λ t. p ++ t) (joined-append early late) ∙ sym (append_assoc p (joined early) (joined late))

pub take_front : (early late : Bytes) → take (length early) (early ++ late) ≡ early
take_front [] late = refl
take_front (x ∷ early) late = ap (λ t. x ∷ t) (take_front early late)
