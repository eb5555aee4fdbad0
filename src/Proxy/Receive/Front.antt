-- ===== src/Proxy/Receive/Front.antt =====
-- How much of a stream `receive_from_socket` of http-proxy/src/proxy.c takes.
use computer_networks.Prelude.{
  ℕ, ◌+◌, ◌≡◌, ◌≤◌, ◌<◌, ◌⊎◌, inl, inr, refl, ap, min, true, false, List, [], ◌∷◌, ◌++◌, length,
  take, arith, length-take,
}
use computer_networks.Prelude.Words.{Bytes}
use computer_networks.Prelude.Words.Slices.{joined}
use computer_networks.Proxy.Sockets.{gives, pos, recv_buffer_size, is_end, receive_from_socket}
use computer_networks.Proxy.Receive.{arrivals, AreSome, receive_bounded}
use computer_networks.Proxy.Receive.Pieces.{
  is_end-take, goes_on, ends_between, joined-append, take_front,
}

-- The pieces up to one that ends a header are `n` bytes.
abbrev pub EndsHeader : List Bytes → ℕ → Type 0
EndsHeader pieces n =
    (early : List Bytes) × (late : List Bytes) × (pieces ≡ early ++ late)
    × (n ≡ length (joined early))
    × (is_end (joined early) n ≡ true)

-- The first `n` bytes of what comes in these pieces are taken: all of them, or the most that the buffer
-- holds, or the pieces up to one that ends a header; and no earlier piece ends a header.
pub record IsFront (pieces : List Bytes) (n : ℕ) : Type 0 where
  pub at_most : n ≤ recv_buffer_size
  pub stops : (n ≡ min recv_buffer_size (length (joined pieces))) ⊎ EndsHeader pieces n
  pub not_before :
      (early late : List Bytes)
      → pieces ≡ early ++ late
      → length (joined early) < n
      → is_end (joined early) (length (joined early)) ≡ false

not_before_lem :
    (pieces : List Bytes) (buffer buffer' : Bytes) (total : ℕ)
    → receive_from_socket (arrivals pieces) (pos 0) buffer ≡ gives (pos total, buffer')
    → length buffer ≡ recv_buffer_size
    → total ≤ recv_buffer_size
    → (early late : List Bytes) → pieces ≡ early ++ late
    → length (joined early) < total
    → is_end (joined early) (length (joined early)) ≡ false
unfolding joined
not_before_lem pieces buffer buffer' total read room most [] late is before = refl
not_before_lem pieces buffer buffer' total read room most (p ∷ early) late is before =
    let sum : length (p ++ joined early) ≡ 0 + length (p ++ joined early) = omega arith in
    rw sum
      (goes_on pieces 0 buffer buffer' total read room most p early late is (omega (arith, before)))

-- A header that ends where the call returns ends with a piece, if the buffer is not full.
stops-EndsHeader :
    (pieces : List Bytes) (buffer' : Bytes) (total : ℕ)
    → take total buffer' ≡ take total (joined pieces)
    → is_end buffer' total ≡ true
    → length buffer' ≡ recv_buffer_size
    → (total ≡ recv_buffer_size)
      ⊎ ((early : List Bytes) × (late : List Bytes) × (pieces ≡ early ++ late)
          × (total ≡ 0 + length (joined early)))
    → (total ≡ min recv_buffer_size (length (joined pieces))) ⊎ EndsHeader pieces total
stops-EndsHeader pieces buffer' total front ended room (inl filled) = inl (
    omega (
      arith,
      filled,
      room,
      length-take total buffer',
      length-take total (joined pieces),
      ap length front,
    ))
stops-EndsHeader pieces buffer' total front ended room (inr (early, late, is, sum)) =
    let at_end : total ≡ length (joined early) = omega (arith, sum) in
    let early_read : take total (joined pieces) ≡ joined early =
      rw (is, joined-append early late, at_end) (take_front (joined early) (joined late)) in
    inr (early, late, is, at_end, rw (← early_read, ← front, is_end-take buffer' total) ended)

-- `receive_from_socket` takes such a front, and has it at the front of its buffer.
pub receive-IsFront :
    (pieces : List Bytes) (buffer : Bytes)
    → AreSome pieces
    → length buffer ≡ recv_buffer_size
    → (total : ℕ) × (buffer' : Bytes) × (receive_from_socket (arrivals pieces) (pos 0) buffer
        ≡ gives (pos total, buffer'))
      × IsFront pieces total
      × (take total buffer' ≡ take total (joined pieces))
      × (length buffer' ≡ recv_buffer_size)
receive-IsFront pieces buffer some room =
    let (total, buffer', read, most, front, stops, room') =
      receive_bounded pieces buffer some room in
    (
      total,
      buffer',
      read,
      record {
        at_most = most;
        stops = elim stops [
          | inl filled ↦ inl filled
          | inr ended ↦
              stops-EndsHeader pieces buffer' total front ended room'
                (ends_between pieces 0 buffer buffer' total read (omega arith) most)
        ];
        not_before = λ early late is before.
            not_before_lem pieces buffer buffer' total read room most early late is before;
      },
      front,
      room',
    )
