-- ===== src/Proxy/Receive.antt =====
-- What `receive_from_socket` puts into the buffer.
pub mod Front
pub mod Pieces
use computer_networks.Prelude.{
  ℕ, zero, suc, ◌+◌, ◌-◌, ◌≡◌, ◌≤◌, ◌<◌, ◌⊎◌, inl, inr, refl, sym, ap, ◌∙◌, min, true, List, [],
  ◌∷◌, ◌++◌, ◌==◌, length, take, arith, Bool-cases, take_all, length-take, length-append, leb, All,
}
use mathlib.Core.List.{append-nil, append_assoc}
use computer_networks.Prelude.Words.{Bytes, put, overlay, length-put}
use computer_networks.Prelude.Words.Slices.{joined}
use computer_networks.Proxy.Sockets.{
  pos, gives, recv_buffer_size, is_end, Recv, arrived, closed, receive_from_socket,
}

take-overlay : (bs p : Bytes) → length bs ≤ length p → take (length bs) (overlay bs p) ≡ bs
unfolding overlay
take-overlay [] p fits = refl
take-overlay (b ∷ bs) [] fits = absurd (omega arith)
take-overlay (b ∷ bs) (x ∷ p) fits = ap (λ t. b ∷ t) (take-overlay bs p (omega arith))

-- The front of a buffer up to what was just written.
pub take-put :
    (o : ℕ) (bs p : Bytes)
    → o + length bs ≤ length p
    → take (o + length bs) (put o bs p) ≡ take o p ++ bs
unfolding put
take-put zero bs p fits =
    let shift : zero + length bs ≡ length bs = omega arith in
    rw shift (take-overlay bs p (omega arith))
take-put (suc o) bs [] fits = absurd (omega arith)
take-put (suc o) bs (x ∷ p) fits =
    let shift : suc o + length bs ≡ suc (o + length bs) = omega arith in
    rw shift (ap (λ t. x ∷ t) (take-put o bs p (omega arith)))

-- A piece of `data_`, and of what follows if the piece is all of `data_`.
pub take-join :
    (k m : ℕ) (data_ rest : Bytes)
    → (m ≡ 0) ⊎ (length data_ ≤ k)
    → take k data_ ++ take m rest ≡ take (length (take k data_) + m) (data_ ++ rest)
take-join k m [] rest h =
    let none_left : take {A = ℕ} k [] ≡ [] = take_all k [] (omega arith) in
    rw none_left (ap (λ i. take i rest) (omega arith))
take-join zero m (x ∷ data_) rest (inl none_more) = rw none_more refl
take-join zero m (x ∷ data_) rest (inr whole) = absurd (omega arith)
take-join (suc k) m (x ∷ data_) rest h =
    let shift : suc (length (take k data_)) + m ≡ suc (length (take k data_) + m) = omega arith in
    rw shift (ap (λ t. x ∷ t) (take-join k m data_ rest (inside h)))
  where
    inside : (m ≡ 0) ⊎ (suc (length data_) ≤ suc k) → (m ≡ 0) ⊎ (length data_ ≤ k)
    inside (inl none_more) = inl none_more
    inside (inr whole) = inr (omega arith)

-- What a call gives that stops after `total` bytes of a stream, where the first `from` were there.
pub record IsReceived (buffer : Bytes) (from : ℕ) (stream : Bytes) (buffer' : Bytes) (total : ℕ)
    : Type 0 where
  pub room : length buffer' ≡ recv_buffer_size
  pub at_least : from ≤ total
  pub at_most : total ≤ recv_buffer_size
  pub front : take total buffer' ≡ take from buffer ++ take (total - from) stream
  pub stops : (total ≡ min recv_buffer_size (from + length stream)) ⊎ (is_end buffer' total ≡ true)

IsReceived-nothing :
    (from : ℕ) (buffer stream : Bytes)
    → length buffer ≡ recv_buffer_size
    → from ≤ recv_buffer_size
    → (from ≡ min recv_buffer_size (from + length stream)) ⊎ (is_end buffer from ≡ true)
    → IsReceived buffer from stream buffer from
IsReceived-nothing from buffer stream room below stops =
    let none_more : from - from ≡ 0 = omega arith in
    record {
      room = room;
      at_least = omega arith;
      at_most = below;
      front =
          sym (append-nil (take from buffer))
          ∙ ap (λ i. take from buffer ++ take i stream) (sym none_more);
      stops = stops;
    }

-- A piece that was received, and what comes after it.
IsReceived-more :
    (from k total : ℕ) (data_ rest buffer buffer' : Bytes)
    → length buffer ≡ recv_buffer_size
    → from ≤ recv_buffer_size
    → k ≡ recv_buffer_size - from
    → let piece = take k data_ in
      IsReceived (put from piece buffer) (from + length piece) rest buffer' total
      → IsReceived buffer from (data_ ++ rest) buffer' total
IsReceived-more from k total data_ rest buffer buffer' room below is r =
    let piece : Bytes = take k data_ in
    let len = length-take k data_ in
    let stop : (total - (from + length piece) ≡ 0) ⊎ (length data_ ≤ k) =
      elim (Bool-cases (leb (length data_) k)) [
        | inl whole ↦ inr (ground (arith, whole))
        | inr longer ↦ inl (ground (arith, longer, len, r.at_most, below, is))
      ] in
    let sum : length piece + (total - (from + length piece)) ≡ total - from =
      omega (arith, r.at_least) in
    record {
      room = r.room;
      at_least = omega (arith, r.at_least);
      at_most = r.at_most;
      front =
          r.front
          ∙ ap (λ t. t ++ take (total - (from + length piece)) rest)
              (take-put from piece buffer (omega (arith, len)))
          ∙ append_assoc (take from buffer) piece (take (total - (from + length piece)) rest)
          ∙ ap (λ t. take from buffer ++ t)
              (take-join k (total - (from + length piece)) data_ rest stop
                ∙ ap (λ i. take i (data_ ++ rest)) sum);
      stops = elim r.stops [
        | inl filled ↦ inl (omega (arith, filled, length-append data_ rest, len, below, is))
        | inr ended ↦ inr ended
      ];
    }

-- Data arrives in pieces of one byte or more, and then the stream ends.
abbrev pub arrivals : List Bytes → List Recv
arrivals [] = closed ∷ []
arrivals (p ∷ pieces) = arrived p ∷ arrivals pieces

abbrev pub AreSome : List Bytes → Type 0
AreSome pieces = All (λ p. 0 < length p) pieces

receives :
    (pieces : List Bytes) (from : ℕ) (buffer : Bytes)
    → AreSome pieces
    → length buffer ≡ recv_buffer_size
    → from ≤ recv_buffer_size
    → (total : ℕ) × (buffer' : Bytes) × (receive_from_socket (arrivals pieces) (pos from) buffer
        ≡ gives (pos total, buffer'))
      × IsReceived buffer from (joined pieces) buffer' total
unfolding receive_from_socket joined
receives [] from buffer h room below =
    (from, buffer, refl, IsReceived-nothing from buffer [] room below (inl (omega arith)))
receives (p ∷ pieces) from buffer h room below =
    let piece : Bytes = take (recv_buffer_size - from) p in
    let len = length-take (recv_buffer_size - from) p in
    let more = IsReceived-more from (recv_buffer_size - from) in
    let room' : length (put from piece buffer) ≡ recv_buffer_size =
      length-put from piece buffer ∙ room in
    elim (Bool-cases (length piece == 0)) [
      | inl full ↦ (
        from,
        buffer,
        rw full refl,
        IsReceived-nothing from buffer (joined (p ∷ pieces)) room below
            (inl (ground (arith, full, len, below, length-append p (joined pieces), h.0))),
      )
      | inr some_read ↦ elim (Bool-cases (is_end (put from piece buffer) (from + length piece))) [
        | inl ended ↦ (
          from + length piece,
          put from piece buffer,
          rw (some_read, ended) refl,
          more (from + length piece) p (joined pieces) buffer (put from piece buffer) room below
              refl
              (IsReceived-nothing (from + length piece) (put from piece buffer) (joined pieces)
                room' (omega (arith, len)) (inr ended)),
        )
        | inr goes_on ↦
            let (total, buffer', read, is) =
              receives pieces (from + length piece) (put from piece buffer) h.1 room'
                (omega (arith, len)) in
            (
              total,
              buffer',
              rw (some_read, goes_on) read,
              more total p (joined pieces) buffer buffer' room below refl is,
            )
      ]
    ]

-- Whatever the pieces that a stream arrives in, `receive_from_socket` returns when it ends, and
-- after no more than 2048 bytes: the buffer starts with that front of the stream, and all of the
-- stream that has room is there unless the last piece taken ended a header.
pub receive_bounded :
    (pieces : List Bytes) (buffer : Bytes)
    → AreSome pieces
    → length buffer ≡ recv_buffer_size
    → (total : ℕ) × (buffer' : Bytes) × (receive_from_socket (arrivals pieces) (pos 0) buffer
        ≡ gives (pos total, buffer'))
      × (total ≤ recv_buffer_size)
      × (take total buffer' ≡ take total (joined pieces))
      × ((total ≡ min recv_buffer_size (length (joined pieces))) ⊎ (is_end buffer' total ≡ true))
      × (length buffer' ≡ recv_buffer_size)
receive_bounded pieces buffer h room =
    let (total, buffer', read, r) = receives pieces 0 buffer h room (omega arith) in
    let whole : total - 0 ≡ total = omega arith in
    (
      total,
      buffer',
      read,
      r.at_most,
      r.front ∙ ap (λ i. take i (joined pieces)) whole,
      elim r.stops [ inl filled ↦ inl (omega (arith, filled)) | inr ended ↦ inr ended ],
      r.room,
    )
