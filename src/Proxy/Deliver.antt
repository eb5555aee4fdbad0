-- ===== src/Proxy/Deliver.antt =====
-- What `send_to_socket` sends.
use computer_networks.Prelude.{
  ℕ, zero, suc, ◌+◌, ◌≡◌, ◌≤◌, ◌<◌, inl, inr, refl, sym, ap, ◌∙◌, List, [], ◌∷◌, ◌++◌, ltb, length,
  take, drop, arith, Bool-cases, length-take, length-drop, lt→ltb, le→ltb-false,
}
use mathlib.Core.List.{append-nil, append_assoc}
use computer_networks.Prelude.Words.{Bytes}
use computer_networks.Prelude.Words.Slices.{take-drop, drop-add}
use computer_networks.Proxy.Sockets.{
  pos, gives, less_one, Send, takes, send_interrupted, send_error, send_to_socket,
}

-- Every call takes a byte or more.
abbrev pub IsSending : List Send → Type 0
IsSending [] = Unit
IsSending (takes k ∷ calls) = (0 < k) × IsSending calls
IsSending (send_interrupted ∷ calls) = ⊥
IsSending (send_error ∷ calls) = ⊥

drop-length-take : (k : ℕ) (p : Bytes) → drop (length (take k p)) p ≡ drop k p
drop-length-take zero p = refl
drop-length-take (suc k) [] = refl
drop-length-take (suc k) (x ∷ p) = drop-length-take k p

drop_all : (n : ℕ) (p : Bytes) → length p ≤ n → drop n p ≡ []
drop_all zero [] h = refl
drop_all zero (x ∷ p) h = absurd (omega arith)
drop_all (suc n) [] h = refl
drop_all (suc n) (x ∷ p) h = drop_all n p (omega arith)

piece-then :
    (k total : ℕ) (buffer out : Bytes)
    → (out ++ take k (drop total buffer))
        ++ drop (total + length (take k (drop total buffer))) buffer
      ≡ out ++ drop total buffer
piece-then k total buffer out =
    let left : Bytes = drop total buffer in
    append_assoc out (take k left) (drop (total + length (take k left)) buffer)
    ∙ ap (λ t. out ++ (take k left ++ t))
        (sym (drop-add total (length (take k left)) buffer) ∙ drop-length-take k left)
    ∙ ap (λ t. out ++ t) (sym (take-drop k left))

-- The rest of a buffer goes out whole, and in order.
pub sends_rest :
    (calls : List Send) (total : ℕ) (buffer out : Bytes)
    → IsSending calls
    → length buffer ≤ total + length calls
    → send_to_socket calls (pos total) buffer out ≡ gives (pos 0, out ++ drop total buffer)
unfolding send_to_socket
sends_rest [] total buffer out w enough =
    rw
      (
        le→ltb-false total (length buffer) (omega arith),
        drop_all total buffer (omega arith),
        append-nil out,
      )
      refl
sends_rest (send_interrupted ∷ calls) total buffer out w enough = absurd w
sends_rest (send_error ∷ calls) total buffer out w enough = absurd w
sends_rest (takes k ∷ calls) total buffer out w enough =
    elim (Bool-cases (ltb total (length buffer))) [
      | inl more ↦
          let piece : Bytes = take k (drop total buffer) in
          rw more (
            sends_rest calls (total + length piece) buffer (out ++ piece) w.1 (
              ground
                (arith, more, length-take k (drop total buffer), length-drop total buffer, w.0))
            ∙ ap (λ o. gives (pos 0, o)) (piece-then k total buffer out))
      | inr all_sent ↦
          rw (all_sent, drop_all total buffer (ground (arith, all_sent)), append-nil out) refl
    ]

-- As long as every call takes a byte or more, `send_to_socket` succeeds and sends the buffer.
pub send_whole :
    (calls : List Send) (buffer : Bytes)
    → IsSending calls
    → length buffer ≤ length calls
    → send_to_socket calls (pos 0) buffer [] ≡ gives (pos 0, buffer)
send_whole calls buffer w enough = sends_rest calls 0 buffer [] w (omega arith)

-- A call that EINTR ends after `k + 1` bytes, but not all, have gone out makes the last of them go
-- out twice.
pub send_interrupted_repeats :
    (calls : List Send) (k : ℕ) (buffer : Bytes)
    → IsSending calls
    → suc k < length buffer
    → length buffer ≤ k + length calls
    → send_to_socket (takes (suc k) ∷ send_interrupted ∷ calls) (pos 0) buffer []
      ≡ gives (pos 0, take (suc k) buffer ++ drop k buffer)
unfolding send_to_socket less_one
send_interrupted_repeats calls k buffer w inside enough =
    let len : 0 + length (take (suc k) buffer) ≡ suc k =
      omega (arith, length-take (suc k) buffer) in
    rw
      (
        lt→ltb 0 (length buffer) (omega arith),
        len,
        lt→ltb (suc k) (length buffer) inside,
        sends_rest calls k buffer (take (suc k) buffer) w enough,
      )
      refl
