-- ===== src/Proxy/Sockets.antt =====
-- `receive_from_socket` and `send_to_socket` of http-proxy/src/proxy.c. A total is a signed number,
-- since the -1 of an interrupted call is added to it like a count.
use computer_networks.Prelude.{
  ℕ, zero, suc, ◌+◌, ◌-◌, Bool, false, ◌&&◌, List, [], ◌∷◌, ◌++◌, ◌==◌, ltb, leb, if◌then◌else◌,
  length, take, drop,
}
use computer_networks.Prelude.Words.{Bytes, byte, put}

-- `ssize_t` and `int`: `negsuc n` is -1 - n. No total comes near their limits.
pub data ℤ : Type 0 where
  pos : ℕ → ℤ
  negsuc : ℕ → ℤ

abbrev pub minus_one : ℤ
minus_one = negsuc 0

-- Adding -1.
unfoldable pub less_one : ℤ → ℤ
less_one (pos zero) = negsuc 0
less_one (pos (suc n)) = pos n
less_one (negsuc n) = negsuc (suc n)

-- The run of a function: a result, a call that waits, or an access outside a buffer.
pub data Run {ℓ} (A : Type ℓ) : Type ℓ where
  gives : A → Run A
  waits : Run A
  faults : Run A

abbrev pub and_on {ℓ κ} : {A : Type ℓ} {B : Type κ} → Run A → (A → Run B) → Run B
and_on (gives a) f = f a
and_on waits f = waits
and_on faults f = faults

abbrev pub recv_buffer_size : ℕ
recv_buffer_size = 2048

-- What a call of `recv` finds: data, of which it takes as much as it is asked for, the end of the
-- stream, or -1, with or without EINTR.
pub data Recv : Type 0 where
  arrived : Bytes → Recv
  closed : Recv
  interrupted : Recv
  recv_error : Recv

-- The four bytes before the total are "\r\n\r\n".
abbrev pub is_end : Bytes → ℕ → Bool
is_end buffer total =
    leb 4 total
    && (byte buffer (total - 4) == b'\r')
    && (byte buffer (total - 3) == b'\n')
    && (byte buffer (total - 2) == b'\r')
    && (byte buffer (total - 1) == b'\n')

abbrev pub is_end_at : Bytes → ℤ → Bool
is_end_at buffer (pos total) = is_end buffer total
is_end_at buffer (negsuc n) = false

-- `receive_from_socket`: its result, and the buffer. A total below 0 puts the next data before the
-- buffer.
unfoldable pub receive_from_socket : List Recv → ℤ → Bytes → Run (ℤ × Bytes)
unfolding less_one
receive_from_socket [] total buffer = waits
receive_from_socket (arrived data_ ∷ calls) (pos total) buffer =
    let piece = take (recv_buffer_size - total) data_ in
    let buffer' = put total piece buffer in
    let total' = total + length piece in
    let on = receive_from_socket calls (pos total') buffer' in
    if length piece == 0
    then gives (pos total, buffer)
    else if is_end buffer' total'
    then gives (pos total', buffer')
    else on
receive_from_socket (arrived data_ ∷ calls) (negsuc n) buffer = faults
receive_from_socket (closed ∷ calls) total buffer = gives (total, buffer)
receive_from_socket (interrupted ∷ calls) total buffer =
    let total' = less_one total in
    let on = receive_from_socket calls total' buffer in
    if is_end_at buffer total' then gives (minus_one, buffer) else on
receive_from_socket (recv_error ∷ calls) total buffer = gives (minus_one, buffer)

-- What a call of `send` does: it takes at most so many bytes, or gives -1.
pub data Send : Type 0 where
  takes : ℕ → Send
  send_interrupted : Send
  send_error : Send

-- `send_to_socket`: its result, and the bytes sent. A total below 0 sends what stands before the
-- buffer. After an error the socket is closed, too.
unfoldable pub send_to_socket : List Send → ℤ → Bytes → Bytes → Run (ℤ × Bytes)
unfolding less_one
send_to_socket [] (pos total) buffer out =
    if ltb total (length buffer) then waits else gives (pos 0, out)
send_to_socket [] (negsuc n) buffer out = waits
send_to_socket (takes k ∷ calls) (negsuc n) buffer out = faults
send_to_socket (takes k ∷ calls) (pos total) buffer out =
    let piece = take k (drop total buffer) in
    let on = send_to_socket calls (pos (total + length piece)) buffer (out ++ piece) in
    if ltb total (length buffer) then on else gives (pos 0, out)
send_to_socket (send_interrupted ∷ calls) (pos total) buffer out =
    let on = send_to_socket calls (less_one (pos total)) buffer out in
    if ltb total (length buffer) then on else gives (pos 0, out)
send_to_socket (send_interrupted ∷ calls) (negsuc n) buffer out =
    send_to_socket calls (negsuc (suc n)) buffer out
send_to_socket (send_error ∷ calls) (pos total) buffer out =
    if ltb total (length buffer) then gives (minus_one, out) else gives (pos 0, out)
send_to_socket (send_error ∷ calls) (negsuc n) buffer out = gives (minus_one, out)
