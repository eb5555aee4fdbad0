-- ===== src/Proxy/Setup/Descriptors.antt =====
-- The descriptors that the set-up of sockets in http-proxy/src/proxy.c leaves open.
use computer_networks.Prelude.{
  ℕ, ◌≡◌, refl, ◌∙◌, ap, Bool, Option, none, some, List, [], ◌∷◌, if◌then◌else◌, Bool-cases, arith,
  inl, inr,
}
use computer_networks.Proxy.Sockets.{ℤ, pos, minus_one}
use computer_networks.Proxy.Setup.{
  close_fd, Binding, no_socket, setsockopt_fails, bind_fails, binds, find_server_socket_binding,
  listen_on, proxy_server_socket_setup, Connecting, connect_fails, connects,
  find_client_socket_binding, found_socket, proxy_client_socket_setup,
}

-- The result is the socket, if there is one, and it alone is open besides what was.
abbrev pub gives_socket : List ℕ → Option ℕ → ℤ × List ℕ
gives_socket fds none = (minus_one, fds)
gives_socket fds (some fd) = (pos fd, fd ∷ fds)

-- The first address whose calls all succeed.
unfoldable pub first_bound : List Binding → Option ℕ
first_bound [] = none
first_bound (no_socket ∷ p) = first_bound p
first_bound (setsockopt_fails fd ∷ p) = first_bound p
first_bound (bind_fails fd ∷ p) = first_bound p
first_bound (binds fd ∷ p) = some fd

unfoldable pub first_connected : List Connecting → Option ℕ
first_connected [] = none
first_connected (no_socket ∷ p) = first_connected p
first_connected (connect_fails fd ∷ p) = first_connected p
first_connected (connects fd ∷ p) = some fd

pub close_opened : (fd : ℕ) (fds : List ℕ) → close_fd fd (fd ∷ fds) ≡ fds
unfolding close_fd
close_opened fd fds = ground arith

server_binding-gives :
    (p : List Binding) (fds : List ℕ)
    → find_server_socket_binding p fds ≡ gives_socket fds (first_bound p)
unfolding find_server_socket_binding first_bound
server_binding-gives [] fds = refl
server_binding-gives (no_socket ∷ p) fds = server_binding-gives p fds
server_binding-gives (setsockopt_fails fd ∷ p) fds =
    ap (find_server_socket_binding p) (close_opened fd fds) ∙ server_binding-gives p fds
server_binding-gives (bind_fails fd ∷ p) fds =
    ap (find_server_socket_binding p) (close_opened fd fds) ∙ server_binding-gives p fds
server_binding-gives (binds fd ∷ p) fds = refl

client_binding-gives :
    (p : List Connecting) (fds : List ℕ)
    → find_client_socket_binding p fds ≡ gives_socket fds (first_connected p)
unfolding find_client_socket_binding first_connected
client_binding-gives [] fds = refl
client_binding-gives (no_socket ∷ p) fds = client_binding-gives p fds
client_binding-gives (connect_fails fd ∷ p) fds =
    ap (find_client_socket_binding p) (close_opened fd fds) ∙ client_binding-gives p fds
client_binding-gives (connects fd ∷ p) fds = refl

-- What is given to the caller of a set-up.
abbrev pub listening_socket : (ℕ → Bool) → Option ℕ → Option ℕ
listening_socket listens none = none
listening_socket listens (some fd) = if listens fd then some fd else none

listen_on-gives :
    (listens : ℕ → Bool) (o : Option ℕ) (fds : List ℕ)
    → listen_on listens (gives_socket fds o) ≡ gives_socket fds (listening_socket listens o)
unfolding listen_on
listen_on-gives listens none fds = refl
listen_on-gives listens (some fd) fds = elim (Bool-cases (listens fd)) [
  | inl listening ↦ rw listening refl
  | inr deaf ↦ rw (deaf, close_opened fd fds) refl
]

found_socket-gives :
    (o : Option ℕ) (fds : List ℕ) → found_socket (gives_socket fds o) ≡ gives_socket fds o
unfolding found_socket
found_socket-gives none fds = refl
found_socket-gives (some fd) fds = refl

-- Whatever the addresses are, each set-up gives the socket of the first one whose calls all
-- succeed, the proxy's own only if it can listen on it, or -1; and no other socket stays open.
pub setup_keeps_one :
    (servinfo : List Binding) (listens : ℕ → Bool) (p : List Connecting) (fds : List ℕ)
    → (proxy_server_socket_setup (some servinfo) listens fds
        ≡ gives_socket fds (listening_socket listens (first_bound servinfo)))
      × (proxy_client_socket_setup (some p) fds ≡ gives_socket fds (first_connected p))
unfolding proxy_server_socket_setup proxy_client_socket_setup
setup_keeps_one servinfo listens p fds = (
  ap (listen_on listens) (server_binding-gives servinfo fds)
      ∙ listen_on-gives listens (first_bound servinfo) fds,
  ap found_socket (client_binding-gives p fds) ∙ found_socket-gives (first_connected p) fds,
)
