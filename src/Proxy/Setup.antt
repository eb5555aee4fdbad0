-- ===== src/Proxy/Setup.antt =====
-- The set-up of sockets in http-proxy/src/proxy.c. What the system does for each address that
-- getaddrinfo gives is a value, and so are the descriptors that the process holds open.
pub mod Descriptors
pub mod Reached
use computer_networks.Prelude.{
  ℕ, ◌≡◌, refl, ◌∙◌, ap, Bool, true, false, Option, none, some, List, [], ◌∷◌, ◌==◌, if◌then◌else◌,
}
use computer_networks.Proxy.Sockets.{ℤ, pos, negsuc, minus_one}

-- `close`.
unfoldable pub close_fd : ℕ → List ℕ → List ℕ
close_fd fd [] = []
close_fd fd (x ∷ fds) = if x == fd then fds else x ∷ close_fd fd fds

-- What comes of one address for the listening socket: with the descriptor of the socket, the call
-- that fails, if one does.
pub data Binding : Type 0 where
  no_socket : Binding
  setsockopt_fails : ℕ → Binding
  bind_fails : ℕ → Binding
  binds : ℕ → Binding

unfoldable pub find_server_socket_binding : List Binding → List ℕ → ℤ × List ℕ
unfolding close_fd
find_server_socket_binding [] fds = (minus_one, fds)
find_server_socket_binding (no_socket ∷ p) fds = find_server_socket_binding p fds
find_server_socket_binding (setsockopt_fails fd ∷ p) fds =
    find_server_socket_binding p (close_fd fd (fd ∷ fds))
find_server_socket_binding (bind_fails fd ∷ p) fds =
    find_server_socket_binding p (close_fd fd (fd ∷ fds))
find_server_socket_binding (binds fd ∷ p) fds = (pos fd, fd ∷ fds)

-- `listen` on the socket that was found.
unfoldable pub listen_on : (ℕ → Bool) → ℤ × List ℕ → ℤ × List ℕ
unfolding close_fd
listen_on listens (negsuc n, fds) = (minus_one, fds)
listen_on listens (pos fd, fds) = if listens fd then (pos fd, fds) else (minus_one, close_fd fd fds)

-- The addresses are `none` where getaddrinfo fails.
unfoldable pub proxy_server_socket_setup : Option (List Binding) → (ℕ → Bool) → List ℕ → ℤ × List ℕ
unfolding find_server_socket_binding listen_on
proxy_server_socket_setup none listens fds = (minus_one, fds)
proxy_server_socket_setup (some servinfo) listens fds =
    listen_on listens (find_server_socket_binding servinfo fds)

-- What comes of one address for the socket to a server.
pub data Connecting : Type 0 where
  no_socket : Connecting
  connect_fails : ℕ → Connecting
  connects : ℕ → Connecting

unfoldable pub find_client_socket_binding : List Connecting → List ℕ → ℤ × List ℕ
unfolding close_fd
find_client_socket_binding [] fds = (minus_one, fds)
find_client_socket_binding (no_socket ∷ p) fds = find_client_socket_binding p fds
find_client_socket_binding (connect_fails fd ∷ p) fds =
    find_client_socket_binding p (close_fd fd (fd ∷ fds))
find_client_socket_binding (connects fd ∷ p) fds = (pos fd, fd ∷ fds)

unfoldable pub found_socket : ℤ × List ℕ → ℤ × List ℕ
found_socket (negsuc n, fds) = (minus_one, fds)
found_socket (pos fd, fds) = (pos fd, fds)

unfoldable pub proxy_client_socket_setup : Option (List Connecting) → List ℕ → ℤ × List ℕ
unfolding find_client_socket_binding found_socket
proxy_client_socket_setup none fds = (minus_one, fds)
proxy_client_socket_setup (some servinfo) fds =
    found_socket (find_client_socket_binding servinfo fds)
