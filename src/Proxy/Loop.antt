-- ===== src/Proxy/Loop.antt =====
-- `proxy` of http-proxy/src/proxy.c: the loop that accepts clients and forks. What accept and fork do
-- is a value, and so are the descriptors that a process holds open.
pub mod Clients
use computer_networks.Prelude.{ℕ, List, [], ◌∷◌, Option, Bool, if◌then◌else◌}
use computer_networks.Proxy.Sockets.{ℤ, pos, negsuc}
use computer_networks.Proxy.Setup.{close_fd, Binding, proxy_server_socket_setup}

-- What comes of one round of the loop: no client, or the descriptor of one, with a fork that fails
-- or not.
pub data Round : Type 0 where
  accept_fails : Round
  fork_fails : ℕ → Round
  forks : ℕ → Round

-- A child: the client that it serves by `chat_with_client`, and what it holds open before it does.
pub record Child : Type 0 where
  pub clientfd : ℕ
  pub fds : List ℕ

-- Where the run stands: what the parent holds open, and the children so far, the last one first.
pub record Parent : Type 0 where
  pub fds : List ℕ
  pub children : List Child

-- One round. A child has a copy of the parent's descriptors, and closes the listening one.
unfoldable pub accept_client : ℕ → Round → Parent → Parent
unfolding close_fd
accept_client sockfd accept_fails s = s
accept_client sockfd (fork_fails clientfd) s = record s {
  fds = close_fd clientfd (clientfd ∷ s.fds);
}
accept_client sockfd (forks clientfd) s = record {
  fds = close_fd clientfd (clientfd ∷ s.fds);
  children =
      (record { clientfd = clientfd; fds = close_fd sockfd (clientfd ∷ s.fds) }) ∷ s.children;
}

-- The loop, which never ends, after the rounds given.
unfoldable pub accept_clients : ℕ → List Round → Parent → Parent
unfolding accept_client
accept_clients sockfd [] s = s
accept_clients sockfd (r ∷ rs) s = accept_clients sockfd rs (accept_client sockfd r s)

-- `proxy`: it gives up, or it runs. `sigaction` says whether the handler is set.
pub data Proxy : Type 0 where
  gives_up : List ℕ → Proxy
  runs : Parent → Proxy

unfoldable pub run_on : Bool → List Round → ℤ × List ℕ → Proxy
unfolding accept_clients
run_on sigaction rounds (negsuc n, fds) = gives_up fds
run_on sigaction rounds (pos sockfd, fds) =
    if sigaction
    then runs (accept_clients sockfd rounds (record { fds = fds; children = [] }))
    else gives_up fds

unfoldable pub proxy : Option (List Binding) → (ℕ → Bool) → Bool → List Round → List ℕ → Proxy
unfolding run_on proxy_server_socket_setup
proxy servinfo listens sigaction rounds fds =
    run_on sigaction rounds (proxy_server_socket_setup servinfo listens fds)
