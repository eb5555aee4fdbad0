-- ===== src/Proxy/Loop/Clients.antt =====
-- Which clients the children of `proxy` (http-proxy/src/proxy.c) serve, and what stays open.
use computer_networks.Prelude.{
  ℕ, ◌≡◌, refl, ◌∙◌, ap, Bool, Option, none, some, List, [], ◌∷◌, if◌then◌else◌, arith,
}
use computer_networks.Proxy.Setup.{close_fd, Binding}
use computer_networks.Proxy.Setup.Descriptors.{
  close_opened, gives_socket, first_bound, listening_socket, setup_keeps_one,
}
use computer_networks.Proxy.Loop.{
  Round, accept_fails, fork_fails, forks, Child, accept_client, accept_clients, Proxy, gives_up,
  runs, run_on, proxy,
}

-- A child for every round that forks, the last one first, before the children that were there. Each
-- holds its client open, and what was open before the set-up, but not the listening socket.
unfoldable pub children_of : List ℕ → List Round → List Child → List Child
children_of fds [] cs = cs
children_of fds (accept_fails ∷ rs) cs = children_of fds rs cs
children_of fds (fork_fails clientfd ∷ rs) cs = children_of fds rs cs
children_of fds (forks clientfd ∷ rs) cs =
    children_of fds rs ((record { clientfd = clientfd; fds = clientfd ∷ fds }) ∷ cs)

close_listening :
    (sockfd clientfd : ℕ) (fds : List ℕ)
    → close_fd sockfd (clientfd ∷ sockfd ∷ fds) ≡ clientfd ∷ fds
unfolding close_fd
close_listening sockfd clientfd fds = grind arith

accept_clients_lem :
    (sockfd : ℕ) (fds : List ℕ) (rs : List Round) (cs : List Child)
    → accept_clients sockfd rs (record { fds = sockfd ∷ fds; children = cs })
      ≡ record { fds = sockfd ∷ fds; children = children_of fds rs cs }
unfolding accept_clients accept_client children_of
accept_clients_lem sockfd fds [] cs = refl
accept_clients_lem sockfd fds (accept_fails ∷ rs) cs = accept_clients_lem sockfd fds rs cs
accept_clients_lem sockfd fds (fork_fails clientfd ∷ rs) cs =
    rw (close_opened clientfd (sockfd ∷ fds)) (accept_clients_lem sockfd fds rs cs)
accept_clients_lem sockfd fds (forks clientfd ∷ rs) cs =
    rw (close_opened clientfd (sockfd ∷ fds), close_listening sockfd clientfd fds)
      (accept_clients_lem sockfd fds rs _)

-- How the run of the proxy goes on from the socket found.
abbrev goes_on : Bool → List Round → List ℕ → Option ℕ → Proxy
goes_on sigaction rounds fds none = gives_up fds
goes_on sigaction rounds fds (some sockfd) =
    if sigaction
    then runs (record { fds = sockfd ∷ fds; children = children_of fds rounds [] })
    else gives_up (sockfd ∷ fds)

goes_on_lem :
    (sigaction : Bool) (rounds : List Round) (fds : List ℕ) (o : Option ℕ)
    → run_on sigaction rounds (gives_socket fds o) ≡ goes_on sigaction rounds fds o
unfolding run_on
goes_on_lem sigaction rounds fds none = refl
goes_on_lem sigaction rounds fds (some sockfd) = rw (accept_clients_lem sockfd fds rounds []) refl

-- Without a socket to listen on, or without its signal handler, the proxy gives up. Else, after any
-- rounds, every client that was accepted and forked for has a child of its own, which does not hold
-- the listening socket, and the parent holds that socket and none of a client.
pub proxy_serves :
    (servinfo : List Binding) (listens : ℕ → Bool) (sigaction : Bool) (rounds : List Round)
    (fds : List ℕ)
    → proxy (some servinfo) listens sigaction rounds fds
      ≡ goes_on sigaction rounds fds (listening_socket listens (first_bound servinfo))
unfolding proxy
proxy_serves servinfo listens sigaction rounds fds =
    ap (run_on sigaction rounds) ((setup_keeps_one servinfo listens [] fds).0)
    ∙ goes_on_lem sigaction rounds fds (listening_socket listens (first_bound servinfo))
