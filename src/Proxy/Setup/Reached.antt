-- ===== src/Proxy/Setup/Reached.antt =====
-- When the proxy reaches a server: `proxy_client_socket_setup` as `chat_with_client` of
-- http-proxy/src/proxy.c uses it.
use mathlib.Core.Path.{fun_ext}
use computer_networks.Prelude.{ℕ, ◌≡◌, refl, Bool, true, false, not, Option, none, some, List, []}
use computer_networks.Prelude.Words.{Bytes}
use computer_networks.Proxy.Client.{reached, is_negative}
use computer_networks.Proxy.Setup.{Connecting, proxy_client_socket_setup}
use computer_networks.Proxy.Setup.Descriptors.{gives_socket, first_connected, setup_keeps_one}

abbrev is_some : Option ℕ → Bool
is_some none = false
is_some (some fd) = true

abbrev first_reached : Option (List Connecting) → Option ℕ
first_reached none = none
first_reached (some p) = first_connected p

-- Some address of the host takes the connection.
abbrev pub some_connects : (Bytes → Bytes → Option (List Connecting)) → Bytes → Bytes → Bool
some_connects resolve host port = is_some (first_reached (resolve host port))

given-is_some : (o : Option ℕ) → not (is_negative (gives_socket [] o).0) ≡ is_some o
given-is_some none = refl
given-is_some (some fd) = refl

setup-is_some :
    (a : Option (List Connecting))
    → not (is_negative (proxy_client_socket_setup a []).0) ≡ is_some (first_reached a)
unfolding proxy_client_socket_setup
setup-is_some none = refl
setup-is_some (some p) =
    rw ((setup_keeps_one [] (λ fd. true) p []).1) (given-is_some (first_connected p))

pub reached_lem :
    (resolve : Bytes → Bytes → Option (List Connecting)) → reached resolve ≡ some_connects resolve
unfolding reached
reached_lem resolve = fun_ext (λ host. fun_ext (λ port. setup-is_some (resolve host port)))
