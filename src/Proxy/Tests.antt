-- ===== src/Proxy/Tests.antt =====
-- Runs of the proxy on small inputs.
use computer_networks.Prelude.{
  ℕ, Bool, false, zero, suc, ◌≡◌, refl, ap, true, Option, none, some, List, [], ◌∷◌, length, take,
  arith,
}
use computer_networks.Prelude.Words.{Bytes}
use computer_networks.Prelude.Words.Slices.{joined}
use computer_networks.Proxy.Sockets.{Send, takes}
use computer_networks.Proxy.Client.{request_text, Traffic, chat_with_client}
use computer_networks.Proxy.Parse.Strings.{codes}
use computer_networks.Proxy.Parse.Headers.{RequestLine, parsed_request_create}
use computer_networks.Proxy.Parse.Request.{parsed_request_parse}
use computer_networks.Proxy.Receive.{arrivals}
use computer_networks.Proxy.Deliver.{IsSending}
use computer_networks.Proxy.Setup.{Connecting, connects, connect_fails, Binding, bind_fails, binds}
use computer_networks.Proxy.Setup.Descriptors.{first_bound}
use computer_networks.Proxy.Loop.{Round, accept_fails, fork_fails, forks, runs, proxy}
use computer_networks.Proxy.Loop.Clients.{children_of, proxy_serves}
use computer_networks.Proxy.Setup.Reached.{some_connects}
use computer_networks.Proxy.Receive.Front.{IsFront}
use computer_networks.Proxy.Service.{IsOutcome, IsWorking, chat_answers}

unfoldable blank : ℕ → Bytes
blank zero = []
blank (suc n) = 0 ∷ blank n

length-blank : (n : ℕ) → length (blank n) ≡ n
unfolding blank
length-blank zero = refl
length-blank (suc n) = ap suc (length-blank n)

unfoldable single_bytes : ℕ → List Send
single_bytes zero = []
single_bytes (suc n) = takes 1 ∷ single_bytes n

length-single_bytes : (n : ℕ) → length (single_bytes n) ≡ n
unfolding single_bytes
length-single_bytes zero = refl
length-single_bytes (suc n) = ap suc (length-single_bytes n)

single_bytes-IsSending : (n : ℕ) → IsSending (single_bytes n)
unfolding single_bytes
single_bytes-IsSending zero = tt
single_bytes-IsSending (suc n) = (omega arith, single_bytes-IsSending n)

-- The request comes in two pieces, the answer in one.
abbrev asked_in : List Bytes
asked_in = codes "GET http://a.b/c HT" ∷ codes "TP/1.0\r\n\r\n" ∷ []

abbrev answered_in : List Bytes
answered_in = codes "HTTP/1.0 200 OK\r\n\r\nhello" ∷ []

abbrev small_traffic : Traffic
small_traffic = record {
  client_recvs = arrivals asked_in;
  server_sends = single_bytes 2048;
  server_recvs = arrivals answered_in;
  client_sends = single_bytes 2048;
}

small_works : IsWorking asked_in answered_in small_traffic
small_works = record {
  client_arrives = refl;
  client_some = (omega arith, (omega arith, tt));
  server_arrives = refl;
  server_some = (omega arith, tt);
  server_takes = single_bytes-IsSending 2048;
  server_enough = omega (arith, length-single_bytes 2048);
  client_takes = single_bytes-IsSending 2048;
  client_enough = omega (arith, length-single_bytes 2048);
}

abbrev takes_ports : Bytes → Bool
takes_ports port = false

abbrev request_c : RequestLine
request_c = record {
  method = codes "GET";
  protocol = codes "http";
  host = codes "a.b";
  port = none;
  path = codes "/c";
  version = codes "HTTP/1.0";
}

-- The host has two addresses, and only the second one answers.
abbrev second_connects : Bytes → Bytes → Option (List Connecting)
second_connects host port = some (connect_fails 5 ∷ connects 5 ∷ [])

chat_answers_example :
    (n : ℕ) × IsFront asked_in n
    × IsOutcome
        (some_connects second_connects)
        answered_in
        (parsed_request_parse takes_ports parsed_request_create (take n (joined asked_in)))
        (chat_with_client takes_ports second_connects small_traffic (blank 2048) (blank 2048))
chat_answers_example =
    chat_answers asked_in answered_in small_traffic small_works takes_ports second_connects
      (blank 2048) (blank 2048) (length-blank 2048) (length-blank 2048)

-- The text that the server gets for the request.
request_c_text :
    request_text request_c ≡ codes "GET /c HTTP/1.0\r\nHost: a.b\r\nConnection: close\r\n\r\n"
unfolding request_text
request_c_text = refl

-- The second address is free; of three clients two are forked for.
abbrev two_bindings : List Binding
two_bindings = bind_fails 3 ∷ binds 3 ∷ []

abbrev four_rounds : List Round
four_rounds = forks 4 ∷ accept_fails ∷ fork_fails 4 ∷ forks 4 ∷ []

proxy_serves_example :
    proxy (some two_bindings) (λ fd. true) true four_rounds (2 ∷ 1 ∷ 0 ∷ [])
    ≡ runs (record {
      fds = 3 ∷ 2 ∷ 1 ∷ 0 ∷ [];
      children =
          (record { clientfd = 4; fds = 4 ∷ 2 ∷ 1 ∷ 0 ∷ [] })
          ∷ (record { clientfd = 4; fds = 4 ∷ 2 ∷ 1 ∷ 0 ∷ [] })
          ∷ [];
    })
unfolding first_bound children_of
proxy_serves_example = proxy_serves two_bindings (λ fd. true) true four_rounds (2 ∷ 1 ∷ 0 ∷ [])
