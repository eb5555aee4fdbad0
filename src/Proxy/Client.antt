-- ===== src/Proxy/Client.antt =====
-- `parse_request` and `chat_with_client` of http-proxy/src/proxy.c. What the system does to find and
-- reach a server is a parameter.
use computer_networks.Prelude.{
  ℕ, Bool, true, false, not, Option, none, some, List, [], ◌∷◌, ◌++◌, leb, if◌then◌else◌, length,
  take,
}
use computer_networks.Prelude.Words.{Bytes, put}
use computer_networks.Proxy.Parse.Strings.{codes, same_text}
use computer_networks.Proxy.Parse.Headers.{RequestLine, ParsedRequest, parsed_request_create}
use computer_networks.Proxy.Parse.Request.{parsed_request_parse}
use computer_networks.Proxy.Setup.{Connecting, proxy_client_socket_setup}
use computer_networks.Proxy.Sockets.{
  ℤ, pos, negsuc, minus_one, Run, gives, and_on, Recv, receive_from_socket, Send, send_to_socket,
}

-- What `snprintf` writes for its format.
unfoldable pub request_text : RequestLine → Bytes
request_text req =
    codes "GET "
    ++ req.path
    ++ codes " HTTP/1.0\r\nHost: "
    ++ req.host
    ++ codes "\r\nConnection: close\r\n\r\n"

abbrev pub port_of : Option Bytes → Bytes
port_of none = codes "80"
port_of (some port) = port

-- The result of `parse_request`: -1, -400 or -501, or the length with the buffer, the host and the
-- port.
pub data Parsed : Type 0 where
  internal_error : Parsed
  bad_request : Parsed
  not_implemented : Parsed
  formatted : ℕ → Bytes → Bytes → Bytes → Parsed

-- `snprintf` into the buffer, with a 0 behind what it writes.
unfoldable pub format_into : Bytes → Bytes → Bytes → Bytes → Parsed
format_into text buffer host port =
    if leb (length buffer) (length text)
    then internal_error
    else formatted (length text) (put 0 (text ++ 0 ∷ []) buffer) host port

unfoldable pub request_of : Bytes → Option RequestLine → Parsed
unfolding same_text format_into request_text
request_of buffer none = bad_request
request_of buffer (some req) =
    if same_text req.method (codes "GET")
    then format_into (request_text req) buffer req.host (port_of req.port)
    else not_implemented

-- What the sockets do while one client is served.
pub record Traffic : Type 0 where
  pub client_recvs : List Recv
  pub server_sends : List Send
  pub server_recvs : List Recv
  pub client_sends : List Send

-- The result of `chat_with_client`, what went to the server, and what went to the client.
pub record Chat : Type 0 where
  pub rc : ℤ
  pub to_server : Bytes
  pub to_client : Bytes

abbrev pub bad_request_reply : Bytes
bad_request_reply = codes "HTTP/1.0 400 Bad Request\r\n\r\n"

abbrev pub not_implemented_reply : Bytes
not_implemented_reply = codes "HTTP/1.0 501 Not Implemented\r\n\r\n"

abbrev pub is_negative : ℤ → Bool
is_negative (pos n) = false
is_negative (negsuc n) = true

-- The reply to a request that is not passed on; the result of sending it is not read.
unfoldable pub refuse : List Send → Bytes → Run Chat
unfolding send_to_socket
refuse sends reply =
    and_on (send_to_socket sends (pos 0) reply [])
      (λ sent. gives (record { rc = minus_one; to_server = []; to_client = sent.1 }))

abbrev pub received_length : ℤ → ℕ
received_length (pos n) = n
received_length (negsuc n) = 0

-- From the answer of the server on.
unfoldable pub pass_back : List Send → Bytes → ℤ × Bytes → Run Chat
unfolding send_to_socket
pass_back sends to_server (total, buffer) =
    if is_negative total
    then gives (record { rc = minus_one; to_server = to_server; to_client = [] })
    else and_on (send_to_socket sends (pos 0) (take (received_length total) buffer) []) (λ sent.
      gives (record {
        rc = if is_negative sent.0 then minus_one else pos 0;
        to_server = to_server;
        to_client = sent.1;
      }))

-- From the request that goes to the server on. `server_buffer` is what was in its place before.
unfoldable pub ask_server : Traffic → Bytes → Bytes → Run Chat
unfolding send_to_socket receive_from_socket pass_back
ask_server t request server_buffer =
    and_on (send_to_socket t.server_sends (pos 0) request []) (λ sent.
      if is_negative sent.0
      then gives (record { rc = minus_one; to_server = sent.1; to_client = [] })
      else and_on (receive_from_socket t.server_recvs (pos 0) server_buffer)
          (pass_back t.client_sends sent.1))

-- `proxy_client_socket_setup` gives a socket. `resolve` is what comes of the host's addresses.
unfoldable pub reached : (Bytes → Bytes → Option (List Connecting)) → Bytes → Bytes → Bool
unfolding proxy_client_socket_setup
reached resolve host port = not (is_negative (proxy_client_socket_setup (resolve host port) []).0)

-- `reaches host port` says whether there is a socket to the server.
unfoldable pub serve : (Bytes → Bytes → Bool) → Traffic → Bytes → Parsed → Run Chat
unfolding refuse ask_server
serve reaches t server_buffer internal_error =
    gives (record { rc = minus_one; to_server = []; to_client = [] })
serve reaches t server_buffer bad_request = refuse t.client_sends bad_request_reply
serve reaches t server_buffer not_implemented = refuse t.client_sends not_implemented_reply
serve reaches t server_buffer (formatted len buffer host port) =
    if reaches host port
    then ask_server t (take len buffer) server_buffer
    else gives (record { rc = minus_one; to_server = []; to_client = [] })

-- The request line, if `ParsedRequest_parse` gives 0.
abbrev pub accepted : Bool × ParsedRequest → Option RequestLine
accepted (true, pr) = pr.line
accepted (false, pr) = none

-- `bad_port` is a parameter of `ParsedRequest_parse`.
unfoldable pub chat_with_client :
    (Bytes → Bool) → (Bytes → Bytes → Option (List Connecting)) → Traffic → Bytes → Bytes → Run Chat
unfolding receive_from_socket request_of serve reached
chat_with_client bad_port resolve t client_buffer server_buffer =
    and_on (receive_from_socket t.client_recvs (pos 0) client_buffer) (λ received.
      if is_negative received.0
      then gives (record { rc = minus_one; to_server = []; to_client = [] })
      else and_on
          (parsed_request_parse bad_port parsed_request_create
            (take (received_length received.0) received.1))
          (λ parsed.
            serve (reached resolve) t server_buffer (request_of received.1 (accepted parsed))))
