-- ===== src/Router/Tests/Serving.antt =====
-- Messages of the server.
use computer_networks.Prelude.{
  ℕ, zero, suc, ◌≡◌, refl, sym, ◌∙◌, true, false, none, some, List, [], ◌∷◌, ◌++◌, arith,
}
use computer_networks.Prelude.Words.{Bytes}
use computer_networks.Router.Interfaces.{sr_get_interface, strncmp_eq}
use computer_networks.Router.Interfaces.Hardware.{sr_arp_req_not_for_us, c_string}
use computer_networks.Router.Machine.{go_on, pure, done}
use computer_networks.Router.Handlers.{sr_handlepacket}
use computer_networks.Router.Server.{
  ServerCall, server_bytes, server_eintr, reads_on, session_closed, Files,
  sr_read_from_server_expect, read_more, take_length, take_message, act_on,
}
use computer_networks.Router.Server.Verified.{AreReady, giving}
use computer_networks.Router.Server.Message.{word, packet_body, message_handled}
use computer_networks.Router.Tests.Data.{eth1, small_router, small_env}

abbrev no_files : Files
no_files = record { rtable_written = false; auth_replied = false }

unfoldable bulk : ℕ → List ServerCall
bulk zero = []
bulk (suc n) = server_bytes 5 ∷ bulk n

bulk_ready : (n : ℕ) → AreReady (bulk n)
unfolding bulk
bulk_ready zero = tt
bulk_ready (suc n) = (omega arith, bulk_ready n)

giving-bulk : (n : ℕ) → giving (server_eintr ∷ bulk n) ≡ n
unfolding bulk giving
giving-bulk zero = refl
giving-bulk (suc n) = omega (arith, giving-bulk n)

-- A message that closes the session ends the reading.
close_ends :
    sr_read_from_server_expect small_env 3 eth1 no_files 0
      (record { stream = word 9 ++ word 2 ++ 0 ∷ []; calls = server_bytes 4 ∷ server_bytes 9 ∷ [] })
      small_router
    ≡ done session_closed small_router
unfolding sr_read_from_server_expect read_more take_length take_message act_on
close_ends = refl

-- An ARP request for 10.0.1.2.
abbrev other_request : Bytes
other_request =
    255 ∷ 255 ∷ 255 ∷ 255 ∷ 255 ∷ 255 ∷ 2 ∷ 0 ∷ 0 ∷ 0 ∷ 0 ∷ 7 ∷ 8 ∷ 6 ∷ 0 ∷ 1 ∷ 8 ∷ 0 ∷ 6 ∷ 4 ∷ 0
    ∷ 1 ∷ 2 ∷ 0 ∷ 0 ∷ 0 ∷ 0 ∷ 7 ∷ 10 ∷ 0 ∷ 1 ∷ 5 ∷ 0 ∷ 0 ∷ 0 ∷ 0 ∷ 0 ∷ 0 ∷ 10 ∷ 0 ∷ 1 ∷ 2 ∷ []

-- The name eth1 in its field of 16 bytes.
abbrev eth1_field : Bytes
eth1_field = 101 ∷ 116 ∷ 104 ∷ 49 ∷ 0 ∷ 0 ∷ 0 ∷ 0 ∷ 0 ∷ 0 ∷ 0 ∷ 0 ∷ 0 ∷ 0 ∷ 0 ∷ 0 ∷ []

other_request_dropped :
    sr_arp_req_not_for_us small_router.if_list other_request
      (c_string (eth1_field ++ other_request))
    ≡ some true
unfolding sr_arp_req_not_for_us sr_get_interface strncmp_eq c_string
other_request_dropped = refl

abbrev bulk_calls : List ServerCall
bulk_calls = server_eintr ∷ bulk 66

bulk-AreReady : AreReady bulk_calls
bulk-AreReady = bulk_ready 66

message_handled_example :
    (left : List ServerCall) × (sr_read_from_server_expect small_env 3 eth1 no_files 0
        (record {
          stream = word 66 ++ packet_body eth1_field other_request ++ 9 ∷ [];
          calls = bulk_calls;
        })
        small_router
      ≡ go_on
          (sr_handlepacket small_env 3 other_request
            (c_string (eth1_field ++ other_request))
            small_router)
          (λ handled. pure (reads_on (record { stream = 9 ∷ []; calls = left }))))
message_handled_example =
    message_handled small_env 3 eth1 no_files bulk_calls eth1_field other_request (9 ∷ [])
      small_router refl (omega arith) bulk-AreReady (omega (arith, giving-bulk 66))
      (λ e. let clash : some true ≡ none = sym other_request_dropped ∙ e in cc)
