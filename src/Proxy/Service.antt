-- ===== src/Proxy/Service.antt =====
-- What `chat_with_client` answers.
use computer_networks.Prelude.{
  ℕ, ◌≡◌, ◌≤◌, inl, inr, refl, ap, Bool, true, false, Option, none, some, List, [], ◌∷◌, ◌++◌, leb,
  length, take, arith, Bool-cases, length-take,
}
use computer_networks.Prelude.Words.{Bytes, put, overlay}
use computer_networks.Prelude.Words.Slices.{joined}
use computer_networks.Proxy.Sockets.{
  pos, minus_one, Run, gives, waits, faults, and_on, recv_buffer_size,
}
use computer_networks.Proxy.Parse.Strings.{codes, same_text}
use computer_networks.Proxy.Parse.Headers.{RequestLine, ParsedRequest, parsed_request_create}
use computer_networks.Proxy.Parse.Request.{parsed_request_parse}
use computer_networks.Proxy.Parse.Ends.{Ends, parse-Ends}
use computer_networks.Proxy.Client.{
  request_text, accepted, port_of, format_into, request_of, Traffic, Chat, bad_request_reply,
  not_implemented_reply, refuse, pass_back, ask_server, serve, chat_with_client,
}
use computer_networks.Proxy.Setup.{Connecting}
use computer_networks.Proxy.Setup.Reached.{some_connects, reached_lem}
use computer_networks.Proxy.Receive.{arrivals, AreSome}
use computer_networks.Proxy.Receive.Front.{IsFront, receive-IsFront}
use computer_networks.Proxy.Deliver.{IsSending, send_whole}

abbrev pub is_get : RequestLine → Bool
is_get req = same_text req.method (codes "GET")

-- The answer to what was parsed, if the server's stream comes in `answer`.
pub data IsAnswer (reaches : Bytes → Bytes → Bool) (answer : List Bytes)
    : Option RequestLine → Chat → Type 0 where
  unparsed :
      IsAnswer reaches answer none
        (record { rc = minus_one; to_server = []; to_client = bad_request_reply })
  other_method :
      {req : RequestLine}
      → is_get req ≡ false
      → IsAnswer reaches answer
          (some req)
          (record { rc = minus_one; to_server = []; to_client = not_implemented_reply })
  too_long :
      {req : RequestLine}
      → is_get req ≡ true
      → recv_buffer_size ≤ length (request_text req)
      → IsAnswer reaches answer
          (some req)
          (record { rc = minus_one; to_server = []; to_client = [] })
  unreachable :
      {req : RequestLine}
      → is_get req ≡ true
      → reaches req.host (port_of req.port) ≡ false
      → IsAnswer reaches answer
          (some req)
          (record { rc = minus_one; to_server = []; to_client = [] })
  served :
      {req : RequestLine} (total : ℕ)
      → is_get req ≡ true
      → reaches req.host (port_of req.port) ≡ true
      → IsFront answer total
      → IsAnswer reaches answer (some req) (record {
        rc = pos 0;
        to_server = request_text req;
        to_client = take total (joined answer);
      })

-- What comes of the client, by what comes of the parser.
abbrev pub IsOutcome :
    (Bytes → Bytes → Bool) → List Bytes → Run (Bool × ParsedRequest) → Run Chat → Type 0
IsOutcome reaches answer (gives parsed) run =
    (c : Chat) × (run ≡ gives c) × IsAnswer reaches answer (accepted parsed) c
IsOutcome reaches answer waits run = ⊥
IsOutcome reaches answer faults run = run ≡ faults

-- The sockets work: what is received comes in pieces, and what is sent is taken piece by piece.
pub record IsWorking (client_pieces server_pieces : List Bytes) (t : Traffic) : Type 0 where
  pub client_arrives : t.client_recvs ≡ arrivals client_pieces
  pub client_some : AreSome client_pieces
  pub server_arrives : t.server_recvs ≡ arrivals server_pieces
  pub server_some : AreSome server_pieces
  pub server_takes : IsSending t.server_sends
  pub server_enough : recv_buffer_size ≤ length t.server_sends
  pub client_takes : IsSending t.client_sends
  pub client_enough : recv_buffer_size ≤ length t.client_sends

module _ (client_pieces server_pieces : List Bytes) (t : Traffic)
    (works : IsWorking client_pieces server_pieces t) where
  refuse_lem :
      (reply : Bytes)
      → length reply ≤ recv_buffer_size
      → refuse t.client_sends reply
        ≡ gives (record { rc = minus_one; to_server = []; to_client = reply })
  unfolding refuse
  refuse_lem reply short =
      rw
        (send_whole t.client_sends reply works.client_takes
          (omega (arith, works.client_enough, short)))
        refl

  -- A request that fits is passed on, and so is the front of the answer.
  ask_server_lem :
      (request server_buffer : Bytes)
      → length request ≤ recv_buffer_size
      → length server_buffer ≡ recv_buffer_size
      → (total : ℕ) × IsFront server_pieces total
        × (ask_server t request server_buffer
            ≡ gives (record {
              rc = pos 0;
              to_server = request;
              to_client = take total (joined server_pieces);
            }))
  unfolding ask_server pass_back
  ask_server_lem request server_buffer short full =
      let (total, buffer', read, is_front, front, room) =
        receive-IsFront server_pieces server_buffer works.server_some full in
      let fits : length (take total (joined server_pieces)) ≤ length t.client_sends =
        omega (
          arith,
          length-take total (joined server_pieces),
          is_front.at_most,
          works.client_enough,
        ) in
      (
        total,
        is_front,
        rw
            (
              send_whole t.server_sends request works.server_takes
                  (omega (arith, works.server_enough, short)),
              works.server_arrives,
              read,
              front,
              send_whole t.client_sends (take total (joined server_pieces)) works.client_takes fits,
            )
            refl,
      )

  take-format :
      (text behind p : Bytes)
      → length text ≤ length p
      → take (length text) (put 0 (text ++ behind) p) ≡ text
  unfolding put overlay
  take-format [] behind p fits = refl
  take-format (x ∷ text) behind [] fits = absurd (omega arith)
  take-format (x ∷ text) behind (y ∷ p) fits =
      ap (λ t. x ∷ t) (take-format text behind p (omega arith))

  serve_lem :
      (reaches : Bytes → Bytes → Bool) (parsed : Option RequestLine) (buffer server_buffer : Bytes)
      → length buffer ≡ recv_buffer_size
      → length server_buffer ≡ recv_buffer_size
      → (c : Chat) × (serve reaches t server_buffer (request_of buffer parsed) ≡ gives c)
        × IsAnswer reaches server_pieces parsed c
  unfolding serve request_of format_into
  serve_lem reaches none buffer server_buffer hb hs =
      (_, refuse_lem bad_request_reply (omega arith), unparsed)
  serve_lem reaches (some req) buffer server_buffer hb hs = elim (Bool-cases (is_get req)) [
    | inr other ↦ (_, rw other (refuse_lem not_implemented_reply (omega arith)), other_method other)
    | inl get ↦ elim (Bool-cases (leb (length buffer) (length (request_text req)))) [
      | inl long ↦ (_, rw (get, long) refl, too_long get (ground (arith, hb, long)))
      | inr short ↦ elim (Bool-cases (reaches req.host (port_of req.port))) [
        | inr away ↦ (_, rw (get, short, away) refl, unreachable get away)
        | inl near ↦
            let text : Bytes = request_text req in
            let fits : length text ≤ recv_buffer_size = ground (arith, hb, short) in
            let (total, is_front, asked) = ask_server_lem text server_buffer fits hs in
            (
              _,
              rw (get, short, near, take-format text (0 ∷ []) buffer (omega (arith, hb, fits)))
                  asked,
              served total get near is_front,
            )
      ]
    ]
  ]

  answer_on :
      (reaches : Bytes → Bytes → Bool) (buffer server_buffer : Bytes)
      → length buffer ≡ recv_buffer_size
      → length server_buffer ≡ recv_buffer_size
      → (r : Run (Bool × ParsedRequest)) → Ends r
      → IsOutcome reaches server_pieces r
          (and_on r (λ parsed. serve reaches t server_buffer (request_of buffer (accepted parsed))))
  answer_on reaches buffer server_buffer hb hs (gives parsed) ends =
      serve_lem reaches (accepted parsed) buffer server_buffer hb hs
  answer_on reaches buffer server_buffer hb hs waits ends = elim ends [ ]
  answer_on reaches buffer server_buffer hb hs faults ends = refl

  -- With sockets that work, a client is always answered, unless the parser faults, by what the
  -- parser makes of the front of what it sent: all of it, the 2048 bytes that the buffer holds, or
  -- up to the first piece that ends a header. What the parser refuses is answered with 400, a
  -- method but GET with 501, one that gets too long or of whose server no address takes a
  -- connection with nothing; else the server gets the request in the proxy's form, without the
  -- other headers, and the client the front of the server's answer, cut in the same way.
  pub chat_answers :
      (bad_port : Bytes → Bool) (resolve : Bytes → Bytes → Option (List Connecting))
      (client_buffer server_buffer : Bytes)
      → length client_buffer ≡ recv_buffer_size
      → length server_buffer ≡ recv_buffer_size
      → (n : ℕ) × IsFront client_pieces n
        × IsOutcome
            (some_connects resolve)
            server_pieces
            (parsed_request_parse bad_port parsed_request_create (take n (joined client_pieces)))
            (chat_with_client bad_port resolve t client_buffer server_buffer)
  unfolding chat_with_client
  chat_answers bad_port resolve client_buffer server_buffer hc hs =
      let (n, buffer', read, is_front, front, room) =
        receive-IsFront client_pieces client_buffer works.client_some hc in
      (
        n,
        is_front,
        rw (works.client_arrives, read, front, reached_lem resolve)
            (answer_on (some_connects resolve) buffer' server_buffer room hs
              (parsed_request_parse bad_port parsed_request_create (take n (joined client_pieces)))
              (parse-Ends bad_port parsed_request_create (take n (joined client_pieces)))),
      )
