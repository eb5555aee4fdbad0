-- ===== src/Transfer/Fetch.antt =====
-- A file that goes from the server to the client of transport-layer/src over their mysockets.
use computer_networks.Prelude.{ℕ, ◌<◌, ◌^◌, ◌≡◌, false, true, List, [], ◌∷◌, ◌++◌, length}
use computer_networks.Prelude.Words.{Bytes}
use computer_networks.Mysock.State.{returns}
use computer_networks.Mysock.Table.{Table}
use computer_networks.Mysock.Framing.{IoCall}
use computer_networks.Transfer.Socket.Filled.{mysocket, IsOpenStream, mysocket-IsStream}
use computer_networks.Transfer.Server.{Lookup, opened, response, do_connection}
use computer_networks.Transfer.Server.Serves.{IsName, IsReadable, do_connection_serves}
use computer_networks.Transfer.Client.{stored, loop_until_end}
use computer_networks.Transfer.Client.Response.{loop_until_end_stores}

-- What the client writes to ask for a file.
abbrev pub request : Bytes → Bytes
request name = name ++ 13 ∷ 10 ∷ []

-- For a name of 1 to 255 bytes without zeros and carriage returns, and a file of less than 2 ^ 31 bytes
-- that can be read: once the client's request has come to the server's mysocket, the server writes
-- bytes and waits for the next line; and a client to whose mysocket these bytes come, in any packets,
-- writes that request, stores the file and reads nothing behind it.
pub file_fetched :
    (server_sd client_sd : ℕ) (server : Table) (files : Bytes → Lookup)
    (rounds : List (Bytes → Lookup)) (name contents : Bytes) (reads : List IoCall) (before : ℕ)
    → IsName name
    → files name ≡ opened contents reads
    → IsReadable contents reads
    → length contents < 2 ^ 31
    → IsOpenStream server_sd server (request name) []
    → (sent : Bytes) × (server' : Table) × (do_connection
          (mysocket server_sd)
          (files ∷ rounds)
          server
        ≡ do_connection (mysocket server_sd) rounds server')
      × IsOpenStream server_sd server' [] sent
      × ((client : Table) (later : Bytes)
          → IsOpenStream client_sd client (sent ++ later) []
          → (client' : Table) × (loop_until_end (mysocket client_sd) false true before name client
              ≡ returns (stored contents, client'))
            × IsOpenStream client_sd client' later (request name))
file_fetched server_sd client_sd server files rounds name contents reads before n found r small
      asked =
    let (server', serves, holds) =
      do_connection_serves (mysocket server_sd) (IsOpenStream server_sd)
        (mysocket-IsStream server_sd) files rounds name contents reads server [] [] n found r
        asked in
    (
      response name (opened contents reads) ++ contents,
      server',
      serves,
      holds,
      λ client later arrived.
          loop_until_end_stores (mysocket client_sd) (IsOpenStream client_sd)
            (mysocket-IsStream client_sd) name contents later [] reads before client n small
            arrived,
    )
