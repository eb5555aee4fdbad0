-- ===== src/Router/Server.antt =====
-- `sr_read_from_server_expect` of router/src/router/sr_vns_comm.c, which reads a message of the
-- server and acts on it, and `sr_verify_routing_table` of router/src/router/sr_main.c. The log file
-- is left out, as is what is only printed.
pub mod Verified
pub mod Message
use computer_networks.Prelude.{
  ℕ, zero, suc, ◌+◌, ◌-◌, ◌*◌, ◌/◌, min, Bool, true, false, ◌&&◌, not, Option, none, some, List, [],
  ◌∷◌, ◌++◌, ltb, ◌==◌, if◌then◌else◌, length, take, drop,
}
use computer_networks.Prelude.Words.{Bytes, byte, slice}
use computer_networks.Router.State.{Name, Interface, Route, Router, Env}
use computer_networks.Router.Interfaces.{strncmp_eq, iface_namelen}
use computer_networks.Router.Interfaces.Hardware.{
  HwEntry, c_string, sr_handle_hwinfo, sr_arp_req_not_for_us,
}
use computer_networks.Router.Machine.{
  M, Outcome, done, fault, return, pure, ◌>>=◌, ◌>>◌, gets, need, deref,
}
use computer_networks.Router.Handlers.{sr_handlepacket}

-- `ntohl` of the word at an offset.
abbrev pub net32 : Bytes → ℕ → ℕ
net32 p o = 16777216 * byte p o + 65536 * byte p (o + 1) + 256 * byte p (o + 2) + byte p (o + 3)

-- The inner loop: is the name one of an interface?
unfoldable pub interface_known : Name → List Interface → Bool
unfolding strncmp_eq
interface_known name [] = false
interface_known name (i ∷ ifs) =
    if strncmp_eq iface_namelen i.name name then true else interface_known name ifs

-- The routes whose interface does not exist.
unfoldable pub count_unknown : List Interface → List Route → ℕ
unfolding interface_known
count_unknown ifs [] = 0
count_unknown ifs (r ∷ rt) =
    (if interface_known r.interface ifs then 0 else 1) + count_unknown ifs rt

unfoldable pub sr_verify_routing_table : List Interface → List Route → ℕ
unfolding count_unknown
sr_verify_routing_table [] rt = 999
sr_verify_routing_table (i ∷ ifs) [] = 999
sr_verify_routing_table (i ∷ ifs) (r ∷ rt) = count_unknown (i ∷ ifs) (r ∷ rt)

-- What a call of `recv` or `read` does: it gives at most so many of the bytes that are there, or
-- -1 with EINTR, or -1.
pub data ServerCall : Type 0 where
  server_bytes : ℕ → ServerCall
  server_eintr : ServerCall
  server_failure : ServerCall

-- What the server sends, and the calls to come.
pub record Feed : Type 0 where
  pub stream : Bytes
  pub calls : List ServerCall

pub data Got : Type 0 where
  whole : Bytes → Feed → Got
  broken : Got
  starved : Got

-- Both loops that read, with so many bytes to go. A call that gives 0 bytes is made again.
unfoldable pub read_more : List ServerCall → ℕ → Bytes → Bytes → Got
read_more calls zero got stream = whole got (record { stream = stream; calls = calls })
read_more [] (suc n) got stream = starved
read_more (server_bytes k ∷ calls) (suc n) got stream =
    let ret = min (min k (suc n)) (length stream) in
    read_more calls (suc n - ret) (got ++ take ret stream) (drop ret stream)
read_more (server_eintr ∷ calls) (suc n) got stream = read_more calls (suc n) got stream
read_more (server_failure ∷ calls) (suc n) got stream = broken

-- The result 1 with what is left to read, 0 or -1; or the code waits on.
pub data Served : Type 0 where
  reads_on : Feed → Served
  session_closed : Served
  server_error : Served
  server_waits : Served

abbrev pub vns_close : ℕ
vns_close = 2

abbrev pub vns_packet : ℕ
vns_packet = 4

abbrev pub vns_hwinfo : ℕ
vns_hwinfo = 16

abbrev pub vns_rtable : ℕ
vns_rtable = 32

abbrev pub vns_auth_request : ℕ
vns_auth_request = 128

abbrev pub vns_auth_status : ℕ
vns_auth_status = 512

-- Whether `sr_handle_rtable` could write its file, and `sr_handle_auth_request` its reply.
pub record Files : Type 0 where
  pub rtable_written : Bool
  pub auth_replied : Bool

-- The frame stands behind a header of 24 bytes, with the interface's name at offset 8.
unfoldable pub packet_message : Env → ℕ → Bytes → M (Unit {0})
packet_message env fuel buf = do
  need buf 24
  ifs ← gets (λ r. r.if_list)
  dropped ← deref (sr_arp_req_not_for_us ifs (drop 24 buf) (c_string (drop 8 buf)))
  if dropped then return else sr_handlepacket env fuel (drop 24 buf) (c_string (drop 8 buf))

-- `num_entries` entries of 36 bytes each.
unfoldable pub hw_entries : ℕ → Bytes → List HwEntry
hw_entries zero p = []
hw_entries (suc n) p = record { key = net32 p 0; value = slice p 4 32 } ∷ hw_entries n (drop 36 p)

abbrev pub set_if_list : List Interface → M (Unit {0})
set_if_list ifs r = done tt (record r { if_list = ifs })

-- `raw` is what `malloc` leaves in a new interface.
unfoldable pub hwinfo_message : Interface → Bytes → Feed → M Served
hwinfo_message raw buf feed = do
  ifs ← gets (λ r. r.if_list)
  ifs' ← deref (sr_handle_hwinfo raw (hw_entries ((length buf - 8) / 36) (drop 8 buf)) ifs)
  set_if_list ifs'
  rt ← gets (λ r. r.routing_table)
  pure (if sr_verify_routing_table ifs' rt == 0 then reads_on feed else server_error)

-- The switch on the command.
unfoldable pub act_on : Env → ℕ → Interface → Files → ℕ → Bytes → Feed → M Served
act_on env fuel raw files command buf feed =
    if command == vns_packet
    then packet_message env fuel buf >> pure (reads_on feed)
    else if command == vns_close
    then pure session_closed
    else if command == vns_hwinfo
    then hwinfo_message raw buf feed
    else if command == vns_rtable
    then pure (if files.rtable_written then reads_on feed else server_error)
    else if command == vns_auth_request
    then pure (if files.auth_replied then reads_on feed else server_error)
    else if command == vns_auth_status
    then need buf 9 >> pure (if byte buf 8 == 0 then server_error else reads_on feed)
    else pure (reads_on feed)

-- The message without its first word, which is written to it again.
unfoldable pub take_message : Env → ℕ → Interface → Files → ℕ → Bytes → Got → M Served
take_message env fuel raw files expected_cmd size starved = pure server_waits
take_message env fuel raw files expected_cmd size broken = pure server_error
take_message env fuel raw files expected_cmd size (whole rest feed) =
    let buf = size ++ rest in
    need buf 8
    >> (if not (expected_cmd == 0)
          && not (net32 buf 4 == expected_cmd)
          && not (net32 buf 4 == vns_close)
        then pure server_error
        else act_on env fuel raw files (net32 buf 4) buf feed)

-- A length below 0 is one above 2 ^ 31 here. A block of less than 4 bytes has no room for it.
unfoldable pub take_length : Env → ℕ → Interface → Files → ℕ → Got → M Served
take_length env fuel raw files expected_cmd starved = pure server_waits
take_length env fuel raw files expected_cmd broken = pure server_error
take_length env fuel raw files expected_cmd (whole size feed) =
    let len = net32 size 0 in
    if ltb 10000 len
    then pure server_error
    else if ltb len 4
    then (λ r. fault)
    else take_message env fuel raw files expected_cmd size
        (read_more feed.calls (len - 4) [] feed.stream)

unfoldable pub sr_read_from_server_expect : Env → ℕ → Interface → Files → ℕ → Feed → M Served
sr_read_from_server_expect env fuel raw files expected_cmd feed =
    take_length env fuel raw files expected_cmd (read_more feed.calls 4 [] feed.stream)
