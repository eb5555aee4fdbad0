-- ===== src/Lib.antt =====
-- A model of the router, of the STCP transport with its socket layer and of the HTTP proxy of this
-- repository, all written in C.
--
-- The program. The router (router/src/router) receives Ethernet frames from a server, answers ARP
-- requests for its interfaces and pings of its own addresses, forwards IP packets by the longest
-- prefix match, queues packets whose next hop has no known MAC address while it asks for it, and
-- reports ICMP errors. A second thread wakes once a second, expires mappings and repeats or gives up
-- requests. The two threads share the ARP cache under one lock.
--
-- The transport (transport-layer/src) is a small TCP: a three-way handshake, segments with sequence
-- numbers and windows, no retransmission, and a close by FINs from both sides. It is called by the
-- socket layer below and above it, waits for events, and handles them one round at a time.
--
-- The socket layer (transport-layer/src, files mysock and stcp) lies around the transport. It keeps a
-- table of mysockets and three queues of packets in each, by which the application, the transport and
-- the network pass data on; a listening mysocket has a queue of pending connections, found by a hash
-- table. Below it, datagrams go over a TCP connection, each behind its length.
--
-- Two programs use the socket layer (client.c and server.c beside it): the client sends the name of a
-- file, and the server answers by a line with its length and then the file.
--
-- The proxy (http-proxy/src) serves each client in a process of its own: it reads a request, passes it
-- on in its own form, and sends the server's answer back.
--
-- Files and code.
--   Prelude, Prelude/Tests, Prelude/Lists   Boolean tests, lists of the native numbers
--   Prelude/Words, Prelude/Words/Slices     byte buffers, loads and stores (memcpy, htons)
--   Router/State                            the structures of sr_if.h, sr_rt.h, sr_arpcache.h, sr_router.h
--   Router/Checksum (Laws)                  cksum of sr_utils.c
--   Router/Interfaces (Config, Lookup, Hardware, Announced)  sr_if.c; sr_handle_hwinfo and sr_arp_req_not_for_us of
--                                           sr_vns_comm.c
--   Router/Routes (Longest, Load)           sr_rt.c, sr_get_longest_prefix_match of sr_router.c
--   Router/ArpCache (Table, Queue, Invariant)  the operations of sr_arpcache.c on the cache
--   Router/Machine                          state passing with faults, for the code that sends and mallocs
--   Router/Send (HeaderSum, Packets)        sr_send_packet of sr_vns_comm.c, sr_send_arp_request,
--                                           sr_send_arp_reply
--   Router/Errors                           sr_send_error and the functions that call it
--   Router/Requests                         handle_arpreq, sr_arpcache_sweepreqs, sr_arpcache_timeout
--   Router/Handlers (Forward, Guard, Ignored)  sr_handlepacket and the handlers below it
--   Router/Server (Verified, Message)       sr_read_from_server_expect of sr_vns_comm.c, which gives the
--                                           handlers their frames, and sr_verify_routing_table of sr_main.c
--   Router/Invariant (Actions, Events, Reach)  what every packet and every tick leaves intact
--   Router/Tests (Data, Frames, Caches, Sums, Loading, Serving)  runs on small inputs
--   Transport/State, Transport/Segment (Fields)  context_t, STCPHeader of transport.h, send_packet
--   Transport/Connect (Handshake)           transport_init of transport.c
--   Transport/Loop (Stream, Delivery, States, Closing, LostData)  control_loop of transport.c
--   Transport/TcpSum (AllOnes)              tcp_sum.c, without the underscores in front
--   Mysock/State                            mysock_context_t of mysock_impl.h, what a call comes to
--   Mysock/Queue (Stream)                   the packet queues of mysock.c
--   Mysock/Table (Descriptors)              the descriptor table of mysock.c
--   Mysock/Api (EndOfFile)                  mysock_api.c on one mysocket
--   Mysock/Stcp (Send, Waiting)             stcp_api.c, network.c
--   Mysock/HashTable (Chains, Refine)       mysock_hash.h
--   Mysock/Demux (Pending, Slots, Capacity, Backlog, Connections, Listening)  connection_demux.c, and
--                                           mylisten, myaccept and myclose of mysock_api.c
--   Mysock/Framing (RoundTrip)              network_io_tcp.c
--   Mysock/Receive (Stream, Oversize, Held)  the receive thread of network_io_socket.c
--   Mysock/Tests (Links, Threads)           runs on small inputs
--   Transport/Tests                         runs on small inputs
--   Transfer/Socket (Filled)                the calls of client and server on a mysocket, and mysock_api.c
--                                           behind them
--   Transfer/Line (Whole), Transfer/Numbers  get_nvt_line of client.c and server.c; sprintf and sscanf of numbers
--   Transfer/Server (Serves, Overflow)      process_line and do_connection of server.c
--   Transfer/Client (Commas, Response)      loop_until_end of client.c, for a file of the command line
--   Transfer/Fetch, Transfer/Refusal        server and client together
--   Transfer/Tests                          runs on small inputs
--   Proxy/Sockets, Proxy/Receive (Pieces, Front), Proxy/Deliver  receive_from_socket and send_to_socket of proxy.c
--   Proxy/Setup (Descriptors, Reached)      the functions of proxy.c that make sockets
--   Proxy/Parse/Strings (Laws)              the C string functions that proxy_parse.c uses
--   Proxy/Parse/Headers (Map, Refine)       the ParsedHeader functions of proxy_parse.c
--   Proxy/Parse/Request                     ParsedRequest_parse
--   Proxy/Parse/Print (Text, Unparse)       lengths, ParsedRequest_unparse and what it calls
--   Proxy/Parse/RoundTrip (Line, Buffer, Lines, Again, Printed), Proxy/Parse/Ends, Proxy/Parse/Faults
--                                           parsing what was printed; how a parse ends
--   Proxy/Parse/Tests                       runs on small inputs
--   Proxy/Client (Service)                  parse_request and chat_with_client of proxy.c
--   Proxy/Loop (Clients)                    proxy of proxy.c
--   Proxy/Tests                             runs on small inputs
-- Functions, fields and constants keep their C names, but for the field done, which is is_done.
--
-- State and operations. A buffer is the list of its bytes, and len is its length. A 32-bit address is
-- the word as the program loads it on a little-endian machine. An operation on the cache takes the
-- cache and returns it. A function that sends, reads the clock or allocates is an action on the
-- router's state, whose outcome is a result with a new state, a fault (an access outside a buffer, or
-- through a NULL or freed pointer), or spent fuel. What was written to the socket is kept in the
-- state, oldest first. A request's address is a number, so that a read after a free is seen.
--
-- The transport's state is a socket: the context, what was sent and passed up so far, and the receive
-- buffer with its old contents. A wakeup holds the events of one return of stcp_wait_for_event with
-- what stcp_app_recv and stcp_network_recv then give. A round of the loop takes both to the next
-- socket, or to no result if the code would read past its buffer; the loop runs over the list of
-- wakeups, and where the list ends the code waits on. transport_init takes what its waits give as
-- arguments.
--
-- In the socket layer a packet queue is the list of the buffers in it, a table the list of its
-- entries, and a pointer into a table its index. A call gives a result, waits on a condition variable,
-- or ends the program by a failed assertion. A wait is a point where other threads change the state:
-- stcp_wait_for_event takes the list of what they do, myconnect and myclose a function. In the proxy
-- the calls of recv and send are lists of what each does, and a total is a signed number, as in C; a
-- process has the list of the descriptors that it holds open. In its parser a pointer into a string is
-- what the string has from there on, and the fields of a request are copies: the pointers into the
-- request line are never written through once they are set.
--
-- Parameters. Env holds the readings of time(NULL) and the contents of blocks from malloc; nothing is
-- assumed of either but that a block has the size that was asked for, where a result says so. The
-- loading of the table takes the lines that fgets gives, with sscanf and inet_aton as functions, and the transport the value of rand(). In
-- the socket layer the results of bind, listen, getsockname and of the look-up of the local address are
-- arguments. The proxy takes what the calls of the system do, for each address, for each client and for
-- each part of a transfer, and its parser whether strtol refuses a port.
--
-- Fuel. The folding loop of cksum runs two rounds, the most that a 32-bit sum needs. The
-- depth of handle_arpreq and the length of the sweep are arguments, and running out is an outcome of
-- its own, since the recursion of the code is not bounded by its state. A line of
-- get_nvt_line takes as many passes as its buffer has room, and a download as many as bytes are to
-- come, since each pass takes one.
--
-- Not modelled. Interleavings of the two threads of the router (each operation of the cache holds the
-- lock), and of operations on one listen queue, where ++cur_len of a request and --cur_len of myaccept
-- hold no lock in common that excludes the other; wrong checksums of what comes to the transport, at which
-- the program ends; a
-- failing malloc or socket write, the log file, printing, the length and type fields of the message to
-- the server, the login to the server, the build of the transport with FIXED_INITNUM, the making of
-- sockets and threads in the socket layer, the sockets of the system below a mysocket, the handler of
-- the proxy for ended children, what is freed, the options, addresses and the prompt of the client and the set-up of the server of
-- the transport, and the other programs of the repository (socket exercises, measurement scripts).
pub mod Prelude
pub mod Router
pub mod Transport
pub mod Transfer
pub mod Mysock
pub mod Proxy
