-- ===== src/Lib.antt =====
-- A verification library of sys-slp-client, a system module that carries a game's local-wireless and LAN
-- traffic through a relay.
--
-- The program. A game's socket calls reach the bsd:u service, which keeps a proxy socket for each
-- socket that is to go through the relay. A proxy socket queues what arrives in a fixed ring
-- (sysmodule/source/bsd/proxy_socket.{hpp,cpp}). The proxy socket manager
-- (sysmodule/source/bsd/proxy_socket_manager.{hpp,cpp}) holds them by file descriptor, routes what comes from the
-- session to them, buffers what nobody waits for yet, and owns the ephemeral ports
-- (sysmodule/source/bsd/ephemeral_port_pool.{hpp,cpp}). What a socket sends goes through the manager's callback to
-- the tunnel (sysmodule/source/tunnel/slp_tunnel.cpp), which builds an IPv4 packet and hands it to the frame codecs
-- (sysmodule/source/slp/slp_client.c); frames of the relay come back the same way and end in
-- RouteIncomingData, or in the LDN control plane (sysmodule/source/ldn/ldn_control.cpp). The runtime
-- (sysmodule/source/slpcfg/slp_runtime.cpp) reads the servers (sysmodule/source/slpcfg/servers.c), opens the socket to the
-- relay and runs the thread that keeps it alive, reads its frames and calls the control plane's Tick.
--
-- The modules.
--   Base      shared names, Boolean tests on the native numbers, lists with native indices, machine words, bit masks.
--   Net       sysmodule/source/bsd/ip_addr.hpp (IpAddr), bsd_types.hpp (BsdTypes), lan_addr_map.{hpp,cpp} (LanAddrMap).
--   Ring      the rings of the sockets and of the manager. Queue is about rings as bounded queues.
--   Ports     the ephemeral port pool: Search is the loop, Allocation, Release and Rotation its properties.
--   Socket    the proxy socket: State, Receive, Transfer, Address, Options, Listener and Teardown are its methods; Packets
--             reads the ring as a queue of datagrams, and Fifo, Delivery, Burst, Handshake and Lifecycle are about it.
--   Manager   State, Sockets, Callbacks, Routing and Pending are the manager's methods; Lookup, Matching, Agreement,
--             Compaction and Backlog are about them.
--   Tunnel    Codec is the frame codecs, Packet the headers, Reassembly the fragments, Exchange the public functions; the
--             other modules lead to RoundTrip.
--   Client    the rest of sysmodule/source/slp/slp_client.c: Dns is the resolver, Connection the socket to the relay and
--             the login; Names, Spelling and Answers are about the resolver, Login about the login.
--   Servers   the settings' parser, sysmodule/source/slpcfg/servers.c.
--   Runtime   sysmodule/source/slpcfg/slp_runtime.{hpp,cpp}: the file itself is Start, Stop and the selection, VirtualIp the
--             console's address and its file, Loop the thread. Starting, Decimal and Persistence, and Reconnecting and Retries
--             are about these three.
--   Ldn       State is the control plane's data; Rle, Frames, Scanners, Sync, Stations, Scanning and Heartbeat are what its
--             frames and its Tick do, Control and Calls the game's calls, Events runs of all of them in any order. Slots, Results,
--             Network, Steps, Inbound and Invariant lead to the invariant of such runs; Inflate, Wire, Admission, Freshness,
--             Seats, Joining, Liveness, Membership and Polling are about the parts.
--   Service   sysmodule/source/bsd/bsd_mitm_service.cpp: Bind, Poll, and Table for the descriptors that it keeps. Promotion is
--             about the decision that Bind makes and Binding and Giving about the proxy socket that it leaves, Ready about what Poll reports, Cleanup about the end of a session; Sessions is
--             ShouldMitm, Bursts about it.
-- The modules called Tests, and those below them, hold runs and instances at concrete inputs.
--
-- How the code is modelled. A class is a record of its members, a method a function from the state to its result and
-- the state afterwards. A method that holds its mutex throughout is one step. What other threads do during a
-- blocking wait is an argument, as are the clock, the function pointers that the session installs, and the relay
-- socket's answer; calls that leave a component are part of the result. A pointer with its length is a list of
-- bytes, or none for nullptr. Words are natural numbers, with the remainder written out where the code truncates. A
-- signed 64-bit tick is a natural number.
--
-- Bounds and fuel. AllocatePort's loop has as many rounds as there are ports. The checksum's carry loop has
-- three rounds, which is enough for 32 bits. slpClientSendIpv4 and Compress run on the length of their
-- input, of which each round takes at least one byte. The polls of Scan and Connect, and the draws of the virtual address, have
-- the code's own 10, 300 and 64 rounds. The thread's loop and the runs of the control plane follow a list of what happens. The
-- other loops follow a list or a count.
--
-- Not modelled: the IPC services (bsd:u, ldn:u, nifm:u, slp:cfg) and their dispatch, but for Bind, Poll, ShouldMitm and the descriptors of bsd:u;
-- system calls, whose answers are arguments; the trace log; SHA-1, a parameter; the overlay, which is a user interface. The
-- thread and the calls that run beside it take turns, round by round. A byte string of C ends before its NUL. Members that are
-- written and never read are left out.
pub mod Base
pub mod Net
pub mod Ring
pub mod Socket
pub mod Ports
pub mod Manager
pub mod Tunnel
pub mod Client
pub mod Servers
pub mod Runtime
pub mod Service
pub mod Ldn
