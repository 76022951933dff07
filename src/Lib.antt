-- ===== src/Lib.antt =====
-- TunD, a virtual LAN over UDP: a hub server and its clients exchange sealed datagrams that carry
-- IPv4 packets of 10.9.0.0/24. This library models the wire protocol, the server and the client.
--
-- Parts and files:
--  * Base: the shared helpers: Boolean tests, lists over the native numbers, bits of words.
--  * World: what lies outside the tables: the sequence counter (src/protocol/protocol.c), the
--    entropy source, the socket, the TUN device, the event stream and the running flag as one
--    state, and the operating system and the cipher of third_party/monocypher as parameters.
--    World/Effects says of a call that it moves the counters and sends, and nothing else.
--  * Protocol: src/protocol/protocol.c and protocol.h. Header (proto_write_hdr, proto_read_hdr,
--    proto_next_sequence), Seal (proto_encrypt, proto_decrypt), Replay (proto_replay_accept),
--    Messages (the builders and readers), Ipv4 (proto_validate_ipv4_packet), Bytes and Text for
--    the layouts of numbers and names. Laws, Roundtrip, Valid, Spec, Refine and
--    Stream hold the proofs.
--  * Peers: peer_t and smooth_rtt_ms of src/app/tund.h, and the tables of both sides.
--  * Net: net_send, net_recv, net_create_socket and the copy of net_poll_peers of src/net/network.c.
--  * Server: src/core/server. State (peers.c), Register, Session and Dispatch (handlers.c and
--    keepalive.c), Data (data.c, and a round of server_tun_thread), Timeout (a round of
--    server_timeout_thread, and the farewell of server_shutdown). What runs under the lock is a
--    function of its own, ending in _locked; Threads takes these as the steps of a relation, so
--    that a run of it is any interleaving, and Handlers relates each handler to such a run.
--  * Client: src/core/client. State (peers.c, session.c), Handlers, Register (the handshake) and
--    Rounds (the threads' rounds and the receive loop's turn of client.c).
--  * Join and Relay: the server, the network and the client together, for a registration and for a
--    packet from one client to another.
--  * Tun: src/tun. Linux (linux/tun.c) and Darwin (darwin/tun.c and config.c), over the kernel's
--    answers; Driver is the interface that both fill. Windows (windows/wintun_loader.c, and the
--    opening and closing of tun.c) with Windows/Network (config.c).
--  * Life: server_init, server_run and server_shutdown of src/core/server/server.c, the client's
--    three of src/core/client/client.c, and main of src/app/main.c, over any driver. Life/Entropy counts
--    the descriptor of /dev/urandom (proto_random_fd of src/protocol/protocol.c), which is never closed.
--  * Relaunch: the command line of a restart in src/app/win_runtime.c, and how Windows reads it.
--  * Peerforge: tools/peerforge, options.c and client.c.
--  * Cli: src/app/cli.c, the options and the configuration that they make.
--  * Ui: src/ui/events.c, the ring of the latest events. AppEvents: src/app/events.c, the escaping of
--    strings in JSON events.
--  * Examples: a concrete environment and runs of the theorems.
--
-- A byte buffer is the list of its bytes; a table is the list of its slots; a uint64_t or uint32_t
-- is a natural number, with the wrap-around written out where the source's arithmetic can meet it.
-- Addresses are in network byte order as the source keeps them, on a little-endian host. No
-- definition runs on fuel: loops are structural, the handshake's over its three attempts.
--
-- The kernel, the threading library, polling and name resolution are parameters or inputs: what
-- their calls give is given. The turns of a running program are a list of what happens next, in the
-- loop or in a thread.
--
-- Not modelled: reading, writing and the start of commands on Windows, the threads' sleep, signals, log lines, terminal rendering,
-- and the desktop interface. SipHash
-- (Protocol/SipHash) is an executable definition with its authors' vectors as tests.
pub mod Base
pub mod World
pub mod Protocol
pub mod Peers
pub mod Net
pub mod Server
pub mod Client
pub mod AppEvents
pub mod Cli
pub mod Ui
pub mod Tun
pub mod Life
pub mod Relaunch
pub mod Peerforge
pub mod Join
pub mod Relay
pub mod Examples
