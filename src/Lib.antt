-- ===== src/Lib.antt =====
-- nose: a small VPN over a peer-to-peer network.
--
-- The program. Peers that want to talk to each other sit behind NATs. Each registers with a master
-- peer, a server at a known address, under a name of 20 bytes (its node id) and with the virtual
-- address it has in the VPN; a peer that wants to reach a virtual address asks the master peer for
-- it, and learns the public address and port to send to. Master peers also look for one another.
-- The parts meet in these calls:
--   * the datagram handler of src/master_peer.c reads and builds the packets of src/pmp.c and keeps
--     what it learns in two tables of src/bucket.c, one of master peers and one of peers;
--   * the readers of src/pmp.c push into and search these tables themselves;
--   * a peer of src/peer.c registers with the master peer and searches there with packets of
--     src/pmp.c, then opens the way to the other peer with the packets of src/pcp.c, and carries
--     what comes from its tun device over it, encrypted by src/crypt.c and compressed;
--   * a peer learns the type of its NAT with the STUN client of src/stun/nat_test.c and sends it
--     along when it registers;
--   * src/conf/conf-reader.c reads the file that both kinds of peer are configured with;
--   * the VPN handshake, which is not wired to the peers yet, is driven by the automaton of
--     src/dfa.c over the matrix of src/dfa_state.h, and has the packets of src/auth.c and the key
--     agreement of src/key_neg.c.
--
-- The files.
--   * Bucket: src/bucket.h and src/bucket.c. `struct bucket` is the record Bucket, with `count` for
--     `top + 1`, and each function has its C name. The one static mutex is a flag that each
--     function takes and returns. Newest has the view of a bucket as the list of its items, newest
--     first; Names is about names without a NUL; Push, Access, Rounds and Start have the proofs.
--   * Dfa: src/dfa.h, src/dfa.c and src/dfa_state.h. The registered callback is the log of its
--     calls. Edges is about any matrix, Handshake about the matrix of the program, Copy about
--     init_dfa.
--   * Pmp: src/pmp.h and src/pmp.c. The structures are records, laid out in memory by the functions
--     of Pmp; Pmp/Build has the functions `PMP_…_pkt` and Pmp/Parse the functions `PMP_…_unpack`,
--     under their C names without the prefix.
--     Tables is about the tables that the readers push into, Options, Learned and Gossip about
--     get-peers responses, and the other children about the packets they are named for.
--   * MasterPeer: src/master_peer.h and src/master_peer.c, the handler udp_recv_cb, with one
--     function for each case of its switch, and init_master_peer; MasterPeer/Timers has the three
--     timers, over the network as a function, with src/udp.c, and MasterPeer/Loop what
--     master_peer_loop sets up. Machine has the steps of the event loop, Serving the ways the
--     handler ends, and Lifetime the whole run of a master peer; Masters, Answers, Gossip and Pings are about the timers and the other master
--     peers.
--   * Peer: src/peer.h and src/peer.c. Peer has the handlers of datagrams and timers, the functions
--     below them, and a round of the thread that reads the tun device; Peer/Start the registration,
--     the search, init_peer and peer_loop. Machine has the steps of the event loop, TunDevice
--     init_tun_device on a system in detail, Limits the sizes of packets; the other
--     children follow a packet, a handshake, a heartbeat, a registration, and a search.
--   * Pcp: src/pcp.h and src/pcp.c, the builders. Crypt: src/crypt.h, src/crypt.c and
--     src/vpn_def.h. KeyNeg: src/key_neg.h and src/key_neg.c. Auth: src/auth.h, src/auth.c,
--     src/vpn.h and src/vpn.c. Utils: src/utils.h and src/utils.c.
--   * ConfReader: src/conf/conf-reader.h and src/conf/conf-reader.c. Line is about one line, Lookup
--     about reading and looking up, Rounds and Separator about other files.
--   * Nose: src/nose.c, the command line and what both kinds of peer take from the file; Nose/Run
--     how a configured peer starts.
--   * Device: src/device.h, src/linux/device.c and src/bsd/device.c. NetConfig: src/net_config.h and
--     src/net_config.c. Udp: src/udp.h and src/udp.c.
--   * System: peers and a master peer together. `register`, `search` and `greet` run the functions
--     of src/peer.c at one end and the handler of src/master_peer.c, or that of the other peer, at
--     the other end; no datagram is lost, and a NAT shows a peer's packets under the address and
--     port that the peer found for itself. Steps is about one registration and one search, Meet and
--     Tunnel about the whole way.
--   * Nat: src/stun/nat_test.c. Nat has the reader of responses, stun_rsp_unpack; Nat/Client the
--     three tests, do_test, whose branches are `classify`, and get_nat_type. Messages, Reading and
--     Attributes are about the reader, Kinds and Classify about do_test behind a NAT.
--   * Common: lists and tests over the native numbers, C strings in arrays, words in memory, and
--     the ways a C function ends. The modules named Tests hold concrete runs.
--
-- Conventions. A C function is a function into Outcome: it returns (`done`), it waits for ever on
-- the mutex (`blocked`), or it does what C leaves undefined (`fault`), such as an access outside an
-- array or a division by zero; a function that can do neither of the last two returns its result
-- directly. An `int` that is not negative in the program (states and conditions of the automaton,
-- counts, ports) is a ℕ, and sizes are the value of the size_t that they are compared as, so that
-- the length -1 of a failed recvfrom is 2 ^ 64 - 1. Fields of 8, 16 and 32 bits are cut to their
-- width where they go to memory. The host is little-endian, like those the program is built for,
-- and `htons` is its own inverse. Character arrays are the bytes in them, so a missing NUL and what
-- stood in the array before are visible; a text is what stands before the first NUL. Memory from
-- malloc and from the stack comes as an argument with any contents, and a failed malloc as `none`
-- where the source tests for it. inet_addr and inet_ntoa are an interface, Pmp.Inet: on the texts
-- that inet_ntoa gives, inet_addr gives the number back, and these texts have at most 15 characters
-- and no NUL. The time of day is a function of the call. Null arguments, which no caller in the
-- program passes, are left out.
--
-- Libraries are interfaces with the behaviour that their documentation states: mbedtls's cipher
-- Crypt.AesCbc and key agreement KeyNeg.Ecdh, and zlib, Peer.Zlib. The answers of the other system
-- calls in a handler of src/peer.c are a record, Peer.Env, and what it does to the world a list of
-- actions; which of its events wait, and its tun device and threads, are Peer.Events.
--
-- Loops over arrays are structural recursion on the number of rounds left, which the source's loop
-- condition gives. Two loops run on fuel, and would be `blocked` without it, as a function that does
-- not come back. Each round of the STUN reader moves on by four bytes at least, so that as much fuel
-- as the message has bytes is enough; each round of conf_parser but the last takes a byte from the
-- file, so that one round more than the file has bytes is enough, as long as the file can be read to
-- its end: where reading fails the source loops for ever, and no fuel is enough. registry_peer's loop has its own
-- bound of four rounds.
--
-- Not modelled: what strcmp finds behind two names in a table that both fill their arrays without a
-- NUL and are equal as far as the arrays go, which count as the same name; messages on the terminal, print_usage, the functions that are one system call each
-- (utun_write, and the BSD's utun_close), the part of src/net_config.c that is commented out, and
-- what sockets, the event loop and the kernel do, whose answers are arguments. The STUN server under
-- stunserver is a copy of another project's program, which nothing of nose calls; the programs under
-- src/test, the dissector for wireshark and the STUN test in Python are tools and tests.
pub mod Common
pub mod Bucket
pub mod Dfa
pub mod Pmp
pub mod MasterPeer
pub mod Nat
pub mod Pcp
pub mod Crypt
pub mod Peer
pub mod Utils
pub mod ConfReader
pub mod KeyNeg
pub mod Auth
pub mod Nose
pub mod System
pub mod Device
pub mod NetConfig
pub mod Udp
