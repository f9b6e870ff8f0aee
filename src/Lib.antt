-- ===== src/Lib.antt =====
-- xdp-rs: the socket library over AF_XDP (xdp-socket), the routing helpers (xdp-util), and the programs
-- that put the two together (xdp-tests).
--
-- A socket shares with the kernel a UMEM of 4096 frames of 2048 bytes, and two rings. A TX socket
-- writes a packet to the frame that an available slot of the TX ring names (peek, send), hands slots
-- over by moving the ring's producer index (commit), and takes frames back from the Completion ring
-- (seek). An RX socket finds packets in the RX ring (seek, peek) and gives their frames back through
-- the Fill ring (commit). kick and poll_wait wake the kernel and wait for it.
--
-- Files, with the code that each is about:
--   Prelude          words of 32 and 64 bits, Boolean tests, lists, and what running code can come to:
--                    a result, a panic, undefined behaviour, or a loop out of fuel
--   Libc             the constants of the crate libc that are read, as a parameter
--   System           the system calls that make and release something, as a log, with what the process
--                    holds, and computations over them that may fail
--   Mmap             xdp-socket/src/mmap.rs: OwnedMmap, the mapping of the UMEM, in Mmap/Owned Drop,
--                    and in Mmap/Meminfo get_hugepage_info
--   Ring             xdp-socket/src/ring.rs: Ring<T> and its methods; Ring/Addrs is Ring<u64> and
--                    Ring/Descs is Ring<XdpDesc>; Ring/Mapping is mmap_ring, Ring::mmap and RingType.
--                    Ring/Access, Ring/Fill and Ring/Bytes hold the proofs
--   Socket           xdp-socket/src/socket.rs: Socket<t>, its construction, and in Socket/Api its
--                    methods; Socket/Seek, Commit, Peek, Kick, Poll and Send are the files of the same
--                    name. Proofs: Socket/Reclaim (seek), Submit (commit, peek), Sending (send),
--                    Fetching (seek_and_peek) and Blocking (send_blocking) of a TX socket; Refill,
--                    Receive and Releasing of an RX socket; Waking (kick, poll_wait); Fresh (a new
--                    socket);
--                    Ownership (who may touch which frame, under any order of calls and kernel steps;
--                    Ownership/Pool is the same without rings and indices, as three lists)
--   Create           xdp-socket/src/create.rs: create_socket and its parts, with the system as a parameter.
--                    Create/Honest says what a system does that grants its calls, Create/Refused what one
--                    does that maps no more of a ring than it has, and Create/Balance what the process
--                    holds by the log. Proofs: Steps and Rings (the parts), Made and Both (the sockets),
--                    Apart and Aliased (the frames of the created sockets), Counted (the first calls of an
--                    RX socket), Accounts, Parts and Released (a creation that fails), Dropped, Lifetime
--                    and Pair (the drop of sockets)
--   Packet           xdp-util/src/packet.rs: HdrWrite, and in Packet/Header write_udp_header_for
--   Netlink          xdp-util/src/netlink.rs: the receive loop, the closures, find_default_gateway;
--                    Netlink/Links has the closures of get_links and get_ipv4_address, Netlink/Query
--                    netlink itself, Netlink/Queries the four queries. Proofs: Messages (the loop),
--                    Filters (the closures), Answers (what the queries return), Gateways
--   Router           xdp-util/src/router.rs: route and refresh
--   XdpProg          xdp-util/src/xdp_prog.rs: attaching a program and its Drop
--   MacByIfindex     xdp-util/src/mac_by_ifindex.rs
--   XdpTests         xdp-tests. XdpTests/Machine is what the programs run on: the models of all the parts
--                    above, with one state. XdpTests/Sender and SenderMain are examples/xdp_sender.rs;
--                    Pinger and PingerMain src/toolkit/xdp_pinger.rs; Command, VethPair and Runner the
--                    files of the same name in src/nettest/suite; UdpPingpong src/nettest/tool; Pingpong
--                    src/pingpong_test.rs; Ponger src/ponger.rs; Addresses the parsers of the
--                    standard library that they call. Meanwhile says what the kernel does while a program
--                    sleeps. Proofs: Writing, Delivery, Rounds, Leaving, Dropping and Released (the
--                    example), Pinging, PingFails and PingEnds (the pinger), Passing (the test), Setup and
--                    Restart (the harness), and Echoes (the echo server)
--
-- State and operations. A method on `&mut self` becomes a function that returns the new record. The
-- pointers of a mapped ring are modelled by what stands behind them, so the record of a ring includes
-- the memory that the kernel shares; the kernel's own changes are steps of Socket/Ownership/Steps. A
-- null ring pointer makes a load or store a fault, and so does a slice outside the UMEM. Debug
-- assertions, overflow checks and the feature no_safety_checks are the two switches of Prelude/Rust's
-- Build. The generic const direction of Socket is a Boolean index; a method of one direction has the
-- prefix tx_ or rx_. Numbers are natural numbers, with each wrap-around written out.
--
-- Bounds and fuel. Rings have 2^k slots, at most 4096. The loop of the TX seek gets as many rounds as
-- the Completion ring holds entries, since each round takes one; the loop of poll_wait takes its fuel
-- as an argument, and needs one round for each reply up to the first with the awaited event; the loop
-- of netlink takes at least one byte in a round, so as many rounds as there are bytes are enough. The loop
-- of the pinger takes its fuel as an argument, and needs a round for each available slot and one more;
-- that of the echo server needs a round for each datagram before the error that ends it, and one more.
--
-- System calls. A creation is a computation on the log of the calls so far: each call's reply is a
-- function of the log and the arguments, and a call that succeeds is added to the log. What a call made
-- (a socket, a mapped area) is pushed on the list of what the process holds. An early return drops what
-- was acquired since the function began, newest first, as the drops of the local variables do.
--
-- Parameters. The replies of the system calls, the constants of libc, libbpf, the builder of the crate
-- etherparse, the sockets and the decoding of the netlink crates, the lines of /proc/meminfo, and the
-- crates ipnet and prefix-trie are arguments of the definitions that use them. The text of an error is
-- kept without its variable part.
--
-- Not modelled: log lines, the parsing of the command line, the tests that print what netlink returns, and
-- build.rs. The two tasks of the ping-pong test meet only on the network, so
-- each is run by itself. Memory ordering of the atomic loads and
-- stores is not modelled: each call of a method runs without a kernel step inside it.
pub mod Prelude
pub mod Libc
pub mod Mmap
pub mod Ring
pub mod System
pub mod Socket
pub mod Create
pub mod Packet
pub mod Netlink
pub mod XdpProg
pub mod MacByIfindex
pub mod Router
pub mod XdpTests
