-- ===== src/Lib.antt =====
-- The data plane of the L4 load balancer.
--
-- The program forwards TCP and UDP between clients and real servers (RS) with DPDK. A packet is
-- parsed, its five-tuple looked up in the session table of the worker that owns it, and its
-- headers rewritten with incremental checksum updates. A new session is placed on a backend by a
-- scheduler that the control plane built; sessions end by the timeouts of their connection state.
--
--   * Base: names of the libraries, Boolean tests, lists and signed integers on the native
--     numbers, and the `has` test of flag bits.
--   * Config: constants and parts of the configuration (include/common/config.h).
--     Config/Validate is `Config::validate` of src/common/config.cpp, Manager/Placed and
--     Accepted are about what it accepts.
--   * Types: five-tuples and MAC addresses (include/common/types.h).
--   * TcpState: the connection states, `tcp_next_state` and the timeouts
--     (include/lb/tcp_state.h, src/lb/tcp_state.cpp). TcpState/Rank and TcpState/Fin hold what
--     every sequence of packets keeps.
--   * Checksum: the Internet checksum and its incremental updates (include/protocol/checksum.h,
--     src/protocol/checksum.cpp). Checksum/Closed has the closed form of the loops,
--     Checksum/Update the incremental updates.
--   * Rte: the interface of DPDK's rte_hash, a parameter of the session table: lookup, add and
--     del, with the documented laws; Rte/Assoc meets them with an association list.
--   * Session: the session table of a worker (include/lb/session.h, src/lb/session.cpp): hash
--     index, free stack, timing wheel. Arrays are functions of the index, a `Session *` is its
--     index, the free stack is a list. Session/Table has the operations of the class,
--     Session/Invariant what the arrays spell out (one chain for each slot, the pending list),
--     Session/Table/* the table's theorems.
--   * Scheduler: include/lb/scheduler.h, src/lb/scheduler.cpp: the weighted round-robin sequence
--     and `pick`. Scheduler/Round and Fair follow the rounds, Gcd and Scale the weights, Pick
--     the table that `build` leaves.
--   * Steering: include/dataplane/steering.h, src/dataplane/steering.cpp: the owner of a packet
--     among the workers.
--   * Header, Parser: the header structs of include/protocol read from memory, and the parser,
--     include/protocol/parser.h and src/protocol/parser.cpp.
--   * Neigh: include/net/route.h, include/net/neigh.h, src/net/neigh.cpp: the next hop and the
--     table of MAC addresses.
--   * Health: include/ctrl/healthcheck.h, src/ctrl/healthcheck.cpp: probes, timeouts and
--     verdicts. Health/Flip: the verdicts.
--   * Reply: include/protocol/arp.h, src/protocol/arp.cpp, src/protocol/icmp.cpp: ARP frames and
--     echo replies.
--   * Rewrite: src/forward/nat_forwarder.cpp and include/forward/nat_forwarder.h:
--     `strip_timestamp` on the bytes of the TCP options, and in Rewrite/Nat `nat_rewrite`,
--     `nat_rewrite_icmp_error`, `dr_rewrite` and `insert_toa` on frames of bytes, for the
--     default build with L4LB_HW_CKSUM. Rewrite/Fields and Frame follow what is written.
--   * Mbuf: the fields of DPDK's rte_mbuf and, as parameters, the functions and flags of its
--     headers. Mbuf/Bytes: reading what was written.
--   * Snapshot: include/ctrl/snapshot.h, src/ctrl/snapshot.cpp: the lookup tables of a snapshot.
--     Snapshot/Probe and Slots are about open addressing for any kind of key, Sets, Local and
--     Find about the sets of addresses and the services.
--   * Manager: `SnapshotManager` of the same files: commands, `init`, `build` and `publish`. A
--     text that a command returns is a constructor of `CommandError`, the empty text is `none`.
--   * Processor: src/core/processor.cpp, include/core/processor.h, with the counters of
--     include/common/stats.h and the events of include/dataplane/context.h: `process_packet` and
--     its handlers (Resolve, Create, Inbound, Return, Icmp, Arp, Dispatch) on the state of a
--     worker, the snapshot and the packet, which the handlers return; `g_dp` is a parameter.
--     Processor/Stays and Redirect are about packets of other workers, ArpProbe about ARP
--     probes.
--   * WorkerLoop: src/dataplane/worker.cpp: the loop of a worker, its TX buffer and `BusyMeter`
--     of include/common/stats.h. What the card and the rings take is a parameter, and what they
--     give an argument of each round. A packet buffer is a pointer with what it points to;
--     WorkerLoop/Rounds has the rounds, Buffer and Delivery follow the pointers, Busy is about
--     the meter.
--   * Receiver: src/dataplane/receiver.cpp: the dispatch to the workers in pipeline mode.
--     Receiver/Dispatch follows the pointers, Ports and Agree compare the dispatcher with the
--     parser and with `process_packet`.
--   * Snat: `create_fullnat` of src/core/processor.cpp: the search for a SNAT port. Snat/Port is
--     about the candidates, Owned and Search about the session that is made, Refused and Turns
--     about the probes and addresses without one, Ends about all outcomes.
--
-- Numbers are natural numbers with the wrap-around of the source's type written out; addresses and
-- ports are numbers in network byte order, as the program keeps them.
--
-- Bounds and fuel. The carry loop of the checksum runs at most twice from a 32-bit sum and has
-- fuel 3. The loop of `SessionTable::expire` has fuel for the slots up to the tick and for the
-- budget of sessions: each round takes a slot or settles a session. The loop over a slot's chain
-- has the table's capacity as fuel, and a chain of distinct sessions is no longer.
-- `strip_timestamp` has the length of the options, of which each round takes a byte at least.
-- Euclid's algorithm for the weights has the second number and one more, since the rest shrinks in
-- each step. The probe loops of the lookup tables have one round for each of the 512 slots; tables
-- that are not full are proved to end them. The other loops of the source are bounded by a count
-- or a list, and are recursion on it.
--
-- Not modelled: the Maglev table of the scheduler (computed with doubles, a parameter of `build`),
-- allocation failures, atomics and memory order, logging, the configuration parser, the text
-- output of the control commands, the reclamation of old snapshots, the DPDK port set-up, and the
-- loop of the master thread.
pub mod Base
pub mod Config
pub mod Types
pub mod TcpState
pub mod Checksum
pub mod Rte
pub mod Session
pub mod Scheduler
pub mod Steering
pub mod Snat
pub mod Header
pub mod Parser
pub mod Neigh
pub mod Health
pub mod Reply
pub mod Rewrite
pub mod Mbuf
pub mod Snapshot
pub mod Manager
pub mod Processor
pub mod WorkerLoop
pub mod Receiver
