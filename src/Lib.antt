-- ===== src/Lib.antt =====
-- Homa/Linux with connected sockets: a message transport in the Linux kernel. A client sends a request
-- message to a server and gets a response message; the two make a remote procedure call (RPC). A message
-- travels in DATA packets. Its first bytes go out without leave; for the rest the receiver sends GRANT
-- packets, the shortest messages first, and RESEND packets for what was lost.
--
-- The parts, and the files of this library that model them:
--   Prelude    names, Boolean tests on numbers, lists over the native numbers, integers, C `int`s
--   Rpc        homa_rpc.h, homa_wire.h: `struct homa_message_in`, `homa_gap`, `homa_message_out`, `homa_rpc`
--              with its state
--   Homa       homa_impl.h, `struct homa`: settings and counters
--   Incoming   homa_incoming.c: `homa_gap_new`, `homa_gap_retry`, `homa_add_packet`, which keep the account
--              of the bytes that have arrived
--   Grant      homa_grant.c: `homa_grant_update_incoming` and `homa_grant_send`, how much is granted
--   Grantable  homa_grant.c: `homa_grant_outranks`, `homa_grant_add_rpc`, `homa_grant_remove_rpc`, the lists
--              of RPCs and peers in order of priority
--   Pick       homa_grant.c: `homa_grant_pick_rpcs`, which RPCs are to get grants
--   Timer      homa_timer.c: `homa_check_rpc`, what is done for an RPC at a timer tick
--   Peer       homa_peer.c: `homa_peer_add_ack`, `homa_peer_get_acks`, `homa_unsched_priority`, and
--              homa_incoming.c, `homa_cutoffs_pkt`
--   Sock       homa_sock.c: `homa_port_hash`, `homa_sock_init`, `homa_sock_find`,
--              `homa_sock_find_connected`, and homa_plumbing.c: `__homa_connect`, `homa_do_peeloff`
--   NeedAck    homa_incoming.c: `homa_need_ack_pkt`, the answer to a server that asks whether it may forget
--              an RPC
--   Pool       homa_pool.c: `homa_pool_init`, `homa_pool_get_pages`, the pages of user memory for messages
--   Buffers    homa_pool.c: `homa_pool_allocate`, `homa_pool_get_buffer`, `homa_pool_release_buffers`, and in
--              Buffers/Queue `homa_pool_check_waiting`
--   Outgoing   homa_outgoing.c: `homa_message_out_fill`, `homa_xmit_data`, `homa_check_nic_queue`, and in
--              Outgoing/Resend `homa_resend_data`
--   Throttle   homa_outgoing.c: `homa_add_to_throttled`, `homa_remove_from_throttled`, and the choice of
--              `homa_pacer_xmit`
--   Handlers   homa_incoming.c: `homa_grant_pkt`, `homa_resend_pkt`, `homa_unknown_pkt`
--   Receive    homa_incoming.c: `homa_message_in_init`, `homa_data_pkt`
--   Reap       homa_rpc.c: `homa_rpc_reap`
--   Table      homa_rpc.h, homa_sock.h: the RPCs of a socket in memory and its hash tables, and homa_rpc.c:
--              `homa_find_client_rpc`, `homa_find_server_rpc`
--   Handoff    homa_incoming.c: `homa_choose_interest`, `homa_rpc_handoff`, `homa_register_interests`, and the
--              end of `homa_wait_for_message`
--   Lifecycle  homa_rpc.c: `homa_rpc_new_client`, `homa_rpc_new_server`, `homa_rpc_free`
--   Abort      homa_incoming.c: `homa_rpc_abort`, `homa_abort_rpcs`, `homa_abort_sock_rpcs`, and homa_rpc.c:
--              `homa_rpc_acked`
--   Dispatch   homa_incoming.c: `homa_dispatch_pkts`, `homa_ack_pkt`
-- Below each module, the children hold what is proved of it and, in Tests, runs on concrete values.
--
-- How they interact: `homa_add_packet` changes the counters of an incoming message, which Grant turns into
-- grants and Timer into RESENDs; Grantable keeps the order in which Pick chooses the RPCs that Grant
-- serves; Peer answers with which priority a message starts and holds the acks of finished RPCs; Sock says
-- to which socket, and so to which RPCs, a packet belongs. Buffers takes pages from Pool, places each
-- incoming message in them, and lets an RPC wait when there are too few. Outgoing cuts a message into
-- packets and sends them as far as Handlers has taken grants for them; Handlers answers the RESENDs of
-- Timer and Incoming with Outgoing. Receive begins a message, with buffers from Buffers, and gives its
-- packets to Incoming. Reap gives the buffers of dead RPCs back to Pool, and then lets Buffers serve the
-- RPCs that wait. Lifecycle makes an RPC, links it into the tables of Table, and hands its first packet to a
-- thread by Handoff; Dispatch finds the RPC of each packet of a batch, or has Lifecycle make it, calls
-- Receive, Handlers, NeedAck and Peer with it, and passes the acks on to Abort. What Lifecycle frees, Reap
-- finds among the dead RPCs.
--
-- State is a record, and an operation a function from the record before to the record after, with what it
-- sends as a further result. A function that takes a lock at its start and drops it at its end is one step.
-- The clock (`sched_clock`, the tick count), whether `kmalloc` gives memory, and the answer of `net_eq` are
-- arguments. A list of the kernel is a List; a bucket of sockets keeps its pointers. An RPC in the tables and
-- the interest of a thread are named by their addresses, so that two lists can hold the same one; the
-- address of a new RPC is an argument, and theorems that need it say that it is not in use.
--
-- Numbers: a C `int` that the code keeps at or above zero is a ℕ, and an `int` that falls below zero on the
-- way is a ℤ. The numbers that `homa_add_packet` and `homa_message_in_init` take from a DATA packet are words of 32 bits,
-- which are added and compared as `int`s (Prelude/Word); Incoming/Agree says when that is the arithmetic of
-- ℕ, and theorems that need it have the bound as a condition. The offset in a GRANT is below 2^31. Tick
-- counts, the length in a RESEND and the 16-bit ports keep their wrap-around. A message of more than
-- HOMA_MAX_BPAGES pages gets a longer list of pages here, where the code writes behind its arrays; the
-- theorems on what `homa_data_pkt` and an allocation come to exclude it. A device's and Homa's own GSO size
-- have room for the headers of a packet.
--
-- Fuel: a walk over a bucket of sockets has as many rounds as there are sockets, enough for a list without
-- a cycle. The loop over client ports has 2^16 rounds; what is proved of it says when they are enough. The
-- search for pages has `2 * num_bpages + 3` rounds for each page, which is enough for what is set aside in
-- `free_bpages`; the loop of `homa_pool_check_waiting` needs one round per waiting RPC and one more. The
-- loops that cut a message into packets, and a packet into segments, have one round per byte. The loop of
-- `homa_rpc_reap` has one round per packet that it may free.
--
-- Not modelled: system calls and copies to and from user space (homa_plumbing.c, homa_api.c), sleeping and
-- polling (`homa_wait_for_message`), the loop of the pacer (homa_outgoing.c), offload (homa_offload.c),
-- packet memory (homa_skb.c), statistics (homa_metrics.c, timetrace.c), the recalculation of all grants
-- (`homa_grant_recalc`) but for the choice of RPCs, the scan of all sockets by the timer, two cores in one
-- pool at once, and locks. They are I/O, statistics, or parts whose state this library does not have yet.
pub mod Prelude
pub mod Rpc
pub mod Homa
pub mod Incoming
pub mod Grant
pub mod Grantable
pub mod Pick
pub mod Timer
pub mod Peer
pub mod Sock
pub mod NeedAck
pub mod Pool
pub mod Buffers
pub mod Outgoing
pub mod Handlers
pub mod Receive
pub mod Reap
pub mod Table
pub mod Handoff
pub mod Lifecycle
pub mod Abort
pub mod Dispatch
pub mod Throttle
