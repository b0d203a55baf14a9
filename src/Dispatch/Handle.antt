-- ===== src/Dispatch/Handle.antt =====
-- homa_incoming.c: the `switch` and the loops of `homa_dispatch_pkts`, and `homa_ack_pkt`.
pub mod Order
pub mod Batches
pub mod Unknown
mod Tests
use connected_homa.Prelude.{
  ℕ, ◌+◌, Bool, true, false, not, ◌&&◌, ◌||◌, Option, none, some, List, [], ◌∷◌, ◌++◌, ltb, ◌==◌,
  if◌then◌else◌, update, length,
}
use connected_homa.Rpc.{Rpc, is_client, local_id}
use connected_homa.Peer.{Ack, Peer, AckPacket, homa_cutoffs_pkt}
use connected_homa.NeedAck.{homa_need_ack_pkt}
use connected_homa.Receive.{DataPacket, Surroundings, homa_data_pkt}
use connected_homa.Handlers.{Handled, homa_grant_pkt, homa_resend_pkt, homa_unknown_pkt}
use connected_homa.Handoff.{homa_rpc_handoff}
use connected_homa.Table.{Entry, Hsk}
use connected_homa.Lifecycle.{homa_rpc_free}
use connected_homa.Abort.{homa_rpc_acked}
use connected_homa.Dispatch.{
  max_acks, Body, data_pkt, grant_pkt, resend_pkt, unknown_pkt, busy_pkt, cutoffs_pkt, need_ack_pkt,
  ack_pkt, other_pkt, is_stray, Batch, Arrival, Host, hsk_of, with_hsk, find_rpc, hear,
}

-- What `homa_data_pkt` is given.
abbrev pub around : ℕ → Entry → Hsk → Host → Surroundings
around r e s w = record {
  self = r;
  pkts_ready = e.pkts_ready;
  buffers = s.buffers;
  metrics = w.metrics;
  dropped_data_no_bufs = w.dropped_data_no_bufs;
  handoffs = 0;
  last_update_jiffies = w.last_update_jiffies e.peer;
  cutoffs_sent = w.cutoffs_sent;
}

-- A DATA packet for the RPC at `r`; the RPC is handed off where `homa_data_pkt` says so.
pub handle_data : Batch → DataPacket → ℕ → Host → Host
handle_data b h r w =
    let s = hsk_of b w in
    let e = s.rpcs r in
    let (rpc, x) =
      homa_data_pkt b.moment b.memory b.cutoff_version b.jiffies h e.rpc (around r e s w) in
    let s' = record s {
      rpcs = update s.rpcs r (record e { rpc = rpc; pkts_ready = x.pkts_ready });
      buffers = x.buffers;
    } in
    with_hsk b (if x.handoffs == 0 then s' else homa_rpc_handoff b.cores r s') (record w {
      metrics = x.metrics;
      dropped_data_no_bufs = x.dropped_data_no_bufs;
      last_update_jiffies = update w.last_update_jiffies e.peer x.last_update_jiffies;
      cutoffs_sent = x.cutoffs_sent;
    })

-- The RPC as a handler leaves it, or freed.
pub put_rpc : ℕ → Option Rpc → Hsk → Hsk
put_rpc r none s = homa_rpc_free r s
put_rpc r (some rpc) s = record s { rpcs = update s.rpcs r (record (s.rpcs r) { rpc = rpc }) }

abbrev pub note : Handled → Host → Host
note x w = record w { idle = x.idle; handled = x ∷ w.handled }

pub handle_grant_like : Batch → ℕ → Handled → Host → Host
unfolding put_rpc
handle_grant_like b r x w = note x (with_hsk b (put_rpc r x.rpc (hsk_of b w)) w)

-- `homa_rpc_acked` for each of the acks, the last one first.
pub process_acks : Batch → List Ack → (ℕ → Hsk) → ℕ → Hsk
process_acks b [] socks = socks
process_acks b (ack ∷ acks) socks =
    homa_rpc_acked b.ports b.bucket b.self b.saddr ack (process_acks b acks socks)

-- `homa_rpc_acked` for each of the acks, the first one first.
pub each_ack : Batch → List Ack → (ℕ → Hsk) → ℕ → Hsk
each_ack b [] socks = socks
each_ack b (ack ∷ acks) socks =
    each_ack b acks (homa_rpc_acked b.ports b.bucket b.self b.saddr ack socks)

-- `homa_ack_pkt`
pub homa_ack_pkt : Batch → List Ack → Option ℕ → Host → Host
unfolding each_ack
homa_ack_pkt b acks rpc w =
    let w' : Host = elim rpc [ none ↦ w | some r ↦ with_hsk b (homa_rpc_free r (hsk_of b w)) w ] in
    record w' { socks = each_ack b acks w'.socks; rpc = none }

abbrev pub save_ack : Option Ack → Host → Host
save_ack none w = w
save_ack (some ack) w =
    if ltb (length w.acks) max_acks then record w { acks = w.acks ++ ack ∷ [] } else w

-- The RPC of a batch, and what `homa_need_ack_pkt` and `homa_resend_pkt` are given of it.
abbrev pub rpc_of : Batch → Host → Option Rpc
rpc_of b w = elim w.rpc [ none ↦ none | some r ↦ some ((hsk_of b w).rpcs r).rpc ]

-- The packets that are handled whether the RPC is known or not.
pub handle_stray : Batch → Body → Host → Host
unfolding homa_ack_pkt handle_grant_like
handle_stray b (cutoffs_pkt cutoffs version) w = record w {
  peers = update w.peers b.saddr (homa_cutoffs_pkt cutoffs version (w.peers b.saddr));
}
handle_stray b need_ack_pkt w =
    let (peer, sent) = homa_need_ack_pkt b.sender_id b.sport (rpc_of b w) (w.peers b.saddr) in
    record w {
      peers = update w.peers b.saddr peer;
      acks_sent = elim sent [ none ↦ w.acks_sent | some p ↦ p ∷ w.acks_sent ];
    }
handle_stray b (ack_pkt acks) w = homa_ack_pkt b acks w.rpc w
handle_stray b (resend_pkt h) w = elim w.rpc [
  | none ↦ note (homa_resend_pkt (b.link 0) w.idle h none) w
  | some r ↦
      handle_grant_like b r (homa_resend_pkt (b.link r) w.idle h (some ((hsk_of b w).rpcs r).rpc)) w
]
handle_stray b (data_pkt _ _) w = w
handle_stray b (grant_pkt _) w = w
handle_stray b unknown_pkt w = w
handle_stray b busy_pkt w = w
handle_stray b other_pkt w = record w { unknown_packet_types = w.unknown_packet_types + 1 }

-- The `switch`, for an RPC that is known.
pub handle : Batch → Body → ℕ → Host → Host
unfolding handle_data handle_grant_like handle_stray
handle b (data_pkt h ack) r w = handle_data b h r (save_ack ack w)
handle b (grant_pkt h) r w =
    handle_grant_like b r (homa_grant_pkt (b.link r) w.idle h ((hsk_of b w).rpcs r).rpc) w
handle b unknown_pkt r w =
    handle_grant_like b r (homa_unknown_pkt (b.link r) w.idle ((hsk_of b w).rpcs r).rpc) w
handle b (resend_pkt h) r w = handle_stray b (resend_pkt h) w
handle b busy_pkt r w = w
handle b (cutoffs_pkt cutoffs version) r w = handle_stray b (cutoffs_pkt cutoffs version) w
handle b need_ack_pkt r w = handle_stray b need_ack_pkt w
handle b (ack_pkt acks) r w = handle_stray b (ack_pkt acks) w
handle b other_pkt r w = handle_stray b other_pkt w

abbrev pub is_grant : Body → Bool
is_grant (grant_pkt _) = true
is_grant (data_pkt _ _) = false
is_grant (resend_pkt _) = false
is_grant unknown_pkt = false
is_grant busy_pkt = false
is_grant (cutoffs_pkt _ _) = false
is_grant need_ack_pkt = false
is_grant (ack_pkt _) = false
is_grant other_pkt = false

-- A packet for an RPC that is not known.
pub handle_unknown : Batch → Body → Host → Host
unfolding handle_stray
handle_unknown b body w =
    let counts = not (is_grant body) || is_client (local_id b.sender_id) in
    if is_stray body
    then handle_stray b body w
    else record w { unknown_rpcs = (if counts then w.unknown_rpcs + 1 else w.unknown_rpcs) }

-- What follows in the round, once the RPC has been looked for.
pub proceed : Batch → Body → Host × Bool → Host
unfolding handle handle_unknown hear
proceed b body (w, false) = w
proceed b body (w, true) = elim w.rpc [
  | none ↦ handle_unknown b body w
  | some r ↦ handle b body r (hear b body r w)
]

-- One round of the loop of `homa_dispatch_pkts`.
pub one_packet : Batch → Arrival → Host → Host
unfolding proceed find_rpc
one_packet b a w = proceed b a.body (find_rpc b a w)

pub each_packet : Batch → List Arrival → Host → Host
unfolding one_packet
each_packet b [] w = w
each_packet b (a ∷ rest) w = each_packet b rest (one_packet b a w)

-- `homa_dispatch_pkts`; an ACK is the last packet of its batch.
pub homa_dispatch_pkts : Batch → List Arrival → Host → Host
unfolding each_packet process_acks
homa_dispatch_pkts b packets w =
    let w' = each_packet b packets (record w { rpc = none; acks = [] }) in
    record w' { socks = process_acks b w'.acks w'.socks }
