-- ===== src/NeedAck.antt =====
-- homa_incoming.c, `homa_need_ack_pkt`: a server asks whether it may forget an RPC. The packet goes to
-- the client of the RPC.
mod Safe
mod Tests
use connected_homa.Prelude.{ℕ, Bool, true, false, Option, none, some, ◌==◌, if◌then◌else◌}
use connected_homa.Rpc.{Rpc, State, incoming, local_id}
use connected_homa.Peer.{Ack, Peer, AckPacket, max_acks_per_pkt, homa_peer_get_acks}

-- The code goes on to the ACK: there is no such RPC, or its response is complete. An RPC in state
-- RPC_INCOMING has its `msgin`.
may_ack : Option Rpc → Bool
may_ack none = true
may_ack (some rpc) = elim rpc.state [
  | incoming ↦ elim rpc.msgin [ none ↦ false | some m ↦ m.bytes_remaining == 0 ]
  | _ ↦ false
]

-- `homa_need_ack_pkt` for a packet with this `sender_id` and `sport`; `peer` is what
-- `homa_peer_find` finds. The peer after, and the ACK if one is sent.
pub homa_need_ack_pkt : ℕ → ℕ → Option Rpc → Peer → Peer × Option AckPacket
unfolding may_ack
homa_need_ack_pkt sender_id sport rpc peer =
    let (peer', acks) = homa_peer_get_acks max_acks_per_pkt peer in
    let header : Ack = record { client_id = local_id sender_id; server_port = sport } in
    if may_ack rpc then (peer', some (record { header = header; acks = acks })) else (peer, none)
