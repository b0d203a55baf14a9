-- ===== src/NeedAck/Safe.antt =====
-- When the server is told that it may forget an RPC.
use connected_homa.Prelude.{
  ℕ, ◌≡◌, ◌≤◌, refl, ap, true, none, some, List, [], ◌∷◌, ◌++◌, ◌==◌, length, arith, Bool-cases,
  inl, inr, length-append,
}
use connected_homa.Rpc.{Rpc, MessageIn}
use connected_homa.Peer.{Ack, Peer, AckPacket, max_acks_per_pkt, homa_peer_get_acks}
use connected_homa.Peer.Acks.{homa_peer_get_acks-splits}
use connected_homa.Incoming.Account.{IsValid}
use connected_homa.Incoming.Reception.{received, all_below, bytes_remaining-zero}
use connected_homa.NeedAck.{may_ack, homa_need_ack_pkt}

complete :
    (rpc : Rpc) (m : MessageIn)
    → rpc.msgin ≡ some m
    → may_ack (some rpc) ≡ true
    → (m.bytes_remaining == 0) ≡ true
unfolding may_ack
complete rpc m e h = ground arith

-- When the RPC is known and its incoming message is well formed, an ACK goes out only after every byte
-- of the message has been received.
pub homa_need_ack_pkt_complete :
    (sender_id sport : ℕ) (rpc : Rpc) (m : MessageIn) (peer peer' : Peer) (ack : AckPacket)
    → rpc.msgin ≡ some m
    → IsValid m
    → homa_need_ack_pkt sender_id sport (some rpc) peer ≡ (peer', some ack)
    → all_below m.length (received m) ≡ true
unfolding homa_need_ack_pkt
homa_need_ack_pkt_complete sender_id sport rpc m peer peer' ack e v f =
    elim (Bool-cases (may_ack (some rpc))) [
      | inl yes_ack ↦ ground (arith, complete rpc m e yes_ack, bytes_remaining-zero m v)
      | inr no_ack ↦ absurd (ground arith)
    ]

all_of : (xs ys zs : List Ack) → xs ++ ys ≡ zs → length ys ≡ length zs → (ys ≡ zs) × (xs ≡ [])
all_of [] ys zs e l = (e, refl)
all_of (x ∷ xs) ys zs e l = absurd (omega (arith, length-append (x ∷ xs) ys, ap (λ k. length k) e))

get_acks-all :
    (peer : Peer)
    → length peer.acks ≤ max_acks_per_pkt
    → let (peer', acks) = homa_peer_get_acks max_acks_per_pkt peer in
      (acks ≡ peer.acks) × (peer'.acks ≡ [])
get_acks-all peer h =
    let splits = homa_peer_get_acks-splits max_acks_per_pkt peer in
    let peer' : Peer = (homa_peer_get_acks max_acks_per_pkt peer).0 in
    let acks = (homa_peer_get_acks max_acks_per_pkt peer).1 in
    all_of peer'.acks acks peer.acks splits.0 (ground (arith, splits.1))

-- An ACK for an RPC that is not known carries all the acks of the peer, if these were at most
-- HOMA_MAX_ACKS_PER_PKT, and leaves none behind.
pub homa_need_ack_pkt-drains :
    (sender_id sport : ℕ) (peer peer' : Peer) (ack : AckPacket)
    → length peer.acks ≤ max_acks_per_pkt
    → homa_need_ack_pkt sender_id sport none peer ≡ (peer', some ack)
    → (ack.acks ≡ peer.acks) × (peer'.acks ≡ [])
unfolding homa_need_ack_pkt may_ack
homa_need_ack_pkt-drains sender_id sport peer peer' ack h e = ground (arith, get_acks-all peer h)
