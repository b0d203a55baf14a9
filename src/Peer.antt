-- ===== src/Peer.antt =====
-- homa_peer.c: the acks that wait for a packet to the peer, and the priorities that the peer has asked
-- for. A function that holds `ack_lock` throughout is one step. Of homa_incoming.c, `homa_cutoffs_pkt`.
pub mod Acks
pub mod Cutoffs
mod Tests
use connected_homa.Prelude.{
  ℕ, zero, suc, ◌+◌, ◌-◌, ◌^◌, Bool, true, false, Option, none, some, List, [], ◌∷◌, ◌++◌, ltb, leb,
  ◌==◌, if◌then◌else◌, length, take, drop, get_elem?, set,
}

-- `struct homa_ack`.
pub record Ack : Type 0 where
  pub client_id : ℕ
  pub server_port : ℕ

-- `struct homa_peer`: the first `num_acks` entries of `acks`, and `unsched_cutoffs`.
pub record Peer : Type 0 where
  pub acks : List Ack
  pub unsched_cutoffs : List ℕ
  pub cutoff_version : ℕ

-- HOMA_MAX_ACKS_PER_PKT, HOMA_MAX_PRIORITIES and INT_MAX.
abbrev pub max_acks_per_pkt : ℕ
max_acks_per_pkt = 5

abbrev pub max_priorities : ℕ
max_priorities = 8

abbrev pub int_max : ℕ
int_max = 2 ^ 31 - 1

-- An ACK packet: the RPC in its header, which counts as acknowledged, and `acks`.
pub record AckPacket : Type 0 where
  pub header : Ack
  pub acks : List Ack

-- `homa_peer_add_ack`, for the RPC with this id and port: the peer, and the ACK packet if one is sent.
pub homa_peer_add_ack : Ack → Peer → Peer × Option AckPacket
homa_peer_add_ack rpc peer =
    if ltb (length peer.acks) max_acks_per_pkt
    then (record peer { acks = peer.acks ++ rpc ∷ [] }, none)
    else (record peer { acks = [] }, some (record { header = rpc; acks = peer.acks }))

-- `homa_peer_get_acks`: the last `count` acks, or all.
unfoldable pub homa_peer_get_acks : ℕ → Peer → Peer × List Ack
homa_peer_get_acks count peer =
    let num_acks = length peer.acks in
    let n = if ltb num_acks count then num_acks else count in
    if num_acks == 0
    then (peer, [])
    else (record peer { acks = take (num_acks - n) peer.acks }, drop (num_acks - n) peer.acks)

-- The loop of `homa_unsched_priority` with `i` one less than the first argument; `none` where the code
-- would read before the array, or behind it.
unsched_priority_from : ℕ → List ℕ → ℕ → Option ℕ
unsched_priority_from zero cutoffs len = none
unsched_priority_from (suc i) cutoffs len =
    let next = unsched_priority_from i cutoffs len in
    elim (get_elem? cutoffs i) [
      | none ↦ none
      | some cutoff ↦ if leb len cutoff then some i else next
    ]

-- `homa_unsched_priority`.
unfoldable pub homa_unsched_priority : ℕ → Peer → ℕ → Option ℕ
unfolding unsched_priority_from
homa_unsched_priority num_priorities peer len =
    unsched_priority_from num_priorities peer.unsched_cutoffs len

-- The loop of `homa_cutoffs_pkt` over the rest of the packet's cutoffs, from index `i` on.
copy_cutoffs : ℕ → List ℕ → List ℕ → List ℕ
copy_cutoffs i [] cutoffs = cutoffs
copy_cutoffs i (c ∷ cs) cutoffs = copy_cutoffs (i + 1) cs (set cutoffs i c)

-- `homa_cutoffs_pkt` for a peer that is found; the packet has HOMA_MAX_PRIORITIES cutoffs, of which the
-- first is not used.
pub homa_cutoffs_pkt : List ℕ → ℕ → Peer → Peer
unfolding copy_cutoffs
homa_cutoffs_pkt packet version peer = record peer {
  unsched_cutoffs = copy_cutoffs 1 (drop 1 packet) (set peer.unsched_cutoffs 0 int_max);
  cutoff_version = version;
}
