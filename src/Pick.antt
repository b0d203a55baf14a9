-- ===== src/Pick.antt =====
-- homa_grant.c, `homa_grant_pick_rpcs`: which RPCs are to get grants. The array `rpcs` is the list of
-- its first `num_rpcs` entries.
pub mod Place
pub mod Cut
pub mod Best
mod Tests
use connected_homa.Prelude.{
  ℕ, zero, suc, ◌+◌, Option, none, some, List, [], ◌∷◌, ◌++◌, ltb, leb, ◌==◌, if◌then◌else◌, length,
  take, drop, get_or,
}
use connected_homa.Homa.{Homa}
use connected_homa.Grantable.{Candidate, GrantPeer, Grantable, homa_grant_outranks}

-- `pos`: the loop from entry `i - 1` down past the entries that `rpc` outranks. Each read is inside the
-- array, so that the default of `get_or` is not used.
pub position : Candidate → List Candidate → ℕ → ℕ
position rpc picked zero = zero
position rpc picked (suc i) =
    let earlier = position rpc picked i in
    if homa_grant_outranks rpc (get_or picked i rpc) then earlier else suc i

-- Shifts the entries from `pos` on and stores `rpc` there; `none` where the code leaves the loop. With a
-- full array the last entry is overwritten.
pub place : ℕ → Candidate → List Candidate → Option (List Candidate)
unfolding position
place max_rpcs rpc picked =
    let pos = position rpc picked (length picked) in
    let shifted = take pos picked ++ rpc ∷ drop pos picked in
    if leb max_rpcs pos
    then none
    else if ltb (length picked) max_rpcs
    then some shifted
    else some (take max_rpcs shifted)

-- The loop over a peer's RPCs, from `rpcs_from_peer` on: the array, and the last `rpcs_from_peer`.
pub pick_from_peer : ℕ → ℕ → ℕ → List Candidate → List Candidate → List Candidate × ℕ
pick_from_peer max_rpcs limit from_peer [] picked = (picked, from_peer)
pick_from_peer max_rpcs limit from_peer (rpc ∷ rpcs) picked = elim (place max_rpcs rpc picked) [
  | none ↦ (picked, from_peer)
  | some picked' ↦
      let more = pick_from_peer max_rpcs limit (from_peer + 1) rpcs picked' in
      if leb limit (from_peer + 1) then (picked', from_peer + 1) else more
]

-- The loop over the peers.
pub pick_from_peers : ℕ → ℕ → List GrantPeer → List Candidate → List Candidate
pick_from_peers max_rpcs limit [] picked = picked
pick_from_peers max_rpcs limit (peer ∷ peers) picked =
    let (picked', from_peer) = pick_from_peer max_rpcs limit 0 peer.rpcs picked in
    let more = pick_from_peers max_rpcs limit peers picked' in
    if from_peer == 0 then picked' else more

-- `homa_grant_pick_rpcs`
pub homa_grant_pick_rpcs : Grantable → ℕ → List Candidate
homa_grant_pick_rpcs g max_rpcs = pick_from_peers max_rpcs g.homa.max_rpcs_per_peer g.peers []
