-- ===== src/Dispatch/Handle/Unknown.antt =====
-- Packets for RPCs that are not known.
use connected_homa.Prelude.{
  List, [], ◌∷◌, ℕ, ◌+◌, ◌≡◌, ◌⊎◌, Bool, true, false, not, ◌||◌, none, if◌then◌else◌,
}
use connected_homa.Rpc.{is_client, local_id}
use connected_homa.Table.{Hsk, homa_find_client_rpc, homa_find_server_rpc}
use connected_homa.Dispatch.{
  Body, data_pkt, grant_pkt, resend_pkt, unknown_pkt, busy_pkt, cutoffs_pkt, need_ack_pkt, ack_pkt,
  other_pkt, is_stray, Batch, Arrival,
}
use connected_homa.Dispatch.Handle.{is_grant}

abbrev pub is_data : Body → Bool
is_data (data_pkt _ _) = true
is_data (grant_pkt _) = false
is_data (resend_pkt _) = false
is_data unknown_pkt = false
is_data busy_pkt = false
is_data (cutoffs_pkt _ _) = false
is_data need_ack_pkt = false
is_data (ack_pkt _) = false
is_data other_pkt = false

-- No RPC is found for the packet, and it does not make one.
abbrev pub Nowhere : Batch → Body → Hsk → Type 0
Nowhere b body s =
    let id = local_id b.sender_id in
    ((is_client id ≡ true) × (homa_find_client_rpc s id ≡ none))
    ⊎ ((is_client id ≡ false) × (is_data body ≡ false) × (homa_find_server_rpc s b.saddr id ≡ none))

-- The packets that are counted in `unknown_rpcs`.
abbrev pub counted : Batch → List Arrival → ℕ
counted b [] = 0
counted b (a ∷ rest) =
    let n = counted b rest in
    if not (is_grant a.body) || is_client (local_id b.sender_id) then n + 1 else n

-- None of the packets is for an RPC that is known, and none is of a type that is handled all the same.
abbrev pub AllLost : Batch → List Arrival → Hsk → Type 0
AllLost b [] s = Unit {0}
AllLost b (a ∷ rest) s = (is_stray a.body ≡ false) × Nowhere b a.body s × AllLost b rest s
