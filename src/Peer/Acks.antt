-- ===== src/Peer/Acks.antt =====
-- No ack is lost, and none is sent twice.
use connected_homa.Prelude.{
  ℕ, ◌+◌, ◌-◌, ◌≤◌, ◌≡◌, refl, Bool, ◌&&◌, none, some, List, [], ◌∷◌, ◌++◌, ltb, ◌==◌,
  if◌then◌else◌, arith, length, length-append, length-drop, take-append-drop, ap,
}
use connected_homa.Peer.{Ack, Peer, max_acks_per_pkt, homa_peer_add_ack, homa_peer_get_acks}

abbrev pub same_ack : Ack → Ack → Bool
same_ack a b = a.client_id == b.client_id && a.server_port == b.server_port

-- How often an ack stands in a list.
abbrev pub count : Ack → List Ack → ℕ
count a [] = 0
count a (b ∷ acks) = (if same_ack a b then 1 else 0) + count a acks

count-append : (a : Ack) (xs ys : List Ack) → count a (xs ++ ys) ≡ count a xs + count a ys
count-append a [] ys = omega arith
count-append a (b ∷ xs) ys = omega (arith, count-append a xs ys)

-- `homa_peer_add_ack` leaves at most HOMA_MAX_ACKS_PER_PKT acks, if there were no more before.
homa_peer_add_ack-fits :
    (rpc : Ack) (peer : Peer)
    → length peer.acks ≤ max_acks_per_pkt
    → length (homa_peer_add_ack rpc peer).0.acks ≤ max_acks_per_pkt
unfolding homa_peer_add_ack
homa_peer_add_ack-fits rpc peer h = ground (arith, length-append peer.acks (rpc ∷ []))

-- `homa_peer_get_acks` hands out at most `count` acks, as many as there are, and what it hands out and
-- what it keeps are together the acks of before.
pub homa_peer_get_acks-splits :
    (n : ℕ) (peer : Peer)
    → let (peer', taken) = homa_peer_get_acks n peer in
      (peer'.acks ++ taken ≡ peer.acks)
      × (length taken ≡ (if ltb (length peer.acks) n then length peer.acks else n))
unfolding homa_peer_get_acks
homa_peer_get_acks-splits n peer = ground (
  arith,
  take-append-drop (length peer.acks - n) peer.acks,
  length-drop (length peer.acks - n) peer.acks,
  take-append-drop 0 peer.acks,
  drop_all peer.acks,
)
  where
    drop_all : (acks : List Ack) → length acks ≡ 0 → acks ≡ []
    drop_all [] e = refl
    drop_all (a ∷ acks) e = absurd (omega arith)

-- What the peer's users do to its acks.
pub data Op : Type 0 where
  add : Ack → Op
  get : ℕ → Op

-- The acks that leave for the network in a step.
pub step : Op → Peer → Peer × List Ack
step (add rpc) peer = elim (homa_peer_add_ack rpc peer).1 [
  | none ↦ ((homa_peer_add_ack rpc peer).0, [])
  | some packet ↦ ((homa_peer_add_ack rpc peer).0, packet.header ∷ packet.acks)
]
step (get n) peer = homa_peer_get_acks n peer

pub run : List Op → Peer → Peer × List Ack
run [] peer = (peer, [])
run (op ∷ ops) peer =
    let (peer', sent) = step op peer in let (peer'', more) = run ops peer' in (peer'', sent ++ more)

abbrev pub added : List Op → List Ack
added [] = []
added (add rpc ∷ ops) = rpc ∷ added ops
added (get n ∷ ops) = added ops

step-count :
    (op : Op) (peer : Peer) (a : Ack)
    → count a (step op peer).1 + count a (step op peer).0.acks
      ≡ count a (added (op ∷ [])) + count a peer.acks
unfolding step
step-count (add rpc) peer a =
    unfold homa_peer_add_ack in ground (arith, count-append a peer.acks (rpc ∷ []))
step-count (get n) peer a =
    let split = homa_peer_get_acks-splits n peer in
    omega (
      arith,
      count-append a (homa_peer_get_acks n peer).0.acks (homa_peer_get_acks n peer).1,
      ap (count a) split.0,
    )

-- In every run, each ack that was stored at first or added since has been sent, or is stored, exactly
-- as often.
pub run-count :
    (ops : List Op) (peer : Peer) (a : Ack)
    → count a (run ops peer).1 + count a (run ops peer).0.acks
      ≡ count a (added ops) + count a peer.acks
unfolding run
run-count [] peer a = omega arith
run-count (op ∷ ops) peer a = omega (
  arith,
  run-count ops (step op peer).0 a,
  step-count op peer a,
  count-append a (step op peer).1 (run ops (step op peer).0).1,
  added-cons op ops,
)
  where
    added-cons :
        (op : Op) (ops : List Op)
        → count a (added (op ∷ ops)) ≡ count a (added (op ∷ [])) + count a (added ops)
    added-cons (add rpc) ops = omega arith
    added-cons (get n) ops = omega arith
