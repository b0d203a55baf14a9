-- ===== src/Peer/Tests.antt =====
-- Runs of the acks and of the cutoffs, and the theorems at them.
use connected_homa.Prelude.{ℕ, ◌+◌, ◌≡◌, refl, some, List, [], ◌∷◌}
use connected_homa.Peer.{
  Ack, Peer, homa_peer_add_ack, homa_peer_get_acks, homa_unsched_priority, homa_cutoffs_pkt,
}
use connected_homa.Peer.Acks.{count, Op, add, get, run, added, run-count}

abbrev ack : ℕ → Ack
ack id = record { client_id = id; server_port = 99 }

abbrev full : Peer
full = record {
  acks = ack 2 ∷ ack 4 ∷ ack 6 ∷ ack 8 ∷ ack 10 ∷ [];
  unsched_cutoffs = 0 ∷ 0 ∷ 0 ∷ 0 ∷ 0 ∷ 0 ∷ 0 ∷ 0 ∷ [];
  cutoff_version = 0;
}

overflow : (homa_peer_add_ack (ack 12) full).1 ≡ some (record { header = ack 12; acks = full.acks })
unfolding homa_peer_add_ack
overflow = refl

last_two : (homa_peer_get_acks 2 full).1 ≡ ack 8 ∷ ack 10 ∷ []
unfolding homa_peer_get_acks
last_two = refl

abbrev packet : List ℕ
packet = 9 ∷ 1000 ∷ 900 ∷ 800 ∷ 700 ∷ 600 ∷ 0 ∷ 0 ∷ []

priority_runs : homa_unsched_priority 8 (homa_cutoffs_pkt packet 3 full) 850 ≡ some 2
unfolding homa_unsched_priority homa_cutoffs_pkt
priority_runs = refl

abbrev script : List Op
script = add (ack 12) ∷ add (ack 14) ∷ get 5 ∷ []

run-count_example :
    count (ack 12) (run script full).1 + count (ack 12) (run script full).0.acks
    ≡ count (ack 12) (added script) + count (ack 12) full.acks
run-count_example = run-count script full (ack 12)
