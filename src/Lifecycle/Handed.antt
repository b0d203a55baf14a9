-- ===== src/Lifecycle/Handed.antt =====
-- `homa_rpc_handoff` does not touch the tables.
use connected_homa.Prelude.{
  ℕ, ◌≡◌, refl, ap, sym, ◌∙◌, inl, inr, true, ◌||◌, ◌&&◌, Option, none, some, ◌==◌, arith,
  Bool-cases, Option-cases, update, ltb,
}
use connected_homa.Rpc.{MessageIn, is_client}
use connected_homa.Table.{Entry, Hsk}
use connected_homa.Handoff.{
  Cores, is_ready, forget, interest_for, thread_waiting, queue_ready, homa_rpc_handoff,
}
use connected_homa.Lifecycle.{Request, hand_off_first}
use connected_homa.Lifecycle.Live.{Same}

pub Same-trans : (a b c : Hsk) → Same a b → Same b c → Same a c
Same-trans a b c p q = record {
  client_rpc_buckets = q.client_rpc_buckets ∙ p.client_rpc_buckets;
  server_rpc_buckets = q.server_rpc_buckets ∙ p.server_rpc_buckets;
  active_rpcs = q.active_rpcs ∙ p.active_rpcs;
  dead_rpcs = q.dead_rpcs ∙ p.dead_rpcs;
  rpc = λ r. q.rpc r ∙ p.rpc r;
  peer = λ r. q.peer r ∙ p.peer r;
}

-- A change of one entry that keeps its RPC and its peer.
pub update-Same :
    (r : ℕ) (e : Entry) (s : Hsk)
    → e.rpc ≡ (s.rpcs r).rpc
    → e.peer ≡ (s.rpcs r).peer
    → Same s (record s { rpcs = update s.rpcs r e })
update-Same r e s rpc peer = record {
  client_rpc_buckets = refl;
  server_rpc_buckets = refl;
  active_rpcs = refl;
  dead_rpcs = refl;
  rpc = λ q. elim (Bool-cases (q == r)) [
    | inl same ↦ let h : q ≡ r = ground arith in rw same (rpc ∙ ap (λ x. (s.rpcs x).rpc) (sym h))
    | inr other ↦ rw other refl
  ];
  peer = λ q. elim (Bool-cases (q == r)) [
    | inl same ↦ let h : q ≡ r = ground arith in rw same (peer ∙ ap (λ x. (s.rpcs x).peer) (sym h))
    | inr other ↦ rw other refl
  ];
}

forget-Same : (reg : Option ℕ) (s : Hsk) → Same s (record s { rpcs = forget reg s.rpcs })
forget-Same none s = record {
  client_rpc_buckets = refl;
  server_rpc_buckets = refl;
  active_rpcs = refl;
  dead_rpcs = refl;
  rpc = λ q. refl;
  peer = λ q. refl;
}
forget-Same (some q) s = update-Same q (record (s.rpcs q) { interest = none }) s refl refl

thread_waiting-Same : (i r : ℕ) (s : Hsk) → Same s (thread_waiting i r s)
unfolding thread_waiting
thread_waiting-Same i r s =
    let marked = record s { rpcs = update s.rpcs r (record (s.rpcs r) { handing_off = true }) } in
    let first = update-Same r (record (s.rpcs r) { handing_off = true }) s refl refl in
    let second = forget-Same (s.interests i).reg_rpc marked in
    let both = Same-trans s marked _ first second in
    record {
      client_rpc_buckets = both.client_rpc_buckets;
      server_rpc_buckets = both.server_rpc_buckets;
      active_rpcs = both.active_rpcs;
      dead_rpcs = both.dead_rpcs;
      rpc = both.rpc;
      peer = both.peer;
    }

pub Same-refl : (s : Hsk) → Same s s
Same-refl s = record {
  client_rpc_buckets = refl;
  server_rpc_buckets = refl;
  active_rpcs = refl;
  dead_rpcs = refl;
  rpc = λ r. refl;
  peer = λ r. refl;
}

queue_ready-Same : (r : ℕ) (s : Hsk) → Same s (queue_ready r s)
unfolding queue_ready
queue_ready-Same r s = elim (Bool-cases (is_client (s.rpcs r).rpc.id)) [
  | inl client ↦ rw client (record {
    client_rpc_buckets = refl;
    server_rpc_buckets = refl;
    active_rpcs = refl;
    dead_rpcs = refl;
    rpc = λ q. refl;
    peer = λ q. refl;
  })
  | inr server ↦ rw server (record {
    client_rpc_buckets = refl;
    server_rpc_buckets = refl;
    active_rpcs = refl;
    dead_rpcs = refl;
    rpc = λ q. refl;
    peer = λ q. refl;
  })
]

pub homa_rpc_handoff-Same : (c : Cores) (r : ℕ) (s : Hsk) → Same s (homa_rpc_handoff c r s)
unfolding homa_rpc_handoff
homa_rpc_handoff-Same c r s = elim (Bool-cases ((s.rpcs r).handing_off || is_ready r s)) [
  | inl done ↦ rw done (Same-refl s)
  | inr go ↦ elim (Option-cases (interest_for c r s)) [
    | inl nobody ↦ rw (go, nobody) (queue_ready-Same r s)
    | inr (i, found) ↦ rw (go, found) (thread_waiting-Same i r s)
  ]
]

pub hand_off_first-Same :
    (c : Cores) (h : Request) (m : MessageIn) (r : ℕ) (s : Hsk) → Same s (hand_off_first c h m r s)
unfolding hand_off_first
hand_off_first-Same c h m r s = elim (Bool-cases (h.offset == 0 && ltb 0 m.num_bpages)) [
  | inl first ↦
      let ready = record s { rpcs = update s.rpcs r (record (s.rpcs r) { pkts_ready = true }) } in
      rw first (
        Same-trans s ready (homa_rpc_handoff c r ready)
          (update-Same r (record (s.rpcs r) { pkts_ready = true }) s refl refl)
          (homa_rpc_handoff-Same c r ready))
  | inr later ↦ rw later (Same-refl s)
]
