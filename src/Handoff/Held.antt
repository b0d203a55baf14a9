-- ===== src/Handoff/Held.antt =====
-- What is marked as being handed over is with a thread, and stays there.
use connected_homa.Prelude.{
  ℕ, ◌≡◌, ap, sym, ◌∙◌, inl, inr, true, false, ◌||◌, none, some, ◌==◌, arith, Bool-cases,
  Option-cases, update,
}
use connected_homa.Rpc.{is_client}
use connected_homa.Table.{Entry, Hsk}
use connected_homa.Handoff.{
  Cores, is_ready, interest_for, thread_waiting, queue_ready, homa_rpc_handoff,
}
use connected_homa.Handoff.Delivery.{Wired, forget-handing_off}
use connected_homa.Handoff.Given.{interest_for-vacant}

-- A thread has the RPC.
abbrev pub IsWith : ℕ → Hsk → Type 0
IsWith q s = (i : ℕ) × ((s.interests i).ready_rpc ≡ some q)

abbrev pub Held : ℕ → Hsk → Type 0
Held q s = (s.rpcs q).handing_off ≡ true → IsWith q s

queue_ready-Held : (r q : ℕ) (s : Hsk) → Held q s → Held q (queue_ready r s)
unfolding queue_ready
queue_ready-Held r q s h = elim (Bool-cases (is_client (s.rpcs r).rpc.id)) [
  | inl client ↦ rw client h
  | inr server ↦ rw server h
]

thread_waiting-Held :
    (i r q : ℕ) (s : Hsk)
    → (s.interests i).ready_rpc ≡ none
    → Held q s
    → Held q (thread_waiting i r s)
unfolding thread_waiting
thread_waiting-Held i r q s vacant h m = elim (Bool-cases (q == r)) [
  | inl same ↦ let e : q ≡ r = ground arith in (i, ground arith)
  | inr other ↦
      let before = sym (forget-handing_off (s.interests i).reg_rpc marked q) ∙ m in
      let (j, had) = h (rw other at before) in (j, rw (apart j had) had)
]
  where
    marked : ℕ → Entry
    marked = update s.rpcs r (record (s.rpcs r) { handing_off = true })

    apart : (j : ℕ) → (s.interests j).ready_rpc ≡ some q → (j == i) ≡ false
    apart j had = elim (Bool-cases (j == i)) [
      | inr differ ↦ differ
      | inl same ↦
          let e : j ≡ i = ground arith in
          absurd (let bad = sym had ∙ ap (λ x. (s.interests x).ready_rpc) e ∙ vacant in cc)
    ]

pub homa_rpc_handoff-Held :
    (c : Cores) (r q : ℕ) (s : Hsk) → Wired s → Held q s → Held q (homa_rpc_handoff c r s)
unfolding homa_rpc_handoff
homa_rpc_handoff-Held c r q s w h = elim (Bool-cases ((s.rpcs r).handing_off || is_ready r s)) [
  | inl done ↦ rw done h
  | inr go ↦ elim (Option-cases (interest_for c r s)) [
    | inl nobody ↦ rw (go, nobody) (queue_ready-Held r q s h)
    | inr (i, found) ↦
        rw (go, found) (thread_waiting-Held i r q s (interest_for-vacant c r s i w found) h)
  ]
]
