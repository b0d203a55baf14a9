-- ===== src/Handoff/Claim.antt =====
-- A message that is queued is claimed.
use connected_homa.Prelude.{
  ℕ, ◌≡◌, ◌⊎◌, refl, ap, ◌∙◌, inl, inr, true, false, ◌||◌, none, some, [], ◌∷◌, arith, Bool-cases,
}
use connected_homa.Rpc.{is_client}
use connected_homa.Table.{Hsk, remove}
use connected_homa.Table.Refs.{has-remove}
use connected_homa.Handoff.{
  Cores, is_ready, queue_ready, interest_for, homa_rpc_handoff, claims, take_ready, claim_rpc,
  register_request, register_response, register, unlock, finish_claim, with_interest,
}
use connected_homa.Handoff.Given.{interests_of}

-- Once the thread has the RPC.
pub record Received (i r : ℕ) (s : Hsk) : Type 0 where
  pub ready_rpc : (s.interests i).ready_rpc ≡ some r
  pub free : (s.rpcs r).handing_off ≡ false
  pub unready : is_ready r s ≡ false

finish_claim-Received : (i r : ℕ) (s : Hsk) → Received i r (finish_claim i r (take_ready r s))
unfolding finish_claim take_ready
finish_claim-Received i r s = record {
  ready_rpc = ground arith;
  free = ground arith;
  unready = ground (arith, has-remove r r s.ready_requests, has-remove r r s.ready_responses);
}

abbrev started : ℕ → ℕ → Hsk → Hsk
started core i s =
    unlock i
      (with_interest i (record { core = core; ready_rpc = none; reg_rpc = none; locked = true }) s)

register-first :
    (core i r : ℕ) (s : Hsk)
    → s.shutdown ≡ false
    → (s.ready_responses ≡ r ∷ []) ⊎ ((s.ready_responses ≡ []) × (s.ready_requests ≡ r ∷ []))
    → (t : Hsk) × (register core i true true none s ≡ claims r (take_ready r t))
unfolding register register_response register_request claim_rpc
register-first core i r s up (inl responses) = (started core i s, rw (up, responses) refl)
register-first core i r s up (inr (responses, requests)) = (
  record (started core i s) { response_interests = remove i (i ∷ s.response_interests) },
  rw (up, responses, requests) refl,
)

queue_ready-only :
    (r : ℕ) (s : Hsk)
    → s.shutdown ≡ false
    → s.ready_requests ≡ []
    → s.ready_responses ≡ []
    → let s' = queue_ready r s in
      (s'.shutdown ≡ false)
      × ((s'.ready_responses ≡ r ∷ []) ⊎ ((s'.ready_responses ≡ []) × (s'.ready_requests ≡ r ∷ [])))
unfolding queue_ready
queue_ready-only r s up requests responses = elim (Bool-cases (is_client (s.rpcs r).rpc.id)) [
  | inl client ↦ rw (client, responses) (up, inl refl)
  | inr server ↦ rw (server, requests) (up, inr (responses, refl))
]

homa_rpc_handoff-queues :
    (c : Cores) (r : ℕ) (s : Hsk)
    → ((s.rpcs r).handing_off || is_ready r s) ≡ false
    → interest_for c r s ≡ none
    → homa_rpc_handoff c r s ≡ queue_ready r s
unfolding homa_rpc_handoff
homa_rpc_handoff-queues c r s idle nobody = rw (idle, nobody) refl

-- A message for which no thread waits when `homa_rpc_handoff` is called, and that is the only one, is
-- what the next thread gets that asks for messages of any kind; it is ready no more, and no longer being
-- handed over once the thread has it.
pub register-homa_rpc_handoff :
    (c : Cores) (core i r : ℕ) (s : Hsk)
    → s.shutdown ≡ false
    → (s.rpcs r).handing_off ≡ false
    → (s.rpcs r).interest ≡ none
    → interests_of r s ≡ []
    → s.ready_requests ≡ []
    → s.ready_responses ≡ []
    → (s' : Hsk) × (register core i true true none (homa_rpc_handoff c r s) ≡ claims r s')
      × Received i r (finish_claim i r s')
register-homa_rpc_handoff c core i r s up free alone nobody requests responses =
    let nobody' : interest_for c r s ≡ none = rw (alone, nobody, interest_for) refl in
    let idle : ((s.rpcs r).handing_off || is_ready r s) ≡ false =
      rw (free, requests, responses) refl in
    let queue = homa_rpc_handoff-queues c r s idle nobody' in
    let (up', queued) = queue_ready-only r s up requests responses in
    let (t, first) = register-first core i r (queue_ready r s) up' queued in
    (
      take_ready r t,
      ap (λ x. register core i true true none x) queue ∙ first,
      finish_claim-Received i r t,
    )
