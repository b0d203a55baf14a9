-- ===== src/Handoff/Given.antt =====
-- What becomes of an RPC that `homa_rpc_handoff` is called for.
use connected_homa.Prelude.{
  ℕ, ◌≡◌, ◌≢◌, ◌⊎◌, refl, ap, sym, ◌∙◌, inl, inr, true, false, ◌||◌, none, some, List, [], ◌∷◌,
  ◌++◌, if◌then◌else◌, arith, Bool-cases, update, Option-cases,
}
use connected_homa.Rpc.{is_client}
use connected_homa.Table.{Entry, Hsk, has}
use connected_homa.Table.Refs.{has-remove, has-append}
use connected_homa.Handoff.{
  Cores, is_ready, interest_for, thread_waiting, queue_ready, homa_rpc_handoff,
  homa_choose_interest,
}
use connected_homa.Handoff.Choice.{homa_choose_interest-best}
use connected_homa.Handoff.Delivery.{
  is_linked, Wired, forget-interest, forget-handing_off, marked-interest,
}

-- The interest `i` had no RPC, and now has `r`; its thread is woken, and no RPC can be given to it again.
pub record Given (i r : ℕ) (before after : Hsk) : Type 0 where
  pub vacant : (before.interests i).ready_rpc ≡ none
  pub given : (after.interests i).ready_rpc ≡ some r
  pub woken : after.woken ≡ i ∷ before.woken
  pub marked : (after.rpcs r).handing_off ≡ true
  pub unlinked : is_linked i after ≡ false
  pub unattached : (q : ℕ) → (after.rpcs q).interest ≢ some i

abbrev pub interests_of : ℕ → Hsk → List ℕ
interests_of r s = if is_client (s.rpcs r).rpc.id then s.response_interests else s.request_interests

abbrev pub ready_of : ℕ → Hsk → List ℕ
ready_of r s = if is_client (s.rpcs r).rpc.id then s.ready_responses else s.ready_requests

-- No thread waits for `r`, and `r` is the last in its queue.
pub record Queued (r : ℕ) (before after : Hsk) : Type 0 where
  pub alone : (before.rpcs r).interest ≡ none
  pub nobody : interests_of r before ≡ []
  pub queued : ready_of r after ≡ ready_of r before ++ r ∷ []

-- Whoever is chosen can be chosen.
pub interest_for-vacant :
    (c : Cores) (r : ℕ) (s : Hsk) (i : ℕ)
    → Wired s
    → interest_for c r s ≡ some i
    → (s.interests i).ready_rpc ≡ none
interest_for-vacant c r s i w e = elim (Option-cases (s.rpcs r).interest) [
  | inr (j, own) ↦
      let (vacant, _) = w.attached r j own in
      let same : some j ≡ some i = rw (own, interest_for) at e in
      ground (arith, vacant, same, ap (λ x. (s.interests x).ready_rpc))
  | inl general ↦ from_list (interests_of r s) (λ h. linked h) (rw (general, interest_for) at e)
]
  where
    linked : has i (interests_of r s) ≡ true → (s.interests i).ready_rpc ≡ none
    linked h = w.linked i (ground (arith, h))

    from_list :
        (is : List ℕ)
        → (has i is ≡ true → (s.interests i).ready_rpc ≡ none)
        → homa_choose_interest c s.interests is ≡ some i
        → (s.interests i).ready_rpc ≡ none
    from_list [] h e = absurd (cc)
    from_list (j ∷ is) h e =
        let (k, chosen, stands, _) = homa_choose_interest-best c s.interests j is in
        h (ground (arith, sym chosen ∙ e, stands))

thread_waiting-Given :
    (i r : ℕ) (s : Hsk)
    → Wired s
    → (s.interests i).ready_rpc ≡ none
    → Given i r s (thread_waiting i r s)
unfolding thread_waiting
thread_waiting-Given i r s w vacant = record {
  vacant = vacant;
  given = ground arith;
  woken = refl;
  marked = forget-handing_off (s.interests i).reg_rpc marked r ∙ ground arith;
  unlinked =
      ground (arith, has-remove i i s.request_interests, has-remove i i s.response_interests);
  unattached = unattached';
}
  where
    marked : ℕ → Entry
    marked = update s.rpcs r (record (s.rpcs r) { handing_off = true })

    unattached' : (q : ℕ) → ((thread_waiting i r s).rpcs q).interest ≢ some i
    unattached' q e =
        let (still, unnamed) = forget-interest (s.interests i).reg_rpc marked q i e in
        let (_, registered) = w.attached q i (sym (marked-interest s.rpcs r q) ∙ still) in
        unnamed registered

queue_ready-Queued :
    (c : Cores) (r : ℕ) (s : Hsk) → interest_for c r s ≡ none → Queued r s (queue_ready r s)
unfolding queue_ready
queue_ready-Queued c r s e = elim (Option-cases (s.rpcs r).interest) [
  | inr (j, own) ↦ absurd (let bad : some j ≡ none = rw (own, interest_for) at e in cc)
  | inl general ↦ record {
    alone = general;
    nobody = from_list (interests_of r s) (rw (general, interest_for) at e);
    queued = ground arith;
  }
]
  where
    from_list : (is : List ℕ) → homa_choose_interest c s.interests is ≡ none → is ≡ []
    from_list [] h = refl
    from_list (j ∷ is) h =
        let (k, chosen, _, _) = homa_choose_interest-best c s.interests j is in
        absurd (let bad : some k ≡ none = sym chosen ∙ h in cc)

-- Where the interests that can be chosen have no RPC yet, `homa_rpc_handoff` for an RPC that is neither
-- being handed over nor ready either gives it to a thread whose interest had no RPC, which is woken and
-- can be chosen no more, or finds no thread that waits for such an RPC and puts it at the end of the
-- queue of its kind.
pub homa_rpc_handoff-delivers :
    (c : Cores) (r : ℕ) (s : Hsk)
    → Wired s
    → (s.rpcs r).handing_off ≡ false
    → is_ready r s ≡ false
    → let s' = homa_rpc_handoff c r s in ((i : ℕ) × Given i r s s') ⊎ Queued r s s'
unfolding homa_rpc_handoff
homa_rpc_handoff-delivers c r s w free unready = elim (Option-cases (interest_for c r s)) [
  | inl nobody ↦ rw (free, unready, nobody) (inr (queue_ready-Queued c r s nobody))
  | inr (i, found) ↦
      let vacant = interest_for-vacant c r s i w found in
      rw (free, unready, found) (inl (i, thread_waiting-Given i r s w vacant))
]

queue_ready-ready :
    (r : ℕ) (s : Hsk)
    → (((queue_ready r s).rpcs r).handing_off || is_ready r (queue_ready r s)) ≡ true
unfolding queue_ready
queue_ready-ready r s =
    ground (arith, has-append r r s.ready_responses, has-append r r s.ready_requests)

thread_waiting-marked :
    (i r : ℕ) (s : Hsk)
    → (((thread_waiting i r s).rpcs r).handing_off || is_ready r (thread_waiting i r s)) ≡ true
unfolding thread_waiting
thread_waiting-marked i r s =
    let marked = update s.rpcs r (record (s.rpcs r) { handing_off = true }) in
    ground (arith, forget-handing_off (s.interests i).reg_rpc marked r)

pub homa_rpc_handoff-settles :
    (c : Cores) (r : ℕ) (s : Hsk)
    → let s' = homa_rpc_handoff c r s in ((s'.rpcs r).handing_off || is_ready r s') ≡ true
unfolding homa_rpc_handoff
homa_rpc_handoff-settles c r s = elim (Bool-cases ((s.rpcs r).handing_off || is_ready r s)) [
  | inl done ↦ rw done done
  | inr go ↦ elim (Option-cases (interest_for c r s)) [
    | inl nobody ↦ rw (go, nobody) (queue_ready-ready r s)
    | inr (i, found) ↦ rw (go, found) (thread_waiting-marked i r s)
  ]
]

-- What is being handed over, or is ready, stays as it is.
pub homa_rpc_handoff-again :
    (c : Cores) (r : ℕ) (s : Hsk)
    → ((s.rpcs r).handing_off || is_ready r s) ≡ true
    → homa_rpc_handoff c r s ≡ s
unfolding homa_rpc_handoff
homa_rpc_handoff-again c r s done = rw done refl

-- A second call for the same RPC, by whichever core, does nothing.
pub homa_rpc_handoff-once :
    (c c' : Cores) (r : ℕ) (s : Hsk)
    → homa_rpc_handoff c' r (homa_rpc_handoff c r s) ≡ homa_rpc_handoff c r s
homa_rpc_handoff-once c c' r s =
    homa_rpc_handoff-again c' r (homa_rpc_handoff c r s) (homa_rpc_handoff-settles c r s)

queue_ready-stays :
    (r q : ℕ) (s : Hsk)
    → ((s.rpcs q).handing_off || is_ready q s) ≡ true
    → (((queue_ready r s).rpcs q).handing_off || is_ready q (queue_ready r s)) ≡ true
unfolding queue_ready
queue_ready-stays r q s h =
    ground (arith, h, has-append q r s.ready_responses, has-append q r s.ready_requests)

thread_waiting-stays :
    (i r q : ℕ) (s : Hsk)
    → ((s.rpcs q).handing_off || is_ready q s) ≡ true
    → (((thread_waiting i r s).rpcs q).handing_off || is_ready q (thread_waiting i r s)) ≡ true
unfolding thread_waiting
thread_waiting-stays i r q s h =
    let marked = update s.rpcs r (record (s.rpcs r) { handing_off = true }) in
    ground (arith, h, forget-handing_off (s.interests i).reg_rpc marked q)

-- What is being handed over, or is ready, is so after a call for any RPC.
pub homa_rpc_handoff-stays :
    (c : Cores) (r q : ℕ) (s : Hsk)
    → ((s.rpcs q).handing_off || is_ready q s) ≡ true
    → let s' = homa_rpc_handoff c r s in ((s'.rpcs q).handing_off || is_ready q s') ≡ true
unfolding homa_rpc_handoff
homa_rpc_handoff-stays c r q s h = elim (Bool-cases ((s.rpcs r).handing_off || is_ready r s)) [
  | inl done ↦ rw done h
  | inr go ↦ elim (Option-cases (interest_for c r s)) [
    | inl nobody ↦ rw (go, nobody) (queue_ready-stays r q s h)
    | inr (i, found) ↦ rw (go, found) (thread_waiting-stays i r q s h)
  ]
]

pub homa_rpc_handoff-shutdown :
    (c : Cores) (r : ℕ) (s : Hsk) → (homa_rpc_handoff c r s).shutdown ≡ s.shutdown
unfolding homa_rpc_handoff queue_ready thread_waiting
homa_rpc_handoff-shutdown c r s = elim (Bool-cases ((s.rpcs r).handing_off || is_ready r s)) [
  | inl done ↦ rw done refl
  | inr go ↦ elim (Option-cases (interest_for c r s)) [
    | inl nobody ↦
        rw (go, nobody)
          (elim (Bool-cases (is_client (s.rpcs r).rpc.id)) [
            | inl client ↦ rw client refl
            | inr server ↦ rw server refl
          ])
    | inr (i, found) ↦ rw (go, found) refl
  ]
]
