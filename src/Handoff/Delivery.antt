-- ===== src/Handoff/Delivery.antt =====
-- No message that is handed over is overwritten, and none is handed over twice.
use connected_homa.Prelude.{
  ℕ, ◌≡◌, ◌≢◌, refl, ap, sym, subst, ◌∙◌, inl, inr, Bool, true, false, ◌||◌, Option, none, some,
  List, [], ◌∷◌, ◌++◌, ◌==◌, arith, Bool-cases, update, Option-cases,
}
use connected_homa.Rpc.{is_client}
use connected_homa.Table.{Entry, Hsk, has}
use connected_homa.Table.Refs.{has-remove, has-append}
use connected_homa.Handoff.{
  Cores, is_ready, forget, interest_for, thread_waiting, queue_ready, homa_rpc_handoff,
}

abbrev pub is_linked : ℕ → Hsk → Bool
is_linked i s = has i s.request_interests || has i s.response_interests

-- An interest that can be chosen has no RPC yet, and a ready RPC is with no thread.
pub record Wired (s : Hsk) : Type 0 where
  pub linked : (i : ℕ) → is_linked i s ≡ true → (s.interests i).ready_rpc ≡ none
  pub attached :
      (r i : ℕ)
      → (s.rpcs r).interest ≡ some i
      → ((s.interests i).ready_rpc ≡ none) × ((s.interests i).reg_rpc ≡ some r)
  pub queued : (r : ℕ) → is_ready r s ≡ true → (s.rpcs r).handing_off ≡ false

-- `forget` leaves an interest only where it was, and not that of the RPC that is named.
pub forget-interest :
    (reg : Option ℕ) (rpcs : ℕ → Entry) (q i : ℕ)
    → (forget reg rpcs q).interest ≡ some i
    → ((rpcs q).interest ≡ some i) × (reg ≢ some q)
forget-interest none rpcs q i e = (e, λ h. absurd (cc))
forget-interest (some r) rpcs q i e = elim (Bool-cases (q == r)) [
  | inl same ↦ absurd (ground (arith, e))
  | inr other ↦ (ground (arith, e), λ h. ground (arith, h))
]

pub forget-handing_off :
    (reg : Option ℕ) (rpcs : ℕ → Entry) (q : ℕ)
    → (forget reg rpcs q).handing_off ≡ (rpcs q).handing_off
forget-handing_off none rpcs q = refl
forget-handing_off (some r) rpcs q = ground (arith, ap (λ (x : ℕ). (rpcs x).handing_off))

-- To mark an RPC changes no interest.
pub marked-interest :
    (rpcs : ℕ → Entry) (r q : ℕ)
    → (update rpcs r (record (rpcs r) { handing_off = true }) q).interest ≡ (rpcs q).interest
marked-interest rpcs r q = ground (arith, ap (λ (x : ℕ). (rpcs x).interest))

thread_waiting-Wired :
    (i r : ℕ) (s : Hsk) → Wired s → is_ready r s ≡ false → Wired (thread_waiting i r s)
unfolding thread_waiting
thread_waiting-Wired i r s w unready = record {
  linked = λ j h. ground (
    arith,
    h,
    has-remove i j s.request_interests,
    has-remove i j s.response_interests,
    w.linked j,
  );
  attached = attached';
  queued = queued';
}
  where
    marked : ℕ → Entry
    marked = update s.rpcs r (record (s.rpcs r) { handing_off = true })

    attached' :
        (q j : ℕ)
        → ((thread_waiting i r s).rpcs q).interest ≡ some j
        → (((thread_waiting i r s).interests j).ready_rpc ≡ none)
          × (((thread_waiting i r s).interests j).reg_rpc ≡ some q)
    attached' q j e =
        let (still, unnamed) = forget-interest (s.interests i).reg_rpc marked q j e in
        let before = w.attached q j (sym (marked-interest s.rpcs r q) ∙ still) in
        elim (Bool-cases (j == i)) [
          | inl same ↦
              let e' : j ≡ i = ground arith in
              absurd (unnamed (subst (λ x. (s.interests x).reg_rpc ≡ some q) e' before.1))
          | inr other ↦ rw other before
        ]

    queued' :
        (q : ℕ)
        → is_ready q (thread_waiting i r s) ≡ true
        → ((thread_waiting i r s).rpcs q).handing_off ≡ false
    queued' q h = forget-handing_off (s.interests i).reg_rpc marked q ∙ elim (Bool-cases (q == r)) [
      | inl same ↦
          let e : q ≡ r = ground arith in
          absurd (ground (arith, ap (λ x. is_ready x s) e, h, unready))
      | inr other ↦ rw other (w.queued q h)
    ]

queue_ready-Wired :
    (r : ℕ) (s : Hsk) → Wired s → (s.rpcs r).handing_off ≡ false → Wired (queue_ready r s)
unfolding queue_ready
queue_ready-Wired r s w free = elim (Bool-cases (is_client (s.rpcs r).rpc.id)) [
  | inl client ↦ rw client (record {
    linked = w.linked;
    attached = w.attached;
    queued = queued' s.ready_responses s.ready_requests (λ q h. w.queued q (ground (arith, h)));
  })
  | inr server ↦ rw server (record {
    linked = w.linked;
    attached = w.attached;
    queued = λ q h.
        queued' s.ready_requests s.ready_responses (λ q h. w.queued q (ground (arith, h))) q
          (ground (arith, h));
  })
]
  where
    queued' :
        (mine others : List ℕ)
        → ((q : ℕ) → (has q others || has q mine) ≡ true → (s.rpcs q).handing_off ≡ false)
        → (q : ℕ) → (has q others || has q (mine ++ r ∷ [])) ≡ true
        → (s.rpcs q).handing_off ≡ false
    queued' mine others idle q h = elim (Bool-cases (r == q)) [
      | inl same ↦ let e : r ≡ q = ground arith in ap (λ x. (s.rpcs x).handing_off) (sym e) ∙ free
      | inr other ↦ idle q (ground (arith, h, has-append q r mine))
    ]

-- `homa_rpc_handoff` keeps this.
pub homa_rpc_handoff-Wired :
    (c : Cores) (r : ℕ) (s : Hsk) → Wired s → Wired (homa_rpc_handoff c r s)
unfolding homa_rpc_handoff
homa_rpc_handoff-Wired c r s w = elim (Bool-cases ((s.rpcs r).handing_off || is_ready r s)) [
  | inl done ↦ rw done w
  | inr go ↦ elim (Option-cases (interest_for c r s)) [
    | inl nobody ↦ rw (go, nobody) (queue_ready-Wired r s w (ground (arith, go)))
    | inr (i, found) ↦ rw (go, found) (thread_waiting-Wired i r s w (ground (arith, go)))
  ]
]
