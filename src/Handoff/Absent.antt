-- ===== src/Handoff/Absent.antt =====
-- The parts of `homa_register_interests` keep the interests in order.
use connected_homa.Prelude.{
  ℕ, ◌≡◌, ◌≢◌, ap, sym, ◌∙◌, inl, inr, Bool, true, false, none, some, List, [], ◌∷◌, ◌==◌, arith,
  Bool-cases, update,
}
use connected_homa.Table.{Entry, Interest, Hsk, remove, has}
use connected_homa.Table.Refs.{has-remove}
use connected_homa.Handoff.{
  Registered, waits, claims, refused, take_ready, claim_rpc, register_request, register_response,
  with_interest,
}
use connected_homa.Handoff.Delivery.{is_linked, Wired}

-- The interest can't be chosen.
pub record Absent (i : ℕ) (s : Hsk) : Type 0 where
  pub unlinked : is_linked i s ≡ false
  pub unattached : (q : ℕ) → (s.rpcs q).interest ≢ some i

pub with_interest-Wired :
    (i : ℕ) (x : Interest) (s : Hsk) → Wired s → Absent i s → Wired (with_interest i x s)
with_interest-Wired i x s w a = record {
  linked = λ j h. elim (Bool-cases (j == i)) [
    | inl same ↦
        let e : j ≡ i = ground arith in
        absurd (ground (arith, ap (λ k. is_linked k s) e, h, a.unlinked))
    | inr other ↦ rw other (w.linked j h)
  ];
  attached = λ q j h. elim (Bool-cases (j == i)) [
    | inl same ↦ let e : j ≡ i = ground arith in absurd (a.unattached q (h ∙ ap some e))
    | inr other ↦ rw other (w.attached q j h)
  ];
  queued = w.queued;
}

pub with_interest-Absent :
    (i : ℕ) (x : Interest) (s : Hsk) → Absent i s → Absent i (with_interest i x s)
with_interest-Absent i x s a = record { unlinked = a.unlinked; unattached = a.unattached }

-- The state after the socket's lock is released.
unfoldable pub Fine : ℕ → Registered → Type 0
Fine i (waits s) = Wired s
Fine i (claims r s) = Wired s × Absent i s
Fine i (refused e s) = Wired s

-- To set `handing_off` changes no interest.
pub flagged-interest :
    (b : Bool) (rpcs : ℕ → Entry) (r q : ℕ)
    → (update rpcs r (record (rpcs r) { handing_off = b }) q).interest ≡ (rpcs q).interest
flagged-interest b rpcs r q = ground (arith, ap (λ (x : ℕ). (rpcs x).interest))

pub claim_rpc-Fine : (i r : ℕ) (s : Hsk) → Wired s → Absent i s → Fine i (claim_rpc r s)
unfolding claim_rpc take_ready Fine
claim_rpc-Fine i r s w a = (
  record {
    linked = w.linked;
    attached = λ q j h. w.attached q j (sym (flagged-interest true s.rpcs r q) ∙ h);
    queued = λ q h.
        ground
          (arith, h, has-remove r q s.ready_requests, has-remove r q s.ready_responses, w.queued q);
  },
  record {
    unlinked = a.unlinked;
    unattached = λ q h. a.unattached q (sym (flagged-interest true s.rpcs r q) ∙ h);
  },
)

register_request-Fine :
    (request : Bool) (i : ℕ) (s : Hsk)
    → Wired s
    → (s.interests i).ready_rpc ≡ none
    → has i s.request_interests ≡ false
    → ((q : ℕ) → (s.rpcs q).interest ≢ some i)
    → Fine i (register_request request i s)
unfolding register_request Fine
register_request-Fine false i s w vacant out unattached = w
register_request-Fine true i s w vacant out unattached = by_queue s.ready_requests
  where
    unlinked_s : Hsk
    unlinked_s = record s { response_interests = remove i s.response_interests }

    by_queue :
        (rs : List ℕ)
        → Fine i (elim rs [
          | r ∷ _ ↦ claim_rpc r unlinked_s
          | [] ↦ waits (record s { request_interests = i ∷ s.request_interests })
        ])
    by_queue [] = record {
      linked = λ j h. elim (Bool-cases (i == j)) [
        | inl same ↦
            let e : i ≡ j = ground arith in ap (λ k. (s.interests k).ready_rpc) (sym e) ∙ vacant
        | inr other ↦ w.linked j (ground (arith, h))
      ];
      attached = w.attached;
      queued = w.queued;
    }
    by_queue (r ∷ _) =
        claim_rpc-Fine i r unlinked_s
          (record {
            linked = λ j h. w.linked j (ground (arith, h, has-remove i j s.response_interests));
            attached = w.attached;
            queued = w.queued;
          })
          (record {
            unlinked = ground (arith, out, has-remove i i s.response_interests);
            unattached = unattached;
          })

pub register_response-Fine :
    (response request : Bool) (i : ℕ) (s : Hsk)
    → Wired s
    → (s.interests i).ready_rpc ≡ none
    → Absent i s
    → Fine i (register_response response request i s)
unfolding register_response Fine
register_response-Fine false request i s w vacant a =
    register_request-Fine request i s w vacant (ground (arith, a.unlinked)) a.unattached
register_response-Fine true request i s w vacant a = by_queue s.ready_responses
  where
    linked_s : Hsk
    linked_s = record s { response_interests = i ∷ s.response_interests }

    by_queue :
        (rs : List ℕ)
        → Fine i (elim rs [ r ∷ _ ↦ claim_rpc r s | [] ↦ register_request request i linked_s ])
    by_queue [] =
        register_request-Fine request i linked_s
          (record {
            linked = λ j h. elim (Bool-cases (i == j)) [
              | inl same ↦
                  let e : i ≡ j = ground arith in
                  ap (λ k. (s.interests k).ready_rpc) (sym e) ∙ vacant
              | inr other ↦ w.linked j (ground (arith, h))
            ];
            attached = w.attached;
            queued = w.queued;
          })
          vacant (ground (arith, a.unlinked)) a.unattached
    by_queue (r ∷ _) = claim_rpc-Fine i r s w a
