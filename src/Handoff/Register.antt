-- ===== src/Handoff/Register.antt =====
-- A thread that asks for a message keeps the interests in order.
use connected_homa.Prelude.{
  ℕ, ◌≡◌, ◌⊎◌, refl, ap, sym, ◌∙◌, inl, inr, Bool, true, false, not, ◌||◌, Option, none, some, ◌==◌,
  if◌then◌else◌, arith, Bool-cases, update, is_some,
}
use connected_homa.Rpc.{is_client}
use connected_homa.Table.{Interest, Hsk, eshutdown, einval, homa_find_client_rpc}
use connected_homa.Table.Refs.{has-remove}
use connected_homa.Handoff.{
  Registered, waits, refused, claim_rpc, register_request, register_response, with_interest, attach,
  unlock, is_taken, register_id, register, finish_claim, drop_interests,
}
use connected_homa.Handoff.Delivery.{Wired, forget-interest, forget-handing_off}
use connected_homa.Handoff.Absent.{
  Absent, with_interest-Wired, with_interest-Absent, Fine, flagged-interest, claim_rpc-Fine,
  register_response-Fine,
}

attach-Wired :
    (i r : ℕ) (s : Hsk)
    → Wired s
    → Absent i s
    → (s.interests i).ready_rpc ≡ none
    → Wired (unlock i (attach i r s))
unfolding attach
attach-Wired i r s w a vacant = record {
  linked = λ j h. elim (Bool-cases (j == i)) [
    | inl same ↦ ground arith
    | inr other ↦ rw other (w.linked j h)
  ];
  attached = λ q j h. elim (Bool-cases (q == r)) [
    | inl same ↦
        let e : q ≡ r = ground arith in let mine : some i ≡ some j = rw same at h in ground arith
    | inr differ ↦
        let before : (s.rpcs q).interest ≡ some j = rw differ at h in
        elim (Bool-cases (j == i)) [
          | inl same ↦ let e : j ≡ i = ground arith in absurd (a.unattached q (before ∙ ap some e))
          | inr other ↦ rw other (w.attached q j before)
        ]
  ];
  queued = λ q h. elim (Bool-cases (q == r)) [
    | inl same ↦
        let e : q ≡ r = ground arith in
        rw same (ap (λ x. (s.rpcs x).handing_off) (sym e) ∙ w.queued q h)
    | inr differ ↦ rw differ (w.queued q h)
  ];
}

register_id-Fine :
    (n i : ℕ) (s : Hsk)
    → Wired s
    → Absent i s
    → (s.interests i).ready_rpc ≡ none
    → Fine i (register_id n false false i s)
unfolding register_id register_response register_request Fine
register_id-Fine n i s w a vacant = by_found (homa_find_client_rpc s n)
  where
    either :
        (down ready : Bool) (x y z : Registered)
        → Fine i x
        → Fine i y
        → Fine i z
        → Fine i (if down then x else if ready then y else z)
    either true ready x y z p q r = p
    either false true x y z p q r = q
    either false false x y z p q r = r

    by_entry :
        (taken : Bool) (r : ℕ)
        → Fine i (
            if taken
            then refused einval s
            else if s.shutdown
            then refused eshutdown s
            else if (s.rpcs r).pkts_ready || is_some (s.rpcs r).rpc.error
            then claim_rpc r s
            else waits (unlock i (attach i r s)))
    by_entry true r = w
    by_entry false r =
        either s.shutdown ((s.rpcs r).pkts_ready || is_some (s.rpcs r).rpc.error)
          (refused eshutdown s) (claim_rpc r s) (waits (unlock i (attach i r s))) w
          (claim_rpc-Fine i r s w a) (attach-Wired i r s w a vacant)

    by_found :
        (found : Option ℕ)
        → Fine i (elim found [
          | none ↦ refused einval s
          | some r ↦
              if is_taken i (s.rpcs r)
              then refused einval s
              else if s.shutdown
              then refused eshutdown s
              else if (s.rpcs r).pkts_ready || is_some (s.rpcs r).rpc.error
              then claim_rpc r s
              else waits (unlock i (attach i r s))
        ])
    by_found none = w
    by_found (some r) = by_entry (is_taken i (s.rpcs r)) r

-- `homa_register_interests` keeps it that no interest that can be chosen has an RPC, and a thread that
-- claims an RPC can't be chosen any more. The thread's interest is new, and the thread asks for a given
-- RPC, or for any of a kind, but not for both.
pub register-Fine :
    (core i : ℕ) (response request : Bool) (id : Option ℕ) (s : Hsk)
    → Wired s
    → Absent i s
    → (id ≡ none) ⊎ ((response || request) ≡ false)
    → Fine i (register core i response request id s)
unfolding register Fine
register-Fine core i response request none s w a one = start s.shutdown
  where
    init : Interest
    init = record { core = core; ready_rpc = none; reg_rpc = none; locked = true }

    s' : Hsk
    s' = unlock i (with_interest i init s)

    w' : Wired s'
    w' =
        with_interest-Wired i (record ((with_interest i init s).interests i) { locked = false })
          (with_interest i init s) (with_interest-Wired i init s w a)
          (with_interest-Absent i init s a)

    start :
        (down : Bool)
        → Fine i (
            if down
            then refused eshutdown (with_interest i init s)
            else register_response response request i s')
    start true = with_interest-Wired i init s w a
    start false =
        register_response-Fine response request i s' w' (ground arith)
          (record { unlinked = a.unlinked; unattached = a.unattached })
register-Fine core i response request (some n) s w a (inl e) = absurd (cc)
register-Fine core i true request (some n) s w a (inr e) = absurd (cc)
register-Fine core i false true (some n) s w a (inr e) = absurd (cc)
register-Fine core i false false (some n) s w a (inr e) = start (is_client n)
  where
    s' : Hsk
    s' = with_interest i (record { core = core; ready_rpc = none; reg_rpc = none; locked = true }) s

    w' : Wired s'
    w' = with_interest-Wired i _ s w a

    start :
        (client : Bool)
        → Fine i (if not client then refused einval s' else register_id n false false i s')
    start false = w'
    start true =
        register_id-Fine n i s' w' (record { unlinked = a.unlinked; unattached = a.unattached })
          (ground arith)

-- The thread stores the RPC that it claimed.
pub finish_claim-Wired : (i r : ℕ) (s : Hsk) → Wired s → Absent i s → Wired (finish_claim i r s)
unfolding finish_claim
finish_claim-Wired i r s w a =
    with_interest-Wired i _ free
      (record {
        linked = w.linked;
        attached = λ q j h. w.attached q j (sym (flagged-interest false s.rpcs r q) ∙ h);
        queued = λ q h. elim (Bool-cases (q == r)) [
          | inl same ↦ rw same refl
          | inr other ↦ rw other (w.queued q h)
        ];
      })
      (record {
        unlinked = a.unlinked;
        unattached = λ q h. a.unattached q (sym (flagged-interest false s.rpcs r q) ∙ h);
      })
  where
    free : Hsk
    free = record s { rpcs = update s.rpcs r (record (s.rpcs r) { handing_off = false }) }

-- A thread that drops its interests keeps those of the others, and can't be chosen any more.
pub drop_interests-Wired :
    (i : ℕ) (s : Hsk) → Wired s → Wired (drop_interests i s) × Absent i (drop_interests i s)
unfolding drop_interests
drop_interests-Wired i s w = (
  record {
    linked = λ j h. w.linked j (
        ground (arith, h, has-remove i j s.request_interests, has-remove i j s.response_interests));
    attached = λ q j h. w.attached q j (forget-interest (s.interests i).reg_rpc s.rpcs q j h).0;
    queued = λ q h. forget-handing_off (s.interests i).reg_rpc s.rpcs q ∙ w.queued q h;
  },
  record {
    unlinked =
        ground (arith, has-remove i i s.request_interests, has-remove i i s.response_interests);
    unattached = λ q h.
        let (still, unnamed) = forget-interest (s.interests i).reg_rpc s.rpcs q i h in
        unnamed (w.attached q i still).1;
  },
)
