-- ===== src/Handoff/Race.antt =====
-- What happens to a thread that asks for the response to one RPC and for any response.
use connected_homa.Prelude.{
  ℕ, ◌≡◌, refl, sym, subst, true, false, ◌||◌, none, some, List, ◌∷◌, ◌==◌, arith,
}
use connected_homa.Rpc.{is_client}
use connected_homa.Table.{Hsk, Interest, homa_find_client_rpc}
use connected_homa.Table.Refs.{has-remove}
use connected_homa.Handoff.{
  Cores, is_ready, interest_for, thread_waiting, homa_rpc_handoff, claims, take_ready, claim_rpc,
  register_response, register, register_id, attach, unlock, finish_claim, with_interest,
}
use connected_homa.Handoff.Given.{homa_rpc_handoff-again}

-- A message that no thread has and that none can be given.
pub record Lost (r : ℕ) (s : Hsk) : Type 0 where
  pub marked : (s.rpcs r).handing_off ≡ true
  pub unready : is_ready r s ≡ false
  pub unattached : (s.rpcs r).interest ≡ none
  pub deaf : (c : Cores) → homa_rpc_handoff c r s ≡ s

-- The thread has the interest `i`, which names `x`.
record Armed (i x : ℕ) (s : Hsk) : Type 0 where
  attached : (s.rpcs x).interest ≡ some i
  registered : (s.interests i).reg_rpc ≡ some x
  idle : ((s.rpcs x).handing_off || is_ready x s) ≡ false

homa_rpc_handoff-waiting :
    (c : Cores) (i r : ℕ) (s : Hsk)
    → ((s.rpcs r).handing_off || is_ready r s) ≡ false
    → interest_for c r s ≡ some i
    → homa_rpc_handoff c r s ≡ thread_waiting i r s
unfolding homa_rpc_handoff
homa_rpc_handoff-waiting c i r s idle found = rw (idle, found) refl

waiting-Lost :
    (i x y : ℕ) (s : Hsk)
    → (x == y) ≡ false
    → (s.interests i).reg_rpc ≡ some x
    → is_ready x s ≡ false
    → let s' = finish_claim i y (thread_waiting i x s) in
      ((s'.interests i).ready_rpc ≡ some y) × Lost x s'
unfolding finish_claim thread_waiting
waiting-Lost i x y s differ registered unready = (
  ground arith,
  record {
    marked = marked;
    unready = unready;
    unattached = rw (differ, registered) (ground arith);
    deaf =
        λ c. homa_rpc_handoff-again c x (finish_claim i y (thread_waiting i x s)) (rw marked refl);
  },
)
  where
    marked : ((finish_claim i y (thread_waiting i x s)).rpcs x).handing_off ≡ true
    marked = rw (differ, registered) (ground arith)

-- Where the message of `x` is handed over before the thread has locked `y`.
Armed-Lost :
    (c : Cores) (i x y : ℕ) (s : Hsk)
    → (x == y) ≡ false
    → Armed i x s
    → let s' = finish_claim i y (homa_rpc_handoff c x s) in
      ((s'.interests i).ready_rpc ≡ some y) × Lost x s'
Armed-Lost c i x y s differ a =
    subst
      (λ h. (((finish_claim i y h).interests i).ready_rpc ≡ some y) × Lost x (finish_claim i y h))
      (sym (handed c)) (waiting-Lost i x y s differ a.registered (ground (arith, a.idle)))
  where
    chosen : (c : Cores) → interest_for c x s ≡ some i
    chosen c = rw (a.attached, interest_for) refl

    handed : (c : Cores) → homa_rpc_handoff c x s ≡ thread_waiting i x s
    handed c = homa_rpc_handoff-waiting c i x s a.idle (chosen c)

take_ready-Armed :
    (i x y : ℕ) (s : Hsk)
    → (x == y) ≡ false
    → (s.rpcs x).handing_off ≡ false
    → is_ready x s ≡ false
    → Armed i x (take_ready y (unlock i (attach i x s)))
unfolding take_ready attach
take_ready-Armed i x y s differ free unready = record {
  attached = rw differ (ground arith);
  registered = ground arith;
  idle =
      rw (differ, free)
        (ground
          (arith, unready, has-remove y x s.ready_requests, has-remove y x s.ready_responses));
}

registers_id :
    (i n x y : ℕ) (rest : List ℕ) (s : Hsk)
    → s.shutdown ≡ false
    → homa_find_client_rpc s n ≡ some x
    → (s.rpcs x).interest ≡ none
    → (s.rpcs x).pkts_ready ≡ false
    → (s.rpcs x).rpc.error ≡ none
    → s.ready_responses ≡ y ∷ rest
    → register_id n true false i s ≡ claims y (take_ready y (unlock i (attach i x s)))
unfolding register_id register_response claim_rpc
registers_id i n x y rest s up found own quiet fine first =
    rw (found, register_id, own, up, quiet, fine, first) refl

registers :
    (core i n x y : ℕ) (rest : List ℕ) (s : Hsk)
    → s.shutdown ≡ false
    → is_client n ≡ true
    → homa_find_client_rpc s n ≡ some x
    → (s.rpcs x).interest ≡ none
    → (s.rpcs x).pkts_ready ≡ false
    → (s.rpcs x).rpc.error ≡ none
    → s.ready_responses ≡ y ∷ rest
    → register core i true false (some n) s
      ≡ claims y (
          take_ready y (
            unlock i (
              attach i x (
                with_interest i
                  (record { core = core; ready_rpc = none; reg_rpc = none; locked = true })
                  s))))
unfolding register homa_find_client_rpc
registers core i n x y rest s up client found own quiet fine first =
    let s' =
      with_interest i (record { core = core; ready_rpc = none; reg_rpc = none; locked = true }) s in
    rw client (registers_id i n x y rest s' up found own quiet fine first)

-- A thread asks for the RPC with id `n`, which is `x` and is not ready, and for responses, of which that of
-- `y` is the first. It claims `y`. If the message of `x` is handed over before the thread has locked `y`,
-- the thread receives only `y`: `x` is marked as being handed over, stands in no queue and has no
-- interest, and `homa_rpc_handoff` does nothing for it.
pub register-loses :
    (c : Cores) (core i n x y : ℕ) (rest : List ℕ) (s : Hsk)
    → s.shutdown ≡ false
    → is_client n ≡ true
    → homa_find_client_rpc s n ≡ some x
    → (s.rpcs x).interest ≡ none
    → (s.rpcs x).pkts_ready ≡ false
    → (s.rpcs x).rpc.error ≡ none
    → (s.rpcs x).handing_off ≡ false
    → is_ready x s ≡ false
    → s.ready_responses ≡ y ∷ rest
    → (s' : Hsk) × (register core i true false (some n) s ≡ claims y s')
      × (((finish_claim i y (homa_rpc_handoff c x s')).interests i).ready_rpc ≡ some y)
      × Lost x (finish_claim i y (homa_rpc_handoff c x s'))
register-loses c core i n x y rest s up client found own quiet fine free unready first =
    let init : Interest = record { core = core; ready_rpc = none; reg_rpc = none; locked = true } in
    let s' = unlock i (attach i x (with_interest i init s)) in
    let differ : (x == y) ≡ false = ground (arith, rw first at unready) in
    let (received, lost) =
      Armed-Lost c i x y (take_ready y s') differ
        (take_ready-Armed i x y (with_interest i init s) differ free unready) in
    (
      take_ready y s',
      registers core i n x y rest s up client found own quiet fine first,
      received,
      lost,
    )
