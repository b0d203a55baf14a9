-- ===== src/Handoff.antt =====
-- homa_incoming.c: `homa_choose_interest`, `homa_rpc_handoff`, `homa_register_interests` and the code of
-- `homa_wait_for_message` at the label `found_rpc` that drops the interests: how a message that has
-- packets reaches a thread. A thread's interest is linked in a list of the socket if and only if it
-- stands there, and so are the RPCs in the lists of ready ones.
pub mod Choice
pub mod Delivery
pub mod Given
pub mod Held
pub mod Absent
pub mod Register
pub mod Claim
pub mod Race
mod Tests
use connected_homa.Prelude.{
  ℕ, ◌+◌, ◌-◌, ◌%◌, ◌^◌, Bool, true, false, not, ◌||◌, Option, none, some, List, [], ◌∷◌, ◌++◌, ltb,
  ◌==◌, if◌then◌else◌, update, is_some,
}
use connected_homa.Rpc.{is_client}
use connected_homa.Table.{
  Entry, Interest, Hsk, Errno, eshutdown, einval, remove, has, homa_find_client_rpc,
}

-- The clock (in 64 bits), `homa->busy_ns`, and `last_active` of each core.
pub record Cores : Type 0 where
  pub now : ℕ
  pub busy_ns : ℕ
  pub last_active : ℕ → ℕ

-- The core has not done Homa's work for `busy_ns`.
abbrev pub is_idle : Cores → (ℕ → Interest) → ℕ → Bool
is_idle c interests i =
    ltb (c.last_active (interests i).core) ((c.now + 2 ^ 64 - c.busy_ns) % 2 ^ 64)

-- The loop of `homa_choose_interest`, with `backup`.
abbrev pub choose_from : Cores → (ℕ → Interest) → Option ℕ → List ℕ → Option ℕ
choose_from c interests backup [] = backup
choose_from c interests backup (i ∷ is) =
    let rest = choose_from c interests (elim backup [ none ↦ some i | some b ↦ some b ]) is in
    if is_idle c interests i then some i else rest

-- `homa_choose_interest`
abbrev pub homa_choose_interest : Cores → (ℕ → Interest) → List ℕ → Option ℕ
homa_choose_interest c interests is = choose_from c interests none is

-- `reg_rpc->interest = NULL`
abbrev pub forget : Option ℕ → (ℕ → Entry) → ℕ → Entry
forget none rpcs = rpcs
forget (some q) rpcs = update rpcs q (record (rpcs q) { interest = none })

-- `homa_rpc_handoff` from the label `thread_waiting` on, for the interest `i`.
unfoldable pub thread_waiting : ℕ → ℕ → Hsk → Hsk
thread_waiting i r s =
    let interest = s.interests i in
    let marked = update s.rpcs r (record (s.rpcs r) { handing_off = true }) in
    record s {
      rpcs = forget interest.reg_rpc marked;
      interests =
          update s.interests i
            (record interest { locked = false; ready_rpc = some r; reg_rpc = none });
      request_interests = remove i s.request_interests;
      response_interests = remove i s.response_interests;
      woken = i ∷ s.woken;
    }

-- The RPC waits for a thread.
unfoldable pub queue_ready : ℕ → Hsk → Hsk
queue_ready r s =
    let s' = record s { data_ready = s.data_ready + 1 } in
    if is_client (s.rpcs r).rpc.id
    then record s' { ready_responses = s.ready_responses ++ r ∷ [] }
    else record s' { ready_requests = s.ready_requests ++ r ∷ [] }

abbrev pub is_ready : ℕ → Hsk → Bool
is_ready r s = has r s.ready_requests || has r s.ready_responses

-- The interest that the code chooses for the RPC.
abbrev pub interest_for : Cores → ℕ → Hsk → Option ℕ
interest_for c r s =
    let general =
      homa_choose_interest c s.interests
        (if is_client (s.rpcs r).rpc.id then s.response_interests else s.request_interests) in
    elim (s.rpcs r).interest [ some i ↦ some i | none ↦ general ]

-- `homa_rpc_handoff`
unfoldable pub homa_rpc_handoff : Cores → ℕ → Hsk → Hsk
unfolding thread_waiting queue_ready
homa_rpc_handoff c r s =
    let go : Hsk = elim (interest_for c r s) [
      | none ↦ queue_ready r s
      | some i ↦ thread_waiting i r s
    ] in
    if (s.rpcs r).handing_off || is_ready r s then s else go

-- What `homa_register_interests` does while it holds the socket's lock: the thread waits, or has claimed
-- an RPC, or there is an error.
pub data Registered : Type 0 where
  waits : Hsk → Registered
  claims : ℕ → Hsk → Registered
  refused : Errno → Hsk → Registered

abbrev pub is_nonempty : List ℕ → Bool
is_nonempty [] = false
is_nonempty (_ ∷ _) = true

-- From the label `claim_rpc` to the release of the socket's lock.
pub take_ready : ℕ → Hsk → Hsk
take_ready r s =
    let requests = remove r s.ready_requests in
    let responses = remove r s.ready_responses in
    record s {
      rpcs = update s.rpcs r (record (s.rpcs r) { handing_off = true });
      ready_requests = requests;
      ready_responses = responses;
      data_ready =
          if is_nonempty requests || is_nonempty responses then s.data_ready + 1 else s.data_ready;
    }

pub claim_rpc : ℕ → Hsk → Registered
claim_rpc r s = claims r (take_ready r s)

-- The test of HOMA_RECVMSG_REQUEST, and what follows.
pub register_request : Bool → ℕ → Hsk → Registered
unfolding claim_rpc
register_request false i s = waits s
register_request true i s = elim s.ready_requests [
  | r ∷ _ ↦ claim_rpc r (record s { response_interests = remove i s.response_interests })
  | [] ↦ waits (record s { request_interests = i ∷ s.request_interests })
]

-- The test of HOMA_RECVMSG_RESPONSE, and what follows.
pub register_response : Bool → Bool → ℕ → Hsk → Registered
unfolding register_request
register_response false request i s = register_request request i s
register_response true request i s = elim s.ready_responses [
  | r ∷ _ ↦ claim_rpc r s
  | [] ↦ register_request request i (record s { response_interests = i ∷ s.response_interests })
]

-- Change an interest in memory.
abbrev pub with_interest : ℕ → Interest → Hsk → Hsk
with_interest i interest s = record s { interests = update s.interests i interest }

-- `rpc->interest = interest` and `interest->reg_rpc = rpc`.
pub attach : ℕ → ℕ → Hsk → Hsk
attach i r s = record s {
  rpcs = update s.rpcs r (record (s.rpcs r) { interest = some i });
  interests = update s.interests i (record (s.interests i) { reg_rpc = some r });
}

abbrev pub unlock : ℕ → Hsk → Hsk
unlock i s = with_interest i (record (s.interests i) { locked = false }) s

-- The RPC has another thread's interest.
abbrev pub is_taken : ℕ → Entry → Bool
is_taken i e = elim e.interest [ none ↦ false | some j ↦ not (j == i) ]

-- The branches of `homa_register_interests` for the id of a client RPC.
pub register_id : ℕ → Bool → Bool → ℕ → Hsk → Registered
unfolding register_response attach claim_rpc
register_id n response request i s = elim (homa_find_client_rpc s n) [
  | none ↦ refused einval s
  | some r ↦
      let ready = (s.rpcs r).pkts_ready || is_some (s.rpcs r).rpc.error in
      if is_taken i (s.rpcs r)
      then refused einval s
      else if s.shutdown
      then refused eshutdown s
      else if ready
      then claim_rpc r s
      else register_response response request i (unlock i (attach i r s))
]

-- `homa_register_interests` up to the release of the socket's lock, by a thread on `core` with the
-- interest `i`, which is in no list. `id` is `none` for 0.
pub register : ℕ → ℕ → Bool → Bool → Option ℕ → Hsk → Registered
unfolding register_response register_id
register core i response request id s0 =
    let init : Interest = record { core = core; ready_rpc = none; reg_rpc = none; locked = true } in
    let s = with_interest i init s0 in
    elim id [
      | none ↦
          if s.shutdown
          then refused eshutdown s
          else register_response response request i (unlock i s)
      | some n ↦ if not (is_client n) then refused einval s else register_id n response request i s
    ]

-- The rest of `homa_register_interests`, once the RPC is locked.
pub finish_claim : ℕ → ℕ → Hsk → Hsk
finish_claim i r s =
    let free = record s { rpcs = update s.rpcs r (record (s.rpcs r) { handing_off = false }) } in
    with_interest i (record (s.interests i) { locked = true; ready_rpc = some r }) free

-- `homa_wait_for_message` from the label `found_rpc` on, up to the second test of `ready_rpc`.
pub drop_interests : ℕ → Hsk → Hsk
drop_interests i s = record s {
  rpcs = forget (s.interests i).reg_rpc s.rpcs;
  request_interests = remove i s.request_interests;
  response_interests = remove i s.response_interests;
}
