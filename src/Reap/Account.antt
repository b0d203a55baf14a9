-- ===== src/Reap/Account.antt =====
-- `homa_rpc_reap` frees no more than it is asked for, and keeps count of what is left.
use connected_homa.Prelude.{
  ℕ, zero, suc, ◌+◌, ◌-◌, ◌≤◌, ◌<◌, ◌≡◌, refl, ap, sym, subst, inl, inr, Bool, true, false, ◌&&◌,
  List, [], ◌∷◌, All, ltb, leb, arith, Bool-cases, if_true, if_false,
}
use connected_homa.Prelude.Int.{ℤ, pos, ◌-ℤ◌}
use connected_homa.Reap.{
  DeadRpc, Collected, collect, Socket, Reaped, reap_batches, one_round, batch_of, add_round,
}

-- The packets of the dead RPCs.
abbrev pub load : List DeadRpc → ℕ
load [] = 0
load (rpc ∷ rpcs) = rpc.tx + rpc.rx + load rpcs

abbrev pub Drained : List DeadRpc → Type 0
Drained rpcs = All (λ (r : DeadRpc). r.rx ≡ 0) rpcs

-- What a walk does to the packets.
pub record Counted (room : ℕ) (rpcs : List DeadRpc) (c : Collected) : Type 0 where
  pub account : load c.left + c.skbs + c.rx_frees ≡ load rpcs
  pub limit : c.skbs ≤ room

pub collect-Counted :
    (batch_size num_skbs num_rpcs : ℕ) (rpcs : List DeadRpc)
    → num_skbs < batch_size
    → Counted (batch_size - num_skbs) rpcs (collect batch_size num_skbs num_rpcs rpcs)
unfolding collect
collect-Counted batch num_skbs num_rpcs [] h = record { account = refl; limit = omega arith }
collect-Counted batch num_skbs num_rpcs (rpc ∷ rest) h = elim (Bool-cases rpc.busy) [
  | inl busy ↦
      let c = collect-Counted batch num_skbs num_rpcs rest h in
      rw (busy, collect) (record { account = omega (arith, c.account); limit = c.limit })
  | inr idle ↦ elim (Bool-cases (ltb 0 rpc.tx && leb batch (num_skbs + rpc.tx))) [
    | inl full ↦
        rw (idle, full, collect) (record { account = ground (arith, full); limit = omega arith })
    | inr fits ↦ elim (Bool-cases (leb batch (num_rpcs + 1))) [
      | inl last ↦
          rw (idle, fits, last, collect)
            (record { account = omega arith; limit = ground (arith, fits) })
      | inr more ↦
          let below : num_skbs + rpc.tx < batch = ground (arith, fits) in
          let c = collect-Counted batch (num_skbs + rpc.tx) (num_rpcs + 1) rest below in
          rw (idle, fits, more, collect)
            (record { account = omega (arith, c.account); limit = omega (arith, c.limit) })
    ]
  ]
]

collect-Drained :
    (batch_size num_skbs num_rpcs : ℕ) (rpcs : List DeadRpc)
    → Drained rpcs
    → let c = collect batch_size num_skbs num_rpcs rpcs in (c.rx_frees ≡ 0) × Drained c.left
unfolding collect
collect-Drained batch num_skbs num_rpcs [] d = (refl, tt)
collect-Drained batch num_skbs num_rpcs (rpc ∷ rest) (e, d) = elim (Bool-cases rpc.busy) [
  | inl busy ↦
      let (f, c) = collect-Drained batch num_skbs num_rpcs rest d in rw (busy, collect) (f, (e, c))
  | inr idle ↦ elim (Bool-cases (ltb 0 rpc.tx && leb batch (num_skbs + rpc.tx))) [
    | inl full ↦ rw (idle, full, collect) (refl, (e, d))
    | inr fits ↦ elim (Bool-cases (leb batch (num_rpcs + 1))) [
      | inl last ↦ rw (idle, fits, last, collect) (omega arith, d)
      | inr more ↦
          let (f, c) = collect-Drained batch (num_skbs + rpc.tx) (num_rpcs + 1) rest d in
          rw (idle, fits, more, collect) (omega arith, c)
    ]
  ]
]

pos-minus : (z : ℤ) (a b c : ℕ) → z ≡ pos a → c + b ≡ a → z -ℤ pos b ≡ pos c
unfolding ◌-ℤ◌
pos-minus z a b c e h = rw e (ground arith)

pub batch_of-positive : (n : ℕ) → (0 < batch_of (suc n)) × (batch_of (suc n) ≤ suc n)
unfolding batch_of
batch_of-positive n = ground arith

one_round-limit :
    (batch rx_frees : ℕ) (s : Socket) → 0 < batch → (one_round batch rx_frees s).skbs ≤ batch
unfolding one_round
one_round-limit batch rx_frees s h = omega (arith, (collect-Counted batch 0 0 s.dead_rpcs h).limit)

-- One round, and what follows it.
pub more_rounds :
    (fuel count rx_frees : ℕ) (more : Bool) (s : Socket)
    → let batch = batch_of (suc count) in
      let r = one_round batch rx_frees s in
      r.more ≡ true
      → reap_batches (suc fuel) (suc count) rx_frees more s
        ≡ add_round r (reap_batches fuel (suc count - batch) r.rx_frees r.more r.socket)
unfolding reap_batches
more_rounds fuel count rx_frees more s e =
    let r = one_round (batch_of (suc count)) rx_frees s in
    ap (λ (x : Reaped). add_round r x) (if_true r.more _ _ e)

pub last_round :
    (fuel count rx_frees : ℕ) (more : Bool) (s : Socket)
    → let r = one_round (batch_of (suc count)) rx_frees s in
      r.more ≡ false
      → reap_batches (suc fuel) (suc count) rx_frees more s
        ≡ add_round r (record { socket = r.socket; more = r.more; freed = 0; reaped = [] })
unfolding reap_batches
last_round fuel count rx_frees more s e =
    let r = one_round (batch_of (suc count)) rx_frees s in
    ap (λ (x : Reaped). add_round r x) (if_false r.more _ _ e)

-- `homa_rpc_reap` frees at most `count` packets of `msgout`.
pub reap_batches-freed :
    (fuel count rx_frees : ℕ) (more : Bool) (s : Socket)
    → (reap_batches fuel count rx_frees more s).freed ≤ count
unfolding reap_batches
reap_batches-freed fuel zero rx_frees more s = omega arith
reap_batches-freed zero (suc count) rx_frees more s = omega arith
reap_batches-freed (suc fuel) (suc count) rx_frees more s =
    let batch = batch_of (suc count) in
    let (pos_batch, small) = batch_of-positive count in
    let r = one_round batch rx_frees s in
    let limit = one_round-limit batch rx_frees s pos_batch in
    elim (Bool-cases r.more) [
      | inl go_on ↦
          let rest = reap_batches-freed fuel (suc count - batch) r.rx_frees r.more r.socket in
          let run = ap (λ (x : Reaped). x.freed) (more_rounds fuel count rx_frees more s go_on) in
          omega (arith, small, limit, rest, run)
      | inr over ↦
          let run = ap (λ (x : Reaped). x.freed) (last_round fuel count rx_frees more s over) in
          omega (arith, small, limit, run)
    ]

-- The counter of the socket is right, and all incoming packets are freed.
pub record Exact (s : Socket) : Type 0 where
  pub counter : s.dead_skbs ≡ pos (load s.dead_rpcs)
  pub drained : Drained s.dead_rpcs

one_round-Exact :
    (batch : ℕ) (s : Socket)
    → 0 < batch
    → Exact s
    → Exact (one_round batch 0 s).socket × ((one_round batch 0 s).rx_frees ≡ 0)
unfolding one_round
one_round-Exact batch s h x =
    let counted = collect-Counted batch 0 0 s.dead_rpcs h in
    let (none_freed, drained) = collect-Drained batch 0 0 s.dead_rpcs x.drained in
    let c = collect batch 0 0 s.dead_rpcs in
    (
      record {
        counter =
            pos-minus s.dead_skbs (load s.dead_rpcs) (c.skbs + (0 + c.rx_frees)) (load c.left)
              x.counter (omega (arith, counted.account));
        drained = drained;
      },
      omega (arith, none_freed),
    )

pub reap_batches-Exact :
    (fuel count : ℕ) (more : Bool) (s : Socket)
    → Exact s
    → Exact (reap_batches fuel count 0 more s).socket
unfolding reap_batches
reap_batches-Exact fuel zero more s x = x
reap_batches-Exact zero (suc count) more s x = x
reap_batches-Exact (suc fuel) (suc count) more s x =
    let batch = batch_of (suc count) in
    let r = one_round batch 0 s in
    let (exact, none_freed) = one_round-Exact batch s (batch_of-positive count).0 x in
    elim (Bool-cases r.more) [
      | inl go_on ↦
          let rest =
            subst (λ k. Exact (reap_batches fuel (suc count - batch) k r.more r.socket).socket)
              (sym none_freed)
              (reap_batches-Exact fuel (suc count - batch) r.more r.socket exact) in
          subst (λ (x : Reaped). Exact x.socket) (sym (more_rounds fuel count 0 more s go_on)) rest
      | inr over ↦
          subst (λ (x : Reaped). Exact x.socket) (sym (last_round fuel count 0 more s over)) exact
    ]
