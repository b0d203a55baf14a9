-- ===== src/Reap/Done.antt =====
-- What the result of `homa_rpc_reap` says.
use connected_homa.Prelude.{
  ℕ, zero, suc, ◌+◌, ◌-◌, ◌≤◌, ◌<◌, ◌≡◌, refl, ap, sym, subst, ◌∙◌, ◌⊎◌, inl, inr, Bool, true,
  false, not, ◌&&◌, List, [], ◌∷◌, All, ltb, leb, ◌==◌, arith, Bool-cases, length,
}
use connected_homa.Buffers.{Buffers}
use connected_homa.Buffers.Queue.{Moment}
use connected_homa.Reap.{
  DeadRpc, collect, Socket, Reaped, reap_batches, one_round, batch_of, homa_rpc_reap,
}
use connected_homa.Reap.Account.{
  Exact, more_rounds, last_round, batch_of-positive, reap_batches-Exact, reap_batches-freed,
}

abbrev pub Busy : List DeadRpc → Type 0
Busy rpcs = All (λ (r : DeadRpc). r.busy ≡ true) rpcs

collect-Busy :
    (batch_size num_skbs num_rpcs : ℕ) (rpcs : List DeadRpc)
    → num_skbs < batch_size
    → let c = collect batch_size num_skbs num_rpcs rpcs in
      c.skbs + length c.reaped ≡ 0 → Busy c.left
unfolding collect
collect-Busy batch num_skbs num_rpcs [] h e = tt
collect-Busy batch num_skbs num_rpcs (rpc ∷ rest) h e = elim (Bool-cases rpc.busy) [
  | inl busy ↦
      let c = collect batch num_skbs num_rpcs rest in
      let none_freed : c.skbs + length c.reaped ≡ 0 = rw (busy, collect) at e in
      rw (busy, collect) (refl, collect-Busy batch num_skbs num_rpcs rest h none_freed)
  | inr idle ↦ elim (Bool-cases (ltb 0 rpc.tx && leb batch (num_skbs + rpc.tx))) [
    | inl full ↦ absurd (omega (arith, rw (idle, full, collect) at e))
    | inr fits ↦ elim (Bool-cases (leb batch (num_rpcs + 1))) [
      | inl last ↦ absurd (omega (arith, rw (idle, fits, last, collect) at e))
      | inr more ↦ absurd (omega (arith, rw (idle, fits, more, collect) at e))
    ]
  ]
]

one_round-Busy :
    (batch rx_frees : ℕ) (s : Socket)
    → 0 < batch
    → (one_round batch rx_frees s).more ≡ false
    → Busy (one_round batch rx_frees s).socket.dead_rpcs
unfolding one_round
one_round-Busy batch rx_frees s h e =
    let c = collect batch 0 0 s.dead_rpcs in
    elim (Bool-cases (c.skbs + length c.reaped == 0)) [
      | inl nothing ↦ collect-Busy batch 0 0 s.dead_rpcs h (ground (arith, nothing))
      | inr something ↦ empty-Busy c.left (rw something at e)
    ]
  where
    empty-Busy :
        (l : List DeadRpc)
        → (not (elim l [ [] ↦ true | _ ∷ _ ↦ false ]) && not false) ≡ false
        → Busy l
    empty-Busy [] f = tt
    empty-Busy (r ∷ rs) f = absurd (cc)

reap_batches-Busy :
    (fuel count rx_frees : ℕ) (more : Bool) (s : Socket)
    → count ≤ fuel
    → (more ≡ true) ⊎ (0 < count)
    → (reap_batches fuel count rx_frees more s).more ≡ false
    → Busy (reap_batches fuel count rx_frees more s).socket.dead_rpcs
unfolding reap_batches
reap_batches-Busy fuel zero rx_frees more s f (inl m) e = absurd (cc)
reap_batches-Busy fuel zero rx_frees more s f (inr h) e = absurd (omega arith)
reap_batches-Busy zero (suc count) rx_frees more s f h e = absurd (omega arith)
reap_batches-Busy (suc fuel) (suc count) rx_frees more s f h e =
    let batch = batch_of (suc count) in
    let (pos_batch, small) = batch_of-positive count in
    let r = one_round batch rx_frees s in
    elim (Bool-cases r.more) [
      | inl go_on ↦
          let run = more_rounds fuel count rx_frees more s go_on in
          let still = ap (λ (x : Reaped). x.more) (sym run) ∙ e in
          subst (λ (x : Reaped). Busy x.socket.dead_rpcs) (sym run)
            (reap_batches-Busy fuel (suc count - batch) r.rx_frees r.more r.socket (omega arith)
              (inl go_on) still)
      | inr over ↦
          subst (λ (x : Reaped). Busy x.socket.dead_rpcs)
            (sym (last_round fuel count rx_frees more s over))
            (one_round-Busy batch rx_frees s pos_batch over)
    ]

-- If `homa_rpc_reap` is asked for at least one packet and its result is 0, each dead RPC that is left is
-- one that can't be reaped now.
pub homa_rpc_reap-Busy :
    (clock : ℕ → Moment) (fuel count : ℕ) (b : Buffers) (s : Socket)
    → 0 < count
    → (homa_rpc_reap clock fuel count b s).0.more ≡ false
    → Busy (homa_rpc_reap clock fuel count b s).0.socket.dead_rpcs
unfolding homa_rpc_reap
homa_rpc_reap-Busy clock fuel count b s h e =
    reap_batches-Busy count count 0 false (record s { pool = b.pool }) (omega arith) (inr h) e

-- `homa_rpc_reap` frees at most `count` packets of outgoing messages; and if all incoming packets of the
-- dead RPCs had been freed before and `dead_skbs` was the number of packets of the dead RPCs, it is so
-- after.
pub homa_rpc_reap-Exact :
    (clock : ℕ → Moment) (fuel count : ℕ) (b : Buffers) (s : Socket)
    → Exact s
    → Exact (homa_rpc_reap clock fuel count b s).0.socket
      × ((homa_rpc_reap clock fuel count b s).0.freed ≤ count)
unfolding homa_rpc_reap
homa_rpc_reap-Exact clock fuel count b s x =
    let s' = record s { pool = b.pool } in
    (
      reap_batches-Exact count count false s' (record { counter = x.counter; drained = x.drained }),
      reap_batches-freed count count 0 false s',
    )
