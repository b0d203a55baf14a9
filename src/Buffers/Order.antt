-- ===== src/Buffers/Order.antt =====
-- The queue of RPCs that wait for buffers stays in order when `homa_pool_allocate` adds to it.
use connected_homa.Prelude.{insert_by-SortedBy, ℕ, ◌≡◌, refl, subst, ◌∙◌, inl, inr, List, [], ◌∷◌}
use connected_homa.Pool.{Pool}
use connected_homa.Buffers.{
  take_buffers, Waiter, enqueue, set_bpages_needed, Buffers, homa_pool_allocate,
}
use connected_homa.Buffers.Queue.{Sorted, Needed}
use connected_homa.Buffers.Wakeup.{Allocation-cases}
use connected_homa.Buffers.Frame.{Keeps, take_buffers-Keeps}

enqueue-Sorted :
    (rpc : Waiter) (waiting : List Waiter) → Sorted waiting → Sorted (enqueue rpc waiting)
unfolding enqueue
enqueue-Sorted rpc waiting s = insert_by-SortedBy (λ (w : Waiter). w.length) rpc waiting s

set_bpages_needed-Needed :
    (waiting : List Waiter) (pool : Pool) → Needed waiting (set_bpages_needed waiting pool)
set_bpages_needed-Needed [] pool = tt
set_bpages_needed-Needed (rpc ∷ waiting) pool = refl

Needed-same :
    (waiting : List Waiter) (pool pool' : Pool)
    → pool'.bpages_needed ≡ pool.bpages_needed
    → Needed waiting pool
    → Needed waiting pool'
Needed-same [] pool pool' e n = tt
Needed-same (rpc ∷ waiting) pool pool' e n = e ∙ n

-- Whatever comes of an allocation, `homa_pool_allocate` keeps the queue sorted by the length of the
-- messages, shortest first, and `bpages_needed` at what its first RPC needs.
homa_pool_allocate-Sorted :
    (core now lease_end : ℕ) (rpc : Waiter) (b : Buffers)
    → Sorted b.waiting
    → Needed b.waiting b.pool
    → Sorted (homa_pool_allocate core now lease_end rpc b).0.waiting
      × Needed
          (homa_pool_allocate core now lease_end rpc b).0.waiting
          (homa_pool_allocate core now lease_end rpc b).0.pool
unfolding homa_pool_allocate
homa_pool_allocate-Sorted core now lease_end rpc b s n =
    elim (Allocation-cases (take_buffers core now lease_end rpc.length b.pool)) [
      | inl e ↦ rw (e, homa_pool_allocate) (s, n)
      | inr (inl (p, e)) ↦
          rw (e, homa_pool_allocate)
            (enqueue-Sorted rpc b.waiting s, set_bpages_needed-Needed (enqueue rpc b.waiting) p)
      | inr (inr (inl (p, offsets, e))) ↦
          let kept =
            subst (λ r. Keeps b.pool.bpages_needed b.pool.region r) e
              (take_buffers-Keeps core now lease_end rpc.length b.pool) in
          rw (e, homa_pool_allocate) (s, Needed-same b.waiting b.pool p kept.0 n)
      | inr (inr (inr e)) ↦ rw (e, homa_pool_allocate) (s, n)
    ]
