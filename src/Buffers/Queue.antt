-- ===== src/Buffers/Queue.antt =====
-- homa_pool.c, `homa_pool_check_waiting`, and the queue of RPCs that wait for buffers. The RPC's lock is
-- free whenever the code tries to take it.
use connected_homa.Prelude.{
  SortedBy, ℕ, zero, suc, ◌≡◌, Bool, true, false, Option, none, some, List, [], ◌∷◌, leb,
}
use connected_homa.Pool.{Pool}
use connected_homa.Buffers.{
  Waiter, pages_for, set_bpages_needed, Buffers, Answer, failed, queued, granted, forever,
  homa_pool_allocate,
}
use connected_homa.Buffers.Chunks.{Chunk}
use connected_homa.Buffers.Allocate.{hold}

-- The core on which the code allocates, the time, and the end of a lease that begins then.
pub record Moment : Type 0 where
  pub core : ℕ
  pub now : ℕ
  pub lease_end : ℕ

-- `atomic_read(&pool->free_bpages) >= pool->bpages_needed`
abbrev pub has_enough : Pool → Bool
has_enough pool = elim pool.bpages_needed [ none ↦ false | some n ↦ leb n pool.free_bpages ]

-- What is done to `bpages_needed` when the first RPC has left the queue.
abbrev pub update_needed : List Waiter → Pool → Pool
update_needed [] pool = record pool { bpages_needed = none }
update_needed (rpc ∷ waiting) pool = set_bpages_needed (rpc ∷ waiting) pool

-- An RPC that has been given buffers, these, and its `msgin.resend_all`; it is then passed to
-- `homa_grant_check_rpc`, which asks the sender for the whole message and is not modelled.
pub record Woken : Type 0 where
  pub rpc : Waiter
  pub offsets : List ℕ
  pub resend_all : Bool

-- What follows `homa_pool_allocate`: the RPC is woken if it has got a buffer.
abbrev pub wake : Waiter → Answer → Option (Buffers × List Woken) → Option (Buffers × List Woken)
wake rpc forever rest = none
wake rpc failed rest = rest
wake rpc queued rest = rest
wake rpc (granted []) rest = rest
wake rpc (granted (_ ∷ _)) none = none
wake rpc (granted (o ∷ offsets)) (some (b, woken)) =
    some (b, (record { rpc = rpc; offsets = o ∷ offsets; resend_all = true }) ∷ woken)

-- The loop of `homa_pool_check_waiting`; `clock` gives the moment of each round. `none` if the fuel runs
-- out.
unfoldable pub check_waiting : (ℕ → Moment) → ℕ → Buffers → Option (Buffers × List Woken)
unfolding homa_pool_allocate
check_waiting clock zero b = none
check_waiting clock (suc fuel) b = elim (has_enough b.pool) [
  | false ↦ some (b, [])
  | true ↦ elim b.waiting [
    | [] ↦ some (record b { pool = record b.pool { bpages_needed = none } }, [])
    | rpc ∷ waiting ↦
        let m = clock fuel in
        let left : Buffers = record { pool = update_needed waiting b.pool; waiting = waiting } in
        let result = homa_pool_allocate m.core m.now m.lease_end rpc left in
        wake rpc result.1 (check_waiting clock fuel result.0)
  ]
]

-- `homa_pool_check_waiting`
unfoldable pub homa_pool_check_waiting : (ℕ → Moment) → ℕ → Buffers → Option (Buffers × List Woken)
unfolding check_waiting
homa_pool_check_waiting clock fuel b = elim b.pool.region [
  | none ↦ some (b, [])
  | some _ ↦ check_waiting clock fuel b
]

-- The queue is sorted by length.
abbrev pub Sorted : List Waiter → Type 0
Sorted waiting = SortedBy (λ (w : Waiter). w.length) waiting

-- `bpages_needed` is what the first RPC in the queue needs.
abbrev pub Needed : List Waiter → Pool → Type 0
Needed [] pool = Unit {0}
Needed (rpc ∷ waiting) pool = pool.bpages_needed ≡ some (pages_for rpc.length)

abbrev pub held : List Woken → List Chunk → List Chunk
held [] chunks = chunks
held (w ∷ ws) chunks = held ws (hold w.rpc.length w.offsets chunks)
