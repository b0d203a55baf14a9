-- ===== src/Buffers/Wakeup.antt =====
-- `homa_pool_check_waiting` serves the RPCs in the queue as far as the free pages go.
use connected_homa.Prelude.{
  ℕ, zero, suc, ◌≤◌, ◌<◌, ◌≡◌, refl, ap, subst, ◌∙◌, ◌⊎◌, inl, inr, true, false, Option, none, some,
  List, [], ◌∷◌, ◌++◌, arith, Bool-cases, length, All, map,
}
use connected_homa.Pool.{Pool}
use connected_homa.Buffers.{
  Allocation, no_pool, no_room, allocated, endless, take_buffers, Waiter, pages_for, Buffers,
  granted, homa_pool_allocate,
}
use connected_homa.Buffers.Queue.{
  Moment, has_enough, update_needed, Woken, check_waiting, homa_pool_check_waiting, Sorted, Needed,
  held,
}
use connected_homa.Buffers.Chunks.{Chunk, Sound}
use connected_homa.Buffers.Allocate.{hold, take_buffers-Sound}
use connected_homa.Buffers.Frame.{Keeps, take_buffers-Keeps}
use connected_homa.Buffers.Room.{Fails, take_buffers-Fails}

-- The outcome: `woken` have their buffers, next to `chunks`; those who still wait, the longest, find too
-- few free pages.
pub record Served (waiting : List Waiter) (chunks : List Chunk) (b : Buffers) (woken : List Woken)
    : Type 0 where
  pub sound : Sound b.pool (held woken chunks) 0
  pub order : map (λ (w : Woken). w.rpc) woken ++ b.waiting ≡ waiting
  pub whole : All (λ (w : Woken). length w.offsets ≡ pages_for w.rpc.length) woken
  pub stalled : All (λ (w : Waiter). b.pool.free_bpages < pages_for w.length) b.waiting
  pub sorted : Sorted b.waiting
  pub needed : Needed b.waiting b.pool

pub set_needed-Sound :
    (n : Option ℕ) (pool : Pool) (chunks : List Chunk)
    → Sound pool chunks 0
    → Sound (record pool { bpages_needed = n }) chunks 0
set_needed-Sound n pool chunks s = record {
  refs = s.refs;
  free = s.free;
  apart = s.apart;
  inside = s.inside;
  owned = s.owned;
}

update_needed-Sound :
    (waiting : List Waiter) (pool : Pool) (chunks : List Chunk)
    → Sound pool chunks 0
    → Sound (update_needed waiting pool) chunks 0
update_needed-Sound [] pool chunks s = set_needed-Sound none pool chunks s
update_needed-Sound (rpc ∷ waiting) pool chunks s =
    set_needed-Sound (some (pages_for rpc.length)) pool chunks s

update_needed-free :
    (waiting : List Waiter) (pool : Pool)
    → ((update_needed waiting pool).free_bpages ≡ pool.free_bpages)
      × ((update_needed waiting pool).region ≡ pool.region)
update_needed-free [] pool = (refl, refl)
update_needed-free (rpc ∷ waiting) pool = (refl, refl)

update_needed-Needed :
    (waiting : List Waiter) (pool pool' : Pool)
    → pool'.bpages_needed ≡ (update_needed waiting pool).bpages_needed
    → Needed waiting pool'
update_needed-Needed [] pool pool' e = tt
update_needed-Needed (rpc ∷ waiting) pool pool' e = e

All-short :
    (free n : ℕ) (waiting : List Waiter)
    → free < pages_for n
    → All (λ w. n ≤ w.length) waiting
    → All (λ w. free < pages_for w.length) waiting
All-short free n [] h l = tt
All-short free n (w ∷ waiting) h (le, l) = (omega arith, All-short free n waiting h l)

Needed-stalled :
    (pool : Pool) (waiting : List Waiter)
    → Sorted waiting
    → Needed waiting pool
    → has_enough pool ≡ false
    → All (λ w. pool.free_bpages < pages_for w.length) waiting
Needed-stalled pool [] s n h = tt
Needed-stalled pool (rpc ∷ waiting) s n h =
    let few : pool.free_bpages < pages_for rpc.length = ground (arith, rw n at h) in
    (few, All-short pool.free_bpages rpc.length waiting few s.0)

Needed-enough :
    (pool : Pool) (rpc : Waiter) (waiting : List Waiter)
    → Needed (rpc ∷ waiting) pool
    → has_enough pool ≡ true
    → pages_for rpc.length ≤ pool.free_bpages
Needed-enough pool rpc waiting n h = ground (arith, rw n at h)

pub Allocation-cases :
    (r : Allocation)
    → (r ≡ no_pool)
      ⊎ ((pool : Pool) × (r ≡ no_room pool))
      ⊎ ((pool : Pool) × (offsets : List ℕ) × (r ≡ allocated pool offsets))
      ⊎ (r ≡ endless)
Allocation-cases no_pool = inl refl
Allocation-cases (no_room pool) = inr (inl (pool, refl))
Allocation-cases (allocated pool offsets) = inr (inr (inl (pool, offsets, refl)))
Allocation-cases endless = inr (inr (inr refl))

-- Under the invariants, an RPC of at most as many pages as are free gets its buffers, and at least one.
allocates :
    (core now lease_end len region : ℕ) (pool : Pool) (chunks : List Chunk)
    → pool.region ≡ some region
    → Sound pool chunks 0
    → 0 < len
    → pages_for len ≤ pool.free_bpages
    → (pool' : Pool) × (o : ℕ) × (offsets : List ℕ) × (take_buffers core now lease_end len pool
        ≡ allocated pool' (o ∷ offsets))
allocates core now lease_end len region pool chunks set s pos fits =
    let fails = take_buffers-Fails core now lease_end len pool chunks s in
    let kept = take_buffers-Keeps core now lease_end len pool in
    elim (Allocation-cases (take_buffers core now lease_end len pool)) [
      | inl e ↦ absurd (cc (subst (λ r. Keeps pool.bpages_needed pool.region r) e kept))
      | inr (inl (p, e)) ↦
          let short = subst (λ r. Fails chunks pool.free_bpages (pages_for len) r) e fails in
          absurd (omega (arith, short.1))
      | inr (inr (inr e)) ↦
          absurd (subst (λ r. Fails chunks pool.free_bpages (pages_for len) r) e fails)
      | inr (inr (inl (p, [], e))) ↦
          absurd
            (ground (arith, (take_buffers-Sound core now lease_end len pool p [] chunks s e).1))
      | inr (inr (inl (p, (o ∷ offsets), e))) ↦ (p, o, offsets, e)
    ]

pub allocate-granted :
    (core now lease_end : ℕ) (rpc : Waiter) (b : Buffers) (p : Pool) (offsets : List ℕ)
    → take_buffers core now lease_end rpc.length b.pool ≡ allocated p offsets
    → homa_pool_allocate core now lease_end rpc b ≡ (record b { pool = p }, granted offsets)
unfolding homa_pool_allocate
allocate-granted core now lease_end rpc b p offsets e = rw (e, homa_pool_allocate) refl

check_waiting-round :
    (clock : ℕ → Moment) (fuel first : ℕ) (pool p : Pool) (rpc : Waiter) (rest : List Waiter)
    (offsets : List ℕ) (b : Buffers) (woken : List Woken)
    → has_enough pool ≡ true
    → take_buffers
        (clock fuel).core
        (clock fuel).now
        (clock fuel).lease_end
        rpc.length
        (update_needed rest pool)
      ≡ allocated p (first ∷ offsets)
    → check_waiting clock fuel (record { pool = p; waiting = rest }) ≡ some (b, woken)
    → check_waiting clock (suc fuel) (record { pool = pool; waiting = rpc ∷ rest })
      ≡ some (b, (record { rpc = rpc; offsets = first ∷ offsets; resend_all = true }) ∷ woken)
unfolding check_waiting
check_waiting-round clock fuel first pool p rpc rest offsets b woken enough e run =
    let m = clock fuel in
    rw
      (
        enough,
        check_waiting,
        allocate-granted m.core m.now m.lease_end rpc
            (record { pool = update_needed rest pool; waiting = rest }) p (first ∷ offsets) e,
        run,
      )
      refl

check_waiting-Served :
    (clock : ℕ → Moment) (fuel region : ℕ) (pool : Pool) (waiting : List Waiter)
    (chunks : List Chunk)
    → pool.region ≡ some region
    → Sound pool chunks 0
    → Sorted waiting
    → Needed waiting pool
    → All (λ w. 0 < w.length) waiting
    → length waiting < fuel
    → (b : Buffers) × (woken : List Woken) × (check_waiting clock fuel
          (record { pool = pool; waiting = waiting })
        ≡ some (b, woken))
      × Served waiting chunks b woken
unfolding check_waiting
check_waiting-Served clock zero region pool waiting chunks set s o n pos fuel = absurd (omega arith)
check_waiting-Served clock (suc fuel) region pool [] chunks set s o n pos f =
    elim (Bool-cases (has_enough pool)) [
      | inr few ↦ (
        record { pool = pool; waiting = [] },
        [],
        rw (few, check_waiting) refl,
        record { sound = s; order = refl; whole = tt; stalled = tt; sorted = tt; needed = tt },
      )
      | inl enough ↦ (
        record { pool = record pool { bpages_needed = none }; waiting = [] },
        [],
        rw (enough, check_waiting) refl,
        record {
          sound = set_needed-Sound none pool chunks s;
          order = refl;
          whole = tt;
          stalled = tt;
          sorted = tt;
          needed = tt;
        },
      )
    ]
check_waiting-Served clock (suc fuel) region pool (rpc ∷ rest) chunks set s o n pos f =
    elim (Bool-cases (has_enough pool)) [
      | inr few ↦ (
        record { pool = pool; waiting = rpc ∷ rest },
        [],
        rw (few, check_waiting) refl,
        record {
          sound = s;
          order = refl;
          whole = tt;
          stalled = Needed-stalled pool (rpc ∷ rest) o n few;
          sorted = o;
          needed = n;
        },
      )
      | inl enough ↦
          let m = clock fuel in
          let left = update_needed rest pool in
          let frame = update_needed-free rest pool in
          let left_sound = update_needed-Sound rest pool chunks s in
          let (p, first, offsets, e) =
            allocates m.core m.now m.lease_end rpc.length region left chunks (frame.1 ∙ set)
              left_sound pos.0 (omega (arith, frame.0, Needed-enough pool rpc rest n enough)) in
          let kept =
            subst (λ r. Keeps left.bpages_needed left.region r) e
              (take_buffers-Keeps m.core m.now m.lease_end rpc.length left) in
          let given =
            take_buffers-Sound m.core m.now m.lease_end rpc.length left p (first ∷ offsets) chunks
              left_sound e in
          let (b, woken, run, served) =
            check_waiting-Served clock fuel region p rest (hold rpc.length (first ∷ offsets) chunks)
              (kept.1 ∙ frame.1 ∙ set) given.0 o.1 (update_needed-Needed rest pool p kept.0) pos.1
              (omega arith) in
          (
            b,
            (record { rpc = rpc; offsets = first ∷ offsets; resend_all = true }) ∷ woken,
            check_waiting-round clock fuel first pool p rpc rest offsets b woken enough e run,
            record {
              sound = served.sound;
              order = ap (λ l. rpc ∷ l) served.order;
              whole = (given.1, served.whole);
              stalled = served.stalled;
              sorted = served.sorted;
              needed = served.needed;
            },
          )
    ]

-- For a pool that is set up and satisfies the invariant, with a queue sorted by length of messages that
-- are not empty, and `bpages_needed` set for the first: `homa_pool_check_waiting` ends after at most one
-- round per waiting RPC and one more. It wakes a first part of the queue in its order, each RPC with all
-- the buffers that it needs, and keeps the invariant; each RPC that still waits needs more pages than
-- are free; and the queue is sorted and `bpages_needed` set as before.
pub homa_pool_check_waiting-Served :
    (clock : ℕ → Moment) (fuel region : ℕ) (b : Buffers) (chunks : List Chunk)
    → b.pool.region ≡ some region
    → Sound b.pool chunks 0
    → Sorted b.waiting
    → Needed b.waiting b.pool
    → All (λ w. 0 < w.length) b.waiting
    → length b.waiting < fuel
    → (b' : Buffers) × (woken : List Woken) × (homa_pool_check_waiting clock fuel b
        ≡ some (b', woken))
      × Served b.waiting chunks b' woken
unfolding homa_pool_check_waiting
homa_pool_check_waiting-Served clock fuel region b chunks set s o n pos f =
    let (b', woken, run, served) =
      check_waiting-Served clock fuel region b.pool b.waiting chunks set s o n pos f in
    (b', woken, rw (set, homa_pool_check_waiting) run, served)
