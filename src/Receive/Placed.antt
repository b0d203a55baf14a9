-- ===== src/Receive/Placed.antt =====
-- `homa_message_in_init`: a message begins well formed, with all the buffers that it needs or none.
use connected_homa.Prelude.{
  ℕ, false, ◌^◌, ◌≤◌, leb, ◌≡◌, refl, subst, ◌⊎◌, inl, inr, Option, none, some, List, [], ◌∷◌,
  arith, length,
}
use connected_homa.Rpc.{MessageIn}
use connected_homa.Incoming.Account.{IsValid}
use connected_homa.Pool.{Pool}
use connected_homa.Buffers.{
  Buffers, Waiter, Answer, failed, queued, granted, forever, take_buffers, homa_pool_allocate,
  pages_for, max_bpages, enqueue, set_bpages_needed,
}
use connected_homa.Buffers.Chunks.{Chunk, Sound}
use connected_homa.Buffers.Allocate.{hold, take_buffers-Sound}
use connected_homa.Buffers.Room.{Fails, take_buffers-Fails}
use connected_homa.Buffers.Queue.{Moment}
use connected_homa.Buffers.Wakeup.{Allocation-cases, set_needed-Sound}
use connected_homa.Receive.{unplaced, with_buffers, allocate, homa_message_in_init}

-- A message that has begun to arrive is well formed, needs no more pages than the arrays hold, and has no
-- buffers or as many as it needs.
pub record Placed (m : MessageIn) : Type 0 where
  pub valid : IsValid m
  pub offsets : m.num_bpages ≡ length m.bpage_offsets
  pub fits : pages_for m.length ≤ max_bpages
  pub whole : (m.num_bpages ≡ 0) ⊎ (m.num_bpages ≡ pages_for m.length)

abbrev pub Arriving : Option MessageIn → Type 0
Arriving none = Unit {0}
Arriving (some m) = Placed m

-- The pool after a message has been begun: as before, or with the chunks of the message.
abbrev pub Added : Pool → MessageIn → List Chunk → Type 0
Added pool m chunks = Sound pool chunks 0 ⊎ Sound pool (hold m.length m.bpage_offsets chunks) 0

set_bpages_needed-Sound :
    (waiting : List Waiter) (pool : Pool) (chunks : List Chunk)
    → Sound pool chunks 0
    → Sound (set_bpages_needed waiting pool) chunks 0
set_bpages_needed-Sound [] pool chunks s = s
set_bpages_needed-Sound (rpc ∷ waiting) pool chunks s =
    set_needed-Sound (some (pages_for rpc.length)) pool chunks s

-- What `homa_pool_allocate` answers, under the invariant of the pool.
abbrev Answers : ℕ → List Chunk → Buffers → Answer → Type 0
Answers len chunks b failed = Sound b.pool chunks 0
Answers len chunks b queued = Sound b.pool chunks 0
Answers len chunks b (granted offsets) =
    Sound b.pool (hold len offsets chunks) 0 × (length offsets ≡ pages_for len)
Answers len chunks b forever = ⊥

allocate-Answers :
    (core now lease_end : ℕ) (rpc : Waiter) (b : Buffers) (chunks : List Chunk)
    → Sound b.pool chunks 0
    → Answers rpc.length chunks
        (homa_pool_allocate core now lease_end rpc b).0
        (homa_pool_allocate core now lease_end rpc b).1
unfolding homa_pool_allocate
allocate-Answers core now lease_end rpc b chunks s =
    let fails = take_buffers-Fails core now lease_end rpc.length b.pool chunks s in
    let free = b.pool.free_bpages in
    let need = pages_for rpc.length in
    elim (Allocation-cases (take_buffers core now lease_end rpc.length b.pool)) [
      | inl e ↦ rw (e, homa_pool_allocate) s
      | inr (inl (p, e)) ↦
          rw (e, homa_pool_allocate)
            (set_bpages_needed-Sound (enqueue rpc b.waiting) p chunks
              (subst (λ r. Fails chunks free need r) e fails).0)
      | inr (inr (inl (p, offsets, e))) ↦
          rw (e, homa_pool_allocate)
            (take_buffers-Sound core now lease_end rpc.length b.pool p offsets chunks s e)
      | inr (inr (inr e)) ↦ absurd (subst (λ r. Fails chunks free need r) e fails)
    ]

unplaced-IsValid : (birth len unsched : ℕ) → IsValid (unplaced birth len unsched)
unplaced-IsValid birth len unsched = record {
  ordered = omega arith;
  in_message = omega arith;
  counted = omega arith;
}

with_buffers-Placed :
    (birth len unsched : ℕ) (chunks : List Chunk) (b : Buffers) (answer : Answer)
    → pages_for len ≤ max_bpages
    → Answers len chunks b answer
    → let m = with_buffers (unplaced birth len unsched) answer in Placed m × Added b.pool m chunks
unfolding with_buffers
with_buffers-Placed birth len unsched chunks b failed f s =
    let v = unplaced-IsValid birth len unsched in
    (record { valid = v; offsets = refl; fits = f; whole = inl refl }, inl s)
with_buffers-Placed birth len unsched chunks b queued f s =
    let v = unplaced-IsValid birth len unsched in
    (
      record {
        valid = record { ordered = v.ordered; in_message = v.in_message; counted = v.counted };
        offsets = refl;
        fits = f;
        whole = inl refl;
      },
      inl s,
    )
with_buffers-Placed birth len unsched chunks b (granted offsets) f (s, n) =
    let v = unplaced-IsValid birth len unsched in
    (
      record {
        valid = record { ordered = v.ordered; in_message = v.in_message; counted = v.counted };
        offsets = refl;
        fits = f;
        whole = inr n;
      },
      inr s,
    )
with_buffers-Placed birth len unsched chunks b forever f s = absurd s

-- In a pool that satisfies the invariant, `homa_message_in_init` leaves a well-formed message of which
-- nothing has arrived, with no buffers or as many as its length asks for, and the pool satisfies the
-- invariant, with the chunks of the message if it has got any.
pub homa_message_in_init-Placed :
    (t : Moment) (birth id len unsched : ℕ) (b : Buffers) (chunks : List Chunk)
    → Sound b.pool chunks 0
    → pages_for len ≤ max_bpages
    → let r = homa_message_in_init t birth id len unsched b in
      Placed r.0 × Added r.1.pool r.0 chunks
unfolding homa_message_in_init
homa_message_in_init-Placed t birth id len unsched b chunks s f =
    let rpc : Waiter = record { id = id; length = len } in
    let small : leb (2 ^ 31) len ≡ false = ground (arith, f) in
    let r = homa_pool_allocate t.core t.now t.lease_end rpc b in
    rw (small, allocate)
      (with_buffers-Placed birth len unsched chunks r.0 r.1 f
        (allocate-Answers t.core t.now t.lease_end rpc b chunks s))
