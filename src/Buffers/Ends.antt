-- ===== src/Buffers/Ends.antt =====
-- What becomes of an allocation for a message that the arrays of the code have room for.
use connected_homa.Prelude.{ℕ, ◌≤◌, ◌<◌, ◌≡◌, refl, subst, none, List, arith, length}
use connected_homa.Pool.{Pool}
use connected_homa.Buffers.{
  Allocation, no_pool, no_room, allocated, endless, take_buffers, pages_for, max_bpages,
}
use connected_homa.Buffers.Chunks.{Chunk, Sound}
use connected_homa.Buffers.Allocate.{hold, take_buffers-Sound}
use connected_homa.Buffers.Frame.{Keeps, take_buffers-Keeps}
use connected_homa.Buffers.Room.{Fails, take_buffers-Fails}

-- What an allocation of `len` bytes comes to.
abbrev pub Answered : List Chunk → ℕ → Pool → Allocation → Type 0
Answered chunks len pool endless = ⊥
Answered chunks len pool no_pool = pool.region ≡ none
Answered chunks len pool (no_room pool') = Sound pool' chunks 0 × (pool.free_bpages < pages_for len)
Answered chunks len pool (allocated pool' offsets) =
    Sound pool' (hold len offsets chunks) 0
    × (length offsets ≡ pages_for len)
    × (length offsets ≤ max_bpages)

-- Under the invariant of the pool and of the chunks that messages hold, for a message that needs at most
-- HOMA_MAX_BPAGES pages: an allocation ends. It fails if the pool is not set up. Otherwise it gives exactly
-- the pages that the message needs, which the arrays of the code hold, and keeps the invariant with their
-- chunks; or it finds no room, keeps the invariant with the chunks as they were, and the pool had fewer free
-- pages than the message needs.
pub take_buffers-Answered :
    (core now lease_end len : ℕ) (pool : Pool) (chunks : List Chunk)
    → Sound pool chunks 0
    → pages_for len ≤ max_bpages
    → Answered chunks len pool (take_buffers core now lease_end len pool)
take_buffers-Answered core now lease_end len pool chunks s fits =
    by_result (take_buffers core now lease_end len pool) refl
  where
    by_result :
        (a : Allocation) → take_buffers core now lease_end len pool ≡ a → Answered chunks len pool a
    by_result endless e =
        subst (Fails chunks pool.free_bpages (pages_for len)) e
          (take_buffers-Fails core now lease_end len pool chunks s)
    by_result no_pool e =
        subst (Keeps pool.bpages_needed pool.region) e
          (take_buffers-Keeps core now lease_end len pool)
    by_result (no_room pool') e =
        subst (Fails chunks pool.free_bpages (pages_for len)) e
          (take_buffers-Fails core now lease_end len pool chunks s)
    by_result (allocated pool' offsets) e =
        let (sound, n) = take_buffers-Sound core now lease_end len pool pool' offsets chunks s e in
        (sound, n, omega (arith, n))
