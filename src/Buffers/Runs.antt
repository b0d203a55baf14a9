-- ===== src/Buffers/Runs.antt =====
-- Pools in use: any order of allocations, on any cores, and of releases.
use connected_homa.Prelude.{
  ℕ, zero, suc, ◌/◌, ◌≡◌, refl, ap, sym, subst, ◌∙◌, true, none, some, List, [], ◌∷◌, ◌++◌,
  count_below, arith,
}
use connected_homa.Pool.{Pool, ok, homa_pool_init}
use connected_homa.Buffers.{allocated, no_room, take_buffers, homa_pool_release_buffers, pages_for}
use connected_homa.Buffers.Chunks.{Chunk, Sound}
use connected_homa.Buffers.Allocate.{hold, take_buffers-Sound}
use connected_homa.Buffers.Release.{hold-append, homa_pool_release_buffers-Sound}
use connected_homa.Buffers.Room.{Fails, take_buffers-Fails}

-- A message with its buffers: `msgin.length`, and `msgin.bpage_offsets` up to `num_bpages`.
pub record Holder : Type 0 where
  pub len : ℕ
  pub offsets : List ℕ

pub record World : Type 0 where
  pub pool : Pool
  pub messages : List Holder

abbrev pub chunks_of : List Holder → List Chunk
chunks_of [] = []
chunks_of (m ∷ ms) = hold m.len m.offsets (chunks_of ms)

-- An allocation that succeeds, one that fails, and the release of a message's buffers while the pool is
-- set up.
pub data Step (w u : World) : Type 0 where
  give :
      (core now lease_end len : ℕ) (pool' : Pool) (offsets : List ℕ)
      → take_buffers core now lease_end len w.pool ≡ allocated pool' offsets
      → u ≡ record { pool = pool'; messages = record { len = len; offsets = offsets } ∷ w.messages }
      → Step w u
  refuse :
      (core now lease_end len : ℕ) (pool' : Pool)
      → take_buffers core now lease_end len w.pool ≡ no_room pool'
      → u ≡ record w { pool = pool' }
      → Step w u
  release :
      (before after : List Holder) (m : Holder) (region : ℕ)
      → w.pool.region ≡ some region
      → w.messages ≡ before ++ m ∷ after
      → u ≡ record {
        pool = (homa_pool_release_buffers m.offsets w.pool).0;
        messages = before ++ after;
      }
      → Step w u

pub data Reach : World → Type 0 where
  start :
      (region size : ℕ) (old : Pool) (w : World)
      → homa_pool_init true true region size old ≡ (w.pool, ok)
      → w.messages ≡ []
      → Reach w
  next : {w u : World} → Reach w → Step w u → Reach u

abbrev IsSound : World → Type 0
IsSound w = Sound w.pool (chunks_of w.messages) 0

chunks_of-append : (xs ys : List Holder) → chunks_of (xs ++ ys) ≡ chunks_of xs ++ chunks_of ys
chunks_of-append [] ys = refl
chunks_of-append (m ∷ xs) ys =
    ap (λ l. hold m.len m.offsets l) (chunks_of-append xs ys)
    ∙ hold-append m.len m.offsets (chunks_of xs) (chunks_of ys)

count_below_all : (n : ℕ) → count_below (λ i. true) n ≡ n
count_below_all zero = refl
count_below_all (suc n) = omega (arith, count_below_all n)

abbrev region_size_pages : ℕ → ℕ
region_size_pages size = size / 65536

start-Sound :
    (region size : ℕ) (old pool : Pool)
    → homa_pool_init true true region size old ≡ (pool, ok)
    → Sound pool [] 0
unfolding homa_pool_init
start-Sound region size old pool e =
    let num = region_size_pages size in
    let fresh : Pool = record {
      region = some region;
      num_bpages = num;
      descriptors = λ i. record { refs = 0; owner = none; expiration = 0 };
      free_bpages = num;
      bpages_needed = none;
      cores = λ c. record { page_hint = 0; allocated = 0; next_candidate = 0 };
    } in
    let same : fresh ≡ pool = ground arith in
    subst (λ p. Sound p [] 0) same
      (record {
        refs = λ i. omega arith;
        free = omega (arith, count_below_all num);
        apart = tt;
        inside = tt;
        owned = λ i core o. absurd (cc);
      })

Step-IsSound : (w u : World) → Step w u → IsSound w → IsSound u
Step-IsSound w u (give core now lease_end len pool' offsets e f) s =
    subst (λ x. IsSound x) (sym f)
      (take_buffers-Sound core now lease_end len w.pool pool' offsets (chunks_of w.messages) s e).0
Step-IsSound w u (refuse core now lease_end len pool' e f) s =
    let fails = take_buffers-Fails core now lease_end len w.pool (chunks_of w.messages) s in
    subst (λ x. IsSound x) (sym f)
      (subst (λ r. Fails (chunks_of w.messages) w.pool.free_bpages (pages_for len) r) e fails).0
Step-IsSound w u (release before after m region set e f) s =
    let held =
      subst (λ l. Sound w.pool l 0) (ap (λ l. chunks_of l) e ∙ chunks_of-append before (m ∷ after))
        s in
    let freed =
      homa_pool_release_buffers-Sound m.len region m.offsets w.pool (chunks_of before)
        (chunks_of after) set held in
    subst (λ x. IsSound x) (sym f)
      (subst (λ l. Sound (homa_pool_release_buffers m.offsets w.pool).0 l 0)
        (sym (chunks_of-append before after)) freed.0)

-- In every state that a pool reaches after `homa_pool_init`, by allocations that succeed or fail and by
-- releases of messages while the pool is set up: the chunks that the messages hold lie in the region and
-- do not overlap, `refs` counts them and the owner of each page, and `free_bpages` counts the pages
-- that nothing uses.
pub Reach-Sound : {w : World} → Reach w → Sound w.pool (chunks_of w.messages) 0
Reach-Sound (start region size old w e f) =
    subst (λ l. Sound w.pool (chunks_of l) 0) (sym f) (start-Sound region size old w.pool e)
Reach-Sound (next {w} {u} r step) = Step-IsSound w u step (Reach-Sound r)
