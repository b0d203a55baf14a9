-- ===== src/Buffers.antt =====
-- homa_pool.c, `homa_pool_allocate`, `homa_pool_get_buffer`, `homa_pool_release_buffers` and
-- `homa_pool_check_waiting`: the buffers of messages, in the pages of a pool. An RPC that waits for
-- buffers is its id and the length of its message; `homa_rpc_try_lock` is taken to succeed.
pub mod Chunks
pub mod Take
pub mod Partial
pub mod Owned
pub mod Allocate
pub mod Release
pub mod Room
pub mod Runs
pub mod Frame
pub mod Ends
pub mod Queue
pub mod Wakeup
pub mod Order
mod Tests
use connected_homa.Prelude.{
  insert_by, ℕ, zero, suc, ◌+◌, ◌-◌, ◌*◌, ◌/◌, ◌%◌, Bool, true, false, not, Option, none, some,
  List, [], ◌∷◌, ◌++◌, map, ltb, leb, ◌==◌, if◌then◌else◌, update, length, get_elem?,
}
use connected_homa.Pool.{
  Bpage, Core, Pool, Caller, Pages, no_space, got, stuck, bpage_size, homa_pool_get_pages,
}

-- How the pages with the first part of a message are named: `pages[i] << HOMA_BPAGE_SHIFT`.
abbrev pub offset_of : ℕ → ℕ
offset_of page = page * bpage_size

-- One round of the loop of `homa_pool_release_buffers`; `false` where it sets `result` to -EINVAL.
pub release_buffer : ℕ → Pool → Pool × Bool
release_buffer buffer pool =
    let index = buffer / bpage_size in
    let page = pool.descriptors index in
    let page' = record page { refs = page.refs - 1 } in
    if ltb index pool.num_bpages
    then (
      record pool {
        descriptors = update pool.descriptors index page';
        free_bpages = (if page'.refs == 0 then pool.free_bpages + 1 else pool.free_bpages);
      },
      true,
    )
    else (pool, false)

pub release_all : List ℕ → Pool → Bool → Pool × Bool
unfolding release_buffer
release_all [] pool fine = (pool, fine)
release_all (buffer ∷ buffers) pool fine =
    let (pool', valid) = release_buffer buffer pool in
    release_all buffers pool' (if valid then fine else false)

-- `homa_pool_release_buffers`: the result is whether the code returns 0. A page that is released has a
-- positive `refs`.
pub homa_pool_release_buffers : List ℕ → Pool → Pool × Bool
unfolding release_all
homa_pool_release_buffers buffers pool = elim pool.region [
  | none ↦ (pool, true)
  | some _ ↦ release_all buffers pool true
]

pub data Allocation : Type 0 where
  no_pool : Allocation
  no_room : Pool → Allocation
  allocated : Pool → List ℕ → Allocation
  endless : Allocation

abbrev pub set_core : ℕ → Core → Pool → Pool
set_core core c pool = record pool { cores = update pool.cores core c }

-- From the label `allocate_partial` on.
pub use_hint : ℕ → ℕ → List ℕ → Pool → Allocation
use_hint core partial offsets pool =
    let c = pool.cores core in
    allocated (set_core core (record c { allocated = c.allocated + partial }) pool)
      (offsets ++ (c.allocated + offset_of c.page_hint) ∷ [])

-- From the label `new_page` on.
pub new_page : Caller → ℕ → List ℕ → Pool → Allocation
unfolding use_hint homa_pool_release_buffers
new_page caller partial offsets pool = elim (homa_pool_get_pages caller 1 pool) [
  | stuck ↦ endless
  | no_space ↦ no_room (homa_pool_release_buffers offsets pool).0
  | got pool' [] ↦ endless
  | got pool' (page ∷ _) ↦
      let c = pool'.cores caller.core in
      use_hint caller.core partial offsets
        (set_core caller.core (record c { page_hint = page; allocated = 0 }) pool')
]

-- The last chunk of a message, of `partial` bytes: in the page that the core owns, or in a new one.
pub allocate_partial : ℕ → ℕ → ℕ → ℕ → List ℕ → Pool → Allocation
unfolding use_hint new_page
allocate_partial core now lease_end partial offsets pool =
    let caller : Caller = record { core = core; now = now; lease_end = some lease_end } in
    let c = pool.cores core in
    let page = pool.descriptors c.page_hint in
    let with_page =
      λ (p : Bpage). record pool { descriptors = update pool.descriptors c.page_hint p } in
    let leased = with_page (record page { refs = page.refs + 1; expiration = lease_end }) in
    let disowned = with_page (record page { refs = page.refs - 1; owner = none }) in
    let reused = set_core core (record c { allocated = 0 }) leased in
    let is_mine : Bool = elim page.owner [ none ↦ false | some owner ↦ owner == core ] in
    if not is_mine
    then new_page caller partial offsets pool
    else if ltb bpage_size (c.allocated + partial)
    then (if page.refs == 1
        then use_hint core partial offsets reused
        else new_page caller partial offsets disowned)
    else use_hint core partial offsets leased

-- The code after the full pages have been allocated.
pub finish : ℕ → ℕ → ℕ → ℕ → List ℕ → Pool → Allocation
unfolding allocate_partial
finish core now lease_end partial offsets pool =
    if partial == 0
    then allocated pool offsets
    else allocate_partial core now lease_end partial offsets pool

-- `homa_pool_allocate` for a message of `len` bytes on core `core` at time `now`, up to the label
-- `out_of_space`. `lease_end` is the time at which a lease that is given now ends. For a message of more than
-- HOMA_MAX_BPAGES pages the code writes behind its arrays; a list has no end here. `len` is not negative.
unfoldable pub take_buffers : ℕ → ℕ → ℕ → ℕ → Pool → Allocation
unfolding finish
take_buffers core now lease_end len pool =
    let caller : Caller = record { core = core; now = now; lease_end = none } in
    let full_pages = len / bpage_size in
    let partial = len % bpage_size in
    let full : Allocation = elim (homa_pool_get_pages caller full_pages pool) [
      | stuck ↦ endless
      | no_space ↦ no_room pool
      | got pool' pages ↦ finish core now lease_end partial (map offset_of pages) pool'
    ] in
    let rest = if full_pages == 0 then finish core now lease_end partial [] pool else full in
    elim pool.region [ none ↦ no_pool | some _ ↦ rest ]

-- An RPC in `hsk->waiting_for_bufs`.
pub record Waiter : Type 0 where
  pub id : ℕ
  pub length : ℕ

-- The loop at the label `out_of_space`.
unfoldable pub enqueue : Waiter → List Waiter → List Waiter
enqueue rpc waiting = insert_by (λ (w : Waiter). w.length) rpc waiting

-- HOMA_MAX_BPAGES, the size of `pages` and of `msgin.bpage_offsets`.
abbrev pub max_bpages : ℕ
max_bpages = 16

-- `(length + HOMA_BPAGE_SIZE - 1) >> HOMA_BPAGE_SHIFT`
abbrev pub pages_for : ℕ → ℕ
pages_for len = (len + bpage_size - 1) / bpage_size

-- `set_bpages_needed`, for a list that has an entry.
abbrev pub set_bpages_needed : List Waiter → Pool → Pool
set_bpages_needed [] pool = pool
set_bpages_needed (rpc ∷ _) pool = record pool { bpages_needed = some (pages_for rpc.length) }

-- A socket's pool, with `waiting_for_bufs`.
pub record Buffers : Type 0 where
  pub pool : Pool
  pub waiting : List Waiter

pub data Answer : Type 0 where
  failed : Answer
  queued : Answer
  granted : List ℕ → Answer
  forever : Answer

-- `homa_pool_allocate`; `failed` is -ENOMEM, and the result 0 is `queued` or `granted`.
unfoldable pub homa_pool_allocate : ℕ → ℕ → ℕ → Waiter → Buffers → Buffers × Answer
unfolding enqueue take_buffers
homa_pool_allocate core now lease_end rpc b =
    elim (take_buffers core now lease_end rpc.length b.pool) [
      | no_pool ↦ (b, failed)
      | endless ↦ (b, forever)
      | allocated pool offsets ↦ (record b { pool = pool }, granted offsets)
      | no_room pool ↦
          let waiting = enqueue rpc b.waiting in
          (record { pool = set_bpages_needed waiting pool; waiting = waiting }, queued)
    ]

-- `homa_pool_get_buffer`: the offset in the region, and `*available`; `none` is the BUG_ON, or a read
-- behind `bpage_offsets`.
pub homa_pool_get_buffer : ℕ → List ℕ → ℕ → Option (ℕ × ℕ)
homa_pool_get_buffer len offsets offset =
    let index = offset / bpage_size in
    let inner = offset % bpage_size in
    elim (get_elem? offsets index) [
      | none ↦ none
      | some base ↦ some (
        base + inner,
        (if ltb (index + 1) (length offsets) then bpage_size - inner else len - offset),
      )
    ]
