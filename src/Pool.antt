-- ===== src/Pool.antt =====
-- homa_pool.c and homa_pool.h: the pages of user memory in which the messages for a socket are put
-- together. A call runs alone: no other core changes the pool during it. The arrays `descriptors` and
-- `cores` are functions, read and written inside their bounds.

pub mod Reserve
pub mod Count
pub mod Search
pub mod Account
use connected_homa.Prelude.{
  ℕ, zero, suc, ◌+◌, ◌-◌, ◌*◌, ◌/◌, ◌%◌, ◌^◌, Bool, true, false, not, ◌&&◌, ◌||◌, Option, none,
  some, List, [], ◌∷◌, ◌++◌, map, ltb, leb, ◌==◌, if◌then◌else◌, update, length,
}

-- `struct homa_bpage`; `owner` is `none` where the code has a number below zero.
pub record Bpage : Type 0 where
  pub refs : ℕ
  pub owner : Option ℕ
  pub expiration : ℕ

-- `struct homa_pool_core`
pub record Core : Type 0 where
  pub page_hint : ℕ
  pub allocated : ℕ
  pub next_candidate : ℕ

-- `struct homa_pool`. `region` is `none` before `homa_pool_init`; `bpages_needed` is `none` for INT_MAX.
pub record Pool : Type 0 where
  pub region : Option ℕ
  pub num_bpages : ℕ
  pub descriptors : ℕ → Bpage
  pub free_bpages : ℕ
  pub bpages_needed : Option ℕ
  pub cores : ℕ → Core

-- HOMA_BPAGE_SIZE, MIN_POOL_SIZE, MIN_EXTRA and PAGE_SIZE
abbrev pub bpage_size : ℕ
bpage_size = 65536

abbrev pub min_pool_size : ℕ
min_pool_size = 2

abbrev pub min_extra : ℕ
min_extra = 4

abbrev pub page_size : ℕ
page_size = 4096

pub data PoolResult : Type 0 where
  ok einval enomem : PoolResult

-- `homa_pool_init`; `descriptors_memory` and `cores_memory` say whether `kmalloc_array` gives memory. The
-- pool before is destroyed; where `region` is left `none`, no other field is read.
unfoldable pub homa_pool_init : Bool → Bool → ℕ → ℕ → Pool → Pool × PoolResult
homa_pool_init descriptors_memory cores_memory region region_size pool =
    let num = region_size / bpage_size in
    let unset = record pool { region = none; num_bpages = num } in
    if not (region % page_size == 0)
    then (record pool { region = none }, einval)
    else if ltb num min_pool_size
    then (unset, einval)
    else if not descriptors_memory
    then (unset, enomem)
    else if not cores_memory
    then (unset, enomem)
    else (
      record {
        region = some region;
        num_bpages = num;
        descriptors = λ i. record { refs = 0; owner = none; expiration = 0 };
        free_bpages = num;
        bpages_needed = none;
        cores = λ c. record { page_hint = 0; allocated = 0; next_candidate = 0 };
      },
      ok,
    )

-- `homa_pool_destroy`
pub homa_pool_destroy : Pool → Pool
homa_pool_destroy pool = record pool { region = none }

-- `homa_pool_get_rcvbuf`: start and length.
pub homa_pool_get_rcvbuf : Pool → Option ℕ × ℕ
homa_pool_get_rcvbuf pool = (pool.region, pool.num_bpages * bpage_size)

-- How `homa_pool_get_pages` is called: the core, the time, and with `set_owner` the time at which the
-- lease that it gives ends.
pub record Caller : Type 0 where
  pub core : ℕ
  pub now : ℕ
  pub lease_end : Option ℕ

-- `limit`, when it is computed: only pages below it are considered.
unfoldable pub limit_of : Pool → ℕ
limit_of pool =
    let used = pool.num_bpages - pool.free_bpages in
    let extra = used / 4 in
    let limit = used + (if ltb extra min_extra then min_extra else extra) in
    if ltb pool.num_bpages limit then pool.num_bpages else limit

-- The page may be taken: it is free, or its owner's lease is over and no message uses it.
unfoldable pub is_available : ℕ → Bpage → Bool
is_available now page =
    let leased : Bool = elim page.owner [ none ↦ true | some _ ↦ ltb now page.expiration ] in
    not (leb 2 page.refs || (page.refs == 1 && leased))

abbrev pub has_owner : Bpage → Bool
has_owner page = elim page.owner [ none ↦ false | some _ ↦ true ]

-- The page after it has been taken.
abbrev pub taken : Caller → Bpage → Bpage
taken caller page = elim caller.lease_end [
  | none ↦ record page { refs = 1; owner = none }
  | some time ↦ record { refs = 2; owner = some caller.core; expiration = time }
]

-- What the loop does once it has settled on page `cur`.
unfoldable pub take_page : Caller → ℕ → Pool → Pool
take_page caller cur pool =
    let page = pool.descriptors cur in
    record pool {
      free_bpages = (if has_owner page then pool.free_bpages + 1 else pool.free_bpages);
      descriptors = update pool.descriptors cur (taken caller page);
    }

abbrev pub set_candidate : ℕ → ℕ → Pool → Pool
set_candidate core n pool = record pool {
  cores = update pool.cores core (record (pool.cores core) { next_candidate = n });
}

abbrev pub prepend : ℕ → Option (Pool × List ℕ) → Option (Pool × List ℕ)
prepend page none = none
prepend page (some (pool, pages)) = some (pool, page ∷ pages)

-- The loop of `homa_pool_get_pages`, with the number of pages still to find and `limit`, which is 0
-- where it is to be computed. `none` if the fuel runs out.
unfoldable pub find_pages : Caller → ℕ → ℕ → ℕ → Pool → Option (Pool × List ℕ)
unfolding take_page is_available limit_of
find_pages caller fuel zero limit pool = some (pool, [])
find_pages caller zero (suc missing) limit pool = none
find_pages caller (suc fuel) (suc missing) limit pool =
    let limit' = if limit == 0 then limit_of pool else limit in
    let cur = (pool.cores caller.core).next_candidate in
    let wrapped = find_pages caller fuel (suc missing) 0 (set_candidate caller.core 0 pool) in
    let pool' = set_candidate caller.core (cur + 1) pool in
    let next = find_pages caller fuel (suc missing) limit' pool' in
    let found = prepend cur (find_pages caller fuel missing limit' (take_page caller cur pool')) in
    if leb limit' cur
    then wrapped
    else if is_available caller.now (pool.descriptors cur)
    then found
    else next

-- Two rounds over the pages, for each page that is to be found.
abbrev pub search_fuel : ℕ → ℕ → ℕ
search_fuel num_bpages zero = 0
search_fuel num_bpages (suc missing) = 2 * num_bpages + 3 + search_fuel num_bpages missing

pub data Pages : Type 0 where
  no_space : Pages
  got : Pool → List ℕ → Pages
  stuck : Pages

-- `homa_pool_get_pages`: no space where the code returns -1.
unfoldable pub homa_pool_get_pages : Caller → ℕ → Pool → Pages
homa_pool_get_pages caller num_pages pool =
    let reserved = record pool { free_bpages = pool.free_bpages - num_pages } in
    if ltb pool.free_bpages num_pages
    then no_space
    else elim (find_pages caller (search_fuel pool.num_bpages num_pages) num_pages 0 reserved) [
      | none ↦ stuck
      | some (pool', pages) ↦ got pool' pages
    ]
