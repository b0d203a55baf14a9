-- ===== src/Pool/Account.antt =====
-- What the search does, whatever order it goes in: it takes pages that are available.
use connected_homa.Prelude.{
  ℕ, zero, suc, ◌+◌, ◌-◌, ◌≤◌, ◌<◌, ◌≡◌, true, Option, none, some, List, [], ◌∷◌, ltb, leb, ◌==◌,
  if◌then◌else◌, arith, Bool-cases, Option-cases, inl, inr,
}
use connected_homa.Pool.{
  Pool, Caller, got, limit_of, is_available, take_page, set_candidate, prepend, find_pages,
  search_fuel, homa_pool_get_pages,
}

-- The specification: any number of moves of a core's `next_candidate`, and one available page taken for
-- each page that is missing.
pub data Finds (caller : Caller) : ℕ → Pool → Pool → List ℕ → Type 0 where
  done :
      (pool pool' : Pool) (pages : List ℕ)
      → pool ≡ pool'
      → pages ≡ []
      → Finds caller zero pool pool' pages
  move :
      (n missing : ℕ) (pool pool' : Pool) (pages : List ℕ)
      → Finds caller missing (set_candidate caller.core n pool) pool' pages
      → Finds caller missing pool pool' pages
  take :
      (cur missing : ℕ) (pool pool' : Pool) (pages rest : List ℕ)
      → cur < pool.num_bpages
      → is_available caller.now (pool.descriptors cur) ≡ true
      → Finds caller missing (take_page caller cur pool) pool' rest
      → pages ≡ cur ∷ rest
      → Finds caller (suc missing) pool pool' pages

limit_of-le : (pool : Pool) → limit_of pool ≤ pool.num_bpages
unfolding limit_of
limit_of-le pool = ground arith

prepend-some :
    (page : ℕ) (o : Option (Pool × List ℕ)) (pool : Pool) (pages : List ℕ)
    → prepend page o ≡ some (pool, pages)
    → (rest : List ℕ) × (o ≡ some (pool, rest)) × (pages ≡ page ∷ rest)
prepend-some page none pool pages e = absurd (cc)
prepend-some page (some (pool', rest)) pool pages e = (rest, ground arith, ground arith)

taken_bound :
    (caller : Caller) (cur limit : ℕ) (pool : Pool)
    → limit ≤ pool.num_bpages
    → limit ≤ (take_page caller cur pool).num_bpages
unfolding take_page
taken_bound caller cur limit pool h = h

find_pages-Finds :
    (caller : Caller) (fuel missing limit : ℕ) (pool pool' : Pool) (pages : List ℕ)
    → limit ≤ pool.num_bpages
    → find_pages caller fuel missing limit pool ≡ some (pool', pages)
    → Finds caller missing pool pool' pages
unfolding find_pages
find_pages-Finds caller zero zero limit pool pool' pages l e =
    done pool pool' pages (ground arith) (ground arith)
find_pages-Finds caller (suc fuel) zero limit pool pool' pages l e =
    done pool pool' pages (ground arith) (ground arith)
find_pages-Finds caller zero (suc missing) limit pool pool' pages l e = absurd (cc)
find_pages-Finds caller (suc fuel) (suc missing) limit pool pool' pages l e =
    let limit' : ℕ = if limit == 0 then limit_of pool else limit in
    let cur = (pool.cores caller.core).next_candidate in
    let next = set_candidate caller.core (cur + 1) pool in
    let bound : limit' ≤ pool.num_bpages = ground (arith, limit_of-le pool) in
    elim (Bool-cases (leb limit' cur)) [
      | inl beyond ↦ move 0 (suc missing) pool pool' pages (
          find_pages-Finds caller fuel (suc missing) 0 (set_candidate caller.core 0 pool) pool'
            pages (omega arith) (rw (beyond, find_pages) at e))
      | inr inside ↦ elim (Bool-cases (is_available caller.now (pool.descriptors cur))) [
        | inl hit ↦
            let (rest, f, same) =
              prepend-some cur (find_pages caller fuel missing limit' (take_page caller cur next))
                pool' pages (rw (inside, hit, find_pages) at e) in
            move (cur + 1) (suc missing) pool pool' pages (
              take cur missing next pool' pages rest (ground arith) hit
                (find_pages-Finds caller fuel missing limit' (take_page caller cur next) pool' rest
                  (taken_bound caller cur limit' next bound) f)
                same)
        | inr miss ↦ move (cur + 1) (suc missing) pool pool' pages (
            find_pages-Finds caller fuel (suc missing) limit' next pool' pages bound
              (rw (inside, miss, find_pages) at e))
      ]
    ]

-- Whatever `homa_pool_get_pages` hands out, it has found: as many pages as were asked for, each of them
-- available when it was taken, after the reservation in `free_bpages`.
pub homa_pool_get_pages-Finds :
    (caller : Caller) (num_pages : ℕ) (pool pool' : Pool) (pages : List ℕ)
    → homa_pool_get_pages caller num_pages pool ≡ got pool' pages
    → Finds caller num_pages
        (record pool { free_bpages = pool.free_bpages - num_pages })
        pool'
        pages
      × (num_pages ≤ pool.free_bpages)
unfolding homa_pool_get_pages
homa_pool_get_pages-Finds caller num_pages pool pool' pages e =
    let reserved : Pool = record pool { free_bpages = pool.free_bpages - num_pages } in
    let fuel = search_fuel pool.num_bpages num_pages in
    elim (Bool-cases (ltb pool.free_bpages num_pages)) [
      | inl short ↦ absurd (ground arith)
      | inr enough ↦ elim (Option-cases (find_pages caller fuel num_pages 0 reserved)) [
        | inl dry ↦ absurd (ground arith)
        | inr ((p, l), f) ↦ (
          find_pages-Finds caller fuel num_pages 0 reserved pool' pages (omega arith)
              (ground arith),
          ground arith,
        )
      ]
    ]
