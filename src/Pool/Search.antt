-- ===== src/Pool/Search.antt =====
-- The search for free pages ends, and finds as many as were reserved.
use connected_homa.Prelude.{
  ℕ, zero, suc, ◌+◌, ◌-◌, ◌≤◌, ◌<◌, ◌≡◌, refl, ap, ◌∙◌, inl, inr, true, false, Option, none, some,
  List, leb, ◌==◌, arith, Bool-cases, Option-cases, le→ltb, lt→ltb, is_some,
}
use connected_homa.Pool.{
  Pool, Caller, limit_of, is_available, take_page, set_candidate, prepend, find_pages, search_fuel,
  homa_pool_get_pages, got, no_space,
}
use connected_homa.Pool.Count.{is_free}
use connected_homa.Pool.Reserve.{
  Reserved, set_candidate-Reserved, take_page-Reserved, limit_of-free, free-available,
}

is_some-prepend : (page : ℕ) (o : Option (Pool × List ℕ)) → is_some (prepend page o) ≡ is_some o
is_some-prepend page none = refl
is_some-prepend page (some (pool, pages)) = refl

-- With `limit` still to be computed the loop does what it does with its value.
find_pages-limit :
    (caller : Caller) (fuel missing : ℕ) (pool : Pool)
    → (limit_of pool == 0) ≡ false
    → find_pages caller fuel (suc missing) 0 pool
      ≡ find_pages caller fuel (suc missing) (limit_of pool) pool
unfolding find_pages
find_pages-limit caller zero missing pool h = refl
find_pages-limit caller (suc fuel) missing pool h = rw h refl

module _ (caller : Caller) (num : ℕ) where
  -- Enough fuel for `missing` pages.
  abbrev Total : ℕ → Type 0
  Total missing =
      (fuel limit : ℕ) (pool : Pool)
      → Reserved pool missing
      → pool.num_bpages ≡ num
      → limit ≤ num
      → search_fuel num missing ≤ fuel
      → is_some (find_pages caller fuel missing limit pool) ≡ true

  abbrev candidate : Pool → ℕ
  candidate pool = (pool.cores caller.core).next_candidate

  candidate_set : (n : ℕ) (pool : Pool) → candidate (set_candidate caller.core n pool) ≡ n
  candidate_set n pool = ground arith

  taken-num : (cur : ℕ) (pool : Pool) → (take_page caller cur pool).num_bpages ≡ pool.num_bpages
  unfolding take_page
  taken-num cur pool = refl

  skipped :
      (cur j : ℕ) (pool : Pool)
      → (cur == j) ≡ true
      → is_free (pool.descriptors j) ≡ true
      → is_available caller.now (pool.descriptors cur) ≡ false
      → ⊥
  skipped cur j pool here free miss =
      let same : cur ≡ j = ground arith in
      cc (
        free-available caller.now (pool.descriptors j) free,
        ap (λ i. is_available caller.now (pool.descriptors i)) same,
      )

  -- One round of the loop at a page below the limit.
  step :
      (missing fuel limit : ℕ) (pool : Pool)
      → Total missing
      → Reserved pool (suc missing)
      → pool.num_bpages ≡ num
      → limit ≤ num
      → candidate pool < limit
      → search_fuel num missing ≤ fuel
      → (is_available caller.now (pool.descriptors (candidate pool)) ≡ false
          → is_some (
              find_pages caller fuel
                (suc missing)
                limit
                (set_candidate caller.core (candidate pool + 1) pool))
            ≡ true)
      → is_some (find_pages caller (suc fuel) (suc missing) limit pool) ≡ true
  unfolding find_pages
  step missing fuel limit pool total r n l c f go_on =
      let cur = candidate pool in
      let pool' = set_candidate caller.core (cur + 1) pool in
      let counted : (limit == 0) ≡ false = ground arith in
      let inside : leb limit cur ≡ false = ground arith in
      let inside_pool : cur < pool.num_bpages = omega arith in
      elim (Bool-cases (is_available caller.now (pool.descriptors cur))) [
        | inl hit ↦
            let claimed =
              take_page-Reserved caller cur pool' missing
                (set_candidate-Reserved caller.core (cur + 1) pool (suc missing) r) inside_pool
                hit in
            rw (counted, inside, hit)
              (is_some-prepend cur
                  (find_pages caller fuel missing limit (take_page caller cur pool'))
                ∙ total fuel limit (take_page caller cur pool') claimed (taken-num cur pool' ∙ n) l
                    f)
        | inr miss ↦ rw (counted, inside, miss) (go_on miss)
      ]

  -- From a candidate on, with a free page between it and the limit.
  sweep :
      (missing k fuel limit : ℕ) (pool : Pool) (j : ℕ)
      → Total missing
      → Reserved pool (suc missing)
      → pool.num_bpages ≡ num
      → limit ≤ num
      → candidate pool + k ≡ limit
      → candidate pool ≤ j
      → j < limit
      → is_free (pool.descriptors j) ≡ true
      → k + search_fuel num missing ≤ fuel
      → is_some (find_pages caller fuel (suc missing) limit pool) ≡ true
  sweep missing zero fuel limit pool j total r n l e lo hi free f = absurd (omega arith)
  sweep missing (suc k) zero limit pool j total r n l e lo hi free f = absurd (omega arith)
  sweep missing (suc k) (suc fuel) limit pool j total r n l e lo hi free f =
      let cur = candidate pool in
      let pool' = set_candidate caller.core (cur + 1) pool in
      let moved = candidate_set (cur + 1) pool in
      step missing fuel limit pool total r n l (omega arith) (omega arith) (λ miss.
        let later : cur < j = elim (Bool-cases (cur == j)) [
          | inl here ↦ absurd (skipped cur j pool here free miss)
          | inr there ↦ ground arith
        ] in
        sweep missing k fuel limit pool' j total
          (set_candidate-Reserved caller.core (cur + 1) pool (suc missing) r) n l (omega arith)
          (omega arith) hi free (omega arith))

  -- From the first page on, with `limit` to be computed.
  restart :
      (missing fuel : ℕ) (pool : Pool)
      → Total missing
      → Reserved pool (suc missing)
      → pool.num_bpages ≡ num
      → candidate pool ≡ 0
      → num + search_fuel num missing ≤ fuel
      → is_some (find_pages caller fuel (suc missing) 0 pool) ≡ true
  restart missing fuel pool total r n e f =
      let (bound, (j, below, free)) = limit_of-free pool missing r in
      rw (find_pages-limit caller fuel missing pool (ground arith)) (
        sweep missing (limit_of pool) fuel (limit_of pool) pool j total r n (omega arith)
          (omega arith) (omega arith) below free (omega arith))

  -- From any candidate on: up to the limit, and then once more.
  approach :
      (missing k fuel limit : ℕ) (pool : Pool)
      → Total missing
      → Reserved pool (suc missing)
      → pool.num_bpages ≡ num
      → limit ≤ num
      → 0 < limit
      → limit ≤ candidate pool + k
      → k + 1 + num + search_fuel num missing ≤ fuel
      → is_some (find_pages caller fuel (suc missing) limit pool) ≡ true
  unfolding find_pages
  approach missing k zero limit pool total r n l p b f = absurd (omega arith)
  approach missing zero (suc fuel) limit pool total r n l p b f =
      let pool' = set_candidate caller.core 0 pool in
      let counted : (limit == 0) ≡ false = ground arith in
      let beyond : leb limit (candidate pool) ≡ true = ground arith in
      rw (counted, beyond)
        (restart missing fuel pool' total
          (set_candidate-Reserved caller.core 0 pool (suc missing) r) n (candidate_set 0 pool)
          (omega arith))
  approach missing (suc k) (suc fuel) limit pool total r n l p b f =
      elim (Bool-cases (leb limit (candidate pool))) [
        | inl beyond ↦
            let pool' = set_candidate caller.core 0 pool in
            let counted : (limit == 0) ≡ false = ground arith in
            rw (counted, beyond)
              (restart missing fuel pool' total
                (set_candidate-Reserved caller.core 0 pool (suc missing) r) n (candidate_set 0 pool)
                (omega arith))
        | inr inside ↦
            let cur = candidate pool in
            let pool' = set_candidate caller.core (cur + 1) pool in
            let moved = candidate_set (cur + 1) pool in
            step missing fuel limit pool total r n l (ground arith) (omega arith) (λ miss.
              approach missing k fuel limit pool' total
                (set_candidate-Reserved caller.core (cur + 1) pool (suc missing) r) n l p
                (omega arith) (omega arith))
      ]

  total : (missing : ℕ) → Total missing
  unfolding find_pages
  total zero zero limit pool r n l f = refl
  total zero (suc fuel) limit pool r n l f = refl
  total (suc missing) fuel limit pool r n l f = elim (Bool-cases (limit == 0)) [
    | inl unset ↦
        let (bound, (j, below, free)) = limit_of-free pool missing r in
        let zero_limit : limit ≡ 0 = ground arith in
        rw zero_limit (
          rw (find_pages-limit caller fuel missing pool (ground arith)) (
            approach missing num fuel (limit_of pool) pool (total missing) r n (omega arith)
              (omega arith) (omega arith) (omega arith)))
    | inr set ↦
        approach missing num fuel limit pool (total missing) r n l (ground arith) (omega arith)
          (omega arith)
  ]

-- When `free_bpages` counts the pages that nothing uses, and every page with an owner is in use:
-- `homa_pool_get_pages` ends, and hands out pages if `free_bpages` is large enough.
pub homa_pool_get_pages-got :
    (caller : Caller) (num_pages : ℕ) (pool : Pool)
    → Reserved pool 0
    → num_pages ≤ pool.free_bpages
    → (pool' : Pool) × (pages : List ℕ) × (homa_pool_get_pages caller num_pages pool
        ≡ got pool' pages)
unfolding homa_pool_get_pages
homa_pool_get_pages-got caller num_pages pool r h =
    let reserved : Pool = record pool { free_bpages = pool.free_bpages - num_pages } in
    let fuel = search_fuel pool.num_bpages num_pages in
    let counted : Reserved reserved num_pages = record {
      free = omega (arith, r.free);
      owned = r.owned;
    } in
    let found =
      total caller pool.num_bpages num_pages fuel 0 reserved counted refl (omega arith)
        (omega arith) in
    elim (Option-cases (find_pages caller fuel num_pages 0 reserved)) [
      | inl dry ↦ absurd (ground arith)
      | inr ((pool', pages), f) ↦ (pool', pages, rw (le→ltb pool.free_bpages num_pages h, f) refl)
    ]

pub homa_pool_get_pages-no_space :
    (caller : Caller) (num_pages : ℕ) (pool : Pool)
    → pool.free_bpages < num_pages
    → homa_pool_get_pages caller num_pages pool ≡ no_space
unfolding homa_pool_get_pages
homa_pool_get_pages-no_space caller num_pages pool h = rw (lt→ltb pool.free_bpages num_pages h) refl
