-- ===== src/Pool/Reserve.antt =====
-- What `homa_pool_get_pages` sets aside while it searches, and where a free page is.
use connected_homa.Prelude.{
  ℕ, suc, ◌+◌, ◌≤◌, ◌<◌, ◌≡◌, inl, inr, true, false, ◌==◌, count_below, arith, Bool-cases,
}
use connected_homa.Pool.{
  Bpage, Pool, Caller, limit_of, is_available, has_owner, taken, take_page, set_candidate,
}
use connected_homa.Pool.Count.{is_free, bit, count_below-update, count_below-le, find_below}

-- While `missing` pages are to be found: `free_bpages` counts the free pages but for these, and a page
-- with an owner is in use.
pub record Reserved (pool : Pool) (missing : ℕ) : Type 0 where
  pub free :
      count_below (λ i. is_free (pool.descriptors i)) pool.num_bpages ≡ pool.free_bpages + missing
  pub owned : (i : ℕ) → has_owner (pool.descriptors i) ≡ true → is_free (pool.descriptors i) ≡ false

pub set_candidate-Reserved :
    (core n : ℕ) (pool : Pool) (missing : ℕ)
    → Reserved pool missing
    → Reserved (set_candidate core n pool) missing
set_candidate-Reserved core n pool missing r = record { free = r.free; owned = r.owned }

taken-bits :
    (caller : Caller) (page : Bpage)
    → is_available caller.now page ≡ true
    → (has_owner page ≡ true → is_free page ≡ false)
    → (is_free (taken caller page) ≡ false) × (bit (has_owner page) + bit (is_free page) ≡ 1)
unfolding is_available
taken-bits caller page a h = ground (arith, h)

pub take_page-Reserved :
    (caller : Caller) (cur : ℕ) (pool : Pool) (missing : ℕ)
    → Reserved pool (suc missing)
    → cur < pool.num_bpages
    → is_available caller.now (pool.descriptors cur) ≡ true
    → Reserved (take_page caller cur pool) missing
unfolding take_page
take_page-Reserved caller cur pool missing r h a =
    let page = pool.descriptors cur in
    let bits = taken-bits caller page a (r.owned cur) in
    record {
      free = ground (
        arith,
        count_below-update pool.descriptors cur (taken caller page) pool.num_bpages,
        r.free,
      );
      owned = λ i o. elim (Bool-cases (i == cur)) [
        | inl here ↦ ground arith
        | inr there ↦ ground (arith, r.owned i)
      ];
    }

-- A free page lies below the limit.
pub limit_of-free :
    (pool : Pool) (missing : ℕ)
    → Reserved pool (suc missing)
    → (limit_of pool ≤ pool.num_bpages)
      × ((j : ℕ) × (j < limit_of pool) × (is_free (pool.descriptors j) ≡ true))
unfolding limit_of
limit_of-free pool missing r =
    let test = λ (i : ℕ). is_free (pool.descriptors i) in
    let total = count_below-le test 0 pool.num_bpages (omega arith) in
    let bound : limit_of pool ≤ pool.num_bpages = ground arith in
    let below = count_below-le test (limit_of pool) pool.num_bpages bound in
    (
      bound,
      elim (find_below test (limit_of pool)) [
        | inl found ↦ found
        | inr none_left ↦ absurd (ground (arith, r.free))
      ],
    )

pub free-available : (now : ℕ) (page : Bpage) → is_free page ≡ true → is_available now page ≡ true
unfolding is_available
free-available now page h = ground arith
