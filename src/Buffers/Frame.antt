-- ===== src/Buffers/Frame.antt =====
-- What an allocation leaves alone.
use connected_homa.Prelude.{
  ℕ, ◌+◌, ◌/◌, ◌%◌, ◌≡◌, refl, ap, sym, ◌∙◌, inl, inr, Option, none, some, List, [], ◌∷◌, map, ltb,
  ◌==◌, Bool-cases, Option-cases,
}
use connected_homa.Pool.{Pool, Caller, got, bpage_size, take_page, homa_pool_get_pages}
use connected_homa.Pool.Account.{Finds, done, move, take, homa_pool_get_pages-Finds}
use connected_homa.Buffers.{
  Allocation, no_pool, no_room, allocated, endless, use_hint, new_page, allocate_partial, finish,
  take_buffers, offset_of,
}
use connected_homa.Buffers.Owned.{Pages-cases, with_page, disowned}
use connected_homa.Buffers.Allocate.{owns}

-- Whether the pool is set up, and `bpages_needed`, stay as they are; only a pool that is not set up is
-- refused as such.
abbrev pub Keeps : Option ℕ → Option ℕ → Allocation → Type 0
Keeps needed region (allocated pool offsets) =
    (pool.bpages_needed ≡ needed) × (pool.region ≡ region)
Keeps needed region (no_room pool) = Unit {0}
Keeps needed region no_pool = region ≡ none
Keeps needed region endless = Unit {0}

Keeps-as :
    (needed needed' region region' : Option ℕ) (result : Allocation)
    → (needed' ≡ needed) × (region' ≡ region)
    → Keeps needed' region' result
    → Keeps needed region result
Keeps-as needed needed' region region' (allocated p offsets) e (n, r) = (n ∙ e.0, r ∙ e.1)
Keeps-as needed needed' region region' (no_room p) e k = tt
Keeps-as needed needed' region region' no_pool e k = sym e.1 ∙ k
Keeps-as needed needed' region region' endless e k = tt

Finds-kept :
    (caller : Caller) {missing : ℕ} {pool pool' : Pool} {pages : List ℕ}
    → Finds caller missing pool pool' pages
    → (pool'.bpages_needed ≡ pool.bpages_needed) × (pool'.region ≡ pool.region)
unfolding take_page
Finds-kept caller (done pool pool' pages e f) =
    (ap (λ (p : Pool). p.bpages_needed) (sym e), ap (λ (p : Pool). p.region) (sym e))
Finds-kept caller (move n missing pool pool' pages f) =
    let kept = Finds-kept caller f in (kept.0, kept.1)
Finds-kept caller (take cur missing pool pool' pages rest h a f e) =
    let kept = Finds-kept caller f in (kept.0, kept.1)

get_pages-kept :
    (caller : Caller) (n : ℕ) (pool pool' : Pool) (pages : List ℕ)
    → homa_pool_get_pages caller n pool ≡ got pool' pages
    → (pool'.bpages_needed ≡ pool.bpages_needed) × (pool'.region ≡ pool.region)
get_pages-kept caller n pool pool' pages e =
    Finds-kept caller (homa_pool_get_pages-Finds caller n pool pool' pages e).0

new_page-Keeps :
    (caller : Caller) (size : ℕ) (offsets : List ℕ) (pool : Pool)
    → Keeps pool.bpages_needed pool.region (new_page caller size offsets pool)
unfolding new_page use_hint
new_page-Keeps caller size offsets pool = elim (Pages-cases (homa_pool_get_pages caller 1 pool)) [
  | inl e ↦ rw (e, new_page) tt
  | inr (inl e) ↦ rw (e, new_page) tt
  | inr (inr (p, [], e)) ↦ rw (e, new_page) tt
  | inr (inr (p, (page ∷ pages), e)) ↦
      rw (e, new_page) (get_pages-kept caller 1 pool p (page ∷ pages) e)
]

allocate_partial-Keeps :
    (core now time size : ℕ) (offsets : List ℕ) (pool : Pool)
    → Keeps pool.bpages_needed pool.region (allocate_partial core now time size offsets pool)
unfolding allocate_partial use_hint
allocate_partial-Keeps core now time size offsets pool =
    let c = pool.cores core in
    let page = pool.descriptors c.page_hint in
    let caller : Caller = record { core = core; now = now; lease_end = some time } in
    elim (Bool-cases (owns page.owner core)) [
      | inr other ↦ rw (other, allocate_partial) (new_page-Keeps caller size offsets pool)
      | inl own ↦ elim (Bool-cases (ltb bpage_size (c.allocated + size))) [
        | inr room ↦ rw (own, room, allocate_partial) (refl, refl)
        | inl full ↦ elim (Bool-cases (page.refs == 1)) [
          | inl alone ↦ rw (own, full, alone, allocate_partial) (refl, refl)
          | inr many ↦
              rw (own, full, many, allocate_partial)
                (new_page-Keeps caller size offsets (with_page pool c.page_hint (disowned page)))
        ]
      ]
    ]

finish-Keeps :
    (core now time size : ℕ) (offsets : List ℕ) (pool : Pool)
    → Keeps pool.bpages_needed pool.region (finish core now time size offsets pool)
unfolding finish
finish-Keeps core now time size offsets pool = elim (Bool-cases (size == 0)) [
  | inl whole_only ↦ rw (whole_only, finish) (refl, refl)
  | inr more ↦ rw (more, finish) (allocate_partial-Keeps core now time size offsets pool)
]

pub take_buffers-Keeps :
    (core now lease_end len : ℕ) (pool : Pool)
    → Keeps pool.bpages_needed pool.region (take_buffers core now lease_end len pool)
unfolding take_buffers
take_buffers-Keeps core now lease_end len pool =
    let caller : Caller = record { core = core; now = now; lease_end = none } in
    let full = len / bpage_size in
    let partial = len % bpage_size in
    elim (Option-cases pool.region) [
      | inl unset ↦ rw (unset, take_buffers) refl
      | inr (region, set) ↦ elim (Bool-cases (full == 0)) [
        | inl small ↦
            rw (set, small, take_buffers)
              (Keeps-as pool.bpages_needed pool.bpages_needed (some region) pool.region
                (finish core now lease_end partial [] pool) (refl, set)
                (finish-Keeps core now lease_end partial [] pool))
        | inr large ↦ elim (Pages-cases (homa_pool_get_pages caller full pool)) [
          | inl e ↦ rw (set, large, e, take_buffers) tt
          | inr (inl e) ↦ rw (set, large, e, take_buffers) tt
          | inr (inr (p, pages, e)) ↦
              let offsets = map offset_of pages in
              let kept = get_pages-kept caller full pool p pages e in
              rw (set, large, e, take_buffers)
                (Keeps-as pool.bpages_needed p.bpages_needed (some region) p.region
                  (finish core now lease_end partial offsets p) (kept.0, kept.1 ∙ set)
                  (finish-Keeps core now lease_end partial offsets p))
        ]
      ]
    ]
