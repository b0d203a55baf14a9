-- ===== src/Buffers/Owned.antt =====
-- The last chunk of a message, case by case: a new page, the page that the core owns, and giving that up.
use connected_homa.Prelude.{
  ℕ, ◌+◌, ◌-◌, ◌/◌, ◌%◌, ◌≤◌, ◌<◌, ◌≡◌, ◌≢◌, refl, ap, sym, subst, ◌∙◌, ◌⊎◌, inl, inr, false, none,
  some, List, [], ◌∷◌, ◌++◌, ◌==◌, update, arith, Bool-cases,
}
use connected_homa.Pool.{
  Bpage, Core, Pool, Caller, Pages, got, no_space, stuck, bpage_size, homa_pool_get_pages,
}
use connected_homa.Pool.Account.{homa_pool_get_pages-Finds}
use connected_homa.Pool.Count.{count_below-update}
use connected_homa.Buffers.{allocated, set_core, use_hint, new_page, offset_of}
use connected_homa.Buffers.Chunks.{Chunk, Bounded, Sound}
use connected_homa.Buffers.Take.{Finds-Took}
use connected_homa.Buffers.Partial.{one_more-Sound, Fresh, start_page-Sound}

-- The chunk of `size` bytes whose place in the region is `base`.
abbrev pub chunk_at : ℕ → ℕ → Chunk
chunk_at base size = record { page = base / bpage_size; start = base % bpage_size; size = size }

-- What `allocate_partial` promises.
abbrev pub Added : Pool → List Chunk → List ℕ → ℕ → List ℕ → Type 0
Added pool chunks offsets size offsets' =
    (base : ℕ) × (offsets' ≡ offsets ++ base ∷ []) × Sound pool (chunk_at base size ∷ chunks) 0

pub chunk_at-offset :
    (page start size : ℕ)
    → start < bpage_size
    → chunk_at (start + offset_of page) size ≡ record { page = page; start = start; size = size }
chunk_at-offset page start size h = ground arith

pub reserve-Sound :
    (pool : Pool) (chunks : List Chunk) (n : ℕ)
    → Sound pool chunks 0
    → n ≤ pool.free_bpages
    → Sound (record pool { free_bpages = pool.free_bpages - n }) chunks n
reserve-Sound pool chunks n s h = record {
  refs = s.refs;
  free = omega (arith, s.free);
  apart = s.apart;
  inside = s.inside;
  owned = s.owned;
}

pub Pages-cases :
    (r : Pages)
    → (r ≡ no_space) ⊎ (r ≡ stuck) ⊎ ((pool : Pool) × (pages : List ℕ) × (r ≡ got pool pages))
Pages-cases no_space = inl refl
Pages-cases stuck = inr (inl refl)
Pages-cases (got pool pages) = inr (inr (pool, pages, refl))

-- The pool after `use_hint`.
abbrev pub hinted : ℕ → ℕ → Pool → Pool
hinted core size pool =
    let c = pool.cores core in set_core core (record c { allocated = c.allocated + size }) pool

use_hint-allocated :
    (core size : ℕ) (offsets offsets' : List ℕ) (pool pool' : Pool)
    → use_hint core size offsets pool ≡ allocated pool' offsets'
    → (hinted core size pool ≡ pool')
      × (offsets'
          ≡ offsets ++ ((pool.cores core).allocated + offset_of (pool.cores core).page_hint) ∷ [])
unfolding use_hint
use_hint-allocated core size offsets offsets' pool pool' e = (ground arith, ground arith)

pub use_hint-Added :
    (core size page start : ℕ) (offsets offsets' : List ℕ) (pool pool' : Pool) (chunks : List Chunk)
    → use_hint core size offsets pool ≡ allocated pool' offsets'
    → (pool.cores core).page_hint ≡ page
    → (pool.cores core).allocated ≡ start
    → start < bpage_size
    → Sound (hinted core size pool) (record { page = page; start = start; size = size } ∷ chunks) 0
    → Added pool' chunks offsets size offsets'
use_hint-Added core size page start offsets offsets' pool pool' chunks e h a b s =
    let (same, list) = use_hint-allocated core size offsets offsets' pool pool' e in
    let base = (pool.cores core).allocated + offset_of (pool.cores core).page_hint in
    let place : base ≡ start + offset_of page = omega arith in
    let at : chunk_at base size ≡ record { page = page; start = start; size = size } =
      ap (λ k. chunk_at k size) place ∙ chunk_at-offset page start size b in
    (
      base,
      list,
      subst (λ p. Sound p (chunk_at base size ∷ chunks) 0) same
          (subst (λ c. Sound (hinted core size pool) (c ∷ chunks) 0) (sym at) s),
    )

pub new_page-Sound :
    (caller : Caller) (time size : ℕ) (offsets offsets' : List ℕ) (pool pool' : Pool)
    (chunks : List Chunk)
    → Sound pool chunks 0
    → caller.lease_end ≡ some time
    → ((i : ℕ) → (pool.descriptors i).owner ≢ some caller.core)
    → size ≤ bpage_size
    → new_page caller size offsets pool ≡ allocated pool' offsets'
    → Added pool' chunks offsets size offsets'
unfolding new_page
new_page-Sound caller time size offsets offsets' pool pool' chunks s l mine fits e =
    elim (Pages-cases (homa_pool_get_pages caller 1 pool)) [
      | inl short ↦ absurd (cc (rw (short, new_page) at e))
      | inr (inl dry) ↦ absurd (cc (rw (dry, new_page) at e))
      | inr (inr (p, pages, f)) ↦
          let core = caller.core in
          let (finds, enough) = homa_pool_get_pages-Finds caller 1 pool p pages f in
          let (cur, t) = Finds-Took caller finds refl in
          let q : Pool =
            set_core core (record (p.cores core) { page_hint = cur; allocated = 0 }) p in
          let g : Fresh caller (record pool { free_bpages = pool.free_bpages - 1 })
              (hinted core size q) cur size =
            record {
              descriptors = t.descriptors;
              free = t.free;
              num = t.num;
              hint = ground arith;
              allocated = ground arith;
              others = λ c o. ground (arith, t.hints c);
            } in
          let reserved = reserve-Sound pool chunks 1 s enough in
          let one : homa_pool_get_pages caller 1 pool ≡ got p (cur ∷ []) =
            f ∙ ap (λ k. got p k) t.one in
          use_hint-Added core size cur 0 offsets offsets' q pool' chunks (rw (one, new_page) at e)
            (ground arith) (ground arith) (omega arith)
            (start_page-Sound caller (record pool { free_bpages = pool.free_bpages - 1 })
              (hinted core size q) chunks cur size time reserved g l t.available mine t.bound fits)
    ]

-- A core that does not own the page of its hint owns none.
pub owns_none :
    (pool : Pool) (chunks : List Chunk) (core : ℕ)
    → Sound pool chunks 0
    → (pool.descriptors (pool.cores core).page_hint).owner ≢ some core
    → (i : ℕ) → (pool.descriptors i).owner ≢ some core
owns_none pool chunks core s h i e =
    h (ap (λ k. (pool.descriptors k).owner) (s.owned i core e).0 ∙ e)

abbrev pub with_page : Pool → ℕ → Bpage → Pool
with_page pool i page = record pool { descriptors = update pool.descriptors i page }

abbrev pub leased : ℕ → Bpage → Bpage
leased time page = record page { refs = page.refs + 1; expiration = time }

abbrev pub disowned : Bpage → Bpage
disowned page = record page { refs = page.refs - 1; owner = none }

module _ (core time size : ℕ) (pool : Pool) (chunks : List Chunk) (s : Sound pool chunks 0) where
  abbrev hint : ℕ
  hint = (pool.cores core).page_hint

  abbrev mine : Bpage
  mine = pool.descriptors hint

  -- The owned page has room behind `start`.
  pub stay-Sound :
      (q : Pool) (start : ℕ)
      → mine.owner ≡ some core
      → q.descriptors ≡ update pool.descriptors hint (leased time mine)
      → q.free_bpages ≡ pool.free_bpages
      → q.num_bpages ≡ pool.num_bpages
      → (q.cores core).page_hint ≡ hint
      → (q.cores core).allocated ≡ start
      → ((c : ℕ) → (c == core) ≡ false → q.cores c ≡ pool.cores c)
      → Bounded hint start chunks
      → start + size ≤ bpage_size
      → Sound (hinted core size q) (record { page = hint; start = start; size = size } ∷ chunks) 0
  stay-Sound q start o d f n h a others b fits =
      one_more-Sound pool (hinted core size q) chunks core hint start size s
        (record {
          page = leased time mine;
          descriptors = d;
          refs = refl;
          owner = o;
          free = f;
          num = n;
          hint = ground arith;
          allocated = ground arith;
          others = λ c e.
              let same = others c e in
              (
                ground (arith, ap (λ (k : Core). k.page_hint) same),
                ground (arith, ap (λ (k : Core). k.allocated) same),
              );
        })
        o b fits

  pub disowned-Sound :
      mine.owner ≡ some core
      → (mine.refs == 1) ≡ false
      → Sound (with_page pool hint (disowned mine)) chunks 0
  disowned-Sound o many = record {
    refs = λ i. elim (Bool-cases (i == hint)) [
      | inl here ↦ ground (arith, s.refs hint)
      | inr there ↦ ground (arith, s.refs i)
    ];
    free = ground (
      arith,
      count_below-update pool.descriptors hint (disowned mine) pool.num_bpages,
      s.refs hint,
      s.free,
      s.owned hint core o,
    );
    apart = s.apart;
    inside = s.inside;
    owned = λ i c e. elim (Bool-cases (i == hint)) [
      | inl here ↦ absurd (ground arith)
      | inr there ↦ s.owned i c (ground arith)
    ];
  }

  pub disowned-none :
      (i : ℕ) → ((with_page pool hint (disowned mine)).descriptors i).owner ≢ some core
  disowned-none i e = elim (Bool-cases (i == hint)) [
    | inl here ↦ absurd (ground arith)
    | inr there ↦ ground (arith, s.owned i core)
  ]
