-- ===== src/Buffers/Partial.antt =====
-- The last chunk of a message, in a page that the core owns, keeps the chunks apart.
use connected_homa.Prelude.{
  ℕ, ◌+◌, ◌≤◌, ◌<◌, ◌≡◌, ◌≢◌, ap, sym, subst, ◌∙◌, inl, inr, true, false, some, List, ◌∷◌, ◌==◌,
  update, count_below, arith, Bool-cases,
}
use connected_homa.Pool.{Bpage, Pool, Caller, bpage_size, is_available, taken, take_page}
use connected_homa.Pool.Count.{is_free, count_below-update}
use connected_homa.Pool.Reserve.{take_page-Reserved}
use connected_homa.Buffers.Chunks.{
  Chunk, Bounded, Inside, Sound, Clear-empty, Bounded-empty, Bounded-le, Bounded-Clear,
  Sound-Reserved, available-empty,
}

-- The pool `p` after a chunk of `size` bytes at `top` has been put in page `h` of `core`.
pub record Grown (pool p : Pool) (core h top size : ℕ) : Type 0 where
  pub page : Bpage
  pub descriptors : p.descriptors ≡ update pool.descriptors h page
  pub refs : page.refs ≡ (pool.descriptors h).refs + 1
  pub owner : page.owner ≡ some core
  pub free : p.free_bpages ≡ pool.free_bpages
  pub num : p.num_bpages ≡ pool.num_bpages
  pub hint : (p.cores core).page_hint ≡ h
  pub allocated : (p.cores core).allocated ≡ top + size
  pub others :
      (c : ℕ)
      → (c == core) ≡ false
      → ((p.cores c).page_hint ≡ (pool.cores c).page_hint)
        × ((p.cores c).allocated ≡ (pool.cores c).allocated)

abbrev pub Owns : Pool → List Chunk → ℕ → ℕ → Type 0
Owns p chunks i c =
    ((p.cores c).page_hint ≡ i)
    × ((p.cores c).allocated ≤ bpage_size)
    × (i < p.num_bpages)
    × Bounded i (p.cores c).allocated chunks

module _ (pool p : Pool) (chunks : List Chunk) (core h top size : ℕ) where
  abbrev chunk : Chunk
  chunk = record { page = h; start = top; size = size }

  owned_with_one_more :
      Sound pool chunks 0
      → Grown pool p core h top size
      → (pool.descriptors h).owner ≡ some core
      → Bounded h top chunks
      → top + size ≤ bpage_size
      → (i c : ℕ) → (p.descriptors i).owner ≡ some c
      → Owns p (chunk ∷ chunks) i c
  owned_with_one_more s g o b fits i c e =
      let at = ap (λ (f : ℕ → Bpage). f i) g.descriptors in
      let mine = s.owned h core o in
      elim (Bool-cases (i == h)) [
        | inl here ↦
            let same : core ≡ c = ground (arith, at, g.owner) in
            let place : h ≡ i = ground arith in
            let owns : Owns p (chunk ∷ chunks) h core = (
              g.hint,
              omega (arith, g.allocated),
              omega (arith, g.num, mine.2),
              (
                inr (omega (arith, g.allocated)),
                Bounded-le h top (p.cores core).allocated chunks (omega (arith, g.allocated)) b,
              ),
            ) in
            subst (λ k. Owns p (chunk ∷ chunks) i k) same
              (subst (λ j. Owns p (chunk ∷ chunks) j core) place owns)
        | inr there ↦
            let before : (pool.descriptors i).owner ≡ some c = ground (arith, at) in
            let old = s.owned i c before in
            elim (Bool-cases (c == core)) [
              | inl here ↦
                  let same : c ≡ core = ground arith in
                  absurd (ground (arith, ap (λ k. (pool.cores k).page_hint) same, old.0, mine.0))
              | inr other ↦
                  let frame = g.others c other in
                  (
                    frame.0 ∙ old.0,
                    omega (arith, frame.1, old.1),
                    omega (arith, g.num, old.2),
                    (
                      inl (λ same. ground arith),
                      Bounded-le i (pool.cores c).allocated (p.cores c).allocated chunks
                          (omega (arith, frame.1)) old.3,
                    ),
                  )
            ]
      ]

  free_with_one_more :
      Sound pool chunks 0
      → Grown pool p core h top size
      → (pool.descriptors h).owner ≡ some core
      → count_below (λ i. is_free (p.descriptors i)) p.num_bpages ≡ p.free_bpages + 0
  free_with_one_more s g o =
      let mine = s.owned h core o in
      let counted : count_below (λ i. is_free (p.descriptors i)) p.num_bpages
          ≡ count_below (λ i. is_free (update pool.descriptors h g.page i)) pool.num_bpages =
        ap (λ (f : ℕ → Bpage). count_below (λ i. is_free (f i)) p.num_bpages) g.descriptors
        ∙ ap (λ n. count_below (λ i. is_free (update pool.descriptors h g.page i)) n) g.num in
      ground (
        arith,
        counted,
        count_below-update pool.descriptors h g.page pool.num_bpages,
        g.refs,
        s.refs h,
        g.free,
        s.free,
        mine.2,
      )

  -- So the chunk can be added.
  pub one_more-Sound :
      Sound pool chunks 0
      → Grown pool p core h top size
      → (pool.descriptors h).owner ≡ some core
      → Bounded h top chunks
      → top + size ≤ bpage_size
      → Sound p (chunk ∷ chunks) 0
  one_more-Sound s g o b fits =
      let mine = s.owned h core o in
      record {
        refs = λ i.
            let at = ap (λ (f : ℕ → Bpage). f i) g.descriptors in
            elim (Bool-cases (i == h)) [
              | inl here ↦ ground (arith, at, s.refs i, g.refs, g.owner)
              | inr there ↦ ground (arith, at, s.refs i)
            ];
        free = free_with_one_more s g o;
        apart = (Bounded-Clear h top size chunks b, s.apart);
        inside =
            (omega (arith, g.num, mine.2), fits, subst (λ n. Inside n chunks) (sym g.num) s.inside);
        owned = owned_with_one_more s g o b fits;
      }

-- The pool `p` after `caller` has taken page `cur` of `pool` as its own and put a chunk in it.
pub record Fresh (caller : Caller) (pool p : Pool) (cur size : ℕ) : Type 0 where
  pub descriptors :
      p.descriptors ≡ update pool.descriptors cur (taken caller (pool.descriptors cur))
  pub free : p.free_bpages ≡ (take_page caller cur pool).free_bpages
  pub num : p.num_bpages ≡ pool.num_bpages
  pub hint : (p.cores caller.core).page_hint ≡ cur
  pub allocated : (p.cores caller.core).allocated ≡ size
  pub others :
      (c : ℕ)
      → (c == caller.core) ≡ false
      → ((p.cores c).page_hint ≡ (pool.cores c).page_hint)
        × ((p.cores c).allocated ≡ (pool.cores c).allocated)

module _ (caller : Caller) (pool p : Pool) (chunks : List Chunk) (cur size time : ℕ) where
  owned_after :
      Sound pool chunks 1
      → Fresh caller pool p cur size
      → caller.lease_end ≡ some time
      → is_available caller.now (pool.descriptors cur) ≡ true
      → ((i : ℕ) → (pool.descriptors i).owner ≢ some caller.core)
      → cur < pool.num_bpages
      → size ≤ bpage_size
      → (i c : ℕ) → (p.descriptors i).owner ≡ some c
      → Owns p (record { page = cur; start = 0; size = size } ∷ chunks) i c
  owned_after s g l a mine h fits i c e =
      let at = ap (λ (f : ℕ → Bpage). f i) g.descriptors in
      let chunk : Chunk = record { page = cur; start = 0; size = size } in
      elim (Bool-cases (i == cur)) [
        | inl here ↦
            let same : caller.core ≡ c = ground (arith, at) in
            let place : cur ≡ i = ground arith in
            let empty = available-empty caller.now cur pool chunks 1 s a in
            let owns : Owns p (chunk ∷ chunks) cur caller.core = (
              g.hint,
              omega (arith, g.allocated),
              omega (arith, g.num),
              (
                inr (omega (arith, g.allocated)),
                Bounded-empty cur (p.cores caller.core).allocated chunks empty,
              ),
            ) in
            subst (λ k. Owns p (chunk ∷ chunks) i k) same
              (subst (λ j. Owns p (chunk ∷ chunks) j caller.core) place owns)
        | inr there ↦
            let before : (pool.descriptors i).owner ≡ some c = ground (arith, at) in
            let old = s.owned i c before in
            elim (Bool-cases (c == caller.core)) [
              | inl own ↦
                  let same : c ≡ caller.core = ground arith in
                  absurd (mine i (before ∙ ap (λ k. some k) same))
              | inr other ↦
                  let frame = g.others c other in
                  (
                    frame.0 ∙ old.0,
                    omega (arith, frame.1, old.1),
                    omega (arith, g.num, old.2),
                    (
                      inl (λ same. ground arith),
                      Bounded-le i (pool.cores c).allocated (p.cores c).allocated chunks
                          (omega (arith, frame.1)) old.3,
                    ),
                  )
            ]
      ]

  count_after :
      Fresh caller pool p cur size
      → count_below (λ i. is_free (p.descriptors i)) p.num_bpages
        ≡ count_below
            (λ i. is_free ((take_page caller cur pool).descriptors i))
            (take_page caller cur pool).num_bpages
  unfolding take_page
  count_after g =
      ap (λ (f : ℕ → Bpage). count_below (λ i. is_free (f i)) p.num_bpages) g.descriptors
      ∙ ap (λ n. count_below (λ i. is_free ((take_page caller cur pool).descriptors i)) n) g.num

  pub start_page-Sound :
      Sound pool chunks 1
      → Fresh caller pool p cur size
      → caller.lease_end ≡ some time
      → is_available caller.now (pool.descriptors cur) ≡ true
      → ((i : ℕ) → (pool.descriptors i).owner ≢ some caller.core)
      → cur < pool.num_bpages
      → size ≤ bpage_size
      → Sound p (record { page = cur; start = 0; size = size } ∷ chunks) 0
  start_page-Sound s g l a mine h fits =
      let empty = available-empty caller.now cur pool chunks 1 s a in
      let reserved = take_page-Reserved caller cur pool 0 (Sound-Reserved pool chunks 1 s) h a in
      record {
        refs = λ i.
            let at = ap (λ (f : ℕ → Bpage). f i) g.descriptors in
            elim (Bool-cases (i == cur)) [
              | inl here ↦ ground (arith, at)
              | inr there ↦ ground (arith, at, s.refs i)
            ];
        free = omega (arith, count_after g, reserved.free, g.free);
        apart = (Clear-empty cur 0 size chunks empty, s.apart);
        inside =
            (omega (arith, g.num), omega arith, subst (λ n. Inside n chunks) (sym g.num) s.inside);
        owned = owned_after s g l a mine h fits;
      }
