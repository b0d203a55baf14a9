-- ===== src/Buffers/Room.antt =====
-- An allocation ends, and fails only for want of free pages.
use connected_homa.Prelude.{
  ℕ, ◌+◌, ◌*◌, ◌/◌, ◌%◌, ◌≤◌, ◌<◌, ◌≡◌, refl, ap, sym, subst, ◌∙◌, ◌⊎◌, inl, inr, none, some, List,
  [], ◌∷◌, map, ltb, ◌==◌, arith, Bool-cases, Option-cases, length,
}
use mathlib.Core.List.{append-nil}
use connected_homa.Pool.{Pool, Caller, got, no_space, bpage_size, take_page, homa_pool_get_pages}
use connected_homa.Pool.Account.{Finds, done, move, take, homa_pool_get_pages-Finds}
use connected_homa.Pool.Search.{homa_pool_get_pages-got, homa_pool_get_pages-no_space}
use connected_homa.Buffers.{
  Allocation, no_pool, no_room, allocated, endless, use_hint, new_page, allocate_partial, finish,
  take_buffers, offset_of, pages_for, homa_pool_release_buffers,
}
use connected_homa.Buffers.Chunks.{Chunk, Sound, Sound-Reserved}
use connected_homa.Buffers.Take.{wholes, Finds-Sound, Finds-Took}
use connected_homa.Buffers.Owned.{reserve-Sound, with_page, disowned, disowned-Sound}
use connected_homa.Buffers.Allocate.{hold, hold-wholes, owns, owner_is, Finds-length}
use connected_homa.Buffers.Release.{homa_pool_release_buffers-Sound}

-- A failure leaves the chunks as they were, and there were fewer than `pages` free pages.
abbrev pub Fails : List Chunk → ℕ → ℕ → Allocation → Type 0
Fails chunks free pages endless = ⊥
Fails chunks free pages (no_room pool) = Sound pool chunks 0 × (free < pages)
Fails chunks free pages no_pool = Unit {0}
Fails chunks free pages (allocated pool offsets) = Unit {0}

-- Under the invariant, pages are handed out exactly if there are enough.
get_pages-cases :
    (caller : Caller) (n : ℕ) (pool : Pool) (chunks : List Chunk)
    → Sound pool chunks 0
    → ((homa_pool_get_pages caller n pool ≡ no_space) × (pool.free_bpages < n))
      ⊎ ((pool' : Pool) × (pages : List ℕ) × (homa_pool_get_pages caller n pool ≡ got pool' pages))
get_pages-cases caller n pool chunks s = elim (Bool-cases (ltb pool.free_bpages n)) [
  | inl short ↦ inl (homa_pool_get_pages-no_space caller n pool (ground arith), ground arith)
  | inr enough ↦
      inr (homa_pool_get_pages-got caller n pool (Sound-Reserved pool chunks 0 s) (ground arith))
]

release-wholes :
    (pages : List ℕ) (pool : Pool) (chunks : List Chunk) (region : ℕ)
    → pool.region ≡ some region
    → Sound pool (wholes pages chunks) 0
    → Sound (homa_pool_release_buffers (map offset_of pages) pool).0 chunks 0
release-wholes pages pool chunks region set s =
    let len = bpage_size * length pages in
    let held : hold len (map offset_of pages) chunks ≡ wholes pages chunks =
      ap (λ l. hold len l chunks) (sym (append-nil (map offset_of pages)))
      ∙ hold-wholes len pages [] chunks (omega arith) in
    (homa_pool_release_buffers-Sound len region (map offset_of pages) pool [] chunks set
      (subst (λ l. Sound pool l 0) (sym held) s)).0

new_page-Fails :
    (caller : Caller) (size free region : ℕ) (pages : List ℕ) (pool : Pool) (chunks : List Chunk)
    → pool.region ≡ some region
    → Sound pool (wholes pages chunks) 0
    → free ≤ pool.free_bpages + length pages
    → Fails chunks free (length pages + 1) (new_page caller size (map offset_of pages) pool)
unfolding new_page
new_page-Fails caller size free region pages pool chunks set s f =
    elim (get_pages-cases caller 1 pool (wholes pages chunks) s) [
      | inl (short, few) ↦
          rw (short, new_page) (release-wholes pages pool chunks region set s, omega arith)
      | inr (p, l, e) ↦
          let (cur, t) = Finds-Took caller (homa_pool_get_pages-Finds caller 1 pool p l e).0 refl in
          let one : homa_pool_get_pages caller 1 pool ≡ got p (cur ∷ []) =
            e ∙ ap (λ k. got p k) t.one in
          rw (one, new_page) (unfold use_hint in tt)
    ]

allocate_partial-Fails :
    (core now time size free region : ℕ) (pages : List ℕ) (pool : Pool) (chunks : List Chunk)
    → pool.region ≡ some region
    → Sound pool (wholes pages chunks) 0
    → free ≤ pool.free_bpages + length pages
    → Fails chunks free
        (length pages + 1)
        (allocate_partial core now time size (map offset_of pages) pool)
unfolding allocate_partial
allocate_partial-Fails core now time size free region pages pool chunks set s f =
    let c = pool.cores core in
    let hint = c.page_hint in
    let page = pool.descriptors hint in
    let caller : Caller = record { core = core; now = now; lease_end = some time } in
    elim (Bool-cases (owns page.owner core)) [
      | inr other ↦
          rw (other, allocate_partial)
            (new_page-Fails caller size free region pages pool chunks set s f)
      | inl own ↦ elim (Bool-cases (ltb bpage_size (c.allocated + size))) [
        | inr room ↦ rw (own, room, allocate_partial) (unfold use_hint in tt)
        | inl full ↦ elim (Bool-cases (page.refs == 1)) [
          | inl alone ↦ rw (own, full, alone, allocate_partial) (unfold use_hint in tt)
          | inr many ↦
              rw (own, full, many, allocate_partial)
                (new_page-Fails caller size free region pages (with_page pool hint (disowned page))
                  chunks set
                  (disowned-Sound core time size pool (wholes pages chunks) s
                    (owner_is page.owner core own) many)
                  f)
        ]
      ]
    ]

Finds-frame :
    (caller : Caller) {missing : ℕ} {pool pool' : Pool} {pages : List ℕ}
    → Finds caller missing pool pool' pages
    → (pool.free_bpages ≤ pool'.free_bpages) × (pool'.region ≡ pool.region)
unfolding take_page
Finds-frame caller (done pool pool' pages e f) =
    (omega (arith, ap (λ (p : Pool). p.free_bpages) e), ap (λ (p : Pool). p.region) (sym e))
Finds-frame caller (move n missing pool pool' pages f) =
    let frame = Finds-frame caller f in (frame.0, frame.1)
Finds-frame caller (take cur missing pool pool' pages rest h a f e) =
    let frame = Finds-frame caller f in (ground (arith, frame.0), frame.1)

finish-Fails :
    (core now time len free region : ℕ) (pages : List ℕ) (pool : Pool) (chunks : List Chunk)
    → pool.region ≡ some region
    → Sound pool (wholes pages chunks) 0
    → length pages ≡ len / bpage_size
    → free ≤ pool.free_bpages + length pages
    → Fails chunks free
        (pages_for len)
        (finish core now time (len % bpage_size) (map offset_of pages) pool)
unfolding finish
finish-Fails core now time len free region pages pool chunks set s n f =
    elim (Bool-cases (len % bpage_size == 0)) [
      | inl whole_only ↦ rw (whole_only, finish) tt
      | inr more ↦
          let size = len % bpage_size in
          let number : length pages + 1 ≡ pages_for len = ground arith in
          rw (more, finish)
            (subst
              (λ k.
                Fails chunks free k
                  (allocate_partial core now time size (map offset_of pages) pool))
              number
              (allocate_partial-Fails core now time size free region pages pool chunks set s f))
    ]

pub take_buffers-Fails :
    (core now lease_end len : ℕ) (pool : Pool) (chunks : List Chunk)
    → Sound pool chunks 0
    → Fails chunks pool.free_bpages (pages_for len) (take_buffers core now lease_end len pool)
unfolding take_buffers
take_buffers-Fails core now lease_end len pool chunks s =
    let caller : Caller = record { core = core; now = now; lease_end = none } in
    let full = len / bpage_size in
    elim (Option-cases pool.region) [
      | inl unset ↦ rw (unset, take_buffers) tt
      | inr (region, set) ↦ elim (Bool-cases (full == 0)) [
        | inl small ↦
            rw (set, small, take_buffers)
              (finish-Fails core now lease_end len pool.free_bpages region [] pool chunks set s
                (ground arith) (omega arith))
        | inr large ↦ elim (get_pages-cases caller full pool chunks s) [
          | inl (short, few) ↦ rw (set, large, short, take_buffers) (s, omega arith)
          | inr (p, pages, e) ↦
              let (finds, enough) = homa_pool_get_pages-Finds caller full pool p pages e in
              let taken =
                Finds-Sound caller chunks refl finds (reserve-Sound pool chunks full s enough) in
              let frame = Finds-frame caller finds in
              let number = Finds-length caller finds in
              rw (set, large, e, take_buffers)
                (finish-Fails core now lease_end len pool.free_bpages region pages p chunks
                  (frame.1 ∙ set) taken number (omega (arith, frame.0, number)))
        ]
      ]
    ]
