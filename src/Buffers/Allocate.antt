-- ===== src/Buffers/Allocate.antt =====
-- The buffers that a message gets overlap no other message's.
use connected_homa.Prelude.{
  ℕ, ◌+◌, ◌-◌, ◌*◌, ◌/◌, ◌%◌, ◌≤◌, ◌<◌, ◌≡◌, ◌≢◌, refl, ap, sym, subst, ◌∙◌, inl, inr, Bool, true,
  false, Option, none, some, List, [], ◌∷◌, ◌++◌, map, ltb, ◌==◌, if◌then◌else◌, arith, Bool-cases,
  Option-cases, length, length-append,
}
use mathlib.Core.List.{append-nil}
use connected_homa.Pool.{Pool, Caller, bpage_size, homa_pool_get_pages}
use connected_homa.Pool.Account.{Finds, done, move, take, homa_pool_get_pages-Finds}
use connected_homa.Buffers.{
  allocated, set_core, allocate_partial, finish, take_buffers, offset_of, pages_for,
}
use connected_homa.Buffers.Chunks.{Chunk, Sound, Bounded-empty, whole}
use connected_homa.Buffers.Take.{wholes, Finds-Sound}
use connected_homa.Buffers.Owned.{
  chunk_at, Added, reserve-Sound, new_page-Sound, Pages-cases, use_hint-Added, owns_none, with_page,
  leased, disowned, stay-Sound, disowned-Sound, disowned-none,
}

abbrev pub owns : Option ℕ → ℕ → Bool
owns owner core = elim owner [ none ↦ false | some o ↦ o == core ]

pub owner_is : (owner : Option ℕ) (core : ℕ) → owns owner core ≡ true → owner ≡ some core
owner_is none core e = absurd (cc)
owner_is (some o) core e = ground arith

owner_is_not : (owner : Option ℕ) (core : ℕ) → owns owner core ≡ false → owner ≢ some core
owner_is_not none core e f = cc
owner_is_not (some o) core e f = ground arith

allocate_partial-Added :
    (core now time size : ℕ) (offsets offsets' : List ℕ) (pool pool' : Pool) (chunks : List Chunk)
    → Sound pool chunks 0
    → 0 < size
    → size < bpage_size
    → allocate_partial core now time size offsets pool ≡ allocated pool' offsets'
    → Added pool' chunks offsets size offsets'
unfolding allocate_partial
allocate_partial-Added core now time size offsets offsets' pool pool' chunks s pos fits e =
    let c = pool.cores core in
    let hint = c.page_hint in
    let page = pool.descriptors hint in
    let caller : Caller = record { core = core; now = now; lease_end = some time } in
    let stay = with_page pool hint (leased time page) in
    elim (Bool-cases (owns page.owner core)) [
      | inr other ↦
          new_page-Sound caller time size offsets offsets' pool pool' chunks s refl
            (owns_none pool chunks core s (owner_is_not page.owner core other)) (omega arith)
            (rw (other, allocate_partial) at e)
      | inl own ↦
          let o = owner_is page.owner core own in
          let old = s.owned hint core o in
          elim (Bool-cases (ltb bpage_size (c.allocated + size))) [
            | inr room ↦
                use_hint-Added core size hint c.allocated offsets offsets' stay pool' chunks
                  (rw (own, room, allocate_partial) at e) refl refl (ground arith)
                  (stay-Sound core time size pool chunks s stay c.allocated o refl refl refl refl
                    refl (λ k f. refl) old.3 (ground arith))
            | inl full ↦ elim (Bool-cases (page.refs == 1)) [
              | inl alone ↦
                  let q : Pool = set_core core (record c { allocated = 0 }) stay in
                  use_hint-Added core size hint 0 offsets offsets' q pool' chunks
                    (rw (own, full, alone, allocate_partial) at e) (ground arith) (ground arith)
                    (omega arith)
                    (stay-Sound core time size pool chunks s q 0 o refl refl refl (ground arith)
                      (ground arith) (λ k f. rw f refl)
                      (Bounded-empty hint 0 chunks (ground (arith, s.refs hint))) (omega arith))
              | inr many ↦
                  new_page-Sound caller time size offsets offsets'
                    (with_page pool hint (disowned page)) pool' chunks
                    (disowned-Sound core time size pool chunks s o many) refl
                    (disowned-none core time size pool chunks s) (omega arith)
                    (rw (own, full, many, allocate_partial) at e)
            ]
          ]
    ]

-- The chunks once a message of `len` bytes holds `offsets` as well: `bpage_size` bytes at each but the
-- last, and the rest of the message there.
abbrev pub hold : ℕ → List ℕ → List Chunk → List Chunk
hold len [] chunks = chunks
hold len (base ∷ offsets) chunks =
    hold (len - bpage_size) offsets
      (chunk_at base (if ltb len bpage_size then len else bpage_size) ∷ chunks)

pub hold-wholes :
    (len : ℕ) (pages tail : List ℕ) (chunks : List Chunk)
    → bpage_size * length pages ≤ len
    → hold len (map offset_of pages ++ tail) chunks
      ≡ hold (len - bpage_size * length pages) tail (wholes pages chunks)
hold-wholes len [] tail chunks h = ap (λ n. hold n tail chunks) (omega arith)
hold-wholes len (page ∷ pages) tail chunks h =
    let size : (if ltb len bpage_size then len else bpage_size) ≡ bpage_size = ground arith in
    let at : chunk_at (offset_of page) bpage_size ≡ whole page = ground arith in
    let cell = ap (λ z. chunk_at (offset_of page) z) size ∙ at in
    ap (λ c. hold (len - bpage_size) (map offset_of pages ++ tail) (c ∷ chunks)) cell
    ∙ hold-wholes (len - bpage_size) pages tail (whole page ∷ chunks) (omega arith)
    ∙ ap (λ n. hold n tail (wholes pages (whole page ∷ chunks))) (omega arith)

pub Finds-length :
    (caller : Caller) {missing : ℕ} {pool pool' : Pool} {pages : List ℕ}
    → Finds caller missing pool pool' pages
    → length pages ≡ missing
Finds-length caller (done pool pool' pages e f) = ap (λ l. length l) f
Finds-length caller (move n missing pool pool' pages f) = Finds-length caller f
Finds-length caller (take cur missing pool pool' pages rest h a f e) =
    omega (arith, ap (λ l. length l) e, Finds-length caller f)

length-map-offset_of : (pages : List ℕ) → length (map offset_of pages) ≡ length pages
length-map-offset_of [] = refl
length-map-offset_of (page ∷ pages) = omega (arith, length-map-offset_of pages)

-- What `take_buffers` promises for a message of `len` bytes.
abbrev Placed : ℕ → Pool → List ℕ → List Chunk → Type 0
Placed len pool offsets chunks =
    Sound pool (hold len offsets chunks) 0 × (length offsets ≡ pages_for len)

finish-Placed :
    (core now time len : ℕ) (pages offsets : List ℕ) (pool pool' : Pool) (chunks : List Chunk)
    → Sound pool (wholes pages chunks) 0
    → length pages ≡ len / bpage_size
    → finish core now time (len % bpage_size) (map offset_of pages) pool ≡ allocated pool' offsets
    → Placed len pool' offsets chunks
unfolding finish
finish-Placed core now time len pages offsets pool pool' chunks s n e =
    let partial = len % bpage_size in
    let number = length-map-offset_of pages in
    elim (Bool-cases (partial == 0)) [
      | inl whole_only ↦
          let f : allocated pool (map offset_of pages) ≡ allocated pool' offsets =
            rw (whole_only, finish) at e in
          let list : offsets ≡ map offset_of pages ++ [] =
            sym (append-nil (map offset_of pages) ∙ ground arith) in
          let held : hold len offsets chunks ≡ wholes pages chunks =
            ap (λ l. hold len l chunks) list ∙ hold-wholes len pages [] chunks (omega arith) in
          let same : pool ≡ pool' = ground arith in
          (
            subst (λ l. Sound pool' l 0) (sym held)
                (subst (λ p. Sound p (wholes pages chunks) 0) same s),
            ground (arith, ap (λ l. length l) list, length-append (map offset_of pages) [], number),
          )
      | inr more ↦
          let (base, list, sound) =
            allocate_partial-Added core now time partial (map offset_of pages) offsets pool pool'
              (wholes pages chunks) s (ground arith) (omega arith) (rw (more, finish) at e) in
          let rest : len - bpage_size * length pages ≡ partial = omega arith in
          let less : (if ltb partial bpage_size then partial else bpage_size) ≡ partial =
            ground arith in
          let held : hold len offsets chunks ≡ chunk_at base partial ∷ wholes pages chunks =
            ap (λ l. hold len l chunks) list
            ∙ hold-wholes len pages (base ∷ []) chunks (omega arith)
            ∙ ap (λ k. hold k (base ∷ []) (wholes pages chunks)) rest
            ∙ ap (λ k. chunk_at base k ∷ wholes pages chunks) less in
          (
            subst (λ l. Sound pool' l 0) (sym held) sound,
            ground (
              arith,
              ap (λ l. length l) list,
              length-append (map offset_of pages) (base ∷ []),
              number,
            ),
          )
    ]

-- The invariant of the pool and of the chunks that messages hold is kept by an allocation: the chunks of
-- the new message lie in the region and overlap no other chunk, nor one another; and there are as many
-- of them as the length of the message asks for.
pub take_buffers-Sound :
    (core now lease_end len : ℕ) (pool pool' : Pool) (offsets : List ℕ) (chunks : List Chunk)
    → Sound pool chunks 0
    → take_buffers core now lease_end len pool ≡ allocated pool' offsets
    → Sound pool' (hold len offsets chunks) 0 × (length offsets ≡ pages_for len)
unfolding take_buffers
take_buffers-Sound core now lease_end len pool pool' offsets chunks s e =
    let caller : Caller = record { core = core; now = now; lease_end = none } in
    elim (Option-cases pool.region) [
      | inl unset ↦ absurd (cc (rw (unset, take_buffers) at e))
      | inr (region, set) ↦ elim (Bool-cases (len / bpage_size == 0)) [
        | inl small ↦
            finish-Placed core now lease_end len [] offsets pool pool' chunks s (ground arith)
              (rw (set, small, take_buffers) at e)
        | inr large ↦ elim (Pages-cases (homa_pool_get_pages caller (len / bpage_size) pool)) [
          | inl short ↦ absurd (cc (rw (set, large, short, take_buffers) at e))
          | inr (inl dry) ↦ absurd (cc (rw (set, large, dry, take_buffers) at e))
          | inr (inr (p, pages, f)) ↦
              let (finds, enough) =
                homa_pool_get_pages-Finds caller (len / bpage_size) pool p pages f in
              let taken =
                Finds-Sound caller chunks refl finds
                  (reserve-Sound pool chunks (len / bpage_size) s enough) in
              finish-Placed core now lease_end len pages offsets p pool' chunks taken
                (Finds-length caller finds) (rw (set, large, f, take_buffers) at e)
        ]
      ]
    ]
