-- ===== src/Buffers/Release.antt =====
-- Giving buffers back, and finding a byte of a message in them.
use connected_homa.Prelude.{
  ℕ, zero, suc, ◌+◌, ◌-◌, ◌/◌, ◌%◌, ◌≤◌, ◌<◌, ◌≡◌, refl, ap, sym, subst, ◌∙◌, ◌⊎◌, inl, inr, true,
  some, List, [], ◌∷◌, ◌++◌, ltb, ◌==◌, if◌then◌else◌, arith, Bool-cases, length, get_elem?,
}
use mathlib.Core.List.{append_assoc}
use connected_homa.Pool.{Bpage, Pool, bpage_size}
use connected_homa.Pool.Count.{bit, count_below-update}
use connected_homa.Buffers.{
  release_buffer, release_all, homa_pool_release_buffers, homa_pool_get_buffer, pages_for,
}
use connected_homa.Buffers.Chunks.{Chunk, on_page, Clear, Apart, Bounded, Inside, Sound}
use connected_homa.Buffers.Owned.{chunk_at}
use connected_homa.Buffers.Allocate.{hold}

module _ (c : Chunk) (ys : List Chunk) where
  on_page-remove :
      (i : ℕ) (xs : List Chunk)
      → on_page i (xs ++ c ∷ ys) ≡ on_page i (xs ++ ys) + bit (c.page == i)
  on_page-remove i [] = omega arith
  on_page-remove i (x ∷ xs) = omega (arith, on_page-remove i xs)

  Clear-remove : (x : Chunk) (xs : List Chunk) → Clear x (xs ++ c ∷ ys) → Clear x (xs ++ ys)
  Clear-remove x [] h = h.1
  Clear-remove x (y ∷ xs) h = (h.0, Clear-remove x xs h.1)

  Apart-remove : (xs : List Chunk) → Apart (xs ++ c ∷ ys) → Apart (xs ++ ys)
  Apart-remove [] h = h.1
  Apart-remove (x ∷ xs) h = (Clear-remove x xs h.0, Apart-remove xs h.1)

  Inside-remove :
      (num : ℕ) (xs : List Chunk)
      → Inside num (xs ++ c ∷ ys)
      → Inside num (xs ++ ys) × (c.page < num)
  Inside-remove num [] h = (h.2, h.0)
  Inside-remove num (x ∷ xs) h = let rest = Inside-remove num xs h.2 in ((h.0, h.1, rest.0), rest.1)

  Bounded-remove :
      (i top : ℕ) (xs : List Chunk) → Bounded i top (xs ++ c ∷ ys) → Bounded i top (xs ++ ys)
  Bounded-remove i top [] h = h.1
  Bounded-remove i top (x ∷ xs) h = (h.0, Bounded-remove i top xs h.1)

  -- A chunk that is released is gone, and nothing else changes.
  release_buffer-Sound :
      (base : ℕ) (pool : Pool) (xs : List Chunk)
      → base / bpage_size ≡ c.page
      → Sound pool (xs ++ c ∷ ys) 0
      → Sound (release_buffer base pool).0 (xs ++ ys) 0 × ((release_buffer base pool).1 ≡ true)
  unfolding release_buffer
  release_buffer-Sound base pool xs at s =
      let index = base / bpage_size in
      let page = pool.descriptors index in
      let page' : Bpage = record page { refs = page.refs - 1 } in
      let (inside, bound) = Inside-remove pool.num_bpages xs s.inside in
      let counted = on_page-remove index xs in
      let valid : ltb index pool.num_bpages ≡ true = ground arith in
      rw valid (
        record {
          refs = λ i. elim (Bool-cases (i == index)) [
            | inl here ↦ ground (arith, s.refs i, on_page-remove i xs)
            | inr there ↦ ground (arith, s.refs i, on_page-remove i xs)
          ];
          free = ground (
            arith,
            count_below-update pool.descriptors index page' pool.num_bpages,
            s.refs index,
            counted,
            s.free,
          );
          apart = Apart-remove xs s.apart;
          inside = inside;
          owned = λ i core e. elim (Bool-cases (i == index)) [
            | inl here ↦
                let same : index ≡ i = ground arith in
                let old =
                  s.owned i core (ground (arith, ap (λ k. (pool.descriptors k).owner) same)) in
                (old.0, old.1, old.2, Bounded-remove i (pool.cores core).allocated xs old.3)
            | inr there ↦
                let old = s.owned i core (ground arith) in
                (old.0, old.1, old.2, Bounded-remove i (pool.cores core).allocated xs old.3)
          ];
        },
        refl,
      )

pub hold-append :
    (len : ℕ) (offsets : List ℕ) (xs ys : List Chunk)
    → hold len offsets (xs ++ ys) ≡ hold len offsets xs ++ ys
hold-append len [] xs ys = refl
hold-append len (base ∷ offsets) xs ys =
    hold-append (len - bpage_size) offsets
      (chunk_at base (if ltb len bpage_size then len else bpage_size) ∷ xs) ys

release_all-Sound :
    (len : ℕ) (offsets : List ℕ) (pool : Pool) (before chunks : List Chunk)
    → Sound pool (before ++ hold len offsets chunks) 0
    → Sound (release_all offsets pool true).0 (before ++ chunks) 0
      × ((release_all offsets pool true).1 ≡ true)
unfolding release_all
release_all-Sound len [] pool before chunks s = (s, refl)
release_all-Sound len (base ∷ offsets) pool before chunks s =
    let c = chunk_at base (if ltb len bpage_size then len else bpage_size) in
    let rest = len - bpage_size in
    let later = before ++ hold rest offsets [] in
    let split : (ys : List Chunk) → before ++ hold rest offsets ys ≡ later ++ ys = λ ys.
      ap (λ l. before ++ l) (hold-append rest offsets [] ys)
      ∙ sym (append_assoc before (hold rest offsets []) ys) in
    let (fewer, valid) =
      release_buffer-Sound c chunks base pool later refl
        (subst (λ l. Sound pool l 0) (split (c ∷ chunks)) s) in
    rw (valid, release_all)
      (release_all-Sound rest offsets (release_buffer base pool).0 before chunks
        (subst (λ l. Sound (release_buffer base pool).0 l 0) (sym (split chunks)) fewer))

-- Releasing the buffers of a message that holds them succeeds, in a pool that is set up, and leaves the
-- invariant with the chunks of the other messages.
pub homa_pool_release_buffers-Sound :
    (len region : ℕ) (offsets : List ℕ) (pool : Pool) (before chunks : List Chunk)
    → pool.region ≡ some region
    → Sound pool (before ++ hold len offsets chunks) 0
    → Sound (homa_pool_release_buffers offsets pool).0 (before ++ chunks) 0
      × ((homa_pool_release_buffers offsets pool).1 ≡ true)
unfolding homa_pool_release_buffers
homa_pool_release_buffers-Sound len region offsets pool before chunks set s =
    rw (set, homa_pool_release_buffers) (release_all-Sound len offsets pool before chunks s)

get_elem?-some :
    (offsets : List ℕ) (i : ℕ) → i < length offsets → (base : ℕ) × (get_elem? offsets i ≡ some base)
get_elem?-some [] i h = absurd (omega arith)
get_elem?-some (base ∷ offsets) zero h = (base, refl)
get_elem?-some (base ∷ offsets) (suc i) h = get_elem?-some offsets i (omega arith)

-- For a message with as many buffers as its length asks for, `homa_pool_get_buffer` finds every byte of
-- it: in the buffer with the index `offset / HOMA_BPAGE_SIZE`, with a positive number of bytes
-- available, which lie within the message and end where that buffer's part of the message ends.
homa_pool_get_buffer-within :
    (len offset : ℕ) (offsets : List ℕ)
    → length offsets ≡ pages_for len
    → offset < len
    → (base : ℕ) × (place : ℕ) × (available : ℕ) × (get_elem? offsets (offset / bpage_size)
        ≡ some base)
      × (homa_pool_get_buffer len offsets offset ≡ some (place, available))
      × (0 < available)
      × (place ≡ base + offset % bpage_size)
      × (place + available ≤ base + bpage_size)
      × ((offset + available ≡ len) ⊎ (place + available ≡ base + bpage_size))
      × (offset + available ≤ len)
unfolding homa_pool_get_buffer
homa_pool_get_buffer-within len offset offsets n h =
    let index = offset / bpage_size in
    let inner = offset % bpage_size in
    let (base, e) = get_elem?-some offsets index (omega arith) in
    elim (Bool-cases (ltb (index + 1) (length offsets))) [
      | inl more ↦ (
        base,
        base + inner,
        bpage_size - inner,
        e,
        rw (e, more, homa_pool_get_buffer) refl,
        omega arith,
        refl,
        omega arith,
        inr (omega arith),
        ground arith,
      )
      | inr last ↦ (
        base,
        base + inner,
        len - offset,
        e,
        rw (e, last, homa_pool_get_buffer) refl,
        omega arith,
        refl,
        ground arith,
        inl (omega arith),
        omega arith,
      )
    ]
