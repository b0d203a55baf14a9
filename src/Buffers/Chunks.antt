-- ===== src/Buffers/Chunks.antt =====
-- Who uses what of a pool's region: the invariant of the pages, of their owners and of the chunks that
-- messages hold.
use connected_homa.Prelude.{
  ℕ, ◌+◌, ◌≤◌, ◌<◌, ◌≡◌, ◌≢◌, sym, ◌⊎◌, inl, inr, true, some, List, [], ◌∷◌, ◌==◌, count_below,
  arith, Bool-cases,
}
use connected_homa.Pool.{Pool, bpage_size, has_owner, is_available}
use connected_homa.Pool.Count.{is_free, bit}
use connected_homa.Pool.Reserve.{Reserved}

-- A part of a page that a message holds.
pub record Chunk : Type 0 where
  pub page : ℕ
  pub start : ℕ
  pub size : ℕ

abbrev pub whole : ℕ → Chunk
whole page = record { page = page; start = 0; size = bpage_size }

abbrev pub on_page : ℕ → List Chunk → ℕ
on_page i [] = 0
on_page i (c ∷ cs) = bit (c.page == i) + on_page i cs

-- `c` overlaps none of the chunks.
abbrev pub Clear : Chunk → List Chunk → Type 0
Clear c [] = Unit {0}
Clear c (d ∷ ds) =
    ((c.page ≢ d.page) ⊎ (c.start + c.size ≤ d.start) ⊎ (d.start + d.size ≤ c.start)) × Clear c ds

abbrev pub Apart : List Chunk → Type 0
Apart [] = Unit {0}
Apart (c ∷ cs) = Clear c cs × Apart cs

-- The chunks on page `i` end at `top` or before.
abbrev pub Bounded : ℕ → ℕ → List Chunk → Type 0
Bounded i top [] = Unit {0}
Bounded i top (c ∷ cs) = ((c.page ≢ i) ⊎ (c.start + c.size ≤ top)) × Bounded i top cs

abbrev pub Inside : ℕ → List Chunk → Type 0
Inside num [] = Unit {0}
Inside num (c ∷ cs) = (c.page < num) × (c.start + c.size ≤ bpage_size) × Inside num cs

-- `refs` counts the chunks of a page and its owner, `free_bpages` the pages that nothing uses but for
-- those still `missing`; chunks do not overlap and lie in the region; a core owns at most the page of
-- its `page_hint`, whose chunks lie below its `allocated`.
pub record Sound (pool : Pool) (chunks : List Chunk) (missing : ℕ) : Type 0 where
  pub refs :
      (i : ℕ) → (pool.descriptors i).refs ≡ on_page i chunks + bit (has_owner (pool.descriptors i))
  pub free :
      count_below (λ i. is_free (pool.descriptors i)) pool.num_bpages ≡ pool.free_bpages + missing
  pub apart : Apart chunks
  pub inside : Inside pool.num_bpages chunks
  pub owned :
      (i core : ℕ)
      → (pool.descriptors i).owner ≡ some core
      → ((pool.cores core).page_hint ≡ i)
        × ((pool.cores core).allocated ≤ bpage_size)
        × (i < pool.num_bpages)
        × Bounded i (pool.cores core).allocated chunks

pub Clear-empty :
    (i start size : ℕ) (cs : List Chunk)
    → on_page i cs ≡ 0
    → Clear (record { page = i; start = start; size = size }) cs
Clear-empty i start size [] e = tt
Clear-empty i start size (c ∷ cs) e = elim (Bool-cases (c.page == i)) [
  | inl here ↦ absurd (ground arith)
  | inr there ↦ (inl (λ same. ground arith), Clear-empty i start size cs (ground arith))
]

pub Bounded-empty : (i top : ℕ) (cs : List Chunk) → on_page i cs ≡ 0 → Bounded i top cs
Bounded-empty i top [] e = tt
Bounded-empty i top (c ∷ cs) e = elim (Bool-cases (c.page == i)) [
  | inl here ↦ absurd (ground arith)
  | inr there ↦ (inl (λ same. ground arith), Bounded-empty i top cs (ground arith))
]

pub Bounded-Clear :
    (i top size : ℕ) (cs : List Chunk)
    → Bounded i top cs
    → Clear (record { page = i; start = top; size = size }) cs
Bounded-Clear i top size [] b = tt
Bounded-Clear i top size (c ∷ cs) (inl other, b) =
    (inl (λ e. other (sym e)), Bounded-Clear i top size cs b)
Bounded-Clear i top size (c ∷ cs) (inr below, b) = (inr (inr below), Bounded-Clear i top size cs b)

pub Bounded-le :
    (i top top' : ℕ) (cs : List Chunk) → top ≤ top' → Bounded i top cs → Bounded i top' cs
Bounded-le i top top' [] h b = tt
Bounded-le i top top' (c ∷ cs) h (inl other, b) = (inl other, Bounded-le i top top' cs h b)
Bounded-le i top top' (c ∷ cs) h (inr below, b) = (inr (omega arith), Bounded-le i top top' cs h b)

pub Sound-Reserved :
    (pool : Pool) (chunks : List Chunk) (missing : ℕ)
    → Sound pool chunks missing
    → Reserved pool missing
Sound-Reserved pool chunks missing s = record {
  free = s.free;
  owned = λ i o. ground (arith, s.refs i);
}

-- A page that may be taken holds no chunk.
pub available-empty :
    (now i : ℕ) (pool : Pool) (chunks : List Chunk) (missing : ℕ)
    → Sound pool chunks missing
    → is_available now (pool.descriptors i) ≡ true
    → on_page i chunks ≡ 0
unfolding is_available
available-empty now i pool chunks missing s a = ground (arith, s.refs i)
