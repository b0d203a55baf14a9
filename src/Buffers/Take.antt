-- ===== src/Buffers/Take.antt =====
-- Taking pages keeps the chunks apart.
use connected_homa.Prelude.{
  ℕ, suc, ◌≤◌, ◌<◌, ◌≡◌, refl, ap, subst, ◌∙◌, inl, inr, true, none, some, List, [], ◌∷◌, ◌==◌,
  update, arith, Bool-cases,
}
use connected_homa.Pool.{Pool, Caller, bpage_size, is_available, taken, take_page, set_candidate}
use connected_homa.Pool.Account.{Finds, done, move, take}
use connected_homa.Pool.Reserve.{take_page-Reserved}
use connected_homa.Buffers.Chunks.{
  Chunk, whole, Bounded, Sound, Clear-empty, Sound-Reserved, available-empty,
}

-- The chunks after whole pages have been taken in turn.
abbrev pub wholes : List ℕ → List Chunk → List Chunk
wholes [] chunks = chunks
wholes (page ∷ pages) chunks = wholes pages (whole page ∷ chunks)

take_page-owned :
    (caller : Caller) (cur missing : ℕ) (pool : Pool) (chunks : List Chunk)
    → Sound pool chunks (suc missing)
    → caller.lease_end ≡ none
    → (i core : ℕ) → ((take_page caller cur pool).descriptors i).owner ≡ some core
    → (((take_page caller cur pool).cores core).page_hint ≡ i)
      × (((take_page caller cur pool).cores core).allocated ≤ bpage_size)
      × (i < (take_page caller cur pool).num_bpages)
      × Bounded i ((take_page caller cur pool).cores core).allocated (whole cur ∷ chunks)
unfolding take_page
take_page-owned caller cur missing pool chunks s full i core o = elim (Bool-cases (i == cur)) [
  | inl here ↦ absurd (ground arith)
  | inr there ↦
      let old = s.owned i core (ground arith) in
      (old.0, old.1, old.2, (inl (λ e. ground arith), old.3))
]

take_page-Sound :
    (caller : Caller) (cur missing : ℕ) (pool : Pool) (chunks : List Chunk)
    → Sound pool chunks (suc missing)
    → caller.lease_end ≡ none
    → cur < pool.num_bpages
    → is_available caller.now (pool.descriptors cur) ≡ true
    → Sound (take_page caller cur pool) (whole cur ∷ chunks) missing
take_page-Sound caller cur missing pool chunks s full h a =
    let empty = available-empty caller.now cur pool chunks (suc missing) s a in
    let reserved =
      take_page-Reserved caller cur pool missing (Sound-Reserved pool chunks (suc missing) s) h a in
    record {
      refs = λ i. elim (Bool-cases (i == cur)) [
        | inl here ↦ unfold take_page in ground arith
        | inr there ↦ unfold take_page in ground (arith, s.refs i)
      ];
      free = reserved.free;
      apart = (Clear-empty cur 0 bpage_size chunks empty, s.apart);
      inside = unfold take_page in (h, omega arith, s.inside);
      owned = λ i core o. take_page-owned caller cur missing pool chunks s full i core o;
    }

-- The pages' cores change in `next_candidate` only.
set_candidate-Sound :
    (core n missing : ℕ) (pool : Pool) (chunks : List Chunk)
    → Sound pool chunks missing
    → Sound (set_candidate core n pool) chunks missing
set_candidate-Sound core n missing pool chunks s = record {
  refs = s.refs;
  free = s.free;
  apart = s.apart;
  inside = s.inside;
  owned = λ i c o. elim (Bool-cases (c == core)) [
    | inl here ↦ rw here (
        subst
          (λ k.
            ((pool.cores k).page_hint ≡ i)
            × ((pool.cores k).allocated ≤ bpage_size)
            × (i < pool.num_bpages)
            × Bounded i (pool.cores k).allocated chunks)
          (ground arith) (s.owned i c o))
    | inr there ↦ rw there (s.owned i c o)
  ];
}

pub Finds-Sound :
    (caller : Caller) {missing : ℕ} {pool pool' : Pool} {pages : List ℕ} (chunks : List Chunk)
    → caller.lease_end ≡ none
    → Finds caller missing pool pool' pages
    → Sound pool chunks missing
    → Sound pool' (wholes pages chunks) 0
Finds-Sound caller chunks full (done pool pool' pages e f) s =
    rw f (subst (λ p. Sound p chunks 0) e s)
Finds-Sound caller chunks full (move n missing pool pool' pages f) s =
    Finds-Sound caller chunks full f (set_candidate-Sound caller.core n missing pool chunks s)
Finds-Sound caller chunks full (take cur missing pool pool' pages rest h a f e) s = rw e (
    Finds-Sound caller (whole cur ∷ chunks) full f
      (take_page-Sound caller cur missing pool chunks s full h a))

-- What taking one page for a core leaves in the pool, the candidates aside.
pub record Took (caller : Caller) (pool pool' : Pool) (pages : List ℕ) (cur : ℕ) : Type 0 where
  pub one : pages ≡ cur ∷ []
  pub bound : cur < pool.num_bpages
  pub available : is_available caller.now (pool.descriptors cur) ≡ true
  pub descriptors :
      pool'.descriptors ≡ update pool.descriptors cur (taken caller (pool.descriptors cur))
  pub free : pool'.free_bpages ≡ (take_page caller cur pool).free_bpages
  pub num : pool'.num_bpages ≡ pool.num_bpages
  pub hints :
      (c : ℕ)
      → ((pool'.cores c).page_hint ≡ (pool.cores c).page_hint)
        × ((pool'.cores c).allocated ≡ (pool.cores c).allocated)

-- No page taken: all but the candidates is the same.
record Same (pool pool' : Pool) (pages : List ℕ) : Type 0 where
  none_taken : pages ≡ []
  descriptors : pool'.descriptors ≡ pool.descriptors
  free : pool'.free_bpages ≡ pool.free_bpages
  num : pool'.num_bpages ≡ pool.num_bpages
  hints :
      (c : ℕ)
      → ((pool'.cores c).page_hint ≡ (pool.cores c).page_hint)
        × ((pool'.cores c).allocated ≡ (pool.cores c).allocated)

candidate_only :
    (core n c : ℕ) (pool : Pool)
    → (((set_candidate core n pool).cores c).page_hint ≡ (pool.cores c).page_hint)
      × (((set_candidate core n pool).cores c).allocated ≡ (pool.cores c).allocated)
candidate_only core n c pool = ground arith

Finds-Same :
    (caller : Caller) {missing : ℕ} {pool pool' : Pool} {pages : List ℕ}
    → Finds caller missing pool pool' pages
    → missing ≡ 0
    → Same pool pool' pages
Finds-Same caller (done pool pool' pages e f) z =
    subst (λ p. Same pool p pages) e
      (record {
        none_taken = f;
        descriptors = refl;
        free = refl;
        num = refl;
        hints = λ c. (refl, refl);
      })
Finds-Same caller (move n missing pool pool' pages f) z =
    let s = Finds-Same caller f z in
    record {
      none_taken = s.none_taken;
      descriptors = s.descriptors;
      free = s.free;
      num = s.num;
      hints = λ c.
          let moved = candidate_only caller.core n c pool in
          ((s.hints c).0 ∙ moved.0, (s.hints c).1 ∙ moved.1);
    }
Finds-Same caller (take cur missing pool pool' pages rest h a f e) z = absurd (omega arith)

pub Finds-Took :
    (caller : Caller) {missing : ℕ} {pool pool' : Pool} {pages : List ℕ}
    → Finds caller missing pool pool' pages
    → missing ≡ 1
    → (cur : ℕ) × Took caller pool pool' pages cur
unfolding take_page
Finds-Took caller (done pool pool' pages e f) z = absurd (omega arith)
Finds-Took caller (move n missing pool pool' pages f) z =
    let (cur, t) = Finds-Took caller f z in
    (
      cur,
      record {
        one = t.one;
        bound = t.bound;
        available = t.available;
        descriptors = t.descriptors;
        free = t.free;
        num = t.num;
        hints = λ c.
            let moved = candidate_only caller.core n c pool in
            ((t.hints c).0 ∙ moved.0, (t.hints c).1 ∙ moved.1);
      },
    )
Finds-Took caller (take cur missing pool pool' pages rest h a f e) z =
    let s = Finds-Same caller f (omega arith) in
    (
      cur,
      record {
        one = e ∙ ap (λ l. cur ∷ l) s.none_taken;
        bound = h;
        available = a;
        descriptors = s.descriptors;
        free = s.free;
        num = s.num;
        hints = s.hints;
      },
    )
