-- ===== src/Peer/Cutoffs.antt =====
-- The priority of unscheduled packets: the loop of `homa_unsched_priority` ends inside the array, with
-- the highest level that takes messages of the length.
use connected_homa.Prelude.{
  ℕ, zero, suc, ◌+◌, ◌≤◌, ◌<◌, ◌≡◌, refl, some, List, [], ◌∷◌, leb, arith, length, drop, get_elem?,
  get_or, set, length-set, get_or-set_ne, get_or-set_self, Bool-cases, ◌⊎◌, inl, inr,
}
use connected_homa.Peer.{
  Peer, int_max, unsched_priority_from, homa_unsched_priority, copy_cutoffs, homa_cutoffs_pkt,
  max_priorities,
}

-- Below `n`, every level above `i` has a cutoff less than `len`.
abbrev pub TooSmall : List ℕ → ℕ → ℕ → ℕ → Type 0
TooSmall cutoffs len i zero = Unit {0}
TooSmall cutoffs len i (suc n) = ((n ≤ i) ⊎ (get_or cutoffs n 0 < len)) × TooSmall cutoffs len i n

TooSmall-start : (cutoffs : List ℕ) (len i n : ℕ) → n ≤ suc i → TooSmall cutoffs len i n
TooSmall-start cutoffs len i zero h = tt
TooSmall-start cutoffs len i (suc n) h =
    (inl (omega arith), TooSmall-start cutoffs len i n (omega arith))

-- What the loop returns, with `n` for its start.
pub record Chosen (cutoffs : List ℕ) (n len i : ℕ) : Type 0 where
  pub below : i < n
  pub fits : len ≤ get_or cutoffs i 0
  pub highest : TooSmall cutoffs len i n

get_elem?-get_or : (xs : List ℕ) (i : ℕ) → i < length xs → get_elem? xs i ≡ some (get_or xs i 0)
get_elem?-get_or [] i h = absurd (omega arith)
get_elem?-get_or (x ∷ xs) zero h = refl
get_elem?-get_or (x ∷ xs) (suc i) h = get_elem?-get_or xs i (omega arith)

unsched_priority_from-Chosen :
    (n : ℕ) (cutoffs : List ℕ) (len : ℕ)
    → 0 < n
    → n ≤ length cutoffs
    → len ≤ get_or cutoffs 0 0
    → (i : ℕ) × (unsched_priority_from n cutoffs len ≡ some i) × Chosen cutoffs n len i
unfolding unsched_priority_from
unsched_priority_from-Chosen zero cutoffs len h k l = absurd (omega arith)
unsched_priority_from-Chosen (suc n) cutoffs len h k l =
    elim (Bool-cases (leb len (get_or cutoffs n 0))) [
      | inl fits ↦ (
        n,
        rw (get_elem?-get_or cutoffs n k, fits, unsched_priority_from) refl,
        record {
          below = omega arith;
          fits = ground arith;
          highest = TooSmall-start cutoffs len n (suc n) (omega arith);
        },
      )
      | inr small ↦
          let (i, e, c) =
            unsched_priority_from-Chosen n cutoffs len (ground arith) (omega arith) l in
          (
            i,
            rw (get_elem?-get_or cutoffs n k, small, unsched_priority_from) e,
            record {
              below = omega (arith, c.below);
              fits = c.fits;
              highest = (inr (ground arith), c.highest);
            },
          )
    ]

length-copy_cutoffs :
    (i : ℕ) (cs cutoffs : List ℕ) → length (copy_cutoffs i cs cutoffs) ≡ length cutoffs
unfolding copy_cutoffs
length-copy_cutoffs i [] cutoffs = refl
length-copy_cutoffs i (c ∷ cs) cutoffs =
    omega (arith, length-copy_cutoffs (i + 1) cs (set cutoffs i c), length-set cutoffs i c)

first-copy_cutoffs :
    (i : ℕ) (cs cutoffs : List ℕ)
    → 0 < i
    → get_or (copy_cutoffs i cs cutoffs) 0 0 ≡ get_or cutoffs 0 0
unfolding copy_cutoffs
first-copy_cutoffs i [] cutoffs h = refl
first-copy_cutoffs i (c ∷ cs) cutoffs h = omega (
  arith,
  first-copy_cutoffs (i + 1) cs (set cutoffs i c) (omega arith),
  get_or-set_ne cutoffs {i = i} {j = 0} c 0 (omega arith),
)

-- Whatever cutoffs a CUTOFFS packet brings, `homa_unsched_priority` finds a level for every length of
-- an `int`, inside the array of eight, if one to eight priorities are in use: the highest level in use
-- whose cutoff is not below the length.
homa_unsched_priority-Chosen :
    (num_priorities version len : ℕ) (packet : List ℕ) (peer : Peer)
    → length peer.unsched_cutoffs ≡ max_priorities
    → 0 < num_priorities
    → num_priorities ≤ max_priorities
    → len ≤ int_max
    → let peer' = homa_cutoffs_pkt packet version peer in
      (i : ℕ) × (homa_unsched_priority num_priorities peer' len ≡ some i)
      × Chosen peer'.unsched_cutoffs num_priorities len i
unfolding homa_cutoffs_pkt homa_unsched_priority
homa_unsched_priority-Chosen n version len packet peer size h k l =
    unsched_priority_from-Chosen n _ len h
      (omega (
        arith,
        length-copy_cutoffs 1 (drop 1 packet) start,
        length-set peer.unsched_cutoffs 0 int_max,
      ))
      (omega (
        arith,
        first-copy_cutoffs 1 (drop 1 packet) start (omega arith),
        get_or-set_self peer.unsched_cutoffs 0 int_max 0 (omega arith),
      ))
  where
    start : List ℕ
    start = set peer.unsched_cutoffs 0 int_max
