-- ===== src/Grantable/Lists.antt =====
-- The pieces of a list that `locate` finds, and the head of a list that an RPC has moved up in.
use connected_homa.Prelude.{◌≡◌, refl, Bool, some, List, [], ◌∷◌, arith, Bool-cases, ◌⊎◌, inl, inr}
use connected_homa.Grantable.{
  Candidate, homa_grant_outranks, first, onto, locate, find, insert_before, move_up, same,
}
use connected_homa.Grantable.Order.{
  Before, Before-trans, Sorted, Sorted-onto, onto-Sorted, outranks_asym,
}

pub Before-refl : (c : Candidate) → Before c c
unfolding homa_grant_outranks
Before-refl c = ground arith

pub locate-onto {ℓ} :
    {A : Type ℓ} (test : A → Bool) (before xs : List A) (x : A)
    → find test xs ≡ some x
    → onto (locate test before xs).0 (x ∷ (locate test before xs).1) ≡ onto before xs
locate-onto test before [] x e = absurd (cc)
locate-onto test before (y ∷ ys) x e = elim (Bool-cases (test y)) [
  | inl hit ↦ rw hit (ground arith)
  | inr miss ↦ rw miss (locate-onto test (y ∷ before) ys x (ground arith))
]

pub remove-Sorted {ℓ} :
    {A : Type ℓ} (key : A → Candidate) (before after : List A) (x : A)
    → Sorted key (onto before (x ∷ after))
    → Sorted key (onto before after)
remove-Sorted key before after x s =
    onto-Sorted key before (x ∷ after) after (λ c h. h.1) (Sorted-onto key before (x ∷ after) s).1 s

pub first-onto :
    (before xs ys : List Candidate) (c : Candidate)
    → first (onto before (c ∷ xs)) ≡ first (onto before (c ∷ ys))
first-onto [] xs ys c = refl
first-onto (b ∷ before) xs ys c = first-onto before (c ∷ xs) (c ∷ ys) b

first-Before :
    (before xs : List Candidate) (c : Candidate)
    → Sorted same (onto before (c ∷ xs))
    → Before (first (onto before (c ∷ xs))) c
first-Before [] xs c s = Before-refl c
first-Before (b ∷ before) xs c s =
    Before-trans (first (onto before (b ∷ c ∷ xs))) b c (first-Before before (c ∷ xs) b s)
      (Sorted-onto same before (b ∷ c ∷ xs) s).0.0

-- The first RPC of a peer after `rpc` has taken its place: it is `rpc`, which ranks at least as high as
-- the old first, or the old first, which ranks at least as high as `rpc`.
abbrev pub NewFirst : Candidate → Candidate → List Candidate → Type 0
NewFirst old rpc rpcs =
    ((first rpcs ≡ rpc) × Before rpc old) ⊎ ((first rpcs ≡ old) × Before old rpc)

move_up-NewFirst_behind :
    (rpc c : Candidate) (before after : List Candidate)
    → Sorted same (onto before (c ∷ after))
    → NewFirst (first (onto before (c ∷ after))) rpc (move_up same rpc rpc (c ∷ before) after)
unfolding move_up
move_up-NewFirst_behind rpc c [] after s = ground (arith, outranks_asym rpc c)
move_up-NewFirst_behind rpc c (b ∷ before) after s =
    let front = first-Before (b ∷ before) after c s in
    ground (
      arith,
      move_up-NewFirst_behind rpc b before (c ∷ after) s,
      first-onto before (c ∷ rpc ∷ after) (c ∷ after) b,
      Before-trans (first (onto before (b ∷ c ∷ after))) c rpc front,
    )

pub move_up-NewFirst :
    (rpc : Candidate) (before after : List Candidate) (e : Candidate)
    → Before rpc e
    → Sorted same (onto before (e ∷ after))
    → NewFirst (first (onto before (e ∷ after))) rpc (move_up same rpc rpc before after)
unfolding move_up
move_up-NewFirst rpc [] after e h s = inl (refl, h)
move_up-NewFirst rpc (c ∷ before) after e h s =
    rw (first-onto before (e ∷ after) after c)
      (move_up-NewFirst_behind rpc c before after (remove-Sorted same (c ∷ before) after e s))

pub insert_before-NewFirst :
    (rpc c : Candidate) (rpcs : List Candidate)
    → NewFirst c rpc (insert_before same rpc rpc (c ∷ rpcs))
unfolding insert_before
insert_before-NewFirst rpc c rpcs = ground (arith, outranks_asym rpc c)
