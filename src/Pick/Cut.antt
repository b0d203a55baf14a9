-- ===== src/Pick/Cut.antt =====
-- What is picked, as a sorted list that is cut, and the lists cut after each insertion.
use connected_homa.Prelude.{
  ℕ, zero, suc, ◌≤◌, ◌≡◌, refl, ap, true, List, [], ◌∷◌, ◌++◌, length, take, Bool-cases, inl, inr,
}
use connected_homa.Grantable.{Candidate, GrantPeer, homa_grant_outranks, insert_before, same}
use connected_homa.Grantable.Order.{Below, Sorted}
use connected_homa.Pick.Place.{
  insert, cut_insert, has_no_room, cut_insert-full, cut_insert-Sorted, length-cut_insert,
  has_no_room-Before,
}

-- The RPCs that may be picked: at most `limit` of each peer.
abbrev pub candidates : ℕ → List GrantPeer → List Candidate
candidates limit [] = []
candidates limit (peer ∷ peers) = take limit peer.rpcs ++ candidates limit peers

-- Insertion sort by `homa_grant_outranks`, onto a list in order.
abbrev pub in_order : List Candidate → List Candidate → List Candidate
in_order [] sorted = sorted
in_order (rpc ∷ rpcs) sorted = in_order rpcs (insert rpc sorted)

-- The same, where each list is cut.
abbrev pub cut_all : ℕ → List Candidate → List Candidate → List Candidate
cut_all max_rpcs [] picked = picked
cut_all max_rpcs (rpc ∷ rpcs) picked = cut_all max_rpcs rpcs (cut_insert max_rpcs rpc picked)

pub take-take {ℓ} :
    {A : Type ℓ} → (n : ℕ) (c : A) (xs : List A) → take n (c ∷ take n xs) ≡ take n (c ∷ xs)
take-take zero c xs = refl
take-take (suc n) c [] = refl
take-take (suc n) c (x ∷ xs) = ap (λ l. c ∷ l) (take-take n x xs)

pub cut_insert-take :
    (n : ℕ) (rpc : Candidate) (xs : List Candidate)
    → cut_insert n rpc (take n xs) ≡ cut_insert n rpc xs
unfolding insert_before
cut_insert-take zero rpc xs = refl
cut_insert-take (suc n) rpc [] = refl
cut_insert-take (suc n) rpc (c ∷ xs) = elim (Bool-cases (homa_grant_outranks rpc c)) [
  | inl up ↦ rw up (ap (λ l. rpc ∷ l) (take-take n c xs))
  | inr stay ↦ rw stay (ap (λ l. c ∷ l) (cut_insert-take n rpc xs))
]

pub cut_all-take :
    (n : ℕ) (rpcs sorted : List Candidate)
    → cut_all n rpcs (take n sorted) ≡ take n (in_order rpcs sorted)
cut_all-take n [] sorted = refl
cut_all-take n (rpc ∷ rpcs) sorted =
    rw (cut_insert-take n rpc sorted) (cut_all-take n rpcs (insert rpc sorted))

pub cut_all-append :
    (n : ℕ) (xs ys picked : List Candidate)
    → cut_all n (xs ++ ys) picked ≡ cut_all n ys (cut_all n xs picked)
cut_all-append n [] ys picked = refl
cut_all-append n (x ∷ xs) ys picked = cut_all-append n xs ys (cut_insert n x picked)

-- What the array always is: in order, and not too long.
pub record Ready (max_rpcs : ℕ) (picked : List Candidate) : Type 0 where
  pub sorted : Sorted same picked
  pub fits : length picked ≤ max_rpcs

pub cut_insert-Ready :
    (n : ℕ) (rpc : Candidate) (picked : List Candidate)
    → Ready n picked
    → Ready n (cut_insert n rpc picked)
cut_insert-Ready n rpc picked r = record {
  sorted = cut_insert-Sorted n rpc picked r.sorted;
  fits = length-cut_insert n rpc picked;
}

pub cut_all-Ready :
    (n : ℕ) (rpcs picked : List Candidate) → Ready n picked → Ready n (cut_all n rpcs picked)
cut_all-Ready n [] picked r = r
cut_all-Ready n (rpc ∷ rpcs) picked r =
    cut_all-Ready n rpcs (cut_insert n rpc picked) (cut_insert-Ready n rpc picked r)

pub cut_all-full :
    (n : ℕ) (rpc : Candidate) (rpcs picked : List Candidate)
    → Ready n picked
    → has_no_room n rpc picked ≡ true
    → Below same rpc rpcs
    → cut_all n rpcs picked ≡ picked
cut_all-full n rpc [] picked r full b = refl
cut_all-full n rpc (c ∷ rpcs) picked r full b =
    let none_left = has_no_room-Before n rpc c picked r.fits b.0 full in
    rw (cut_insert-full n c picked r.sorted r.fits none_left)
      (cut_all-full n rpc rpcs picked r full b.1)

pub take_nil {ℓ} : {A : Type ℓ} → (n : ℕ) → take {A = A} n [] ≡ []
take_nil zero = refl
take_nil (suc n) = refl
