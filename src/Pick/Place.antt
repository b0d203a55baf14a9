-- ===== src/Pick/Place.antt =====
-- Placing an RPC in the array is inserting it into a list in order, cut to `max_rpcs`.
use connected_homa.Prelude.{
  ℕ, zero, suc, ◌≤◌, ◌<◌, ◌≡◌, refl, sym, ap, Bool, true, false, none, some, List, [], ◌∷◌, ◌++◌,
  ltb, leb, if◌then◌else◌, length, take, drop, get_or, arith, Bool-cases, inl, inr, length-take,
}
use connected_homa.Grantable.{Candidate, homa_grant_outranks, insert_before, same}
use connected_homa.Grantable.Order.{Before, Before-trans, Below, Sorted, insert_before-Sorted}
use connected_homa.Pick.{position, place}

abbrev pub insert : Candidate → List Candidate → List Candidate
insert rpc picked = insert_before same rpc rpc picked

Below-get :
    (c d : Candidate) (xs : List Candidate) (i : ℕ)
    → Below same c xs
    → i < length xs
    → Before c (get_or xs i d)
Below-get c d [] i b h = absurd (omega arith)
Below-get c d (x ∷ xs) zero b h = b.0
Below-get c d (x ∷ xs) (suc i) b h = Below-get c d xs i b.1 (omega arith)

position-cons :
    (rpc c : Candidate) (xs : List Candidate) (n : ℕ)
    → Below same c xs
    → n ≤ length xs
    → position rpc (c ∷ xs) (suc n)
      ≡ (if homa_grant_outranks rpc c then 0 else suc (position rpc xs n))
unfolding position
position-cons rpc c xs zero b h = refl
position-cons rpc c xs (suc n) b h = elim (Bool-cases (homa_grant_outranks rpc (get_or xs n rpc))) [
  | inl up ↦ rw (up, position) (position-cons rpc c xs n b (omega arith))
  | inr stay ↦
      let lower : homa_grant_outranks rpc c ≡ false =
        Before-trans c (get_or xs n rpc) rpc (Below-get c rpc xs n b (omega arith)) stay in
      rw (stay, lower, position) refl
]

pub shifted-insert :
    (rpc : Candidate) (xs : List Candidate)
    → Sorted same xs
    → let pos = position rpc xs (length xs) in take pos xs ++ rpc ∷ drop pos xs ≡ insert rpc xs
unfolding position insert_before
shifted-insert rpc [] s = refl
shifted-insert rpc (c ∷ xs) s =
    let step = position-cons rpc c xs (length xs) s.0 (omega arith) in
    elim (Bool-cases (homa_grant_outranks rpc c)) [
      | inl up ↦ rw (step, up) refl
      | inr stay ↦ rw (step, stay) (ap (λ l. c ∷ l) (shifted-insert rpc xs s.1))
    ]

pub position-le : (rpc : Candidate) (xs : List Candidate) (n : ℕ) → position rpc xs n ≤ n
unfolding position
position-le rpc xs zero = omega arith
position-le rpc xs (suc n) = ground (arith, position-le rpc xs n)

pub take_all {ℓ} : {A : Type ℓ} → (n : ℕ) (xs : List A) → length xs ≤ n → take n xs ≡ xs
take_all zero [] h = refl
take_all zero (x ∷ xs) h = absurd (omega arith)
take_all (suc n) [] h = refl
take_all (suc n) (x ∷ xs) h = ap (λ l. x ∷ l) (take_all n xs (omega arith))

pub take-end {ℓ} : {A : Type ℓ} → (n : ℕ) (xs ys : List A) → length xs ≡ n → take n (xs ++ ys) ≡ xs
take-end zero [] ys h = refl
take-end zero (x ∷ xs) ys h = absurd (omega arith)
take-end (suc n) [] ys h = absurd (omega arith)
take-end (suc n) (x ∷ xs) ys h = ap (λ l. x ∷ l) (take-end n xs ys (omega arith))

length-insert : (rpc : Candidate) (xs : List Candidate) → length (insert rpc xs) ≡ suc (length xs)
unfolding insert_before
length-insert rpc [] = refl
length-insert rpc (c ∷ xs) = ground (arith, length-insert rpc xs)

pub Below-take :
    (n : ℕ) (c : Candidate) (xs : List Candidate) → Below same c xs → Below same c (take n xs)
Below-take zero c xs b = tt
Below-take (suc n) c [] b = tt
Below-take (suc n) c (x ∷ xs) b = (b.0, Below-take n c xs b.1)

take-Sorted : (n : ℕ) (xs : List Candidate) → Sorted same xs → Sorted same (take n xs)
take-Sorted zero xs s = tt
take-Sorted (suc n) [] s = tt
take-Sorted (suc n) (x ∷ xs) s = (Below-take n x xs s.0, take-Sorted n xs s.1)

-- The array has no room for `rpc`.
abbrev pub has_no_room : ℕ → Candidate → List Candidate → Bool
has_no_room max_rpcs rpc picked = leb max_rpcs (position rpc picked (length picked))

abbrev pub cut_insert : ℕ → Candidate → List Candidate → List Candidate
cut_insert max_rpcs rpc picked = take max_rpcs (insert rpc picked)

pub place-room :
    (max_rpcs : ℕ) (rpc : Candidate) (picked : List Candidate)
    → Sorted same picked
    → length picked ≤ max_rpcs
    → has_no_room max_rpcs rpc picked ≡ false
    → place max_rpcs rpc picked ≡ some (cut_insert max_rpcs rpc picked)
unfolding place
place-room max_rpcs rpc picked s h r = elim (Bool-cases (ltb (length picked) max_rpcs)) [
  | inl less ↦
      rw (r, less, shifted-insert rpc picked s)
        (ap some
          (sym (take_all max_rpcs (insert rpc picked) (ground (arith, length-insert rpc picked)))))
  | inr full ↦ rw (r, full, shifted-insert rpc picked s) refl
]

pub place-full :
    (max_rpcs : ℕ) (rpc : Candidate) (picked : List Candidate)
    → has_no_room max_rpcs rpc picked ≡ true
    → place max_rpcs rpc picked ≡ none
unfolding place
place-full max_rpcs rpc picked r = rw r refl

insert-last :
    (rpc : Candidate) (xs : List Candidate)
    → Sorted same xs
    → position rpc xs (length xs) ≡ length xs
    → insert rpc xs ≡ xs ++ rpc ∷ []
unfolding insert_before
insert-last rpc [] s e = refl
insert-last rpc (c ∷ xs) s e =
    let step = position-cons rpc c xs (length xs) s.0 (omega arith) in
    elim (Bool-cases (homa_grant_outranks rpc c)) [
      | inl up ↦ absurd (omega (arith, rw (up) at step))
      | inr stay ↦
          rw stay (ap (λ l. c ∷ l) (insert-last rpc xs s.1 (omega (arith, rw stay at step))))
    ]

pub cut_insert-Sorted :
    (max_rpcs : ℕ) (rpc : Candidate) (picked : List Candidate)
    → Sorted same picked
    → Sorted same (cut_insert max_rpcs rpc picked)
cut_insert-Sorted max_rpcs rpc picked s =
    take-Sorted max_rpcs (insert rpc picked) (insert_before-Sorted same rpc picked s)

pub length-cut_insert :
    (max_rpcs : ℕ) (rpc : Candidate) (picked : List Candidate)
    → length (cut_insert max_rpcs rpc picked) ≤ max_rpcs
length-cut_insert max_rpcs rpc picked = omega (arith, length-take max_rpcs (insert rpc picked))

pub cut_insert-full :
    (max_rpcs : ℕ) (rpc : Candidate) (picked : List Candidate)
    → Sorted same picked
    → length picked ≤ max_rpcs
    → has_no_room max_rpcs rpc picked ≡ true
    → cut_insert max_rpcs rpc picked ≡ picked
cut_insert-full max_rpcs rpc picked s h r =
    let bound = position-le rpc picked (length picked) in
    rw (insert-last rpc picked s (ground arith))
      (take-end max_rpcs picked (rpc ∷ []) (ground arith))

get_or-default :
    (xs : List Candidate) (i : ℕ) (c d : Candidate) → i < length xs → get_or xs i c ≡ get_or xs i d
get_or-default [] i c d h = absurd (omega arith)
get_or-default (x ∷ xs) zero c d h = refl
get_or-default (x ∷ xs) (suc i) c d h = get_or-default xs i c d (omega arith)

-- What ranks no higher than an RPC without room has no room either.
pub has_no_room-Before :
    (max_rpcs : ℕ) (rpc c : Candidate) (picked : List Candidate)
    → length picked ≤ max_rpcs
    → Before rpc c
    → has_no_room max_rpcs rpc picked ≡ true
    → has_no_room max_rpcs c picked ≡ true
unfolding position
has_no_room-Before max_rpcs rpc c [] h b r = r
has_no_room-Before max_rpcs rpc c (x ∷ xs) h b r =
    let last = get_or (x ∷ xs) (length xs) rpc in
    let same_last : get_or (x ∷ xs) (length xs) c ≡ last =
      get_or-default (x ∷ xs) (length xs) c rpc (omega arith) in
    elim (Bool-cases (homa_grant_outranks rpc last)) [
      | inl up ↦
          absurd (ground (arith, position-le rpc (x ∷ xs) (length xs), rw (up, position) at r))
      | inr stay ↦
          let lower = Before-trans last rpc c stay b in
          rw (same_last, lower, position) (rw (stay, position) at r)
    ]
