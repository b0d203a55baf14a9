-- ===== src/Table/Refs.antt =====
-- Lists of addresses: what unlinking an entry and searching do.
use connected_homa.Prelude.{
  ℕ, ◌≡◌, refl, ap, ◌∙◌, inl, inr, Bool, true, false, not, ◌&&◌, ◌||◌, none, some, List, [], ◌∷◌,
  ◌++◌, ◌==◌, arith, Bool-cases,
}
use connected_homa.Table.{Entry, remove, has, first_with}

pub has-remove : (r q : ℕ) (rs : List ℕ) → has q (remove r rs) ≡ (not (r == q) && has q rs)
has-remove r q [] = ground arith
has-remove r q (x ∷ xs) = ground (arith, has-remove r q xs)

pub has-append : (q r : ℕ) (rs : List ℕ) → has q (rs ++ r ∷ []) ≡ (has q rs || r == q)
has-append q r [] = ground arith
has-append q r (x ∷ xs) = ground (arith, has-append q r xs)

-- What is found stands in the list and passes the test.
pub first_with_sound :
    (test : Entry → Bool) (rpcs : ℕ → Entry) (rs : List ℕ) (q : ℕ)
    → first_with test rpcs rs ≡ some q
    → (has q rs ≡ true) × (test (rpcs q) ≡ true)
first_with_sound test rpcs [] q e = absurd (cc)
first_with_sound test rpcs (r ∷ rs) q e = elim (Bool-cases (test (rpcs r))) [
  | inl found ↦ ground arith
  | inr other ↦
      let (stands, passes) = first_with_sound test rpcs rs q (rw other at e) in
      (ground arith, passes)
]

-- An entry that alone passes the test is found.
pub first_with_complete :
    (test : Entry → Bool) (rpcs : ℕ → Entry) (rs : List ℕ) (q : ℕ)
    → has q rs ≡ true
    → test (rpcs q) ≡ true
    → ((r : ℕ) → has r rs ≡ true → test (rpcs r) ≡ true → r ≡ q)
    → first_with test rpcs rs ≡ some q
first_with_complete test rpcs [] q h e only = absurd (cc)
first_with_complete test rpcs (r ∷ rs) q h e only = elim (Bool-cases (test (rpcs r))) [
  | inl found ↦ let same = only r (ground arith) found in ground arith
  | inr other ↦
      let behind : has q rs ≡ true = ground (arith, ap (λ (x : ℕ). test (rpcs x))) in
      let rest =
        first_with_complete test rpcs rs q behind e
          (λ x stands passes. only x (ground arith) passes) in
      ground arith
]

-- None is found where none passes the test.
pub first_with-none :
    (test : Entry → Bool) (rpcs : ℕ → Entry) (rs : List ℕ)
    → ((r : ℕ) → has r rs ≡ true → test (rpcs r) ≡ false)
    → first_with test rpcs rs ≡ none
first_with-none test rpcs [] never = refl
first_with-none test rpcs (r ∷ rs) never =
    let here = never r (ground arith) in
    let rest = first_with-none test rpcs rs (λ x stands. never x (ground arith)) in ground arith

-- Where none is found, none passes the test.
pub first_with-never :
    (test : Entry → Bool) (rpcs : ℕ → Entry) (rs : List ℕ) (q : ℕ)
    → first_with test rpcs rs ≡ none
    → has q rs ≡ true
    → test (rpcs q) ≡ false
first_with-never test rpcs [] q e h = absurd (cc)
first_with-never test rpcs (r ∷ rs) q e h = elim (Bool-cases (test (rpcs r))) [
  | inl found ↦ absurd (ground arith)
  | inr other ↦ elim (Bool-cases (r == q)) [
    | inl same ↦ let e' : r ≡ q = ground arith in ap (λ x. test (rpcs x)) (ground arith) ∙ other
    | inr differ ↦ first_with-never test rpcs rs q (rw other at e) (ground arith)
  ]
]
