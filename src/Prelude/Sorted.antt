-- ===== src/Prelude/Sorted.antt =====
-- Lists in the order of a number, and the loop that links an entry before the first larger one.
use Prim.Native.Nat.{ℕ, ◌≤◌}
use mathlib.Core.Logic.{inl, inr}
use mathlib.Core.List.{List, [], ◌∷◌}
use native.Mathlib.Omega.{arith}
use connected_homa.Prelude.Tests.{ltb, if◌then◌else◌, Bool-cases}
use connected_homa.Prelude.Lists.{All}

module _ {ℓ} {A : Type ℓ} (f : A → ℕ) where
  abbrev pub SortedBy : List A → Type 0
  SortedBy [] = Unit {0}
  SortedBy (x ∷ xs) = All (λ y. f x ≤ f y) xs × SortedBy xs

  unfoldable pub insert_by : A → List A → List A
  insert_by x [] = x ∷ []
  insert_by x (y ∷ ys) = if ltb (f x) (f y) then x ∷ y ∷ ys else y ∷ insert_by x ys

  All-insert_by : (P : A → Type 0) (x : A) (xs : List A) → P x → All P xs → All P (insert_by x xs)
  unfolding insert_by
  All-insert_by P x [] p l = (p, tt)
  All-insert_by P x (y ∷ ys) p (q, l) = elim (Bool-cases (ltb (f x) (f y))) [
    | inl before ↦ rw (before, insert_by) (p, (q, l))
    | inr behind ↦ rw (behind, insert_by) (q, All-insert_by P x ys p l)
  ]

  All-le : (n m : ℕ) (xs : List A) → n ≤ m → All (λ y. m ≤ f y) xs → All (λ y. n ≤ f y) xs
  All-le n m [] h l = tt
  All-le n m (y ∷ ys) h (le, l) = (omega arith, All-le n m ys h l)

  pub insert_by-SortedBy : (x : A) (xs : List A) → SortedBy xs → SortedBy (insert_by x xs)
  unfolding insert_by
  insert_by-SortedBy x [] s = (tt, tt)
  insert_by-SortedBy x (y ∷ ys) (l, s) = elim (Bool-cases (ltb (f x) (f y))) [
    | inl before ↦
        let h : f x ≤ f y = ground (arith, before) in
        rw (before, insert_by) ((h, All-le (f x) (f y) ys h l), (l, s))
    | inr behind ↦
        rw (behind, insert_by)
          (
            All-insert_by (λ z. f y ≤ f z) x ys (ground (arith, behind)) l,
            insert_by-SortedBy x ys s,
          )
  ]
