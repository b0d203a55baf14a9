-- ===== src/Pool/Count.antt =====
-- Counting the pages that nothing uses.
use connected_homa.Prelude.{
  ℕ, zero, suc, ◌+◌, ◌-◌, ◌≤◌, ◌<◌, ◌≡◌, refl, ◌⊎◌, inl, inr, Bool, true, ◌==◌, if◌then◌else◌,
  update, count_below, arith, Bool-cases,
}
use connected_homa.Pool.{Bpage}

abbrev pub is_free : Bpage → Bool
is_free page = page.refs == 0

abbrev pub bit : Bool → ℕ
bit b = if b then 1 else 0

pub count_below-update_ne :
    (f : ℕ → Bpage) (k : ℕ) (v : Bpage) (n : ℕ)
    → n ≤ k
    → count_below (λ i. is_free (update f k v i)) n ≡ count_below (λ i. is_free (f i)) n
count_below-update_ne f k v zero h = refl
count_below-update_ne f k v (suc n) h = ground (arith, count_below-update_ne f k v n)

-- A write to page `k` changes the count by page `k`.
pub count_below-update :
    (f : ℕ → Bpage) (k : ℕ) (v : Bpage) (n : ℕ)
    → k < n
    → count_below (λ i. is_free (update f k v i)) n + bit (is_free (f k))
      ≡ count_below (λ i. is_free (f i)) n + bit (is_free v)
count_below-update f k v zero h = absurd (omega arith)
count_below-update f k v (suc n) h = elim (Bool-cases (n == k)) [
  | inl here ↦ ground (arith, count_below-update_ne f k v n)
  | inr there ↦ ground (arith, count_below-update f k v n)
]

pub count_below-le :
    (test : ℕ → Bool) (l n : ℕ) → l ≤ n → count_below test n ≤ count_below test l + (n - l)
count_below-le test l zero h = ground arith
count_below-le test l (suc n) h = elim (Bool-cases (l == suc n)) [
  | inl all ↦ ground arith
  | inr less ↦ ground (arith, count_below-le test l n)
]

-- A search that finds nothing counts nothing.
pub find_below :
    (test : ℕ → Bool) (n : ℕ) → ((j : ℕ) × (j < n) × (test j ≡ true)) ⊎ (count_below test n ≡ 0)
find_below test zero = inr refl
find_below test (suc n) = elim (Bool-cases (test n)) [
  | inl hit ↦ inl (n, omega arith, hit)
  | inr miss ↦ elim (find_below test n) [
    | inl (j, h, e) ↦ inl (j, omega arith, e)
    | inr none_left ↦ inr (ground arith)
  ]
]
