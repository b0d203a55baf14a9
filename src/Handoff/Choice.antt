-- ===== src/Handoff/Choice.antt =====
-- Which thread is chosen for a message.
use connected_homa.Prelude.{
  ℕ, ◌≡◌, refl, inl, inr, Bool, true, false, ◌||◌, some, List, [], ◌∷◌, ◌==◌, arith, Bool-cases,
}
use connected_homa.Table.{Interest, has}
use connected_homa.Handoff.{Cores, is_idle, choose_from, homa_choose_interest}

abbrev any_idle : Cores → (ℕ → Interest) → List ℕ → Bool
any_idle c interests [] = false
any_idle c interests (i ∷ is) = is_idle c interests i || any_idle c interests is

-- With a `backup` that is not idle.
choose_from-some :
    (c : Cores) (interests : ℕ → Interest) (b : ℕ) (is : List ℕ)
    → is_idle c interests b ≡ false
    → (i : ℕ) × (choose_from c interests (some b) is ≡ some i)
      × ((b == i || has i is) ≡ true)
      × (is_idle c interests i ≡ any_idle c interests is)
choose_from-some c interests b [] busy = (b, refl, ground arith, busy)
choose_from-some c interests b (j ∷ is) busy = elim (Bool-cases (is_idle c interests j)) [
  | inl idle ↦ (j, rw idle refl, ground arith, rw idle refl)
  | inr other ↦
      let (i, chosen, stands, best) = choose_from-some c interests b is busy in
      (i, rw other chosen, ground arith, rw other best)
]

-- `homa_choose_interest` finds an interest exactly where the list has one; it stands in the list, and its
-- core is idle if that of any interest there is.
pub homa_choose_interest-best :
    (c : Cores) (interests : ℕ → Interest) (j : ℕ) (is : List ℕ)
    → (i : ℕ) × (homa_choose_interest c interests (j ∷ is) ≡ some i)
      × (has i (j ∷ is) ≡ true)
      × (is_idle c interests i ≡ any_idle c interests (j ∷ is))
homa_choose_interest-best c interests j is = elim (Bool-cases (is_idle c interests j)) [
  | inl idle ↦ (j, rw idle refl, ground arith, rw idle refl)
  | inr other ↦
      let (i, chosen, stands, best) = choose_from-some c interests j is other in
      (i, rw other chosen, stands, rw other best)
]
