-- ===== src/Grantable/Order.antt =====
-- The order of `homa_grant_outranks`, and the loops that keep a list in it.
use connected_homa.Prelude.{◌≡◌, true, false, List, [], ◌∷◌, arith, Bool-cases, inl, inr}
use connected_homa.Grantable.{Candidate, homa_grant_outranks, onto, insert_before, move_up}

-- `c` may stand before `d`: `d` does not outrank it.
abbrev pub Before : Candidate → Candidate → Type 0
Before c d = homa_grant_outranks d c ≡ false

pub outranks_asym : (c d : Candidate) → homa_grant_outranks c d ≡ true → Before c d
unfolding homa_grant_outranks
outranks_asym c d h = ground arith

pub Before-trans : (c d e : Candidate) → Before c d → Before d e → Before c e
unfolding homa_grant_outranks
Before-trans c d e h k = ground arith

module _ {ℓ} {A : Type ℓ} (key : A → Candidate) where
  -- Everything in the list may stand behind `c`.
  abbrev pub Below : Candidate → List A → Type 0
  Below c [] = Unit {0}
  Below c (x ∷ xs) = Before c (key x) × Below c xs

  abbrev pub Sorted : List A → Type 0
  Sorted [] = Unit {0}
  Sorted (x ∷ xs) = Below (key x) xs × Sorted xs

  pub Below-trans : (c d : Candidate) (xs : List A) → Before c d → Below d xs → Below c xs
  Below-trans c d [] h b = tt
  Below-trans c d (x ∷ xs) h b = (Before-trans c d (key x) h b.0, Below-trans c d xs h b.1)

  pub Sorted-onto : (before ys : List A) → Sorted (onto before ys) → Sorted ys
  Sorted-onto [] ys s = s
  Sorted-onto (x ∷ before) ys s = (Sorted-onto before (x ∷ ys) s).1

  -- The tail of a sorted list may be replaced by one that bounds as much from below.
  pub onto-Sorted :
      (before ys zs : List A)
      → ((c : Candidate) → Below c ys → Below c zs)
      → Sorted zs
      → Sorted (onto before ys)
      → Sorted (onto before zs)
  onto-Sorted [] ys zs low s t = s
  onto-Sorted (x ∷ before) ys zs low s t =
      onto-Sorted before (x ∷ ys) (x ∷ zs) (λ c b. (b.0, low c b.1))
        (low (key x) (Sorted-onto before (x ∷ ys) t).0, s) t

  Below-insert_before :
      (c : Candidate) (a : A) (xs : List A)
      → Before c (key a)
      → Below c xs
      → Below c (insert_before key (key a) a xs)
  unfolding insert_before
  Below-insert_before c a [] h b = (h, tt)
  Below-insert_before c a (x ∷ xs) h b = elim (Bool-cases (homa_grant_outranks (key a) (key x))) [
    | inl up ↦ rw up (h, b)
    | inr stay ↦ rw stay (b.0, Below-insert_before c a xs h b.1)
  ]

  -- Insertion keeps the order.
  pub insert_before-Sorted :
      (a : A) (xs : List A) → Sorted xs → Sorted (insert_before key (key a) a xs)
  unfolding insert_before
  insert_before-Sorted a [] s = (tt, tt)
  insert_before-Sorted a (x ∷ xs) s = elim (Bool-cases (homa_grant_outranks (key a) (key x))) [
    | inl up ↦
        let first = outranks_asym (key a) (key x) up in
        rw up ((first, Below-trans (key a) (key x) xs first s.0), s)
    | inr stay ↦ rw stay (Below-insert_before (key x) a xs stay s.0, insert_before-Sorted a xs s.1)
  ]

  -- An entry that ranks at least as high as all behind it finds its place.
  pub move_up-Sorted :
      (a : A) (before after : List A)
      → Below (key a) after
      → Sorted (onto before after)
      → Sorted (move_up key (key a) a before after)
  unfolding move_up
  move_up-Sorted a [] after b s = (b, s)
  move_up-Sorted a (c ∷ before) after b s =
      elim (Bool-cases (homa_grant_outranks (key a) (key c))) [
        | inl up ↦
            rw up (move_up-Sorted a before (c ∷ after) (outranks_asym (key a) (key c) up, b) s)
        | inr stay ↦
            let tail = Sorted-onto before (c ∷ after) s in
            rw stay (
              onto-Sorted before (c ∷ after) (c ∷ a ∷ after)
                (λ d h. (h.0, (Before-trans d (key c) (key a) h.0 stay, h.1)))
                ((stay, tail.0), (b, tail.1)) s)
      ]
