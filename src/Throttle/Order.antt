-- ===== src/Throttle/Order.antt =====
-- The throttled RPCs stand in the order of the bytes that they have left, and which of them the pacer takes.
use connected_homa.Prelude.{
  ℕ, ◌≤◌, ◌≡◌, ap, subst, ◌⊎◌, inl, inr, true, some, List, [], ◌∷◌, All, ltb, ◌==◌, arith,
  Bool-cases, SortedBy, insert_by, insert_by-SortedBy,
}
use connected_homa.Prelude.Int.{ℤ, pos, ◌-ℤ◌, leb_ℤ}
use connected_homa.Throttle.{
  Throttled, bytes_left, is_throttled, homa_add_to_throttled, homa_remove_from_throttled,
  find_oldest, pick_throttled,
}

is_throttled-insert_by :
    (t : Throttled) (ts : List Throttled) → is_throttled t.id (insert_by bytes_left t ts) ≡ true
unfolding insert_by
is_throttled-insert_by t [] = ground arith
is_throttled-insert_by t (u ∷ us) = elim (Bool-cases (ltb (bytes_left t) (bytes_left u))) [
  | inl before ↦ rw (before, insert_by) (ground arith)
  | inr behind ↦ rw (behind, insert_by) (ground (arith, is_throttled-insert_by t us))
]

-- After `homa_add_to_throttled` the RPC is in the list of throttled RPCs, and the list is in the order of the
-- bytes that are left if it was so before.
pub homa_add_to_throttled-SortedBy :
    (t : Throttled) (ts : List Throttled)
    → SortedBy bytes_left ts
    → SortedBy bytes_left (homa_add_to_throttled t ts)
      × (is_throttled t.id (homa_add_to_throttled t ts) ≡ true)
unfolding homa_add_to_throttled
homa_add_to_throttled-SortedBy t ts s = elim (Bool-cases (is_throttled t.id ts)) [
  | inl there ↦ rw (there, homa_add_to_throttled) (s, there)
  | inr new ↦
      rw (new, homa_add_to_throttled)
        (insert_by-SortedBy bytes_left t ts s, is_throttled-insert_by t ts)
]

All-remove :
    (P : Throttled → Type 0) (id : ℕ) (ts : List Throttled)
    → All P ts
    → All P (homa_remove_from_throttled id ts)
unfolding homa_remove_from_throttled
All-remove P id [] a = tt
All-remove P id (t ∷ ts) (p, a) = elim (Bool-cases (t.id == id)) [
  | inl here ↦ rw (here, homa_remove_from_throttled) a
  | inr other ↦ rw (other, homa_remove_from_throttled) (p, All-remove P id ts a)
]

pub homa_remove_from_throttled-SortedBy :
    (id : ℕ) (ts : List Throttled)
    → SortedBy bytes_left ts
    → SortedBy bytes_left (homa_remove_from_throttled id ts)
unfolding homa_remove_from_throttled
homa_remove_from_throttled-SortedBy id [] s = tt
homa_remove_from_throttled-SortedBy id (t ∷ ts) (l, s) = elim (Bool-cases (t.id == id)) [
  | inl here ↦ rw (here, homa_remove_from_throttled) s
  | inr other ↦
      rw (other, homa_remove_from_throttled)
        (
          All-remove (λ u. bytes_left t ≤ bytes_left u) id ts l,
          homa_remove_from_throttled-SortedBy id ts s,
        )
]

-- No message in the list is older than `t`.
abbrev pub Oldest : Throttled → List Throttled → Type 0
Oldest t ts = All (λ (u : Throttled). t.init_ns ≤ u.init_ns) ts

-- No message in the list has fewer bytes left than `t`.
abbrev pub Least : Throttled → List Throttled → Type 0
Least t ts = All (λ (u : Throttled). bytes_left t ≤ bytes_left u) ts

find_oldest-Oldest :
    (o t : Throttled) (ts : List Throttled)
    → find_oldest (some o) ts ≡ some t
    → (t.init_ns ≤ o.init_ns) × Oldest t ts
unfolding find_oldest
find_oldest-Oldest o t [] e =
    let same : o ≡ t = cc in (omega (arith, ap (λ (u : Throttled). u.init_ns) same), tt)
find_oldest-Oldest o t (u ∷ ts) e = elim (Bool-cases (ltb u.init_ns o.init_ns)) [
  | inl older ↦
      let (le, all) = find_oldest-Oldest u t ts (rw (older, find_oldest) at e) in
      (ground (arith, older, le), (le, all))
  | inr younger ↦
      let (le, all) = find_oldest-Oldest o t ts (rw (younger, find_oldest) at e) in
      (le, (ground (arith, younger, le), all))
]

-- From a list in the order of the bytes that are left, the pacer takes an RPC with the fewest bytes left, or
-- when `pacer_fifo_count` has run down one whose message is the oldest.
pick_throttled-Least :
    (fifo_fraction : ℕ) (fifo_count : ℤ) (ts : List Throttled) (t : Throttled)
    → SortedBy bytes_left ts
    → (pick_throttled fifo_fraction fifo_count ts).1 ≡ some t
    → Least t ts ⊎ ((leb_ℤ (fifo_count -ℤ pos fifo_fraction) (pos 0) ≡ true) × Oldest t ts)
unfolding pick_throttled find_oldest
pick_throttled-Least fraction count [] t s e =
    elim (Bool-cases (leb_ℤ (count -ℤ pos fraction) (pos 0))) [
      | inl due ↦ inl tt
      | inr not_yet ↦ inl tt
    ]
pick_throttled-Least fraction count (u ∷ ts) t (l, s) e =
    elim (Bool-cases (leb_ℤ (count -ℤ pos fraction) (pos 0))) [
      | inl due ↦
          let (le, all) = find_oldest-Oldest u t ts (rw (due, pick_throttled) at e) in
          inr (due, (le, all))
      | inr not_yet ↦
          let first : some u ≡ some t = rw (not_yet, pick_throttled) at e in
          let same : u ≡ t = cc in inl (subst (λ x. Least x (u ∷ ts)) same (omega arith, l))
    ]
