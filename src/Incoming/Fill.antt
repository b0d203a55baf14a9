-- ===== src/Incoming/Fill.antt =====
-- How a packet changes the list of gaps: the loop `fill_plain` against a relation with one
-- rule for each way to keep the packet.
use connected_homa.Prelude.{
  ℕ, ◌+◌, ◌≤◌, ◌<◌, ◌≡◌, ◌⊎◌, Bool, some, List, [], ◌∷◌, arith, Option-cases, inl, inr,
}
use connected_homa.Rpc.{Gap}
use connected_homa.Incoming.Plain.{fill_plain}

pub data Fill : ℕ → ℕ → List Gap → List Gap → Type 0 where
  skip :
      (start end : ℕ) (gap : Gap) (rest rest' gaps' : List Gap)
      → Fill start end rest rest'
      → (end ≤ gap.start) ⊎ (gap.end ≤ start)
      → gaps' ≡ gap ∷ rest'
      → Fill start end (gap ∷ rest) gaps'
  whole :
      (start end : ℕ) (gap : Gap) (rest gaps' : List Gap)
      → start ≡ gap.start
      → end ≡ gap.end
      → gaps' ≡ rest
      → Fill start end (gap ∷ rest) gaps'
  lower :
      (start end : ℕ) (gap : Gap) (rest gaps' : List Gap)
      → start ≡ gap.start
      → end < gap.end
      → gaps' ≡ record gap { start = end } ∷ rest
      → Fill start end (gap ∷ rest) gaps'
  upper :
      (start end : ℕ) (gap : Gap) (rest gaps' : List Gap)
      → gap.start < start
      → start < gap.end
      → end ≡ gap.end
      → gaps' ≡ record gap { end = start } ∷ rest
      → Fill start end (gap ∷ rest) gaps'
  middle :
      (start end : ℕ) (gap : Gap) (rest gaps' : List Gap)
      → gap.start < start
      → end < gap.end
      → gaps' ≡ record gap { end = start } ∷ record gap { start = end } ∷ rest
      → Fill start end (gap ∷ rest) gaps'

-- The code keeps a packet only by one of the rules.
pub fill_plain-Fill :
    (memory : Bool) (now start len : ℕ) (gaps gaps' : List Gap)
    → fill_plain memory now start (start + len) gaps ≡ some gaps'
    → Fill start (start + len) gaps gaps'
unfolding fill_plain
fill_plain-Fill memory now start len [] gaps' e = absurd (cc)
fill_plain-Fill memory now start len (gap ∷ rest) gaps' e =
    elim (Option-cases (fill_plain memory now start (start + len) rest)) [
      | inl stop ↦ ground (
        arith,
        Fill.whole start (start + len) gap rest gaps',
        Fill.lower start (start + len) gap rest gaps',
        Fill.upper start (start + len) gap rest gaps',
        Fill.middle start (start + len) gap rest gaps',
      )
      | inr (rest', more) ↦ ground (
        arith,
        Fill.skip start (start + len) gap rest rest' gaps'
            (fill_plain-Fill memory now start len rest rest' more),
        Fill.whole start (start + len) gap rest gaps',
        Fill.lower start (start + len) gap rest gaps',
        Fill.upper start (start + len) gap rest gaps',
        Fill.middle start (start + len) gap rest gaps',
      )
    ]
