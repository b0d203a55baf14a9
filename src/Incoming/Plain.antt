-- ===== src/Incoming/Plain.antt =====
-- The specification of `add_packet` on unbounded numbers, and that `add_packet` agrees with it where no sum
-- reaches 2^31.
use connected_homa.Prelude.{
  ℕ, ◌+◌, ◌-◌, Bool, Option, none, some, List, [], ◌∷◌, ◌++◌, ltb, leb, ◌==◌, if◌then◌else◌,
}
use mathlib.Core.Option
use connected_homa.Rpc.{Gap, Packet, MessageIn}
use connected_homa.Incoming.{homa_gap_new, Outcome, kept, discarded, split_gap}

-- The loop over the gaps.
unfoldable pub fill_plain : Bool → ℕ → ℕ → ℕ → List Gap → Option (List Gap)
unfolding split_gap
fill_plain memory now start end [] = none
fill_plain memory now start end (gap ∷ rest) =
    let continue = Option.map (◌∷◌ gap) (fill_plain memory now start end rest) in
    if leb start gap.start
    then (if leb end gap.start
        then continue
        else if ltb start gap.start
        then none
        else if ltb gap.end end
        then none
        else if leb gap.end end
        then some rest
        else some (record gap { start = end } ∷ rest))
    else if leb gap.end end
    then (if leb gap.end start
        then continue
        else if ltb gap.end end
        then none
        else some (record gap { end = start } ∷ rest))
    else split_gap memory now start end gap rest

unfoldable pub keep_plain : MessageIn → Packet → MessageIn
keep_plain m p = record m {
  packets = m.packets ++ p ∷ [];
  bytes_remaining = m.bytes_remaining - p.len;
}

-- The whole.
unfoldable pub add_plain : Bool → ℕ → MessageIn → Packet → MessageIn × Outcome
unfolding homa_gap_new fill_plain keep_plain
add_plain memory now m p =
    if ltb m.length end
    then (m, discarded)
    else if start == m.recv_end
    then (keep_plain (record m { recv_end = m.recv_end + p.len }) p, kept)
    else if ltb m.recv_end start
    then elim (homa_gap_new memory now m.recv_end start) [
      | none ↦ (m, discarded)
      | some gap ↦ (keep_plain (record m { gaps = m.gaps ++ gap ∷ []; recv_end = end }) p, kept)
    ]
    else elim (fill_plain memory now start end m.gaps) [
      | none ↦ (m, discarded)
      | some gaps ↦ (keep_plain (record m { gaps = gaps }) p, kept)
    ]
  where
    start : ℕ
    start = p.offset

    end : ℕ
    end = p.offset + p.len
