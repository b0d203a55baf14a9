-- ===== src/Incoming.antt =====
-- homa_incoming.c, `homa_gap_new`, `homa_gap_retry` and `homa_add_packet`: which bytes of a message
-- have arrived. The numbers of a message and the offset of a packet are words of 32 bits, which
-- `homa_add_packet` adds and compares as C `int`s; a word from 2^31 on is negative there.
pub mod Plain
pub mod Fill
pub mod Account
pub mod Agree
pub mod Valid
pub mod Reception
pub mod Retry
mod Tests
use connected_homa.Prelude.{
  ℕ, ◌+◌, ◌-◌, Bool, true, false, Option, none, some, List, [], ◌∷◌, ◌++◌, map, ltb, leb, ◌==◌,
  if◌then◌else◌,
}
use mathlib.Core.Option
use connected_homa.Prelude.Word.{lt32, le32, add32, sub32}
use connected_homa.Rpc.{Gap, Packet, MessageIn}

-- `homa_gap_new`: `none` where `kmalloc` fails. The caller puts the gap before its `next`.
pub homa_gap_new : Bool → ℕ → ℕ → ℕ → Option Gap
homa_gap_new memory now start end =
    if memory then some (record { start = start; end = end; time = now }) else none

-- The metrics that `homa_add_packet` counts.
pub record Metrics : Type 0 where
  pub resent_discards : ℕ
  pub packet_discards : ℕ
  pub resent_packets_used : ℕ

-- What is done with the packet: linked into `msgin.packets`, or freed.
pub data Outcome : Type 0 where
  kept discarded : Outcome

-- Splits a gap round [start, end): `gap2` takes the time of `gap`, which keeps the upper part.
pub split_gap : Bool → ℕ → ℕ → ℕ → Gap → List Gap → Option (List Gap)
unfolding homa_gap_new
split_gap memory now start end gap rest = elim (homa_gap_new memory now gap.start start) [
  | none ↦ none
  | some gap2 ↦ some (record gap2 { time = gap.time } ∷ record gap { start = end } ∷ rest)
]

-- The loop over `msgin.gaps`: the new list where the packet is kept, `none` where it is discarded,
-- also by falling out of the loop.
pub fill_gaps : Bool → ℕ → ℕ → ℕ → List Gap → Option (List Gap)
unfolding split_gap
fill_gaps memory now start end [] = none
fill_gaps memory now start end (gap ∷ rest) =
    let continue = Option.map (◌∷◌ gap) (fill_gaps memory now start end rest) in
    if le32 start gap.start
    then (if le32 end gap.start
        then continue
        else if lt32 start gap.start
        then none
        else if lt32 gap.end end
        then none
        else if le32 gap.end end
        then some rest
        else some (record gap { start = end } ∷ rest))
    else if le32 gap.end end
    then (if le32 gap.end start
        then continue
        else if lt32 gap.end end
        then none
        else some (record gap { end = start } ∷ rest))
    else split_gap memory now start end gap rest

pub keep : MessageIn → Packet → MessageIn
keep m p = record m {
  packets = m.packets ++ p ∷ [];
  bytes_remaining = sub32 m.bytes_remaining p.len;
}

-- `homa_add_packet` up to its labels `keep` and `discard`; `memory` and `now` are what `kmalloc` and
-- `sched_clock` answer.
pub add_packet : Bool → ℕ → MessageIn → Packet → MessageIn × Outcome
unfolding homa_gap_new fill_gaps keep
add_packet memory now m p =
    if lt32 m.length end
    then (m, discarded)
    else if start == m.recv_end
    then (keep (record m { recv_end = add32 m.recv_end p.len }) p, kept)
    else if lt32 m.recv_end start
    then elim (homa_gap_new memory now m.recv_end start) [
      | none ↦ (m, discarded)
      | some gap ↦ (keep (record m { gaps = m.gaps ++ gap ∷ []; recv_end = end }) p, kept)
    ]
    else elim (fill_gaps memory now start end m.gaps) [
      | none ↦ (m, discarded)
      | some gaps ↦ (keep (record m { gaps = gaps }) p, kept)
    ]
  where
    start : ℕ
    start = p.offset

    end : ℕ
    end = add32 p.offset p.len

count_outcome : Metrics → Bool → Outcome → Metrics
count_outcome c true kept = record c { resent_packets_used = c.resent_packets_used + 1 }
count_outcome c false kept = c
count_outcome c true discarded = record c { resent_discards = c.resent_discards + 1 }
count_outcome c false discarded = record c { packet_discards = c.packet_discards + 1 }

-- `homa_add_packet` with what it counts.
pub homa_add_packet : Bool → ℕ → MessageIn → Metrics → Packet → MessageIn × Metrics
unfolding add_packet count_outcome
homa_add_packet memory now m c p =
    let (m', outcome) = add_packet memory now m p in (m', count_outcome c p.retransmit outcome)

-- What `homa_gap_retry` puts in a RESEND packet.
pub record Resend : Type 0 where
  pub offset : ℕ
  pub length : ℕ
  pub priority : ℕ

-- The body of the loop of `homa_gap_retry`. A gap has `start <= end`.
pub resend_of_gap : ℕ → Gap → Resend
resend_of_gap num_priorities gap = record {
  offset = gap.start;
  length = gap.end - gap.start;
  priority = num_priorities - 1;
}

-- `homa_gap_retry`: the RESEND packets that it sends, in order.
unfoldable pub homa_gap_retry : ℕ → MessageIn → List Resend
unfolding resend_of_gap
homa_gap_retry num_priorities m = map (resend_of_gap num_priorities) m.gaps
