-- ===== src/Outgoing/Tiles.antt =====
-- The packets of a message follow one another without holes.
use connected_homa.Prelude.{
  ℕ, zero, suc, ◌+◌, ◌-◌, ◌≤◌, ◌<◌, ◌≡◌, refl, ◌⊎◌, inl, inr, subst, Bool, List, [], ◌∷◌, All,
  arith, Bool-cases,
}
use connected_homa.Rpc.{OutPacket, MessageOut}
use connected_homa.Outgoing.{
  Route, max_seg_data, homa_new_data_packet, packet_size, Copied, copied, wild, dead, dry, link,
  copy_packets,
}

-- From byte `from` to byte `to`, in packets that are not empty.
abbrev pub Tiles : ℕ → ℕ → List OutPacket → Type 0
Tiles from to [] = from ≡ to
Tiles from to (p ∷ ps) = (p.offset ≡ from) × (0 < p.data_bytes) × Tiles (from + p.data_bytes) to ps

-- No packet is larger than `max_gso`, or reaches across `bound`.
abbrev pub Fits : ℕ → ℕ → OutPacket → Type 0
Fits max_gso bound p =
    (p.data_bytes ≤ max_gso) × ((bound ≤ p.offset) ⊎ (p.offset + p.data_bytes ≤ bound))

packet_size-Fits :
    (max_gso : ℕ) (m : MessageOut) (left : ℕ)
    → 0 < max_gso
    → 0 < left
    → left ≤ m.length
    → (0 < packet_size max_gso m left)
      × (packet_size max_gso m left ≤ left)
      × (packet_size max_gso m left ≤ max_gso)
      × ((m.unscheduled ≤ m.length - left)
          ⊎ (m.length - left + packet_size max_gso m left ≤ m.unscheduled))
unfolding packet_size
packet_size-Fits max_gso m left pos more inside = ground arith

-- What the loop that copies a message leaves: packets for all that is left, or an error; never that the
-- fuel runs out.
abbrev pub Result : ℕ → ℕ → ℕ → ℕ → ℕ → Copied → Type 0
Result max_gso bound seg from to (copied ps) =
    Tiles from to ps × All (Fits max_gso bound) ps × All (λ (p : OutPacket). p.seg_length ≡ seg) ps
Result max_gso bound seg from to wild = Unit {0}
Result max_gso bound seg from to dead = Unit {0}
Result max_gso bound seg from to dry = ⊥

link-Result :
    (max_gso bound seg from to : ℕ) (p : OutPacket) (c : Copied)
    → p.offset ≡ from
    → 0 < p.data_bytes
    → Fits max_gso bound p
    → p.seg_length ≡ seg
    → Result max_gso bound seg (from + p.data_bytes) to c
    → Result max_gso bound seg from to (link p c)
link-Result max_gso bound seg from to p (copied ps) e pos f g (t, fits, segs) =
    ((e, pos, t), (f, fits), (g, segs))
link-Result max_gso bound seg from to p wild e pos f g r = tt
link-Result max_gso bound seg from to p dead e pos f g r = tt
link-Result max_gso bound seg from to p dry e pos f g r = r

pub copy_packets-Result :
    (route : Route) (max_gso : ℕ) (fresh alive : ℕ → Bool) (m : MessageOut) (fuel left : ℕ)
    → 0 < max_gso
    → left ≤ fuel
    → left ≤ m.length
    → Result max_gso m.unscheduled
        (max_seg_data route)
        (m.length - left)
        m.length
        (copy_packets route max_gso fresh alive m fuel left)
unfolding copy_packets homa_new_data_packet
copy_packets-Result route max_gso fresh alive m zero zero pos f l = (omega arith, tt, tt)
copy_packets-Result route max_gso fresh alive m (suc fuel) zero pos f l = (omega arith, tt, tt)
copy_packets-Result route max_gso fresh alive m zero (suc left) pos f l = absurd (omega arith)
copy_packets-Result route max_gso fresh alive m (suc fuel) (suc left) pos f l =
    let offset = m.length - suc left in
    let size = packet_size max_gso m (suc left) in
    let (size_pos, size_left, size_gso, size_bound) =
      packet_size-Fits max_gso m (suc left) pos (omega arith) l in
    elim (Bool-cases (fresh offset)) [
      | inr failed ↦ rw (failed, copy_packets) tt
      | inl got ↦ elim (Bool-cases (alive offset)) [
        | inr gone ↦ rw (got, gone, copy_packets) tt
        | inl there ↦
            let rest =
              copy_packets-Result route max_gso fresh alive m fuel (suc left - size) pos
                (omega arith) (omega arith) in
            let next : m.length - (suc left - size) ≡ offset + size = omega arith in
            rw (got, there, copy_packets)
              (link-Result max_gso m.unscheduled (max_seg_data route) offset m.length
                (homa_new_data_packet route offset size)
                (copy_packets route max_gso fresh alive m fuel (suc left - size)) refl size_pos
                (size_gso, size_bound) refl
                (subst
                  (λ k.
                    Result max_gso m.unscheduled (max_seg_data route) k m.length
                      (copy_packets route max_gso fresh alive m fuel (suc left - size)))
                  next rest))
      ]
    ]
