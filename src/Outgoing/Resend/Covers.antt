-- ===== src/Outgoing/Resend/Covers.antt =====
-- `homa_resend_data` sends every byte that it is asked for, and only packets with such bytes.
use connected_homa.Prelude.{
  ℕ, zero, suc, ◌+◌, ◌-◌, ◌≤◌, ◌<◌, ◌≡◌, refl, subst, ◌⊎◌, inl, inr, Bool, true, false, List, [],
  ◌∷◌, ◌++◌, All, ltb, leb, if◌then◌else◌, arith, Bool-cases,
}
use connected_homa.Rpc.{OutPacket, MessageOut}
use connected_homa.Outgoing.{Sender, Route}
use connected_homa.Outgoing.Tiles.{Tiles}
use connected_homa.Outgoing.Resend.{
  Segment, Resent, resend_segments, resend_packets, resend_range, homa_resend_data,
}

-- The byte is in one of the segments.
abbrev pub In : ℕ → List Segment → Type 0
In x [] = ⊥
In x (s ∷ ss) = ((s.offset ≤ x) × (x < s.offset + s.length)) ⊎ In x ss

-- The segment has bytes of the message from `start` to `end`, and says how much more is granted.
abbrev pub Asked : MessageOut → ℕ → ℕ → Segment → Type 0
Asked m start end s =
    (start < s.offset + s.length)
    × (s.offset < end)
    × (s.offset + s.length ≤ m.length)
    × (s.offset + s.length ≤ s.incoming)
    × (s.incoming ≤ m.length)

pub In-right : (x : ℕ) (l r : List Segment) → In x r → In x (l ++ r)
In-right x [] r i = i
In-right x (s ∷ l) r i = inr (In-right x l r i)

pub In-left : (x : ℕ) (l r : List Segment) → In x l → In x (l ++ r)
In-left x [] r i = absurd i
In-left x (s ∷ l) r (inl h) = inl h
In-left x (s ∷ l) r (inr i) = inr (In-left x l r i)

Tiles-le : (from to : ℕ) (ps : List OutPacket) → Tiles from to ps → from ≤ to
Tiles-le from to [] t = omega arith
Tiles-le from to (p ∷ ps) (e, pos, t) = omega (arith, Tiles-le (from + p.data_bytes) to ps t)

All-append : (P : Segment → Type 0) (l r : List Segment) → All P l → All P r → All P (l ++ r)
All-append P [] r a b = b
All-append P (s ∷ l) r (p, a) b = (p, All-append P l r a b)

-- What comes of a packet from `offset` on: the byte is in a segment, or lies behind the packet and the
-- loops go on; and if they do not, what is behind the packet was not asked for.
abbrev Covers : ℕ → ℕ → ℕ → Resent → Type 0
Covers x end to r = In x r.segments ⊎ ((to ≤ x) × (r.done ≡ false))

module _ (fresh : ℕ → Bool) (m : MessageOut) (start end : ℕ) where
  resend_segments-Covers :
      (x seg fuel offset left : ℕ)
      → ((i : ℕ) → fresh i ≡ true)
      → 0 < seg
      → left ≤ fuel
      → start ≤ x
      → x < end
      → offset ≤ x
      → Covers x end (offset + left) (resend_segments fresh m start end seg fuel offset left)
  unfolding resend_segments
  resend_segments-Covers x seg zero offset zero f pos l a b c = inr (omega arith, refl)
  resend_segments-Covers x seg (suc fuel) offset zero f pos l a b c = inr (omega arith, refl)
  resend_segments-Covers x seg zero offset (suc left) f pos l a b c = absurd (omega arith)
  resend_segments-Covers x seg (suc fuel) offset (suc left) f pos l a b c =
      let size : ℕ = if ltb (suc left) seg then suc left else seg in
      let size_pos : 0 < size = ground arith in
      let size_left : size ≤ suc left = ground arith in
      let next = resend_segments fresh m start end seg fuel (offset + size) (suc left - size) in
      let inside : leb end offset ≡ false = ground arith in
      elim (Bool-cases (leb (offset + size) x)) [
        | inl behind ↦
            let here : offset + size ≤ x = ground (arith, behind) in
            let rest =
              resend_segments-Covers x seg fuel (offset + size) (suc left - size) f pos
                (omega arith) a b here in
            let same : offset + size + (suc left - size) ≡ offset + suc left = omega arith in
            let covered : Covers x end (offset + suc left) next =
              subst (λ k. Covers x end k next) same rest in
            elim (Bool-cases (leb (offset + size) start)) [
              | inl skip ↦ rw (inside, skip, resend_segments) covered
              | inr hit ↦
                  rw (inside, hit, f offset, resend_segments)
                    (elim covered [ inl i ↦ inl (inr i) | inr later ↦ inr later ])
            ]
        | inr here ↦
            let hit : leb (offset + size) start ≡ false = ground (arith, here) in
            rw (inside, hit, f offset, resend_segments) (inl (inl (c, ground (arith, here))))
      ]

  resend_packets-In :
      (x from : ℕ) (ps : List OutPacket)
      → ((i : ℕ) → fresh i ≡ true)
      → Tiles from m.length ps
      → All (λ (p : OutPacket). 0 < p.seg_length) ps
      → start ≤ x
      → x < end
      → from ≤ x
      → x < m.length
      → In x (resend_packets fresh m start end ps)
  unfolding resend_packets
  resend_packets-In x from [] f t segs a b c d = absurd (omega arith)
  resend_packets-In x from (p ∷ ps) f (at, pos, t) (seg_pos, segs) a b c d =
      let seg : ℕ = if leb p.gso_segs 1 then p.data_bytes else p.seg_length in
      let some_seg : 0 < seg = ground arith in
      let sent = resend_segments fresh m start end seg p.data_bytes p.offset p.data_bytes in
      let rest = resend_packets fresh m start end ps in
      let inside : leb end p.offset ≡ false = ground arith in
      let later : from + p.data_bytes ≤ x → In x rest =
        λ h. resend_packets-In x (from + p.data_bytes) ps f t segs a b h d in
      elim (Bool-cases (leb (p.offset + p.data_bytes) start)) [
        | inl skip ↦ rw (inside, skip, resend_packets) (later (ground (arith, skip)))
        | inr hit ↦
            elim (resend_segments-Covers x seg p.data_bytes p.offset p.data_bytes f some_seg
              (omega arith) a b (omega arith)) [
                | inl i ↦ elim (Bool-cases sent.done) [
                  | inl over ↦ rw (inside, hit, over, resend_packets) i
                  | inr goes_on ↦
                      rw (inside, hit, goes_on, resend_packets) (In-left x sent.segments rest i)
                ]
                | inr (behind, goes_on) ↦
                    rw (inside, hit, goes_on, resend_packets)
                      (In-right x sent.segments rest (later (omega arith)))
              ]
      ]

  resend_segments-Asked :
      (seg fuel offset left : ℕ)
      → offset + left ≤ m.length
      → m.granted ≤ m.length
      → All (Asked m start end) (resend_segments fresh m start end seg fuel offset left).segments
  unfolding resend_segments
  resend_segments-Asked seg zero offset zero h g = tt
  resend_segments-Asked seg (suc fuel) offset zero h g = tt
  resend_segments-Asked seg zero offset (suc left) h g = tt
  resend_segments-Asked seg (suc fuel) offset (suc left) h g =
      let size : ℕ = if ltb (suc left) seg then suc left else seg in
      let size_left : size ≤ suc left = ground arith in
      let rest = resend_segments-Asked seg fuel (offset + size) (suc left - size) (omega arith) g in
      elim (Bool-cases (leb end offset)) [
        | inl over ↦ rw (over, resend_segments) tt
        | inr inside ↦ elim (Bool-cases (leb (offset + size) start)) [
          | inl skip ↦ rw (inside, skip, resend_segments) rest
          | inr hit ↦ elim (Bool-cases (fresh offset)) [
            | inl made ↦
                rw (inside, hit, made, resend_segments)
                  (
                    (
                      ground (arith, hit),
                      ground (arith, inside),
                      omega arith,
                      ground arith,
                      ground arith,
                    ),
                    rest,
                  )
            | inr failed ↦ rw (inside, hit, failed, resend_segments) tt
          ]
        ]
      ]

  resend_packets-Asked :
      (from : ℕ) (ps : List OutPacket)
      → Tiles from m.length ps
      → m.granted ≤ m.length
      → All (Asked m start end) (resend_packets fresh m start end ps)
  unfolding resend_packets
  resend_packets-Asked from [] t g = tt
  resend_packets-Asked from (p ∷ ps) (at, pos, t) g =
      let seg : ℕ = if leb p.gso_segs 1 then p.data_bytes else p.seg_length in
      let sent = resend_segments fresh m start end seg p.data_bytes p.offset p.data_bytes in
      let rest = resend_packets-Asked (from + p.data_bytes) ps t g in
      let here =
        resend_segments-Asked seg p.data_bytes p.offset p.data_bytes
          (omega (arith, at, Tiles-le (from + p.data_bytes) m.length ps t)) g in
      elim (Bool-cases (leb end p.offset)) [
        | inl over ↦ rw (over, resend_packets) tt
        | inr inside ↦ elim (Bool-cases (leb (p.offset + p.data_bytes) start)) [
          | inl skip ↦ rw (inside, skip, resend_packets) rest
          | inr hit ↦ elim (Bool-cases sent.done) [
            | inl ended ↦ rw (inside, hit, ended, resend_packets) here
            | inr goes_on ↦
                rw (inside, hit, goes_on, resend_packets)
                  (All-append (Asked m start end) sent.segments
                    (resend_packets fresh m start end ps) here rest)
          ]
        ]
      ]

-- If every packet can be made, `homa_resend_data` sends each byte from `start` to `end` that lies in the
-- message, when the packets of the message follow one another from its first byte to its last.
pub homa_resend_data-In :
    (s : Sender) (route : Route) (fresh : ℕ → Bool) (idle : ℕ) (m : MessageOut) (start end x : ℕ)
    → ((i : ℕ) → fresh i ≡ true)
    → Tiles 0 m.length m.packets
    → All (λ (p : OutPacket). 0 < p.seg_length) m.packets
    → start ≤ x
    → x < end
    → x < m.length
    → In x (homa_resend_data s route fresh idle m start end).0
unfolding homa_resend_data resend_range
homa_resend_data-In s route fresh idle m start end x f t segs a b c =
    let some_bytes : leb end start ≡ false = ground arith in
    rw (some_bytes, resend_range)
      (resend_packets-In fresh m start end x 0 m.packets f t segs a b (omega arith) c)

-- Each segment that `homa_resend_data` sends has a byte from `start` to `end`, lies in the message, and
-- announces at least its own bytes as granted and at most the message, when the packets of the message
-- follow one another from its first byte to its last and `granted` is at most its length.
pub homa_resend_data-Asked :
    (s : Sender) (route : Route) (fresh : ℕ → Bool) (idle : ℕ) (m : MessageOut) (start end : ℕ)
    → Tiles 0 m.length m.packets
    → m.granted ≤ m.length
    → All (Asked m start end) (homa_resend_data s route fresh idle m start end).0
unfolding homa_resend_data resend_range
homa_resend_data-Asked s route fresh idle m start end t g = elim (Bool-cases (leb end start)) [
  | inl nothing ↦ rw (nothing, resend_range) tt
  | inr some_bytes ↦
      rw (some_bytes, resend_range) (resend_packets-Asked fresh m start end 0 m.packets t g)
]
