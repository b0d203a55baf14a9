-- ===== src/Outgoing/Whole.antt =====
-- `homa_message_out_fill`: the whole message is in packets, and what needs no grant is sent.
use connected_homa.Prelude.{
  ℕ, zero, suc, ◌+◌, ◌-◌, ◌*◌, ◌≤◌, ◌<◌, ◌≡◌, refl, sym, subst, ◌⊎◌, inl, inr, Bool, true, false,
  ◌||◌, List, [], ◌∷◌, All, ltb, ◌==◌, arith, Bool-cases,
}
use connected_homa.Rpc.{OutPacket, MessageOut}
use connected_homa.Outgoing.{
  Route, max_seg_data, max_gso_data, homa_message_out_init, Copied, copied, wild, dead, dry, link,
  copy_packets, Sender, Xmit, homa_xmit_data, xmit_packets, stop, filled, homa_message_out_fill,
  max_message_length,
}
use connected_homa.Outgoing.Tiles.{Tiles, Fits, Result, copy_packets-Result}
use connected_homa.Outgoing.Fill.{xmit_packets-Progress, xmit_packets-within}

abbrev Good : Copied → Type 0
Good (copied ps) = Unit {0}
Good dry = Unit {0}
Good wild = ⊥
Good dead = ⊥

link-Good : (p : OutPacket) (c : Copied) → Good c → Good (link p c)
link-Good p (copied ps) g = tt
link-Good p dry g = tt
link-Good p wild g = g
link-Good p dead g = g

copy_packets-Good :
    (route : Route) (max_gso : ℕ) (fresh alive : ℕ → Bool) (m : MessageOut) (fuel left : ℕ)
    → ((i : ℕ) → fresh i ≡ true)
    → ((i : ℕ) → alive i ≡ true)
    → Good (copy_packets route max_gso fresh alive m fuel left)
unfolding copy_packets
copy_packets-Good route max_gso fresh alive m zero zero f a = tt
copy_packets-Good route max_gso fresh alive m (suc fuel) zero f a = tt
copy_packets-Good route max_gso fresh alive m zero (suc left) f a = tt
copy_packets-Good route max_gso fresh alive m (suc fuel) (suc left) f a =
    rw (f (m.length - suc left), a (m.length - suc left), copy_packets)
      (link-Good _ (copy_packets route max_gso fresh alive m fuel _)
        (copy_packets-Good route max_gso fresh alive m fuel _ f a))

-- The message before it is copied.
abbrev begun : ℕ → ℕ → MessageOut
begun unsched_bytes len =
    let m = homa_message_out_init unsched_bytes len in record m { granted = m.unscheduled }

copied_all :
    (route : Route) (max_gso : ℕ) (fresh alive : ℕ → Bool) (m : MessageOut)
    → 0 < max_gso
    → ((i : ℕ) → fresh i ≡ true)
    → ((i : ℕ) → alive i ≡ true)
    → (ps : List OutPacket) × (copy_packets route max_gso fresh alive m m.length m.length
        ≡ copied ps)
      × Tiles 0 m.length ps
      × All (Fits max_gso m.unscheduled) ps
copied_all route max_gso fresh alive m pos f a =
    go (copy_packets route max_gso fresh alive m m.length m.length) refl
      (copy_packets-Good route max_gso fresh alive m m.length m.length f a)
      (subst
        (λ k.
          Result max_gso m.unscheduled (max_seg_data route) k m.length
            (copy_packets route max_gso fresh alive m m.length m.length))
        (omega arith)
        (copy_packets-Result route max_gso fresh alive m m.length m.length pos (omega arith)
          (omega arith)))
  where
    go :
        (c : Copied)
        → copy_packets route max_gso fresh alive m m.length m.length ≡ c
        → Good c
        → Result max_gso m.unscheduled (max_seg_data route) 0 m.length c
        → (ps : List OutPacket) × (copy_packets route max_gso fresh alive m m.length m.length
            ≡ copied ps)
          × Tiles 0 m.length ps
          × All (Fits max_gso m.unscheduled) ps
    go (copied ps) e g (t, fits, segs) = (ps, e, t, fits)
    go dry e g r = absurd r
    go wild e g r = absurd g
    go dead e g r = absurd g

times-positive : (n k : ℕ) → 0 < n → 0 < k → 0 < n * k
times-positive zero k a b = absurd (omega arith)
times-positive (suc n) k a b = omega (arith, b)

max_gso_data-positive :
    (max_gso_size : ℕ) (route : Route)
    → 0 < max_seg_data route
    → 0 < max_gso_data max_gso_size route
unfolding max_gso_data
max_gso_data-positive max_gso_size route pos =
    times-positive _ (max_seg_data route) (ground arith) pos

-- `homa_xmit_data` for a message of which the first `m.unscheduled` bytes are granted, before any is sent.
sends_granted :
    (s : Sender) (idle : ℕ) (m : MessageOut)
    → m.next_xmit_offset ≡ 0
    → m.granted ≡ m.unscheduled
    → m.unscheduled ≤ m.length
    → ((i : ℕ) → s.alive i ≡ true)
    → Tiles 0 m.length m.next_xmit
    → All
        (λ (p : OutPacket). (m.unscheduled ≤ p.offset) ⊎ (p.offset + p.data_bytes ≤ m.unscheduled))
        m.next_xmit
    → let x = homa_xmit_data s false idle m in
      (x.msgout.packets ≡ m.packets)
      × ((x.throttled ≡ true) ⊎ (x.msgout.next_xmit_offset ≡ m.unscheduled))
unfolding homa_xmit_data
sends_granted s idle m zero_offset g short a t fits =
    let tiles = subst (λ k. Tiles k m.length m.next_xmit) (sym zero_offset) t in
    let p = xmit_packets-Progress s false idle m m.next_xmit refl tiles in
    let x = xmit_packets s false idle m m.next_xmit in
    let top : x.msgout.next_xmit_offset ≤ m.unscheduled =
      xmit_packets-within m.unscheduled s false idle m m.next_xmit tiles (omega arith) (omega arith)
        fits in
    (
      p.frame.2,
      elim p.stopped [
        | inl full ↦ inl full
        | inr (inl enough) ↦ inr (omega arith)
        | inr (inr (inl nothing)) ↦
            let ended : x.msgout.next_xmit_offset ≡ m.length =
              subst (λ l. Tiles x.msgout.next_xmit_offset m.length l) nothing p.place in
            inr (omega arith)
        | inr (inr (inr (offset, gone))) ↦ absurd (cc (a offset))
      ],
    )

All-crosses :
    (max_gso bound : ℕ) (ps : List OutPacket)
    → All (Fits max_gso bound) ps
    → All (λ (p : OutPacket). (bound ≤ p.offset) ⊎ (p.offset + p.data_bytes ≤ bound)) ps
All-crosses max_gso bound [] f = tt
All-crosses max_gso bound (p ∷ ps) (f, fits) = (f.1, All-crosses max_gso bound ps fits)

-- For a message of 1 to HOMA_MAX_MESSAGE_LENGTH bytes on a route whose packets have room for data, when
-- every packet can be allocated and the RPC is not freed meanwhile: `homa_message_out_fill` ends and
-- succeeds. The packets cover the message from its first byte to its last, one after another, none empty,
-- larger than a GSO packet, or across the end of the unscheduled bytes. If it is to transmit, and the
-- message is at most two GSO packets long, then either the queue of the network interface was full or
-- exactly the unscheduled bytes have been sent.
pub homa_message_out_fill-Whole :
    (s : Sender) (route : Route) (max_gso_size unsched_bytes : ℕ) (fresh : ℕ → Bool) (idle len : ℕ)
    (xmit : Bool)
    → 0 < len
    → len ≤ max_message_length
    → 0 < max_seg_data route
    → ((i : ℕ) → fresh i ≡ true)
    → ((i : ℕ) → s.alive i ≡ true)
    → let m = homa_message_out_init unsched_bytes len in
      let max_gso = max_gso_data max_gso_size route in
      (x : Xmit) × (homa_message_out_fill s route max_gso_size unsched_bytes fresh idle len xmit
        ≡ filled x)
      × Tiles 0 len x.msgout.packets
      × All (Fits max_gso m.unscheduled) x.msgout.packets
      × ((xmit ≡ false)
          ⊎ (2 * max_gso < len)
          ⊎ (x.throttled ≡ true)
          ⊎ (x.msgout.next_xmit_offset ≡ m.unscheduled))
unfolding homa_message_out_fill homa_message_out_init
homa_message_out_fill-Whole s route max_gso_size unsched_bytes fresh idle len xmit pos short room f
      a =
    let m = begun unsched_bytes len in
    let max_gso = max_gso_data max_gso_size route in
    let (ps, e, t, fits) =
      copied_all route max_gso fresh s.alive m (max_gso_data-positive max_gso_size route room) f
        a in
    let ready : MessageOut = record m { packets = ps; next_xmit = ps } in
    let large : (ltb max_message_length len || len == 0) ≡ false = ground arith in
    elim (Bool-cases xmit) [
      | inr no_xmit ↦ (
        stop ready idle false,
        rw (large, e, no_xmit, homa_message_out_fill) refl,
        t,
        fits,
        inl no_xmit,
      )
      | inl send ↦ elim (Bool-cases (ltb (2 * max_gso) len)) [
        | inl overlap ↦ (
          stop ready idle (ltb 0 m.granted),
          rw (large, e, send, overlap, homa_message_out_fill) refl,
          t,
          fits,
          inr (inl (ground (arith, overlap))),
        )
        | inr small ↦
            let bound : m.unscheduled ≤ len = ground arith in
            let (same, sent) =
              sends_granted s idle ready refl refl bound a t
                (All-crosses max_gso m.unscheduled ps fits) in
            (
              homa_xmit_data s false idle ready,
              rw (large, e, send, small, homa_message_out_fill) refl,
              subst (λ l. Tiles 0 len l) (sym same) t,
              subst (λ l. All (Fits max_gso m.unscheduled) l) (sym same) fits,
              inr (inr sent),
            )
      ]
    ]
