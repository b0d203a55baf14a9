-- ===== src/Outgoing/Fill.antt =====
-- `homa_xmit_data` sends the packets of a message in order, as far as it is granted, and
-- `homa_message_out_fill` all that needs no grant.
use connected_homa.Prelude.{
  ℕ, ◌+◌, ◌≤◌, ◌<◌, ◌≡◌, refl, ap, sym, ◌∙◌, ◌⊎◌, inl, inr, subst, Bool, true, false, Option, List,
  [], ◌∷◌, ◌++◌, map, All, leb, arith, Bool-cases, Option-cases,
}
use connected_homa.Rpc.{OutPacket, MessageOut}
use connected_homa.Outgoing.Tiles.{Tiles}
use connected_homa.Outgoing.{
  Sender, Sent, Xmit, xmit_packets, homa_xmit_data, may_send, data_priority, stop, add_sent,
}

-- What `homa_xmit_data` has sent, of the packets `todo` that were to be sent.
pub record Progress (s : Sender) (m : MessageOut) (todo : List OutPacket) (x : Xmit) : Type 0 where
  pub order : map (λ (y : Sent). y.packet) x.sent ++ x.msgout.next_xmit ≡ todo
  pub granted : All (λ (y : Sent). y.packet.offset < m.granted) x.sent
  pub place : Tiles x.msgout.next_xmit_offset m.length x.msgout.next_xmit
  pub frame :
      (x.msgout.length ≡ m.length)
      × (x.msgout.granted ≡ m.granted)
      × (x.msgout.packets ≡ m.packets)
      × (m.next_xmit_offset ≤ x.msgout.next_xmit_offset)
  pub stopped :
      (x.throttled ≡ true)
      ⊎ (m.granted ≤ x.msgout.next_xmit_offset)
      ⊎ (x.msgout.next_xmit ≡ [])
      ⊎ ((offset : ℕ) × (s.alive offset ≡ false))

rest_of : OutPacket → List OutPacket → MessageOut → MessageOut
rest_of skb rest m = record m {
  next_xmit = rest;
  next_xmit_offset = m.next_xmit_offset + skb.data_bytes;
}

stop-Progress :
    (s : Sender) (m : MessageOut) (todo : List OutPacket) (idle : ℕ) (throttled : Bool)
    → m.next_xmit ≡ todo
    → Tiles m.next_xmit_offset m.length todo
    → (throttled ≡ true)
      ⊎ (m.granted ≤ m.next_xmit_offset)
      ⊎ (todo ≡ [])
      ⊎ ((offset : ℕ) × (s.alive offset ≡ false))
    → Progress s m todo (stop m idle throttled)
stop-Progress s m todo idle throttled e t why = record {
  order = e;
  granted = tt;
  place = subst (λ l. Tiles m.next_xmit_offset m.length l) (sym e) t;
  frame = (refl, refl, refl, omega arith);
  stopped = elim why [
    | inl full ↦ inl full
    | inr (inl enough) ↦ inr (inl enough)
    | inr (inr (inl nothing)) ↦ inr (inr (inl (e ∙ nothing)))
    | inr (inr (inr gone)) ↦ inr (inr (inr gone))
  ];
}

-- Once a packet has been sent, and `x` is what came of the rest.
sent-Progress :
    (s : Sender) (m : MessageOut) (skb : OutPacket) (rest : List OutPacket) (priority : Option ℕ)
    (x : Xmit)
    → m.next_xmit_offset < m.granted
    → skb.offset ≡ m.next_xmit_offset
    → Progress s (rest_of skb rest m) rest x
    → Progress s m (skb ∷ rest) (add_sent (record { packet = skb; priority = priority }) x)
unfolding rest_of
sent-Progress s m skb rest priority x g e p = record {
  order = ap (λ l. skb ∷ l) p.order;
  granted = (omega arith, p.granted);
  place = p.place;
  frame = (p.frame.0, p.frame.1, p.frame.2, omega (arith, p.frame.3));
  stopped = p.stopped;
}

pub xmit_packets-Progress :
    (s : Sender) (force : Bool) (idle : ℕ) (m : MessageOut) (todo : List OutPacket)
    → m.next_xmit ≡ todo
    → Tiles m.next_xmit_offset m.length todo
    → Progress s m todo (xmit_packets s force idle m todo)
unfolding xmit_packets rest_of
xmit_packets-Progress s force idle m [] e t =
    stop-Progress s m [] idle false e t (inr (inr (inl refl)))
xmit_packets-Progress s force idle m (skb ∷ rest) e t =
    elim (Bool-cases (leb m.granted m.next_xmit_offset)) [
      | inl enough ↦
          rw (enough, xmit_packets)
            (stop-Progress s m (skb ∷ rest) idle false e t (inr (inl (ground (arith, enough)))))
      | inr more ↦
          let g : m.next_xmit_offset < m.granted = ground (arith, more) in
          elim (Option-cases (may_send s force idle m skb)) [
            | inl full ↦
                rw (more, full, xmit_packets)
                  (stop-Progress s m (skb ∷ rest) idle true e t (inl refl))
            | inr (idle', free) ↦
                let m' = rest_of skb rest m in
                let priority = data_priority s m in
                elim (Bool-cases (s.alive m.next_xmit_offset)) [
                  | inl there ↦
                      rw (more, free, there, xmit_packets)
                        (sent-Progress s m skb rest priority (xmit_packets s false idle' m' rest) g
                          t.0 (xmit_packets-Progress s false idle' m' rest refl t.2))
                  | inr gone ↦
                      rw (more, free, gone, xmit_packets)
                        (sent-Progress s m skb rest priority (stop m' idle' false) g t.0 (
                          stop-Progress s m' rest idle' false refl t.2
                            (inr (inr (inr (m.next_xmit_offset, gone))))))
                ]
          ]
    ]

-- No packet goes beyond a limit that none of them crosses, if no more than that is granted.
pub xmit_packets-within :
    (limit : ℕ) (s : Sender) (force : Bool) (idle : ℕ) (m : MessageOut) (todo : List OutPacket)
    → Tiles m.next_xmit_offset m.length todo
    → m.granted ≤ limit
    → m.next_xmit_offset ≤ limit
    → All (λ (p : OutPacket). (limit ≤ p.offset) ⊎ (p.offset + p.data_bytes ≤ limit)) todo
    → (xmit_packets s force idle m todo).msgout.next_xmit_offset ≤ limit
unfolding xmit_packets rest_of
xmit_packets-within limit s force idle m [] t g o fits = o
xmit_packets-within limit s force idle m (skb ∷ rest) t g o (fit, fits) =
    elim (Bool-cases (leb m.granted m.next_xmit_offset)) [
      | inl enough ↦ rw (enough, xmit_packets) o
      | inr more ↦
          let below : m.next_xmit_offset + skb.data_bytes ≤ limit = elim fit [
            | inl above ↦ absurd (ground (arith, t.0, more))
            | inr in_limit ↦ omega (arith, t.0, in_limit)
          ] in
          elim (Option-cases (may_send s force idle m skb)) [
            | inl full ↦ rw (more, full, xmit_packets) o
            | inr (idle', free) ↦ elim (Bool-cases (s.alive m.next_xmit_offset)) [
              | inl there ↦
                  rw (more, free, there, xmit_packets)
                    (xmit_packets-within limit s false idle' (rest_of skb rest m) rest t.2 g below
                      fits)
              | inr gone ↦ rw (more, free, gone, xmit_packets) below
            ]
          ]
    ]

-- When the packets of a message that are still to be sent follow one another up to its end,
-- `homa_xmit_data` sends a first part of them in order, and none that starts at or beyond `granted`. It
-- stops because the queue of the network interface is full, because all is sent that is granted, because
-- no packet is left, or because the RPC was freed; and the message is ready to be sent on from there.
pub homa_xmit_data-Progress :
    (s : Sender) (force : Bool) (idle : ℕ) (m : MessageOut)
    → Tiles m.next_xmit_offset m.length m.next_xmit
    → Progress s m m.next_xmit (homa_xmit_data s force idle m)
unfolding homa_xmit_data
homa_xmit_data-Progress s force idle m t = xmit_packets-Progress s force idle m m.next_xmit refl t
