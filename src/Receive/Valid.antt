-- ===== src/Receive/Valid.antt =====
-- A DATA packet of a message that fits the arrays leaves its RPC and the pool in order.
use connected_homa.Prelude.{
  ℕ, ◌+◌, ◌^◌, ◌<◌, ◌≤◌, ◌≡◌, refl, ap, sym, subst, ◌∙◌, ◌⊎◌, inl, inr, Bool, true, Option, none,
  some, List, ◌==◌, arith, Bool-cases, length,
}
use connected_homa.Rpc.{
  MessageIn, Packet, Rpc, State, outgoing, incoming, in_service, dead, is_client,
}
use connected_homa.Incoming.{Metrics, homa_add_packet}
use connected_homa.Incoming.Valid.{add_packet-IsValid, add_packet-frame, homa_add_packet-message}
use connected_homa.Pool.{Pool}
use connected_homa.Buffers.{pages_for, max_bpages}
use connected_homa.Buffers.Chunks.{Chunk, Sound}
use connected_homa.Buffers.Allocate.{hold}
use connected_homa.Buffers.Queue.{Moment}
use connected_homa.Receive.{DataPacket, Surroundings, admit, check_cutoffs, store, homa_data_pkt}
use connected_homa.Receive.Placed.{Placed, Arriving, homa_message_in_init-Placed}

-- The packet ends below 2^31, and its message needs no more pages than the arrays of the pool hold.
pub record InRange (h : DataPacket) : Type 0 where
  pub end : h.packet.offset + h.packet.len < 2 ^ 31
  pub pages : pages_for h.message_length ≤ max_bpages

-- What a DATA packet does to an RPC and the pool.
pub record Receives (chunks : List Chunk) (rpc rpc' : Rpc) (after : Pool) : Type 0 where
  pub arriving : Arriving rpc'.msgin
  pub pool :
      Sound after chunks 0
      ⊎ ((m : MessageIn) × (rpc'.msgin ≡ some m)
          × Sound after (hold m.length m.bpage_offsets chunks) 0)
  pub state :
      (rpc'.state ≡ rpc.state)
      ⊎ ((is_client rpc.id ≡ true) × (rpc.state ≡ outgoing) × (rpc'.state ≡ incoming))

abbrev at : Rpc → State → Option MessageIn → Rpc
at rpc s mi = record rpc { state = s; msgin = mi }

admit-Receives :
    (t : Moment) (h : DataPacket) (rpc : Rpc) (s : State) (mi : Option MessageIn) (w : Surroundings)
    (chunks : List Chunk)
    → Sound w.buffers.pool chunks 0
    → Arriving mi
    → InRange h
    → let r = admit t h (at rpc s mi) w in Receives chunks (at rpc s mi) r.0 r.1.buffers.pool
unfolding admit
admit-Receives t h rpc incoming mi w chunks s a f = record {
  arriving = a;
  pool = inl s;
  state = inl refl;
}
admit-Receives t h rpc in_service mi w chunks s a f = record {
  arriving = a;
  pool = inl s;
  state = inl refl;
}
admit-Receives t h rpc dead mi w chunks s a f = record {
  arriving = a;
  pool = inl s;
  state = inl refl;
}
admit-Receives t h rpc outgoing mi w chunks s a f = elim (Bool-cases (is_client rpc.id)) [
  | inr server ↦ rw server (record { arriving = a; pool = inl s; state = inl refl })
  | inl client ↦
      let (placed, added) =
        homa_message_in_init-Placed t 0 w.self h.message_length h.incoming w.buffers chunks s
          f.pages in
      rw client (record {
        arriving = placed;
        pool = elim added [ inl same ↦ inl same | inr more ↦ inr (_, refl, more) ];
        state = inr (client, refl, refl);
      })
]

-- A message with one more packet is placed as it was.
add_packet-Placed :
    (memory : Bool) (now : ℕ) (m : MessageIn) (c : Metrics) (p : Packet)
    → Placed m
    → p.offset + p.len < 2 ^ 31
    → let m' = (homa_add_packet memory now m c p).0 in
      Placed m' × (m'.length ≡ m.length) × (m'.bpage_offsets ≡ m.bpage_offsets)
add_packet-Placed memory now m c p v f =
    let (len, num, offsets) = add_packet-frame memory now m p in
    subst (λ k. Placed k × (k.length ≡ m.length) × (k.bpage_offsets ≡ m.bpage_offsets))
      (sym (homa_add_packet-message memory now m c p))
      (
        record {
          valid =
              add_packet-IsValid memory now m p v.valid
                (record { length = ground (arith, v.fits); end = f });
          offsets = num ∙ v.offsets ∙ ap (λ l. length l) (sym offsets);
          fits = subst (λ n. pages_for n ≤ max_bpages) (sym len) v.fits;
          whole = elim v.whole [
            | inl e ↦ inl (num ∙ e)
            | inr e ↦ inr (num ∙ e ∙ ap pages_for (sym len))
          ];
        },
        len,
        offsets,
      )

check_cutoffs-buffers :
    (version jiffies : ℕ) (h : DataPacket) (w : Surroundings)
    → (check_cutoffs version jiffies h w).buffers ≡ w.buffers
unfolding check_cutoffs
check_cutoffs-buffers version jiffies h w = ground arith

stored-Receives :
    (rpc : Rpc) (s : State) (m m' : MessageIn) (chunks : List Chunk) (old : Rpc)
    (before after : Pool)
    → Receives chunks old (at rpc s (some m)) before
    → Placed m' × (m'.length ≡ m.length) × (m'.bpage_offsets ≡ m.bpage_offsets)
    → after ≡ before
    → Receives chunks old (at rpc s (some m')) after
stored-Receives rpc s m m' chunks old before after v (placed, len, offsets) e = record {
  arriving = placed;
  pool = elim v.pool [
    | inl same ↦ inl (subst (λ p. Sound p chunks 0) (sym e) same)
    | inr (x, f, more) ↦
        let here : x ≡ m = cc in
        let held : hold x.length x.bpage_offsets chunks ≡ hold m'.length m'.bpage_offsets chunks =
          ap (λ (k : MessageIn). hold k.length k.bpage_offsets chunks) here
          ∙ ap (λ n. hold n m.bpage_offsets chunks) (sym len)
          ∙ ap (λ l. hold m'.length l chunks) (sym offsets) in
        inr (
          m',
          refl,
          subst (λ p. Sound p (hold m'.length m'.bpage_offsets chunks) 0) (sym e)
              (subst (λ l. Sound before l 0) held more),
        )
  ];
  state = v.state;
}

store-Receives :
    (memory : Bool) (now version jiffies : ℕ) (h : DataPacket) (rpc : Rpc) (s : State)
    (mi : Option MessageIn) (w : Surroundings) (chunks : List Chunk) (old : Rpc)
    → Receives chunks old (at rpc s mi) w.buffers.pool
    → InRange h
    → let r = store memory now version jiffies h (at rpc s mi) w in
      Receives chunks old r.0 r.1.buffers.pool
unfolding store
store-Receives memory now version jiffies h rpc s none w chunks old v f = record {
  arriving = v.arriving;
  pool = v.pool;
  state = v.state;
}
store-Receives memory now version jiffies h rpc s (some m) w chunks old v f =
    elim (Bool-cases (m.num_bpages == 0)) [
      | inl dropped ↦
          rw (dropped, store) (record { arriving = v.arriving; pool = v.pool; state = v.state })
      | inr stored ↦
          let placed = add_packet-Placed memory now m w.metrics h.packet v.arriving f.end in
          let m' = (homa_add_packet memory now m w.metrics h.packet).0 in
          rw (stored, store)
            (stored-Receives rpc s m m' chunks old w.buffers.pool _ v placed
              (ground (arith, check_cutoffs-buffers version jiffies h)))
    ]

-- In a pool that satisfies the invariant, with an RPC whose incoming message, if it has one, is well formed,
-- needs at most HOMA_MAX_BPAGES pages, and has no buffers or as many as its length asks for, and for a packet
-- that ends below 2^31, of a message that needs at most HOMA_MAX_BPAGES pages: `homa_data_pkt` leaves such an
-- RPC. The pool satisfies the invariant, with the chunks of the message if it has got any; and the
-- state of the RPC stays, but that a client's goes from RPC_OUTGOING to RPC_INCOMING.
pub homa_data_pkt-Receives :
    (t : Moment) (memory : Bool) (version jiffies : ℕ) (h : DataPacket) (rpc : Rpc)
    (w : Surroundings) (chunks : List Chunk)
    → Sound w.buffers.pool chunks 0
    → Arriving rpc.msgin
    → InRange h
    → let r = homa_data_pkt t memory version jiffies h rpc w in
      Receives chunks rpc r.0 r.1.buffers.pool
unfolding homa_data_pkt
homa_data_pkt-Receives t memory version jiffies h rpc w chunks s a f =
    let r = admit t h rpc w in
    let admitted = admit-Receives t h rpc rpc.state rpc.msgin w chunks s a f in
    elim (Bool-cases r.2) [
      | inl goes_on ↦ rw goes_on (
          store-Receives memory t.now version jiffies h r.0 r.0.state r.0.msgin r.1 chunks rpc
            admitted f)
      | inr discarded ↦ rw discarded admitted
    ]
