-- ===== src/Receive.antt =====
-- homa_incoming.c: `homa_message_in_init` and `homa_data_pkt`, how a message begins to arrive and what is
-- done with each of its packets. Numbers in packets are words of 32 bits, which the code takes as `int`s.
pub mod Placed
pub mod Valid
pub mod Identity
mod Tests
use connected_homa.Prelude.{
  ℕ, ◌+◌, Bool, true, false, not, ◌&&◌, Option, none, some, List, [], ◌∷◌, leb, ◌^◌, is_some, ◌==◌,
  if◌then◌else◌, length,
}
use connected_homa.Prelude.Word.{lt32}
use connected_homa.Rpc.{
  Packet, MessageIn, Rpc, State, outgoing, incoming, in_service, dead, is_client,
}
use connected_homa.Incoming.{Metrics, homa_add_packet}
use connected_homa.Buffers.{
  Waiter, Buffers, Answer, failed, queued, granted, forever, homa_pool_allocate,
}
use connected_homa.Buffers.Queue.{Moment}
use connected_homa.Handlers.{is_outgoing}

-- The message before buffers are allocated; `birth` is set later.
abbrev pub unplaced : ℕ → ℕ → ℕ → MessageIn
unplaced birth length unsched = record {
  length = length;
  packets = [];
  recv_end = 0;
  gaps = [];
  bytes_remaining = length;
  granted = (if lt32 length unsched then length else unsched);
  rec_incoming = 0;
  rank = none;
  priority = 0;
  resend_all = false;
  birth = birth;
  num_bpages = 0;
  bpage_offsets = [];
}

-- What `homa_pool_allocate` leaves in the message, and `granted` after it.
pub with_buffers : MessageIn → Answer → MessageIn
with_buffers m failed = m
with_buffers m forever = m
with_buffers m queued = record m { granted = 0 }
with_buffers m (granted offsets) = record m {
  num_bpages = length offsets;
  bpage_offsets = offsets;
  granted = (if length offsets == 0 then 0 else m.granted);
}

-- `homa_pool_allocate` for a message from the network. For a negative length the code looks for a negative
-- number of pages, which it never reaches.
unfoldable pub allocate : Moment → ℕ → ℕ → Buffers → Buffers × Answer
allocate t id length b =
    if leb (2 ^ 31) length && is_some b.pool.region
    then (b, forever)
    else homa_pool_allocate t.core t.now t.lease_end (record { id = id; length = length }) b

-- `homa_message_in_init`: the message, the socket's buffers, and what `homa_pool_allocate` answered; the
-- result is an error where that is `failed`.
unfoldable pub homa_message_in_init :
    Moment → ℕ → ℕ → ℕ → ℕ → Buffers → MessageIn × Buffers × Answer
unfolding with_buffers allocate
homa_message_in_init t birth id length unsched b =
    let (b', answer) = allocate t id length b in
    (with_buffers (unplaced birth length unsched) answer, b', answer)

-- `struct homa_data_hdr`, what the receiver reads of it, with the length of the data.
pub record DataPacket : Type 0 where
  pub packet : Packet
  pub message_length : ℕ
  pub incoming : ℕ
  pub cutoff_version : ℕ

-- What the handler reads and changes besides the RPC: its address, under which it waits for buffers,
-- RPC_PKTS_READY of the RPC, the socket's buffers, the
-- counters, the socket's handoffs of the RPC, `peer->last_update_jiffies`, and how many CUTOFFS packets were sent.
pub record Surroundings : Type 0 where
  pub self : ℕ
  pub pkts_ready : Bool
  pub buffers : Buffers
  pub metrics : Metrics
  pub dropped_data_no_bufs : ℕ
  pub handoffs : ℕ
  pub last_update_jiffies : ℕ
  pub cutoffs_sent : ℕ

-- The first part of `homa_data_pkt`: whether the code goes on, or discards the packet.
pub admit : Moment → DataPacket → Rpc → Surroundings → Rpc × Surroundings × Bool
unfolding homa_message_in_init
admit t h rpc w =
    let (m, b, answer) = homa_message_in_init t 0 w.self h.message_length h.incoming w.buffers in
    let fine : Bool = elim answer [
      | failed ↦ false
      | forever ↦ false
      | queued ↦ true
      | granted _ ↦ true
    ] in
    let fresh : Bool = elim rpc.msgin [ none ↦ true | some _ ↦ false ] in
    elim rpc.state [
      | incoming ↦ (rpc, w, true)
      | outgoing ↦
          if is_client rpc.id
          then (record rpc { state = incoming; msgin = some m }, record w { buffers = b }, fine)
          else (rpc, w, fresh)
      | in_service ↦ (rpc, w, if is_client rpc.id then false else fresh)
      | dead ↦ (rpc, w, if is_client rpc.id then false else fresh)
    ]

-- The CUTOFFS packet at the end of `homa_data_pkt`.
pub check_cutoffs : ℕ → ℕ → DataPacket → Surroundings → Surroundings
check_cutoffs cutoff_version jiffies h w =
    if h.cutoff_version == cutoff_version
    then w
    else if jiffies == w.last_update_jiffies
    then w
    else record w { last_update_jiffies = jiffies; cutoffs_sent = w.cutoffs_sent + 1 }

-- The part of `homa_data_pkt` that stores the packet; `memory` is for the gaps. An RPC without `msgin` has
-- no buffers.
pub store : Bool → ℕ → ℕ → ℕ → DataPacket → Rpc → Surroundings → Rpc × Surroundings
unfolding check_cutoffs
store memory now cutoff_version jiffies h rpc w =
    let dropped = record w { dropped_data_no_bufs = w.dropped_data_no_bufs + h.packet.len } in
    elim rpc.msgin [
      | none ↦ (rpc, dropped)
      | some m ↦
          let (m', metrics) = homa_add_packet memory now m w.metrics h.packet in
          let has_packets : Bool = elim m'.packets [ [] ↦ false | _ ∷ _ ↦ true ] in
          let w' = record w { metrics = metrics } in
          let w'' =
            if has_packets && not w.pkts_ready
            then record w' { pkts_ready = true; handoffs = w.handoffs + 1 }
            else w' in
          if m.num_bpages == 0
          then (rpc, dropped)
          else (record rpc { msgin = some m' }, check_cutoffs cutoff_version jiffies h w'')
    ]

-- `homa_data_pkt`
pub homa_data_pkt : Moment → Bool → ℕ → ℕ → DataPacket → Rpc → Surroundings → Rpc × Surroundings
unfolding admit store
homa_data_pkt t memory cutoff_version jiffies h rpc w =
    let (rpc', w', goes_on) = admit t h rpc w in
    if goes_on then store memory t.now cutoff_version jiffies h rpc' w' else (rpc', w')
