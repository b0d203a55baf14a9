-- ===== src/Outgoing/Resend.antt =====
-- homa_outgoing.c, `homa_resend_data`: the packets of a range of bytes are sent again, in segments.
pub mod Covers
use connected_homa.Prelude.{
  ℕ, zero, suc, ◌+◌, ◌-◌, ◌≤◌, ◌<◌, ◌≡◌, refl, ap, sym, subst, ◌∙◌, ◌⊎◌, inl, inr, Bool, true,
  false, not, none, some, List, [], ◌∷◌, ◌++◌, All, ltb, leb, ◌==◌, if◌then◌else◌, arith,
  Bool-cases,
}
use connected_homa.Rpc.{OutPacket, MessageOut}
use connected_homa.Outgoing.{Sender, Route, homa_check_nic_queue, data_hdr_size, eth_overhead}

-- A DATA packet that is sent again, with `h->incoming`; `h->retransmit` is set in all of them.
pub record Segment : Type 0 where
  pub offset : ℕ
  pub length : ℕ
  pub incoming : ℕ

-- What the two loops have sent, and whether the inner one has left both.
pub record Resent : Type 0 where
  pub segments : List Segment
  pub done : Bool

abbrev pub add_segment : Segment → Resent → Resent
add_segment s r = record r { segments = s ∷ r.segments }

-- `h->incoming`
abbrev pub incoming_of : MessageOut → ℕ → ℕ
incoming_of m end =
    if leb end m.granted then m.granted else if ltb m.length end then m.length else end

-- The loop over the segments of a packet, with `left` bytes left at `offset`. `fresh` says whether the
-- new packet for an offset can be made. A segment is not empty, so there are at most `left` rounds.
unfoldable pub resend_segments : (ℕ → Bool) → MessageOut → ℕ → ℕ → ℕ → ℕ → ℕ → ℕ → Resent
resend_segments fresh m start end seg fuel offset zero = record { segments = []; done = false }
resend_segments fresh m start end seg zero offset (suc left) = record {
  segments = [];
  done = false;
}
resend_segments fresh m start end seg (suc fuel) offset (suc left) =
    let size = if ltb (suc left) seg then suc left else seg in
    let rest = resend_segments fresh m start end seg fuel (offset + size) (suc left - size) in
    let segment : Segment = record {
      offset = offset;
      length = size;
      incoming = incoming_of m (offset + size);
    } in
    if leb end offset
    then record { segments = []; done = true }
    else if leb (offset + size) start
    then rest
    else if not (fresh offset)
    then record { segments = []; done = true }
    else add_segment segment rest

-- The outer loop, over the packets of the message.
unfoldable pub resend_packets : (ℕ → Bool) → MessageOut → ℕ → ℕ → List OutPacket → List Segment
unfolding resend_segments
resend_packets fresh m start end [] = []
resend_packets fresh m start end (p ∷ ps) =
    let seg = if leb p.gso_segs 1 then p.data_bytes else p.seg_length in
    let sent = resend_segments fresh m start end seg p.data_bytes p.offset p.data_bytes in
    let rest = resend_packets fresh m start end ps in
    if leb end p.offset
    then []
    else if leb (p.offset + p.data_bytes) start
    then rest
    else if sent.done
    then sent.segments
    else sent.segments ++ rest

-- The segments that `homa_resend_data` sends.
unfoldable pub resend_range : (ℕ → Bool) → MessageOut → ℕ → ℕ → List Segment
unfolding resend_packets
resend_range fresh m start end =
    if leb end start then [] else resend_packets fresh m start end m.packets

-- `link_idle_time` after the segments, which are sent whatever the length of the queue.
pub queue_segments : Sender → Route → ℕ → List Segment → ℕ
queue_segments s route idle [] = idle
queue_segments s route idle (g ∷ gs) =
    let wire_bytes = route.ip_header_length + data_hdr_size + g.length + eth_overhead in
    elim (homa_check_nic_queue s.nic (s.clock g.offset) idle wire_bytes true) [
      | none ↦ queue_segments s route idle gs
      | some idle' ↦ queue_segments s route idle' gs
    ]

-- `homa_resend_data`: what is sent, and `link_idle_time` after that.
pub homa_resend_data : Sender → Route → (ℕ → Bool) → ℕ → MessageOut → ℕ → ℕ → List Segment × ℕ
unfolding resend_range queue_segments
homa_resend_data s route fresh idle m start end =
    let segments = resend_range fresh m start end in
    (segments, queue_segments s route idle segments)
