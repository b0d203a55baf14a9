-- ===== src/Outgoing.antt =====
-- homa_outgoing.c: how a message is cut into packets (`homa_message_out_init`, `homa_message_out_fill`,
-- `homa_new_data_packet`), when these are sent (`homa_check_nic_queue`, `homa_xmit_data`), and how a part
-- is sent again (`homa_resend_data`). `mtu` and the GSO size leave room for the headers; sums of times
-- stay below 2^64. Between two packets the RPC may be freed while its lock is not held.
pub mod Tiles
pub mod Fill
pub mod Whole
pub mod Resend
mod Tests
use connected_homa.Prelude.{
  ℕ, zero, suc, ◌+◌, ◌-◌, ◌*◌, ◌/◌, Bool, true, false, not, ◌&&◌, ◌||◌, Option, none, some, List,
  [], ◌∷◌, ◌++◌, ltb, leb, ◌==◌, if◌then◌else◌,
}
use connected_homa.Rpc.{OutPacket, MessageOut}
use connected_homa.Peer.{Peer, homa_unsched_priority}

-- HOMA_MAX_MESSAGE_LENGTH, HOMA_ETH_OVERHEAD, and the sizes of `struct homa_data_hdr` and
-- `struct homa_seg_hdr`
abbrev pub max_message_length : ℕ
max_message_length = 1000000

abbrev pub eth_overhead : ℕ
eth_overhead = 42

abbrev pub data_hdr_size : ℕ
data_hdr_size = 56

abbrev pub seg_hdr_size : ℕ
seg_hdr_size = 4

-- What is known of the way to the peer.
pub record Route : Type 0 where
  pub mtu : ℕ
  pub gso_max_size : ℕ
  pub ip_header_length : ℕ
  pub hijacking : Bool

-- `homa_message_out_init`
pub homa_message_out_init : ℕ → ℕ → MessageOut
homa_message_out_init unsched_bytes length = record {
  length = length;
  next_xmit_offset = 0;
  unscheduled = (if ltb length unsched_bytes then length else unsched_bytes);
  granted = 0;
  sched_priority = 0;
  packets = [];
  next_xmit = [];
}

-- `max_seg_data`
abbrev pub max_seg_data : Route → ℕ
max_seg_data route = route.mtu - route.ip_header_length - data_hdr_size

-- `max_gso_data`, where `max_gso_size` is the setting. Both GSO sizes are at least the size of the headers; where
-- one is not, the unsigned difference of the code wraps, and this definition does not model it.
pub max_gso_data : ℕ → Route → ℕ
max_gso_data max_gso_size route =
    let gso_size =
      if ltb max_gso_size route.gso_max_size then max_gso_size else route.gso_max_size in
    let room = gso_size - route.ip_header_length - data_hdr_size in
    let segs =
      if route.hijacking
      then room / max_seg_data route
      else (room + seg_hdr_size) / (max_seg_data route + seg_hdr_size) in
    (if segs == 0 then 1 else segs) * max_seg_data route

-- `homa_new_data_packet`, when it succeeds.
unfoldable pub homa_new_data_packet : Route → ℕ → ℕ → OutPacket
homa_new_data_packet route offset length =
    let seg = max_seg_data route in
    let segs = (length + seg - 1) / seg in
    record {
      offset = offset;
      data_bytes = length;
      seg_length = seg;
      wire_bytes = length + segs * (data_hdr_size + route.ip_header_length + eth_overhead);
      gso_segs = (if ltb 1 segs then segs else 0);
    }

-- `skb_data_bytes`, when `left` bytes are still to be copied.
pub packet_size : ℕ → MessageOut → ℕ → ℕ
packet_size max_gso m left =
    let offset = m.length - left in
    let size =
      if ltb offset m.unscheduled && ltb m.unscheduled (offset + max_gso)
      then m.unscheduled - offset
      else max_gso in
    if ltb left size then left else size

-- How the loop of `homa_message_out_fill` ends: `wild` where a pointer that stands for an error is linked
-- as a packet, since the code compares it with NULL; `dead` where the RPC was freed.
pub data Copied : Type 0 where
  copied : List OutPacket → Copied
  wild dead dry : Copied

abbrev pub link : OutPacket → Copied → Copied
link p (copied ps) = copied (p ∷ ps)
link p wild = wild
link p dead = dead
link p dry = dry

-- The loop of `homa_message_out_fill`; `fresh` says whether `homa_new_data_packet` succeeds for the packet
-- at an offset, and `alive` whether the RPC is still there after that.
pub copy_packets : Route → ℕ → (ℕ → Bool) → (ℕ → Bool) → MessageOut → ℕ → ℕ → Copied
unfolding homa_new_data_packet packet_size
copy_packets route max_gso fresh alive m fuel zero = copied []
copy_packets route max_gso fresh alive m zero (suc left) = dry
copy_packets route max_gso fresh alive m (suc fuel) (suc left) =
    let offset = m.length - suc left in
    let size = packet_size max_gso m (suc left) in
    let rest = copy_packets route max_gso fresh alive m fuel (suc left - size) in
    if not (fresh offset)
    then wild
    else if not (alive offset)
    then dead
    else link (homa_new_data_packet route offset size) rest

-- The settings that say how full the queue of the network interface may be.
pub record Nic : Type 0 where
  pub ns_per_mbyte : ℕ
  pub max_nic_queue_ns : ℕ
  pub dont_throttle : Bool
  pub throttle_min_bytes : ℕ

-- `homa_check_nic_queue`, where no other core changes `link_idle_time`: its new value, or none where the
-- packet is to wait.
pub homa_check_nic_queue : Nic → ℕ → ℕ → ℕ → Bool → Option ℕ
homa_check_nic_queue nic clock idle wire_bytes force =
    let ns_for_packet = nic.ns_per_mbyte * wire_bytes / 1000000 in
    if ltb (clock + nic.max_nic_queue_ns) idle && not force && not nic.dont_throttle
    then none
    else some (if ltb idle clock then clock + ns_for_packet else idle + ns_for_packet)

-- What does not change while a message is sent: `clock` and `alive` give the time, and whether the RPC is
-- still there, by the offset of the packet.
pub record Sender : Type 0 where
  pub nic : Nic
  pub num_priorities : ℕ
  pub peer : Peer
  pub clock : ℕ → ℕ
  pub alive : ℕ → Bool

-- A packet that has been sent, with its priority.
pub record Sent : Type 0 where
  pub packet : OutPacket
  pub priority : Option ℕ

-- The message after `homa_xmit_data`, `link_idle_time`, what was sent, and whether the RPC was put in the
-- list of throttled RPCs.
pub record Xmit : Type 0 where
  pub msgout : MessageOut
  pub idle : ℕ
  pub sent : List Sent
  pub throttled : Bool

abbrev pub stop : MessageOut → ℕ → Bool → Xmit
stop m idle throttled = record { msgout = m; idle = idle; sent = []; throttled = throttled }

abbrev pub add_sent : Sent → Xmit → Xmit
add_sent s x = record x { sent = s ∷ x.sent }

-- The priority of the next packet.
pub data_priority : Sender → MessageOut → Option ℕ
data_priority s m =
    if ltb m.next_xmit_offset m.unscheduled
    then homa_unsched_priority s.num_priorities s.peer m.length
    else some m.sched_priority

-- The test of the queue, for a message with many bytes left; `link_idle_time` if the packet may go.
pub may_send : Sender → Bool → ℕ → MessageOut → OutPacket → Option ℕ
unfolding homa_check_nic_queue
may_send s force idle m skb =
    if leb s.nic.throttle_min_bytes (m.length - m.next_xmit_offset)
    then homa_check_nic_queue s.nic (s.clock m.next_xmit_offset) idle skb.wire_bytes force
    else some idle

-- The loop of `homa_xmit_data`, over `next_xmit`.
pub xmit_packets : Sender → Bool → ℕ → MessageOut → List OutPacket → Xmit
unfolding may_send data_priority
xmit_packets s force idle m [] = stop m idle false
xmit_packets s force idle m (skb ∷ rest) = elim (leb m.granted m.next_xmit_offset) [
  | true ↦ stop m idle false
  | false ↦ elim (may_send s force idle m skb) [
    | none ↦ stop m idle true
    | some idle' ↦
        let offset = m.next_xmit_offset in
        let m' = record m { next_xmit = rest; next_xmit_offset = offset + skb.data_bytes } in
        let next = xmit_packets s false idle' m' rest in
        add_sent (record { packet = skb; priority = data_priority s m })
          (if s.alive offset then next else stop m' idle' false)
  ]
]

-- `homa_xmit_data`
pub homa_xmit_data : Sender → Bool → ℕ → MessageOut → Xmit
unfolding xmit_packets
homa_xmit_data s force idle m = xmit_packets s force idle m m.next_xmit

-- The result of `homa_message_out_fill`: -EINVAL for a bad length or an RPC that was freed, a packet list
-- with an error pointer in it, or success.
pub data Filled : Type 0 where
  bad_length freed wild_pointer endless : Filled
  filled : Xmit → Filled

-- `homa_message_out_fill`, with the settings `max_gso_size` and `unsched_bytes`. Where transmission
-- overlaps with copying, the RPC is put in the list of throttled RPCs, for the pacer.
pub homa_message_out_fill : Sender → Route → ℕ → ℕ → (ℕ → Bool) → ℕ → ℕ → Bool → Filled
unfolding copy_packets homa_xmit_data
homa_message_out_fill s route max_gso_size unsched_bytes fresh idle length xmit =
    let m = homa_message_out_init unsched_bytes length in
    let m' = record m { granted = m.unscheduled } in
    let max_gso = max_gso_data max_gso_size route in
    let overlap_xmit = ltb (2 * max_gso) length in
    let finish = λ (ps : List OutPacket).
      let ready = record m' { packets = ps; next_xmit = ps } in
      if not xmit
      then stop ready idle false
      else if overlap_xmit
      then stop ready idle (ltb 0 m'.granted)
      else homa_xmit_data s false idle ready in
    if ltb max_message_length length || length == 0
    then bad_length
    else elim (copy_packets route max_gso fresh s.alive m' length length) [
      | dry ↦ endless
      | dead ↦ freed
      | wild ↦ wild_pointer
      | copied ps ↦ filled (finish ps)
    ]
