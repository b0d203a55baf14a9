-- ===== src/Handlers.antt =====
-- homa_incoming.c: `homa_grant_pkt`, `homa_resend_pkt` and `homa_unknown_pkt`, the handlers for packets
-- from the receiver of a message. Offsets in packets are below 2^31.
pub mod Granted
pub mod Recovery
mod Tests
use connected_homa.Prelude.{
  ℕ, ◌+◌, ◌%◌, Bool, true, false, not, ◌&&◌, Option, none, some, List, [], ◌∷◌, ltb, leb, ◌==◌,
  if◌then◌else◌,
}
use connected_homa.Rpc.{MessageOut, Rpc, State, outgoing, incoming, in_service, dead, is_client}
use connected_homa.Peer.{homa_unsched_priority}
use connected_homa.Outgoing.{Sender, Route, Sent, homa_xmit_data}
use connected_homa.Outgoing.Resend.{Segment, homa_resend_data}

-- What the handlers need to send data: `fresh` says whether the packet for an offset can be made.
pub record Link : Type 0 where
  pub sender : Sender
  pub route : Route
  pub fresh : ℕ → Bool

-- `struct homa_grant_hdr`
pub record GrantPacket : Type 0 where
  pub offset : ℕ
  pub priority : ℕ
  pub resend_all : Bool

-- `struct homa_resend_hdr`
pub record ResendPacket : Type 0 where
  pub offset : ℕ
  pub length : ℕ
  pub priority : ℕ

-- Control packets that the handlers send.
pub data Control : Type 0 where
  busy unknown : Control

-- The RPC after a handler, `none` where it was freed; `link_idle_time`; the segments that were sent again
-- and their priority, the packets that were sent, and the control packets.
pub record Handled : Type 0 where
  pub rpc : Option Rpc
  pub idle : ℕ
  pub segments : List Segment
  pub priority : Option ℕ
  pub sent : List Sent
  pub control : List Control

abbrev pub quiet : Option Rpc → ℕ → Handled
quiet rpc idle = record {
  rpc = rpc;
  idle = idle;
  segments = [];
  priority = none;
  sent = [];
  control = [];
}

abbrev pub is_outgoing : State → Bool
is_outgoing outgoing = true
is_outgoing incoming = false
is_outgoing in_service = false
is_outgoing dead = false

-- `msgout.granted` and `msgout.sched_priority` after a GRANT.
pub take_grant : GrantPacket → MessageOut → MessageOut
take_grant h m =
    let granted =
      if ltb m.granted h.offset
      then (if ltb m.length h.offset then m.length else h.offset)
      else m.granted in
    record m { granted = granted; sched_priority = h.priority }

-- `homa_grant_pkt`
unfoldable pub homa_grant_pkt : Link → ℕ → GrantPacket → Rpc → Handled
unfolding take_grant
homa_grant_pkt k idle h rpc =
    let m = rpc.msgout in
    let nothing : List Segment × ℕ = ([], idle) in
    let (segments, idle') =
      if h.resend_all
      then homa_resend_data k.sender k.route k.fresh idle m 0 m.next_xmit_offset
      else nothing in
    let x = homa_xmit_data k.sender false idle' (take_grant h m) in
    if not (is_outgoing rpc.state) then quiet (some rpc) idle else record {
      rpc = some (record rpc { msgout = x.msgout });
      idle = x.idle;
      segments = segments;
      priority = some h.priority;
      sent = x.sent;
      control = [];
    }

-- `homa_resend_pkt`
unfoldable pub homa_resend_pkt : Link → ℕ → ResendPacket → Option Rpc → Handled
homa_resend_pkt k idle h none = record (quiet none idle) { control = unknown ∷ [] }
homa_resend_pkt k idle h (some rpc) =
    let m = rpc.msgout in
    let refuse = record (quiet (some rpc) idle) { control = busy ∷ [] } in
    let (segments, idle') =
      homa_resend_data k.sender k.route k.fresh idle m h.offset (h.offset + h.length) in
    if not (is_client rpc.id) && not (is_outgoing rpc.state)
    then refuse
    else if ltb m.next_xmit_offset m.granted
    then refuse
    else record {
      rpc = some rpc;
      idle = idle';
      segments = segments;
      priority = some h.priority;
      sent = [];
      control = (if h.length == 0 then busy ∷ [] else []);
    }

-- `homa_unknown_pkt`
unfoldable pub homa_unknown_pkt : Link → ℕ → Rpc → Handled
homa_unknown_pkt k idle rpc =
    let m = rpc.msgout in
    let (segments, idle') = homa_resend_data k.sender k.route k.fresh idle m 0 m.next_xmit_offset in
    let priority = homa_unsched_priority k.sender.num_priorities k.sender.peer m.length in
    if not (is_client rpc.id)
    then quiet none idle
    else if is_outgoing rpc.state
    then record (quiet (some rpc) idle') { segments = segments; priority = priority }
    else quiet (some rpc) idle
