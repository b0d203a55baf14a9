-- ===== src/Rpc.antt =====
-- homa_rpc.h: the messages and the state of a remote procedure call.
use connected_homa.Prelude.{ℕ, ◌+◌, ◌-◌, ◌%◌, Bool, Option, List, ◌==◌, if◌then◌else◌}

-- `struct homa_gap`; its list links are the place in the list.
pub record Gap : Type 0 where
  pub start : ℕ
  pub end : ℕ
  pub time : ℕ

-- What the receiver reads of a DATA packet: `seg.offset`, the result of `homa_data_len`, and
-- `retransmit`.
pub record Packet : Type 0 where
  pub offset : ℕ
  pub len : ℕ
  pub retransmit : Bool

-- `struct homa_message_in`, once initialised. `rank` is `none` for -1.
pub record MessageIn : Type 0 where
  pub length : ℕ
  pub packets : List Packet
  pub recv_end : ℕ
  pub gaps : List Gap
  pub bytes_remaining : ℕ
  pub granted : ℕ
  pub rec_incoming : ℕ
  pub rank : Option ℕ
  pub priority : ℕ
  pub resend_all : Bool
  pub birth : ℕ
  pub num_bpages : ℕ
  pub bpage_offsets : List ℕ

-- A packet of an outgoing message: `struct homa_skb_info`, with `gso_segs` of the `sk_buff`, 0 where it is
-- not set.
pub record OutPacket : Type 0 where
  pub offset : ℕ
  pub data_bytes : ℕ
  pub seg_length : ℕ
  pub wire_bytes : ℕ
  pub gso_segs : ℕ

-- `struct homa_message_out`, what the protocol logic reads of it. `next_xmit` is the rest of `packets`
-- from the packet on that the pointer names.
pub record MessageOut : Type 0 where
  pub length : ℕ
  pub next_xmit_offset : ℕ
  pub unscheduled : ℕ
  pub granted : ℕ
  pub sched_priority : ℕ
  pub packets : List OutPacket
  pub next_xmit : List OutPacket

pub data State : Type 0 where
  outgoing incoming in_service dead : State

-- Client ids are even.
abbrev pub is_client : ℕ → Bool
is_client id = id % 2 == 0

-- `homa_local_id`: `sender_id ^ 1`.
abbrev pub local_id : ℕ → ℕ
local_id sender_id = if sender_id % 2 == 0 then sender_id + 1 else sender_id - 1

-- `struct homa_rpc`. `msgin` is `none` while `msgin.length` is below zero.
pub record Rpc : Type 0 where
  pub id : ℕ
  pub state : State
  pub dport : ℕ
  pub error : Option ℕ
  pub msgin : Option MessageIn
  pub msgout : MessageOut
  pub silent_ticks : ℕ
  pub done_timer_ticks : ℕ
