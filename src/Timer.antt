-- ===== src/Timer.antt =====
-- homa_timer.c, `homa_check_rpc`: what is done for an RPC at each timer tick. The metrics, the time
-- trace and the freezing of peers that go with a timeout are left out.
pub mod Resends
pub mod Ticks
mod Tests
use connected_homa.Prelude.{
  ℕ, ◌+◌, ◌-◌, ◌%◌, ◌^◌, Bool, true, false, not, ◌&&◌, ◌||◌, Option, none, some, List, [], ◌∷◌,
  ◌++◌, map, ltb, leb, ◌==◌, if◌then◌else◌,
}
use connected_homa.Rpc.{MessageIn, Rpc, State, outgoing, incoming, in_service, dead, is_client}
use connected_homa.Homa.{Homa}
use connected_homa.Incoming.{Resend, homa_gap_retry}

-- What `homa_check_rpc` does besides its changes to the RPC, in order. `abort` is
-- `homa_rpc_abort(rpc, -ETIMEDOUT)`.
pub data Action : Type 0 where
  need_ack : Action
  resend : Resend → Action
  abort : Action

-- `(done_timer_ticks + request_ack_ticks - 1 - timer_ticks) & 1 << 31`, on unsigned 32-bit words.
pub ack_overdue : ℕ → ℕ → ℕ → Bool
ack_overdue done request_ack_ticks timer_ticks =
    leb (2 ^ 31)
      ((done + request_ack_ticks + (2 ^ 32 - 1) + (2 ^ 32 - timer_ticks % 2 ^ 32)) % 2 ^ 32)

-- The first `if` of `homa_check_rpc`.
check_ack : Homa → Rpc → Rpc × List Action
unfolding ack_overdue
check_ack homa rpc = elim rpc.state [
  | outgoing ↦
      if not (is_client rpc.id) && leb rpc.msgout.length rpc.msgout.next_xmit_offset
      then (if rpc.done_timer_ticks == 0
          then (record rpc { done_timer_ticks = homa.timer_ticks }, [])
          else if ack_overdue rpc.done_timer_ticks homa.request_ack_ticks homa.timer_ticks
          then (rpc, need_ack ∷ [])
          else (rpc, []))
      else (rpc, [])
  | _ ↦ (rpc, [])
]

-- All that was granted has been received: `length - bytes_remaining >= granted`.
abbrev pub caught_up : MessageIn → Bool
caught_up m = leb (m.granted + m.bytes_remaining) m.length

-- The code sets `silent_ticks` to zero and returns: nothing is expected from the peer. With no `msgin`
-- there are no buffers.
pub not_waiting : Rpc → Bool
not_waiting rpc = elim rpc.state [
  | incoming ↦ elim rpc.msgin [ none ↦ true | some m ↦ caught_up m || m.num_bpages == 0 ]
  | outgoing ↦ not (is_client rpc.id) || ltb rpc.msgout.next_xmit_offset rpc.msgout.granted
  | _ ↦ not (is_client rpc.id)
]

-- `resend.length`, a 32-bit word on the wire.
abbrev pub missing_length : MessageIn → ℕ
missing_length m = (m.granted + 2 ^ 32 - m.recv_end) % 2 ^ 32

-- The RESENDs at the end of `homa_check_rpc`.
pub resends : Homa → Option MessageIn → List Resend
resends homa none = record { offset = 0; length = 100; priority = homa.num_priorities - 1 } ∷ []
resends homa (some m) =
    let rest : Resend = record {
      offset = m.recv_end;
      length = missing_length m;
      priority = homa.num_priorities - 1;
    } in
    if missing_length m == 0
    then homa_gap_retry homa.num_priorities m
    else homa_gap_retry homa.num_priorities m ++ rest ∷ []

-- `homa_check_rpc` from the test of `silent_ticks` on.
check_silence : Homa → Rpc → List Action
unfolding resends
check_silence homa rpc =
    if ltb rpc.silent_ticks homa.resend_ticks
    then []
    else if leb homa.timeout_ticks rpc.silent_ticks
    then abort ∷ []
    else if not ((rpc.silent_ticks - homa.resend_ticks) % homa.resend_interval == 0)
    then []
    else map resend (resends homa rpc.msgin)

pub homa_check_rpc : Homa → Rpc → Rpc × List Action
unfolding check_ack not_waiting check_silence
homa_check_rpc homa rpc =
    let (rpc', acks) = check_ack homa rpc in
    if not_waiting rpc'
    then (record rpc' { silent_ticks = 0 }, acks)
    else (rpc', acks ++ check_silence homa rpc')
