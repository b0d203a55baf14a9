-- ===== src/Lifecycle.antt =====
-- homa_rpc.c: `homa_rpc_new_client`, `homa_rpc_new_server`, `homa_rpc_free` and `homa_rpc_acked`, how an
-- RPC of a socket begins and ends. An RPC waits for buffers under its address. What `homa_rpc_free` does
-- to the lists of the whole host is in Grantable (`homa_grant_remove_rpc`) and Throttle
-- (`homa_remove_from_throttled`).
pub mod Live
pub mod Begin
pub mod Serve
pub mod Free
pub mod Handed
pub mod Ends
pub mod Hide
pub mod Count
pub mod Repeat
pub mod Leak
pub mod After
pub mod Steps
pub mod Sample
mod Tests
pub mod Find
use connected_homa.Prelude.{
  ℕ, ◌+◌, ◌%◌, ◌^◌, Bool, true, false, not, ◌&&◌, ◌||◌, Option, none, some, List, [], ◌∷◌, ◌++◌,
  ltb, ◌==◌, if◌then◌else◌, length, update,
}
use connected_homa.Prelude.Int.{ℤ, pos, ◌+ℤ◌}
use connected_homa.Rpc.{
  MessageIn, MessageOut, Rpc, State, outgoing, incoming, in_service, dead, is_client, local_id,
}
use connected_homa.Buffers.{Waiter, Buffers, Answer, failed, queued, granted, forever}
use connected_homa.Buffers.Queue.{Moment}
use connected_homa.Receive.{homa_message_in_init}
use connected_homa.Handoff.{Cores, homa_rpc_handoff}
use connected_homa.Table.{
  Entry, Interest, Hsk, Errno, enomem, eshutdown, einval, peer_failed, bucket_of, remove,
  first_with, homa_find_server_rpc,
}

-- What comes from outside: the address that `kmalloc` returned, and the error of `homa_peer_find`.
pub record Supply : Type 0 where
  pub memory : Option ℕ
  pub peer_error : Option ℕ

-- The RPC that was made, or was there, or the error. `diverges` is a loop in `homa_pool_allocate` that
-- does not end.
pub data Created : Type 0 where
  new_rpc : ℕ → Hsk → Created
  old_rpc : ℕ → Created
  no_rpc : Errno → Hsk → Created
  diverges : Created

-- A message that is not initialised: zeros, with `length` for -1.
abbrev pub no_message : MessageOut
no_message = record {
  length = 0;
  next_xmit_offset = 0;
  unscheduled = 0;
  granted = 0;
  sched_priority = 0;
  packets = [];
  next_xmit = [];
}

abbrev pub entry : ℕ → State → ℕ → ℕ → Option MessageIn → Entry
entry id state peer dport msgin = record {
  rpc = record {
    id = id;
    state = state;
    dport = dport;
    error = none;
    msgin = msgin;
    msgout = no_message;
    silent_ticks = 0;
    done_timer_ticks = 0;
  };
  peer = peer;
  interest = none;
  pkts_ready = false;
  handing_off = false;
}

-- `hlist_add_head` and `list_add_tail_rcu`
unfoldable pub link_client : ℕ → Entry → Hsk → Hsk
link_client r e s =
    let n = bucket_of e.rpc.id in
    record s {
      rpcs = update s.rpcs r e;
      client_rpc_buckets = update s.client_rpc_buckets n (r ∷ s.client_rpc_buckets n);
      active_rpcs = s.active_rpcs ++ r ∷ [];
    }

pub link_server : ℕ → Entry → Hsk → Hsk
link_server r e s =
    let n = bucket_of e.rpc.id in
    record s {
      rpcs = update s.rpcs r e;
      server_rpc_buckets = update s.server_rpc_buckets n (r ∷ s.server_rpc_buckets n);
      active_rpcs = s.active_rpcs ++ r ∷ [];
    }

-- `homa_rpc_new_client` for the peer with address `addr` and port `dport`, with `next_outgoing_id`, which
-- has 64 bits: the new value of that, and the result.
unfoldable pub homa_rpc_new_client : Supply → ℕ → ℕ → ℕ → Hsk → ℕ × Created
unfolding link_client
homa_rpc_new_client supply addr dport next_outgoing_id s =
    let after = (next_outgoing_id + 2) % 2 ^ 64 in
    elim supply.memory [
      | none ↦ (next_outgoing_id, no_rpc enomem s)
      | some r ↦ elim supply.peer_error [
        | some e ↦ (after, no_rpc (peer_failed e) s)
        | none ↦ (
          after,
          (if s.shutdown
              then no_rpc eshutdown s
              else new_rpc r (link_client r (entry next_outgoing_id outgoing addr dport none) s)),
        )
      ]
    ]

-- The header of a DATA packet, what `homa_rpc_new_server` reads of it.
pub record Request : Type 0 where
  pub sender_id : ℕ
  pub sport : ℕ
  pub message_length : ℕ
  pub incoming : ℕ
  pub offset : ℕ

abbrev pub is_request : ℕ → ℕ → ℕ → Entry → Bool
is_request id sport saddr e = e.rpc.id == id && e.rpc.dport == sport && e.peer == saddr

abbrev pub is_fine : Answer → Bool
is_fine failed = false
is_fine forever = false
is_fine queued = true
is_fine (granted _) = true

-- RPC_PKTS_READY is set for the first packet where there are buffers, and the RPC is handed off.
pub hand_off_first : Cores → Request → MessageIn → ℕ → Hsk → Hsk
hand_off_first c h m r s =
    let ready = update s.rpcs r (record (s.rpcs r) { pkts_ready = true }) in
    if h.offset == 0 && ltb 0 m.num_bpages
    then homa_rpc_handoff c r (record s { rpcs = ready })
    else s

-- The part of `homa_rpc_new_server` for an RPC at `r`, once its peer is found; `birth` is the time.
pub begin_server : Cores → Moment → ℕ → ℕ → Request → ℕ → Hsk → Created
unfolding link_server hand_off_first
begin_server c t birth saddr h r s =
    let id = local_id h.sender_id in
    let (m, b, answer) = homa_message_in_init t birth r h.message_length h.incoming s.buffers in
    let s' = record s { buffers = b } in
    let linked = link_server r (entry id incoming saddr h.sport (some m)) s' in
    elim answer [
      | forever ↦ diverges
      | failed ↦ no_rpc enomem s'
      | queued ↦
          if s.shutdown then no_rpc eshutdown s' else new_rpc r (hand_off_first c h m r linked)
      | granted _ ↦
          if s.shutdown then no_rpc eshutdown s' else new_rpc r (hand_off_first c h m r linked)
    ]

-- `homa_rpc_new_server` for a packet from `saddr`.
pub homa_rpc_new_server : Cores → Moment → ℕ → Supply → ℕ → Request → Hsk → Created
unfolding begin_server
homa_rpc_new_server c t birth supply saddr h s =
    let id = local_id h.sender_id in
    elim (first_with (is_request id h.sport saddr) s.rpcs (s.server_rpc_buckets (bucket_of id))) [
      | some r ↦ old_rpc r
      | none ↦ elim supply.memory [
        | none ↦ no_rpc enomem s
        | some r ↦ elim supply.peer_error [
          | some e ↦ no_rpc (peer_failed e) s
          | none ↦ begin_server c t birth saddr h r s
        ]
      ]
    ]

abbrev pub is_dead : State → Bool
is_dead dead = true
is_dead outgoing = false
is_dead incoming = false
is_dead in_service = false

-- The packets of an RPC: of `msgin`, where it is initialised, and of `msgout`.
abbrev pub packets_in : Rpc → ℕ
packets_in rpc = elim rpc.msgin [ none ↦ 0 | some m ↦ length m.packets ]

abbrev pub packets_of : Rpc → ℕ
packets_of rpc = packets_in rpc + length rpc.msgout.packets

-- The RPC once it is dead; its gaps are freed.
abbrev pub buried : Entry → Entry
buried e = record e {
  rpc = record e.rpc {
    state = dead;
    msgin = elim e.rpc.msgin [ none ↦ none | some m ↦ some (record m { gaps = [] }) ];
  };
  interest = none;
}

-- Unlinking from `waiting_for_bufs`.
abbrev pub stop_waiting : ℕ → List Waiter → List Waiter
stop_waiting r [] = []
stop_waiting r (w ∷ ws) = let rest = stop_waiting r ws in if w.id == r then rest else w ∷ rest

-- The thread that waits for this RPC is woken.
pub wake_interest : Option ℕ → Hsk → Hsk
wake_interest none s = s
wake_interest (some i) s = record s {
  interests = update s.interests i (record (s.interests i) { reg_rpc = none });
  woken = i ∷ s.woken;
}

-- `homa_rpc_free` for an RPC that is not dead, but for its interest.
pub bury : ℕ → Hsk → Hsk
bury r s =
    let e = s.rpcs r in
    let n = bucket_of e.rpc.id in
    let unlink = λ (buckets : ℕ → List ℕ). update buckets n (remove r (buckets n)) in
    let client = is_client e.rpc.id in
    record s {
      rpcs = update s.rpcs r (buried e);
      client_rpc_buckets = (if client then unlink s.client_rpc_buckets else s.client_rpc_buckets);
      server_rpc_buckets = (if client then s.server_rpc_buckets else unlink s.server_rpc_buckets);
      active_rpcs = remove r s.active_rpcs;
      dead_rpcs = s.dead_rpcs ++ r ∷ [];
      ready_requests = remove r s.ready_requests;
      ready_responses = remove r s.ready_responses;
      dead_skbs = s.dead_skbs +ℤ pos (packets_of e.rpc);
      buffers = record s.buffers { waiting = stop_waiting r s.buffers.waiting };
    }

-- `homa_rpc_free`
pub homa_rpc_free : ℕ → Hsk → Hsk
unfolding wake_interest bury
homa_rpc_free r s =
    let e = s.rpcs r in if is_dead e.rpc.state then s else wake_interest e.interest (bury r s)
