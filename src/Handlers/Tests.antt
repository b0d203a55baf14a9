-- ===== src/Handlers/Tests.antt =====
-- A message of ten bytes: six have been sent, two of these are lost.
use connected_homa.Prelude.{◌+◌, ◌<◌, ◌≡◌, refl, true, false, none, some, [], ◌∷◌, All, arith}
use connected_homa.Prelude.Int.{pos}
use connected_homa.Rpc.{OutPacket, MessageIn, MessageOut, Rpc, outgoing}
use connected_homa.Homa.{Homa}
use connected_homa.Peer.{Peer}
use connected_homa.Incoming.Account.{IsValid}
use connected_homa.Timer.{resends}
use connected_homa.Outgoing.{Route, Sender, homa_new_data_packet}
use connected_homa.Outgoing.Tiles.{Tiles}
use connected_homa.Outgoing.Resend.Covers.{In}
use connected_homa.Handlers.{Link, homa_grant_pkt}
use connected_homa.Handlers.Granted.{Ready, Grants, homa_grant_pkt-Grants}
use connected_homa.Handlers.Recovery.{Sends, answers, answers-recover}

abbrev settings : Homa
settings = record {
  max_incoming = 400000;
  total_incoming = pos 0;
  grant_window = 10000;
  window_param = 10000;
  max_sched_prio = 5;
  num_priorities = 8;
  max_overcommit = 8;
  max_rpcs_per_peer = 1;
  fifo_grant_increment = 10000;
  num_grantable_rpcs = 0;
  max_grantable_rpcs = 0;
  last_grantable_change = 0;
  oldest_rpc = none;
  resend_ticks = 5;
  resend_interval = 5;
  timeout_ticks = 100;
  request_ack_ticks = 2;
  timer_ticks = 1;
}

abbrev holed : MessageIn
holed = record {
  length = 10;
  packets = [];
  recv_end = 6;
  gaps = record { start = 2; end = 4; time = 0 } ∷ [];
  bytes_remaining = 6;
  granted = 6;
  rec_incoming = 4;
  rank = none;
  priority = 0;
  resend_all = false;
  birth = 0;
  num_bpages = 1;
  bpage_offsets = 0 ∷ [];
}

holed-IsValid : IsValid holed
holed-IsValid = omega arith

abbrev route : Route
route = record { mtu = 1500; gso_max_size = 4000; ip_header_length = 20; hijacking = true }

abbrev peer : Peer
peer = record { acks = []; unsched_cutoffs = 2147483647 ∷ 1000 ∷ 100 ∷ []; cutoff_version = 0 }

abbrev sender : Sender
sender = record {
  nic = record {
    ns_per_mbyte = 320000;
    max_nic_queue_ns = 2000;
    dont_throttle = false;
    throttle_min_bytes = 1000;
  };
  num_priorities = 3;
  peer = peer;
  clock = λ offset. 500 + offset;
  alive = λ offset. true;
}

abbrev first : OutPacket
first = homa_new_data_packet route 0 6

abbrev second : OutPacket
second = homa_new_data_packet route 6 4

abbrev message : MessageOut
message = record {
  length = 10;
  next_xmit_offset = 6;
  unscheduled = 6;
  granted = 6;
  sched_priority = 1;
  packets = first ∷ second ∷ [];
  next_xmit = second ∷ [];
}

abbrev rpc : Rpc
rpc = record {
  id = 200;
  state = outgoing;
  dport = 99;
  error = none;
  msgin = none;
  msgout = message;
  silent_ticks = 0;
  done_timer_ticks = 0;
}

abbrev link : Link
link = record { sender = sender; route = route; fresh = λ offset. true }

tiled : Tiles 0 10 (first ∷ second ∷ [])
unfolding homa_new_data_packet
tiled = (refl, omega arith, (refl, omega arith, refl))

tiled_rest : Tiles 6 10 (second ∷ [])
unfolding homa_new_data_packet
tiled_rest = (refl, omega arith, refl)

message-Ready : Ready message
message-Ready = record { whole = tiled; rest = tiled_rest; granted = omega arith }

homa_grant_pkt-Grants_example :
    (rpc' : Rpc) × ((homa_grant_pkt link 100
        (record { offset = 12; priority = 2; resend_all = true })
        rpc).rpc
      ≡ some rpc')
    × Grants
        (record { offset = 12; priority = 2; resend_all = true })
        rpc
        rpc'
        (homa_grant_pkt link 100 (record { offset = 12; priority = 2; resend_all = true }) rpc).sent
homa_grant_pkt-Grants_example =
    homa_grant_pkt-Grants link 100 (record { offset = 12; priority = 2; resend_all = true }) rpc
      refl message-Ready

full_segments : All (λ (p : OutPacket). 0 < p.seg_length) message.packets
unfolding homa_new_data_packet
full_segments = (omega arith, (omega arith, tt))

rpc-Sends : Sends link rpc
rpc-Sends = record {
  state = refl;
  caught_up = omega arith;
  whole = tiled;
  segs = full_segments;
  fresh = λ i. refl;
}

answers-recover_example : In 3 (answers link 100 rpc (resends settings (some holed)))
answers-recover_example =
    answers-recover settings holed link 100 rpc 3 holed-IsValid (omega arith) (omega arith)
      rpc-Sends (omega arith) (omega arith) refl
