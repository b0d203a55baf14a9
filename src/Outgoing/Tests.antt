-- ===== src/Outgoing/Tests.antt =====
-- A message of 3000 bytes, of which 2000 need no grant.
use connected_homa.Prelude.{◌+◌, ◌*◌, ◌<◌, ◌≡◌, refl, ◌⊎◌, true, false, some, [], ◌∷◌, All, arith}
use connected_homa.Rpc.{OutPacket, MessageOut}
use connected_homa.Peer.{Peer}
use connected_homa.Outgoing.{
  Route, Sender, Xmit, filled, homa_message_out_init, homa_message_out_fill, max_gso_data,
  homa_xmit_data, xmit_packets, may_send, homa_check_nic_queue, data_priority, homa_new_data_packet,
}
use connected_homa.Outgoing.Tiles.{Tiles, Fits}
use connected_homa.Outgoing.Fill.{Progress, homa_xmit_data-Progress}
use connected_homa.Outgoing.Whole.{homa_message_out_fill-Whole}
use connected_homa.Outgoing.Resend.{resend_range, resend_packets, resend_segments}

abbrev route : Route
route = record { mtu = 1500; gso_max_size = 4000; ip_header_length = 20; hijacking = true }

abbrev peer : Peer
peer = record { acks = []; unsched_cutoffs = 2147483647 ∷ 1000 ∷ 100 ∷ []; cutoff_version = 0 }

abbrev sender : Sender
sender = record {
  nic = record {
    ns_per_mbyte = 320000;
    max_nic_queue_ns = 2000;
    dont_throttle = false;
    throttle_min_bytes = 1000;
  };
  num_priorities = 3;
  peer = peer;
  clock = λ offset. 500 + offset;
  alive = λ offset. true;
}

abbrev first : OutPacket
first = homa_new_data_packet route 0 2000

abbrev second : OutPacket
second = homa_new_data_packet route 2000 1000

abbrev message : MessageOut
message = record {
  length = 3000;
  next_xmit_offset = 2000;
  unscheduled = 2000;
  granted = 2500;
  sched_priority = 1;
  packets = first ∷ second ∷ [];
  next_xmit = second ∷ [];
}

tiled : Tiles 0 3000 (first ∷ second ∷ [])
unfolding homa_new_data_packet
tiled = ((refl, omega arith, (refl, omega arith, refl)))

tiled_rest : Tiles 2000 3000 (second ∷ [])
unfolding homa_new_data_packet
tiled_rest = (refl, omega arith, refl)

second_sent :
    (homa_xmit_data sender false 100 message).sent
    ≡ (record { packet = second; priority = some 1 }) ∷ []
unfolding homa_xmit_data xmit_packets may_send homa_check_nic_queue data_priority
    homa_new_data_packet
second_sent = refl

queue_full : (homa_xmit_data sender false 5000 message).throttled ≡ true
unfolding homa_xmit_data xmit_packets may_send homa_check_nic_queue data_priority
    homa_new_data_packet
queue_full = refl

homa_xmit_data-Progress_example :
    Progress sender message (second ∷ []) (homa_xmit_data sender false 100 message)
homa_xmit_data-Progress_example = homa_xmit_data-Progress sender false 100 message tiled_rest

homa_message_out_fill-Whole_example :
    let m = homa_message_out_init 2000 3000 in
    let max_gso = max_gso_data 60000 route in
    (x : Xmit) × (homa_message_out_fill sender route 60000 2000 (λ offset. true) 100 3000 true
      ≡ filled x)
    × Tiles 0 3000 x.msgout.packets
    × All (Fits max_gso m.unscheduled) x.msgout.packets
    × ((true ≡ false)
        ⊎ (2 * max_gso < 3000)
        ⊎ (x.throttled ≡ true)
        ⊎ (x.msgout.next_xmit_offset ≡ m.unscheduled))
homa_message_out_fill-Whole_example =
    homa_message_out_fill-Whole sender route 60000 2000 (λ offset. true) 100 3000 true (omega arith)
      (omega arith) (omega arith) (λ i. refl) (λ i. refl)

full_segments : All (λ (p : OutPacket). 0 < p.seg_length) message.packets
unfolding homa_new_data_packet
full_segments = (omega arith, (omega arith, tt))

both_segments :
    resend_range (λ offset. true) message 1400 1500
    ≡ (record { offset = 0; length = 1424; incoming = 2500 })
      ∷ (record { offset = 1424; length = 576; incoming = 2500 })
      ∷ []
unfolding resend_range resend_packets resend_segments homa_new_data_packet
both_segments = refl
