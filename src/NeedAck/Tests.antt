-- ===== src/NeedAck/Tests.antt =====
-- Runs of `homa_need_ack_pkt`, and the theorems at them.
use connected_homa.Prelude.{◌≡◌, refl, true, false, none, some, [], ◌∷◌, arith}
use connected_homa.Rpc.{Rpc, MessageIn, incoming}
use connected_homa.Peer.{Peer, AckPacket, homa_peer_get_acks}
use connected_homa.Incoming.Account.{IsValid}
use connected_homa.Incoming.Reception.{received, all_below}
use connected_homa.NeedAck.{homa_need_ack_pkt}
use connected_homa.NeedAck.Safe.{homa_need_ack_pkt_complete}

abbrev whole : MessageIn
whole = record {
  length = 10;
  packets = [];
  recv_end = 10;
  gaps = [];
  bytes_remaining = 0;
  granted = 10;
  rec_incoming = 0;
  rank = none;
  priority = 0;
  resend_all = false;
  birth = 0;
  num_bpages = 1;
  bpage_offsets = 0 ∷ [];
}

abbrev answered : Rpc
answered = record {
  id = 200;
  state = incoming;
  dport = 99;
  error = none;
  msgin = some whole;
  msgout = record {
    length = 100;
    next_xmit_offset = 100;
    unscheduled = 100;
    granted = 100;
    sched_priority = 0;
    packets = [];
    next_xmit = [];
  };
  silent_ticks = 0;
  done_timer_ticks = 0;
}

abbrev server : Peer
server = record {
  acks = record { client_id = 6; server_port = 99 } ∷ [];
  unsched_cutoffs = [];
  cutoff_version = 0;
}

abbrev drained : Peer
drained = record server { acks = [] }

abbrev reply : AckPacket
reply = record { header = record { client_id = 200; server_port = 99 }; acks = server.acks }

known_runs : homa_need_ack_pkt 201 99 (some answered) server ≡ (drained, some reply)
unfolding homa_need_ack_pkt homa_peer_get_acks
known_runs = refl

unknown_runs : homa_need_ack_pkt 201 99 none server ≡ (drained, some reply)
unfolding homa_need_ack_pkt homa_peer_get_acks
unknown_runs = refl

-- A response with a byte missing is not acknowledged.
incomplete_runs :
    homa_need_ack_pkt 201 99
      (some (record answered { msgin = some (record whole { bytes_remaining = 1 }) }))
      server
    ≡ (server, none)
unfolding homa_need_ack_pkt homa_peer_get_acks
incomplete_runs = refl

whole-IsValid : IsValid whole
whole-IsValid = omega arith

homa_need_ack_pkt_complete_example : all_below 10 (received whole) ≡ true
homa_need_ack_pkt_complete_example =
    homa_need_ack_pkt_complete 201 99 answered whole server drained reply refl whole-IsValid
      known_runs
