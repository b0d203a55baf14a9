-- ===== src/Dispatch/Handle/Tests.antt =====
-- Packets for the one RPC of a socket, and for an RPC that is not there.
use connected_homa.Prelude.{arith, List, ◌+◌, true, false, none, some, [], ◌∷◌}
use connected_homa.Peer.{Ack, Peer}
use connected_homa.Handlers.{Link}
use connected_homa.Receive.{DataPacket}
use connected_homa.Pool.{Pool, homa_pool_init}
use connected_homa.Table.Sample.{no_pool_yet}
use connected_homa.Lifecycle.{Supply, homa_rpc_new_client, link_client}
use connected_homa.Lifecycle.After.{Fresh, after, link-buffers}
use connected_homa.Lifecycle.Sample.{one, one-Live}
use connected_homa.Dispatch.{Body, data_pkt, busy_pkt, need_ack_pkt, Batch, Arrival, Host}
use connected_homa.Dispatch.Handle.{homa_dispatch_pkts}
use connected_homa.Dispatch.Handle.Order.{Sound}
use connected_homa.Dispatch.Handle.Batches.{FreshAll, homa_dispatch_pkts-Sound}

abbrev peer : Peer
peer = record { acks = []; unsched_cutoffs = 2147483647 ∷ 1000 ∷ 100 ∷ []; cutoff_version = 0 }

abbrev link : Link
link = record {
  sender = record {
    nic = record {
      ns_per_mbyte = 320000;
      max_nic_queue_ns = 2000;
      dont_throttle = false;
      throttle_min_bytes = 1000;
    };
    num_priorities = 3;
    peer = peer;
    clock = λ offset. 500 + offset;
    alive = λ offset. true;
  };
  route = record { mtu = 1500; gso_max_size = 4000; ip_header_length = 20; hijacking = true };
  fresh = λ offset. true;
}

-- Packets from the server of RPC 200.
abbrev batch : Batch
batch = record {
  sender_id = 201;
  sport = 99;
  saddr = 77;
  self = 0;
  ports = λ i. 40000;
  bucket = λ port. 0 ∷ [];
  cores = record { now = 1000; busy_ns = 100; last_active = λ core. 5 };
  moment = record { core = 0; now = 10; lease_end = 110 };
  jiffies = 8;
  cutoff_version = 4;
  memory = true;
  link = λ r. link;
}

abbrev no_supply : Supply
no_supply = record { memory = none; peer_error = none }

abbrev packet : Body → Arrival
packet body = record { body = body; supply = no_supply; yields = false }

abbrev first_data : DataPacket
first_data = record {
  packet = record { offset = 0; len = 1400; retransmit = false };
  message_length = 70000;
  incoming = 10000;
  cutoff_version = 3;
}

abbrev host : Host
host = record {
  socks = λ i. one.hsk;
  peers = λ addr. peer;
  outstanding_resends = λ addr. 0;
  last_update_jiffies = λ addr. 7;
  metrics = record { resent_discards = 0; packet_discards = 0; resent_packets_used = 0 };
  dropped_data_no_bufs = 0;
  unknown_rpcs = 0;
  server_cant_create_rpcs = 0;
  unknown_packet_types = 0;
  cutoffs_sent = 0;
  idle = 0;
  handled = [];
  acks_sent = [];
  rpc = none;
  acks = [];
}

abbrev ack : Ack
ack = record { client_id = 302; server_port = 40000 }

-- The same socket with buffers, and packets of a new request to it.
abbrev pool : Pool
pool = (homa_pool_init true true 4096 262144 no_pool_yet).0

abbrev server : Host
server = record host {
  socks = λ i. record one.hsk { buffers = record { pool = pool; waiting = [] } };
}

abbrev request_batch : Batch
request_batch = record batch { sender_id = 300 }

abbrev requests : List Arrival
requests =
    record (packet (data_pkt first_data (some ack))) {
      supply = record { memory = some 5; peer_error = none };
    }
    ∷ packet busy_pkt
    ∷ packet need_ack_pkt
    ∷ []

memory-Fresh : Fresh (record { memory = some 5; peer_error = none }) one.hsk
unfolding Fresh homa_rpc_new_client link_client after
memory-Fresh r e = ground arith

requests-FreshAll : FreshAll request_batch requests (record server { rpc = none; acks = [] })
unfolding FreshAll Fresh
requests-FreshAll = (memory-Fresh, (λ r e. absurd (cc), (λ r e. absurd (cc), tt)))

homa_dispatch_pkts-Sound_example : Sound one.next (homa_dispatch_pkts request_batch requests server)
homa_dispatch_pkts-Sound_example =
    homa_dispatch_pkts-Sound one.next request_batch requests server
      (λ i. link-buffers one.next (record { pool = pool; waiting = [] }) one.hsk one-Live)
      requests-FreshAll

-- Packets for the RPC 400, which is not there.
abbrev lost_batch : Batch
lost_batch = record batch { sender_id = 401 }

abbrev lost_packets : List Arrival
lost_packets = packet (data_pkt first_data (some ack)) ∷ packet busy_pkt ∷ []
