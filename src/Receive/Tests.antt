-- ===== src/Receive/Tests.antt =====
-- The first packet of a response, in a fresh pool of four pages.
use connected_homa.Prelude.{arith, refl, true, false, none, []}
use connected_homa.Rpc.{Rpc, outgoing}
use connected_homa.Pool.{Pool, homa_pool_init}
use connected_homa.Buffers.Runs.{Reach, start, Reach-Sound}
use connected_homa.Buffers.Queue.{Moment}
use connected_homa.Receive.{DataPacket, Surroundings, homa_data_pkt}
use connected_homa.Receive.Valid.{Receives, homa_data_pkt-Receives}

abbrev unset : Pool
unset = record {
  region = none;
  num_bpages = 0;
  descriptors = λ i. record { refs = 0; owner = none; expiration = 0 };
  free_bpages = 0;
  bpages_needed = none;
  cores = λ c. record { page_hint = 0; allocated = 0; next_candidate = 0 };
}

abbrev fresh : Pool
fresh = (homa_pool_init true true 4096 262144 unset).0

fresh-Reach : Reach (record { pool = fresh; messages = [] })
unfolding homa_pool_init
fresh-Reach = start 4096 262144 unset (record { pool = fresh; messages = [] }) refl refl

abbrev rpc : Rpc
rpc = record {
  id = 200;
  state = outgoing;
  dport = 99;
  error = none;
  msgin = none;
  msgout = record {
    length = 100;
    next_xmit_offset = 100;
    unscheduled = 100;
    granted = 100;
    sched_priority = 0;
    packets = [];
    next_xmit = [];
  };
  silent_ticks = 0;
  done_timer_ticks = 0;
}

abbrev surroundings : Surroundings
surroundings = record {
  self = 200;
  pkts_ready = false;
  buffers = record { pool = fresh; waiting = [] };
  metrics = record { resent_discards = 0; packet_discards = 0; resent_packets_used = 0 };
  dropped_data_no_bufs = 0;
  handoffs = 0;
  last_update_jiffies = 7;
  cutoffs_sent = 0;
}

abbrev moment : Moment
moment = record { core = 0; now = 10; lease_end = 110 }

abbrev data_packet : DataPacket
data_packet = record {
  packet = record { offset = 0; len = 1400; retransmit = false };
  message_length = 70000;
  incoming = 10000;
  cutoff_version = 3;
}

homa_data_pkt-Receives_example :
    Receives [] rpc
      (homa_data_pkt moment true 4 8 data_packet rpc surroundings).0
      (homa_data_pkt moment true 4 8 data_packet rpc surroundings).1.buffers.pool
homa_data_pkt-Receives_example =
    homa_data_pkt-Receives moment true 4 8 data_packet rpc surroundings []
      (Reach-Sound {w = record { pool = fresh; messages = [] }} fresh-Reach) tt
      (record { end = omega arith; pages = omega arith })
