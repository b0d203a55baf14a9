-- ===== src/Table/Sample.antt =====
-- A socket for the tests.
use connected_homa.Prelude.{ℕ, false, none, []}
use connected_homa.Prelude.Int.{pos}
use connected_homa.Rpc.{Rpc, outgoing}
use connected_homa.Pool.{Pool}
use connected_homa.Table.{Entry, Hsk}

abbrev pub no_pool_yet : Pool
no_pool_yet = record {
  region = none;
  num_bpages = 0;
  descriptors = λ i. record { refs = 0; owner = none; expiration = 0 };
  free_bpages = 0;
  bpages_needed = none;
  cores = λ c. record { page_hint = 0; allocated = 0; next_candidate = 0 };
}

abbrev pub sample_rpc : ℕ → Rpc
sample_rpc id = record {
  id = id;
  state = outgoing;
  dport = 99;
  error = none;
  msgin = none;
  msgout = record {
    length = 100;
    next_xmit_offset = 100;
    unscheduled = 100;
    granted = 100;
    sched_priority = 0;
    packets = [];
    next_xmit = [];
  };
  silent_ticks = 0;
  done_timer_ticks = 0;
}

abbrev pub sample_entry : ℕ → Entry
sample_entry id = record {
  rpc = sample_rpc id;
  peer = 77;
  interest = none;
  pkts_ready = false;
  handing_off = false;
}

-- A socket with no RPCs.
abbrev pub blank : Hsk
blank = record {
  shutdown = false;
  rpcs = λ r. sample_entry 200;
  interests = λ i. record { core = 2; ready_rpc = none; reg_rpc = none; locked = false };
  client_rpc_buckets = λ n. [];
  server_rpc_buckets = λ n. [];
  active_rpcs = [];
  dead_rpcs = [];
  ready_requests = [];
  ready_responses = [];
  request_interests = [];
  response_interests = [];
  dead_skbs = pos 0;
  buffers = record { pool = no_pool_yet; waiting = [] };
  woken = [];
  data_ready = 0;
}
