-- ===== src/Grant/Tests.antt =====
-- Runs of `homa_grant_send` and `homa_grant_update_incoming`, and the theorems at them.
use connected_homa.Prelude.{◌≤◌, ◌<◌, ◌≡◌, refl, false, none, some, [], arith}
use connected_homa.Prelude.Int.{pos, ◌+ℤ◌, ◌-ℤ◌, ◌≤ℤ◌}
use connected_homa.Homa.{Homa}
use connected_homa.Rpc.{MessageIn}
use connected_homa.Grant.{
  incoming_bytes, grant_increment, homa_grant_update_incoming, GrantHdr, homa_grant_send,
}
use connected_homa.Grant.Window.{Counts, homa_grant_send-bounds, homa_grant_send-limit}

abbrev settings : Homa
settings = record {
  max_incoming = 20000;
  total_incoming = pos 14000;
  grant_window = 10000;
  window_param = 10000;
  max_sched_prio = 5;
  num_priorities = 8;
  max_overcommit = 8;
  max_rpcs_per_peer = 1;
  fifo_grant_increment = 10000;
  num_grantable_rpcs = 1;
  max_grantable_rpcs = 1;
  last_grantable_change = 0;
  oldest_rpc = none;
  resend_ticks = 15;
  resend_interval = 10;
  timeout_ticks = 100;
  request_ack_ticks = 2;
  timer_ticks = 1;
}

-- 30000 bytes, of which 4000 have arrived and 6000 are granted.
abbrev message : MessageIn
message = record {
  length = 30000;
  packets = [];
  recv_end = 4000;
  gaps = [];
  bytes_remaining = 26000;
  granted = 6000;
  rec_incoming = 2000;
  rank = some 0;
  priority = 3;
  resend_all = false;
  birth = 0;
  num_bpages = 1;
  bpage_offsets = [];
}

-- The limit allows 6000 bytes more.
abbrev after : MessageIn
after = record message { granted = 12000 }

abbrev header : GrantHdr
header = record { offset = 12000; priority = 3; resend_all = false }

send_runs : homa_grant_send settings 0 message ≡ (after, some header)
unfolding homa_grant_send grant_increment incoming_bytes ◌+ℤ◌ ◌-ℤ◌
send_runs = refl

message-Counts : Counts message
message-Counts = omega arith

homa_grant_send-bounds_example :
    (header.offset ≡ after.granted)
    × (message.granted < after.granted)
    × (after.granted ≤ message.length)
    × (incoming_bytes after ≤ settings.grant_window)
homa_grant_send-bounds_example =
    homa_grant_send-bounds settings 0 message after header message-Counts send_runs

homa_grant_send-limit_example :
    (homa_grant_update_incoming settings after).1.total_incoming ≤ℤ pos settings.max_incoming
homa_grant_send-limit_example =
    homa_grant_send-limit settings 0 message after header message-Counts send_runs
