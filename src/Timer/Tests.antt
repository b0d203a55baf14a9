-- ===== src/Timer/Tests.antt =====
-- Runs of `homa_check_rpc`, and the theorems at them.
use connected_homa.Prelude.{ℕ, ◌≡◌, refl, false, not, ◌&&◌, none, some, [], ◌∷◌, ltb, arith}
use connected_homa.Prelude.Int.{pos}
use connected_homa.Rpc.{MessageIn, Rpc, incoming}
use connected_homa.Homa.{Homa}
use connected_homa.Incoming.{homa_gap_retry}
use connected_homa.Incoming.Account.{IsValid}
use connected_homa.Incoming.Reception.{received}
use connected_homa.Incoming.Retry.{requested}
use connected_homa.Timer.{abort, resend, resends, homa_check_rpc}
use connected_homa.Timer.Resends.{resends-requested}

abbrev settings : Homa
settings = record {
  max_incoming = 400000;
  total_incoming = pos 0;
  grant_window = 10000;
  window_param = 10000;
  max_sched_prio = 5;
  num_priorities = 8;
  max_overcommit = 8;
  max_rpcs_per_peer = 1;
  fifo_grant_increment = 10000;
  num_grantable_rpcs = 0;
  max_grantable_rpcs = 0;
  last_grantable_change = 0;
  oldest_rpc = none;
  resend_ticks = 5;
  resend_interval = 5;
  timeout_ticks = 100;
  request_ack_ticks = 2;
  timer_ticks = 1;
}

abbrev holed : MessageIn
holed = record {
  length = 10;
  packets = [];
  recv_end = 6;
  gaps = record { start = 2; end = 4; time = 0 } ∷ [];
  bytes_remaining = 6;
  granted = 8;
  rec_incoming = 4;
  rank = none;
  priority = 0;
  resend_all = false;
  birth = 0;
  num_bpages = 1;
  bpage_offsets = 0 ∷ [];
}

abbrev waiting : ℕ → Rpc
waiting ticks = record {
  id = 200;
  state = incoming;
  dport = 99;
  error = none;
  msgin = some holed;
  msgout = record {
    length = 100;
    next_xmit_offset = 100;
    unscheduled = 100;
    granted = 100;
    sched_priority = 0;
    packets = [];
    next_xmit = [];
  };
  silent_ticks = ticks;
  done_timer_ticks = 0;
}

check_rpc_resends :
    (homa_check_rpc settings (waiting 10)).1
    ≡ resend (record { offset = 2; length = 2; priority = 7 })
      ∷ resend (record { offset = 6; length = 2; priority = 7 })
      ∷ []
unfolding homa_check_rpc homa_gap_retry
check_rpc_resends = refl

check_rpc_aborts : (homa_check_rpc settings (waiting 100)).1 ≡ abort ∷ []
unfolding homa_check_rpc
check_rpc_aborts = refl

holed-IsValid : IsValid holed
holed-IsValid = omega arith

resends-requested_example :
    requested (resends settings (some holed)) 3 ≡ (ltb 3 8 && not (received holed 3))
resends-requested_example =
    resends-requested settings holed 3 holed-IsValid (omega arith) (omega arith)
