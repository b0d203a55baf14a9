-- ===== src/Homa.antt =====
-- homa_impl.h, `struct homa`: the settings and counters that the modelled components read and write.
use connected_homa.Prelude.{ℕ, Option}
use connected_homa.Prelude.Int.{ℤ}

pub record Homa : Type 0 where
  pub max_incoming : ℕ
  pub total_incoming : ℤ
  pub grant_window : ℕ
  pub window_param : ℕ
  pub max_sched_prio : ℕ
  pub num_priorities : ℕ
  pub max_overcommit : ℕ
  pub max_rpcs_per_peer : ℕ
  pub fifo_grant_increment : ℕ
  pub num_grantable_rpcs : ℕ
  pub max_grantable_rpcs : ℕ
  pub last_grantable_change : ℕ
  pub oldest_rpc : Option ℕ
  pub resend_ticks : ℕ
  pub resend_interval : ℕ
  pub timeout_ticks : ℕ
  pub request_ack_ticks : ℕ
  pub timer_ticks : ℕ
