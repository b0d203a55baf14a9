-- ===== src/Grantable/Tests.antt =====
-- Runs of the grantable lists, and the theorems at them.
use connected_homa.Prelude.{ℕ, ◌≡◌, refl, none, some, List, [], ◌∷◌, inl}
use connected_homa.Prelude.Int.{pos}
use connected_homa.Homa.{Homa}
use connected_homa.Grantable.{
  Candidate, GrantPeer, Grantable, has_id, rpcs_of, find, homa_grant_outranks, homa_grant_add_rpc,
  homa_grant_remove_rpc,
}
use connected_homa.Grantable.Order.{Before}
use connected_homa.Grantable.Valid.{IsValid}
use connected_homa.Grantable.Add.{homa_grant_add_rpc-IsValid}
use connected_homa.Grantable.Remove.{homa_grant_remove_rpc-misplaces, homa_grant_remove_rpc-IsValid}

abbrev settings : Homa
settings = record {
  max_incoming = 400000;
  total_incoming = pos 0;
  grant_window = 10000;
  window_param = 10000;
  max_sched_prio = 5;
  num_priorities = 8;
  max_overcommit = 8;
  max_rpcs_per_peer = 1;
  fifo_grant_increment = 10000;
  num_grantable_rpcs = 3;
  max_grantable_rpcs = 3;
  last_grantable_change = 0;
  oldest_rpc = none;
  resend_ticks = 15;
  resend_interval = 10;
  timeout_ticks = 100;
  request_ack_ticks = 2;
  timer_ticks = 1;
}

abbrev rpc : ℕ → ℕ → Candidate
rpc id remaining = record { id = id; bytes_remaining = remaining; birth = 0 }

abbrev peer : ℕ → List Candidate → GrantPeer
peer addr rpcs = record { addr = addr; rpcs = rpcs }

-- Two messages from peer 1, and one from peer 2 that ranks between and behind them.
abbrev busy : Grantable
busy = record {
  homa = settings;
  peers = peer 1 (rpc 200 20000 ∷ rpc 300 25000 ∷ []) ∷ peer 2 (rpc 400 30000 ∷ []) ∷ [];
}

busy-IsValid : IsValid busy
unfolding homa_grant_outranks
busy-IsValid = record {
  each = (
    record { ordered = ((refl, tt), (tt, tt)); linked = λ e. cc },
    (record { ordered = (tt, tt); linked = λ e. cc }, tt),
  );
  ordered = ((refl, tt), (tt, tt));
}

add_rpc_runs :
    (homa_grant_add_rpc 9 (rpc 500 22000) 2 busy).peers
    ≡ peer 1 (rpc 200 20000 ∷ rpc 300 25000 ∷ [])
      ∷ peer 2 (record { id = 500; bytes_remaining = 22000; birth = 9 } ∷ rpc 400 30000 ∷ [])
      ∷ []
unfolding homa_grant_add_rpc homa_grant_outranks
add_rpc_runs = refl

-- Peer 1 goes last, though its message of 25000 bytes outranks the one of 30000.
remove_rpc_runs :
    (homa_grant_remove_rpc 9 (rpc 200 20000) 1 busy).peers
    ≡ peer 2 (rpc 400 30000 ∷ []) ∷ peer 1 (rpc 300 25000 ∷ []) ∷ []
unfolding homa_grant_remove_rpc homa_grant_outranks
remove_rpc_runs = refl

unlinked :
    (e : Candidate) → find (has_id 500) (rpcs_of 2 busy.peers) ≡ some e → Before (rpc 500 22000) e
unlinked e h = absurd (cc)

homa_grant_add_rpc-IsValid_example : IsValid (homa_grant_add_rpc 9 (rpc 500 22000) 2 busy)
homa_grant_add_rpc-IsValid_example =
    homa_grant_add_rpc-IsValid 9 (rpc 500 22000) 2 busy busy-IsValid unlinked

homa_grant_remove_rpc-misplaces_example : ¬ IsValid (homa_grant_remove_rpc 9 (rpc 200 20000) 1 busy)
unfolding homa_grant_outranks
homa_grant_remove_rpc-misplaces_example =
    homa_grant_remove_rpc-misplaces 9 (rpc 200 20000) (rpc 300 25000) [] 1
      (peer 2 (rpc 400 30000 ∷ [])) [] busy refl (refl, tt) refl

homa_grant_remove_rpc-IsValid_example : IsValid (homa_grant_remove_rpc 9 (rpc 400 30000) 2 busy)
homa_grant_remove_rpc-IsValid_example =
    homa_grant_remove_rpc-IsValid 9 (rpc 400 30000) 2 (peer 2 (rpc 400 30000 ∷ [])) busy
      busy-IsValid refl refl (inl refl)
