-- ===== src/Pick/Tests.antt =====
-- A run of `homa_grant_pick_rpcs`.
use connected_homa.Prelude.{ℕ, ◌≡◌, refl, none, List, [], ◌∷◌, take, arith}
use connected_homa.Prelude.Int.{pos}
use connected_homa.Homa.{Homa}
use connected_homa.Grantable.{Candidate, GrantPeer, Grantable, homa_grant_outranks}
use connected_homa.Grantable.Valid.{IsValid}
use connected_homa.Pick.{homa_grant_pick_rpcs, pick_from_peers, pick_from_peer, place, position}
use connected_homa.Pick.Cut.{candidates, in_order}
use connected_homa.Pick.Best.{homa_grant_pick_rpcs-best}

abbrev settings : Homa
settings = record {
  max_incoming = 400000;
  total_incoming = pos 0;
  grant_window = 10000;
  window_param = 10000;
  max_sched_prio = 5;
  num_priorities = 8;
  max_overcommit = 8;
  max_rpcs_per_peer = 2;
  fifo_grant_increment = 10000;
  num_grantable_rpcs = 3;
  max_grantable_rpcs = 3;
  last_grantable_change = 0;
  oldest_rpc = none;
  resend_ticks = 15;
  resend_interval = 10;
  timeout_ticks = 100;
  request_ack_ticks = 2;
  timer_ticks = 1;
}

abbrev rpc : ℕ → ℕ → Candidate
rpc id remaining = record { id = id; bytes_remaining = remaining; birth = 0 }

abbrev peer : ℕ → List Candidate → GrantPeer
peer addr rpcs = record { addr = addr; rpcs = rpcs }

-- Three messages from peer 1, of which two may be picked, and two from peer 2.
abbrev busy : Grantable
busy = record {
  homa = settings;
  peers =
      peer 1 (rpc 200 20000 ∷ rpc 300 25000 ∷ rpc 302 25500 ∷ [])
      ∷ peer 2 (rpc 400 22000 ∷ rpc 402 50000 ∷ [])
      ∷ [];
}

busy-IsValid : IsValid busy
unfolding homa_grant_outranks
busy-IsValid = record {
  each = (
    record { ordered = ((refl, (refl, tt)), ((refl, tt), (tt, tt))); linked = λ e. cc },
    (record { ordered = ((refl, tt), (tt, tt)); linked = λ e. cc }, tt),
  );
  ordered = ((refl, tt), (tt, tt));
}

-- The message of 25500 bytes is left out for the limit on its peer, the longest one for the array.
pick_rpcs_runs : homa_grant_pick_rpcs busy 3 ≡ rpc 200 20000 ∷ rpc 400 22000 ∷ rpc 300 25000 ∷ []
unfolding homa_grant_pick_rpcs pick_from_peers pick_from_peer place position homa_grant_outranks
pick_rpcs_runs = refl

homa_grant_pick_rpcs-best_example :
    homa_grant_pick_rpcs busy 3 ≡ take 3 (in_order (candidates 2 busy.peers) [])
homa_grant_pick_rpcs-best_example = homa_grant_pick_rpcs-best busy 3 busy-IsValid (omega arith)
