-- ===== src/Reap/Tests.antt =====
-- Dead RPCs of a socket without a pool.
use connected_homa.Prelude.{ℕ, ◌≤◌, ◌≡◌, refl, true, false, none, [], ◌∷◌, arith}
use connected_homa.Prelude.Int.{pos, negsuc, ◌-ℤ◌}
use connected_homa.Pool.{Pool}
use connected_homa.Buffers.{Buffers}
use connected_homa.Buffers.Queue.{Moment}
use connected_homa.Reap.{
  DeadRpc, Socket, collect, one_round, batch_of, release_rpcs, reap_batches, homa_rpc_reap,
}
use connected_homa.Reap.Account.{Exact}
use connected_homa.Reap.Done.{Busy, homa_rpc_reap-Busy, homa_rpc_reap-Exact}

abbrev unset : Pool
unset = record {
  region = none;
  num_bpages = 0;
  descriptors = λ i. record { refs = 0; owner = none; expiration = 0 };
  free_bpages = 0;
  bpages_needed = none;
  cores = λ c. record { page_hint = 0; allocated = 0; next_candidate = 0 };
}

abbrev buffers : Buffers
buffers = record { pool = unset; waiting = [] }

abbrev clock : ℕ → Moment
clock round = record { core = 0; now = 10; lease_end = 110 }

abbrev waits : DeadRpc
waits = record { id = 1; busy = true; tx = 4; rx = 0; offsets = [] }

abbrev sent : DeadRpc
sent = record { id = 3; busy = false; tx = 30; rx = 0; offsets = [] }

abbrev arrived : DeadRpc
arrived = record { id = 5; busy = false; tx = 0; rx = 3; offsets = [] }

abbrev socket : Socket
socket = record { dead_rpcs = waits ∷ sent ∷ []; dead_skbs = pos 34; pool = unset }

reaps_all : (homa_rpc_reap clock 1 60 buffers socket).0.socket.dead_rpcs ≡ waits ∷ []
unfolding homa_rpc_reap reap_batches one_round batch_of collect release_rpcs ◌-ℤ◌
reaps_all = refl

none_left : (homa_rpc_reap clock 1 60 buffers socket).0.more ≡ false
unfolding homa_rpc_reap reap_batches one_round batch_of collect release_rpcs ◌-ℤ◌
none_left = refl

homa_rpc_reap-Busy_example : Busy (homa_rpc_reap clock 1 60 buffers socket).0.socket.dead_rpcs
homa_rpc_reap-Busy_example = homa_rpc_reap-Busy clock 1 60 buffers socket (omega arith) none_left

socket-Exact : Exact socket
socket-Exact = record { counter = refl; drained = (refl, (refl, tt)) }

homa_rpc_reap-Exact_example :
    Exact (homa_rpc_reap clock 1 60 buffers socket).0.socket
    × ((homa_rpc_reap clock 1 60 buffers socket).0.freed ≤ 60)
homa_rpc_reap-Exact_example = homa_rpc_reap-Exact clock 1 60 buffers socket socket-Exact

abbrev mixed : Socket
mixed = record { dead_rpcs = arrived ∷ sent ∷ []; dead_skbs = pos 33; pool = unset }

-- Three incoming packets are freed in the first round, and taken off the counter in both.
counts_twice : (homa_rpc_reap clock 1 40 buffers mixed).0.socket.dead_skbs ≡ negsuc 2
unfolding homa_rpc_reap reap_batches one_round batch_of collect release_rpcs ◌-ℤ◌
counts_twice = refl
