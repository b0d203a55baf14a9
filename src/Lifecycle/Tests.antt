-- ===== src/Lifecycle/Tests.antt =====
-- A socket with one client RPC, and requests that arrive.
use connected_homa.Prelude.{ℕ, ◌≡◌, ◌≢◌, ◌↔◌, refl, Bool, true, false, ◌&&◌, some, ◌==◌, []}
use connected_homa.Buffers.{queued, homa_pool_allocate, take_buffers}
use connected_homa.Buffers.Queue.{Moment}
use connected_homa.Pool.{homa_pool_get_pages}
use connected_homa.Receive.{homa_message_in_init}
use connected_homa.Handoff.{Cores}
use connected_homa.Table.{Hsk, eshutdown, has, homa_find_client_rpc, homa_find_server_rpc}
use connected_homa.Table.Sample.{no_pool_yet, blank}
use connected_homa.Lifecycle.{no_rpc, Request, homa_rpc_new_server, homa_rpc_free}
use connected_homa.Lifecycle.Sample.{supply, one, one-Reach, one-Live, one-active}
use connected_homa.Lifecycle.Steps.{Reach-finds}
use connected_homa.Lifecycle.Hide.{without, homa_rpc_free-hides}
use connected_homa.Lifecycle.Count.{Counts, homa_rpc_free-Counts}
use connected_homa.Lifecycle.Repeat.{Result, homa_rpc_new_server-Result}
use connected_homa.Lifecycle.Leak.{is_waiting, homa_rpc_new_server-dangles}
use connected_homa.Lifecycle.{homa_rpc_new_client, link_client}
use connected_homa.Lifecycle.After.{after}

Reach-finds_example :
    (homa_find_client_rpc one.hsk 200 ≡ some 1)
    ↔ ((has 1 one.hsk.active_rpcs && (one.hsk.rpcs 1).rpc.id == 200) ≡ true)
Reach-finds_example = Reach-finds {w = one} 200 1 one-Reach refl

homa_rpc_free-hides_example :
    let s' = homa_rpc_free 1 one.hsk in
    (homa_find_client_rpc s' 200 ≡ without 1 (homa_find_client_rpc one.hsk 200))
    × (homa_find_server_rpc s' 77 301 ≢ some 1)
homa_rpc_free-hides_example =
    homa_rpc_free-hides one.next 1 200 77 301 one.hsk one-Live one-active refl refl

nobody_busy : ℕ → Bool
nobody_busy r = false

one-Counts : Counts nobody_busy one.hsk
unfolding homa_rpc_new_client link_client after Counts
one-Counts = refl

homa_rpc_free-Counts_example : Counts nobody_busy (homa_rpc_free 1 one.hsk)
homa_rpc_free-Counts_example =
    homa_rpc_free-Counts nobody_busy one.next 1 one.hsk one-Live one-Counts

abbrev cores : Cores
cores = record { now = 1000; busy_ns = 100; last_active = λ core. 5 }

abbrev moment : Moment
moment = record { core = 0; now = 10; lease_end = 110 }

abbrev request : Request
request = record {
  sender_id = 300;
  sport = 40000;
  message_length = 70000;
  incoming = 10000;
  offset = 0;
}

homa_rpc_new_server-Result_example :
    Result 77 request blank (homa_rpc_new_server cores moment 3 supply 77 request blank)
homa_rpc_new_server-Result_example =
    homa_rpc_new_server-Result cores moment 3 supply 77 request blank

-- A socket that is shut down, whose pool has no pages left.
abbrev down : Hsk
down = record blank {
  shutdown = true;
  buffers = record { pool = record no_pool_yet { region = some 4096 }; waiting = [] };
}

down-queued :
    (homa_message_in_init moment 3 1 request.message_length request.incoming down.buffers).2
    ≡ queued
unfolding homa_message_in_init homa_pool_allocate take_buffers homa_pool_get_pages
down-queued = refl

homa_rpc_new_server-dangles_example :
    (s' : Hsk) × (homa_rpc_new_server cores moment 3 supply 77 request down ≡ no_rpc eshutdown s')
    × (is_waiting 1 s'.buffers.waiting ≡ true)
homa_rpc_new_server-dangles_example =
    homa_rpc_new_server-dangles cores moment 3 supply 77 1 request down refl refl refl refl
      down-queued
