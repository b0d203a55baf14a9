-- ===== src/Abort/Tests.antt =====
-- A socket with one client RPC, which is aborted.
use connected_homa.Prelude.{arith, ◌≡◌, refl, true, false, ◌&&◌, none, some}
use connected_homa.Rpc.{is_client}
use connected_homa.Handoff.{Cores}
use connected_homa.Handoff.Delivery.{Wired}
use connected_homa.Handoff.Held.{Held}
use connected_homa.Table.{has}
use connected_homa.Lifecycle.Sample.{one, one-Live, one-active}
use connected_homa.Abort.{homa_abort_sock_rpcs}
use connected_homa.Abort.Delivered.{homa_abort_sock_rpcs-frees}
use connected_homa.Abort.Told.{Told, homa_abort_sock_rpcs-Told}
use connected_homa.Lifecycle.{homa_rpc_new_client, link_client}
use connected_homa.Lifecycle.After.{after}

abbrev cores : Cores
cores = record { now = 1000; busy_ns = 100; last_active = λ core. 5 }

one-up : one.hsk.shutdown ≡ false
unfolding homa_rpc_new_client link_client after
one-up = refl

one-client : is_client (one.hsk.rpcs 1).rpc.id ≡ true
unfolding homa_rpc_new_client link_client after
one-client = refl

one-Wired : Wired one.hsk
unfolding homa_rpc_new_client link_client after
one-Wired = record {
  linked = λ i h. absurd (cc);
  attached = λ r i e. ground arith;
  queued = λ r h. absurd (cc);
}

one-unmarked : Held 1 one.hsk
unfolding homa_rpc_new_client link_client after
one-unmarked m = absurd (cc)

homa_abort_sock_rpcs-Told_example : Told 110 1 (homa_abort_sock_rpcs cores (some 110) one.hsk)
homa_abort_sock_rpcs-Told_example =
    homa_abort_sock_rpcs-Told one.next cores 110 1 one.hsk one-Live one-up one-active one-client
      one-Wired one-unmarked

homa_abort_sock_rpcs-frees_example :
    let s' = homa_abort_sock_rpcs cores none one.hsk in
    (has 1 s'.active_rpcs && is_client (s'.rpcs 1).rpc.id) ≡ false
homa_abort_sock_rpcs-frees_example =
    homa_abort_sock_rpcs-frees one.next cores one.hsk 1 one-Live one-up
