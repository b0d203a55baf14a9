-- ===== src/Lifecycle/Sample.antt =====
-- For the tests: a new socket on which a client RPC with the id 200 is made, at the address 1.
use connected_homa.Prelude.{◌≡◌, refl, true, none, some, arith}
use connected_homa.Table.{has}
use connected_homa.Table.Sample.{blank}
use connected_homa.Lifecycle.{Supply, homa_rpc_new_client, link_client}
use connected_homa.Lifecycle.Live.{Live}
use connected_homa.Lifecycle.After.{Fresh, after}
use connected_homa.Lifecycle.Steps.{
  World, make_client, new_client, Reach, start, then_step, Reach-Live,
}

abbrev pub supply : Supply
supply = record { memory = some 1; peer_error = none }

abbrev pub empty : World
empty = record { next = 200; hsk = blank }

abbrev pub one : World
one = make_client supply 77 99 empty

supply-Fresh : Fresh supply blank
unfolding Fresh
supply-Fresh r e = (refl, refl)

pub one-Reach : Reach one
one-Reach =
    then_step (start empty refl refl refl (λ n. refl) (λ n. refl))
      (new_client supply 77 99 (omega arith) supply-Fresh)

pub one-Live : Live one.next one.hsk
one-Live = (Reach-Live one-Reach).0

pub one-active : has 1 one.hsk.active_rpcs ≡ true
unfolding homa_rpc_new_client link_client after
one-active = refl
