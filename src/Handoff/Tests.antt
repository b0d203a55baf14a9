-- ===== src/Handoff/Tests.antt =====
-- Two client RPCs, and a thread or two.
use connected_homa.Prelude.{
  ℕ, ◌≡◌, ◌⊎◌, refl, inl, true, false, none, some, [], ◌∷◌, ◌==◌, if◌then◌else◌,
}
use connected_homa.Table.{Hsk, homa_find_client_rpc}
use connected_homa.Table.Sample.{sample_entry, blank}
use connected_homa.Handoff.{Cores, homa_rpc_handoff, claims, register, finish_claim}
use connected_homa.Handoff.Delivery.{Wired}
use connected_homa.Handoff.Given.{Given, Queued, homa_rpc_handoff-delivers}
use connected_homa.Handoff.Absent.{Fine}
use connected_homa.Handoff.Register.{register-Fine}
use connected_homa.Handoff.Claim.{Received, register-homa_rpc_handoff}
use connected_homa.Handoff.Race.{Lost, register-loses}

abbrev cores : Cores
cores = record { now = 1000; busy_ns = 100; last_active = λ core. 5 }

-- The thread with interest 5 waits for responses.
abbrev waited : Hsk
waited = record blank { response_interests = 5 ∷ [] }

waited-Wired : Wired waited
waited-Wired = record {
  linked = λ i h. refl;
  attached = λ r i h. absurd (cc);
  queued = λ r h. refl;
}

homa_rpc_handoff-delivers_example :
    ((i : ℕ) × Given i 1 waited (homa_rpc_handoff cores 1 waited))
    ⊎ Queued 1 waited (homa_rpc_handoff cores 1 waited)
homa_rpc_handoff-delivers_example = homa_rpc_handoff-delivers cores 1 waited waited-Wired refl refl

register-Fine_example : Fine 6 (register 3 6 true true none waited)
register-Fine_example =
    register-Fine 3 6 true true none waited waited-Wired
      (record { unlinked = refl; unattached = λ q h. cc }) (inl refl)

register-homa_rpc_handoff_example :
    (s' : Hsk) × (register 3 6 true true none (homa_rpc_handoff cores 1 blank) ≡ claims 1 s')
    × Received 6 1 (finish_claim 6 1 s')
register-homa_rpc_handoff_example =
    register-homa_rpc_handoff cores 3 6 1 blank refl refl refl refl refl refl

-- RPC 1 has the id 200, and the response to RPC 2 is ready.
abbrev two : Hsk
two = record blank {
  rpcs = λ r. if r == 1 then sample_entry 200 else sample_entry 202;
  client_rpc_buckets = λ n. if n == 100 then 1 ∷ [] else if n == 101 then 2 ∷ [] else [];
  active_rpcs = 1 ∷ 2 ∷ [];
  ready_responses = 2 ∷ [];
}

two-finds : homa_find_client_rpc two 200 ≡ some 1
unfolding homa_find_client_rpc
two-finds = refl

register-loses_example :
    (s' : Hsk) × (register 3 6 true false (some 200) two ≡ claims 2 s')
    × (((finish_claim 6 2 (homa_rpc_handoff cores 1 s')).interests 6).ready_rpc ≡ some 2)
    × Lost 1 (finish_claim 6 2 (homa_rpc_handoff cores 1 s'))
register-loses_example =
    register-loses cores 3 6 200 1 2 [] two refl refl two-finds refl refl refl refl refl refl
