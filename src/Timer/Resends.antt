-- ===== src/Timer/Resends.antt =====
-- What a silent sender is asked for again.
use connected_homa.Prelude.{
  ℕ, ◌-◌, ◌^◌, ◌≤◌, ◌<◌, ◌≡◌, refl, not, ◌&&◌, ◌||◌, some, List, [], ◌∷◌, ◌++◌, ltb, arith,
}
use connected_homa.Rpc.{MessageIn}
use connected_homa.Homa.{Homa}
use connected_homa.Incoming.{Resend, homa_gap_retry}
use connected_homa.Incoming.Account.{IsValid}
use connected_homa.Incoming.Reception.{in_gap-above, received}
use connected_homa.Incoming.Retry.{requested, homa_gap_retry-in_gap}
use connected_homa.Timer.{resends, missing_length}

requested-append :
    (rs ss : List Resend) (b : ℕ) → requested (rs ++ ss) b ≡ (requested rs b || requested ss b)
requested-append [] ss b = refl
requested-append (r ∷ rs) ss b = ground (arith, requested-append rs ss b)

-- The RESENDs of `homa_check_rpc` for a well-formed message name every byte that is granted and has not
-- been received, and no other, as long as the sender has sent nothing beyond its grant, which is below
-- 2^31.
pub resends-requested :
    (homa : Homa) (m : MessageIn) (b : ℕ)
    → IsValid m
    → m.recv_end ≤ m.granted
    → m.granted < 2 ^ 31
    → requested (resends homa (some m)) b ≡ (ltb b m.granted && not (received m b))
unfolding resends
resends-requested homa m b v h k = ground (
  arith,
  homa_gap_retry-in_gap homa.num_priorities m b v,
  in_gap-above 0 m.recv_end b m.gaps v.ordered,
  requested-append (homa_gap_retry homa.num_priorities m)
      (record { offset = m.recv_end; length = missing_length m; priority = homa.num_priorities - 1 }
        ∷ [])
      b,
)
