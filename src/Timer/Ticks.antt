-- ===== src/Timer/Ticks.antt =====
-- Tick counts that wrap, and when an RPC is given up.
use connected_homa.Prelude.{
  ℕ, ◌+◌, ◌%◌, ◌^◌, ◌<◌, ◌≤◌, ◌≡◌, refl, Bool, true, false, not, ◌&&◌, List, [], ◌∷◌, map, leb,
  arith,
}
use connected_homa.Rpc.{Rpc}
use connected_homa.Homa.{Homa}
use connected_homa.Incoming.{Resend}
use connected_homa.Timer.{Action, resend, abort, ack_overdue, not_waiting, resends, homa_check_rpc}

-- The comparison is right across a wrap of the 32-bit tick count: `elapsed` ticks after `done`, an ack
-- is overdue exactly when `elapsed` has reached `request_ack_ticks`, where both are below 2^31 and
-- `request_ack_ticks` is not zero.
ack_overdue-elapsed :
    (done request_ack_ticks elapsed : ℕ)
    → done < 2 ^ 32
    → 0 < request_ack_ticks
    → request_ack_ticks < 2 ^ 31
    → elapsed < 2 ^ 31
    → ack_overdue done request_ack_ticks ((done + elapsed) % 2 ^ 32) ≡ leb request_ack_ticks elapsed
unfolding ack_overdue
ack_overdue-elapsed done r e hd hr hr' he = ground arith

abbrev pub aborts : List Action → Bool
aborts [] = false
aborts (abort ∷ actions) = true
aborts (_ ∷ actions) = aborts actions

aborts-map : (rs : List Resend) → aborts (map resend rs) ≡ false
aborts-map [] = refl
aborts-map (r ∷ rs) = aborts-map rs

-- Where `resend_ticks` is at most `timeout_ticks`, `homa_check_rpc` gives an RPC up exactly when the
-- peer owes it something and has been silent for `timeout_ticks`.
homa_check_rpc-aborts :
    (homa : Homa) (rpc : Rpc)
    → homa.resend_ticks ≤ homa.timeout_ticks
    → aborts (homa_check_rpc homa rpc).1
      ≡ (not (not_waiting rpc) && leb homa.timeout_ticks rpc.silent_ticks)
unfolding homa_check_rpc
homa_check_rpc-aborts homa rpc h = ground (arith, aborts-map (resends homa rpc.msgin))
