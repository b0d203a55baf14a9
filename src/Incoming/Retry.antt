-- ===== src/Incoming/Retry.antt =====
-- What `homa_gap_retry` asks the sender for again.
use connected_homa.Prelude.{
  ℕ, ◌+◌, ◌≡◌, refl, Bool, false, not, ◌&&◌, ◌||◌, List, [], ◌∷◌, map, arith, ltb,
}
use connected_homa.Rpc.{Gap, MessageIn}
use connected_homa.Incoming.{Resend, homa_gap_retry, resend_of_gap}
use connected_homa.Incoming.Account.{Between, IsValid}
use connected_homa.Incoming.Reception.{in_gap, in_range, received}

-- Byte `b` is one that the sender of these requests wants again.
abbrev pub requested : List Resend → ℕ → Bool
requested [] b = false
requested (r ∷ rest) b = in_range r.offset (r.offset + r.length) b || requested rest b

pub requested-in_gap :
    (lo hi prio b : ℕ) (gaps : List Gap)
    → Between lo gaps hi
    → requested (map (resend_of_gap prio) gaps) b ≡ in_gap gaps b
unfolding resend_of_gap
requested-in_gap lo hi prio b [] w = refl
requested-in_gap lo hi prio b (gap ∷ rest) w =
    ground (arith, requested-in_gap gap.end hi prio b rest w.2)

pub homa_gap_retry-in_gap :
    (num_priorities : ℕ) (m : MessageIn) (b : ℕ)
    → IsValid m
    → requested (homa_gap_retry num_priorities m) b ≡ in_gap m.gaps b
unfolding homa_gap_retry
homa_gap_retry-in_gap n m b v = requested-in_gap 0 m.recv_end n b m.gaps v.ordered

-- For a well-formed message, a byte has been received exactly when it is below `recv_end` and the
-- RESENDs of `homa_gap_retry` do not name it.
homa_gap_retry-requested :
    (num_priorities : ℕ) (m : MessageIn) (b : ℕ)
    → IsValid m
    → received m b ≡ (ltb b m.recv_end && not (requested (homa_gap_retry num_priorities m) b))
homa_gap_retry-requested n m b v = ground (arith, homa_gap_retry-in_gap n m b v)
