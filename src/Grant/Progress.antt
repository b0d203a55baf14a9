-- ===== src/Grant/Progress.antt =====
-- When a grant goes out.
use connected_homa.Prelude.{ℕ, ◌+◌, ◌-◌, ◌≤◌, ◌<◌, ◌≡◌, true, arith, is_some}
use connected_homa.Prelude.Int.{ℤ, pos, ◌+ℤ◌, ◌-ℤ◌, ◌≤ℤ◌, int_laws}
use connected_homa.Rpc.{MessageIn}
use connected_homa.Homa.{Homa}
use connected_homa.Grant.{incoming_bytes, at_most, catch_up, grant_increment, homa_grant_send}
use connected_homa.Grant.Window.{
  Counts, incoming_bytes_lem, catch_up_lem, catch_up_frame, at_most-ge,
}

catch_up_exact :
    (m : MessageIn)
    → Counts m
    → ((catch_up m).granted + m.bytes_remaining - m.length
        ≡ m.granted + m.bytes_remaining - m.length)
      × ((catch_up m).granted + m.bytes_remaining
          ≤ m.length + (m.granted + m.bytes_remaining - m.length))
unfolding catch_up ◌-ℤ◌
catch_up_exact m c = ground arith

grant_increment_positive :
    (homa : Homa) (m : MessageIn)
    → Counts m
    → m.granted < m.length
    → 0 < m.bytes_remaining
    → incoming_bytes m < homa.grant_window
    → pos 1 +ℤ homa.total_incoming +ℤ pos (incoming_bytes m)
      ≤ℤ pos homa.max_incoming +ℤ pos m.rec_incoming
    → pos 1 ≤ℤ grant_increment homa (catch_up m)
unfolding grant_increment
grant_increment_positive homa m c more left window limit =
    let incoming : ℤ = pos (incoming_bytes (catch_up m)) in
    let frame = catch_up_frame m in
    let exact = catch_up_exact m c in
    let caught = catch_up_lem m c in
    let counts : Counts (catch_up m) = omega (arith, c.remaining) in
    let same : incoming_bytes (catch_up m) ≡ incoming_bytes m =
      omega (arith, incoming_bytes_lem m c, incoming_bytes_lem (catch_up m) counts) in
    let wanted : ℤ = pos homa.grant_window -ℤ incoming in
    let room : ℤ = pos (catch_up m).length -ℤ pos (catch_up m).granted in
    let available : ℤ =
      pos homa.max_incoming -ℤ homa.total_incoming +ℤ pos (catch_up m).rec_incoming -ℤ incoming in
    at_most-ge (at_most wanted room) available (pos 1)
      (at_most-ge wanted room (pos 1) (omega int_laws) (omega (int_laws, c.remaining)))
      (omega int_laws)

-- For a message of which no more is granted or missing than its length: a grant goes out whenever the
-- sender has not been silent for more than a tick, the message is neither fully granted nor fully
-- received, and both the window and the limit leave room.
homa_grant_send-sends :
    (homa : Homa) (silent_ticks : ℕ) (m : MessageIn)
    → Counts m
    → silent_ticks ≤ 1
    → m.granted < m.length
    → 0 < m.bytes_remaining
    → incoming_bytes m < homa.grant_window
    → pos 1 +ℤ homa.total_incoming +ℤ pos (incoming_bytes m)
      ≤ℤ pos homa.max_incoming +ℤ pos m.rec_incoming
    → is_some (homa_grant_send homa silent_ticks m).1 ≡ true
unfolding homa_grant_send
homa_grant_send-sends homa silent_ticks m c quiet more left window limit =
    ground (arith, grant_increment_positive homa m c more left window limit)
