-- ===== src/Grant.antt =====
-- homa_grant.c: how much the sender of a message may transmit, and the account of what is on the way.
-- `int` values do not overflow: lengths are at most HOMA_MAX_MESSAGE_LENGTH, and the window and
-- `max_incoming` are far below 2^31.
pub mod Window
pub mod Progress
mod Tests
use connected_homa.Prelude.{
  ℕ, ◌+◌, Bool, true, false, ◌&&◌, Option, none, some, ltb, ◌==◌, if◌then◌else◌,
}
use connected_homa.Prelude.Int.{ℤ, pos, pos_part, ◌+ℤ◌, ◌-ℤ◌, ltb_ℤ, leb_ℤ}
use connected_homa.Rpc.{MessageIn}
use connected_homa.Homa.{Homa}

-- `msgin.length - msgin.bytes_remaining`.
abbrev pub received_bytes : MessageIn → ℤ
received_bytes m = pos m.length -ℤ pos m.bytes_remaining

-- `msgin.granted - received`, which falls below zero if the sender sent more than it was granted.
abbrev pub raw_incoming : MessageIn → ℤ
raw_incoming m = pos m.granted -ℤ received_bytes m

-- `if (incoming < 0) incoming = 0;`
pub incoming_bytes : MessageIn → ℕ
incoming_bytes m = if ltb_ℤ (raw_incoming m) (pos 0) then 0 else pos_part (raw_incoming m)

-- `homa_grant_update_incoming`: the RPC's message, `homa`, and the result.
pub homa_grant_update_incoming : Homa → MessageIn → MessageIn × Homa × Bool
homa_grant_update_incoming homa m =
    let incoming = incoming_bytes m in
    let delta = pos incoming -ℤ pos m.rec_incoming in
    let old = homa.total_incoming in
    if incoming == m.rec_incoming then (m, homa, false) else (
      record m { rec_incoming = incoming },
      record homa { total_incoming = old +ℤ delta },
      leb_ℤ (pos homa.max_incoming) old && ltb_ℤ (old +ℤ delta) (pos homa.max_incoming),
    )

-- `if (a > b) a = b;`
pub at_most : ℤ → ℤ → ℤ
at_most a b = if ltb_ℤ b a then b else a

-- The message after `homa_grant_send` has corrected `granted` for bytes that were sent without a grant.
pub catch_up : MessageIn → MessageIn
catch_up m =
    if ltb_ℤ (raw_incoming m) (pos 0) then record m { granted = pos_part (received_bytes m) } else m

-- `increment`, after its two caps; `m` is the message after `catch_up`.
pub grant_increment : Homa → MessageIn → ℤ
unfolding at_most
grant_increment homa m = at_most (at_most wanted left) available
  where
    incoming : ℤ
    incoming = pos (incoming_bytes m)

    wanted : ℤ
    wanted = pos homa.grant_window -ℤ incoming

    left : ℤ
    left = pos m.length -ℤ pos m.granted

    available : ℤ
    available = pos homa.max_incoming -ℤ homa.total_incoming +ℤ pos m.rec_incoming -ℤ incoming

-- `struct homa_grant_hdr` behind its common header.
pub record GrantHdr : Type 0 where
  pub offset : ℕ
  pub priority : ℕ
  pub resend_all : Bool

-- `homa_grant_send`: the message, and the GRANT packet if one is sent (the code returns 1 then).
pub homa_grant_send : Homa → ℕ → MessageIn → MessageIn × Option GrantHdr
unfolding catch_up
homa_grant_send homa silent_ticks m =
    let m1 = catch_up m in
    let increment = grant_increment homa m1 in
    let granted = m1.granted + pos_part increment in
    if leb_ℤ increment (pos 0) then (m1, none) else if ltb 1 silent_ticks then (m1, none) else (
      record m1 { granted = granted; resend_all = false },
      some (record { offset = granted; priority = m1.priority; resend_all = m1.resend_all }),
    )
