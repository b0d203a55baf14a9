-- ===== src/Grant/Window.antt =====
-- What a grant may promise: never beyond the message, the window, or the limit on all messages.
use connected_homa.Prelude.{
  ℕ, ◌+◌, ◌-◌, ◌≤◌, ◌<◌, ◌≡◌, refl, inl, inr, false, some, arith, Bool-cases, ap, ◌∙◌, ◌&&◌, ◌==◌,
}
use connected_homa.Prelude.Int.{
  ℤ, pos, negsuc, pos_part, neg_part, ◌+ℤ◌, ◌-ℤ◌, ◌≤ℤ◌, ltb_ℤ, leb_ℤ, int_laws,
}
use connected_homa.Rpc.{MessageIn}
use connected_homa.Homa.{Homa}
use connected_homa.Grant.{
  incoming_bytes, homa_grant_update_incoming, at_most, catch_up, grant_increment, GrantHdr,
  homa_grant_send,
}

-- What `homa_message_in` promises of its counters.
pub record Counts (m : MessageIn) : Type 0 where
  pub remaining : m.bytes_remaining ≤ m.length
  pub granted : m.granted ≤ m.length

-- incoming + received = max granted received.
pub incoming_bytes_lem :
    (m : MessageIn) → Counts m → incoming_bytes m ≡ m.granted + m.bytes_remaining - m.length
unfolding incoming_bytes ◌-ℤ◌
incoming_bytes_lem m c = ground arith

pub catch_up_lem :
    (m : MessageIn)
    → Counts m
    → (m.granted ≤ (catch_up m).granted)
      × ((catch_up m).granted ≤ m.length)
      × (m.length ≤ (catch_up m).granted + m.bytes_remaining)
unfolding catch_up ◌-ℤ◌
catch_up_lem m c = ground arith

at_most-le : (a b : ℤ) → (at_most a b ≤ℤ a) × (at_most a b ≤ℤ b)
unfolding at_most
at_most-le a b = ground arith

-- The three caps on a grant.
record Caps (homa : Homa) (m : MessageIn) : Type 0 where
  window : grant_increment homa m +ℤ pos (incoming_bytes m) ≤ℤ pos homa.grant_window
  message : grant_increment homa m +ℤ pos m.granted ≤ℤ pos m.length
  limit :
      grant_increment homa m +ℤ pos (incoming_bytes m) +ℤ homa.total_incoming
      ≤ℤ pos homa.max_incoming +ℤ pos m.rec_incoming

grant_increment-Caps : (homa : Homa) (m : MessageIn) → Caps homa m
unfolding grant_increment
grant_increment-Caps homa m =
    let incoming : ℤ = pos (incoming_bytes m) in
    let wanted : ℤ = pos homa.grant_window -ℤ incoming in
    let left : ℤ = pos m.length -ℤ pos m.granted in
    let available : ℤ =
      pos homa.max_incoming -ℤ homa.total_incoming +ℤ pos m.rec_incoming -ℤ incoming in
    let outer = at_most-le (at_most wanted left) available in
    let inner = at_most-le wanted left in
    record { window = omega int_laws; message = omega int_laws; limit = omega int_laws }

-- The branch in which a grant goes out.
record Sent (homa : Homa) (m m' : MessageIn) (g : GrantHdr) : Type 0 where
  positive : pos 1 ≤ℤ grant_increment homa (catch_up m)
  grown : m' ≡ record (catch_up m) {
    granted = (catch_up m).granted + pos_part (grant_increment homa (catch_up m));
    resend_all = false;
  }
  header : g.offset ≡ m'.granted

send-Sent :
    (homa : Homa) (silent_ticks : ℕ) (m m' : MessageIn) (g : GrantHdr)
    → homa_grant_send homa silent_ticks m ≡ (m', some g)
    → Sent homa m m' g
unfolding homa_grant_send
send-Sent homa silent_ticks m m' g e = ground arith

-- For a message of which no more is granted or missing than its length, `homa_grant_update_incoming`
-- records what is granted and not yet received; `total_incoming` less the
-- RPC's share stays as it was; and the result says that the total fell below the limit.
pub update_incoming_account :
    (homa : Homa) (m : MessageIn)
    → Counts m
    → let (m', homa', below) = homa_grant_update_incoming homa m in
      (m' ≡ record m { rec_incoming = m.granted + m.bytes_remaining - m.length })
      × (homa'.total_incoming +ℤ pos m.rec_incoming ≡ homa.total_incoming +ℤ pos m'.rec_incoming)
      × (below ≡ (
          leb_ℤ (pos homa.max_incoming) homa.total_incoming
          && ltb_ℤ homa'.total_incoming (pos homa.max_incoming)))
unfolding homa_grant_update_incoming
update_incoming_account homa m c = elim (Bool-cases (incoming_bytes m == m.rec_incoming)) [
  | inl same ↦ ground (arith, incoming_bytes_lem m c)
  | inr changed ↦ rw changed (
      rw (← incoming_bytes_lem m c)
        (refl, settle homa.total_incoming (incoming_bytes m) m.rec_incoming, refl))
]
  where
    settle : (t : ℤ) (a b : ℕ) → t +ℤ (pos a -ℤ pos b) +ℤ pos b ≡ t +ℤ pos a
    settle t a b = omega int_laws

pub catch_up_frame :
    (m : MessageIn)
    → ((catch_up m).length ≡ m.length)
      × ((catch_up m).bytes_remaining ≡ m.bytes_remaining)
      × ((catch_up m).rec_incoming ≡ m.rec_incoming)
unfolding catch_up
catch_up_frame m = ground arith

neg_part_of_positive : (z : ℤ) → pos 1 ≤ℤ z → neg_part z ≡ 0
neg_part_of_positive (pos n) h = refl
neg_part_of_positive (negsuc n) h = absurd (omega arith)

-- The numbers of a message that was sent a grant.
record Numbers (homa : Homa) (m m' : MessageIn) : Type 0 where
  counts : Counts (catch_up m)
  counts' : Counts m'
  length : m'.length ≡ m.length
  rec_incoming : m'.rec_incoming ≡ m.rec_incoming
  positive : pos 1 ≤ℤ grant_increment homa (catch_up m)
  no_debt : neg_part (grant_increment homa (catch_up m)) ≡ 0
  granted : m'.granted ≡ (catch_up m).granted + pos_part (grant_increment homa (catch_up m))
  incoming :
      incoming_bytes m' ≡ incoming_bytes (catch_up m) + pos_part (grant_increment homa (catch_up m))

Sent-Numbers :
    (homa : Homa) (m m' : MessageIn) (g : GrantHdr)
    → Counts m
    → Sent homa m m' g
    → Numbers homa m m'
Sent-Numbers homa m m' g c s =
    let frame = catch_up_frame m in
    let caught = catch_up_lem m c in
    let caps = grant_increment-Caps homa (catch_up m) in
    let granted' = ap (λ (x : MessageIn). x.granted) s.grown in
    let length' = ap (λ (x : MessageIn). x.length) s.grown in
    let remaining' = ap (λ (x : MessageIn). x.bytes_remaining) s.grown in
    let rec' = ap (λ (x : MessageIn). x.rec_incoming) s.grown in
    let no_debt = neg_part_of_positive (grant_increment homa (catch_up m)) s.positive in
    let counts : Counts (catch_up m) = omega (arith, c.remaining) in
    let counts' : Counts m' = omega (int_laws, c.remaining, caps.message, s.positive, no_debt) in
    record {
      counts = counts;
      counts' = counts';
      length = length' ∙ frame.0;
      rec_incoming = rec' ∙ frame.2;
      positive = s.positive;
      no_debt = no_debt;
      granted = granted';
      incoming =
          omega (arith, incoming_bytes_lem m' counts', incoming_bytes_lem (catch_up m) counts);
    }

-- For a message of which no more is granted or missing than its length: a grant that is sent carries
-- the new `granted`, which is above the old one and within the message, and what is then on the way is
-- within the window.
pub homa_grant_send-bounds :
    (homa : Homa) (silent_ticks : ℕ) (m m' : MessageIn) (g : GrantHdr)
    → Counts m
    → homa_grant_send homa silent_ticks m ≡ (m', some g)
    → (g.offset ≡ m'.granted)
      × (m.granted < m'.granted)
      × (m'.granted ≤ m.length)
      × (incoming_bytes m' ≤ homa.grant_window)
homa_grant_send-bounds homa silent_ticks m m' g c e =
    let s = send-Sent homa silent_ticks m m' g e in
    let n = Sent-Numbers homa m m' g c s in
    let caps = grant_increment-Caps homa (catch_up m) in
    (
      s.header,
      omega (int_laws, catch_up_lem m c, n.positive, n.granted),
      omega (arith, n.counts'.granted, n.length),
      omega (int_laws, caps.window, n.incoming, n.positive, n.no_debt),
    )

-- For a message of which no more is granted or missing than its length: after a grant that is sent and
-- the update that follows it, the bytes on the way from all senders are within
-- `max_incoming`.
pub homa_grant_send-limit :
    (homa : Homa) (silent_ticks : ℕ) (m m' : MessageIn) (g : GrantHdr)
    → Counts m
    → homa_grant_send homa silent_ticks m ≡ (m', some g)
    → (homa_grant_update_incoming homa m').1.total_incoming ≤ℤ pos homa.max_incoming
homa_grant_send-limit homa silent_ticks m m' g c e =
    let n = Sent-Numbers homa m m' g c (send-Sent homa silent_ticks m m' g e) in
    let caps = grant_increment-Caps homa (catch_up m) in
    let account = update_incoming_account homa m' n.counts' in
    let recorded = ap (λ (x : MessageIn). x.rec_incoming) account.0 in
    let frame = catch_up_frame m in
    omega (
      int_laws,
      caps.limit,
      n.incoming,
      n.positive,
      n.no_debt,
      n.rec_incoming,
      frame.2,
      recorded,
      incoming_bytes_lem m' n.counts',
      ap pos_part account.1,
      ap neg_part account.1,
    )

pub at_most-ge : (a b c : ℤ) → c ≤ℤ a → c ≤ℤ b → c ≤ℤ at_most a b
unfolding at_most
at_most-ge a b c h k = ground arith
