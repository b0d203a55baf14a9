-- ===== src/Handlers/Recovery.antt =====
-- What the receiver of a message has lost comes back: the RESENDs of the timer, answered by the sender.
use connected_homa.Prelude.{
  ℕ, ◌+◌, ◌^◌, ◌≤◌, ◌<◌, ◌≡◌, refl, ap, sym, subst, inl, inr, true, false, some, List, [], ◌∷◌,
  ◌++◌, All, ltb, arith, Bool-cases,
}
use connected_homa.Rpc.{OutPacket, MessageIn, Rpc, outgoing, is_client}
use connected_homa.Homa.{Homa}
use connected_homa.Incoming.{Resend}
use connected_homa.Incoming.Account.{IsValid}
use connected_homa.Incoming.Reception.{received, in_range}
use connected_homa.Incoming.Retry.{requested}
use connected_homa.Timer.{resends}
use connected_homa.Timer.Resends.{resends-requested}
use connected_homa.Outgoing.Tiles.{Tiles}
use connected_homa.Outgoing.Resend.{Segment, homa_resend_data}
use connected_homa.Outgoing.Resend.Covers.{In, In-left, In-right, homa_resend_data-In}
use connected_homa.Handlers.{Link, ResendPacket, homa_resend_pkt, is_outgoing}

-- The segments with which an RPC answers RESEND packets, one after the other.
abbrev pub answers : Link → ℕ → Rpc → List Resend → List Segment
answers k idle rpc [] = []
answers k idle rpc (r ∷ rs) =
    let h =
      homa_resend_pkt k idle
        (record { offset = r.offset; length = r.length; priority = r.priority }) (some rpc) in
    h.segments ++ answers k h.idle rpc rs

-- The RPC may send data again: it sends a message, and holds back nothing that is granted.
pub record Sends (k : Link) (rpc : Rpc) : Type 0 where
  pub state : rpc.state ≡ outgoing
  pub caught_up : rpc.msgout.granted ≤ rpc.msgout.next_xmit_offset
  pub whole : Tiles 0 rpc.msgout.length rpc.msgout.packets
  pub segs : All (λ (p : OutPacket). 0 < p.seg_length) rpc.msgout.packets
  pub fresh : (i : ℕ) → k.fresh i ≡ true

resend_pkt-segments :
    (k : Link) (idle : ℕ) (h : ResendPacket) (rpc : Rpc)
    → Sends k rpc
    → (homa_resend_pkt k idle h (some rpc)).segments
      ≡ (homa_resend_data k.sender k.route k.fresh idle rpc.msgout h.offset (h.offset + h.length)).0
unfolding homa_resend_pkt
resend_pkt-segments k idle h rpc s =
    let is_out : is_outgoing rpc.state ≡ true = ap (λ t. is_outgoing t) s.state in
    let sent : ltb rpc.msgout.next_xmit_offset rpc.msgout.granted ≡ false =
      ground (arith, s.caught_up) in
    elim (Bool-cases (is_client rpc.id)) [
      | inl client ↦ rw (is_out, client, sent) refl
      | inr server ↦ rw (is_out, server, sent) refl
    ]

answers-In :
    (k : Link) (idle : ℕ) (rpc : Rpc) (rs : List Resend) (b : ℕ)
    → Sends k rpc
    → b < rpc.msgout.length
    → requested rs b ≡ true
    → In b (answers k idle rpc rs)
answers-In k idle rpc [] b s l q = absurd (cc)
answers-In k idle rpc (r ∷ rs) b s l q =
    let h : ResendPacket = record { offset = r.offset; length = r.length; priority = r.priority } in
    let here = homa_resend_pkt k idle h (some rpc) in
    let rest = answers k here.idle rpc rs in
    elim (Bool-cases (in_range r.offset (r.offset + r.length) b)) [
      | inl wanted ↦ In-left b here.segments rest (
          subst (λ l. In b l) (sym (resend_pkt-segments k idle h rpc s))
            (homa_resend_data-In k.sender k.route k.fresh idle rpc.msgout r.offset
              (r.offset + r.length) b s.fresh s.whole s.segs (ground (arith, wanted))
              (ground (arith, wanted)) l))
      | inr other ↦
          In-right b here.segments rest
            (answers-In k here.idle rpc rs b s l (ground (arith, other, q)))
    ]

-- The receiver has a well-formed message, was sent nothing beyond its grant, which is below 2^31 and within
-- the message, and sends the RESENDs of `homa_check_rpc`. The sender's message is in order, all that is
-- granted has been sent, and each packet can be made. Then every byte that is granted and has not been
-- received is in a packet with which the sender answers.
pub answers-recover :
    (homa : Homa) (m : MessageIn) (k : Link) (idle : ℕ) (rpc : Rpc) (b : ℕ)
    → IsValid m
    → m.recv_end ≤ m.granted
    → m.granted < 2 ^ 31
    → Sends k rpc
    → m.granted ≤ rpc.msgout.length
    → b < m.granted
    → received m b ≡ false
    → In b (answers k idle rpc (resends homa (some m)))
answers-recover homa m k idle rpc b v e g s l h lost =
    answers-In k idle rpc (resends homa (some m)) b s (omega arith)
      (ground (arith, resends-requested homa m b v e g, lost))
