-- ===== src/Handlers/Granted.antt =====
-- GRANT packets keep an outgoing message in order.
use connected_homa.Prelude.{
  ℕ, ◌≤◌, ◌<◌, ◌≡◌, refl, ap, sym, subst, ◌⊎◌, inl, inr, true, false, some, List, ◌++◌, map, All,
  arith, Bool-cases,
}
use connected_homa.Rpc.{MessageOut, Rpc, outgoing}
use connected_homa.Outgoing.{Sent, homa_xmit_data}
use connected_homa.Outgoing.Tiles.{Tiles}
use connected_homa.Outgoing.Fill.{homa_xmit_data-Progress}
use connected_homa.Outgoing.Resend.{homa_resend_data}
use connected_homa.Handlers.{Link, GrantPacket, take_grant, homa_grant_pkt, is_outgoing}

-- The packets cover the message one after another, `next_xmit` is where `next_xmit_offset` says, and no
-- more is granted than there is.
pub record Ready (m : MessageOut) : Type 0 where
  pub whole : Tiles 0 m.length m.packets
  pub rest : Tiles m.next_xmit_offset m.length m.next_xmit
  pub granted : m.granted ≤ m.length

take_grant_lem :
    (h : GrantPacket) (m : MessageOut)
    → m.granted ≤ m.length
    → ((take_grant h m).granted ≤ m.length)
      × (m.granted ≤ (take_grant h m).granted)
      × ((h.offset ≤ (take_grant h m).granted) ⊎ (m.length ≤ (take_grant h m).granted))
unfolding take_grant
take_grant_lem h m g = ground arith

-- What a GRANT changes in the RPC `rpc`: `granted` grows, to the offset of the packet or to the end of the
-- message if that is less, and the packets that are sent are the next ones, each of which starts below it.
pub record Grants (h : GrantPacket) (rpc : Rpc) (rpc' : Rpc) (sent : List Sent) : Type 0 where
  pub ready : Ready rpc'.msgout
  pub length : rpc'.msgout.length ≡ rpc.msgout.length
  pub grows : rpc.msgout.granted ≤ rpc'.msgout.granted
  pub reaches : (h.offset ≤ rpc'.msgout.granted) ⊎ (rpc.msgout.length ≤ rpc'.msgout.granted)
  pub order : map (λ (y : Sent). y.packet) sent ++ rpc'.msgout.next_xmit ≡ rpc.msgout.next_xmit
  pub below : All (λ (y : Sent). y.packet.offset < rpc'.msgout.granted) sent

sent-Grants :
    (k : Link) (idle : ℕ) (h : GrantPacket) (rpc : Rpc)
    → Ready rpc.msgout
    → let x = homa_xmit_data k.sender false idle (take_grant h rpc.msgout) in
      Grants h rpc (record rpc { msgout = x.msgout }) x.sent
unfolding take_grant
sent-Grants k idle h rpc r =
    let m = rpc.msgout in
    let x = homa_xmit_data k.sender false idle (take_grant h m) in
    let p = homa_xmit_data-Progress k.sender false idle (take_grant h m) r.rest in
    let (top, grows, reaches) = take_grant_lem h m r.granted in
    let (length, granted, packets, _) = p.frame in
    record {
      ready = record {
        whole =
            subst (λ l. Tiles 0 x.msgout.length l) (sym packets)
              (subst (λ n. Tiles 0 n m.packets) (sym length) r.whole);
        rest =
            subst (λ n. Tiles x.msgout.next_xmit_offset n x.msgout.next_xmit) (sym length) p.place;
        granted = omega (arith, granted, length, top);
      };
      length = length;
      grows = omega (arith, granted, grows);
      reaches = elim reaches [
        | inl a ↦ inl (omega (arith, granted, a))
        | inr a ↦ inr (omega (arith, granted, a))
      ];
      order = p.order;
      below = subst (λ n. All (λ (y : Sent). y.packet.offset < n) x.sent) (sym granted) p.granted;
    }

-- A GRANT for an RPC whose outgoing message is in order, in state RPC_OUTGOING, whether or not it asks for
-- what was sent before: `granted` never falls nor passes the end of the message, and reaches the offset of
-- the packet or that end; the packets that are sent are the next ones in order, each of which starts below
-- `granted`; and the message is in order again.
pub homa_grant_pkt-Grants :
    (k : Link) (idle : ℕ) (h : GrantPacket) (rpc : Rpc)
    → rpc.state ≡ outgoing
    → Ready rpc.msgout
    → (rpc' : Rpc) × ((homa_grant_pkt k idle h rpc).rpc ≡ some rpc')
      × Grants h rpc rpc' (homa_grant_pkt k idle h rpc).sent
unfolding homa_grant_pkt
homa_grant_pkt-Grants k idle h rpc out r =
    let is_out : is_outgoing rpc.state ≡ true = ap (λ t. is_outgoing t) out in
    let m = rpc.msgout in
    let after = λ (i : ℕ). record rpc {
      msgout = (homa_xmit_data k.sender false i (take_grant h m)).msgout;
    } in
    let idle' = (homa_resend_data k.sender k.route k.fresh idle m 0 m.next_xmit_offset).1 in
    let sent = (homa_grant_pkt k idle h rpc).sent in
    let sent_from = λ (i : ℕ). (homa_xmit_data k.sender false i (take_grant h m)).sent in
    let grants = λ (i : ℕ) (same : sent ≡ sent_from i).
      subst (λ l. Grants h rpc (after i) l) (sym same) (sent-Grants k i h rpc r) in
    elim (Bool-cases h.resend_all) [
      | inl again ↦ (after idle', rw (is_out, again) refl, grants idle' (rw (is_out, again) refl))
      | inr new ↦ (after idle, rw (is_out, new) refl, grants idle (rw (is_out, new) refl))
    ]
