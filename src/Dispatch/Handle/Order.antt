-- ===== src/Dispatch/Handle/Order.antt =====
-- Whatever packets arrive, the tables of the sockets stay in order.
use connected_homa.Prelude.{
  ℕ, refl, inl, inr, not, ◌&&◌, ltb, Option, none, some, List, [], ◌∷◌, ◌==◌, if◌then◌else◌,
  Bool-cases, update, length,
}
use connected_homa.Rpc.{Rpc, is_client}
use connected_homa.Peer.{Ack}
use connected_homa.Receive.{DataPacket, homa_data_pkt}
use connected_homa.Receive.Identity.{Stays, Stays-refl, homa_data_pkt-Stays}
use connected_homa.Handlers.{
  Handled, homa_grant_pkt, homa_resend_pkt, homa_unknown_pkt, Link, GrantPacket, ResendPacket,
  is_outgoing,
}
use connected_homa.Handoff.{homa_rpc_handoff}
use connected_homa.Table.{Hsk}
use connected_homa.Abort.{homa_rpc_acked}
use connected_homa.Lifecycle.{homa_rpc_free}
use connected_homa.Lifecycle.Live.{Live, Live-Same}
use connected_homa.Lifecycle.Free.{homa_rpc_free-Live}
use connected_homa.Lifecycle.Handed.{homa_rpc_handoff-Same}
use connected_homa.Lifecycle.Steps.{Keeps, change-Live}
use connected_homa.Abort.Keeps.{Live-if, AllLive, homa_rpc_acked-AllLive}
use connected_homa.Dispatch.{
  Body, data_pkt, grant_pkt, resend_pkt, unknown_pkt, busy_pkt, cutoffs_pkt, need_ack_pkt, ack_pkt,
  other_pkt, max_acks, Batch, Host, hsk_of,
}
use connected_homa.Dispatch.Handle.{
  around, note, handle_data, put_rpc, handle_grant_like, process_acks, each_ack, homa_ack_pkt,
  save_ack, handle_stray, handle,
}

-- Another state of the socket where the packets arrive.
pub put-AllLive :
    (next : ℕ) (self : ℕ) (s : Hsk) (socks : ℕ → Hsk)
    → AllLive (λ _. next) socks
    → Live next s
    → AllLive (λ _. next) (update socks self s)
put-AllLive next self s socks l here i = elim (Bool-cases (i == self)) [
  | inl same ↦ rw same here
  | inr other ↦ rw other (l i)
]

-- What a handler may leave of an RPC.
Leaves : Rpc → Option Rpc → Type 0
Leaves rpc none = Unit
Leaves rpc (some rpc') = Stays rpc rpc'

put_rpc-Live :
    (next r : ℕ) (o : Option Rpc) (s : Hsk)
    → Live next s
    → Leaves (s.rpcs r).rpc o
    → Live next (put_rpc r o s)
unfolding put_rpc Leaves Keeps
put_rpc-Live next r none s l k = homa_rpc_free-Live next r s l
put_rpc-Live next r (some rpc) s l k =
    change-Live next r (record (s.rpcs r) { rpc = rpc }) s (k.id, refl, k.dport, k.ends) l

homa_grant_pkt-Leaves :
    (k : Link) (idle : ℕ) (h : GrantPacket) (rpc : Rpc)
    → Leaves rpc (homa_grant_pkt k idle h rpc).rpc
unfolding homa_grant_pkt Leaves
homa_grant_pkt-Leaves k idle h rpc = elim (Bool-cases (is_outgoing rpc.state)) [
  | inl out ↦ rw out (record { id = refl; dport = refl; ends = refl })
  | inr other ↦ rw other (Stays-refl rpc)
]

homa_resend_pkt-Leaves :
    (k : Link) (idle : ℕ) (h : ResendPacket) (rpc : Rpc)
    → Leaves rpc (homa_resend_pkt k idle h (some rpc)).rpc
unfolding homa_resend_pkt Leaves
homa_resend_pkt-Leaves k idle h rpc =
    elim (Bool-cases (not (is_client rpc.id) && not (is_outgoing rpc.state))) [
      | inl refuse ↦ rw refuse (Stays-refl rpc)
      | inr answer ↦ elim (Bool-cases (ltb rpc.msgout.next_xmit_offset rpc.msgout.granted)) [
        | inl sending ↦ rw (answer, sending) (Stays-refl rpc)
        | inr idle_now ↦ rw (answer, idle_now) (Stays-refl rpc)
      ]
    ]

homa_unknown_pkt-Leaves :
    (k : Link) (idle : ℕ) (rpc : Rpc) → Leaves rpc (homa_unknown_pkt k idle rpc).rpc
unfolding homa_unknown_pkt Leaves
homa_unknown_pkt-Leaves k idle rpc = elim (Bool-cases (is_client rpc.id)) [
  | inr server ↦ rw server tt
  | inl client ↦ elim (Bool-cases (is_outgoing rpc.state)) [
    | inl out ↦ rw (client, out) (Stays-refl rpc)
    | inr other ↦ rw (client, other) (Stays-refl rpc)
  ]
]

-- The sockets of the host.
abbrev pub Sound : ℕ → Host → Type 0
Sound next w = AllLive (λ _. next) w.socks

handle_grant_like-Sound :
    (next : ℕ) (b : Batch) (r : ℕ) (x : Handled) (w : Host)
    → Sound next w
    → Leaves ((hsk_of b w).rpcs r).rpc x.rpc
    → Sound next (handle_grant_like b r x w)
unfolding handle_grant_like
handle_grant_like-Sound next b r x w l k =
    put-AllLive next b.self (put_rpc r x.rpc (hsk_of b w)) w.socks l
      (put_rpc-Live next r x.rpc (hsk_of b w) (l b.self) k)

handle_data-Sound :
    (next : ℕ) (b : Batch) (h : DataPacket) (r : ℕ) (w : Host)
    → Sound next w
    → Sound next (handle_data b h r w)
unfolding handle_data Keeps
handle_data-Sound next b h r w l =
    let s = hsk_of b w in
    let e = s.rpcs r in
    let result =
      homa_data_pkt b.moment b.memory b.cutoff_version b.jiffies h e.rpc (around r e s w) in
    let k =
      homa_data_pkt-Stays b.moment b.memory b.cutoff_version b.jiffies h e.rpc (around r e s w) in
    let e' = record e { rpc = result.0; pkts_ready = result.1.pkts_ready } in
    let changed = record s { rpcs = update s.rpcs r e' } in
    let live = change-Live next r e' s (k.id, refl, k.dport, k.ends) (l b.self) in
    let s' = record changed { buffers = result.1.buffers } in
    let live' = Live-Same next changed s' live (record {
      client_rpc_buckets = refl;
      server_rpc_buckets = refl;
      active_rpcs = refl;
      dead_rpcs = refl;
      rpc = λ q. refl;
      peer = λ q. refl;
    }) in
    let handed = homa_rpc_handoff b.cores r s' in
    put-AllLive next b.self (if result.1.handoffs == 0 then s' else handed) w.socks l (
      Live-if next (result.1.handoffs == 0) s' handed live'
        (Live-Same next s' handed live' (homa_rpc_handoff-Same b.cores r s')))

pub process_acks-AllLive :
    (next : ℕ) (b : Batch) (acks : List Ack) (socks : ℕ → Hsk)
    → AllLive (λ _. next) socks
    → AllLive (λ _. next) (process_acks b acks socks)
unfolding process_acks
process_acks-AllLive next b [] socks l = l
process_acks-AllLive next b (ack ∷ acks) socks l =
    homa_rpc_acked-AllLive (λ _. next) b.ports b.bucket b.self b.saddr ack
      (process_acks b acks socks) (process_acks-AllLive next b acks socks l)

each_ack-AllLive :
    (next : ℕ) (b : Batch) (acks : List Ack) (socks : ℕ → Hsk)
    → AllLive (λ _. next) socks
    → AllLive (λ _. next) (each_ack b acks socks)
unfolding each_ack
each_ack-AllLive next b [] socks l = l
each_ack-AllLive next b (ack ∷ acks) socks l =
    each_ack-AllLive next b acks (homa_rpc_acked b.ports b.bucket b.self b.saddr ack socks)
      (homa_rpc_acked-AllLive (λ _. next) b.ports b.bucket b.self b.saddr ack socks l)

homa_ack_pkt-Sound :
    (next : ℕ) (b : Batch) (acks : List Ack) (o : Option ℕ) (w : Host)
    → Sound next w
    → Sound next (homa_ack_pkt b acks o w)
unfolding homa_ack_pkt
homa_ack_pkt-Sound next b acks none w l = each_ack-AllLive next b acks w.socks l
homa_ack_pkt-Sound next b acks (some r) w l =
    each_ack-AllLive next b acks (update w.socks b.self (homa_rpc_free r (hsk_of b w))) (
      put-AllLive next b.self (homa_rpc_free r (hsk_of b w)) w.socks l
        (homa_rpc_free-Live next r (hsk_of b w) (l b.self)))

pub handle_stray-Sound :
    (next : ℕ) (b : Batch) (body : Body) (w : Host)
    → Sound next w
    → Sound next (handle_stray b body w)
unfolding handle_stray
handle_stray-Sound next b (cutoffs_pkt cutoffs version) w l = l
handle_stray-Sound next b need_ack_pkt w l = l
handle_stray-Sound next b (ack_pkt acks) w l = homa_ack_pkt-Sound next b acks w.rpc w l
handle_stray-Sound next b (resend_pkt h) w l = by_rpc w.rpc
  where
    by_rpc :
        (o : Option ℕ)
        → Sound next (elim o [
          | none ↦ note (homa_resend_pkt (b.link 0) w.idle h none) w
          | some r ↦
              handle_grant_like b r
                (homa_resend_pkt (b.link r) w.idle h (some ((hsk_of b w).rpcs r).rpc))
                w
        ])
    by_rpc none = l
    by_rpc (some r) =
        handle_grant_like-Sound next b r
          (homa_resend_pkt (b.link r) w.idle h (some ((hsk_of b w).rpcs r).rpc)) w l
          (homa_resend_pkt-Leaves (b.link r) w.idle h ((hsk_of b w).rpcs r).rpc)
handle_stray-Sound next b (data_pkt _ _) w l = l
handle_stray-Sound next b (grant_pkt _) w l = l
handle_stray-Sound next b unknown_pkt w l = l
handle_stray-Sound next b busy_pkt w l = l
handle_stray-Sound next b other_pkt w l = l

save_ack-Sound : (next : ℕ) (o : Option Ack) (w : Host) → Sound next w → Sound next (save_ack o w)
save_ack-Sound next none w l = l
save_ack-Sound next (some ack) w l = elim (Bool-cases (ltb (length w.acks) max_acks)) [
  | inl room ↦ rw room l
  | inr full ↦ rw full l
]

pub handle-Sound :
    (next : ℕ) (b : Batch) (body : Body) (r : ℕ) (w : Host)
    → Sound next w
    → Sound next (handle b body r w)
unfolding handle
handle-Sound next b (data_pkt h ack) r w l =
    handle_data-Sound next b h r (save_ack ack w) (save_ack-Sound next ack w l)
handle-Sound next b (grant_pkt h) r w l =
    handle_grant_like-Sound next b r (homa_grant_pkt (b.link r) w.idle h ((hsk_of b w).rpcs r).rpc)
      w l (homa_grant_pkt-Leaves (b.link r) w.idle h ((hsk_of b w).rpcs r).rpc)
handle-Sound next b unknown_pkt r w l =
    handle_grant_like-Sound next b r (homa_unknown_pkt (b.link r) w.idle ((hsk_of b w).rpcs r).rpc)
      w l (homa_unknown_pkt-Leaves (b.link r) w.idle ((hsk_of b w).rpcs r).rpc)
handle-Sound next b busy_pkt r w l = l
handle-Sound next b (resend_pkt h) r w l = handle_stray-Sound next b (resend_pkt h) w l
handle-Sound next b (cutoffs_pkt cutoffs version) r w l =
    handle_stray-Sound next b (cutoffs_pkt cutoffs version) w l
handle-Sound next b need_ack_pkt r w l = handle_stray-Sound next b need_ack_pkt w l
handle-Sound next b (ack_pkt acks) r w l = handle_stray-Sound next b (ack_pkt acks) w l
handle-Sound next b other_pkt r w l = handle_stray-Sound next b other_pkt w l
