-- ===== src/Dispatch/Handle/Batches.antt =====
-- A batch of packets leaves the tables of the sockets in order.
use connected_homa.Prelude.{
  ℕ, ◌≡◌, refl, inl, inr, Bool, true, false, Option, none, some, List, [], ◌∷◌, if◌then◌else◌,
  Bool-cases, update,
}
use connected_homa.Rpc.{is_client, local_id}
use connected_homa.Table.{Entry}
use connected_homa.Lifecycle.{
  Supply, Created, new_rpc, old_rpc, no_rpc, diverges, homa_rpc_new_server,
}
use connected_homa.Lifecycle.Live.{Live}
use connected_homa.Lifecycle.After.{Fresh, after, homa_rpc_new_server-Live}
use connected_homa.Lifecycle.Steps.{Keeps, change-Live}
use connected_homa.Dispatch.{
  Body, data_pkt, grant_pkt, resend_pkt, unknown_pkt, busy_pkt, cutoffs_pkt, need_ack_pkt, ack_pkt,
  other_pkt, is_sign_of_life, is_stray, Batch, Arrival, Host, hsk_of, find_rpc, search_rpc,
  search_server, take_server, request_of, heard, hear,
}
use connected_homa.Dispatch.Handle.{
  handle, handle_unknown, proceed, one_packet, each_packet, homa_dispatch_pkts,
}
use connected_homa.Dispatch.Handle.Order.{
  Sound, put-AllLive, process_acks-AllLive, handle_stray-Sound, handle-Sound,
}

take_server-Sound :
    (next : ℕ) (b : Batch) (w : Host) (c : Created)
    → Sound next w
    → Live next (after (hsk_of b w) c)
    → Sound next (take_server b w c).0
unfolding after
take_server-Sound next b w (new_rpc r s) l k = put-AllLive next b.self s w.socks l k
take_server-Sound next b w (old_rpc r) l k = l
take_server-Sound next b w (no_rpc e s) l k = put-AllLive next b.self s w.socks l k
take_server-Sound next b w diverges l k = l

either :
    (next : ℕ) (t : Bool) (x y : Host × Bool)
    → Sound next x.0
    → Sound next y.0
    → Sound next (if t then x else y).0
either next true x y p q = p
either next false x y p q = q

either_host :
    (next : ℕ) (t : Bool) (x y : Host)
    → Sound next x
    → Sound next y
    → Sound next (if t then x else y)
either_host next true x y p q = p
either_host next false x y p q = q

search_server-Sound :
    (next : ℕ) (b : Batch) (supply : Supply) (body : Body) (w : Host)
    → Sound next w
    → Fresh supply (hsk_of b w)
    → is_client (local_id b.sender_id) ≡ false
    → Sound next (search_server b supply body w).0
unfolding search_server
search_server-Sound next b supply (data_pkt h ack) w l fresh server =
    take_server-Sound next b w
      (homa_rpc_new_server b.cores b.moment 0 supply b.saddr (request_of b h) (hsk_of b w)) l
      (homa_rpc_new_server-Live b.cores b.moment 0 supply b.saddr next (request_of b h) (hsk_of b w)
        (l b.self) fresh server)
search_server-Sound next b supply (grant_pkt _) w l fresh server = l
search_server-Sound next b supply (resend_pkt _) w l fresh server = l
search_server-Sound next b supply unknown_pkt w l fresh server = l
search_server-Sound next b supply busy_pkt w l fresh server = l
search_server-Sound next b supply (cutoffs_pkt _ _) w l fresh server = l
search_server-Sound next b supply need_ack_pkt w l fresh server = l
search_server-Sound next b supply (ack_pkt _) w l fresh server = l
search_server-Sound next b supply other_pkt w l fresh server = l

search_rpc-Sound :
    (next : ℕ) (b : Batch) (a : Arrival) (w : Host)
    → Sound next w
    → Fresh a.supply (hsk_of b w)
    → Sound next (search_rpc b a w).0
unfolding search_rpc
search_rpc-Sound next b a w l fresh = elim (Bool-cases (is_client (local_id b.sender_id))) [
  | inl client ↦ rw client l
  | inr server ↦ rw server (search_server-Sound next b a.supply a.body w l fresh server)
]

find_rpc-Sound :
    (next : ℕ) (b : Batch) (a : Arrival) (w : Host)
    → Sound next w
    → Fresh a.supply (hsk_of b w)
    → Sound next (find_rpc b a w).0
unfolding find_rpc
find_rpc-Sound next b a w l fresh = by_rpc w.rpc
  where
    found : Sound next (search_rpc b a w).0
    found = search_rpc-Sound next b a w l fresh

    either :
        (t : Bool) (x : Host × Bool) → Sound next x.0 → Sound next (if t then x else (w, true)).0
    either true x p = p
    either false x p = l

    picked : Option ℕ → Host × Bool
    picked o = elim o [
      | none ↦ search_rpc b a w
      | some _ ↦ if a.yields then search_rpc b a w else (w, true)
    ]

    by_rpc : (o : Option ℕ) → Sound next (picked o).0
    by_rpc none = found
    by_rpc (some _) = either a.yields (search_rpc b a w) found

heard-Keeps : (body : Body) (e : Entry) → Keeps e (heard body e)
unfolding Keeps
heard-Keeps body e = elim (Bool-cases (is_sign_of_life body)) [
  | inl alive ↦ rw alive (refl, refl, refl, refl)
  | inr other ↦ rw other (refl, refl, refl, refl)
]

hear-Sound :
    (next : ℕ) (b : Batch) (body : Body) (r : ℕ) (w : Host)
    → Sound next w
    → Sound next (hear b body r w)
unfolding hear
hear-Sound next b body r w l =
    let s = hsk_of b w in
    let e = heard body (s.rpcs r) in
    put-AllLive next b.self (record s { rpcs = update s.rpcs r e }) w.socks l
      (change-Live next r e s (heard-Keeps body (s.rpcs r)) (l b.self))

handle_unknown-Sound :
    (next : ℕ) (b : Batch) (body : Body) (w : Host)
    → Sound next w
    → Sound next (handle_unknown b body w)
unfolding handle_unknown
handle_unknown-Sound next b body w l = elim (Bool-cases (is_stray body)) [
  | inl stray ↦ rw stray (handle_stray-Sound next b body w l)
  | inr other ↦ rw other l
]

proceed-Sound :
    (next : ℕ) (b : Batch) (body : Body) (x : Host × Bool)
    → Sound next x.0
    → Sound next (proceed b body x)
unfolding proceed
proceed-Sound next b body (w, false) l = l
proceed-Sound next b body (w, true) l = by_rpc w.rpc
  where
    known : Option ℕ → Host
    known o = elim o [ none ↦ handle_unknown b body w | some r ↦ handle b body r (hear b body r w) ]

    by_rpc : (o : Option ℕ) → Sound next (known o)
    by_rpc none = handle_unknown-Sound next b body w l
    by_rpc (some r) = handle-Sound next b body r (hear b body r w) (hear-Sound next b body r w l)

one_packet-Sound :
    (next : ℕ) (b : Batch) (a : Arrival) (w : Host)
    → Sound next w
    → Fresh a.supply (hsk_of b w)
    → Sound next (one_packet b a w)
unfolding one_packet
one_packet-Sound next b a w l fresh =
    proceed-Sound next b a.body (find_rpc b a w) (find_rpc-Sound next b a w l fresh)

-- At each packet, `kmalloc` gives no memory that an RPC of the socket still has.
unfoldable pub FreshAll : Batch → List Arrival → Host → Type 0
FreshAll b [] w = Unit
FreshAll b (a ∷ rest) w = Fresh a.supply (hsk_of b w) × FreshAll b rest (one_packet b a w)

each_packet-Sound :
    (next : ℕ) (b : Batch) (packets : List Arrival) (w : Host)
    → Sound next w
    → FreshAll b packets w
    → Sound next (each_packet b packets w)
unfolding each_packet FreshAll
each_packet-Sound next b [] w l fresh = l
each_packet-Sound next b (a ∷ rest) w l (fresh, later) =
    each_packet-Sound next b rest (one_packet b a w) (one_packet-Sound next b a w l fresh) later

-- `homa_dispatch_pkts` keeps the tables of all sockets in order, whatever the packets are, where `kmalloc`
-- gives no memory that is in use: an RPC stands in its bucket if and only if it is active, no active RPC is
-- dead, and no two active RPCs of a socket are the same.
pub homa_dispatch_pkts-Sound :
    (next : ℕ) (b : Batch) (packets : List Arrival) (w : Host)
    → Sound next w
    → FreshAll b packets (record w { rpc = none; acks = [] })
    → Sound next (homa_dispatch_pkts b packets w)
unfolding homa_dispatch_pkts
homa_dispatch_pkts-Sound next b packets w l fresh =
    let start = record w { rpc = none; acks = [] } in
    let w' = each_packet b packets start in
    process_acks-AllLive next b w'.acks w'.socks (each_packet-Sound next b packets start l fresh)
