-- ===== src/Dispatch.antt =====
-- homa_incoming.c: `homa_dispatch_pkts` and `homa_ack_pkt`, what is done with a batch of packets of one RPC,
-- once `homa_sock_find_connected` has found the socket. `homa_grant_check_rpc`, which ends the batch, is left
-- out, and so is the call of `homa_rpc_reap`.
pub mod Handle
use connected_homa.Prelude.{
  ℕ, ◌+◌, ◌-◌, Bool, true, false, not, ◌&&◌, ◌||◌, Option, none, some, List, [], ◌∷◌, ◌++◌, ltb,
  leb, ◌==◌, if◌then◌else◌, update, length,
}
use connected_homa.Rpc.{Rpc, is_client, local_id}
use connected_homa.Incoming.{Metrics}
use connected_homa.Peer.{Ack, Peer, AckPacket, homa_cutoffs_pkt}
use connected_homa.NeedAck.{homa_need_ack_pkt}
use connected_homa.Buffers.Queue.{Moment}
use connected_homa.Receive.{DataPacket, Surroundings, homa_data_pkt}
use connected_homa.Handlers.{
  Link, GrantPacket, ResendPacket, Handled, homa_grant_pkt, homa_resend_pkt, homa_unknown_pkt,
}
use connected_homa.Handoff.{Cores, homa_rpc_handoff}
use connected_homa.Table.{Entry, Hsk, homa_find_client_rpc, homa_find_server_rpc}
use connected_homa.Lifecycle.{
  Supply, Created, new_rpc, old_rpc, no_rpc, diverges, Request, homa_rpc_new_server, homa_rpc_free,
}
use connected_homa.Abort.{homa_rpc_acked}

-- MAX_ACKS
abbrev pub max_acks : ℕ
max_acks = 10

-- A packet by its type, with what the handlers read of it; the `ack` of a DATA packet is `none` where its
-- `client_id` is 0.
pub data Body : Type 0 where
  data_pkt : DataPacket → Option Ack → Body
  grant_pkt : GrantPacket → Body
  resend_pkt : ResendPacket → Body
  unknown_pkt busy_pkt : Body
  cutoffs_pkt : List ℕ → ℕ → Body
  need_ack_pkt : Body
  ack_pkt : List Ack → Body
  other_pkt : Body

-- The packets that the code handles for an RPC that is not known.
abbrev pub is_stray : Body → Bool
is_stray (data_pkt _ _) = false
is_stray (grant_pkt _) = false
is_stray (resend_pkt _) = true
is_stray unknown_pkt = false
is_stray busy_pkt = false
is_stray (cutoffs_pkt _ _) = true
is_stray need_ack_pkt = true
is_stray (ack_pkt _) = true
is_stray other_pkt = false

-- DATA, GRANT, BUSY and NEED_ACK.
abbrev pub is_sign_of_life : Body → Bool
is_sign_of_life (data_pkt _ _) = true
is_sign_of_life (grant_pkt _) = true
is_sign_of_life (resend_pkt _) = false
is_sign_of_life unknown_pkt = false
is_sign_of_life busy_pkt = true
is_sign_of_life (cutoffs_pkt _ _) = false
is_sign_of_life need_ack_pkt = true
is_sign_of_life (ack_pkt _) = false
is_sign_of_life other_pkt = false

-- What a batch has in common: its addresses and ids, the socket `self` where it arrives, the ports and
-- buckets of the table of sockets, the clocks, the means to send, and `memory` for gaps.
pub record Batch : Type 0 where
  pub sender_id : ℕ
  pub sport : ℕ
  pub saddr : ℕ
  pub self : ℕ
  pub ports : ℕ → ℕ
  pub bucket : ℕ → List ℕ
  pub cores : Cores
  pub moment : Moment
  pub jiffies : ℕ
  pub cutoff_version : ℕ
  pub memory : Bool
  pub link : ℕ → Link

-- A packet of the batch: `supply` is what a new RPC would get, and `yields` says that another core had set
-- APP_NEEDS_LOCK.
pub record Arrival : Type 0 where
  pub body : Body
  pub supply : Supply
  pub yields : Bool

-- The host: its sockets, its peers by address, with `outstanding_resends` and `last_update_jiffies` of each,
-- the counters, what was sent, and the local variables `rpc` and `acks`.
pub record Host : Type 0 where
  pub socks : ℕ → Hsk
  pub peers : ℕ → Peer
  pub outstanding_resends : ℕ → ℕ
  pub last_update_jiffies : ℕ → ℕ
  pub metrics : Metrics
  pub dropped_data_no_bufs : ℕ
  pub unknown_rpcs : ℕ
  pub server_cant_create_rpcs : ℕ
  pub unknown_packet_types : ℕ
  pub cutoffs_sent : ℕ
  pub idle : ℕ
  pub handled : List Handled
  pub acks_sent : List AckPacket
  pub rpc : Option ℕ
  pub acks : List Ack

abbrev pub hsk_of : Batch → Host → Hsk
hsk_of b w = w.socks b.self

abbrev pub with_hsk : Batch → Hsk → Host → Host
with_hsk b s w = record w { socks = update w.socks b.self s }

-- The header that `homa_rpc_new_server` is given.
abbrev pub request_of : Batch → DataPacket → Request
request_of b h = record {
  sender_id = b.sender_id;
  sport = b.sport;
  message_length = h.message_length;
  incoming = h.incoming;
  offset = h.packet.offset;
}

abbrev pub cannot : Host → Host
cannot w = record w { rpc = none; server_cant_create_rpcs = w.server_cant_create_rpcs + 1 }

-- What is done with the result of `homa_rpc_new_server`; `false` where the code goes to `discard` at once.
-- A search for pages without an end is taken as an error.
abbrev pub take_server : Batch → Host → Created → Host × Bool
take_server b w (new_rpc r s) = (with_hsk b s (record w { rpc = some r }), true)
take_server b w (old_rpc r) = (record w { rpc = some r }, true)
take_server b w (no_rpc e s) = (with_hsk b s (cannot w), false)
take_server b w diverges = (cannot w, false)

-- Look for the RPC of a server.
pub search_server : Batch → Supply → Body → Host → Host × Bool
search_server b supply (data_pkt h ack) w =
    take_server b w
      (homa_rpc_new_server b.cores b.moment 0 supply b.saddr (request_of b h) (hsk_of b w))
search_server b supply _ w =
    (record w { rpc = homa_find_server_rpc (hsk_of b w) b.saddr (local_id b.sender_id) }, true)

pub search_rpc : Batch → Arrival → Host → Host × Bool
unfolding search_server
search_rpc b a w =
    let id = local_id b.sender_id in
    if is_client id
    then (record w { rpc = homa_find_client_rpc (hsk_of b w) id }, true)
    else search_server b a.supply a.body w

-- The RPC of the batch, where it is not known yet, or was given up.
pub find_rpc : Batch → Arrival → Host → Host × Bool
unfolding search_rpc
find_rpc b a w = elim w.rpc [
  | none ↦ search_rpc b a w
  | some _ ↦ if a.yields then search_rpc b a w else (w, true)
]

abbrev pub heard : Body → Entry → Entry
heard body e =
    if is_sign_of_life body then record e { rpc = record e.rpc { silent_ticks = 0 } } else e

-- `silent_ticks` and `outstanding_resends`, for an RPC that is known.
pub hear : Batch → Body → ℕ → Host → Host
hear b body r w =
    let s = hsk_of b w in
    let e = s.rpcs r in
    with_hsk b (record s { rpcs = update s.rpcs r (heard body e) })
      (record w { outstanding_resends = update w.outstanding_resends e.peer 0 })
