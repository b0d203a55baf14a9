-- ===== src/Abort.antt =====
-- homa_incoming.c: `homa_rpc_abort`, `homa_abort_rpcs` and `homa_abort_sock_rpcs`, for one socket, and
-- homa_rpc.c, `homa_rpc_acked`: how RPCs end from outside.
pub mod Keeps
pub mod Delivered
pub mod Told
mod Tests
use connected_homa.Prelude.{
  ℕ, ◌+◌, Bool, true, false, not, ◌&&◌, ◌||◌, Option, none, some, List, [], ◌∷◌, ◌==◌,
  if◌then◌else◌, update,
}
use connected_homa.Rpc.{Rpc, is_client, local_id}
use connected_homa.Peer.{Ack}
use connected_homa.Handoff.{Cores, homa_rpc_handoff}
use connected_homa.Table.{Entry, Hsk, homa_find_server_rpc}
use connected_homa.Lifecycle.{is_dead, homa_rpc_free}

-- `rpc->error = error`
abbrev pub set_error : ℕ → ℕ → Hsk → Hsk
set_error error r s =
    let e = s.rpcs r in
    record s { rpcs = update s.rpcs r (record e { rpc = record e.rpc { error = some error } }) }

-- `homa_rpc_abort`
pub homa_rpc_abort : Cores → ℕ → ℕ → Hsk → Hsk
homa_rpc_abort c error r s =
    let s' = set_error error r s in
    if not (is_client (s.rpcs r).rpc.id)
    then homa_rpc_free r s
    else if s.shutdown
    then s'
    else homa_rpc_handoff c r s'

-- The loop of `homa_abort_rpcs` over the RPCs of a socket.
pub abort_matching : Cores → ℕ → (Entry → Bool) → List ℕ → Hsk → Hsk
abort_matching c error test [] s = s
abort_matching c error test (r ∷ rs) s =
    abort_matching c error test rs (if test (s.rpcs r) then homa_rpc_abort c error r s else s)

-- To or from this peer, and this server port if it is not 0.
abbrev pub is_to : ℕ → ℕ → Entry → Bool
is_to addr port e = e.peer == addr && (port == 0 || e.rpc.dport == port)

-- `homa_abort_rpcs` for one socket; `homa_protect_rpcs` fails where the socket is shut down.
pub homa_abort_rpcs : Cores → ℕ → ℕ → ℕ → Hsk → Hsk
unfolding abort_matching
homa_abort_rpcs c addr port error s =
    if s.shutdown then s else abort_matching c error (is_to addr port) s.active_rpcs s

-- One round of `homa_abort_sock_rpcs`; an `error` of 0 is `none`.
pub abort_one : Cores → Option ℕ → ℕ → Hsk → Hsk
unfolding homa_rpc_abort
abort_one c error r s =
    let e = s.rpcs r in
    let ended : Hsk = elim error [ none ↦ homa_rpc_free r s | some n ↦ homa_rpc_abort c n r s ] in
    if is_client e.rpc.id && not (is_dead e.rpc.state) then ended else s

pub abort_clients : Cores → Option ℕ → List ℕ → Hsk → Hsk
abort_clients c error [] s = s
abort_clients c error (r ∷ rs) s = abort_clients c error rs (abort_one c error r s)

-- `homa_abort_sock_rpcs`
pub homa_abort_sock_rpcs : Cores → Option ℕ → Hsk → Hsk
unfolding abort_clients
homa_abort_sock_rpcs c error s = if s.shutdown then s else abort_clients c error s.active_rpcs s

-- `homa_find_server_rpc` and `homa_rpc_free`, for socket `i`.
pub acked_at : ℕ → ℕ → ℕ → (ℕ → Hsk) → ℕ → Hsk
acked_at i saddr id socks = elim (homa_find_server_rpc (socks i) saddr id) [
  | none ↦ socks
  | some r ↦ update socks i (homa_rpc_free r (socks i))
]

-- The loop of `homa_rpc_acked` over a bucket of the table of sockets, and what follows; `hsk2` is the
-- local variable.
pub acked_in : (ℕ → ℕ) → ℕ → ℕ → ℕ → ℕ → List ℕ → (ℕ → Hsk) → ℕ → Hsk
unfolding acked_at
acked_in ports server_port saddr id hsk2 [] socks = acked_at hsk2 saddr id socks
acked_in ports server_port saddr id hsk2 (i ∷ is) socks =
    let rest = acked_in ports server_port saddr id i is socks in
    let freed : ℕ → Hsk = elim (homa_find_server_rpc (socks i) saddr id) [
      | none ↦ rest
      | some r ↦ update socks i (homa_rpc_free r (socks i))
    ] in
    if ports i == server_port then freed else rest

-- `homa_rpc_acked` on socket `self`; `bucket` are the sockets in the port's bucket.
pub homa_rpc_acked : (ℕ → ℕ) → (ℕ → List ℕ) → ℕ → ℕ → Ack → (ℕ → Hsk) → ℕ → Hsk
unfolding acked_in acked_at
homa_rpc_acked ports bucket self saddr ack socks =
    let id = local_id ack.client_id in
    if ports self == ack.server_port
    then acked_at self saddr id socks
    else acked_in ports ack.server_port saddr id self (bucket ack.server_port) socks
