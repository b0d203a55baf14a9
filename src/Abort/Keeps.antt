-- ===== src/Abort/Keeps.antt =====
-- RPCs that end from outside leave the tables in order.
use connected_homa.Prelude.{
  ℕ, ◌≡◌, refl, subst, sym, inl, inr, Bool, true, false, not, ◌&&◌, Option, List, [], ◌∷◌, ◌==◌,
  if◌then◌else◌, Bool-cases, Option-cases, update, arith,
}
use connected_homa.Rpc.{is_client, local_id}
use connected_homa.Peer.{Ack}
use connected_homa.Handoff.{Cores, homa_rpc_handoff}
use connected_homa.Table.{Entry, Hsk, homa_find_server_rpc}
use connected_homa.Lifecycle.{is_dead, homa_rpc_free}
use connected_homa.Lifecycle.Live.{Live, Live-Same}
use connected_homa.Lifecycle.Free.{homa_rpc_free-Live}
use connected_homa.Lifecycle.Handed.{homa_rpc_handoff-Same}
use connected_homa.Lifecycle.Steps.{Keeps, change-Live}
use connected_homa.Abort.{
  set_error, homa_rpc_abort, abort_matching, is_to, homa_abort_rpcs, abort_one, abort_clients,
  homa_abort_sock_rpcs, acked_at, acked_in, homa_rpc_acked,
}

set_error-Live : (next error r : ℕ) (s : Hsk) → Live next s → Live next (set_error error r s)
unfolding Keeps
set_error-Live next error r s l = change-Live next r _ s (refl, refl, refl, refl) l

pub Live-if :
    (next : ℕ) (b : Bool) (x y : Hsk) → Live next x → Live next y → Live next (if b then x else y)
Live-if next true x y p q = p
Live-if next false x y p q = q

pub homa_rpc_abort-Live :
    (next : ℕ) (c : Cores) (error r : ℕ) (s : Hsk)
    → Live next s
    → Live next (homa_rpc_abort c error r s)
unfolding homa_rpc_abort
homa_rpc_abort-Live next c error r s l =
    let s' = set_error error r s in
    let l' = set_error-Live next error r s l in
    let handed = homa_rpc_handoff c r s' in
    Live-if next (not (is_client (s.rpcs r).rpc.id)) (homa_rpc_free r s)
      (if s.shutdown then s' else handed) (homa_rpc_free-Live next r s l)
      (Live-if next s.shutdown s' handed l'
        (Live-Same next s' handed l' (homa_rpc_handoff-Same c r s')))

abort_matching-Live :
    (next : ℕ) (c : Cores) (error : ℕ) (test : Entry → Bool) (rs : List ℕ) (s : Hsk)
    → Live next s
    → Live next (abort_matching c error test rs s)
unfolding abort_matching
abort_matching-Live next c error test [] s l = l
abort_matching-Live next c error test (r ∷ rs) s l = elim (Bool-cases (test (s.rpcs r))) [
  | inl meant ↦ rw meant (
      abort_matching-Live next c error test rs (homa_rpc_abort c error r s)
        (homa_rpc_abort-Live next c error r s l))
  | inr other ↦ rw other (abort_matching-Live next c error test rs s l)
]

pub homa_abort_rpcs-Live :
    (next : ℕ) (c : Cores) (addr port error : ℕ) (s : Hsk)
    → Live next s
    → Live next (homa_abort_rpcs c addr port error s)
unfolding homa_abort_rpcs
homa_abort_rpcs-Live next c addr port error s l =
    Live-if next s.shutdown s (abort_matching c error (is_to addr port) s.active_rpcs s) l
      (abort_matching-Live next c error (is_to addr port) s.active_rpcs s l)

abort_one-Live :
    (next : ℕ) (c : Cores) (error : Option ℕ) (r : ℕ) (s : Hsk)
    → Live next s
    → Live next (abort_one c error r s)
unfolding abort_one
abort_one-Live next c error r s l =
    elim (Bool-cases (is_client (s.rpcs r).rpc.id && not (is_dead (s.rpcs r).rpc.state))) [
      | inr other ↦ rw other l
      | inl client ↦ elim (Option-cases error) [
        | inl free ↦ rw (client, free) (homa_rpc_free-Live next r s l)
        | inr (n, abort) ↦ rw (client, abort) (homa_rpc_abort-Live next c n r s l)
      ]
    ]

abort_clients-Live :
    (next : ℕ) (c : Cores) (error : Option ℕ) (rs : List ℕ) (s : Hsk)
    → Live next s
    → Live next (abort_clients c error rs s)
unfolding abort_clients
abort_clients-Live next c error [] s l = l
abort_clients-Live next c error (r ∷ rs) s l =
    abort_clients-Live next c error rs (abort_one c error r s) (abort_one-Live next c error r s l)

pub homa_abort_sock_rpcs-Live :
    (next : ℕ) (c : Cores) (error : Option ℕ) (s : Hsk)
    → Live next s
    → Live next (homa_abort_sock_rpcs c error s)
unfolding homa_abort_sock_rpcs
homa_abort_sock_rpcs-Live next c error s l =
    Live-if next s.shutdown s (abort_clients c error s.active_rpcs s) l
      (abort_clients-Live next c error s.active_rpcs s l)

-- All sockets of the host are in order.
abbrev pub AllLive : (ℕ → ℕ) → (ℕ → Hsk) → Type 0
AllLive next socks = (i : ℕ) → Live (next i) (socks i)

freed-AllLive :
    (next : ℕ → ℕ) (i r : ℕ) (socks : ℕ → Hsk)
    → AllLive next socks
    → AllLive next (update socks i (homa_rpc_free r (socks i)))
freed-AllLive next i r socks l j = elim (Bool-cases (j == i)) [
  | inl same ↦
      let e : j ≡ i = ground arith in
      rw same (
        subst (λ k. Live (next k) (homa_rpc_free r (socks i))) (sym e)
          (homa_rpc_free-Live (next i) r (socks i) (l i)))
  | inr other ↦ rw other (l j)
]

acked_at-AllLive :
    (next : ℕ → ℕ) (i saddr id : ℕ) (socks : ℕ → Hsk)
    → AllLive next socks
    → AllLive next (acked_at i saddr id socks)
unfolding acked_at
acked_at-AllLive next i saddr id socks l =
    elim (Option-cases (homa_find_server_rpc (socks i) saddr id)) [
      | inl missing ↦ rw (missing, acked_at) l
      | inr (r, found) ↦ rw (found, acked_at) (freed-AllLive next i r socks l)
    ]

acked_in-AllLive :
    (next ports : ℕ → ℕ) (server_port saddr id hsk2 : ℕ) (is : List ℕ) (socks : ℕ → Hsk)
    → AllLive next socks
    → AllLive next (acked_in ports server_port saddr id hsk2 is socks)
unfolding acked_in
acked_in-AllLive next ports server_port saddr id hsk2 [] socks l =
    acked_at-AllLive next hsk2 saddr id socks l
acked_in-AllLive next ports server_port saddr id hsk2 (i ∷ is) socks l =
    let rest = acked_in-AllLive next ports server_port saddr id i is socks l in
    elim (Bool-cases (ports i == server_port)) [
      | inr other ↦ rw other rest
      | inl port ↦ elim (Option-cases (homa_find_server_rpc (socks i) saddr id)) [
        | inl missing ↦ rw (port, missing) rest
        | inr (r, found) ↦ rw (port, found) (freed-AllLive next i r socks l)
      ]
    ]

-- An ack leaves the tables of every socket in order.
pub homa_rpc_acked-AllLive :
    (next ports : ℕ → ℕ) (bucket : ℕ → List ℕ) (self saddr : ℕ) (ack : Ack) (socks : ℕ → Hsk)
    → AllLive next socks
    → AllLive next (homa_rpc_acked ports bucket self saddr ack socks)
unfolding homa_rpc_acked
homa_rpc_acked-AllLive next ports bucket self saddr ack socks l =
    elim (Bool-cases (ports self == ack.server_port)) [
      | inl own ↦ rw own (acked_at-AllLive next self saddr (local_id ack.client_id) socks l)
      | inr other ↦ rw other (
          acked_in-AllLive next ports ack.server_port saddr (local_id ack.client_id) self
            (bucket ack.server_port) socks l)
    ]
