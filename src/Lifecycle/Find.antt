-- ===== src/Lifecycle/Find.antt =====
-- The hash tables find exactly the active RPCs.
use connected_homa.Prelude.{
  ℕ, ◌≡◌, ◌↔◌, ap, sym, ◌∙◌, inl, inr, true, false, ◌&&◌, none, some, ◌==◌, arith, Bool-cases,
}
use connected_homa.Rpc.{is_client}
use connected_homa.Table.{
  Hsk, bucket_of, has, is_rpc, is_call, homa_find_client_rpc, homa_find_server_rpc,
}
use connected_homa.Table.Refs.{first_with_sound, first_with_complete, first_with-never}
use connected_homa.Lifecycle.Live.{Live}

-- For a client's id, `homa_find_client_rpc` finds the active RPC with that id, and no other.
pub homa_find_client_rpc-finds :
    (next id r : ℕ) (s : Hsk)
    → Live next s
    → is_client id ≡ true
    → (homa_find_client_rpc s id ≡ some r)
      ↔ ((has r s.active_rpcs && (s.rpcs r).rpc.id == id) ≡ true)
unfolding homa_find_client_rpc
homa_find_client_rpc-finds next id r s l client = (
  λ e.
      let (stands, passes) =
        first_with_sound (is_rpc id) s.rpcs (s.client_rpc_buckets (bucket_of id)) r e in
      ground (arith, stands, passes, l.clients r (bucket_of id)),
  λ h.
      let h' : has r s.active_rpcs ≡ true = ground (arith, h) in
      let ids : (s.rpcs r).rpc.id ≡ id = ground (arith, h) in
      first_with_complete (is_rpc id) s.rpcs (s.client_rpc_buckets (bucket_of id)) r
        (l.clients r (bucket_of id) ∙ rw (ids, h') (ground (arith, client))) (ground (arith, ids))
        (λ q stands passes.
          let ids' : (s.rpcs q).rpc.id ≡ id = ground (arith, passes) in
          l.one_client q r (ground (arith, stands, l.clients q (bucket_of id))) h'
            (ap (λ x. is_client x) ids' ∙ client) (ids' ∙ sym ids)),
)

-- For a server's id, `homa_find_server_rpc` finds an active RPC with that id and peer, if there is one.
pub homa_find_server_rpc-finds :
    (next saddr id r : ℕ) (s : Hsk)
    → Live next s
    → is_client id ≡ false
    → (homa_find_server_rpc s saddr id ≡ some r
        → (has r s.active_rpcs && is_call saddr id (s.rpcs r)) ≡ true)
      × (homa_find_server_rpc s saddr id ≡ none
          → (has r s.active_rpcs && is_call saddr id (s.rpcs r)) ≡ false)
unfolding homa_find_server_rpc
homa_find_server_rpc-finds next saddr id r s l server = (
  λ e.
      let (stands, passes) =
        first_with_sound (is_call saddr id) s.rpcs (s.server_rpc_buckets (bucket_of id)) r e in
      ground (arith, stands, passes, l.servers r (bucket_of id)),
  λ e. elim (Bool-cases (has r s.active_rpcs && is_call saddr id (s.rpcs r))) [
    | inr absent ↦ absent
    | inl there ↦
        let h : has r s.active_rpcs ≡ true = ground (arith, there) in
        let ids : (s.rpcs r).rpc.id ≡ id = ground (arith, there) in
        let stands : has r (s.server_rpc_buckets (bucket_of id)) ≡ true =
          l.servers r (bucket_of id) ∙ rw (ids, h) (ground (arith, server)) in
        let never =
          first_with-never (is_call saddr id) s.rpcs (s.server_rpc_buckets (bucket_of id)) r e
            stands in
        ground (arith, never, there)
  ],
)
