-- ===== src/Lifecycle/Serve.antt =====
-- A new server RPC keeps the tables in order.
use connected_homa.Prelude.{
  ℕ, ◌≡◌, ap, sym, ◌∙◌, inl, inr, true, false, none, ◌==◌, arith, Bool-cases,
}
use connected_homa.Rpc.{is_client}
use connected_homa.Table.{Entry, Hsk, bucket_of, has, first_with}
use connected_homa.Table.Refs.{has-append, first_with-never}
use connected_homa.Lifecycle.{is_dead, link_server, is_request}
use connected_homa.Lifecycle.Live.{Live, was_active}

-- A new server RPC, for a request that has none.
pub link_server-Live :
    (next r : ℕ) (e : Entry) (s : Hsk)
    → Live next s
    → has r s.active_rpcs ≡ false
    → has r s.dead_rpcs ≡ false
    → is_client e.rpc.id ≡ false
    → is_dead e.rpc.state ≡ false
    → first_with
        (is_request e.rpc.id e.rpc.dport e.peer)
        s.rpcs
        (s.server_rpc_buckets (bucket_of e.rpc.id))
      ≡ none
    → Live next (link_server r e s)
unfolding link_server
link_server-Live next r e s l unused unburied server alive none_yet = record {
  clients = λ q n. elim (Bool-cases (q == r)) [
    | inl same ↦
        let out = l.clients q n in
        rw same (ground (arith, has-append q r s.active_rpcs, out, server, unused_at q same))
    | inr other ↦ rw other (ground (arith, has-append q r s.active_rpcs, l.clients q n))
  ];
  servers = λ q n. elim (Bool-cases (q == r)) [
    | inl same ↦ ground (arith, has-append q r s.active_rpcs, l.servers q n)
    | inr other ↦ ground (arith, has-append q r s.active_rpcs, l.servers q n)
  ];
  alive = λ q h. elim (Bool-cases (q == r)) [
    | inl same ↦ rw same alive
    | inr other ↦ rw other (l.alive q (was_active r q s.active_rpcs h other))
  ];
  gone = λ q h. elim (Bool-cases (q == r)) [
    | inl same ↦ absurd (ground (arith, h, unburied, ap (λ x. has x s.dead_rpcs) (equal q same)))
    | inr other ↦ rw other (l.gone q h)
  ];
  below = λ q h. elim (Bool-cases (q == r)) [
    | inl same ↦ rw same (λ c. absurd (ground (arith, c, server)))
    | inr other ↦ rw other (l.below q (was_active r q s.active_rpcs h other))
  ];
  one_client = λ p q hp hq. elim (Bool-cases (p == r)) [
    | inl same ↦ rw same (λ c. absurd (ground (arith, c, server)))
    | inr new ↦ elim (Bool-cases (q == r)) [
      | inl both ↦ rw (new, both) (λ c ids. absurd (ground (arith, c, ids, server)))
      | inr other ↦
          rw (new, other)
            (l.one_client p q (was_active r p s.active_rpcs hp new)
              (was_active r q s.active_rpcs hq other))
    ]
  ];
  one_server = λ p q hp hq. elim (Bool-cases (p == r)) [
    | inl same ↦ elim (Bool-cases (q == r)) [
      | inl both ↦ λ c ids peer dport. equal p same ∙ sym (equal q both)
      | inr other ↦
          rw (same, other)
            (λ c ids peer dport.
              absurd
                (fresh q (was_active r q s.active_rpcs hq other) (sym ids) (sym peer) (sym dport)))
    ]
    | inr new ↦ elim (Bool-cases (q == r)) [
      | inl both ↦
          rw (new, both)
            (λ c ids peer dport.
              absurd (fresh p (was_active r p s.active_rpcs hp new) ids peer dport))
      | inr other ↦
          rw (new, other)
            (l.one_server p q (was_active r p s.active_rpcs hp new)
              (was_active r q s.active_rpcs hq other))
    ]
  ];
}
  where
    equal : (q : ℕ) → (q == r) ≡ true → q ≡ r
    equal q h = ground arith

    unused_at : (q : ℕ) → (q == r) ≡ true → has q s.active_rpcs ≡ false
    unused_at q h = ap (λ x. has x s.active_rpcs) (equal q h) ∙ unused

    fresh :
        (q : ℕ)
        → has q s.active_rpcs ≡ true
        → (s.rpcs q).rpc.id ≡ e.rpc.id
        → (s.rpcs q).peer ≡ e.peer
        → (s.rpcs q).rpc.dport ≡ e.rpc.dport
        → ⊥
    fresh q h ids peer dport =
        let stands = l.servers q (bucket_of e.rpc.id) in
        let here : has q (s.server_rpc_buckets (bucket_of e.rpc.id)) ≡ true =
          stands ∙ rw (ids, h) (ground (arith, server)) in
        let never =
          first_with-never (is_request e.rpc.id e.rpc.dport e.peer) s.rpcs
            (s.server_rpc_buckets (bucket_of e.rpc.id)) q none_yet here in
        ground (arith, never, ids, peer, dport)
