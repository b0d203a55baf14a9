-- ===== src/Lifecycle/Begin.antt =====
-- A new client RPC keeps the tables in order.
use connected_homa.Prelude.{
  ℕ, ◌+◌, ◌≡◌, ◌≢◌, ap, sym, ◌∙◌, inl, inr, true, false, ◌==◌, arith, Bool-cases,
}
use connected_homa.Rpc.{is_client}
use connected_homa.Table.{Entry, Hsk, has}
use connected_homa.Table.Refs.{has-append}
use connected_homa.Lifecycle.{is_dead, link_client}
use connected_homa.Lifecycle.Live.{Live, was_active}

-- A new client RPC.
pub link_client-Live :
    (next r : ℕ) (e : Entry) (s : Hsk)
    → Live next s
    → has r s.active_rpcs ≡ false
    → has r s.dead_rpcs ≡ false
    → e.rpc.id ≡ next
    → is_client next ≡ true
    → is_dead e.rpc.state ≡ false
    → Live (next + 2) (link_client r e s)
unfolding link_client
link_client-Live next r e s l unused unburied is_next client alive = record {
  clients = λ q n. elim (Bool-cases (q == r)) [
    | inl same ↦ ground (arith, has-append q r s.active_rpcs, l.clients q n)
    | inr other ↦ ground (arith, has-append q r s.active_rpcs, l.clients q n)
  ];
  servers = λ q n. elim (Bool-cases (q == r)) [
    | inl same ↦
        let out = l.servers q n in
        rw same
          (ground (arith, has-append q r s.active_rpcs, out, is_next, client, unused_at q same))
    | inr other ↦ rw other (ground (arith, has-append q r s.active_rpcs, l.servers q n))
  ];
  alive = λ q h. elim (Bool-cases (q == r)) [
    | inl same ↦ rw same alive
    | inr other ↦ rw other (l.alive q (was_active r q s.active_rpcs h other))
  ];
  gone = λ q h. elim (Bool-cases (q == r)) [
    | inl same ↦ absurd (ground (arith, h, unburied, ap (λ x. has x s.dead_rpcs) (equal q same)))
    | inr other ↦ rw other (l.gone q h)
  ];
  below = λ q h. elim (Bool-cases (q == r)) [
    | inl same ↦ rw same (λ c. omega (arith, is_next))
    | inr other ↦ rw other (λ c. omega (arith, l.below q (was_active r q s.active_rpcs h other) c))
  ];
  one_client = λ p q hp hq. elim (Bool-cases (p == r)) [
    | inl same ↦ elim (Bool-cases (q == r)) [
      | inl both ↦ λ c ids. equal p same ∙ sym (equal q both)
      | inr other ↦
          rw (same, other)
            (λ c ids. absurd (fresh q (was_active r q s.active_rpcs hq other) (sym ids ∙ is_next)))
    ]
    | inr new ↦ elim (Bool-cases (q == r)) [
      | inl both ↦
          rw (new, both)
            (λ c ids. absurd (fresh p (was_active r p s.active_rpcs hp new) (ids ∙ is_next)))
      | inr other ↦
          rw (new, other)
            (l.one_client p q (was_active r p s.active_rpcs hp new)
              (was_active r q s.active_rpcs hq other))
    ]
  ];
  one_server = λ p q hp hq. elim (Bool-cases (p == r)) [
    | inl same ↦ rw same (λ c. absurd (ground (arith, c, client, is_next)))
    | inr new ↦ elim (Bool-cases (q == r)) [
      | inl both ↦ rw (new, both) (λ c ids. absurd (ground (arith, c, ids, client, is_next)))
      | inr other ↦
          rw (new, other)
            (l.one_server p q (was_active r p s.active_rpcs hp new)
              (was_active r q s.active_rpcs hq other))
    ]
  ];
}
  where
    equal : (q : ℕ) → (q == r) ≡ true → q ≡ r
    equal q h = ground arith

    unused_at : (q : ℕ) → (q == r) ≡ true → has q s.active_rpcs ≡ false
    unused_at q h = ap (λ x. has x s.active_rpcs) (equal q h) ∙ unused

    fresh : (q : ℕ) → has q s.active_rpcs ≡ true → (s.rpcs q).rpc.id ≢ next
    fresh q h e =
        let below = l.below q h (ap (λ x. is_client x) e ∙ client) in omega (arith, below, e)
