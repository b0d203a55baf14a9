-- ===== src/Lifecycle/Free.antt =====
-- An RPC that is freed leaves the tables in order.
use connected_homa.Prelude.{
  ℕ, ◌≡◌, refl, ap, sym, ◌∙◌, inl, inr, true, false, not, ◌&&◌, Option, none, some, List, ◌==◌,
  arith, Bool-cases, update,
}
use connected_homa.Rpc.{is_client}
use connected_homa.Table.{Hsk, bucket_of, remove, has}
use connected_homa.Table.Refs.{has-remove, has-append}
use connected_homa.Lifecycle.{is_dead, wake_interest, homa_rpc_free, bury}
use connected_homa.Lifecycle.Live.{Live, Same, Live-Same}

pub wake_interest-Same : (i : Option ℕ) (s : Hsk) → Same s (wake_interest i s)
unfolding wake_interest
wake_interest-Same none s = record {
  client_rpc_buckets = refl;
  server_rpc_buckets = refl;
  active_rpcs = refl;
  dead_rpcs = refl;
  rpc = λ r. refl;
  peer = λ r. refl;
}
wake_interest-Same (some i) s = record {
  client_rpc_buckets = refl;
  server_rpc_buckets = refl;
  active_rpcs = refl;
  dead_rpcs = refl;
  rpc = λ r. refl;
  peer = λ r. refl;
}

-- What identifies an RPC stays.
pub bury-id : (r q : ℕ) (s : Hsk) → ((bury r s).rpcs q).rpc.id ≡ (s.rpcs q).rpc.id
unfolding bury
bury-id r q s = ground (arith, ap (λ (x : ℕ). (s.rpcs x).rpc.id))

bury-peer : (r q : ℕ) (s : Hsk) → ((bury r s).rpcs q).peer ≡ (s.rpcs q).peer
unfolding bury
bury-peer r q s = ground (arith, ap (λ (x : ℕ). (s.rpcs x).peer))

bury-dport : (r q : ℕ) (s : Hsk) → ((bury r s).rpcs q).rpc.dport ≡ (s.rpcs q).rpc.dport
unfolding bury
bury-dport r q s = ground (arith, ap (λ (x : ℕ). (s.rpcs x).rpc.dport))

-- Unlinking `r` from the bucket that it stands in, if it does.
unlinks :
    (buckets : ℕ → List ℕ) (r q k n : ℕ)
    → (has r (buckets n) ≡ true → k ≡ n)
    → has q (update buckets k (remove r (buckets k)) n) ≡ (not (r == q) && has q (buckets n))
unlinks buckets r q k n own = elim (Bool-cases (n == k)) [
  | inl same ↦
      let e : n ≡ k = ground arith in
      rw same (has-remove r q (buckets k) ∙ ap (λ x. not (r == q) && has q (buckets x)) (sym e))
  | inr other ↦ elim (Bool-cases (r == q)) [
    | inl both ↦
        let e : r ≡ q = ground arith in
        let out : has r (buckets n) ≡ false = ground (arith, own) in
        rw (other, both) (ap (λ x. has x (buckets n)) (sym e) ∙ out)
    | inr differ ↦ rw (other, differ) refl
  ]
]

bury-clients :
    (next r q n : ℕ) (s : Hsk)
    → Live next s
    → has q ((bury r s).client_rpc_buckets n) ≡ (not (r == q) && has q (s.client_rpc_buckets n))
unfolding bury
bury-clients next r q n s l = elim (Bool-cases (is_client (s.rpcs r).rpc.id)) [
  | inl client ↦ rw client (
      unlinks s.client_rpc_buckets r q (bucket_of (s.rpcs r).rpc.id) n
        (λ h. ground (arith, h, l.clients r n)))
  | inr server ↦
      rw server (ground (arith, l.clients r n, server, ap (λ x. has x (s.client_rpc_buckets n))))
]

bury-servers :
    (next r q n : ℕ) (s : Hsk)
    → Live next s
    → has q ((bury r s).server_rpc_buckets n) ≡ (not (r == q) && has q (s.server_rpc_buckets n))
unfolding bury
bury-servers next r q n s l = elim (Bool-cases (is_client (s.rpcs r).rpc.id)) [
  | inl client ↦
      rw client (ground (arith, l.servers r n, client, ap (λ x. has x (s.server_rpc_buckets n))))
  | inr server ↦ rw server (
      unlinks s.server_rpc_buckets r q (bucket_of (s.rpcs r).rpc.id) n
        (λ h. ground (arith, h, l.servers r n)))
]

pub bury-active :
    (r q : ℕ) (s : Hsk) → has q (bury r s).active_rpcs ≡ (not (r == q) && has q s.active_rpcs)
unfolding bury
bury-active r q s = has-remove r q s.active_rpcs

pub bury-state :
    (r q : ℕ) (s : Hsk)
    → (r == q) ≡ false
    → is_dead ((bury r s).rpcs q).rpc.state ≡ is_dead (s.rpcs q).rpc.state
unfolding bury
bury-state r q s other = let other' : (q == r) ≡ false = ground arith in rw other' refl

pub bury-dead : (r q : ℕ) (s : Hsk) → (r == q) ≡ true → is_dead ((bury r s).rpcs q).rpc.state ≡ true
unfolding bury
bury-dead r q s same = let same' : (q == r) ≡ true = ground arith in rw same' refl

bury-dead_rpcs :
    (r q : ℕ) (s : Hsk)
    → has q (bury r s).dead_rpcs ≡ true
    → (r == q) ≡ false
    → has q s.dead_rpcs ≡ true
unfolding bury
bury-dead_rpcs r q s h other = ground (arith, h, has-append q r s.dead_rpcs)

bury-Live : (next r : ℕ) (s : Hsk) → Live next s → Live next (bury r s)
bury-Live next r s l = record {
  clients = λ q n.
      rw (bury-id r q s, bury-clients next r q n s l, bury-active r q s, l.clients q n)
        (ground arith);
  servers = λ q n.
      rw (bury-id r q s, bury-servers next r q n s l, bury-active r q s, l.servers q n)
        (ground arith);
  alive = λ q h. bury-alive q (still q h);
  gone = λ q h. bury-gone q h;
  below = λ q h. rw (bury-id r q s) (l.below q (still q h).0);
  one_client = λ p q hp hq.
      rw (bury-id r p s, bury-id r q s) (l.one_client p q (still p hp).0 (still q hq).0);
  one_server = λ p q hp hq.
      rw
        (
          bury-id r p s,
          bury-id r q s,
          bury-peer r p s,
          bury-peer r q s,
          bury-dport r p s,
          bury-dport r q s,
        )
        (l.one_server p q (still p hp).0 (still q hq).0);
}
  where
    still :
        (q : ℕ)
        → has q (bury r s).active_rpcs ≡ true
        → (has q s.active_rpcs ≡ true) × ((r == q) ≡ false)
    still q h = (ground (arith, h, bury-active r q s), ground (arith, h, bury-active r q s))

    bury-alive :
        (q : ℕ)
        → (has q s.active_rpcs ≡ true) × ((r == q) ≡ false)
        → is_dead ((bury r s).rpcs q).rpc.state ≡ false
    bury-alive q (h, other) = bury-state r q s other ∙ l.alive q h

    bury-gone :
        (q : ℕ) → has q (bury r s).dead_rpcs ≡ true → is_dead ((bury r s).rpcs q).rpc.state ≡ true
    bury-gone q h = elim (Bool-cases (r == q)) [
      | inl same ↦ bury-dead r q s same
      | inr other ↦ bury-state r q s other ∙ l.gone q (bury-dead_rpcs r q s h other)
    ]

-- `homa_rpc_free` keeps the tables in order.
pub homa_rpc_free-Live : (next r : ℕ) (s : Hsk) → Live next s → Live next (homa_rpc_free r s)
unfolding homa_rpc_free
homa_rpc_free-Live next r s l = elim (Bool-cases (is_dead (s.rpcs r).rpc.state)) [
  | inl done ↦ rw done l
  | inr alive ↦ rw alive (
      Live-Same next (bury r s) (wake_interest (s.rpcs r).interest (bury r s))
        (bury-Live next r s l) (wake_interest-Same (s.rpcs r).interest (bury r s)))
]
