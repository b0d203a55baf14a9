-- ===== src/Lifecycle/Live.antt =====
-- The hash tables and lists of a socket name the same RPCs.
use connected_homa.Prelude.{
  ℕ, ◌<◌, ◌≡◌, ◌∙◌, true, false, not, ◌&&◌, List, [], ◌∷◌, ◌++◌, ◌==◌, arith,
}
use connected_homa.Rpc.{is_client}
use connected_homa.Table.{Entry, Hsk, bucket_of, has}
use connected_homa.Table.Refs.{has-append}
use connected_homa.Lifecycle.{is_dead}

-- Where `next` is `next_outgoing_id`: an RPC stands in its bucket if and only if it is active, an active
-- RPC is not dead, and no two are the same.
pub record Live (next : ℕ) (s : Hsk) : Type 0 where
  pub clients :
      (r n : ℕ)
      → has r (s.client_rpc_buckets n) ≡ (
          has r s.active_rpcs
          && is_client ((s.rpcs r).rpc.id)
          && bucket_of ((s.rpcs r).rpc.id) == n)
  pub servers :
      (r n : ℕ)
      → has r (s.server_rpc_buckets n) ≡ (
          has r s.active_rpcs
          && not (is_client ((s.rpcs r).rpc.id))
          && bucket_of ((s.rpcs r).rpc.id) == n)
  pub alive : (r : ℕ) → has r s.active_rpcs ≡ true → is_dead (s.rpcs r).rpc.state ≡ false
  pub gone : (r : ℕ) → has r s.dead_rpcs ≡ true → is_dead (s.rpcs r).rpc.state ≡ true
  pub below :
      (r : ℕ)
      → has r s.active_rpcs ≡ true
      → is_client ((s.rpcs r).rpc.id) ≡ true
      → (s.rpcs r).rpc.id < next
  pub one_client :
      (r q : ℕ)
      → has r s.active_rpcs ≡ true
      → has q s.active_rpcs ≡ true
      → is_client ((s.rpcs r).rpc.id) ≡ true
      → (s.rpcs r).rpc.id ≡ (s.rpcs q).rpc.id
      → r ≡ q
  pub one_server :
      (r q : ℕ)
      → has r s.active_rpcs ≡ true
      → has q s.active_rpcs ≡ true
      → is_client ((s.rpcs r).rpc.id) ≡ false
      → (s.rpcs r).rpc.id ≡ (s.rpcs q).rpc.id
      → (s.rpcs r).peer ≡ (s.rpcs q).peer
      → (s.rpcs r).rpc.dport ≡ (s.rpcs q).rpc.dport
      → r ≡ q

-- What the table sees of two states is the same.
pub record Same (s s' : Hsk) : Type 0 where
  pub client_rpc_buckets : s'.client_rpc_buckets ≡ s.client_rpc_buckets
  pub server_rpc_buckets : s'.server_rpc_buckets ≡ s.server_rpc_buckets
  pub active_rpcs : s'.active_rpcs ≡ s.active_rpcs
  pub dead_rpcs : s'.dead_rpcs ≡ s.dead_rpcs
  pub rpc : (r : ℕ) → (s'.rpcs r).rpc ≡ (s.rpcs r).rpc
  pub peer : (r : ℕ) → (s'.rpcs r).peer ≡ (s.rpcs r).peer

-- The order of the tables is about what identifies an RPC, and whether it is dead.
pub Live-entries :
    (next : ℕ) (s : Hsk) (rpcs : ℕ → Entry)
    → ((r : ℕ) → (rpcs r).rpc.id ≡ (s.rpcs r).rpc.id)
    → ((r : ℕ) → (rpcs r).peer ≡ (s.rpcs r).peer)
    → ((r : ℕ) → (rpcs r).rpc.dport ≡ (s.rpcs r).rpc.dport)
    → ((r : ℕ) → is_dead (rpcs r).rpc.state ≡ is_dead (s.rpcs r).rpc.state)
    → Live next s
    → Live next (record s { rpcs = rpcs })
Live-entries next s rpcs ids peers dports deaths l = record {
  clients = λ r n. rw (ids r) (l.clients r n);
  servers = λ r n. rw (ids r) (l.servers r n);
  alive = λ r h. deaths r ∙ l.alive r h;
  gone = λ r h. deaths r ∙ l.gone r h;
  below = λ r. rw (ids r) (l.below r);
  one_client = λ r q. rw (ids r, ids q) (l.one_client r q);
  one_server = λ r q. rw (ids r, ids q, peers r, peers q, dports r, dports q) (l.one_server r q);
}

pub Live-Same : (next : ℕ) (s s' : Hsk) → Live next s → Same s s' → Live next s'
Live-Same next s s' l e = record {
  clients = λ r n. rw (e.client_rpc_buckets, e.active_rpcs, e.rpc r) (l.clients r n);
  servers = λ r n. rw (e.server_rpc_buckets, e.active_rpcs, e.rpc r) (l.servers r n);
  alive = λ r. rw (e.active_rpcs, e.rpc r) (l.alive r);
  gone = λ r. rw (e.dead_rpcs, e.rpc r) (l.gone r);
  below = λ r. rw (e.active_rpcs, e.rpc r) (l.below r);
  one_client = λ r q. rw (e.active_rpcs, e.rpc r, e.rpc q) (l.one_client r q);
  one_server = λ r q. rw (e.active_rpcs, e.rpc r, e.rpc q, e.peer r, e.peer q) (l.one_server r q);
}

-- An RPC among those that were active and a new one.
pub was_active :
    (r q : ℕ) (rs : List ℕ) → has q (rs ++ r ∷ []) ≡ true → (q == r) ≡ false → has q rs ≡ true
was_active r q rs h other = ground (arith, has-append q r rs, h)
