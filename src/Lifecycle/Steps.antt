-- ===== src/Lifecycle/Steps.antt =====
-- Whatever happens to a socket's RPCs, the tables stay in order, and packets find their RPCs.
use connected_homa.Prelude.{
  ℕ, ◌+◌, ◌^◌, ◌<◌, ◌≡◌, ◌↔◌, refl, ap, sym, ◌∙◌, inl, inr, true, false, ◌&&◌, some, [], ◌==◌,
  arith, Bool-cases, update,
}
use connected_homa.Rpc.{is_client, local_id}
use connected_homa.Buffers.Queue.{Moment}
use connected_homa.Handoff.{Cores, homa_rpc_handoff}
use connected_homa.Table.{Entry, Hsk, has, homa_find_client_rpc}
use connected_homa.Lifecycle.{
  Supply, Request, is_dead, homa_rpc_new_client, homa_rpc_new_server, homa_rpc_free,
}
use connected_homa.Lifecycle.Live.{Live, Live-entries, Live-Same}
use connected_homa.Lifecycle.After.{
  Fresh, after, raise-Live, even-next, homa_rpc_new_client-Live, homa_rpc_new_server-Live,
}
use connected_homa.Lifecycle.Free.{homa_rpc_free-Live}
use connected_homa.Lifecycle.Handed.{homa_rpc_handoff-Same}
use connected_homa.Lifecycle.Find.{homa_find_client_rpc-finds}

-- A change to an RPC by the rest of the code.
unfoldable pub Keeps : Entry → Entry → Type 0
Keeps e e' =
    (e'.rpc.id ≡ e.rpc.id)
    × (e'.peer ≡ e.peer)
    × (e'.rpc.dport ≡ e.rpc.dport)
    × (is_dead e'.rpc.state ≡ is_dead e.rpc.state)

-- The socket, and `next_outgoing_id` of the host.
pub record World : Type 0 where
  pub next : ℕ
  pub hsk : Hsk

abbrev pub make_client : Supply → ℕ → ℕ → World → World
make_client supply addr dport w =
    let (next', result) = homa_rpc_new_client supply addr dport w.next w.hsk in
    record { next = next'; hsk = after w.hsk result }

abbrev pub make_server : Cores → Moment → ℕ → Supply → ℕ → Request → World → World
make_server c t birth supply saddr h w = record w {
  hsk = after w.hsk (homa_rpc_new_server c t birth supply saddr h w.hsk);
}

-- One step; `change` is any change to an RPC by the rest of the code.
pub data Step : World → World → Type 0 where
  new_client :
      {w : World} (supply : Supply) (addr dport : ℕ)
      → w.next + 2 < 2 ^ 64
      → Fresh supply w.hsk
      → Step w (make_client supply addr dport w)
  new_server :
      {w : World} (c : Cores) (t : Moment) (birth : ℕ) (supply : Supply) (saddr : ℕ) (h : Request)
      → is_client (local_id h.sender_id) ≡ false
      → Fresh supply w.hsk
      → Step w (make_server c t birth supply saddr h w)
  free : {w : World} (r : ℕ) → Step w (record w { hsk = homa_rpc_free r w.hsk })
  handoff : {w : World} (c : Cores) (r : ℕ) → Step w (record w { hsk = homa_rpc_handoff c r w.hsk })
  other_socket : {w : World} → Step w (record w { next = w.next + 2 })
  change :
      {w : World} (r : ℕ) (e : Entry)
      → Keeps (w.hsk.rpcs r) e
      → Step w (record w { hsk = record w.hsk { rpcs = update w.hsk.rpcs r e } })

-- A socket that is new, and what can become of it.
pub data Reach : World → Type 0 where
  start :
      (w : World)
      → is_client w.next ≡ true
      → w.hsk.active_rpcs ≡ []
      → w.hsk.dead_rpcs ≡ []
      → ((n : ℕ) → w.hsk.client_rpc_buckets n ≡ [])
      → ((n : ℕ) → w.hsk.server_rpc_buckets n ≡ [])
      → Reach w
  then_step : {w u : World} → Reach w → Step w u → Reach u

start-Live :
    (w : World)
    → w.hsk.active_rpcs ≡ []
    → w.hsk.dead_rpcs ≡ []
    → ((n : ℕ) → w.hsk.client_rpc_buckets n ≡ [])
    → ((n : ℕ) → w.hsk.server_rpc_buckets n ≡ [])
    → Live w.next w.hsk
start-Live w active gone clients servers = record {
  clients = λ r n. rw (clients n, active) refl;
  servers = λ r n. rw (servers n, active) refl;
  alive = λ r h. absurd (empty r h);
  gone = λ r h. absurd (ground (arith, ap (has r) gone, h));
  below = λ r h. absurd (empty r h);
  one_client = λ r q h. absurd (empty r h);
  one_server = λ r q h. absurd (empty r h);
}
  where
    empty : (r : ℕ) → has r w.hsk.active_rpcs ≡ true → ⊥
    empty r h = ground (arith, ap (has r) active, h)

pub change-Live :
    (next r : ℕ) (e : Entry) (s : Hsk)
    → Keeps (s.rpcs r) e
    → Live next s
    → Live next (record s { rpcs = update s.rpcs r e })
unfolding Keeps
change-Live next r e s (ids, peers, dports, deaths) l =
    Live-entries next s (update s.rpcs r e) (λ q. at (λ x. x.rpc.id) q ids)
      (λ q. at (λ x. x.peer) q peers) (λ q. at (λ x. x.rpc.dport) q dports)
      (λ q. at (λ x. is_dead x.rpc.state) q deaths) l
  where
    at :
        {A : Type 0} (f : Entry → A) (q : ℕ)
        → f e ≡ f (s.rpcs r)
        → f (update s.rpcs r e q) ≡ f (s.rpcs q)
    at f q same = elim (Bool-cases (q == r)) [
      | inl here ↦ let h : q ≡ r = ground arith in rw here (same ∙ ap (λ x. f (s.rpcs x)) (sym h))
      | inr other ↦ rw other refl
    ]

Step-Live :
    (w u : World)
    → Step w u
    → Live w.next w.hsk
    → is_client w.next ≡ true
    → Live u.next u.hsk × (is_client u.next ≡ true)
Step-Live w u (new_client supply addr dport room fresh) l even =
    homa_rpc_new_client-Live supply addr dport w.next w.hsk l even room fresh
Step-Live w u (new_server c t birth supply saddr h server fresh) l even =
    (homa_rpc_new_server-Live c t birth supply saddr w.next h w.hsk l fresh server, even)
Step-Live w u (free r) l even = (homa_rpc_free-Live w.next r w.hsk l, even)
Step-Live w u (handoff c r) l even =
    (Live-Same w.next w.hsk (homa_rpc_handoff c r w.hsk) l (homa_rpc_handoff-Same c r w.hsk), even)
Step-Live w u other_socket l even = (raise-Live w.next w.hsk l, even-next w.next even)
Step-Live w u (change r e k) l even = (change-Live w.next r e w.hsk k l, even)

pub Reach-Live : {w : World} → Reach w → Live w.next w.hsk × (is_client w.next ≡ true)
Reach-Live (start w even active gone clients servers) =
    (start-Live w active gone clients servers, even)
Reach-Live (then_step {w} {u} r step) = let (l, even) = Reach-Live r in Step-Live w u step l even

-- In every state that a socket reaches by making, freeing and handing over RPCs, and by changes that keep
-- an RPC's id, peer, port and whether it is dead, while the 64-bit ids last and memory in use is not given
-- out again: for an even id, `homa_find_client_rpc` finds an RPC if and only if it is active and has this id.
pub Reach-finds :
    {w : World} (id r : ℕ)
    → Reach w
    → is_client id ≡ true
    → (homa_find_client_rpc w.hsk id ≡ some r)
      ↔ ((has r w.hsk.active_rpcs && (w.hsk.rpcs r).rpc.id == id) ≡ true)
Reach-finds {w} id r reach client =
    homa_find_client_rpc-finds w.next id r w.hsk (Reach-Live reach).0 client
