-- ===== src/Lifecycle/After.antt =====
-- An RPC that is to be made leaves the tables in order, whether it is made or not.
use connected_homa.Prelude.{
  ℕ, ◌+◌, ◌%◌, ◌^◌, ◌<◌, ◌≡◌, refl, inl, inr, Bool, true, false, none, some, arith, Option-cases,
  if◌then◌else◌,
}
use connected_homa.Rpc.{MessageIn, outgoing, incoming, is_client, local_id}
use connected_homa.Buffers.{Buffers, Answer, failed, queued, granted, forever}
use connected_homa.Buffers.Queue.{Moment}
use connected_homa.Receive.{homa_message_in_init}
use connected_homa.Handoff.{Cores}
use connected_homa.Table.{Hsk, eshutdown, enomem, bucket_of, has, first_with}
use connected_homa.Lifecycle.{
  Supply, Created, new_rpc, old_rpc, no_rpc, diverges, Request, entry, is_request, link_client,
  link_server, hand_off_first, begin_server, homa_rpc_new_client, homa_rpc_new_server,
}
use connected_homa.Lifecycle.Live.{Live, Live-Same}
use connected_homa.Lifecycle.Begin.{link_client-Live}
use connected_homa.Lifecycle.Serve.{link_server-Live}
use connected_homa.Lifecycle.Handed.{hand_off_first-Same}

-- `kmalloc` gives no memory that an RPC of the socket still has.
unfoldable pub Fresh : Supply → Hsk → Type 0
Fresh supply s =
    (r : ℕ) → supply.memory ≡ some r → (has r s.active_rpcs ≡ false) × (has r s.dead_rpcs ≡ false)

-- The socket after an RPC was to be made.
unfoldable pub after : Hsk → Created → Hsk
after s (new_rpc r s') = s'
after s (old_rpc r) = s
after s (no_rpc e s') = s'
after s diverges = s

pub link-buffers :
    (next : ℕ) (b : Buffers) (s : Hsk) → Live next s → Live next (record s { buffers = b })
link-buffers next b s l =
    Live-Same next s (record s { buffers = b }) l
      (record {
        client_rpc_buckets = refl;
        server_rpc_buckets = refl;
        active_rpcs = refl;
        dead_rpcs = refl;
        rpc = λ q. refl;
        peer = λ q. refl;
      })

pub raise-Live : (next : ℕ) (s : Hsk) → Live next s → Live (next + 2) s
raise-Live next s l = record {
  clients = l.clients;
  servers = l.servers;
  alive = l.alive;
  gone = l.gone;
  below = λ r h c. omega (arith, l.below r h c);
  one_client = l.one_client;
  one_server = l.one_server;
}

after-if :
    (next : ℕ) (s : Hsk) (b : Bool) (x y : Created)
    → Live next (after s x)
    → Live next (after s y)
    → Live next (after s (if b then x else y))
after-if next s true x y p q = p
after-if next s false x y p q = q

pub even-next : (next : ℕ) → is_client next ≡ true → is_client (next + 2) ≡ true
even-next next e = ground (arith, e)

-- `homa_rpc_new_client` keeps the tables in order while the ids last.
pub homa_rpc_new_client-Live :
    (supply : Supply) (addr dport next : ℕ) (s : Hsk)
    → Live next s
    → is_client next ≡ true
    → next + 2 < 2 ^ 64
    → Fresh supply s
    → let (next', result) = homa_rpc_new_client supply addr dport next s in
      Live next' (after s result) × (is_client next' ≡ true)
unfolding homa_rpc_new_client Fresh after
homa_rpc_new_client-Live supply addr dport next s l even room fresh =
    elim (Option-cases supply.memory) [
      | inl empty ↦ rw empty (l, even)
      | inr (r, memory) ↦
          let (unused, unburied) = fresh r memory in
          let small : (next + 2) % 2 ^ 64 ≡ next + 2 = omega arith in
          elim (Option-cases supply.peer_error) [
            | inr (e, broken) ↦
                rw (memory, broken, small) (raise-Live next s l, even-next next even)
            | inl found ↦
                rw (memory, found, small)
                  (
                    after-if (next + 2) s s.shutdown (no_rpc eshutdown s)
                        (new_rpc r (link_client r (entry next outgoing addr dport none) s))
                        (raise-Live next s l)
                        (link_client-Live next r (entry next outgoing addr dport none) s l unused
                          unburied refl even refl),
                    even-next next even,
                  )
          ]
    ]

begin_server-Live :
    (c : Cores) (t : Moment) (birth saddr next : ℕ) (h : Request) (r : ℕ) (s : Hsk)
    → Live next s
    → has r s.active_rpcs ≡ false
    → has r s.dead_rpcs ≡ false
    → is_client (local_id h.sender_id) ≡ false
    → first_with
        (is_request (local_id h.sender_id) h.sport saddr)
        s.rpcs
        (s.server_rpc_buckets (bucket_of (local_id h.sender_id)))
      ≡ none
    → Live next (after s (begin_server c t birth saddr h r s))
unfolding begin_server after
begin_server-Live c t birth saddr next h r s l unused unburied server none_yet =
    by_answer (homa_message_in_init t birth r h.message_length h.incoming s.buffers).2
  where
    m : MessageIn
    m = (homa_message_in_init t birth r h.message_length h.incoming s.buffers).0

    s' : Hsk
    s' = record s {
      buffers = (homa_message_in_init t birth r h.message_length h.incoming s.buffers).1;
    }

    l' : Live next s'
    l' = link-buffers next s'.buffers s l

    linked : Hsk
    linked = link_server r (entry (local_id h.sender_id) incoming saddr h.sport (some m)) s'

    made : Live next (hand_off_first c h m r linked)
    made =
        Live-Same next linked (hand_off_first c h m r linked)
          (link_server-Live next r (entry (local_id h.sender_id) incoming saddr h.sport (some m)) s'
            l' unused unburied server refl none_yet)
          (hand_off_first-Same c h m r linked)

    either : Live next (
        after s
          (if s.shutdown then no_rpc eshutdown s' else new_rpc r (hand_off_first c h m r linked)))
    either =
        after-if next s s.shutdown (no_rpc eshutdown s') (new_rpc r (hand_off_first c h m r linked))
          l' made

    by_answer :
        (answer : Answer)
        → Live next (
            after s (elim answer [
              | forever ↦ diverges
              | failed ↦ no_rpc enomem s'
              | queued ↦
                  if s.shutdown
                  then no_rpc eshutdown s'
                  else new_rpc r (hand_off_first c h m r linked)
              | granted _ ↦
                  if s.shutdown
                  then no_rpc eshutdown s'
                  else new_rpc r (hand_off_first c h m r linked)
            ]))
    by_answer forever = l
    by_answer failed = l'
    by_answer queued = either
    by_answer (granted _) = either

-- `homa_rpc_new_server` keeps the tables in order, for the id of a server RPC.
pub homa_rpc_new_server-Live :
    (c : Cores) (t : Moment) (birth : ℕ) (supply : Supply) (saddr next : ℕ) (h : Request) (s : Hsk)
    → Live next s
    → Fresh supply s
    → is_client (local_id h.sender_id) ≡ false
    → Live next (after s (homa_rpc_new_server c t birth supply saddr h s))
unfolding homa_rpc_new_server Fresh after
homa_rpc_new_server-Live c t birth supply saddr next h s l fresh server =
    let test = is_request (local_id h.sender_id) h.sport saddr in
    let bucket = s.server_rpc_buckets (bucket_of (local_id h.sender_id)) in
    elim (Option-cases (first_with test s.rpcs bucket)) [
      | inr (q, found) ↦ rw (found, homa_rpc_new_server) l
      | inl none_yet ↦ elim (Option-cases supply.memory) [
        | inl empty ↦ rw (none_yet, homa_rpc_new_server, empty) l
        | inr (r, memory) ↦ elim (Option-cases supply.peer_error) [
          | inr (e, broken) ↦ rw (none_yet, homa_rpc_new_server, memory, broken) l
          | inl peer ↦
              let (unused, unburied) = fresh r memory in
              rw (none_yet, homa_rpc_new_server, memory, peer)
                (begin_server-Live c t birth saddr next h r s l unused unburied server none_yet)
        ]
      ]
    ]
