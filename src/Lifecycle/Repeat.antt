-- ===== src/Lifecycle/Repeat.antt =====
-- A request makes one RPC, and what an error leaves behind.
use connected_homa.Prelude.{
  ℕ, ◌≡◌, refl, ap, ◌∙◌, inl, inr, Bool, true, false, some, List, ◌∷◌, ◌==◌, if◌then◌else◌, arith,
  Option-cases, update,
}
use connected_homa.Rpc.{MessageIn, incoming, local_id}
use connected_homa.Buffers.{Answer, failed, queued, granted, forever}
use connected_homa.Buffers.Queue.{Moment}
use connected_homa.Receive.{homa_message_in_init}
use connected_homa.Handoff.{Cores}
use connected_homa.Table.{Entry, Hsk, enomem, eshutdown, bucket_of, first_with}
use connected_homa.Lifecycle.{
  Supply, Created, new_rpc, old_rpc, no_rpc, diverges, Request, entry, is_request, link_server,
  hand_off_first, begin_server, homa_rpc_new_server,
}
use connected_homa.Lifecycle.Live.{Same}
use connected_homa.Lifecycle.Handed.{hand_off_first-Same}

-- The RPC that a request has made.
pub Answers : ℕ → Request → ℕ → Hsk → Type 0
Answers saddr h r s =
    first_with (is_request (local_id h.sender_id) h.sport saddr) s.rpcs
      (s.server_rpc_buckets (bucket_of (local_id h.sender_id)))
    ≡ some r

-- What is true of every result.
pub Result : ℕ → Request → Hsk → Created → Type 0
Result saddr h s (new_rpc r s') = Answers saddr h r s'
Result saddr h s (old_rpc r) = Answers saddr h r s
Result saddr h s (no_rpc e s') = s' ≡ record s { buffers = s'.buffers }
Result saddr h s diverges = Unit

first_with-head :
    (test : Entry → Bool) (rpcs : ℕ → Entry) (rs rest : List ℕ) (r : ℕ)
    → rs ≡ r ∷ rest
    → test (rpcs r) ≡ true
    → first_with test rpcs rs ≡ some r
first_with-head test rpcs rs rest r e h = rw (e, h) refl

linked-Answers :
    (saddr : ℕ) (h : Request) (r : ℕ) (m : MessageIn) (s : Hsk) (s' : Hsk)
    → Same (link_server r (entry (local_id h.sender_id) incoming saddr h.sport (some m)) s) s'
    → Answers saddr h r s'
unfolding link_server Answers
linked-Answers saddr h r m s s' same =
    let id = local_id h.sender_id in
    let k = bucket_of id in
    let e = entry id incoming saddr h.sport (some m) in
    let self : (k == k) ≡ true = ground arith in
    let bucket : s'.server_rpc_buckets k ≡ r ∷ s.server_rpc_buckets k =
      ap (λ f. f k) same.server_rpc_buckets ∙ rw self refl in
    let rpc : (s'.rpcs r).rpc ≡ e.rpc =
      same.rpc r ∙ ap (λ (x : Entry). x.rpc) (update_self s.rpcs e) in
    let peer : (s'.rpcs r).peer ≡ saddr =
      same.peer r ∙ ap (λ (x : Entry). x.peer) (update_self s.rpcs e) in
    first_with-head (is_request id h.sport saddr) s'.rpcs (s'.server_rpc_buckets k)
      (s.server_rpc_buckets k) r bucket
      (ground (arith, ap (λ x. x.id) rpc, ap (λ x. x.dport) rpc, peer))
  where
    update_self : (f : ℕ → Entry) (v : Entry) → update f r v r ≡ v
    update_self f v = let h : (r == r) ≡ true = ground arith in rw h refl

either :
    (saddr : ℕ) (h : Request) (s : Hsk) (b : Bool) (x y : Created)
    → Result saddr h s x
    → Result saddr h s y
    → Result saddr h s (if b then x else y)
either saddr h s true x y p q = p
either saddr h s false x y p q = q

begin_server-Result :
    (c : Cores) (t : Moment) (birth saddr : ℕ) (h : Request) (r : ℕ) (s : Hsk)
    → Result saddr h s (begin_server c t birth saddr h r s)
unfolding begin_server Result
begin_server-Result c t birth saddr h r s =
    by_answer (homa_message_in_init t birth r h.message_length h.incoming s.buffers).2
  where
    m : MessageIn
    m = (homa_message_in_init t birth r h.message_length h.incoming s.buffers).0

    s' : Hsk
    s' = record s {
      buffers = (homa_message_in_init t birth r h.message_length h.incoming s.buffers).1;
    }

    linked : Hsk
    linked = link_server r (entry (local_id h.sender_id) incoming saddr h.sport (some m)) s'

    made : Result saddr h s (new_rpc r (hand_off_first c h m r linked))
    made =
        linked-Answers saddr h r m s' (hand_off_first c h m r linked)
          (hand_off_first-Same c h m r linked)

    both :
        Result saddr h s
          (if s.shutdown then no_rpc eshutdown s' else new_rpc r (hand_off_first c h m r linked))
    both =
        either saddr h s s.shutdown (no_rpc eshutdown s')
          (new_rpc r (hand_off_first c h m r linked)) refl made

    by_answer :
        (answer : Answer)
        → Result saddr h s (elim answer [
          | forever ↦ diverges
          | failed ↦ no_rpc enomem s'
          | queued ↦
              if s.shutdown then no_rpc eshutdown s' else new_rpc r (hand_off_first c h m r linked)
          | granted _ ↦
              if s.shutdown then no_rpc eshutdown s' else new_rpc r (hand_off_first c h m r linked)
        ])
    by_answer forever = tt
    by_answer failed = refl
    by_answer queued = both
    by_answer (granted _) = both

-- Where `homa_rpc_new_server` returns an error, it has changed nothing of the socket but its buffers. The
-- RPC that it returns otherwise, be it new or not, is the one that the same request gets from then on.
pub homa_rpc_new_server-Result :
    (c : Cores) (t : Moment) (birth : ℕ) (supply : Supply) (saddr : ℕ) (h : Request) (s : Hsk)
    → Result saddr h s (homa_rpc_new_server c t birth supply saddr h s)
unfolding homa_rpc_new_server Result Answers
homa_rpc_new_server-Result c t birth supply saddr h s =
    let test = is_request (local_id h.sender_id) h.sport saddr in
    let bucket = s.server_rpc_buckets (bucket_of (local_id h.sender_id)) in
    elim (Option-cases (first_with test s.rpcs bucket)) [
      | inr (q, found) ↦ rw (found, homa_rpc_new_server) found
      | inl none_yet ↦ elim (Option-cases supply.memory) [
        | inl empty ↦ rw (none_yet, homa_rpc_new_server, empty) refl
        | inr (r, memory) ↦ elim (Option-cases supply.peer_error) [
          | inr (e, broken) ↦ rw (none_yet, homa_rpc_new_server, memory, broken) refl
          | inl peer ↦
              rw (none_yet, homa_rpc_new_server, memory, peer)
                (begin_server-Result c t birth saddr h r s)
        ]
      ]
    ]
