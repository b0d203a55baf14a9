-- ===== src/Lifecycle/Leak.antt =====
-- What is left behind where a request arrives at a socket that is shut down.
use connected_homa.Prelude.{
  ℕ, ◌^◌, ◌&&◌, leb, is_some, ◌≡◌, refl, inl, inr, Bool, true, false, ◌||◌, none, some, List, [],
  ◌∷◌, ltb, ◌==◌, arith, Bool-cases, insert_by,
}
use connected_homa.Rpc.{local_id}
use connected_homa.Buffers.{
  Waiter, Buffers, Allocation, no_pool, no_room, allocated, endless, Answer, failed, queued,
  granted, forever, enqueue, set_bpages_needed, take_buffers, homa_pool_allocate,
}
use connected_homa.Buffers.Queue.{Moment}
use connected_homa.Receive.{allocate, homa_message_in_init}
use connected_homa.Handoff.{Cores}
use connected_homa.Table.{Hsk, eshutdown, bucket_of, first_with}
use connected_homa.Lifecycle.{
  Supply, no_rpc, Request, is_request, begin_server, homa_rpc_new_server,
}

abbrev pub is_waiting : ℕ → List Waiter → Bool
is_waiting r [] = false
is_waiting r (w ∷ ws) = w.id == r || is_waiting r ws

enqueued : (w : Waiter) (ws : List Waiter) → is_waiting w.id (enqueue w ws) ≡ true
unfolding enqueue insert_by
enqueued w [] = ground arith
enqueued w (v ∷ ws) = elim (Bool-cases (ltb w.length v.length)) [
  | inl before ↦ rw (before, insert_by) (ground arith)
  | inr behind ↦ rw (behind, insert_by) (ground (arith, enqueued w ws))
]

WaitsIf : ℕ → Buffers × Answer → Type 0
WaitsIf r (b, answer) = answer ≡ queued → is_waiting r b.waiting ≡ true

homa_pool_allocate-WaitsIf :
    (core now lease_end : ℕ) (w : Waiter) (b : Buffers)
    → WaitsIf w.id (homa_pool_allocate core now lease_end w b)
unfolding homa_pool_allocate WaitsIf
homa_pool_allocate-WaitsIf core now lease_end w b =
    by_result (take_buffers core now lease_end w.length b.pool)
  where
    by_result :
        (a : Allocation)
        → WaitsIf w.id (elim a [
          | no_pool ↦ (b, failed)
          | endless ↦ (b, forever)
          | allocated pool offsets ↦ (record b { pool = pool }, granted offsets)
          | no_room pool ↦
              let waiting = enqueue w b.waiting in
              (record { pool = set_bpages_needed waiting pool; waiting = waiting }, queued)
        ])
    by_result no_pool = λ h. absurd (cc)
    by_result endless = λ h. absurd (cc)
    by_result (allocated pool offsets) = λ h. absurd (cc)
    by_result (no_room pool) = λ h. enqueued w b.waiting

allocate-WaitsIf : (t : Moment) (r len : ℕ) (b : Buffers) → WaitsIf r (allocate t r len b)
unfolding allocate WaitsIf
allocate-WaitsIf t r len b = elim (Bool-cases (leb (2 ^ 31) len && is_some b.pool.region)) [
  | inl negative ↦ rw negative (λ h. absurd (cc))
  | inr fine ↦
      rw fine
        (homa_pool_allocate-WaitsIf t.core t.now t.lease_end (record { id = r; length = len }) b)
]

queued-waits :
    (t : Moment) (birth r len unsched : ℕ) (b : Buffers)
    → let (_, b', answer) = homa_message_in_init t birth r len unsched b in
      answer ≡ queued → is_waiting r b'.waiting ≡ true
unfolding homa_message_in_init WaitsIf
queued-waits t birth r len unsched b h = allocate-WaitsIf t r len b h

-- Where the socket is shut down and has no room for the message of a new request, `homa_rpc_new_server`
-- returns -ESHUTDOWN, and the RPC that it frees stays in `waiting_for_bufs`.
pub homa_rpc_new_server-dangles :
    (c : Cores) (t : Moment) (birth : ℕ) (supply : Supply) (saddr r : ℕ) (h : Request) (s : Hsk)
    → s.shutdown ≡ true
    → first_with
        (is_request (local_id h.sender_id) h.sport saddr)
        s.rpcs
        (s.server_rpc_buckets (bucket_of (local_id h.sender_id)))
      ≡ none
    → supply.memory ≡ some r
    → supply.peer_error ≡ none
    → (homa_message_in_init t birth r h.message_length h.incoming s.buffers).2 ≡ queued
    → (s' : Hsk) × (homa_rpc_new_server c t birth supply saddr h s ≡ no_rpc eshutdown s')
      × (is_waiting r s'.buffers.waiting ≡ true)
unfolding homa_rpc_new_server begin_server
homa_rpc_new_server-dangles c t birth supply saddr r h s down none_yet memory peer full =
    let b = (homa_message_in_init t birth r h.message_length h.incoming s.buffers).1 in
    (
      record s { buffers = b },
      rw (none_yet, homa_rpc_new_server, memory, peer) (shut full),
      queued-waits t birth r h.message_length h.incoming s.buffers full,
    )
  where
    shut :
        (homa_message_in_init t birth r h.message_length h.incoming s.buffers).2 ≡ queued
        → begin_server c t birth saddr h r s
          ≡ no_rpc eshutdown (record s {
            buffers = (homa_message_in_init t birth r h.message_length h.incoming s.buffers).1;
          })
    shut full = rw (full, begin_server, down) refl
