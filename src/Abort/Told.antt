-- ===== src/Abort/Told.antt =====
-- Every client RPC that is aborted has its error, and a thread gets it.
use connected_homa.Prelude.{
  ◌⊎◌, ℕ, ◌≡◌, refl, ap, sym, subst, ◌∙◌, inl, inr, true, false, not, ◌&&◌, ◌||◌, some, List, [],
  ◌∷◌, ◌==◌, Bool-cases, arith, if_false,
}
use connected_homa.Rpc.{is_client}
use connected_homa.Handoff.{Cores, homa_rpc_handoff, is_ready}
use connected_homa.Handoff.Given.{
  homa_rpc_handoff-settles, homa_rpc_handoff-stays, homa_rpc_handoff-shutdown,
}
use connected_homa.Handoff.Delivery.{Wired, homa_rpc_handoff-Wired}
use connected_homa.Handoff.Held.{IsWith, Held, homa_rpc_handoff-Held}
use connected_homa.Table.{Hsk, has}
use connected_homa.Lifecycle.{is_dead, homa_rpc_free}
use connected_homa.Lifecycle.Live.{Live}
use connected_homa.Lifecycle.Handed.{homa_rpc_handoff-Same}
use connected_homa.Abort.{set_error, homa_rpc_abort, abort_one, abort_clients, homa_abort_sock_rpcs}
use connected_homa.Abort.Delivered.{opened}

-- The RPC has the error, and a thread has it, or it stands in a queue.
pub record Told (n q : ℕ) (s : Hsk) : Type 0 where
  pub error : (s.rpcs q).rpc.error ≡ some n
  pub delivered : IsWith q s ⊎ (is_ready q s ≡ true)

-- The RPC has the error, and is marked as being handed over, or stands in a queue.
record Marked (n q : ℕ) (s : Hsk) : Type 0 where
  error : (s.rpcs q).rpc.error ≡ some n
  delivered : ((s.rpcs q).handing_off || is_ready q s) ≡ true

-- What the loop needs of an RPC that it is still to reach.
record Calls (q : ℕ) (s : Hsk) : Type 0 where
  up : s.shutdown ≡ false
  client : is_client (s.rpcs q).rpc.id ≡ true
  alive : is_dead (s.rpcs q).rpc.state ≡ false

set_error-id : (n r q : ℕ) (s : Hsk) → ((set_error n r s).rpcs q).rpc.id ≡ (s.rpcs q).rpc.id
set_error-id n r q s = ground (arith, ap (λ (x : ℕ). (s.rpcs x).rpc.id))

set_error-dead :
    (n r q : ℕ) (s : Hsk)
    → is_dead ((set_error n r s).rpcs q).rpc.state ≡ is_dead (s.rpcs q).rpc.state
set_error-dead n r q s = ground (arith, ap (λ (x : ℕ). is_dead (s.rpcs x).rpc.state))

-- An abort of a client RPC.
abort_client :
    (c : Cores) (n r : ℕ) (s : Hsk)
    → s.shutdown ≡ false
    → is_client (s.rpcs r).rpc.id ≡ true
    → homa_rpc_abort c n r s ≡ homa_rpc_handoff c r (set_error n r s)
unfolding homa_rpc_abort
abort_client c n r s up client =
    if_false (not (is_client (s.rpcs r).rpc.id)) (homa_rpc_free r s) _ (ground (arith, client))
    ∙ if_false s.shutdown (set_error n r s) (homa_rpc_handoff c r (set_error n r s)) up

handoff-Calls :
    (c : Cores) (n r q : ℕ) (s : Hsk) → Calls q s → Calls q (homa_rpc_handoff c r (set_error n r s))
handoff-Calls c n r q s k =
    let s' = set_error n r s in
    let same = (homa_rpc_handoff-Same c r s').rpc q in
    record {
      up = homa_rpc_handoff-shutdown c r s' ∙ k.up;
      client = ap (λ x. is_client x.id) same ∙ ap is_client (set_error-id n r q s) ∙ k.client;
      alive = ap (λ x. is_dead x.state) same ∙ set_error-dead n r q s ∙ k.alive;
    }

handoff-Marked :
    (c : Cores) (n r q : ℕ) (s : Hsk)
    → ((r == q) ≡ false → Marked n q s)
    → Marked n q (homa_rpc_handoff c r (set_error n r s))
handoff-Marked c n r q s told =
    let s' = set_error n r s in
    let same = (homa_rpc_handoff-Same c r s').rpc q in
    elim (Bool-cases (r == q)) [
      | inl here ↦
          let e : r ≡ q = ground arith in
          let self : (q == r) ≡ true = ground arith in
          record {
            error = ap (λ x. x.error) same ∙ rw self refl;
            delivered =
                subst
                  (λ x.
                    ((((homa_rpc_handoff c r s').rpcs x).handing_off
                        || is_ready x (homa_rpc_handoff c r s'))
                      ≡ true))
                  e (homa_rpc_handoff-settles c r s');
          }
      | inr other ↦
          let differ : (q == r) ≡ false = ground arith in
          let t = told other in
          record {
            error = ap (λ x. x.error) same ∙ rw differ t.error;
            delivered = homa_rpc_handoff-stays c r q s' (rw differ t.delivered);
          }
    ]

abort_one-Calls : (c : Cores) (n r q : ℕ) (s : Hsk) → Calls q s → Calls q (abort_one c (some n) r s)
unfolding abort_one
abort_one-Calls c n r q s k =
    elim (Bool-cases (is_client (s.rpcs r).rpc.id && not (is_dead (s.rpcs r).rpc.state))) [
      | inl mine ↦
          let run = abort_client c n r s k.up (ground (arith, mine)) in
          rw (mine, run) (handoff-Calls c n r q s k)
      | inr other ↦ rw other k
    ]

-- One round.
abort_one-Marked :
    (c : Cores) (n r q : ℕ) (s : Hsk)
    → Calls q s
    → ((r == q) ≡ false → Marked n q s)
    → Calls q (abort_one c (some n) r s) × Marked n q (abort_one c (some n) r s)
unfolding abort_one
abort_one-Marked c n r q s k told =
    elim (Bool-cases (is_client (s.rpcs r).rpc.id && not (is_dead (s.rpcs r).rpc.state))) [
      | inl mine ↦
          let run = abort_client c n r s k.up (ground (arith, mine)) in
          rw (mine, run) (handoff-Calls c n r q s k, handoff-Marked c n r q s told)
      | inr other ↦ rw other (
        k,
        told (
            ground (
              arith,
              other,
              k.client,
              k.alive,
              ap (λ x. is_client (s.rpcs x).rpc.id),
              ap (λ x. is_dead (s.rpcs x).rpc.state),
            )),
      )
    ]

abort_all-Marked :
    (c : Cores) (n : ℕ) (rs : List ℕ) (q : ℕ) (s : Hsk)
    → Calls q s
    → (has q rs ≡ false → Marked n q s)
    → Marked n q (abort_clients c (some n) rs s)
unfolding abort_clients
abort_all-Marked c n [] q s k told = told refl
abort_all-Marked c n (r ∷ rs) q s k told = elim (Bool-cases (has q rs)) [
  | inl later ↦
      abort_all-Marked c n rs q (abort_one c (some n) r s) (abort_one-Calls c n r q s k)
        (λ never. absurd (let bad = sym later ∙ never in cc))
  | inr never ↦
      let (k', told') = abort_one-Marked c n r q s k (λ other. told (rw (other, never) refl)) in
      abort_all-Marked c n rs q (abort_one c (some n) r s) k' (λ _. told')
]

set_error-Wired : (n r : ℕ) (s : Hsk) → Wired s → Wired (set_error n r s)
set_error-Wired n r s w = record {
  linked = w.linked;
  attached = λ q i h. w.attached q i (ground (arith, h, ap (λ (x : ℕ). (s.rpcs x).interest)));
  queued = λ q h. ground (arith, w.queued q h, ap (λ (x : ℕ). (s.rpcs x).handing_off));
}

set_error-Held : (n r q : ℕ) (s : Hsk) → Held q s → Held q (set_error n r s)
set_error-Held n r q s h m = h (ground (arith, m, ap (λ (x : ℕ). (s.rpcs x).handing_off)))

abort_one-Held :
    (c : Cores) (n r q : ℕ) (s : Hsk)
    → Calls q s
    → Wired s
    → Held q s
    → Wired (abort_one c (some n) r s) × Held q (abort_one c (some n) r s)
unfolding abort_one
abort_one-Held c n r q s k w h =
    elim (Bool-cases (is_client (s.rpcs r).rpc.id && not (is_dead (s.rpcs r).rpc.state))) [
      | inl mine ↦
          let run = abort_client c n r s k.up (ground (arith, mine)) in
          let w' = set_error-Wired n r s w in
          rw (mine, run)
            (
              homa_rpc_handoff-Wired c r (set_error n r s) w',
              homa_rpc_handoff-Held c r q (set_error n r s) w' (set_error-Held n r q s h),
            )
      | inr other ↦ rw other (w, h)
    ]

-- What a thread has stays with it.
abort_all-Held :
    (c : Cores) (n : ℕ) (rs : List ℕ) (q : ℕ) (s : Hsk)
    → Calls q s
    → Wired s
    → Held q s
    → Held q (abort_clients c (some n) rs s)
unfolding abort_clients
abort_all-Held c n [] q s k w h = h
abort_all-Held c n (r ∷ rs) q s k w h =
    let (w', h') = abort_one-Held c n r q s k w h in
    abort_all-Held c n rs q (abort_one c (some n) r s) (abort_one-Calls c n r q s k) w' h'

-- On a socket that is not shut down, whose interests that can be chosen have no RPC yet: with an error code,
-- `homa_abort_sock_rpcs` gives every active client RPC that error, and leaves it with a thread or in a queue of
-- ready RPCs, if before it was with a thread or not marked as being handed over.
pub homa_abort_sock_rpcs-Told :
    (next : ℕ) (c : Cores) (n q : ℕ) (s : Hsk)
    → Live next s
    → s.shutdown ≡ false
    → has q s.active_rpcs ≡ true
    → is_client (s.rpcs q).rpc.id ≡ true
    → Wired s
    → Held q s
    → Told n q (homa_abort_sock_rpcs c (some n) s)
homa_abort_sock_rpcs-Told next c n q s l up active client w h =
    let s' = abort_clients c (some n) s.active_rpcs s in
    let k : Calls q s = record { up = up; client = client; alive = l.alive q active } in
    let marked =
      abort_all-Marked c n s.active_rpcs q s k
        (λ never. absurd (let bad = sym active ∙ never in cc)) in
    let held = abort_all-Held c n s.active_rpcs q s k w h in
    subst (Told n q) (sym (opened c (some n) s up)) (record {
      error = marked.error;
      delivered = elim (Bool-cases (s'.rpcs q).handing_off) [
        | inl handed ↦ inl (held handed)
        | inr free ↦ inr (ground (arith, marked.delivered, free))
      ];
    })
