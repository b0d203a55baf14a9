-- ===== src/Pick/Best.antt =====
-- The RPCs that are picked are the best ones.
use connected_homa.Prelude.{
  ℕ, zero, suc, ◌+◌, ◌≤◌, ◌<◌, ◌≡◌, ◌≢◌, refl, sym, subst, ◌∙◌, true, false, List, [], ◌∷◌, ◌++◌,
  leb, ◌==◌, if◌then◌else◌, take, arith, Bool-cases, Option-cases, le→leb, inl, inr,
}
use connected_homa.Grantable.{
  Candidate, GrantPeer, Grantable, homa_grant_outranks, same, first, first_rpc,
}
use connected_homa.Grantable.Order.{Before, Below, Below-trans, Sorted}
use connected_homa.Grantable.Valid.{IsValid, AllValid, PeerIsValid}
use connected_homa.Pick.{place, pick_from_peer, pick_from_peers, homa_grant_pick_rpcs}
use connected_homa.Pick.Place.{Below-take, cut_insert, has_no_room, place-room, place-full}
use connected_homa.Pick.Cut.{
  candidates, in_order, cut_all, cut_all-take, cut_all-append, Ready, cut_insert-Ready,
  cut_all-Ready, cut_all-full, take_nil,
}

Before-refl : (c : Candidate) → Before c c
unfolding homa_grant_outranks
Before-refl c = ground arith

Below-append :
    (c : Candidate) (xs ys : List Candidate)
    → Below same c xs
    → Below same c ys
    → Below same c (xs ++ ys)
Below-append c [] ys b b' = b'
Below-append c (x ∷ xs) ys b b' = (b.0, Below-append c xs ys b.1 b')

Below-peer :
    (c : Candidate) (p : GrantPeer) → Before c (first_rpc p) → PeerIsValid p → Below same c p.rpcs
Below-peer c p b v = go p.rpcs b v.ordered
  where
    go : (rpcs : List Candidate) → Before c (first rpcs) → Sorted same rpcs → Below same c rpcs
    go [] b s = tt
    go (rpc ∷ rpcs) b s = (b, Below-trans same c rpc rpcs b s.0)

Below-candidates :
    (limit : ℕ) (c : Candidate) (peers : List GrantPeer)
    → Below first_rpc c peers
    → AllValid peers
    → Below same c (candidates limit peers)
Below-candidates limit c [] b v = tt
Below-candidates limit c (p ∷ peers) b v =
    Below-append c (take limit p.rpcs) (candidates limit peers)
      (Below-take limit c p.rpcs (Below-peer c p b.0 v.0)) (Below-candidates limit c peers b.1 v.1)

lt→leb : (a b : ℕ) → b < a → leb a b ≡ false
lt→leb a b h = ground arith

pick_from_peer-cut_all :
    (n limit k m : ℕ) (rpcs picked : List Candidate)
    → Ready n picked
    → Sorted same rpcs
    → limit ≡ k + suc m
    → (pick_from_peer n limit k rpcs picked).0 ≡ cut_all n (take (suc m) rpcs) picked
unfolding pick_from_peer
pick_from_peer-cut_all n limit k m [] picked r s e = refl
pick_from_peer-cut_all n limit k m (rpc ∷ rpcs) picked r s e =
    elim (Bool-cases (has_no_room n rpc picked)) [
      | inl full ↦
          let same_place : cut_all n (take (suc m) (rpc ∷ rpcs)) picked ≡ picked =
            cut_all-full n rpc (rpc ∷ take m rpcs) picked r full
              (Before-refl rpc, Below-take m rpc rpcs s.0) in
          rw (place-full n rpc picked full, same_place, pick_from_peer) refl
      | inr room ↦
          rw (place-room n rpc picked r.sorted r.fits room, pick_from_peer)
            (more m e (λ j f.
              pick_from_peer-cut_all n limit (k + 1) j rpcs (cut_insert n rpc picked)
                (cut_insert-Ready n rpc picked r) s.1 f))
    ]
  where
    next : List Candidate
    next = cut_insert n rpc picked

    more :
        (m : ℕ)
        → limit ≡ k + suc m
        → ((j : ℕ)
            → limit ≡ k + 1 + suc j
            → (pick_from_peer n limit (k + 1) rpcs next).0 ≡ cut_all n (take (suc j) rpcs) next)
        → (if leb limit (k + 1) then (next, k + 1) else pick_from_peer n limit (k + 1) rpcs next).0
          ≡ cut_all n (take m rpcs) next
    more zero e later = rw (le→leb limit (k + 1) (omega arith)) refl
    more (suc m) e later = rw (lt→leb limit (k + 1) (omega arith)) (later m (omega arith))

pick_from_peer-count :
    (n limit k : ℕ) (rpcs picked : List Candidate) → k ≤ (pick_from_peer n limit k rpcs picked).1
unfolding pick_from_peer
pick_from_peer-count n limit k [] picked = omega arith
pick_from_peer-count n limit k (rpc ∷ rpcs) picked = elim (Option-cases (place n rpc picked)) [
  | inl stop ↦ rw (stop, pick_from_peer) (omega arith)
  | inr (picked', on) ↦
      rw (on, pick_from_peer) (ground (arith, pick_from_peer-count n limit (k + 1) rpcs picked'))
]

-- A peer whose first RPC has room has an RPC in the array.
pick_from_peer-some :
    (n limit : ℕ) (rpc : Candidate) (rpcs picked : List Candidate)
    → Ready n picked
    → has_no_room n rpc picked ≡ false
    → ((pick_from_peer n limit 0 (rpc ∷ rpcs) picked).1 == 0) ≡ false
unfolding pick_from_peer
pick_from_peer-some n limit rpc rpcs picked r room =
    rw (place-room n rpc picked r.sorted r.fits room, pick_from_peer)
      (ground (arith, pick_from_peer-count n limit 1 rpcs (cut_insert n rpc picked)))

pick_from_peer-none :
    (n limit : ℕ) (rpc : Candidate) (rpcs picked : List Candidate)
    → has_no_room n rpc picked ≡ true
    → pick_from_peer n limit 0 (rpc ∷ rpcs) picked ≡ (picked, 0)
unfolding pick_from_peer
pick_from_peer-none n limit rpc rpcs picked full =
    rw (place-full n rpc picked full, pick_from_peer) refl

abbrev HasRpcs : GrantPeer → Type 0
HasRpcs p = (rpc : Candidate) × (rpcs : List Candidate) × (p.rpcs ≡ rpc ∷ rpcs)

has_rpcs : (p : GrantPeer) → PeerIsValid p → HasRpcs p
has_rpcs p v = go p.rpcs v.linked
  where
    go :
        (l : List Candidate)
        → l ≢ []
        → (rpc : Candidate) × (rpcs : List Candidate) × (l ≡ rpc ∷ rpcs)
    go [] ne = absurd (ne refl)
    go (rpc ∷ rpcs) ne = (rpc, rpcs, refl)

pick_from_peers-cut_all :
    (n limit : ℕ) (peers : List GrantPeer) (picked : List Candidate)
    → Ready n picked
    → AllValid peers
    → Sorted first_rpc peers
    → pick_from_peers n (suc limit) peers picked ≡ cut_all n (candidates (suc limit) peers) picked
unfolding pick_from_peers
pick_from_peers-cut_all n limit [] picked r v s = refl
pick_from_peers-cut_all n limit (p ∷ peers) picked r v s =
    let (rpc, rpcs, e) = has_rpcs p v.0 in
    elim (Bool-cases (has_no_room n rpc picked)) [
      | inl full ↦
          let below : Below same rpc (candidates (suc limit) (p ∷ peers)) =
            Below-candidates (suc limit) rpc (p ∷ peers) (rw e (Before-refl rpc), rw e at s.0) v in
          let stays = cut_all-full n rpc (candidates (suc limit) (p ∷ peers)) picked r full below in
          let skipped : pick_from_peer n (suc limit) 0 p.rpcs picked ≡ (picked, 0) =
            rw e (pick_from_peer-none n (suc limit) rpc rpcs picked full) in
          rw (skipped, pick_from_peers) (sym stays)
      | inr room ↦
          let best = take (suc limit) p.rpcs in
          let taken =
            pick_from_peer-cut_all n (suc limit) 0 limit p.rpcs picked r v.0.ordered
              (omega arith) in
          let going_on : ((pick_from_peer n (suc limit) 0 p.rpcs picked).1 == 0) ≡ false =
            rw e (pick_from_peer-some n (suc limit) rpc rpcs picked r room) in
          rw
            (
              going_on,
              taken,
              cut_all-append n best (candidates (suc limit) peers) picked,
              pick_from_peers,
            )
            (pick_from_peers-cut_all n limit peers (cut_all n best picked)
              (cut_all-Ready n best picked r) v.1 s.1)
    ]

-- From lists in order, and with a positive `max_rpcs_per_peer`, `homa_grant_pick_rpcs` picks the first
-- `max_rpcs` RPCs, in order of rank, of those that are among the first `max_rpcs_per_peer` of their
-- peers.
pub homa_grant_pick_rpcs-best :
    (g : Grantable) (max_rpcs : ℕ)
    → IsValid g
    → 0 < g.homa.max_rpcs_per_peer
    → homa_grant_pick_rpcs g max_rpcs
      ≡ take max_rpcs (in_order (candidates g.homa.max_rpcs_per_peer g.peers) [])
unfolding homa_grant_pick_rpcs
homa_grant_pick_rpcs-best g max_rpcs v h = go g.homa.max_rpcs_per_peer h
  where
    empty : Ready max_rpcs []
    empty = record { sorted = tt; fits = omega arith }

    go :
        (limit : ℕ)
        → 0 < limit
        → pick_from_peers max_rpcs limit g.peers []
          ≡ take max_rpcs (in_order (candidates limit g.peers) [])
    go zero h = absurd (omega arith)
    go (suc limit) h =
        pick_from_peers-cut_all max_rpcs limit g.peers [] empty v.each v.ordered
        ∙ subst
            (λ l.
              cut_all max_rpcs (candidates (suc limit) g.peers) l
              ≡ take max_rpcs (in_order (candidates (suc limit) g.peers) []))
            (take_nil max_rpcs) (cut_all-take max_rpcs (candidates (suc limit) g.peers) [])
