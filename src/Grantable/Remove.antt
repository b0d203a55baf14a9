-- ===== src/Grantable/Remove.antt =====
-- `homa_grant_remove_rpc`: when it keeps the lists in order, and where it puts a peer whose first RPC
-- is removed. The loop compares the removed RPC with the peers behind (homa_grant.c:206), not the
-- RPC that is now the peer's first.
use connected_homa.Prelude.{
  ℕ, ◌≡◌, ◌≢◌, refl, ◌∙◌, subst, Bool, true, false, some, List, [], ◌∷◌, ◌++◌, arith, Bool-cases,
  ◌==◌, ◌⊎◌, inl, inr,
}
use connected_homa.Grantable.{
  Candidate, GrantPeer, Grantable, homa_grant_outranks, first, first_rpc, onto, locate, find,
  move_down, same, has_id, has_addr, is_first, rpcs_of, demote_peer, homa_grant_remove_rpc,
}
use connected_homa.Grantable.Order.{Before, Below, Sorted}
use connected_homa.Grantable.Lists.{locate-onto, remove-Sorted}
use connected_homa.Grantable.Valid.{
  replace-Sorted, PeerIsValid, AllValid, IsValid, find-rpcs_of, find-PeerIsValid, AllValid-onto,
  onto-AllValid,
}

-- `rpc` outranks the first RPC of every peer in the list.
abbrev pub OutranksAll : Candidate → List GrantPeer → Type 0
OutranksAll rpc [] = Unit {0}
OutranksAll rpc (q ∷ peers) = (homa_grant_outranks rpc (first_rpc q) ≡ true) × OutranksAll rpc peers

move_down-end :
    (rpc : Candidate) (p : GrantPeer) (before after : List GrantPeer)
    → OutranksAll rpc after
    → move_down first_rpc rpc p before after ≡ onto before (after ++ p ∷ [])
unfolding move_down
move_down-end rpc p before [] h = refl
move_down-end rpc p before (q ∷ after) h = rw h.0 (move_down-end rpc p (q ∷ before) after h.1)

-- The list of peers after a linked RPC of a linked peer has been removed: from what stands round the
-- RPC in the peer's list, and round the peer in Homa's.
demoted :
    Candidate
    → ℕ
    → Bool
    → List Candidate × List Candidate
    → List GrantPeer × List GrantPeer
    → List GrantPeer
demoted rpc addr was_first (before_rpc, after_rpc) (before, after) =
    demote_peer rpc was_first (record { addr = addr; rpcs = onto before_rpc after_rpc }) before
      after

abbrev removed_from : Candidate → ℕ → List Candidate → List GrantPeer → List GrantPeer
removed_from rpc addr rpcs peers =
    demoted rpc addr (is_first rpc.id rpcs) (locate (has_id rpc.id) [] rpcs)
      (locate (has_addr addr) [] peers)

remove-peers :
    (time : ℕ) (rpc e : Candidate) (addr : ℕ) (g : Grantable)
    → find (has_id rpc.id) (rpcs_of addr g.peers) ≡ some e
    → (homa_grant_remove_rpc time rpc addr g).peers
      ≡ removed_from rpc addr (rpcs_of addr g.peers) g.peers
unfolding homa_grant_remove_rpc demoted
remove-peers time rpc e addr g linked = rw (linked, homa_grant_remove_rpc) refl

self : (n : ℕ) → (n == n) ≡ true
self n = ground arith

locate-head {ℓ} :
    {A : Type ℓ} (test : A → Bool) (x : A) (xs : List A)
    → test x ≡ true
    → (locate test [] (x ∷ xs) ≡ ([], xs)) × (find test (x ∷ xs) ≡ some x)
locate-head test x xs h = (rw (h, locate) refl, rw h)

-- When the first RPC of the first peer is removed and the peer has RPCs left, the peer goes behind all
-- others, if the removed RPC outranked theirs: the rank of the RPCs that are left has no part in it.
pub homa_grant_remove_rpc-last :
    (time : ℕ) (rpc c : Candidate) (rest : List Candidate) (addr : ℕ) (others : List GrantPeer)
    (g : Grantable)
    → g.peers ≡ record { addr = addr; rpcs = rpc ∷ c ∷ rest } ∷ others
    → OutranksAll rpc others
    → (homa_grant_remove_rpc time rpc addr g).peers
      ≡ others ++ record { addr = addr; rpcs = c ∷ rest } ∷ []
homa_grant_remove_rpc-last time rpc c rest addr others g e h =
    remove-peers time rpc rpc addr g (rw rpcs in_peer.1)
    ∙ (rw rpcs (
        rw (in_peer.0, self rpc.id, e)
          (rw in_homa.0 (
            unfold demoted demote_peer in
            move_down-end rpc (record { addr = addr; rpcs = c ∷ rest }) [] others h))))
  where
    peer : GrantPeer
    peer = record { addr = addr; rpcs = rpc ∷ c ∷ rest }

    in_peer :
        (locate (has_id rpc.id) [] (rpc ∷ c ∷ rest) ≡ ([], c ∷ rest))
        × (find (has_id rpc.id) (rpc ∷ c ∷ rest) ≡ some rpc)
    in_peer = locate-head (has_id rpc.id) rpc (c ∷ rest) (self rpc.id)

    in_homa :
        (locate (has_addr addr) [] (peer ∷ others) ≡ ([], others))
        × (find (has_addr addr) (peer ∷ others) ≡ some peer)
    in_homa = locate-head (has_addr addr) peer others (self addr)

    rpcs : rpcs_of addr g.peers ≡ rpc ∷ c ∷ rest
    rpcs = find-rpcs_of addr g.peers peer (rw e in_homa.1)

-- When the first RPC of the first peer is removed, the peer has RPCs left, and the removed RPC
-- outranked the first RPC of every other peer, the list of peers is out of order if the first RPC left
-- outranks that of the second peer.
pub homa_grant_remove_rpc-misplaces :
    (time : ℕ) (rpc c : Candidate) (rest : List Candidate) (addr : ℕ) (q : GrantPeer)
    (others : List GrantPeer) (g : Grantable)
    → g.peers ≡ record { addr = addr; rpcs = rpc ∷ c ∷ rest } ∷ q ∷ others
    → OutranksAll rpc (q ∷ others)
    → homa_grant_outranks c (first_rpc q) ≡ true
    → ¬ IsValid (homa_grant_remove_rpc time rpc addr g)
homa_grant_remove_rpc-misplaces time rpc c rest addr q others g e h better v =
    let last = homa_grant_remove_rpc-last time rpc c rest addr (q ∷ others) g e h in
    let sorted : Sorted first_rpc (q ∷ others ++ record { addr = addr; rpcs = c ∷ rest } ∷ []) =
      rw last at v.ordered in
    cc (Below-last (first_rpc q) (record { addr = addr; rpcs = c ∷ rest }) others sorted.0)
  where
    Below-last :
        (d : Candidate) (p : GrantPeer) (peers : List GrantPeer)
        → Below first_rpc d (peers ++ p ∷ [])
        → Before d (first_rpc p)
    Below-last d p [] b = b.0
    Below-last d p (r ∷ peers) b = Below-last d p peers b.1

onto-AllValid_drop :
    (before after : List GrantPeer) (p : GrantPeer)
    → AllValid (onto before (p ∷ after))
    → AllValid (onto before after)
onto-AllValid_drop before after p v =
    let parts = AllValid-onto before (p ∷ after) v in onto-AllValid before after parts.0 parts.1.1

-- What holds of every list that begins with `before` in reverse holds of the rest round an entry.
locate-prefix {ℓ κ} :
    {A : Type ℓ} (P : List A → Type κ) (test : A → Bool) (before xs : List A)
    → ((after : List A) → P (onto before after))
    → P (onto (locate test before xs).0 (locate test before xs).1)
locate-prefix P test before [] h = h []
locate-prefix P test before (x ∷ xs) h = elim (Bool-cases (test x)) [
  | inl hit ↦ rw hit (h xs)
  | inr miss ↦ rw miss (locate-prefix P test (x ∷ before) xs (λ after. h (x ∷ after)))
]

rest-first :
    (id : ℕ) (rpcs : List Candidate)
    → rpcs ≢ []
    → is_first id rpcs ≡ false
    → (first (onto (locate (has_id id) [] rpcs).0 (locate (has_id id) [] rpcs).1) ≡ first rpcs)
      × (onto (locate (has_id id) [] rpcs).0 (locate (has_id id) [] rpcs).1 ≢ [])
rest-first id [] n f = absurd (n refl)
rest-first id (c ∷ rpcs) n f = rw f (
    locate-prefix (λ l. (first l ≡ c) × (l ≢ [])) (has_id id) (c ∷ []) rpcs
      (λ after. (refl, λ z. cc)))

-- When the removed RPC is linked, and is its peer's only one or not its first, lists in order stay in
-- order.
pub homa_grant_remove_rpc-IsValid :
    (time : ℕ) (rpc : Candidate) (addr : ℕ) (p : GrantPeer) (g : Grantable)
    → IsValid g
    → find (has_addr addr) g.peers ≡ some p
    → find (has_id rpc.id) p.rpcs ≡ some rpc
    → (p.rpcs ≡ rpc ∷ []) ⊎ (is_first rpc.id p.rpcs ≡ false)
    → IsValid (homa_grant_remove_rpc time rpc addr g)
homa_grant_remove_rpc-IsValid time rpc addr p g v e linked side =
    let rpcs = find-rpcs_of addr g.peers p e in
    let removed : (homa_grant_remove_rpc time rpc addr g).peers
        ≡ removed_from rpc addr p.rpcs g.peers =
      subst (λ l. (homa_grant_remove_rpc time rpc addr g).peers ≡ removed_from rpc addr l g.peers)
        rpcs (remove-peers time rpc rpc addr g (rw rpcs linked)) in
    let kept = kept_order side in record { each = rw removed kept.0; ordered = rw removed kept.1 }
  where
    before : List GrantPeer
    before = (locate (has_addr addr) [] g.peers).0

    after : List GrantPeer
    after = (locate (has_addr addr) [] g.peers).1

    valid : PeerIsValid p
    valid = find-PeerIsValid addr g.peers p v.each e

    each : AllValid (onto before (p ∷ after))
    each = rw (locate-onto (has_addr addr) [] g.peers p e) v.each

    ordered : Sorted first_rpc (onto before (p ∷ after))
    ordered = rw (locate-onto (has_addr addr) [] g.peers p e) v.ordered

    rest_ordered :
        Sorted same (onto (locate (has_id rpc.id) [] p.rpcs).0 (locate (has_id rpc.id) [] p.rpcs).1)
    rest_ordered =
        remove-Sorted same (locate (has_id rpc.id) [] p.rpcs).0 (locate (has_id rpc.id) [] p.rpcs).1
          rpc (rw (locate-onto (has_id rpc.id) [] p.rpcs rpc linked) valid.ordered)

    kept_order :
        (p.rpcs ≡ rpc ∷ []) ⊎ (is_first rpc.id p.rpcs ≡ false)
        → AllValid (removed_from rpc addr p.rpcs g.peers)
          × Sorted first_rpc (removed_from rpc addr p.rpcs g.peers)
    kept_order (inl only) =
        rw (only, self rpc.id)
          (unfold demoted demote_peer in
            (
              onto-AllValid_drop before after p each,
              remove-Sorted first_rpc before after p ordered,
            ))
    kept_order (inr later) =
        let rest = rest-first rpc.id p.rpcs valid.linked later in
        let left = onto (locate (has_id rpc.id) [] p.rpcs).0 (locate (has_id rpc.id) [] p.rpcs).1 in
        let parts = AllValid-onto before (p ∷ after) each in
        rw later (
          unfold demoted demote_peer in
          (
            onto-AllValid before (record { addr = addr; rpcs = left } ∷ after) parts.0
                (record { ordered = rest_ordered; linked = rest.1 }, parts.1.1),
            replace-Sorted p (record { addr = addr; rpcs = left }) before after rest.0 ordered,
          ))
