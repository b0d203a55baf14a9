-- ===== src/Grantable/Valid.antt =====
-- The order that `homa_grant_add_rpc` keeps: each peer's RPCs by rank, and the peers by their first
-- RPC.
use connected_homa.Prelude.{
  ℕ, ◌≡◌, ◌≢◌, subst, none, some, List, [], ◌∷◌, arith, Bool-cases, Option-cases, inl, inr,
}
use connected_homa.Grantable.{
  Candidate, GrantPeer, Grantable, homa_grant_outranks, first, first_rpc, onto, locate, find,
  insert_before, move_up, same, has_addr, rpcs_of, position_peer,
}
use connected_homa.Grantable.Order.{
  Before, Before-trans, Below-trans, Sorted, Sorted-onto, onto-Sorted, insert_before-Sorted,
  move_up-Sorted,
}
use connected_homa.Grantable.Lists.{locate-onto, remove-Sorted, NewFirst}

-- A peer on Homa's list has RPCs, in order.
pub record PeerIsValid (p : GrantPeer) : Type 0 where
  pub ordered : Sorted same p.rpcs
  pub linked : p.rpcs ≢ []

abbrev pub AllValid : List GrantPeer → Type 0
AllValid [] = Unit {0}
AllValid (p ∷ peers) = PeerIsValid p × AllValid peers

pub record IsValid (g : Grantable) : Type 0 where
  pub each : AllValid g.peers
  pub ordered : Sorted first_rpc g.peers

pub AllValid-onto :
    (before after : List GrantPeer)
    → AllValid (onto before after)
    → AllValid before × AllValid after
AllValid-onto [] after v = (tt, v)
AllValid-onto (p ∷ before) after v =
    let h = AllValid-onto before (p ∷ after) v in ((h.1.0, h.0), h.1.1)

pub onto-AllValid :
    (before after : List GrantPeer)
    → AllValid before
    → AllValid after
    → AllValid (onto before after)
onto-AllValid [] after v w = w
onto-AllValid (p ∷ before) after v w = onto-AllValid before (p ∷ after) v.1 (v.0, w)

insert_before-AllValid :
    (rpc : Candidate) (p : GrantPeer) (peers : List GrantPeer)
    → PeerIsValid p
    → AllValid peers
    → AllValid (insert_before first_rpc rpc p peers)
unfolding insert_before
insert_before-AllValid rpc p [] v w = (v, tt)
insert_before-AllValid rpc p (q ∷ peers) v w =
    elim (Bool-cases (homa_grant_outranks rpc (first_rpc q))) [
      | inl up ↦ rw up (v, w)
      | inr stay ↦ rw stay (w.0, insert_before-AllValid rpc p peers v w.1)
    ]

move_up-AllValid :
    (rpc : Candidate) (p : GrantPeer) (before after : List GrantPeer)
    → PeerIsValid p
    → AllValid before
    → AllValid after
    → AllValid (move_up first_rpc rpc p before after)
unfolding move_up
move_up-AllValid rpc p [] after v w u = (v, u)
move_up-AllValid rpc p (q ∷ before) after v w u =
    elim (Bool-cases (homa_grant_outranks rpc (first_rpc q))) [
      | inl up ↦ rw up (move_up-AllValid rpc p before (q ∷ after) v w.1 (w.0, u))
      | inr stay ↦ rw stay (onto-AllValid before (q ∷ p ∷ after) w.1 (w.0, (v, u)))
    ]

-- A peer with the same first RPC may take the place of another.
pub replace-Sorted :
    (o p : GrantPeer) (before after : List GrantPeer)
    → first_rpc p ≡ first_rpc o
    → Sorted first_rpc (onto before (o ∷ after))
    → Sorted first_rpc (onto before (p ∷ after))
replace-Sorted o p before after e s =
    let tail = Sorted-onto first_rpc before (o ∷ after) s in
    onto-Sorted first_rpc before (o ∷ after) (p ∷ after) (λ c b. (rw e b.0, b.1))
      (rw e tail.0, tail.1) s

-- A peer whose first RPC does not change keeps its place.
move_up-stays :
    (rpc : Candidate) (o p : GrantPeer) (before after : List GrantPeer)
    → first_rpc p ≡ first_rpc o
    → Before (first_rpc o) rpc
    → Sorted first_rpc (onto before (o ∷ after))
    → Sorted first_rpc (move_up first_rpc rpc p before after)
unfolding move_up
move_up-stays rpc o p [] after e h s = replace-Sorted o p [] after e s
move_up-stays rpc o p (c ∷ before) after e h s =
    let tail = Sorted-onto first_rpc before (c ∷ o ∷ after) s in
    rw (Before-trans (first_rpc c) (first_rpc o) rpc tail.0.0 h)
      (replace-Sorted o p (c ∷ before) after e s)

-- A linked peer, with a new list for which `NewFirst` holds, finds its place.
move_up-moves :
    (rpc : Candidate) (o p : GrantPeer) (before after : List GrantPeer)
    → NewFirst (first_rpc o) rpc p.rpcs
    → Sorted first_rpc (onto before (o ∷ after))
    → Sorted first_rpc (move_up first_rpc rpc p before after)
move_up-moves rpc o p before after (inl (e, h)) s =
    let tail = Sorted-onto first_rpc before (o ∷ after) s in
    subst (λ r. Sorted first_rpc (move_up first_rpc r p before after)) e
      (move_up-Sorted first_rpc p before after
        (Below-trans first_rpc (first_rpc p) (first_rpc o) after (rw e h) tail.0)
        (remove-Sorted first_rpc before after o s))
move_up-moves rpc o p before after (inr (e, h)) s = move_up-stays rpc o p before after e h s

pub find-rpcs_of :
    (addr : ℕ) (peers : List GrantPeer) (p : GrantPeer)
    → find (has_addr addr) peers ≡ some p
    → rpcs_of addr peers ≡ p.rpcs
find-rpcs_of addr peers p e = rw (e, rpcs_of)

pub find-PeerIsValid :
    (addr : ℕ) (peers : List GrantPeer) (p : GrantPeer)
    → AllValid peers
    → find (has_addr addr) peers ≡ some p
    → PeerIsValid p
find-PeerIsValid addr [] p v e = absurd (cc)
find-PeerIsValid addr (q ∷ peers) p v e = elim (Bool-cases (has_addr addr q)) [
  | inl hit ↦ subst PeerIsValid (ground arith) v.0
  | inr miss ↦ find-PeerIsValid addr peers p v.1 (ground arith)
]

-- What `position_peer` needs of the peer's new list.
pub position_peer-IsValid :
    (rpc : Candidate) (addr : ℕ) (rpcs : List Candidate) (peers : List GrantPeer)
    → AllValid peers
    → Sorted first_rpc peers
    → Sorted same rpcs
    → rpcs ≢ []
    → (find (has_addr addr) peers ≡ none → first rpcs ≡ rpc)
    → ((p : GrantPeer) → find (has_addr addr) peers ≡ some p → NewFirst (first_rpc p) rpc rpcs)
    → AllValid (position_peer rpc addr rpcs peers)
      × Sorted first_rpc (position_peer rpc addr rpcs peers)
unfolding position_peer
position_peer-IsValid rpc addr rpcs peers v s r n fresh old =
    elim (Option-cases (find (has_addr addr) peers)) [
      | inl missing ↦
          rw (missing, position_peer)
            (
              insert_before-AllValid rpc peer peers valid v,
              subst (λ c. Sorted first_rpc (insert_before first_rpc c peer peers)) (fresh missing)
                  (insert_before-Sorted first_rpc peer peers s),
            )
      | inr (p, e) ↦
          let whole = locate-onto (has_addr addr) [] peers p e in
          let before = (locate (has_addr addr) [] peers).0 in
          let after = (locate (has_addr addr) [] peers).1 in
          let parts = AllValid-onto before (p ∷ after) (rw whole v) in
          rw (e, position_peer)
            (
              move_up-AllValid rpc peer before after valid parts.0 parts.1.1,
              move_up-moves rpc p peer before after (old p e) (rw whole s),
            )
    ]
  where
    peer : GrantPeer
    peer = record { addr = addr; rpcs = rpcs }

    valid : PeerIsValid peer
    valid = record { ordered = r; linked = n }
