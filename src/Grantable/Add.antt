-- ===== src/Grantable/Add.antt =====
-- `homa_grant_add_rpc` keeps the lists in order.
use connected_homa.Prelude.{
  ℕ, ◌≡◌, ◌≢◌, refl, ap, ◌∙◌, sym, subst, none, some, List, [], ◌∷◌, arith, Option-cases, inl, inr,
}
use connected_homa.Grantable.{
  Candidate, GrantPeer, Grantable, first, first_rpc, onto, locate, find, insert_before, move_up,
  same, has_id, has_addr, rpcs_of, reposition_rpc, homa_grant_add_rpc,
}
use connected_homa.Grantable.Order.{
  Before, Below-trans, Sorted, Sorted-onto, insert_before-Sorted, move_up-Sorted,
}
use connected_homa.Grantable.Lists.{
  locate-onto, remove-Sorted, NewFirst, move_up-NewFirst, insert_before-NewFirst,
}
use connected_homa.Grantable.Valid.{
  PeerIsValid, AllValid, IsValid, find-rpcs_of, find-PeerIsValid, position_peer-IsValid,
}

insert_before-ne-nil :
    (rpc : Candidate) (rpcs : List Candidate) → insert_before same rpc rpc rpcs ≢ []
unfolding insert_before
insert_before-ne-nil rpc [] = λ e. cc
insert_before-ne-nil rpc (c ∷ rpcs) = λ e. ground arith

onto-ne-nil : (before after : List Candidate) (c : Candidate) → onto before (c ∷ after) ≢ []
onto-ne-nil [] after c = λ e. cc
onto-ne-nil (b ∷ before) after c = onto-ne-nil before (c ∷ after) b

move_up-ne-nil :
    (rpc : Candidate) (before after : List Candidate) → move_up same rpc rpc before after ≢ []
unfolding move_up
move_up-ne-nil rpc [] after = λ e. cc
move_up-ne-nil rpc (c ∷ before) after =
    ground (arith, move_up-ne-nil rpc before (c ∷ after), onto-ne-nil before (rpc ∷ after) c)

rpcs_of-Sorted :
    (addr : ℕ) (peers : List GrantPeer) → AllValid peers → Sorted same (rpcs_of addr peers)
rpcs_of-Sorted addr peers v = elim (Option-cases (find (has_addr addr) peers)) [
  | inl missing ↦ rw (missing, rpcs_of) tt
  | inr (p, e) ↦ rw (e, rpcs_of) (find-PeerIsValid addr peers p v e).ordered
]

new_rpc-NewFirst :
    (rpc : Candidate) (p : GrantPeer)
    → PeerIsValid p
    → NewFirst (first_rpc p) rpc (insert_before same rpc rpc p.rpcs)
new_rpc-NewFirst rpc p v = go p.rpcs refl
  where
    go :
        (rpcs : List Candidate)
        → p.rpcs ≡ rpcs
        → NewFirst (first p.rpcs) rpc (insert_before same rpc rpc p.rpcs)
    go [] e = absurd (v.linked e)
    go (c ∷ rpcs) e = rw e (insert_before-NewFirst rpc c rpcs)

-- From lists in order, `homa_grant_add_rpc` keeps each peer's list and the list of peers in the order
-- of `homa_grant_outranks`, for a new RPC, and for a linked one whose rank has not fallen since.
pub homa_grant_add_rpc-IsValid :
    (time : ℕ) (rpc : Candidate) (addr : ℕ) (g : Grantable)
    → IsValid g
    → ((e : Candidate) → find (has_id rpc.id) (rpcs_of addr g.peers) ≡ some e → Before rpc e)
    → IsValid (homa_grant_add_rpc time rpc addr g)
unfolding homa_grant_add_rpc
homa_grant_add_rpc-IsValid time rpc addr g v improved =
    elim (Option-cases (find (has_id rpc.id) rpcs)) [
      | inl unlinked ↦
          let born : Candidate = record rpc { birth = time } in
          let alone : find (has_addr addr) g.peers ≡ none
              → first (insert_before same born born rpcs) ≡ born =
            λ missing. unfold insert_before in rw (missing, rpcs_of) refl in
          let placed =
            position_peer-IsValid born addr (insert_before same born born rpcs) g.peers v.each
              v.ordered (insert_before-Sorted same born rpcs sorted)
              (insert_before-ne-nil born rpcs) alone
              (λ p e.
                subst (λ l. NewFirst (first_rpc p) born (insert_before same born born l))
                  (sym (find-rpcs_of addr g.peers p e))
                  (new_rpc-NewFirst born p (find-PeerIsValid addr g.peers p v.each e))) in
          rw (unlinked, homa_grant_add_rpc) (record { each = placed.0; ordered = placed.1 })
      | inr (old, e) ↦
          let before = (locate (has_id rpc.id) [] rpcs).0 in
          let after = (locate (has_id rpc.id) [] rpcs).1 in
          let whole = locate-onto (has_id rpc.id) [] rpcs old e in
          let s : Sorted same (onto before (old ∷ after)) = rw whole sorted in
          let better = improved old e in
          let tail = Sorted-onto same before (old ∷ after) s in
          let moved = move_up-NewFirst rpc before after old better s in
          let placed =
            position_peer-IsValid rpc addr (reposition_rpc rpc rpcs) g.peers v.each v.ordered
              (unfold reposition_rpc in
                move_up-Sorted same rpc before after (Below-trans same rpc old after better tail.0)
                  (remove-Sorted same before after old s))
              (unfold reposition_rpc in move_up-ne-nil rpc before after)
              (λ missing. absurd (no_rpc old missing e))
              (λ p f.
                unfold reposition_rpc in
                subst (λ c. NewFirst c rpc (move_up same rpc rpc before after))
                  (ap first (whole ∙ find-rpcs_of addr g.peers p f)) moved) in
          rw (e, homa_grant_add_rpc) (record { each = placed.0; ordered = placed.1 })
    ]
  where
    rpcs : List Candidate
    rpcs = rpcs_of addr g.peers

    sorted : Sorted same rpcs
    sorted = rpcs_of-Sorted addr g.peers v.each

    no_rpc :
        (old : Candidate)
        → find (has_addr addr) g.peers ≡ none
        → find (has_id rpc.id) rpcs ≡ some old
        → ⊥
    no_rpc old missing e =
        let h : find (has_id rpc.id) [] ≡ some old = rw (missing, rpcs_of) at e in cc
