-- ===== src/Grantable.antt =====
-- homa_grant.c, the lists of RPCs that want grants: `homa->grantable_peers`, and for each peer
-- `grantable_rpcs`. A peer is linked in `homa->grantable_peers` if and only if it stands in `peers`,
-- and an RPC is linked (`grantable_links` is not empty) if and only if it stands in its peer's list.
pub mod Order
pub mod Lists
pub mod Valid
pub mod Add
pub mod Remove
mod Tests
use connected_homa.Prelude.{
  ℕ, ◌+◌, ◌-◌, Bool, true, false, ◌&&◌, ◌||◌, Option, none, some, List, [], ◌∷◌, ltb, ◌==◌,
  if◌then◌else◌,
}
use connected_homa.Homa.{Homa}

-- What the lists read of an RPC; its `msgin` fields are the current ones.
pub record Candidate : Type 0 where
  pub id : ℕ
  pub bytes_remaining : ℕ
  pub birth : ℕ

-- `homa_grant_outranks`.
unfoldable pub homa_grant_outranks : Candidate → Candidate → Bool
homa_grant_outranks rpc1 rpc2 =
    ltb rpc1.bytes_remaining rpc2.bytes_remaining
    || (rpc1.bytes_remaining == rpc2.bytes_remaining && ltb rpc1.birth rpc2.birth)

pub record GrantPeer : Type 0 where
  pub addr : ℕ
  pub rpcs : List Candidate

pub record Grantable : Type 0 where
  pub homa : Homa
  pub peers : List GrantPeer

-- `list_first_entry` of a peer's list, which has an RPC where the code asks.
abbrev pub first : List Candidate → Candidate
first [] = record { id = 0; bytes_remaining = 0; birth = 0 }
first (rpc ∷ _) = rpc

abbrev pub first_rpc : GrantPeer → Candidate
first_rpc peer = first peer.rpcs

-- The list that has `before`, in reverse, in front of `after`.
abbrev pub onto {ℓ} : {A : Type ℓ} → List A → List A → List A
onto [] after = after
onto (c ∷ before) after = onto before (c ∷ after)

-- What stands before the first entry that passes the test, in reverse, and what stands behind it.
abbrev pub locate {ℓ} : {A : Type ℓ} → (A → Bool) → List A → List A → List A × List A
locate test before [] = (before, [])
locate test before (x ∷ xs) =
    let rest = locate test (x ∷ before) xs in if test x then (before, xs) else rest

abbrev pub find {ℓ} : {A : Type ℓ} → (A → Bool) → List A → Option A
find test [] = none
find test (x ∷ xs) = if test x then some x else find test xs

-- `list_for_each_entry`: link `a` before the first entry that `rpc` outranks, or at the end.
unfoldable pub insert_before {ℓ} : {A : Type ℓ} → (A → Candidate) → Candidate → A → List A → List A
insert_before key rpc a [] = a ∷ []
insert_before key rpc a (c ∷ cs) =
    if homa_grant_outranks rpc (key c) then a ∷ c ∷ cs else c ∷ insert_before key rpc a cs

-- The `while` loops of `homa_grant_add_rpc`: `a` moves up past each entry that `rpc` outranks.
pub move_up {ℓ} : {A : Type ℓ} → (A → Candidate) → Candidate → A → List A → List A → List A
move_up key rpc a [] after = a ∷ after
move_up key rpc a (c ∷ before) after =
    let up = move_up key rpc a before (c ∷ after) in
    if homa_grant_outranks rpc (key c) then up else onto (c ∷ before) (a ∷ after)

-- The `while` loop of `homa_grant_remove_rpc`: `a` moves down past each entry that `rpc` outranks.
pub move_down {ℓ} : {A : Type ℓ} → (A → Candidate) → Candidate → A → List A → List A → List A
move_down key rpc a before [] = onto before (a ∷ [])
move_down key rpc a before (c ∷ after) =
    let down = move_down key rpc a (c ∷ before) after in
    if homa_grant_outranks rpc (key c) then down else onto before (a ∷ c ∷ after)

abbrev pub has_id : ℕ → Candidate → Bool
has_id id c = c.id == id

abbrev pub has_addr : ℕ → GrantPeer → Bool
has_addr addr p = p.addr == addr

abbrev pub same : Candidate → Candidate
same c = c

-- The peer's list with `rpc` in its place; `rpc` stands in `rpcs` with earlier values.
pub reposition_rpc : Candidate → List Candidate → List Candidate
unfolding move_up
reposition_rpc rpc rpcs =
    let (before, after) = locate (has_id rpc.id) [] rpcs in move_up same rpc rpc before after

-- From the label `position_peer` on; `rpcs` is the peer's list by now.
pub position_peer : Candidate → ℕ → List Candidate → List GrantPeer → List GrantPeer
unfolding insert_before move_up
position_peer rpc addr rpcs peers =
    let peer : GrantPeer = record { addr = addr; rpcs = rpcs } in
    let (before, after) = locate (has_addr addr) [] peers in
    elim (find (has_addr addr) peers) [
      | none ↦ insert_before first_rpc rpc peer peers
      | some _ ↦ move_up first_rpc rpc peer before after
    ]

abbrev pub rpcs_of : ℕ → List GrantPeer → List Candidate
rpcs_of addr peers = elim (find (has_addr addr) peers) [ none ↦ [] | some peer ↦ peer.rpcs ]

count_added : ℕ → Homa → Homa
count_added time homa =
    let n = homa.num_grantable_rpcs + 1 in
    record homa {
      num_grantable_rpcs = n;
      max_grantable_rpcs = (if ltb homa.max_grantable_rpcs n then n else homa.max_grantable_rpcs);
      last_grantable_change = time;
    }

-- `homa_grant_add_rpc` at time `time`, for an RPC whose peer is `addr`.
pub homa_grant_add_rpc : ℕ → Candidate → ℕ → Grantable → Grantable
unfolding reposition_rpc position_peer count_added insert_before
homa_grant_add_rpc time rpc addr g =
    let rpcs = rpcs_of addr g.peers in
    let born = record rpc { birth = time } in
    elim (find (has_id rpc.id) rpcs) [
      | none ↦ record {
        homa = count_added time g.homa;
        peers = position_peer born addr (insert_before same born born rpcs) g.peers;
      }
      | some _ ↦ record g { peers = position_peer rpc addr (reposition_rpc rpc rpcs) g.peers }
    ]

count_removed : ℕ → ℕ → Homa → Homa
count_removed time id homa = record homa {
  oldest_rpc = elim homa.oldest_rpc [ none ↦ none | some o ↦ if o == id then none else some o ];
  num_grantable_rpcs = homa.num_grantable_rpcs - 1;
  last_grantable_change = time;
}

abbrev pub is_first : ℕ → List Candidate → Bool
is_first id [] = false
is_first id (c ∷ cs) = c.id == id

-- Homa's list once `rpc` has left its peer's list, of which `rpcs` are left.
pub demote_peer : Candidate → Bool → GrantPeer → List GrantPeer → List GrantPeer → List GrantPeer
unfolding move_down
demote_peer rpc was_first peer before after =
    if was_first
    then elim peer.rpcs [
      | [] ↦ onto before after
      | _ ∷ _ ↦ move_down first_rpc rpc peer before after
    ]
    else onto before (peer ∷ after)

-- `homa_grant_remove_rpc`.
pub homa_grant_remove_rpc : ℕ → Candidate → ℕ → Grantable → Grantable
unfolding demote_peer count_removed
homa_grant_remove_rpc time rpc addr g =
    let rpcs = rpcs_of addr g.peers in
    let (before_rpc, after_rpc) = locate (has_id rpc.id) [] rpcs in
    let (before, after) = locate (has_addr addr) [] g.peers in
    elim (find (has_id rpc.id) rpcs) [
      | none ↦ g
      | some _ ↦ record {
        homa = count_removed time rpc.id g.homa;
        peers =
            demote_peer rpc (is_first rpc.id rpcs)
              (record { addr = addr; rpcs = onto before_rpc after_rpc }) before after;
      }
    ]
