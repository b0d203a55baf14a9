-- ===== src/Lifecycle/Count.antt =====
-- `dead_skbs` counts the packets of the dead RPCs.
use connected_homa.Prelude.{
  ℕ, ◌+◌, ◌≡◌, refl, ap, ◌∙◌, inl, inr, Bool, true, false, Option, none, some, List, [], ◌∷◌, ◌++◌,
  map, ◌==◌, arith, Bool-cases, Option-cases, length, update,
}
use connected_homa.Prelude.Int.{ℤ, pos, ◌+ℤ◌}
use connected_homa.Table.{Entry, Hsk, has}
use connected_homa.Reap.{DeadRpc}
use connected_homa.Reap.Account.{load}
use connected_homa.Lifecycle.{
  is_dead, buried, packets_in, packets_of, wake_interest, bury, homa_rpc_free,
}
use connected_homa.Lifecycle.Live.{Live}

-- What `homa_rpc_reap` sees of a dead RPC; `busy` says which can't be reaped now.
abbrev pub dead_rpc : (ℕ → Bool) → (ℕ → Entry) → ℕ → DeadRpc
dead_rpc busy rpcs r =
    let rpc = (rpcs r).rpc in
    record {
      id = rpc.id;
      busy = busy r;
      tx = length rpc.msgout.packets;
      rx = packets_in rpc;
      offsets = elim rpc.msgin [ none ↦ [] | some m ↦ m.bpage_offsets ];
    }

abbrev pub dead_list : (ℕ → Bool) → Hsk → List DeadRpc
dead_list busy s = map (dead_rpc busy s.rpcs) s.dead_rpcs

load-append :
    (busy : ℕ → Bool) (rpcs : ℕ → Entry) (rs : List ℕ) (r : ℕ)
    → load (map (dead_rpc busy rpcs) (rs ++ r ∷ []))
      ≡ load (map (dead_rpc busy rpcs) rs) + packets_of (rpcs r).rpc
load-append busy rpcs [] r = omega arith
load-append busy rpcs (q ∷ rs) r = omega (arith, load-append busy rpcs rs r)

load-update :
    (busy : ℕ → Bool) (rpcs : ℕ → Entry) (r : ℕ) (e : Entry) (rs : List ℕ)
    → has r rs ≡ false
    → load (map (dead_rpc busy (update rpcs r e)) rs) ≡ load (map (dead_rpc busy rpcs) rs)
load-update busy rpcs r e [] h = refl
load-update busy rpcs r e (q ∷ rs) h =
    let other : (q == r) ≡ false = ground (arith, h) in
    let rest = load-update busy rpcs r e rs (ground (arith, h)) in
    rw other (ap (λ n. length (rpcs q).rpc.msgout.packets + packets_in (rpcs q).rpc + n) rest)

buried-packets : (e : Entry) → packets_of (buried e).rpc ≡ packets_of e.rpc
buried-packets e = elim (Option-cases e.rpc.msgin) [
  | inl absent ↦ rw absent refl
  | inr (m, present) ↦ rw present refl
]

-- The counter of the socket is right.
unfoldable pub Counts : (ℕ → Bool) → Hsk → Type 0
Counts busy s = s.dead_skbs ≡ pos (load (dead_list busy s))

pos-plus : (z : ℤ) (a b c : ℕ) → z ≡ pos a → a + b ≡ c → z +ℤ pos b ≡ pos c
unfolding ◌+ℤ◌
pos-plus z a b c e h = rw e (ground (arith, h))

bury-Counts :
    (busy : ℕ → Bool) (r : ℕ) (s : Hsk)
    → has r s.dead_rpcs ≡ false
    → Counts busy s
    → Counts busy (bury r s)
unfolding Counts bury
bury-Counts busy r s out e =
    let e' = buried (s.rpcs r) in
    let rpcs = update s.rpcs r e' in
    let own : packets_of (rpcs r).rpc ≡ packets_of (s.rpcs r).rpc =
      ap (λ (x : Entry). packets_of x.rpc) (update_self s.rpcs r e') ∙ buried-packets (s.rpcs r) in
    pos-plus s.dead_skbs (load (dead_list busy s)) (packets_of (s.rpcs r).rpc)
      (load (map (dead_rpc busy rpcs) (s.dead_rpcs ++ r ∷ []))) e
      (omega (
        arith,
        load-append busy rpcs s.dead_rpcs r,
        load-update busy s.rpcs r e' s.dead_rpcs out,
        own,
      ))
  where
    update_self : (f : ℕ → Entry) (k : ℕ) (v : Entry) → update f k v k ≡ v
    update_self f k v = let h : (k == k) ≡ true = ground arith in rw h refl

wake_interest-Counts :
    (busy : ℕ → Bool) (i : Option ℕ) (s : Hsk) → Counts busy s → Counts busy (wake_interest i s)
unfolding Counts wake_interest
wake_interest-Counts busy none s e = e
wake_interest-Counts busy (some i) s e = e

-- `homa_rpc_free` keeps it that `dead_skbs` is the number of packets of the RPCs in `dead_rpcs`, of which
-- `homa_rpc_reap` frees some.
pub homa_rpc_free-Counts :
    (busy : ℕ → Bool) (next r : ℕ) (s : Hsk)
    → Live next s
    → Counts busy s
    → Counts busy (homa_rpc_free r s)
unfolding homa_rpc_free
homa_rpc_free-Counts busy next r s l e = elim (Bool-cases (is_dead (s.rpcs r).rpc.state)) [
  | inl done ↦ rw done e
  | inr alive ↦
      let out : has r s.dead_rpcs ≡ false = ground (arith, l.gone r, alive) in
      rw alive
        (wake_interest-Counts busy (s.rpcs r).interest (bury r s) (bury-Counts busy r s out e))
]
