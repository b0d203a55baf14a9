-- ===== src/Throttle.antt =====
-- homa_outgoing.c: `homa_add_to_throttled`, `homa_remove_from_throttled` and the choice of the pacer
-- (`homa_pacer_xmit`) in the list of RPCs that wait for room in the queue of the network interface.
pub mod Order
mod Tests
use connected_homa.Prelude.{
  ℕ, ◌+◌, ◌-◌, Bool, true, false, ◌||◌, Option, none, some, List, [], ◌∷◌, ltb, leb, ◌==◌,
  if◌then◌else◌, insert_by,
}
use connected_homa.Prelude.Int.{ℤ, pos, ◌+ℤ◌, ◌-ℤ◌, leb_ℤ}
use connected_homa.Rpc.{MessageOut}

-- An RPC in `homa->throttled_rpcs`, what is read of it: its id, `init_ns` and the message.
pub record Throttled : Type 0 where
  pub id : ℕ
  pub init_ns : ℕ
  pub msgout : MessageOut

abbrev pub bytes_left : Throttled → ℕ
bytes_left t = t.msgout.length - t.msgout.next_xmit_offset

-- `!list_empty(&rpc->throttled_links)`
abbrev pub is_throttled : ℕ → List Throttled → Bool
is_throttled id [] = false
is_throttled id (t ∷ ts) = t.id == id || is_throttled id ts

-- `homa_add_to_throttled`
pub homa_add_to_throttled : Throttled → List Throttled → List Throttled
homa_add_to_throttled t ts = if is_throttled t.id ts then ts else insert_by bytes_left t ts

-- `homa_remove_from_throttled`; the list has an RPC at most once.
pub homa_remove_from_throttled : ℕ → List Throttled → List Throttled
homa_remove_from_throttled id [] = []
homa_remove_from_throttled id (t ∷ ts) =
    if t.id == id then ts else t ∷ homa_remove_from_throttled id ts

-- The loop of `homa_pacer_xmit` for the oldest message, with the `oldest` so far.
pub find_oldest : Option Throttled → List Throttled → Option Throttled
find_oldest oldest [] = oldest
find_oldest none (t ∷ ts) = find_oldest (some t) ts
find_oldest (some o) (t ∷ ts) =
    let older = find_oldest (some t) ts in
    let rest = find_oldest (some o) ts in if ltb t.init_ns o.init_ns then older else rest

-- How `homa_pacer_xmit` chooses, with `pacer_fifo_fraction`: `pacer_fifo_count` after, and the RPC.
pub pick_throttled : ℕ → ℤ → List Throttled → ℤ × Option Throttled
unfolding find_oldest
pick_throttled fifo_fraction fifo_count ts =
    let count = fifo_count -ℤ pos fifo_fraction in
    let first : Option Throttled = elim ts [ [] ↦ none | t ∷ _ ↦ some t ] in
    if leb_ℤ count (pos 0) then (count +ℤ pos 1000, find_oldest none ts) else (count, first)
