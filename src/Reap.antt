-- ===== src/Reap.antt =====
-- homa_rpc.c, `homa_rpc_reap`: the resources of the dead RPCs of a socket are released, a few at a time.
pub mod Account
pub mod Done
mod Tests
use connected_homa.Prelude.{
  ℕ, zero, suc, ◌+◌, ◌-◌, Bool, true, false, not, ◌&&◌, ◌||◌, Option, none, some, List, [], ◌∷◌,
  ◌++◌, ltb, leb, ◌==◌, if◌then◌else◌, length,
}
use connected_homa.Prelude.Int.{ℤ, pos, ◌-ℤ◌}
use connected_homa.Pool.{Pool}
use connected_homa.Buffers.{Buffers, homa_pool_release_buffers}
use connected_homa.Buffers.Queue.{Moment, Woken, homa_pool_check_waiting}

-- BATCH_MAX
abbrev pub batch_max : ℕ
batch_max = 20

-- An RPC in `hsk->dead_rpcs`. `busy` says that it can't be reaped now: RPC_CANT_REAP, `grants_in_progress`
-- or `active_xmits`. `tx` and `rx` are how many packets it has in `msgout` and in `msgin`, `offsets` its
-- `bpage_offsets`.
pub record DeadRpc : Type 0 where
  pub id : ℕ
  pub busy : Bool
  pub tx : ℕ
  pub rx : ℕ
  pub offsets : List ℕ

-- What one walk over the dead RPCs collects: the list that is left, the RPCs to free, how many packets to
-- free, and how many incoming ones were freed on the way.
pub record Collected : Type 0 where
  pub left : List DeadRpc
  pub reaped : List DeadRpc
  pub skbs : ℕ
  pub rx_frees : ℕ

abbrev pub leave : DeadRpc → Collected → Collected
leave rpc c = record c { left = rpc ∷ c.left }

abbrev pub reap : DeadRpc → Collected → Collected
reap rpc c = record c {
  reaped = rpc ∷ c.reaped;
  skbs = rpc.tx + c.skbs;
  rx_frees = rpc.rx + c.rx_frees;
}

abbrev pub release : List DeadRpc → Collected
release rest = record { left = rest; reaped = []; skbs = 0; rx_frees = 0 }

-- The walk, up to the label `release`, with `num_skbs` and `num_rpcs` so far.
pub collect : ℕ → ℕ → ℕ → List DeadRpc → Collected
collect batch_size num_skbs num_rpcs [] = release []
collect batch_size num_skbs num_rpcs (rpc ∷ rest) =
    let here = collect batch_size (num_skbs + rpc.tx) (num_rpcs + 1) rest in
    let skip = collect batch_size num_skbs num_rpcs rest in
    let room = batch_size - num_skbs in
    if rpc.busy
    then leave rpc skip
    else if ltb 0 rpc.tx && leb batch_size (num_skbs + rpc.tx)
    then record (release (record rpc { tx = rpc.tx - room } ∷ rest)) { skbs = room }
    else if leb batch_size (num_rpcs + 1)
    then reap rpc (release rest)
    else reap rpc here

-- The socket: `dead_rpcs`, `dead_skbs`, and the pool.
pub record Socket : Type 0 where
  pub dead_rpcs : List DeadRpc
  pub dead_skbs : ℤ
  pub pool : Pool

-- The buffers of the RPCs that are freed go back to the pool.
pub release_rpcs : List DeadRpc → Pool → Pool
release_rpcs [] pool = pool
release_rpcs (rpc ∷ rpcs) pool = release_rpcs rpcs (homa_pool_release_buffers rpc.offsets pool).0

-- The socket, the result, and how many packets of `msgout` were freed in all.
pub record Reaped : Type 0 where
  pub socket : Socket
  pub more : Bool
  pub freed : ℕ
  pub reaped : List DeadRpc

-- `batch_size`, for `count` packets that are still to be freed.
pub batch_of : ℕ → ℕ
batch_of count = if ltb batch_max count then batch_max else count

-- One round of the outer loop: the socket and `rx_frees` after it, `result`, and what was freed.
pub record Round : Type 0 where
  pub socket : Socket
  pub rx_frees : ℕ
  pub more : Bool
  pub skbs : ℕ
  pub reaped : List DeadRpc

pub one_round : ℕ → ℕ → Socket → Round
unfolding collect release_rpcs
one_round batch_size rx_frees s =
    let c = collect batch_size 0 0 s.dead_rpcs in
    let rx = rx_frees + c.rx_frees in
    let empty : Bool = elim c.left [ [] ↦ true | _ ∷ _ ↦ false ] in
    record {
      socket = record {
        dead_rpcs = c.left;
        dead_skbs = s.dead_skbs -ℤ pos (c.skbs + rx);
        pool = release_rpcs c.reaped s.pool;
      };
      rx_frees = rx;
      more = not empty && not (c.skbs + length c.reaped == 0);
      skbs = c.skbs;
      reaped = c.reaped;
    }

abbrev pub add_round : Round → Reaped → Reaped
add_round r x = record x { freed = r.skbs + x.freed; reaped = r.reaped ++ x.reaped }

-- The outer loop, with `count` packets still to free; `rx_frees` and `more`, which is `result`, are those of
-- the rounds before. There are at most `count` rounds.
pub reap_batches : ℕ → ℕ → ℕ → Bool → Socket → Reaped
unfolding one_round batch_of
reap_batches fuel zero rx_frees more s = record { socket = s; more = more; freed = 0; reaped = [] }
reap_batches zero (suc count) rx_frees more s = record {
  socket = s;
  more = more;
  freed = 0;
  reaped = [];
}
reap_batches (suc fuel) (suc count) rx_frees more s =
    let batch_size = batch_of (suc count) in
    let r = one_round batch_size rx_frees s in
    let next = reap_batches fuel (suc count - batch_size) r.rx_frees r.more r.socket in
    add_round r
      (if r.more then next else record { socket = r.socket; more = r.more; freed = 0; reaped = [] })

-- `homa_rpc_reap` where `protect_count` is zero and `count` is not, and what `homa_pool_check_waiting` does
-- at its end, with `waiting` for the pool's queue.
pub homa_rpc_reap : (ℕ → Moment) → ℕ → ℕ → Buffers → Socket → Reaped × Option (Buffers × List Woken)
unfolding reap_batches
homa_rpc_reap clock fuel count b s =
    let r = reap_batches count count 0 false (record s { pool = b.pool }) in
    (r, homa_pool_check_waiting clock fuel (record b { pool = r.socket.pool }))
