-- ===== src/Buffers/Tests.antt =====
-- A pool of four pages: a short message, one of two pages, one for which there is no room, the release
-- of the first, and a queue that is served.
use connected_homa.Prelude.{ℕ, ◌-◌, ◌≤◌, ◌≡◌, refl, true, none, some, List, [], ◌∷◌, length, arith}
use connected_homa.Pool.{
  Pool, Caller, Pages, got, no_space, stuck, homa_pool_init, homa_pool_get_pages, find_pages,
  limit_of, is_available, take_page,
}
use connected_homa.Pool.Account.{Finds, homa_pool_get_pages-Finds}
use connected_homa.Buffers.{
  Allocation, no_pool, no_room, allocated, endless, take_buffers, finish, allocate_partial,
  new_page, use_hint, homa_pool_release_buffers, Waiter, Buffers, pages_for,
}
use connected_homa.Buffers.Chunks.{Sound}
use connected_homa.Buffers.Allocate.{hold, take_buffers-Sound}
use connected_homa.Buffers.Release.{homa_pool_release_buffers-Sound}
use connected_homa.Buffers.Ends.{Answered, take_buffers-Answered}
use connected_homa.Buffers.Runs.{World, Reach, start, next, give, chunks_of, Reach-Sound}
use connected_homa.Buffers.Queue.{Moment, Woken, homa_pool_check_waiting}
use connected_homa.Buffers.Wakeup.{homa_pool_check_waiting-Served, Served, set_needed-Sound}

abbrev unset : Pool
unset = record {
  region = none;
  num_bpages = 0;
  descriptors = λ i. record { refs = 0; owner = none; expiration = 0 };
  free_bpages = 0;
  bpages_needed = none;
  cores = λ c. record { page_hint = 0; allocated = 0; next_candidate = 0 };
}

abbrev fresh : Pool
fresh = (homa_pool_init true true 4096 262144 unset).0

abbrev pool_after : Allocation → Pool
pool_after (allocated pool _) = pool
pool_after (no_room pool) = pool
pool_after no_pool = unset
pool_after endless = unset

abbrev world0 : World
world0 = record { pool = fresh; messages = [] }

reach0 : Reach world0
unfolding homa_pool_init
reach0 = start 4096 262144 unset world0 refl refl

abbrev pool1 : Pool
pool1 = pool_after (take_buffers 0 10 100 1000 fresh)

abbrev world1 : World
world1 = record { pool = pool1; messages = record { len = 1000; offsets = 0 ∷ [] } ∷ [] }

run1 : take_buffers 0 10 100 1000 fresh ≡ allocated pool1 (0 ∷ [])
unfolding homa_pool_init take_buffers finish allocate_partial new_page use_hint homa_pool_get_pages
    find_pages limit_of is_available take_page
run1 = refl

abbrev pool2 : Pool
pool2 = pool_after (take_buffers 0 20 100 70000 pool1)

run2 : take_buffers 0 20 100 70000 pool1 ≡ allocated pool2 (65536 ∷ 1000 ∷ [])
unfolding homa_pool_init take_buffers finish allocate_partial new_page use_hint homa_pool_get_pages
    find_pages limit_of is_available take_page
run2 = refl

abbrev world2 : World
world2 = record {
  pool = pool2;
  messages =
      record { len = 70000; offsets = 65536 ∷ 1000 ∷ [] }
      ∷ record { len = 1000; offsets = 0 ∷ [] }
      ∷ [];
}

reach1 : Reach world1
reach1 = next {w = world0} {u = world1} reach0 (give 0 10 100 1000 pool1 (0 ∷ []) run1 refl)

reach2 : Reach world2
reach2 =
    next {w = world1} {u = world2} reach1 (give 0 20 100 70000 pool2 (65536 ∷ 1000 ∷ []) run2 refl)

Reach-Sound_example : Sound pool2 (chunks_of world2.messages) 0
Reach-Sound_example = Reach-Sound {w = world2} reach2

sound1 : Sound pool1 (chunks_of world1.messages) 0
sound1 = Reach-Sound {w = world1} reach1

take_buffers-Sound_example :
    Sound pool2 (hold 70000 (65536 ∷ 1000 ∷ []) (chunks_of world1.messages)) 0
    × (length {A = ℕ} (65536 ∷ 1000 ∷ []) ≡ pages_for 70000)
take_buffers-Sound_example =
    take_buffers-Sound 0 20 100 70000 pool1 pool2 (65536 ∷ 1000 ∷ []) (chunks_of world1.messages)
      sound1 run2

take_buffers-Answered_example :
    Answered (chunks_of world1.messages) 262144 pool1 (take_buffers 1 30 100 262144 pool1)
take_buffers-Answered_example =
    take_buffers-Answered 1 30 100 262144 pool1 (chunks_of world1.messages) sound1 (omega arith)

region2 : pool2.region ≡ some 4096
unfolding homa_pool_init take_buffers finish allocate_partial new_page use_hint homa_pool_get_pages
    find_pages limit_of is_available take_page
region2 = refl

homa_pool_release_buffers-Sound_example :
    Sound (homa_pool_release_buffers (65536 ∷ 1000 ∷ []) pool2).0 (chunks_of world1.messages) 0
    × ((homa_pool_release_buffers (65536 ∷ 1000 ∷ []) pool2).1 ≡ true)
homa_pool_release_buffers-Sound_example =
    homa_pool_release_buffers-Sound 70000 4096 (65536 ∷ 1000 ∷ []) pool2 []
      (chunks_of world1.messages) region2 (Reach-Sound {w = world2} reach2)

abbrev caller : Caller
caller = record { core = 2; now = 5; lease_end = none }

enough : 3 ≤ pool1.free_bpages
unfolding homa_pool_init take_buffers finish allocate_partial new_page use_hint homa_pool_get_pages
    find_pages limit_of is_available take_page
enough = omega arith

abbrev pages_of : Pages → Pool
pages_of (got pool pages) = pool
pages_of no_space = unset
pages_of stuck = unset

two_pages :
    homa_pool_get_pages caller 2 pool1
    ≡ got (pages_of (homa_pool_get_pages caller 2 pool1)) (1 ∷ 2 ∷ [])
unfolding homa_pool_init take_buffers finish allocate_partial new_page use_hint homa_pool_get_pages
    find_pages limit_of is_available take_page
two_pages = refl

homa_pool_get_pages-Finds_example :
    Finds caller 2
      (record pool1 { free_bpages = pool1.free_bpages - 2 })
      (pages_of (homa_pool_get_pages caller 2 pool1))
      (1 ∷ 2 ∷ [])
    × (2 ≤ pool1.free_bpages)
homa_pool_get_pages-Finds_example =
    homa_pool_get_pages-Finds caller 2 pool1 (pages_of (homa_pool_get_pages caller 2 pool1))
      (1 ∷ 2 ∷ []) two_pages

abbrev rpc6 : Waiter
rpc6 = record { id = 6; length = 150000 }

abbrev rpc8 : Waiter
rpc8 = record { id = 8; length = 200000 }

abbrev buffers : Buffers
buffers = record { pool = record pool1 { bpages_needed = some 3 }; waiting = rpc6 ∷ rpc8 ∷ [] }

abbrev clock : ℕ → Moment
clock round = record { core = 1; now = 40 - round; lease_end = 140 - round }

region1 : pool1.region ≡ some 4096
unfolding homa_pool_init take_buffers finish allocate_partial new_page use_hint homa_pool_get_pages
    find_pages limit_of is_available take_page
region1 = refl

homa_pool_check_waiting-Served_example :
    (b : Buffers) × (woken : List Woken) × (homa_pool_check_waiting clock 3 buffers
      ≡ some (b, woken))
    × Served (rpc6 ∷ rpc8 ∷ []) (chunks_of world1.messages) b woken
homa_pool_check_waiting-Served_example =
    homa_pool_check_waiting-Served clock 3 4096 buffers (chunks_of world1.messages) region1
      (set_needed-Sound (some 3) pool1 (chunks_of world1.messages) sound1)
      ((omega arith, tt), (tt, tt)) refl (omega arith, (omega arith, tt)) (omega arith)
