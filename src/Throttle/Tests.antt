-- ===== src/Throttle/Tests.antt =====
-- Three messages: the third has the fewest bytes left, the second is the oldest.
use connected_homa.Prelude.{
  ℕ, ◌+◌, ◌≡◌, refl, true, some, List, [], ◌∷◌, arith, SortedBy, insert_by,
}
use connected_homa.Prelude.Int.{pos, ◌-ℤ◌}
use connected_homa.Throttle.{
  Throttled, bytes_left, is_throttled, homa_add_to_throttled, pick_throttled, find_oldest,
}
use connected_homa.Throttle.Order.{homa_add_to_throttled-SortedBy}

abbrev throttled : ℕ → ℕ → ℕ → Throttled
throttled id init_ns left = record {
  id = id;
  init_ns = init_ns;
  msgout = record {
    length = left + 100;
    next_xmit_offset = 100;
    unscheduled = 100;
    granted = left;
    sched_priority = 0;
    packets = [];
    next_xmit = [];
  };
}

abbrev waiting : List Throttled
waiting = throttled 2 50 300 ∷ throttled 4 10 700 ∷ []

waiting-SortedBy : SortedBy bytes_left waiting
waiting-SortedBy = ((omega arith, tt), (tt, tt))

goes_first : homa_add_to_throttled (throttled 6 90 20) waiting ≡ throttled 6 90 20 ∷ waiting
unfolding homa_add_to_throttled insert_by
goes_first = refl

homa_add_to_throttled-SortedBy_example :
    SortedBy bytes_left (homa_add_to_throttled (throttled 6 90 20) waiting)
    × (is_throttled 6 (homa_add_to_throttled (throttled 6 90 20) waiting) ≡ true)
homa_add_to_throttled-SortedBy_example =
    homa_add_to_throttled-SortedBy (throttled 6 90 20) waiting waiting-SortedBy

takes_oldest : (pick_throttled 50 (pos 30) waiting).1 ≡ some (throttled 4 10 700)
unfolding pick_throttled find_oldest ◌-ℤ◌
takes_oldest = refl
