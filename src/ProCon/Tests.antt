-- ===== src/ProCon/Tests.antt =====
-- The threads of hw2/pro_con.c in concrete states.
use ee.Base.{ℕ, ◌≤◌, ◌<◌, ◌≡◌, refl, false, arith, length}
use ee.Base.Update.{total}
use ee.ProCon.{
  p_inside, produce, wait_empty, p_lock, threads, System, Step, pick, Reach, begin, next,
}
use ee.ProCon.Safety.{mutual_exclusion, buffer_in_bounds, IsDone}
use ee.ProCon.Progress.{Steps, producers_no_deadlock, finishes}

-- The first producer has made the item 42 and holds the mutex.
record Run : Type 0 where
  last : System
  reach : Reach last

abbrev inside : Run
inside = record {
  last = _;
  reach =
      next
        (next (next begin (pick 0 (omega arith) (produce 298)))
          (pick 0 (omega arith) (wait_empty (omega arith))))
        (pick 0 (omega arith) (p_lock (omega arith)));
}

inside_pc : inside.last.pc 0 ≡ p_inside 99 42
inside_pc = refl

mutual_exclusion_example : ◌≡◌ {A = ℕ} 0 0
mutual_exclusion_example = mutual_exclusion 0 0 inside.reach (omega arith) (omega arith) refl refl

buffer_in_bounds_example :
    (inside.last.mem.fault ≡ false)
    × (length inside.last.mem.buffer ≡ 100)
    × (inside.last.mem.count ≤ 100)
buffer_in_bounds_example = buffer_in_bounds inside.reach

producers_no_deadlock_example : (s : System) × Step inside.last s
unfolding total
producers_no_deadlock_example = producers_no_deadlock inside.reach (omega arith)

finishes_example : (s : System) × Steps inside.last s × ((t : ℕ) → t < threads → IsDone (s.pc t))
finishes_example = finishes inside.reach
