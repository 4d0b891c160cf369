-- ===== src/ReadWrite/Tests.antt =====
-- The threads of hw2/read_write.c in concrete states.
use ee.Base.{◌≡◌, refl, arith}
use ee.ReadWrite.{
  lock, load, count, first, wait_db, unlock, w_wait, System, Step, pick, Reach, begin, next,
}
use ee.ReadWrite.Inv.{writing}
use ee.ReadWrite.Safety.{readers_exclude_writers, readers_no_deadlock}

record Run : Type 0 where
  last : System
  reach : Reach last

-- Thread 1 reads, all others stand at the head of their loops.
abbrev reading : Run
reading = record {
  last = _;
  reach =
      next
        (next
          (next
            (next
              (next (next begin (pick 1 (omega arith) (lock (omega arith))))
                (pick 1 (omega arith) load))
              (pick 1 (omega arith) count))
            (pick 1 (omega arith) (first refl)))
          (pick 1 (omega arith) (wait_db (omega arith))))
        (pick 1 (omega arith) unlock);
}

-- Thread 5 writes.
abbrev writer_in : Run
writer_in = record { last = _; reach = next begin (pick 5 (omega arith) (w_wait (omega arith))) }

readers_exclude_writers_example : writing (reading.last.pc 4) ≡ 0
readers_exclude_writers_example =
    readers_exclude_writers 1 4 reading.reach (omega arith) (omega arith) refl

readers_no_deadlock_example : (s : System) × Step reading.last s
readers_no_deadlock_example = readers_no_deadlock reading.reach
