-- ===== src/Monkeys/Tests.antt =====
-- The monkeys of project3/task1_training_monkeys.c in concrete states.
use ee.Base.{◌≤◌, ℕ, ◌<◌, ◌≡◌, refl, ap, [], ◌∷◌, ◌%◌, false, none, some, arith, ◌==◌}
use ee.Monkeys.{
  ball_count, gone, Monkey, acquire_proper_bowl, enter, check, lock_balls, get_first, get_second,
  both_free, pick_first, reserve_second, unlock_balls, think_first, release_first, release_second,
  leave_room, try_full, lock_bowls, choose_bowl, unlock_bowls, wake_trainer,
  get_nano_time_random_number, wait_room, choose_balls, lock_identity, modify_identity,
  unlock_identity, System, Step, monkey, main, create, Reach, begin, next,
}
use ee.Monkeys.{
  ball_count, gone, Monkey, acquire_proper_bowl, enter, check, lock_balls, get_first, get_second,
  both_free, pick_first, reserve_second, unlock_balls, think_first, release_first, release_second,
  leave_room, try_full, lock_bowls, choose_bowl, unlock_bowls, wake_trainer,
  get_nano_time_random_number, wait_room, choose_balls, lock_identity, modify_identity,
  unlock_identity, System, Step, monkey, main, create, Reach, begin, next,
}
use ee.Monkeys.Weights.{bowl_at}
use ee.Monkeys.Inv.{weight_of, all}
use ee.Monkeys.Safety.{ball_exclusive, bowl_exclusive, bowlless_at}
use ee.Monkeys.Progress.{CanStep, never_stuck}
use ee.Monkeys.Trainer.{Trains, CanTrain, CanMove, feeds_twice}

abbrev Trace : Type 0
Trace = (s : System) × Reach s

abbrev go : (x : Trace) {t : System} → Step x.0 t → Trace
go x st = (_, next x.1 st)

any_ball : (x : ℕ) → x < 4 → get_nano_time_random_number ball_count none (x ∷ []) ≡ some x
unfolding get_nano_time_random_number
any_ball x lt = ap some (omega arith)

other_ball :
    (x y : ℕ)
    → y < 4
    → (y == x) ≡ false
    → get_nano_time_random_number ball_count (some x) (y ∷ []) ≡ some y
unfolding get_nano_time_random_number
other_ball x y lt e = let m : y % 4 ≡ y = omega arith in rw (m, e) refl

abbrev nobody : Monkey
nobody = record { id = 0; first = 0; second = 0; pc = gone }

abbrev begun : Trace
begun = (_, begin (λ t. nobody))

-- A monkey comes for the balls 0 and 1.
abbrev first_called : Trace
first_called =
    go
      (go (go begun (main (wait_room (omega arith)))) (
        main (
          choose_balls (0 ∷ []) (1 ∷ []) (any_ball 0 (omega arith))
            (other_ball 0 1 (omega arith) refl))))
      (main (lock_identity (omega arith)))

abbrev first_here : Trace
first_here = go (go (go first_called (main modify_identity)) (main unlock_identity)) (create refl)

-- It has its balls,
abbrev first_checks : Trace
first_checks =
    go (go (go first_here (monkey 0 (omega arith) enter)) (monkey 0 (omega arith) check))
      (monkey 0 (omega arith) (lock_balls (omega arith)))

abbrev first_reads : Trace
first_reads =
    go (go (go first_checks (monkey 0 (omega arith) get_first)) (monkey 0 (omega arith) get_second))
      (monkey 0 (omega arith) (both_free refl refl))

abbrev first_plays : Trace
first_plays =
    go
      (go (go first_reads (monkey 0 (omega arith) (pick_first (omega arith))))
        (monkey 0 (omega arith) (reserve_second (omega arith))))
      (monkey 0 (omega arith) unlock_balls)

-- and then waits at the first bowl.
abbrev first_releases : Trace
first_releases =
    go
      (go (go first_plays (monkey 0 (omega arith) think_first))
        (monkey 0 (omega arith) release_first))
      (monkey 0 (omega arith) release_second)

abbrev first_leaves : Trace
first_leaves =
    go
      (go (go first_releases (monkey 0 (omega arith) leave_room))
        (monkey 0 (omega arith) (try_full (omega arith))))
      (monkey 0 (omega arith) (lock_bowls (omega arith)))

abbrev first_waits : Trace
first_waits =
    go
      (go (go first_leaves (monkey 0 (omega arith) choose_bowl))
        (monkey 0 (omega arith) unlock_bowls))
      (monkey 0 (omega arith) wake_trainer)

-- Another comes for the balls 2 and 3.
abbrev second_called : Trace
second_called =
    go
      (go (go first_waits (main (wait_room (omega arith)))) (
        main (
          choose_balls (2 ∷ []) (3 ∷ []) (any_ball 2 (omega arith))
            (other_ball 2 3 (omega arith) refl))))
      (main (lock_identity (omega arith)))

abbrev second_here : Trace
second_here = go (go (go second_called (main modify_identity)) (main unlock_identity)) (create refl)

-- It has its balls,
abbrev second_checks : Trace
second_checks =
    go (go (go second_here (monkey 1 (omega arith) enter)) (monkey 1 (omega arith) check))
      (monkey 1 (omega arith) (lock_balls (omega arith)))

abbrev second_reads : Trace
second_reads =
    go
      (go (go second_checks (monkey 1 (omega arith) get_first)) (monkey 1 (omega arith) get_second))
      (monkey 1 (omega arith) (both_free refl refl))

abbrev second_plays : Trace
second_plays =
    go
      (go (go second_reads (monkey 1 (omega arith) (pick_first (omega arith))))
        (monkey 1 (omega arith) (reserve_second (omega arith))))
      (monkey 1 (omega arith) unlock_balls)

-- and then waits at the second bowl.
abbrev second_releases : Trace
second_releases =
    go
      (go (go second_plays (monkey 1 (omega arith) think_first))
        (monkey 1 (omega arith) release_first))
      (monkey 1 (omega arith) release_second)

abbrev second_leaves : Trace
second_leaves =
    go
      (go (go second_releases (monkey 1 (omega arith) leave_room))
        (monkey 1 (omega arith) (try_full (omega arith))))
      (monkey 1 (omega arith) (lock_bowls (omega arith)))

abbrev second_waits : Trace
second_waits =
    go
      (go (go second_leaves (monkey 1 (omega arith) choose_bowl))
        (monkey 1 (omega arith) unlock_bowls))
      (monkey 1 (omega arith) wake_trainer)

ball_exclusive_example : ◌≡◌ {A = ℕ} 1 1
ball_exclusive_example =
    ball_exclusive 3 1 1 second_plays.1 (omega arith) (omega arith) (omega arith) (omega arith)

bowl_exclusive_example :
    (all (weight_of (bowl_at 1)) second_waits.0 ≤ 1)
    × (second_waits.0.mem.bowls_usage 1 ≡ all (weight_of (bowl_at 1)) second_waits.0)
    × (all (weight_of bowlless_at) second_waits.0 ≡ 0)
    × (second_waits.0.mem.fault ≡ false)
bowl_exclusive_example = bowl_exclusive 1 second_waits.1

never_stuck_example : CanStep second_waits.0
never_stuck_example = never_stuck second_waits.1

feeds_twice_example :
    (s : System) × Trains second_waits.0 s
    × Reach s
    × (s.monkeys ≡ second_waits.0.monkeys)
    × (s.mem.bowls_detail 0 ≡ 2)
    × (s.mem.bowls_empty ≡ 0)
    × (¬ CanTrain s)
    × (¬ CanMove s (s.monkeys 1))
unfolding acquire_proper_bowl
feeds_twice_example = feeds_twice 1 second_waits.1 refl refl refl refl refl
