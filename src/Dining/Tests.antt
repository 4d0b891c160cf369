-- ===== src/Dining/Tests.antt =====
-- The table of project3/task1_dining_philosopher.c in concrete states.
use ee.Base.{◌<◌, ◌≡◌, ◌≢◌, refl, true, arith}
use ee.Dining.{
  test, take_forks, p_eating, System, start, IsPhilosopher, Step, take, acquire, Reach, begin, next,
}
use ee.Dining.Safety.{neighbours_apart, table_moves, state_overrun, here}

record Run : Type 0 where
  last : System
  reach : Reach last

IsPhilosopher-1 : IsPhilosopher 1
IsPhilosopher-1 = (omega arith, omega arith)

IsPhilosopher-16 : IsPhilosopher 16
IsPhilosopher-16 = (omega arith, omega arith)

-- Philosopher 1 eats, then its left neighbour 16 gets hungry and waits.
served : 0 < (take_forks 1 start.table).sem 1
unfolding take_forks test
served = omega arith

abbrev first_eats : Run
first_eats = record {
  last = _;
  reach = next (next begin (take 1 IsPhilosopher-1 refl)) (acquire 1 IsPhilosopher-1 refl served);
}

abbrev last_waits : Run
last_waits = record { last = _; reach = next first_eats.reach (take 16 IsPhilosopher-16 refl) }

not_served : last_waits.last.table.sem 16 ≡ 0
unfolding take_forks test
not_served = refl

neighbours_apart_example : first_eats.last.pc 2 ≢ p_eating
neighbours_apart_example = neighbours_apart 1 first_eats.reach IsPhilosopher-1 refl

table_moves_example : (s' : System) × Step last_waits.last s'
table_moves_example = table_moves last_waits.reach

state_overrun_example : last_waits.last.table.fault ≡ true
state_overrun_example = state_overrun last_waits.reach (λ e. cc) here
