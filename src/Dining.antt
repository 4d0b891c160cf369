-- ===== src/Dining.antt =====
-- project3/task1_dining_philosopher.c: 16 philosophers, numbered from 1, that take turns at a table.
-- Every access to `state` is between `sem_wait(&mutex)` and `sem_post(&mutex)`, so what
-- `take_forks` and `put_forks` do there is one step. `fault` records an access outside `state`, an
-- array of 16 cells; the cell behind it is taken to keep what is stored in it.
pub mod Inv
pub mod Safety
mod Tests
use ee.Base.{ℕ, ◌+◌, ◌-◌, ◌<◌, ◌≤◌, ◌≡◌, Bool, true, false, ◌||◌, ltb, leb, ◌==◌, if◌then◌else◌}
use ee.Base.Update.{update}

abbrev pub max_philosopher_num : ℕ
max_philosopher_num = 16

abbrev pub thinking : ℕ
thinking = 0

abbrev pub hungry : ℕ
hungry = 1

abbrev pub eating : ℕ
eating = 2

pub record Table : Type 0 where
  pub state : ℕ → ℕ
  pub sem : ℕ → ℕ
  pub fault : Bool

abbrev pub get_left : ℕ → ℕ
get_left i = if i == 1 then max_philosopher_num else i - 1

abbrev pub get_right : ℕ → ℕ
get_right i = if i == max_philosopher_num then 1 else i + 1

-- An access to `state[i]`.
abbrev pub touch : ℕ → Table → Table
touch i m = record m { fault = m.fault || leb max_philosopher_num i }

abbrev pub set_state : ℕ → ℕ → Table → Table
set_state i v m = record (touch i m) { state = update m.state i v }

-- The conditions are tried from left to right, each only if the one before holds.
unfoldable pub test : ℕ → Table → Table
test i m =
    let m1 = touch i m in
    let m2 = touch (get_left i) m1 in
    let m3 = touch (get_right i) m2 in
    if m.state i == hungry
    then (if m.state (get_left i) == eating
        then m2
        else (if m.state (get_right i) == eating
            then m3
            else record (set_state i eating m3) { sem = update m.sem i (m.sem i + 1) }))
    else m1

-- `take_forks` up to `sem_post(&mutex)`, and `put_forks`.
unfoldable pub take_forks : ℕ → Table → Table
take_forks i m = test i (set_state i hungry m)

unfoldable pub put_forks : ℕ → Table → Table
put_forks i m = test (get_right i) (test (get_left i) (set_state i thinking m))

-- Where a philosopher stands in the loop: before `take_forks`, before the `sem_wait(&sem[i])` at its
-- end, or before `put_forks`.
pub data Pc : Type 0 where
  p_thinking : Pc
  p_waiting : Pc
  p_eating : Pc

pub record System : Type 0 where
  pub table : Table
  pub pc : ℕ → Pc

abbrev pub IsPhilosopher : ℕ → Type 0
IsPhilosopher i = (1 ≤ i) × (i ≤ max_philosopher_num)

pub data Step (s : System) : System → Type 0 where
  take :
      (i : ℕ)
      → IsPhilosopher i
      → s.pc i ≡ p_thinking
      → Step s (record { table = take_forks i s.table; pc = update s.pc i p_waiting })
  acquire :
      (i : ℕ)
      → IsPhilosopher i
      → s.pc i ≡ p_waiting
      → 0 < s.table.sem i
      → Step s (record {
        table = record s.table { sem = update s.table.sem i (s.table.sem i - 1) };
        pc = update s.pc i p_eating;
      })
  put :
      (i : ℕ)
      → IsPhilosopher i
      → s.pc i ≡ p_eating
      → Step s (record { table = put_forks i s.table; pc = update s.pc i p_thinking })

-- `main` after the threads are created.
abbrev pub start : System
start = record {
  table = record { state = λ _. thinking; sem = λ _. 0; fault = false };
  pc = λ _. p_thinking;
}

pub data Reach : System → Type 0 where
  begin : Reach start
  next : {s t : System} → Reach s → Step s t → Reach t
