-- ===== src/Monkeys.antt =====
-- project3/task1_training_monkeys.c: monkeys that share four balls and two bowls, and a trainer who fills
-- the bowls. A step is one access to shared data or one semaphore operation; the balls that a monkey
-- wants and the count that it read stay in its thread. The thread that calls `sem_trywait` does so
-- once, so EAGAIN is in its `errno` exactly when that call failed. Sleeping and printing are left out.
pub mod Weights
pub mod Others
pub mod Inv
pub mod Safety
pub mod Progress
pub mod Trainer
mod Tests
use ee.Base.{
  ℕ, zero, suc, ◌+◌, ◌-◌, ◌%◌, ◌<◌, ◌≡◌, ◌≢◌, ◌⊎◌, Bool, true, false, Option, none, some, List, [],
  ◌∷◌, ◌==◌, if◌then◌else◌,
}
use ee.Base.Update.{update}

abbrev pub max_monkeys : ℕ
max_monkeys = 4

abbrev pub target_training : ℕ
target_training = 300

abbrev pub ball_count : ℕ
ball_count = 4

-- The semaphores by their values, and the shared variables. `finished` is set by the call of `exit`,
-- `fault` by an access outside `bowls_detail`.
pub record Shared : Type 0 where
  pub room : ℕ
  pub balls : ℕ → ℕ
  pub bowls_full : ℕ
  pub bowls_empty : ℕ
  pub ball_checking : ℕ
  pub bowl_checking : ℕ
  pub counter_mutex : ℕ
  pub bowls_detail : ℕ → ℕ
  pub bowls_usage : ℕ → ℕ
  pub identity : ℕ
  pub training_counter : ℕ
  pub finished : Bool
  pub fault : Bool

-- Where a monkey's thread stands: its state, and within CHECKING, OUTSIDE_THE_ROOM and the end the
-- operations that it has done.
pub data Pc : Type 0 where
  new_monkey inside_the_room checking : Pc
  locked : Pc
  read_first : (b1 : ℕ) → Pc
  read_both : (b1 b2 : ℕ) → Pc
  picking picked reserved : Pc
  giving_up : Pc
  takes_first_ball takes_second_ball released_first : Pc
  outside_the_room spawned : Pc
  full_bowl bowl_locked : Pc
  bowl_chosen : (bowl : Option ℕ) → Pc
  bowl_known : (bowl : Option ℕ) → Pc
  waiting : (bowl : Option ℕ) → Pc
  fed releasing : (bowl : ℕ) → Pc
  emptied eaten : Pc
  eat_bananas eat_apples : Pc
  end_training counting : Pc
  counted counted_out : (v : ℕ) → Pc
  gone : Pc

-- `struct monkey`, with where its thread stands.
pub record Monkey : Type 0 where
  pub id : ℕ
  pub first : ℕ
  pub second : ℕ
  pub pc : Pc

-- The bowl, and the usage after it; none for -1.
unfoldable pub acquire_proper_bowl : (ℕ → ℕ) → Option ℕ × (ℕ → ℕ)
acquire_proper_bowl usage =
    if usage 0 == 0
    then (some 0, update usage 0 1)
    else if usage 1 == 0
    then (some 1, update usage 1 1)
    else (none, usage)

unfoldable pub release_bowl : ℕ → (ℕ → ℕ) → ℕ → ℕ
release_bowl i usage = if usage i == 1 then update usage i 0 else usage

-- One step of a monkey that wants the balls `x` and `y`.
pub data Move (m : Shared) (x y : ℕ) : Pc → Shared → Pc → Type 0 where
  enter : Move m x y new_monkey m inside_the_room
  check : Move m x y inside_the_room m checking
  lock_balls :
      0 < m.ball_checking
      → Move m x y checking (record m { ball_checking = m.ball_checking - 1 }) locked
  get_first : Move m x y locked m (read_first (m.balls x))
  get_second : {b1 : ℕ} → Move m x y (read_first b1) m (read_both b1 (m.balls y))
  both_free : {b1 b2 : ℕ} → b1 ≡ 1 → b2 ≡ 1 → Move m x y (read_both b1 b2) m picking
  not_free : {b1 b2 : ℕ} → (b1 ≢ 1) ⊎ (b2 ≢ 1) → Move m x y (read_both b1 b2) m giving_up
  give_up : Move m x y giving_up (record m { ball_checking = m.ball_checking + 1 }) checking
  pick_first :
      0 < m.balls x
      → Move m x y picking (record m { balls = update m.balls x (m.balls x - 1) }) picked
  reserve_second :
      0 < m.balls y
      → Move m x y picked (record m { balls = update m.balls y (m.balls y - 1) }) reserved
  unlock_balls :
      Move m x y reserved (record m { ball_checking = m.ball_checking + 1 }) takes_first_ball
  think_first : Move m x y takes_first_ball m takes_second_ball
  release_first :
      Move m x y takes_second_ball
        (record m { balls = update m.balls x (m.balls x + 1) })
        released_first
  release_second :
      Move m x y released_first
        (record m { balls = update m.balls y (m.balls y + 1) })
        outside_the_room
  leave_room : Move m x y outside_the_room (record m { room = m.room + 1 }) spawned
  try_full :
      0 < m.bowls_full → Move m x y spawned (record m { bowls_full = m.bowls_full - 1 }) full_bowl
  try_again : m.bowls_full ≡ 0 → Move m x y spawned m eat_apples
  lock_bowls :
      0 < m.bowl_checking
      → Move m x y full_bowl (record m { bowl_checking = m.bowl_checking - 1 }) bowl_locked
  choose_bowl :
      Move m x y bowl_locked
        (record m { bowls_usage = (acquire_proper_bowl m.bowls_usage).1 })
        (bowl_chosen (acquire_proper_bowl m.bowls_usage).0)
  unlock_bowls :
      {o : Option ℕ}
      → Move m x y (bowl_chosen o) (record m { bowl_checking = m.bowl_checking + 1 }) (bowl_known o)
  wake_trainer :
      {o : Option ℕ}
      → Move m x y (bowl_known o) (record m { bowls_empty = m.bowls_empty + 1 }) (waiting o)
  get_fed :
      {i : ℕ}
      → 0 < m.bowls_detail i
      → Move m x y
          (waiting (some i))
          (record m { bowls_detail = update m.bowls_detail i (m.bowls_detail i - 1) })
          (fed i)
  overrun : Move m x y (waiting none) (record m { fault = true }) gone
  relock_bowls :
      {i : ℕ}
      → 0 < m.bowl_checking
      → Move m x y (fed i) (record m { bowl_checking = m.bowl_checking - 1 }) (releasing i)
  free_bowl :
      {i : ℕ}
      → Move m x y (releasing i) (record m { bowls_usage = release_bowl i m.bowls_usage }) emptied
  reunlock_bowls : Move m x y emptied (record m { bowl_checking = m.bowl_checking + 1 }) eaten
  post_full : Move m x y eaten (record m { bowls_full = m.bowls_full + 1 }) eat_bananas
  end_bananas : Move m x y eat_bananas m end_training
  end_apples : Move m x y eat_apples m end_training
  lock_counter :
      0 < m.counter_mutex
      → Move m x y end_training (record m { counter_mutex = m.counter_mutex - 1 }) counting
  modify_counter :
      Move m x y counting
        (record m { training_counter = m.training_counter + 1 })
        (counted (m.training_counter + 1))
  unlock_counter :
      {v : ℕ}
      → Move m x y (counted v) (record m { counter_mutex = m.counter_mutex + 1 }) (counted_out v)
  finish_training :
      {v : ℕ}
      → Move m x y
          (counted_out v)
          (record m { finished = if v == target_training then true else m.finished })
          gone

-- The trainer. A bowl is looked at without `bowlCheckingMutex`.
pub data TrainerPc : Type 0 where
  asleep woken : TrainerPc
  second_bowl : TrainerPc
  feeding : (bowl : ℕ) → TrainerPc

pub data TrainerMove (m : Shared) : TrainerPc → Shared → TrainerPc → Type 0 where
  wake :
      0 < m.bowls_empty → TrainerMove m asleep (record m { bowls_empty = m.bowls_empty - 1 }) woken
  first_used : m.bowls_usage 0 ≡ 1 → TrainerMove m woken m (feeding 0)
  first_free : m.bowls_usage 0 ≢ 1 → TrainerMove m woken m second_bowl
  second_used : m.bowls_usage 1 ≡ 1 → TrainerMove m second_bowl m (feeding 1)
  second_free : m.bowls_usage 1 ≢ 1 → TrainerMove m second_bowl m asleep
  feed :
      {i : ℕ}
      → TrainerMove m
          (feeding i)
          (record m { bowls_detail = update m.bowls_detail i (m.bowls_detail i + 1) })
          asleep

-- The results of `rand` that a call uses up; none if there are too few of them.
unfoldable pub get_nano_time_random_number : (range : ℕ) → (excluded : Option ℕ) → List ℕ → Option ℕ
get_nano_time_random_number range excluded [] = none
get_nano_time_random_number range none (r ∷ rs) = some (r % range)
get_nano_time_random_number range (some e) (r ∷ rs) =
    let again = get_nano_time_random_number range (some e) rs in
    if r % range == e then again else some (r % range)

-- `main`, with `spawnMonkeyThread`.
pub data MainPc : Type 0 where
  main_loop : MainPc
  spawning : MainPc
  chosen : (first second : ℕ) → MainPc
  numbering : (first second : ℕ) → MainPc
  numbered named : (first second id : ℕ) → MainPc

pub data MainMove (m : Shared) : MainPc → Shared → MainPc → Type 0 where
  wait_room : 0 < m.room → MainMove m main_loop (record m { room = m.room - 1 }) spawning
  choose_balls :
      {x y : ℕ} (rs ss : List ℕ)
      → get_nano_time_random_number ball_count none rs ≡ some x
      → get_nano_time_random_number ball_count (some x) ss ≡ some y
      → MainMove m spawning m (chosen x y)
  lock_identity :
      {x y : ℕ}
      → 0 < m.counter_mutex
      → MainMove m (chosen x y) (record m { counter_mutex = m.counter_mutex - 1 }) (numbering x y)
  modify_identity :
      {x y : ℕ}
      → MainMove m
          (numbering x y)
          (record m { identity = m.identity + 1 })
          (numbered x y (m.identity + 1))
  unlock_identity :
      {x y v : ℕ}
      → MainMove m (numbered x y v) (record m { counter_mutex = m.counter_mutex + 1 }) (named x y v)

-- The monkeys are numbered in the order of their threads.
pub record System : Type 0 where
  pub mem : Shared
  pub main_pc : MainPc
  pub trainer : TrainerPc
  pub monkeys : ℕ → Monkey
  pub threads : ℕ

abbrev pub moved : Monkey → Pc → Monkey
moved k p = record k { pc = p }

pub data Step (s : System) : System → Type 0 where
  monkey :
      (t : ℕ) {m : Shared} {p : Pc}
      → t < s.threads
      → Move s.mem (s.monkeys t).first (s.monkeys t).second (s.monkeys t).pc m p
      → Step s (record s { mem = m; monkeys = update s.monkeys t (moved (s.monkeys t) p) })
  train :
      {m : Shared} {p : TrainerPc}
      → TrainerMove s.mem s.trainer m p
      → Step s (record s { mem = m; trainer = p })
  main :
      {m : Shared} {p : MainPc}
      → MainMove s.mem s.main_pc m p
      → Step s (record s { mem = m; main_pc = p })
  create :
      {x y v : ℕ}
      → s.main_pc ≡ named x y v
      → Step s (record s {
        main_pc = main_loop;
        monkeys =
            update s.monkeys s.threads (record { id = v; first = x; second = y; pc = new_monkey });
        threads = suc s.threads;
      })

-- `initSemaphore`
abbrev pub init_semaphore : Shared
init_semaphore = record {
  room = max_monkeys;
  balls = λ b. 1;
  bowls_full = 2;
  bowls_empty = 0;
  ball_checking = 1;
  bowl_checking = 1;
  counter_mutex = 1;
  bowls_detail = λ i. 0;
  bowls_usage = λ i. 0;
  identity = 0;
  training_counter = 0;
  finished = false;
  fault = false;
}

abbrev pub start : (ℕ → Monkey) → System
start monkeys = record {
  mem = init_semaphore;
  main_pc = main_loop;
  trainer = asleep;
  monkeys = monkeys;
  threads = 0;
}

pub data Reach : System → Type 0 where
  begin : (monkeys : ℕ → Monkey) → Reach (start monkeys)
  next : {s t : System} → Reach s → Step s t → Reach t
