-- ===== src/Monkeys/Weights.antt =====
-- What a thread of project3/task1_training_monkeys.c holds, by where it stands, and that a step neither
-- makes nor loses any of it.
use ee.Base.{
  ℕ, ◌+◌, ◌≤◌, ◌<◌, ◌≡◌, ◌≢◌, ◌⊎◌, inl, inr, refl, Bool-cases, true, some, arith, ◌==◌,
  if◌then◌else◌,
}
use ee.Monkeys.{
  target_training, Shared, Pc, new_monkey, inside_the_room, checking, locked, read_first, read_both,
  picking, picked, reserved, giving_up, takes_first_ball, takes_second_ball, released_first,
  outside_the_room, full_bowl, bowl_locked, bowl_chosen, bowl_known, waiting, fed, releasing,
  emptied, eaten, counting, counted, counted_out, gone, acquire_proper_bowl, release_bowl, Move,
  enter, lock_balls, both_free, pick_first, reserve_second, try_full, lock_bowls, choose_bowl,
  get_fed, overrun, relock_bowls, free_bowl, lock_counter,
}

abbrev one : ℕ → ℕ → ℕ
one a b = if a == b then 1 else 0

module _ (b : ℕ) where
  -- Whether a monkey that wants `x` and `y` has ball `b`, taken or reserved.
  abbrev pub ball_at : (x y : ℕ) → Pc → ℕ
  ball_at x y picked = one b x
  ball_at x y reserved = one b x + one b y
  ball_at x y takes_first_ball = one b x + one b y
  ball_at x y takes_second_ball = one b x + one b y
  ball_at x y released_first = one b y
  ball_at x y _ = 0

  -- Whether it uses bowl `b`.
  abbrev pub bowl_at : Pc → ℕ
  bowl_at (bowl_chosen (some i)) = one b i
  bowl_at (bowl_known (some i)) = one b i
  bowl_at (waiting (some i)) = one b i
  bowl_at (fed i) = one b i
  bowl_at (releasing i) = one b i
  bowl_at _ = 0

-- Between `sem_wait(&ballCheckingMutex)` and its `sem_post`; the same for the other semaphores.
abbrev pub checking_at : Pc → ℕ
checking_at locked = 1
checking_at (read_first _) = 1
checking_at (read_both _ _) = 1
checking_at picking = 1
checking_at picked = 1
checking_at reserved = 1
checking_at giving_up = 1
checking_at _ = 0

abbrev pub room_at : Pc → ℕ
room_at new_monkey = 1
room_at inside_the_room = 1
room_at checking = 1
room_at takes_first_ball = 1
room_at takes_second_ball = 1
room_at released_first = 1
room_at outside_the_room = 1
room_at p = checking_at p

abbrev pub full_at : Pc → ℕ
full_at full_bowl = 1
full_at bowl_locked = 1
full_at (bowl_chosen _) = 1
full_at (bowl_known _) = 1
full_at (waiting _) = 1
full_at (fed _) = 1
full_at (releasing _) = 1
full_at emptied = 1
full_at eaten = 1
full_at _ = 0

abbrev pub bowls_at : Pc → ℕ
bowls_at bowl_locked = 1
bowls_at (bowl_chosen _) = 1
bowls_at (releasing _) = 1
bowls_at emptied = 1
bowls_at _ = 0

abbrev pub waiting_at : Pc → ℕ
waiting_at (waiting _) = 1
waiting_at _ = 0

abbrev pub counter_at : Pc → ℕ
counter_at counting = 1
counter_at (counted _) = 1
counter_at _ = 0

abbrev pub trained_at : Pc → ℕ
trained_at (counted _) = 1
trained_at (counted_out _) = 1
trained_at gone = 1
trained_at _ = 0

-- A monkey that is to go on has a bowl.
abbrev pub IsSound : Pc → Type 0
IsSound (bowl_chosen o) = (i : ℕ) × (o ≡ some i) × (i < 2)
IsSound (bowl_known o) = (i : ℕ) × (o ≡ some i) × (i < 2)
IsSound (waiting o) = (i : ℕ) × (o ≡ some i) × (i < 2)
IsSound (fed i) = i < 2
IsSound (releasing i) = i < 2
IsSound _ = Unit {0}

-- What it frees is used.
abbrev pub IsUsed : Shared → Pc → Type 0
IsUsed m (releasing i) = m.bowls_usage i ≡ 1
IsUsed m _ = Unit {0}

-- The rest of what a step of a monkey keeps.
pub record Kept (m : Shared) (p : Pc) (m' : Shared) (p' : Pc) : Type 0 where
  pub balls : m'.ball_checking + checking_at p' ≡ m.ball_checking + checking_at p
  pub room : m'.room + room_at p' ≡ m.room + room_at p
  pub full : m'.bowls_full + full_at p' ≡ m.bowls_full + full_at p
  pub bowls : m'.bowl_checking + bowls_at p' ≡ m.bowl_checking + bowls_at p
  pub counter : m'.counter_mutex + counter_at p' ≡ m.counter_mutex + counter_at p
  pub trained : m'.training_counter + trained_at p ≡ m.training_counter + trained_at p'
  pub bananas :
      m'.bowls_empty + m'.bowls_detail 0 + m'.bowls_detail 1 + waiting_at p
      ≡ m.bowls_empty + m.bowls_detail 0 + m.bowls_detail 1 + waiting_at p'
  pub fault : m'.fault ≡ m.fault
  pub identity : m'.identity ≡ m.identity

module _ {m : Shared} {x y : ℕ} where
  pub Move-ball :
      {p p' : Pc} {m' : Shared}
      → Move m x y p m' p'
      → x ≢ y
      → (b : ℕ) → m'.balls b + ball_at b x y p' ≡ m.balls b + ball_at b x y p
  Move-ball (pick_first h) ne b = ground arith
  Move-ball (reserve_second h) ne b = ground arith
  Move-ball mv ne b = ground arith

  pub Move-bowl :
      {p p' : Pc} {m' : Shared}
      → Move m x y p m' p'
      → IsSound p
      → IsUsed m p
      → (b : ℕ) → m'.bowls_usage b + bowl_at b p ≡ m.bowls_usage b + bowl_at b p'
  unfolding acquire_proper_bowl release_bowl
  Move-bowl choose_bowl s u b = ground arith
  Move-bowl free_bowl s u b = ground arith
  Move-bowl mv s u b = ground arith

  pub Move-Kept : {p p' : Pc} {m' : Shared} → Move m x y p m' p' → IsSound p → Kept m p m' p'
  Move-Kept enter s = ground arith
  Move-Kept (get_fed {i} h) s = ground arith
  Move-Kept overrun s = ground arith
  Move-Kept (lock_balls h) s = ground arith
  Move-Kept (try_full h) s = ground arith
  Move-Kept (lock_bowls h) s = ground arith
  Move-Kept (relock_bowls h) s = ground arith
  Move-Kept (lock_counter h) s = ground arith
  Move-Kept mv s = ground arith

-- What a monkey has read is still true.
abbrev pub IsFresh : Shared → (x y : ℕ) → Pc → Type 0
IsFresh m x y (read_first b1) = b1 ≤ m.balls x
IsFresh m x y (read_both b1 b2) = (b1 ≤ m.balls x) × (b2 ≤ m.balls y)
IsFresh m x y picking = (1 ≤ m.balls x) × (1 ≤ m.balls y)
IsFresh m x y picked = 1 ≤ m.balls y
IsFresh m x y (counted v) = v ≤ m.training_counter
IsFresh m x y (counted_out v) = v ≤ m.training_counter
IsFresh m x y _ = Unit {0}

module _ {m : Shared} {x y : ℕ} where
  -- Its own step.
  pub Move-IsFresh :
      {p p' : Pc} {m' : Shared} → Move m x y p m' p' → x ≢ y → IsFresh m x y p → IsFresh m' x y p'
  Move-IsFresh enter ne f = tt
  Move-IsFresh (both_free h k) ne f = ground arith
  Move-IsFresh (pick_first h) ne f = ground arith
  Move-IsFresh mv ne f = ground arith

  -- Balls are taken only under `ballCheckingMutex`.
  pub Move-grows :
      {p p' : Pc} {m' : Shared}
      → Move m x y p m' p'
      → (b : ℕ) → (checking_at p ≡ 1) ⊎ (m.balls b ≤ m'.balls b)
  Move-grows enter b = ground arith
  Move-grows mv b = ground arith

  pub Move-counter :
      {p p' : Pc} {m' : Shared} → Move m x y p m' p' → m.training_counter ≤ m'.training_counter
  Move-counter enter = ground arith
  Move-counter mv = ground arith

  pub Move-finished :
      {p p' : Pc} {m' : Shared}
      → Move m x y p m' p'
      → IsFresh m x y p
      → m'.finished ≡ true
      → (m.finished ≡ true) ⊎ (target_training ≤ m.training_counter)
  Move-finished enter f e = inl e
  Move-finished mv f e = ground arith

-- A fact that was read stays true when others move.
pub IsFresh-other :
    (m m' : Shared) (x y : ℕ) (p : Pc)
    → IsFresh m x y p
    → m.training_counter ≤ m'.training_counter
    → ((b : ℕ) → (checking_at p ≡ 0) ⊎ (m.balls b ≤ m'.balls b))
    → IsFresh m' x y p
IsFresh-other m m' x y p f c b = ground (arith, b x, b y)

pub Move-IsSound :
    {m : Shared} {x y : ℕ} {p p' : Pc} {m' : Shared}
    → Move m x y p m' p'
    → IsSound p
    → (p ≡ bowl_locked → (m.bowls_usage 0 ≡ 0) ⊎ (m.bowls_usage 1 ≡ 0))
    → IsSound p'
unfolding acquire_proper_bowl
Move-IsSound {m} choose_bowl s r = elim (Bool-cases (m.bowls_usage 0 == 0)) [
  | inl e ↦ (0, rw e refl, omega arith)
  | inr e ↦ (1, ground (arith, r refl, e), omega arith)
]
Move-IsSound (get_fed {i} h) (j, e, lt) r = ground (arith, e, lt)
Move-IsSound enter s r = tt
Move-IsSound mv s r = ground (arith, s)

pub Move-usage :
    {m : Shared} {x y : ℕ} {p p' : Pc} {m' : Shared}
    → Move m x y p m' p'
    → (b : ℕ) → m.bowls_usage b ≤ 1
    → m'.bowls_usage b ≤ 1
unfolding acquire_proper_bowl release_bowl
Move-usage choose_bowl b le = ground arith
Move-usage free_bowl b le = ground arith
Move-usage mv b le = ground arith
