-- ===== src/Mysema/System.antt =====
-- Many tasks that call the semaphores of project3/mysemaphore.c, in any order. A call of `down`,
-- `down_userprio` or `up` is two steps, since another task may run between the tests of the
-- arguments and the spin lock; a task that is queued sleeps until a waker sets its `up`. The loop
-- `for (;;)` around the sleep makes a wake-up for any other reason no step at all. A call that is
-- refused, with an id that is no index or otherwise, changes nothing and is no step either. Any task
-- that is in no other call may be in `init` or `release`: their tests are a step, and so is each write.
pub mod Inv
pub mod Ops
pub mod Parts
pub mod Preserve
pub mod Safety
pub mod Writes
use ee.Base.{
  ◌+◌, ◌==◌, if◌then◌else◌, ◌∷◌, ◌++◌, ℕ, ◌<◌, ◌^◌, ◌≡◌, Bool, true, Option, none, some, List, [],
  arith, zero, suc,
}
use ee.Base.Int.{ℤ, pos, pos_part}
use ee.Base.Update.{update}
use ee.Mysema.Calls.{
  Waiter, Semaphore, zeroed, Call, locking, check, Taken, passed, queued, take, Raised, counted,
  woke, bad_mode, raise, check_up, Writing, setting_mode, setting_count, activating, init_list_head,
  deactivating, check_init, check_release, write_field,
}

-- Where a task stands: outside the calls, between the tests and the lock of a down operation (with
-- the priority for its waiter) or of an up operation, asleep in `schedule_timeout`, or woken.
pub data Status : Type 0 where
  running : Status
  entering : (i : ℕ) → ℤ → Status
  raising : (i : ℕ) → Status
  asleep : (i : ℕ) → Status
  woken : (i : ℕ) → Status

-- `writing` has the calls of `init` and `release` that have passed their tests.
pub record Kernel : Type 0 where
  pub sem_set : ℕ → Semaphore
  pub status : ℕ → Status
  pub writing : List Writing

abbrev pub waiter : ℕ → ℤ → Waiter
waiter t p = record { task = t; priority = p }

-- The semaphore of a call.
abbrev pub target : Writing → ℕ
target (setting_mode i start_value mode) = i
target (setting_count i start_value) = i
target (activating i) = i
target (init_list_head i) = i
target (deactivating i) = i

-- How many of some calls are on semaphore `i`.
abbrev pub writing_at : ℕ → List Writing → ℕ
writing_at i [] = 0
writing_at i (c ∷ l) = (if target c == i then 1 else 0) + writing_at i l

-- No task is between the tests and the lock of a down operation on semaphore `i`.
abbrev pub IsQuiet : Kernel → ℕ → Type 0
IsQuiet k i = (t : ℕ) (p : ℤ) → k.status t ≡ entering i p → ⊥

-- Semaphore `i` becomes `s`, task `t` comes to stand at `st`.
abbrev pub put : Kernel → ℕ → Semaphore → ℕ → Status → Kernel
put k i s t st = record k { sem_set = update k.sem_set i s; status = update k.status t st }

-- Nobody deactivates a semaphore that another task is just going down on.
abbrev pub IsOrderly : Kernel → Writing → Type 0
IsOrderly k (deactivating i) = IsQuiet k i
IsOrderly k (setting_mode i start_value mode) = Unit
IsOrderly k (setting_count i start_value) = Unit
IsOrderly k (activating i) = Unit
IsOrderly k (init_list_head i) = Unit

-- With `strict ≡ true` a semaphore is deactivated only if no task is between the tests and the lock of a
-- down operation on it, and a task is put to sleep on it only if nobody is in its `init` or `release`.
module _ (list_sort : (Waiter → Waiter → ℤ) → List Waiter → List Waiter) (strict : Bool) where
  pub data Step (k : Kernel) : Kernel → Type 0 where
    call_init :
        (i : ℕ) (start mode : ℤ)
        → pos_part start < 2 ^ 31
        → check_init (pos i) start (k.sem_set i) ≡ true
        → Step k (record k { writing = setting_mode i start mode ∷ k.writing })
    call_release :
        (i : ℕ)
        → check_release (pos i) (k.sem_set i) ≡ true
        → Step k (record k { writing = deactivating i ∷ k.writing })
    write_on :
        (l m : List Writing) (c : Writing)
        → k.writing ≡ l ++ c ∷ m
        → (strict ≡ true → IsOrderly k c)
        → Step k (record k {
          sem_set = update k.sem_set (target c) (write_field c (k.sem_set (target c))).0;
          writing = l ++ ((write_field c (k.sem_set (target c))).1 ++ m);
        })
    call_down :
        (t i : ℕ) (c : Call) (junk p : ℤ)
        → k.status t ≡ running
        → check 2 c (pos i) junk (k.sem_set i) ≡ some (locking p)
        → Step k (record k { status = update k.status t (entering i p) })
    pass :
        (t i : ℕ) (p : ℤ) (s : Semaphore)
        → k.status t ≡ entering i p
        → take (waiter t p) (k.sem_set i) ≡ passed s
        → Step k (put k i s t running)
    sleep :
        (t i : ℕ) (p : ℤ) (s : Semaphore)
        → k.status t ≡ entering i p
        → take (waiter t p) (k.sem_set i) ≡ queued s
        → (strict ≡ true → writing_at i k.writing ≡ 0)
        → Step k (put k i s t (asleep i))
    call_up :
        (t i : ℕ)
        → k.status t ≡ running
        → check_up (pos i) (k.sem_set i) ≡ true
        → Step k (record k { status = update k.status t (raising i) })
    count_up :
        (t i : ℕ) (prio : ℕ → ℤ) (s : Semaphore)
        → k.status t ≡ raising i
        → raise list_sort prio (k.sem_set i) ≡ counted s
        → Step k (put k i s t running)
    wake_up :
        (t i : ℕ) (prio : ℕ → ℤ) (w : Waiter) (s : Semaphore)
        → k.status t ≡ raising i
        → raise list_sort prio (k.sem_set i) ≡ woke w s
        → Step k (record k {
          sem_set = update k.sem_set i s;
          status = update (update k.status t running) w.task (woken i);
        })
    fail_up :
        (t i : ℕ) (prio : ℕ → ℤ)
        → k.status t ≡ raising i
        → raise list_sort prio (k.sem_set i) ≡ bad_mode
        → Step k (record k { status = update k.status t running })
    resume :
        (t i : ℕ) → k.status t ≡ woken i → Step k (record k { status = update k.status t running })

  pub data Steps (k : Kernel) : Kernel → Type 0 where
    here : Steps k k
    later : {l m : Kernel} → Steps k l → Step l m → Steps k m

-- The module just loaded.
abbrev pub boot : Kernel
boot = record { sem_set = λ _. zeroed; status = λ _. running; writing = [] }
