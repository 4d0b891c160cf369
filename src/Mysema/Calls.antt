-- ===== src/Mysema/Calls.antt =====
-- The system calls of project3/mysemaphore.c on the semaphore that they name.
-- A call of `down`, `down_userprio` or `up` first tests its arguments without the lock (`check`,
-- `check_up`) and then works on the semaphore under its spin lock (`take`, `raise`). `init` and
-- `release` have tests (`check_init`, `check_release`) and writes (`write_field`), and never take the
-- lock. `list_sort` and the priorities of tasks are the kernel's.
use ee.Base.{
  ℕ, zero, suc, ◌+◌, ◌-◌, ◌%◌, ◌^◌, Bool, true, false, not, ◌&&◌, ◌||◌, Option, none, some, List,
  [], ◌∷◌, ◌++◌, ltb, ◌==◌, if◌then◌else◌,
}
use ee.Base.Int.{three_way, ℤ, pos, pos_part, ltb_ℤ, leb_ℤ, eqb_ℤ}

-- The modes; `mode` is an `int` that `init` stores unchecked.
abbrev pub fifo : ℤ
fifo = pos 0

abbrev pub os : ℤ
os = pos 1

abbrev pub user : ℤ
user = pos 2

abbrev pub max_semaphore : ℕ
max_semaphore = 10

abbrev pub max_priority : ℤ
max_priority = pos 100

abbrev pub active : ℕ
active = 0x10

abbrev pub inactive : ℕ
inactive = 0x11

-- `struct mysemaphore_waiter`: it lives on the stack of its task. Its `up` is the state of that task.
pub record Waiter : Type 0 where
  pub task : ℕ
  pub priority : ℤ

-- `struct mysemaphore`. `wait_list` is `none` while its links are the zeroes of static storage.
pub record Semaphore : Type 0 where
  pub mode : ℤ
  pub count : ℕ
  pub state : ℕ
  pub wait_list : Option (List Waiter)

-- An element of `sem_set` before any call.
abbrev pub zeroed : Semaphore
zeroed = record { mode = pos 0; count = 0; state = 0; wait_list = none }

-- `!(0 > sema_id || sema_id >= MAX_SEMAPHORE)`
abbrev pub valid_id : ℤ → Bool
valid_id id = not (ltb_ℤ id (pos 0) || leb_ℤ (pos max_semaphore) id)

-- `list_empty`: the zeroed head does not point to itself.
abbrev pub list_empty : Option (List Waiter) → Bool
list_empty none = false
list_empty (some []) = true
list_empty (some (w ∷ ws)) = false

-- The tests of `init` and of `release`.
unfoldable pub check_init : ℤ → ℤ → Semaphore → Bool
check_init id start_value s =
    valid_id id && not (s.state == active) && not (ltb_ℤ start_value (pos 0))

unfoldable pub check_release : ℤ → Semaphore → Bool
check_release id s = valid_id id && not (s.state == inactive) && list_empty s.wait_list

-- What a call of `init` or `release` on semaphore `i` is about to write, without the lock.
pub data Writing : Type 0 where
  setting_mode : (i : ℕ) (start_value mode : ℤ) → Writing
  setting_count : (i : ℕ) (start_value : ℤ) → Writing
  activating : (i : ℕ) → Writing
  init_list_head : (i : ℕ) → Writing
  deactivating : (i : ℕ) → Writing

-- One write, with what the call writes next.
abbrev pub write_field : Writing → Semaphore → Semaphore × List Writing
write_field (setting_mode i start_value mode) s =
    (record s { mode = mode }, setting_count i start_value ∷ [])
write_field (setting_count i start_value) s =
    (record s { count = pos_part start_value }, activating i ∷ [])
write_field (activating i) s = (record s { state = active }, init_list_head i ∷ [])
write_field (init_list_head i) s = (record s { wait_list = some [] }, [])
write_field (deactivating i) s = (record s { state = inactive }, [])

-- The two entry points of the down operation, which call each other by the mode.
pub data Call : Type 0 where
  down : Call
  down_userprio : ℤ → Call

-- The tests before the lock: refused with -1, or go on with this priority in the waiter.
pub data Checked : Type 0 where
  refused : Checked
  locking : ℤ → Checked

abbrev pub clamp_priority : ℤ → ℤ
clamp_priority p =
    if ltb_ℤ p (pos 0) then pos 0 else if ltb_ℤ max_priority p then max_priority else p

-- `again` stands for the call of the other entry point. `down` leaves the priority of its waiter
-- unset: `junk` is what the stack holds there.
unfoldable pub check_down : (Call → Option Checked) → ℤ → ℤ → Semaphore → Option Checked
check_down again id junk s =
    if not (valid_id id)
    then some refused
    else if s.state == inactive
    then some refused
    else if eqb_ℤ s.mode user
    then again (down_userprio max_priority)
    else some (locking junk)

unfoldable pub check_userprio : (Call → Option Checked) → ℤ → ℤ → Semaphore → Option Checked
check_userprio again id priority s =
    if not (valid_id id)
    then some refused
    else if s.state == inactive
    then some refused
    else if eqb_ℤ s.mode os || eqb_ℤ s.mode fifo
    then again down
    else some (locking (clamp_priority priority))

-- The recursion of the two entry points, with fuel; `none` is out of fuel.
unfoldable pub check : ℕ → Call → ℤ → ℤ → Semaphore → Option Checked
check zero c id junk s = none
check (suc fuel) down id junk s = check_down (λ c. check fuel c id junk s) id junk s
check (suc fuel) (down_userprio p) id junk s = check_userprio (λ c. check fuel c id junk s) id p s

-- The down operation under the lock: the count was taken, or the waiter was queued and its task
-- goes to sleep; `list_add_tail` on a zeroed head writes through a null pointer.
pub data Taken : Type 0 where
  passed : Semaphore → Taken
  queued : Semaphore → Taken
  oops : Taken

-- `list_add_tail`
abbrev pub enqueue : Waiter → Semaphore → Option (List Waiter) → Taken
enqueue w s none = oops
enqueue w s (some ws) = queued (record s { wait_list = some (ws ++ w ∷ []) })

unfoldable pub take : Waiter → Semaphore → Taken
take w s =
    if ltb 0 s.count then passed (record s { count = s.count - 1 }) else enqueue w s s.wait_list

-- `OS_mode_cmp`, given the priorities that the scheduler has for the tasks, and `USER_mode_cmp`.
unfoldable pub os_mode_cmp : (ℕ → ℤ) → Waiter → Waiter → ℤ
os_mode_cmp prio a b = three_way (prio a.task) (prio b.task)

unfoldable pub user_mode_cmp : Waiter → Waiter → ℤ
user_mode_cmp a b = three_way a.priority b.priority

-- The tests of `up` before the lock.
unfoldable pub check_up : ℤ → Semaphore → Bool
check_up id s = valid_id id && not (s.state == inactive)

-- The up operation under the lock: the count went up, a waiter was taken off the list and is woken,
-- the mode is unknown (-1), or a link of a zeroed head was followed.
pub data Raised : Type 0 where
  counted : Semaphore → Raised
  woke : Waiter → Semaphore → Raised
  bad_mode : Raised
  oops : Raised

-- `list_first_entry` and `list_del`
abbrev pub wake_first : Semaphore → List Waiter → Raised
wake_first s [] = Raised.oops
wake_first s (w ∷ ws) = woke w (record s { wait_list = some ws })

module _ (list_sort : (Waiter → Waiter → ℤ) → List Waiter → List Waiter) where
  -- The branches on the mode.
  unfoldable pub wake : (ℕ → ℤ) → Semaphore → List Waiter → Raised
  wake prio s ws =
      if eqb_ℤ s.mode os
      then wake_first s (list_sort (os_mode_cmp prio) ws)
      else if eqb_ℤ s.mode user
      then wake_first s (list_sort user_mode_cmp ws)
      else if eqb_ℤ s.mode fifo
      then wake_first s ws
      else bad_mode

  abbrev pub raise_list : (ℕ → ℤ) → Semaphore → Option (List Waiter) → Raised
  raise_list prio s none =
      if eqb_ℤ s.mode os || eqb_ℤ s.mode user || eqb_ℤ s.mode fifo then Raised.oops else bad_mode
  raise_list prio s (some []) = counted (record s { count = (s.count + 1) % 2 ^ 32 })
  raise_list prio s (some (w ∷ ws)) = wake prio s (w ∷ ws)

  unfoldable pub raise : (ℕ → ℤ) → Semaphore → Raised
  raise prio s = raise_list prio s s.wait_list
