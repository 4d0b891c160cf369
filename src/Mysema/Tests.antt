-- ===== src/Mysema/Tests.antt =====
-- The semaphores of project3/mysemaphore.c on concrete calls.
use mathlib.Core.List.{Perm}
use ee.Base.{◌≡◌, refl, true, false, some, List, [], ◌∷◌, arith}
use ee.Base.Int.{ℤ, pos}
use ee.Base.Update.{update}
use ee.Mysema.Calls.{
  Waiter, Semaphore, zeroed, active, fifo, os, user, down, check, check_down, take, raise, wake,
  check_up, setting_mode, setting_count, activating, init_list_head, check_init, os_mode_cmp,
  user_mode_cmp,
}
use ee.Sorting.{IsAscending}
use ee.Sorting.Insertion.{insertion_sort, insertion_sort-IsListSort}
use ee.Mysema.Wake.{raise-os, Wakes, ups, ups-user, os-IsPreorder}
use ee.Mysema.System.{
  Kernel, entering, asleep, Steps, boot, here, later, call_init, call_down, sleep, waiter, write_on,
}
use ee.Mysema.System.Inv.{occurs, queue}
use ee.Mysema.System.Safety.{no_lost_wakeup, lost_waiter}

abbrev sort : (Waiter → Waiter → ℤ) → List Waiter → List Waiter
sort = insertion_sort

abbrev waiting : List Waiter
waiting = waiter 4 (pos 60) ∷ waiter 5 (pos 30) ∷ waiter 6 (pos 30) ∷ []

abbrev by_user : Semaphore
by_user = record { mode = user; count = 0; state = active; wait_list = some waiting }

abbrev by_os : Semaphore
by_os = record by_user { mode = os }

raise-os_example :
    Wakes
      (os_mode_cmp (λ t. pos t))
      (os-IsPreorder (λ t. pos t))
      by_os
      waiting
      (raise sort (λ t. pos t) by_os)
raise-os_example =
    raise-os sort insertion_sort-IsListSort (λ t. pos t) by_os (waiter 4 (pos 60))
      (waiter 5 (pos 30) ∷ waiter 6 (pos 30) ∷ []) refl refl

ups-user_example :
    Perm (ups sort (λ t. pos t) (pos 2) 3 by_user) waiting
    × IsAscending user_mode_cmp (ups sort (λ t. pos t) (pos 2) 3 by_user)
ups-user_example =
    ups-user sort insertion_sort-IsListSort (λ t. pos t) 2 3 by_user waiting (omega arith) refl refl
      refl refl

-- Of the two tasks with priority 30 the one that came first is woken first.
ups-by_user :
    ups sort (λ t. pos t) (pos 2) 3 by_user
    ≡ waiter 5 (pos 30) ∷ waiter 6 (pos 30) ∷ waiter 4 (pos 60) ∷ []
unfolding ups check_up raise wake user_mode_cmp insertion_sort
ups-by_user = refl

-- Semaphore 3 with no permit, one task asleep on it.
abbrev empty3 : Semaphore
empty3 = record { mode = fifo; count = 0; state = active; wait_list = some [] }

abbrev filled3 : Kernel
filled3 = record {
  sem_set =
      update
        (update
          (update (update boot.sem_set 3 (record zeroed { mode = fifo })) 3
            (record zeroed { mode = fifo; count = 0 }))
          3 (record zeroed { mode = fifo; count = 0; state = active }))
        3 empty3;
  status = boot.status;
  writing = [];
}

abbrev going3 : Kernel
going3 = record filled3 { status = update boot.status 7 (entering 3 (pos 0)) }

abbrev asleep3 : Kernel
asleep3 = record {
  sem_set = update filled3.sem_set 3 (record empty3 { wait_list = some (waiter 7 (pos 0) ∷ []) });
  status = update (update boot.status 7 (entering 3 (pos 0))) 7 (asleep 3);
  writing = [];
}

filled3-Steps : Steps sort true boot filled3
unfolding check_init
filled3-Steps =
    later
      (later
        (later
          (later (later here (call_init 3 (pos 0) fifo (omega arith) refl))
            (write_on [] [] (setting_mode 3 (pos 0) fifo) refl (λ e. tt)))
          (write_on [] [] (setting_count 3 (pos 0)) refl (λ e. tt)))
        (write_on [] [] (activating 3) refl (λ e. tt)))
      (write_on [] [] (init_list_head 3) refl (λ e. tt))

steps3 : Steps sort true boot asleep3
unfolding check check_down take
steps3 = later (later filled3-Steps (call_down 7 3 down (pos 0) (pos 0) refl refl)) (
    sleep 7 3 (pos 0) (record empty3 { wait_list = some (waiter 7 (pos 0) ∷ []) }) refl refl
      (λ e. refl))

no_lost_wakeup_example :
    (occurs 7 (queue (asleep3.sem_set 3)) ≡ 1)
    × ((asleep3.sem_set 3).count ≡ 0)
    × ((asleep3.sem_set 3).state ≡ active)
no_lost_wakeup_example = no_lost_wakeup sort insertion_sort-IsListSort steps3 7 3 refl

lost_waiter_example :
    (l : Kernel) × Steps sort false going3 l
    × (l.status 7 ≡ asleep 3)
    × (occurs 7 (queue (l.sem_set 3)) ≡ 0)
    × ((l.sem_set 3).count ≡ 1)
lost_waiter_example = lost_waiter sort going3 7 3 (pos 0) (omega arith) refl refl refl refl
