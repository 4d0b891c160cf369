-- ===== src/Mysema/System/Inv.antt =====
-- What holds of the semaphores of project3/mysemaphore.c at every moment, if nobody releases a
-- semaphore while another task is between the tests and the lock of a down operation on it, and no task is
-- put to sleep on a semaphore while another is in its `init` or `release`.
use mathlib.Core.List.{Perm, Permᴰ}
use mathlib.Core.Logic.{∥∥₁_elim}
use native.Mathlib.Nat.{ℕ_set}
use ee.Base.{
  Bool, true, false, ◌&&◌, ◌⊎◌, ℕ, ◌+◌, ◌<◌, ◌≡◌, ◌≢◌, refl, none, some, List, [], ◌∷◌, ◌++◌, arith,
  ◌==◌, if◌then◌else◌, ap, ◌∙◌,
}
use ee.Base.Int.{ℤ}
use ee.Mysema.Calls.{
  Waiter, Semaphore, active, inactive, Writing, setting_mode, setting_count, activating,
  init_list_head, deactivating,
}
use ee.Mysema.System.{Status, running, entering, raising, asleep, woken, Kernel, writing_at, target}

-- The waiters of a semaphore; none while its list is zeroed.
abbrev pub queue : Semaphore → List Waiter
queue s = elim s.wait_list [ none ↦ [] | some ws ↦ ws ]

-- How many waiters belong to task `t`.
abbrev pub occurs : ℕ → List Waiter → ℕ
occurs t [] = 0
occurs t (w ∷ ws) = (if w.task == t then 1 else 0) + occurs t ws

abbrev pub asleep_at : ℕ → Status → ℕ
asleep_at i (asleep j) = if i == j then 1 else 0
asleep_at i running = 0
asleep_at i (entering _ _) = 0
asleep_at i (raising _) = 0
asleep_at i (woken _) = 0

-- No permit is left while a task waits; only an active semaphore has waiters; its list is zeroed
-- until the first `init`.
pub record IsSound (s : Semaphore) : Type 0 where
  pub waits : 0 < s.count → queue s ≡ []
  pub live : s.state ≢ active → queue s ≡ []
  pub fresh : s.state ≢ active → s.state ≢ inactive → s.wait_list ≡ none

-- Calls that are about to initialise the list.
abbrev pub is_last : Writing → Bool
is_last (setting_mode i start_value mode) = false
is_last (setting_count i start_value) = false
is_last (activating i) = false
is_last (init_list_head i) = true
is_last (deactivating i) = false

abbrev pub last_at : ℕ → List Writing → ℕ
last_at i [] = 0
last_at i (c ∷ l) = (if is_last c && (target c == i) then 1 else 0) + last_at i l

abbrev pub IsBegun : Semaphore → Type 0
IsBegun s = s.state ≡ active ⊎ s.state ≡ inactive

-- Nobody waits while there are calls of `init` or `release` that write, and one that is about to
-- initialise the list finds that `state` was written.
pub record IsShut (i : ℕ) (l : List Writing) (s : Semaphore) : Type 0 where
  pub empty : 0 < writing_at i l → queue s ≡ []
  pub begun : 0 < last_at i l → IsBegun s

writing_at-append :
    (i : ℕ) (l m : List Writing) → writing_at i (l ++ m) ≡ writing_at i l + writing_at i m
writing_at-append i [] m = omega arith
writing_at-append i (c ∷ l) m = omega (arith, writing_at-append i l m)

last_at-append : (i : ℕ) (l m : List Writing) → last_at i (l ++ m) ≡ last_at i l + last_at i m
last_at-append i [] m = omega arith
last_at-append i (c ∷ l) m = omega (arith, last_at-append i l m)

-- Calls that stand between others.
module _ (i : ℕ) (l r m : List Writing) where
  pub writing_at_lem :
      writing_at i (l ++ (r ++ m)) ≡ writing_at i l + (writing_at i r + writing_at i m)
  writing_at_lem = omega (arith, writing_at-append i l (r ++ m), writing_at-append i r m)

  pub last_at_lem : last_at i (l ++ (r ++ m)) ≡ last_at i l + (last_at i r + last_at i m)
  last_at_lem = omega (arith, last_at-append i l (r ++ m), last_at-append i r m)

-- The tasks asleep on a semaphore are exactly those of its waiters, once each, and there are none while
-- somebody is in its `init` or `release`.
pub record Inv (k : Kernel) : Type 0 where
  pub sound : (i : ℕ) → IsSound (k.sem_set i)
  pub listed : (t i : ℕ) → occurs t (queue (k.sem_set i)) ≡ asleep_at i (k.status t)
  pub opened : (t i : ℕ) (p : ℤ) → k.status t ≡ entering i p → (k.sem_set i).state ≢ inactive
  pub shut : (i : ℕ) → IsShut i k.writing (k.sem_set i)

pub occurs-append : (t : ℕ) (xs ys : List Waiter) → occurs t (xs ++ ys) ≡ occurs t xs + occurs t ys
occurs-append t [] ys = omega arith
occurs-append t (x ∷ xs) ys = omega (arith, occurs-append t xs ys)

occurs-permᴰ : (t : ℕ) {l m : List Waiter} → Permᴰ l m → occurs t l ≡ occurs t m
occurs-permᴰ t Permᴰ.nil = refl
occurs-permᴰ t (Permᴰ.cons e p) = ground (arith, ap (λ (w : Waiter). w.task) e, occurs-permᴰ t p)
occurs-permᴰ t (Permᴰ.swap e f) =
    ground (arith, ap (λ (w : Waiter). w.task) e, ap (λ (w : Waiter). w.task) f)
occurs-permᴰ t (Permᴰ.trans p q) = occurs-permᴰ t p ∙ occurs-permᴰ t q

pub occurs-perm : (t : ℕ) {l m : List Waiter} → Perm l m → occurs t l ≡ occurs t m
occurs-perm t p = ∥∥₁_elim p (ℕ_set _ _) (occurs-permᴰ t)
