-- ===== src/Mysema/Wake.antt =====
-- What the system calls of project3/mysemaphore.c do to one semaphore: which calls are refused,
-- and which waiter an up operation wakes.
use mathlib.Core.List.{Perm, Mem, mem-cons_self, mem-cons_of_mem, not-mem-nil}
use mathlib.Core.List.Perm
use ee.Base.{
  ℕ, zero, suc, ◌+◌, ◌%◌, ◌^◌, ◌≤◌, ◌<◌, ◌≡◌, ◌≢◌, refl, true, false, not, ◌||◌, some, List, [],
  ◌∷◌, arith, ◌==◌, if◌then◌else◌, length,
}
use ee.Base.Perms.{length-perm}
use ee.Base.Int.{ℤ, pos, eqb_ℤ}
use ee.Mysema.Calls.{
  Waiter, Semaphore, Call, down, down_userprio, Checked, refused, locking, check, check_down,
  check_userprio, clamp_priority, valid_id, active, inactive, zeroed, check_up, fifo, os, user,
  max_priority, Taken, take, Raised, counted, woke, bad_mode, raise, wake, os_mode_cmp,
  user_mode_cmp, check_release,
}
use ee.Sorting.{
  IsListSort, IsFirst, IsPreorder, IsAscending, at_most, sorted-IsFirst, three_way-IsPreorder,
}

-- What a down call decides before it takes the lock.
abbrev pub verdict : Call → ℤ → ℤ → Semaphore → Checked
verdict c id junk s =
    if not (valid_id id) || (s.state == inactive)
    then refused
    else if eqb_ℤ s.mode user
    then locking (elim c [ down ↦ max_priority | down_userprio p ↦ clamp_priority p ])
    else if eqb_ℤ s.mode os || eqb_ℤ s.mode fifo
    then locking junk
    else locking (elim c [ down ↦ junk | down_userprio p ↦ clamp_priority p ])

-- The two down calls always come to a decision, after one call of one another at most: they refuse
-- an id outside 0 to 9 and an inactive semaphore; in USER mode the waiter gets the clamped priority
-- (100 for plain `down`), in the modes OS and FIFO it has none of its own.
check_lem :
    (fuel : ℕ) (c : Call) (id junk : ℤ) (s : Semaphore)
    → 2 ≤ fuel
    → check fuel c id junk s ≡ some (verdict c id junk s)
unfolding check check_down check_userprio
check_lem zero c id junk s h = absurd (omega arith)
check_lem (suc zero) c id junk s h = absurd (omega arith)
check_lem (suc (suc fuel)) down id junk s h = ground arith
check_lem (suc (suc fuel)) (down_userprio p) id junk s h = ground arith

-- A semaphore that was never initialized is neither ACTIVE nor INACTIVE: no down or up operation on
-- it is refused, each goes on to follow a null link of its wait list; `release` fails on it.
zeroed_oops :
    (sort : (Waiter → Waiter → ℤ) → List Waiter → List Waiter) (prio : ℕ → ℤ) (i : ℕ) (c : Call)
    (junk : ℤ) (w : Waiter)
    → i < 10
    → (check 2 c (pos i) junk zeroed ≢ some refused)
      × (take w zeroed ≡ Taken.oops)
      × (check_up (pos i) zeroed ≡ true)
      × (raise sort prio zeroed ≡ Raised.oops)
      × (check_release (pos i) zeroed ≡ false)
unfolding check check_down check_userprio take check_up raise check_release
zeroed_oops sort prio i down junk w h =
    (ground arith, ground arith, ground arith, ground arith, ground arith)
zeroed_oops sort prio i (down_userprio p) junk w h =
    (ground arith, ground arith, ground arith, ground arith, ground arith)

-- In the modes that have no order of their own, an up operation on a semaphore with no waiter adds a
-- permit (an `unsigned int` wraps); with waiters, in FIFO mode it wakes the one that has waited
-- longest, and in a mode that the code does not know it fails and the waiters stay asleep.
raise_unordered :
    (sort : (Waiter → Waiter → ℤ) → List Waiter → List Waiter) (prio : ℕ → ℤ) (s : Semaphore)
    (l : List Waiter)
    → s.wait_list ≡ some l
    → s.mode ≢ os
    → s.mode ≢ user
    → raise sort prio s ≡ (elim l [
      | [] ↦ counted (record s { count = (s.count + 1) % 2 ^ 32 })
      | w ∷ ws ↦ if eqb_ℤ s.mode fifo then woke w (record s { wait_list = some ws }) else bad_mode
    ])
unfolding raise wake
raise_unordered sort prio s [] h a b = ground arith
raise_unordered sort prio s (w ∷ ws) h a b = ground arith

-- An up operation that wakes the first waiter in the order of `cmp`; the others stay queued and
-- nothing else changes.
pub record Wakes (cmp : Waiter → Waiter → ℤ) (pre : IsPreorder cmp) (s : Semaphore)
    (l : List Waiter) (out : Raised) : Type 0 where
  pub woken : Waiter
  pub rest : List Waiter
  pub result : out ≡ woke woken (record s { wait_list = some rest })
  pub first : IsFirst cmp pre l woken rest

pub os-IsPreorder : (prio : ℕ → ℤ) → IsPreorder (os_mode_cmp prio)
unfolding os_mode_cmp
os-IsPreorder prio = three_way-IsPreorder (λ (w : Waiter). prio w.task)

pub user-IsPreorder : IsPreorder user_mode_cmp
unfolding user_mode_cmp
user-IsPreorder = three_way-IsPreorder (λ (w : Waiter). w.priority)

module _ (sort : (Waiter → Waiter → ℤ) → List Waiter → List Waiter) where
  -- The tasks that `n` calls of `mysema_up` in a row wake, in order. A call that returns -1 wakes none,
  -- and the loop goes on; after a null link that was followed nothing more is said.
  unfoldable pub ups : (ℕ → ℤ) → (id : ℤ) → ℕ → Semaphore → List Waiter
  ups prio id zero s = []
  ups prio id (suc n) s = elim (check_up id s) [
    | false ↦ ups prio id n s
    | true ↦ elim (raise sort prio s) [
      | counted s' ↦ ups prio id n s'
      | woke w s' ↦ w ∷ ups prio id n s'
      | bad_mode ↦ ups prio id n s
      | Raised.oops ↦ []
    ]
  ]

module _ (sort : (Waiter → Waiter → ℤ) → List Waiter → List Waiter) (is : IsListSort sort) where
  perm_ne_nil : (w : Waiter) (ws : List Waiter) → Perm [] (w ∷ ws) → ⊥
  perm_ne_nil w ws p = absurd (not-mem-nil ((Perm.mem_iff p).1 mem-cons_self))

  sorted_cons :
      (cmp : Waiter → Waiter → ℤ) (w : Waiter) (ws : List Waiter)
      → (v : Waiter) × (rest : List Waiter) × (sort cmp (w ∷ ws) ≡ v ∷ rest)
  sorted_cons cmp w ws = go (sort cmp (w ∷ ws)) refl
    where
      go :
          (l : List Waiter)
          → sort cmp (w ∷ ws) ≡ l
          → (v : Waiter) × (rest : List Waiter) × (sort cmp (w ∷ ws) ≡ v ∷ rest)
      go [] e = absurd (perm_ne_nil w ws (rw e at (is.perm cmp (w ∷ ws))))
      go (v ∷ rest) e = (v, rest, e)

  Wakes-sorted :
      (cmp : Waiter → Waiter → ℤ) (pre : IsPreorder cmp) (s : Semaphore) (w : Waiter)
      (ws : List Waiter) (out : Raised)
      → ((v : Waiter) (rest : List Waiter)
          → sort cmp (w ∷ ws) ≡ v ∷ rest
          → out ≡ woke v (record s { wait_list = some rest }))
      → Wakes cmp pre s (w ∷ ws) out
  Wakes-sorted cmp pre s w ws out step =
      let (v, rest, e) = sorted_cons cmp w ws in
      record {
        woken = v;
        rest = rest;
        result = step v rest e;
        first = sorted-IsFirst cmp pre sort is (w ∷ ws) v rest e;
      }

  -- In OS mode an up operation wakes a waiter whose task has the least priority number that the
  -- scheduler has then, among equals the one that has waited longest. All others stay queued.
  pub raise-os :
      (prio : ℕ → ℤ) (s : Semaphore) (w : Waiter) (ws : List Waiter)
      → s.wait_list ≡ some (w ∷ ws)
      → s.mode ≡ os
      → Wakes (os_mode_cmp prio) (os-IsPreorder prio) s (w ∷ ws) (raise sort prio s)
  unfolding raise wake
  raise-os prio s w ws h m =
      Wakes-sorted (os_mode_cmp prio) (os-IsPreorder prio) s w ws (raise sort prio s)
        (λ v rest e. rw (h, m, e) refl)

  -- In USER mode an up operation wakes a waiter with the least priority number that it was queued
  -- with, among equals the one that has waited longest. All others stay queued.
  pub raise-user :
      (prio : ℕ → ℤ) (s : Semaphore) (w : Waiter) (ws : List Waiter)
      → s.wait_list ≡ some (w ∷ ws)
      → s.mode ≡ user
      → Wakes user_mode_cmp user-IsPreorder s (w ∷ ws) (raise sort prio s)
  unfolding raise wake
  raise-user prio s w ws h m =
      Wakes-sorted user_mode_cmp user-IsPreorder s w ws (raise sort prio s)
        (λ v rest e. rw (h, m, e) refl)

  IsAscending-cons :
      (cmp : Waiter → Waiter → ℤ) (v : Waiter) (l : List Waiter)
      → ((y : Waiter) → Mem y l → at_most cmp v y ≡ true)
      → IsAscending cmp l
      → IsAscending cmp (v ∷ l)
  IsAscending-cons cmp v [] h a = tt
  IsAscending-cons cmp v (x ∷ l) h a = (h x mem-cons_self, a)

  check_up-active : (i : ℕ) (s : Semaphore) → i < 10 → s.state ≡ active → check_up (pos i) s ≡ true
  unfolding check_up
  check_up-active i s lt a = ground arith

  -- On an active USER semaphore with a valid id and `n` waiters, `n` calls of `mysema_up` wake all of
  -- them, in the order of their priority numbers.
  pub ups-user :
      (prio : ℕ → ℤ) (i n : ℕ) (s : Semaphore) (ws : List Waiter)
      → i < 10
      → s.state ≡ active
      → s.mode ≡ user
      → s.wait_list ≡ some ws
      → length ws ≡ n
      → Perm (ups sort prio (pos i) n s) ws × IsAscending user_mode_cmp (ups sort prio (pos i) n s)
  unfolding ups
  ups-user prio i zero s [] lt a m h e = (Perm.refl _, tt)
  ups-user prio i zero s (w ∷ ws) lt a m h e = absurd (omega arith)
  ups-user prio i (suc n) s [] lt a m h e = absurd (omega arith)
  ups-user prio i (suc n) s (w ∷ ws) lt a m h e =
      let k = raise-user prio s w ws h m in
      let s' : Semaphore = record s { wait_list = some k.rest } in
      let ih = ups-user prio i n s' k.rest lt a m refl (omega (arith, length-perm k.first.perm)) in
      rw (check_up-active i s lt a, k.result, ups)
        (
          Perm.trans (Perm.cons k.woken ih.0) k.first.perm,
          IsAscending-cons user_mode_cmp k.woken (ups sort prio (pos i) n s')
              (λ y in_rest. k.first.least y (
                (Perm.mem_iff k.first.perm).0
                  (mem-cons_of_mem k.woken ((Perm.mem_iff ih.0).0 in_rest))))
              ih.1,
        )
