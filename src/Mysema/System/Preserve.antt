-- ===== src/Mysema/System/Preserve.antt =====
-- Every step of the tasks keeps the invariant of project3/mysemaphore.c.
use ee.Base.{
  ==_refl, ℕ, ◌<◌, ◌≡◌, ◌≢◌, refl, true, some, List, arith, ◌==◌, inl, inr, Bool-cases, sym, ◌∙◌,
}
use ee.Base.Int.{ℤ, pos}
use ee.Base.Update.{update}
use ee.Mysema.Calls.{
  Waiter, Semaphore, setting_mode, deactivating, inactive, take, queued, woke, check_down,
  check_userprio, down, down_userprio, raise, check, locking, Call,
}
use ee.Sorting.{IsListSort}
use ee.Mysema.System.{
  Status, running, entering, raising, asleep, woken, Kernel, Step, put, call_init, call_release,
  call_down, pass, sleep, call_up, count_up, wake_up, fail_up, resume, write_on, writing_at, waiter,
}
use ee.Mysema.System.Inv.{queue, asleep_at, IsSound, Inv, occurs-append}
use ee.Mysema.System.Ops.{take_passed, take_queued, raise_counted, raise_woke}
use ee.Mysema.System.Parts.{moved, shifted, still-IsShut, kept}
use ee.Mysema.System.Writes.{not_active, no_waiter, begin-Inv, write_field-Inv}

-- One task moves on, and takes no part in any list before or after.
off_list :
    (f : ℕ → Status) (u : ℕ) (st : Status)
    → ((j : ℕ) → asleep_at j (f u) ≡ 0)
    → ((j : ℕ) → asleep_at j st ≡ 0)
    → (t j : ℕ) → asleep_at j (update f u st t) ≡ asleep_at j (f t)
off_list f u st a b t j = elim (Bool-cases (u == t)) [
  | inl e ↦ let q : u ≡ t = ground arith in rw (e, ← q) (b j ∙ sym (a j))
  | inr e ↦ rw e refl
]

pub asleep_of : (i : ℕ) (st : Status) → 0 < asleep_at i st → st ≡ asleep i
asleep_of i running h = absurd (omega arith)
asleep_of i (entering j p) h = absurd (omega arith)
asleep_of i (raising j) h = absurd (omega arith)
asleep_of i (woken j) h = absurd (omega arith)
asleep_of i (asleep j) h = ground arith

-- A down call that is let through found its semaphore not inactive.
check_opened :
    (c : Call) (i : ℕ) (junk p : ℤ) (s : Semaphore)
    → check 2 c (pos i) junk s ≡ some (locking p)
    → s.state ≢ inactive
unfolding check check_down check_userprio
check_opened down i junk p s e = ground arith
check_opened (down_userprio q) i junk p s e = ground arith

module _ (sort : (Waiter → Waiter → ℤ) → List Waiter → List Waiter) (is : IsListSort sort)
    {k : Kernel} (inv : Inv k) where
  -- A task goes on to a place outside the lists; nothing else changes.
  step-Inv :
      (u : ℕ) (st : Status)
      → ((j : ℕ) → asleep_at j (k.status u) ≡ 0)
      → ((j : ℕ) → asleep_at j st ≡ 0)
      → ((j : ℕ) (p : ℤ) → st ≡ entering j p → (k.sem_set j).state ≢ inactive)
      → Inv (record k { status = update k.status u st })
  step-Inv u st a b op = shifted inv (update k.status u st) (off_list k.status u st a b) (λ t j p e.
      elim (Bool-cases (u == t)) [
        | inl q ↦ op j p (rw q at e)
        | inr q ↦ inv.opened t j p (rw q at e)
      ])

  -- The same, with a new state of semaphore `i` that has the same waiters.
  lock-Inv :
      (i u : ℕ) (s' : Semaphore) (st : Status)
      → IsSound s'
      → queue s' ≡ queue (k.sem_set i)
      → s'.state ≡ (k.sem_set i).state
      → ((j : ℕ) → asleep_at j (k.status u) ≡ 0)
      → ((j : ℕ) → asleep_at j st ≡ 0)
      → ((j : ℕ) (p : ℤ) → st ≢ entering j p)
      → Inv (put k i s' u st)
  lock-Inv i u s' st sd same state a b op =
      moved inv i s' (update k.status u st) k.writing sd
        (λ t. rw same (inv.listed t i ∙ sym (off_list k.status u st a b t i)))
        (λ t j ne. off_list k.status u st a b t j)
        (λ t j p e. elim (Bool-cases (u == t)) [
          | inl q ↦ absurd (op j p (rw q at e))
          | inr q ↦ kept k.sem_set i s' (λ h x. h (sym state ∙ x)) j (inv.opened t j p (rw q at e))
        ])
        (still-IsShut i k.writing (k.sem_set i) s' (inv.shut i) state (λ h q. same ∙ q))
        (λ j ne. inv.shut j)

  sleep-Inv :
      (t i : ℕ) (p : ℤ) (s' : Semaphore)
      → k.status t ≡ entering i p
      → take (waiter t p) (k.sem_set i) ≡ queued s'
      → writing_at i k.writing ≡ 0
      → Inv (put k i s' t (asleep i))
  sleep-Inv t i p s' here e settled =
      let (sd, same, state) =
        take_queued (k.sem_set i) (inv.sound i) (waiter t p) s' (inv.opened t i p here) e in
      moved inv i s' (update k.status t (asleep i)) k.writing sd
        (λ u. rw (same, occurs-append) (ground (arith, inv.listed u i))) (λ u j ne. ground arith)
        (λ u j q f.
          kept k.sem_set i s' (λ h x. h (sym state ∙ x)) j (inv.opened u j q (ground arith)))
        (still-IsShut i k.writing (k.sem_set i) s' (inv.shut i) state (λ h q. absurd (omega arith)))
        (λ j ne. inv.shut j)

  wake-Inv :
      (t i : ℕ) (prio : ℕ → ℤ) (w : Waiter) (s' : Semaphore)
      → k.status t ≡ raising i
      → raise sort prio (k.sem_set i) ≡ woke w s'
      → Inv (record k {
        sem_set = update k.sem_set i s';
        status = update (update k.status t running) w.task (woken i);
      })
  wake-Inv t i prio w s' here e =
      let (sd, same, state) = raise_woke (k.sem_set i) (inv.sound i) sort prio is w s' e in
      let sleeper =
        asleep_of i (k.status w.task) (ground (arith, same w.task, inv.listed w.task i)) in
      moved inv i s' (update (update k.status t running) w.task (woken i)) k.writing sd
        (λ u. ground (arith, same u, inv.listed u i)) (λ u j ne. ground arith)
        (λ u j q f.
          kept k.sem_set i s' (λ h x. h (sym state ∙ x)) j (inv.opened u j q (ground arith)))
        (still-IsShut i k.writing (k.sem_set i) s' (inv.shut i) state (λ h q.
          absurd
            (let z = same w.task in let z' = rw (q, ==_refl w.task) at z in omega (arith, z'))))
        (λ j ne. inv.shut j)

  -- Every step under the discipline keeps the invariant.
  pub Step-Inv : {l : Kernel} → Step sort true k l → Inv l
  Step-Inv (call_init i start mode h e) =
      begin-Inv inv (setting_mode i start mode)
        ((inv.sound i).live (not_active i start (k.sem_set i) e)) refl
  Step-Inv (call_release i e) = begin-Inv inv (deactivating i) (no_waiter i (k.sem_set i) e) refl
  Step-Inv (write_on l m c e o) = write_field-Inv inv l m c e (o refl)
  Step-Inv (call_down t i c junk p here e) =
      step-Inv t (entering i p) (λ j. rw here refl) (λ j. refl)
        (λ j q f.
          let g : i ≡ j = ground arith in rw (← g) (check_opened c i junk p (k.sem_set i) e))
  Step-Inv (pass t i p s' here e) =
      let (sd, same, state) = take_passed (k.sem_set i) (inv.sound i) (waiter t p) s' e in
      lock-Inv i t s' running sd same state (λ j. rw here refl) (λ j. refl) (λ j q. cc)
  Step-Inv (sleep t i p s' here e f) = sleep-Inv t i p s' here e (f refl)
  Step-Inv (call_up t i here e) =
      step-Inv t (raising i) (λ j. rw here refl) (λ j. refl) (λ j q f. cc)
  Step-Inv (count_up t i prio s' here e) =
      let (sd, same, state) = raise_counted (k.sem_set i) (inv.sound i) sort prio s' e in
      lock-Inv i t s' running sd same state (λ j. rw here refl) (λ j. refl) (λ j q. cc)
  Step-Inv (wake_up t i prio w s' here e) = wake-Inv t i prio w s' here e
  Step-Inv (fail_up t i prio here e) =
      step-Inv t running (λ j. rw here refl) (λ j. refl) (λ j q f. cc)
  Step-Inv (resume t i here) = step-Inv t running (λ j. rw here refl) (λ j. refl) (λ j q f. cc)
