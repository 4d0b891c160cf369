-- ===== src/Mysema/System/Safety.antt =====
-- The tasks that sleep on a semaphore of project3/mysemaphore.c, and its list of waiters.
use ee.Base.{
  ◌++◌, ==_refl, ℕ, ◌<◌, ◌≡◌, refl, true, false, some, List, [], ◌∷◌, arith, dec_lt, ℕ_discrete, ap,
  ◌∙◌,
}
use ee.Base.Int.{ℤ, pos}
use native.Mathlib.Bridge.{le_by_compare, IsLe}
use ee.Base.Update.{update}
use ee.Mysema.Calls.{
  Waiter, Semaphore, active, inactive, take, queued, check_init, check_release, write_field,
  Writing, setting_mode, setting_count, activating, init_list_head, deactivating, fifo,
}
use ee.Sorting.{IsListSort}
use ee.Mysema.System.{
  Status, target, entering, asleep, Kernel, Step, Steps, boot, put, call_init, call_release,
  write_on, sleep, here, later, here, later, waiter,
}
use ee.Mysema.System.Inv.{queue, occurs, IsSound, Inv}
use ee.Mysema.System.Preserve.{Step-Inv, asleep_of}

-- A semaphore with a waiter has no permit left and is active.
sound_waited :
    (s : Semaphore)
    → IsSound s
    → (t : ℕ) → occurs t (queue s) ≡ 1
    → (s.count ≡ 0) × (s.state ≡ active)
sound_waited s h t one = (
  elim (dec_lt 0 s.count) [ yes q ↦ absurd (none_waits (h.waits q)) | no q ↦ omega arith ],
  elim (ℕ_discrete s.state active) [ yes q ↦ q | no q ↦ absurd (none_waits (h.live q)) ],
)
  where
    none_waits : queue s ≡ [] → ⊥
    none_waits q = absurd (let z : occurs t [] ≡ 1 = rw q at one in omega (arith, z))

boot-Inv : Inv boot
boot-Inv = record {
  sound = λ i. record { waits = λ h. refl; live = λ h. refl; fresh = λ h g. refl };
  listed = λ t i. refl;
  opened = λ t i p e. cc;
  shut = λ i. record { empty = λ h. refl; begun = λ h. absurd (omega arith) };
}

module _ (sort : (Waiter → Waiter → ℤ) → List Waiter → List Waiter) (is : IsListSort sort) where
  Steps-Inv : {k l : Kernel} → Inv k → Steps sort true k l → Inv l
  Steps-Inv inv here = inv
  Steps-Inv inv (later r s) = Step-Inv sort is (Steps-Inv inv r) s

  -- After any calls of any tasks from the loaded module on, as long as no semaphore is deactivated while
  -- a task is between the tests and the lock of a down operation on it, and no task is put to sleep on a
  -- semaphore while another is in an `init` or `release` of it that has passed its tests: a task asleep on
  -- a semaphore stands in its list exactly once, and the semaphore is active and has no permit left.
  pub no_lost_wakeup :
      {k : Kernel}
      → Steps sort true boot k
      → (t i : ℕ) → k.status t ≡ asleep i
      → (occurs t (queue (k.sem_set i)) ≡ 1)
        × ((k.sem_set i).count ≡ 0)
        × ((k.sem_set i).state ≡ active)
  no_lost_wakeup {k} r t i e =
      let inv = Steps-Inv boot-Inv r in
      let one : occurs t (queue (k.sem_set i)) ≡ 1 = inv.listed t i ∙ rw e (ground arith) in
      let (ct, st) = sound_waited (k.sem_set i) (inv.sound i) t one in (one, ct, st)

  -- Under the same conditions, whoever stands in the list of a semaphore is asleep on it.
  queued_asleep :
      {k : Kernel}
      → Steps sort true boot k
      → (t i : ℕ) → 0 < occurs t (queue (k.sem_set i))
      → k.status t ≡ asleep i
  queued_asleep {k} r t i h =
      asleep_of i (k.status t) (omega (arith, (Steps-Inv boot-Inv r).listed t i))

check_release_empty :
    (i : ℕ) (s : Semaphore)
    → i < 10
    → s.state ≡ active
    → s.wait_list ≡ some []
    → check_release (pos i) s ≡ true
unfolding check_release
check_release_empty i s lt a q = ground arith

check_init-inactive :
    (i : ℕ) (s : Semaphore) → i < 10 → s.state ≡ inactive → check_init (pos i) (pos 1) s ≡ true
unfolding check_init
check_init-inactive i s lt a = ground arith

take_none :
    (w : Waiter) (s : Semaphore)
    → s.count ≡ 0
    → s.wait_list ≡ some []
    → take w s ≡ queued (record s { wait_list = some (w ∷ []) })
unfolding take
take_none w s c q = ground arith

update_self : {A : Type 0} (f : ℕ → A) (i : ℕ) (a : A) → update f i a i ≡ a
update_self f i a = ground arith

-- The first call in the list writes.
abbrev written : Kernel → Writing → List Writing → Kernel
written k c m = record k {
  sem_set = update k.sem_set (target c) (write_field c (k.sem_set (target c))).0;
  writing = (write_field c (k.sem_set (target c))).1 ++ m;
}

module _ (sort : (Waiter → Waiter → ℤ) → List Waiter → List Waiter) where
  writing_first :
      (k : Kernel) (c : Writing) (m : List Writing)
      → k.writing ≡ c ∷ m
      → Step sort false k (written k c m)
  writing_first k c m e = write_on [] m c e (λ f. cc)

  -- A whole call of `release` that passes its tests, alone.
  released :
      (k : Kernel) (i : ℕ)
      → check_release (pos i) (k.sem_set i) ≡ true
      → Steps sort false k
          (record k { sem_set = update k.sem_set i (record (k.sem_set i) { state = inactive }) })
  released k i e =
      let k₀ : Kernel = record k { writing = deactivating i ∷ k.writing } in
      later (later here (call_release i e)) (writing_first k₀ (deactivating i) k.writing refl)

  -- A whole call of `init` with one permit and FIFO mode, alone.
  initialised :
      (k : Kernel) (i : ℕ)
      → check_init (pos i) (pos 1) (k.sem_set i) ≡ true
      → (l : Kernel) × Steps sort false k l
        × (l.status ≡ k.status)
        × (l.sem_set i ≡ record { mode = fifo; count = 1; state = active; wait_list = some [] })
  unfolding IsLe
  initialised k i e =
      let k₀ : Kernel = record k { writing = setting_mode i (pos 1) fifo ∷ k.writing } in
      let k₁ = written k₀ (setting_mode i (pos 1) fifo) k.writing in
      let k₂ = written k₁ (setting_count i (pos 1)) k.writing in
      let k₃ = written k₂ (activating i) k.writing in
      (
        written k₃ (init_list_head i) k.writing,
        later
            (later
              (later
                (later (later here (call_init i (pos 1) fifo (le_by_compare _ _ tt) e))
                  (writing_first k₀ (setting_mode i (pos 1) fifo) k.writing refl))
                (writing_first k₁ (setting_count i (pos 1)) k.writing refl))
              (writing_first k₂ (activating i) k.writing refl))
            (writing_first k₃ (init_list_head i) k.writing refl),
        refl,
        rw (==_refl i) refl,
      )

  joined : {k l m : Kernel} → Steps sort false k l → Steps sort false l m → Steps sort false k m
  joined r here = r
  joined r (later s t) = later (joined r s) t

-- From any state in which a task has passed the tests of a down operation on an active semaphore
-- with no permit and no waiter, and anyone may release: there are steps after which that task is
-- asleep on the semaphore, stands nowhere in its list, and the semaphore has a permit.
pub lost_waiter :
    (sort : (Waiter → Waiter → ℤ) → List Waiter → List Waiter) (k : Kernel) (t i : ℕ) (p : ℤ)
    → i < 10
    → k.status t ≡ entering i p
    → (k.sem_set i).state ≡ active
    → (k.sem_set i).count ≡ 0
    → (k.sem_set i).wait_list ≡ some []
    → (l : Kernel) × Steps sort false k l
      × (l.status t ≡ asleep i)
      × (occurs t (queue (l.sem_set i)) ≡ 0)
      × ((l.sem_set i).count ≡ 1)
lost_waiter sort k t i p lt st a c q =
    let r : Semaphore = record (k.sem_set i) { state = inactive } in
    let s : Semaphore = record r { wait_list = some (waiter t p ∷ []) } in
    let k₁ : Kernel = record k { sem_set = update k.sem_set i r } in
    let k₂ : Kernel = put k₁ i s t (asleep i) in
    let asleep_step : Step sort false k₁ k₂ =
      sleep t i p s st (rw (update_self) (take_none (waiter t p) r c q)) (λ e. cc) in
    let inactive₂ : (k₂.sem_set i).state ≡ inactive =
      ap (λ (x : Semaphore). x.state) (update_self k₁.sem_set i s) in
    let (l, run, same, done) =
      initialised sort k₂ i (check_init-inactive i (k₂.sem_set i) lt inactive₂) in
    (
      l,
      joined sort
          (later (released sort k i (check_release_empty i (k.sem_set i) lt a q)) asleep_step) run,
      ap (λ (f : ℕ → Status). f t) same ∙ update_self k.status t (asleep i),
      rw done refl,
      rw done refl,
    )
