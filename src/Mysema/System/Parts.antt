-- ===== src/Mysema/System/Parts.antt =====
-- The parts of the invariant of project3/mysemaphore.c after one step.
use ee.Base.{[], ℕ, ◌<◌, ◌≡◌, ◌≢◌, List, arith, ◌==◌, inl, inr, Bool-cases, sym, ◌∙◌}
use ee.Base.Int.{ℤ}
use ee.Base.Update.{update}
use ee.Mysema.Calls.{Semaphore, Writing, inactive}
use ee.Mysema.System.{Status, entering, Kernel, writing_at}
use ee.Mysema.System.Inv.{queue, occurs, asleep_at, IsSound, IsShut, Inv}

-- The parts of the invariant after a step that touches semaphore `i`, some tasks and some calls.
module _ {k : Kernel} (inv : Inv k) (i : ℕ) (s' : Semaphore) (st : ℕ → Status)
    (w : List Writing) where
  pub moved :
      IsSound s'
      → ((t : ℕ) → occurs t (queue s') ≡ asleep_at i (st t))
      → ((t j : ℕ) → i ≢ j → asleep_at j (st t) ≡ asleep_at j (k.status t))
      → ((t j : ℕ) (p : ℤ) → st t ≡ entering j p → (update k.sem_set i s' j).state ≢ inactive)
      → IsShut i w s'
      → ((j : ℕ) → i ≢ j → IsShut j w (k.sem_set j))
      → Inv (record { sem_set = update k.sem_set i s'; status = st; writing = w })
  moved sd ls others op sh sh' = record {
    sound = λ j. elim (Bool-cases (i == j)) [ inl e ↦ rw e sd | inr e ↦ rw e (inv.sound j) ];
    listed = λ t j. elim (Bool-cases (i == j)) [
      | inl e ↦ let q : i ≡ j = ground arith in rw (e, ← q) (ls t)
      | inr e ↦ rw e (inv.listed t j ∙ sym (others t j (ground arith)))
    ];
    opened = op;
    shut = λ j. elim (Bool-cases (i == j)) [
      | inl e ↦ let q : i ≡ j = ground arith in rw (e, ← q) sh
      | inr e ↦ rw e (sh' j (ground arith))
    ];
  }

-- Only the tasks change.
module _ {k : Kernel} (inv : Inv k) (st : ℕ → Status) where
  pub shifted :
      ((t j : ℕ) → asleep_at j (st t) ≡ asleep_at j (k.status t))
      → ((t j : ℕ) (p : ℤ) → st t ≡ entering j p → (k.sem_set j).state ≢ inactive)
      → Inv (record k { status = st })
  shifted others op = record {
    sound = inv.sound;
    listed = λ t j. inv.listed t j ∙ sym (others t j);
    opened = op;
    shut = inv.shut;
  }

-- A step under the lock keeps `state`.
pub still-IsShut :
    (i : ℕ) (l : List Writing) (s s' : Semaphore)
    → IsShut i l s
    → s'.state ≡ s.state
    → (0 < writing_at i l → queue s ≡ [] → queue s' ≡ [])
    → IsShut i l s'
still-IsShut i l s s' h e q = record { empty = λ g. q g (h.empty g); begun = λ g. rw e (h.begun g) }

pub kept :
    (sem : ℕ → Semaphore) (i : ℕ) (s' : Semaphore)
    → ((sem i).state ≢ inactive → s'.state ≢ inactive)
    → (j : ℕ) → (sem j).state ≢ inactive
    → (update sem i s' j).state ≢ inactive
kept sem i s' keep j h = elim (Bool-cases (i == j)) [
  | inl e ↦ let q : i ≡ j = ground arith in rw e (keep (rw (← q) at h))
  | inr e ↦ rw e h
]
