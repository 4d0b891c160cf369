-- ===== src/Mysema/System/Writes.antt =====
-- The tests and the writes of `init` and `release` of project3/mysemaphore.c keep the invariant.
use ee.Base.{
  ap, ◌+◌, ◌++◌, ◌∷◌, [], false, ==_refl, ℕ, ◌<◌, ◌≡◌, ◌≢◌, refl, true, List, arith, ◌==◌, inl, inr,
  Bool-cases, sym, ◌∙◌,
}
use ee.Base.Int.{ℤ, pos}
use ee.Base.Update.{update}
use ee.Mysema.Calls.{
  Semaphore, Writing, setting_mode, setting_count, activating, init_list_head, deactivating,
  write_field, check_init, check_release, inactive, active,
}
use ee.Mysema.System.{entering, Kernel, target, writing_at, IsOrderly}
use ee.Mysema.System.Inv.{
  queue, occurs, IsSound, IsBegun, is_last, last_at, last_at_lem, writing_at_lem, Inv,
}
use ee.Mysema.System.Ops.{write_field-IsSound}
use ee.Mysema.System.Parts.{moved, kept}

-- What the tests of `init` and of `release` found.
pub not_active :
    (i : ℕ) (start : ℤ) (s : Semaphore) → check_init (pos i) start s ≡ true → s.state ≢ active
unfolding check_init
not_active i start s e = ground arith

pub no_waiter : (i : ℕ) (s : Semaphore) → check_release (pos i) s ≡ true → queue s ≡ []
unfolding check_release
no_waiter i s e = ground arith

module _ {k : Kernel} (inv : Inv k) where
  -- A call of `init` or `release` has passed its tests on a semaphore without waiters.
  pub begin-Inv :
      (c : Writing)
      → queue (k.sem_set (target c)) ≡ []
      → is_last c ≡ false
      → Inv (record k { writing = c ∷ k.writing })
  begin-Inv c q f = record {
    sound = inv.sound;
    listed = inv.listed;
    opened = inv.opened;
    shut = λ j. record {
      empty = λ h. elim (Bool-cases (target c == j)) [
        | inl e ↦ let g : target c ≡ j = ground arith in rw (← g) q
        | inr e ↦ (inv.shut j).empty (let h' = rw e at h in omega (arith, h'))
      ];
      begun = λ h. (inv.shut j).begun (let h' = rw f at h in omega (arith, h'));
    };
  }

  writing_tail :
      (c : Writing) (s : Semaphore) (j : ℕ)
      → target c ≢ j
      → (writing_at j (write_field c s).1 ≡ 0) × (last_at j (write_field c s).1 ≡ 0)
  writing_tail (setting_mode i start mode) s j ne = (ground arith, refl)
  writing_tail (setting_count i start) s j ne = (ground arith, refl)
  writing_tail (activating i) s j ne = (ground arith, ground arith)
  writing_tail (init_list_head i) s j ne = (refl, refl)
  writing_tail (deactivating i) s j ne = (refl, refl)

  write_field-IsBegun :
      (c : Writing) (s : Semaphore) (a b : ℕ)
      → (0 < a + (last_at (target c) (c ∷ []) + b) → IsBegun s)
      → 0 < a + (last_at (target c) (write_field c s).1 + b)
      → IsBegun (write_field c s).0
  write_field-IsBegun (setting_mode i start mode) s a b g h = g h
  write_field-IsBegun (setting_count i start) s a b g h = g h
  write_field-IsBegun (activating i) s a b g h = inl refl
  write_field-IsBegun (init_list_head i) s a b g h = g (rw (==_refl i) (omega arith))
  write_field-IsBegun (deactivating i) s a b g h = inr refl

  write_field_opened :
      (c : Writing)
      → IsOrderly k c
      → (t j : ℕ) (p : ℤ) → k.status t ≡ entering j p
      → (update k.sem_set (target c) (write_field c (k.sem_set (target c))).0 j).state ≢ inactive
  write_field_opened (setting_mode i start mode) o t j p e =
      kept k.sem_set i _ (λ h. h) j (inv.opened t j p e)
  write_field_opened (setting_count i start) o t j p e =
      kept k.sem_set i _ (λ h. h) j (inv.opened t j p e)
  write_field_opened (activating i) o t j p e =
      kept k.sem_set i _ (λ h e. absurd (omega (arith, e))) j (inv.opened t j p e)
  write_field_opened (init_list_head i) o t j p e =
      kept k.sem_set i _ (λ h. h) j (inv.opened t j p e)
  write_field_opened (deactivating i) o t j p e = elim (Bool-cases (i == j)) [
    | inl q ↦ absurd (o t p (let q' : i ≡ j = ground arith in rw q' e))
    | inr q ↦ rw q (inv.opened t j p e)
  ]

  pub write_field-Inv :
      (l m : List Writing) (c : Writing)
      → k.writing ≡ l ++ c ∷ m
      → IsOrderly k c
      → Inv (record k {
        sem_set = update k.sem_set (target c) (write_field c (k.sem_set (target c))).0;
        writing = l ++ ((write_field c (k.sem_set (target c))).1 ++ m);
      })
  write_field-Inv l m c e o =
      moved inv i (write_field c s).0 k.status w done.0
        (λ t. ap (occurs t) (done.1 ∙ sym idle) ∙ inv.listed t i) (λ t j ne. refl)
        (write_field_opened c o)
        (record {
          empty = λ h. done.1;
          begun = λ h.
              write_field-IsBegun c s (last_at i l) (last_at i m)
                (λ g. (inv.shut i).begun (rw (lasts i) g))
                (rw (last_at_lem i l (write_field c s).1 m) at h);
        })
        (λ j ne.
          let (a, b) = writing_tail c s j ne in
          record {
            empty = λ h.
                (inv.shut j).empty
                  (omega (arith, h, writings j, writing_at_lem j l (write_field c s).1 m, a));
            begun = λ h.
                (inv.shut j).begun
                  (omega (arith, h, lasts j, last_at_lem j l (write_field c s).1 m, b));
          })
    where
      i : ℕ
      i = target c

      s : Semaphore
      s = k.sem_set i

      w : List Writing
      w = l ++ ((write_field c s).1 ++ m)

      writings :
          (j : ℕ)
          → writing_at j k.writing ≡ writing_at j l + (writing_at j (c ∷ []) + writing_at j m)
      writings j = rw e (writing_at_lem j l (c ∷ []) m)

      lasts : (j : ℕ) → last_at j k.writing ≡ last_at j l + (last_at j (c ∷ []) + last_at j m)
      lasts j = rw e (last_at_lem j l (c ∷ []) m)

      idle : queue s ≡ []
      idle = (inv.shut i).empty (rw (writings i, ==_refl (target c)) (omega arith))

      begun : is_last c ≡ true → IsBegun s
      begun f = (inv.shut i).begun (rw (lasts i, f, ==_refl (target c)) (omega arith))

      done : IsSound (write_field c s).0 × (queue (write_field c s).0 ≡ [])
      done = write_field-IsSound s (inv.sound i) c idle begun
