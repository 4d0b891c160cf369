-- ===== src/Mysema/System/Ops.antt =====
-- What each system call of project3/mysemaphore.c leaves of a sound semaphore.
use mathlib.Core.List.{Perm, mem-cons_self, not-mem-nil}
use mathlib.Core.List.Perm
use ee.Base.{
  true, ℕ, ◌≡◌, ◌≢◌, refl, Option, none, some, List, [], ◌∷◌, ◌++◌, arith, inl, inr, Bool-cases,
  ◌∙◌,
}
use ee.Base.Int.{ℤ, eqb_ℤ}
use ee.Mysema.Calls.{
  Waiter, Semaphore, inactive, take, passed, queued, counted, woke, raise, raise_list, wake,
  wake_first, os_mode_cmp, user_mode_cmp, Writing, setting_mode, setting_count, activating,
  init_list_head, deactivating, write_field, os, user,
}
use ee.Sorting.{IsListSort}
use ee.Mysema.System.Inv.{is_last, IsBegun, queue, occurs, IsSound, occurs-perm}

-- What each operation on one sound semaphore leaves.
module _ (s : Semaphore) (h : IsSound s) where
  -- Each write of `init` and `release`, as long as nobody waits.
  pub write_field-IsSound :
      (c : Writing)
      → queue s ≡ []
      → (is_last c ≡ true → IsBegun s)
      → IsSound (write_field c s).0 × (queue (write_field c s).0 ≡ [])
  write_field-IsSound (setting_mode i start mode) q g =
      (record { waits = h.waits; live = h.live; fresh = h.fresh }, q)
  write_field-IsSound (setting_count i start) q g =
      (record { waits = λ _. q; live = h.live; fresh = h.fresh }, q)
  write_field-IsSound (activating i) q g =
      (record { waits = h.waits; live = λ _. q; fresh = λ e. absurd (e refl) }, q)
  write_field-IsSound (init_list_head i) q g = (
    record {
      waits = λ _. refl;
      live = λ _. refl;
      fresh = λ e e'. absurd (elim (g refl) [ inl a ↦ e a | inr a ↦ e' a ]);
    },
    refl,
  )
  write_field-IsSound (deactivating i) q g =
      (record { waits = h.waits; live = λ _. q; fresh = λ _ e. absurd (e refl) }, q)

  pub take_passed :
      (w : Waiter) (s' : Semaphore)
      → take w s ≡ passed s'
      → IsSound s' × (queue s' ≡ queue s) × (s'.state ≡ s.state)
  unfolding take
  take_passed w s' e = (
    record {
      waits = ground (arith, h.waits);
      live = ground (arith, h.live);
      fresh = ground (arith, h.fresh);
    },
    ground arith,
    ground arith,
  )

  pub take_queued :
      (w : Waiter) (s' : Semaphore)
      → s.state ≢ inactive
      → take w s ≡ queued s'
      → IsSound s' × (queue s' ≡ queue s ++ w ∷ []) × (s'.state ≡ s.state)
  unfolding take
  take_queued w s' o e = (
    record {
      waits = ground (arith, h.waits);
      live = ground (arith, h.live, h.fresh);
      fresh = ground (arith, h.fresh);
    },
    ground arith,
    ground arith,
  )

  module _ (sort : (Waiter → Waiter → ℤ) → List Waiter → List Waiter) (prio : ℕ → ℤ) where
    pub raise_counted :
        (s' : Semaphore)
        → raise sort prio s ≡ counted s'
        → IsSound s' × (queue s' ≡ queue s) × (s'.state ≡ s.state)
    unfolding raise wake
    raise_counted s' e = (
      record {
        waits = ground (arith, h.waits);
        live = ground (arith, h.live);
        fresh = ground (arith, h.fresh);
      },
      ground arith,
      ground arith,
    )

    -- Waking takes one waiter off the list, whichever the order.
    first_of :
        (l : List Waiter) (v : Waiter) (s' : Semaphore) (m : List Waiter)
        → Perm l m
        → wake_first s l ≡ woke v s'
        → ((t : ℕ) → occurs t m ≡ occurs t (v ∷ queue s'))
          × (s'.state ≡ s.state)
          × (s'.count ≡ s.count)
          × ((rest : List Waiter) × (s'.wait_list ≡ some rest))
    first_of [] v s' m p e = cc
    first_of (w ∷ ws) v s' m p e =
        (λ t. ground (arith, occurs-perm t p), ground arith, ground arith, (ws, ground arith))

    wake_from :
        IsListSort sort
        → (v : Waiter) (s' : Semaphore) (l : List Waiter) → wake sort prio s l ≡ woke v s'
        → (m : List Waiter) × Perm m l × (wake_first s m ≡ woke v s')
    unfolding wake
    wake_from is v s' l e = elim (Bool-cases (eqb_ℤ s.mode os)) [
      | inl a ↦ (sort (os_mode_cmp prio) l, is.perm _ l, rw a at e)
      | inr a ↦ elim (Bool-cases (eqb_ℤ s.mode user)) [
        | inl b ↦ (sort user_mode_cmp l, is.perm _ l, rw (a, b) at e)
        | inr b ↦ (l, Perm.refl l, ground arith)
      ]
    ]

    raise_from :
        IsListSort sort
        → (v : Waiter) (s' : Semaphore) → raise sort prio s ≡ woke v s'
        → (m : List Waiter) × Perm m (queue s) × (wake_first s m ≡ woke v s')
    unfolding raise
    raise_from is v s' e = go s.wait_list refl e
      where
        go :
            (o : Option (List Waiter))
            → s.wait_list ≡ o
            → raise_list sort prio s o ≡ woke v s'
            → (m : List Waiter) × Perm m (queue s) × (wake_first s m ≡ woke v s')
        go none q f = absurd (ground arith)
        go (some []) q f = absurd (ground arith)
        go (some (w ∷ ws)) q f = let (m, p, r) = wake_from is v s' (w ∷ ws) f in (m, rw q p, r)

    queue_nonempty :
        (m : List Waiter) (v : Waiter) (s' : Semaphore)
        → Perm m (queue s)
        → wake_first s m ≡ woke v s'
        → queue s ≢ []
    queue_nonempty m v s' p e q = go m (rw q at p) e
      where
        go : (n : List Waiter) → Perm n [] → wake_first s n ≡ woke v s' → ⊥
        go [] r f = cc
        go (x ∷ n) r f = not-mem-nil ((Perm.mem_iff r).0 mem-cons_self)

    pub raise_woke :
        IsListSort sort
        → (v : Waiter) (s' : Semaphore) → raise sort prio s ≡ woke v s'
        → IsSound s'
          × ((t : ℕ) → occurs t (queue s) ≡ occurs t (v ∷ queue s'))
          × (s'.state ≡ s.state)
    raise_woke is v s' e =
        let (m, p, r) = raise_from is v s' e in
        let ne = queue_nonempty m v s' p r in
        let (same, st, ct, rest) = first_of m v s' (queue s) p r in
        (
          record {
            waits = λ q. absurd (ne (h.waits (omega arith)));
            live = λ q. absurd (ne (h.live (λ x. q (st ∙ x))));
            fresh = λ q q'. absurd (ne (h.live (λ x. q (st ∙ x))));
          },
          same,
          st,
        )
