-- ===== src/ProCon/Safety.antt =====
-- What holds in every state that the threads of hw2/pro_con.c reach.
use ee.Base.{ℕ, ◌≤◌, ◌<◌, ◌≡◌, refl, false, arith, length, ◌⊎◌, inl, inr, ℕ_discrete}
use ee.Base.Update.{pair-le-total, total-eq-zero, total-le-total}
use ee.ProCon.{Pc, p_loop, c_loop, threads, System, Reach}
use ee.ProCon.Inv.{critical, pending, filled, to_insert, to_remove, Reach-Inv, filled-le-pending}

-- At most one thread is between `sem_wait(&mutex)` and `sem_post(&mutex)`.
pub mutual_exclusion :
    {s : System} (t u : ℕ)
    → Reach s
    → t < threads
    → u < threads
    → critical (s.pc t) ≡ 1
    → critical (s.pc u) ≡ 1
    → t ≡ u
mutual_exclusion {s} t u r ht hu ct cu = elim (ℕ_discrete t u) [
  | yes e ↦ e
  | no ne ↦ absurd (
      omega (
        arith,
        (Reach-Inv r).alone,
        pair-le-total critical threads s.pc t u (p_loop 0) refl ht hu ne,
      ))
]

-- No thread ever reads or writes outside the 100 cells of `buffer`, and `count` never exceeds them.
pub buffer_in_bounds :
    {s : System}
    → Reach s
    → (s.mem.fault ≡ false) × (length s.mem.buffer ≡ 100) × (s.mem.count ≤ 100)
buffer_in_bounds {s} r =
    let inv = Reach-Inv r in
    (
      inv.in_bounds,
      inv.cells,
      omega (
        arith,
        inv.items,
        inv.slots,
        total-le-total filled pending filled-le-pending threads s.pc,
      ),
    )

-- The thread has done its 100 rounds.
abbrev pub IsDone : Pc → Type 0
IsDone p = (p ≡ p_loop 0) ⊎ (p ≡ c_loop 0)

-- When all threads have finished, `count` is zero, as the line that prints it expects, and the
-- semaphores have their first values again.
final_count :
    {s : System}
    → Reach s
    → ((t : ℕ) → t < threads → IsDone (s.pc t))
    → (s.mem.count ≡ 0) × (s.mem.mutex ≡ 1) × (s.mem.empty ≡ 100) × (s.mem.full ≡ 0)
final_count {s} r done =
    let inv = Reach-Inv r in
    let c = total-eq-zero critical threads s.pc (λ t h. idle critical t h refl refl) in
    let p = total-eq-zero pending threads s.pc (λ t h. idle pending t h refl refl) in
    let f = total-eq-zero filled threads s.pc (λ t h. idle filled t h refl refl) in
    let i = total-eq-zero to_insert threads s.pc (λ t h. idle to_insert t h refl refl) in
    let o = total-eq-zero to_remove threads s.pc (λ t h. idle to_remove t h refl refl) in
    omega (arith, inv.alone, inv.slots, inv.items, inv.balance)
  where
    idle : (w : Pc → ℕ) (t : ℕ) → t < threads → w (p_loop 0) ≡ 0 → w (c_loop 0) ≡ 0 → w (s.pc t) ≡ 0
    idle w t h a b = elim (done t h) [ inl e ↦ rw e a | inr e ↦ rw e b ]
