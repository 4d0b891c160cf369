-- ===== src/ProCon/Inv.antt =====
-- The invariant of hw2/pro_con.c: what the semaphores count, and that every step keeps it.
use ee.Base.{ℕ, ◌+◌, ◌≤◌, ◌<◌, ◌≡◌, ◌≢◌, refl, false, arith, length, length-set, length-replicate}
use ee.Base.Update.{update, total, total-update, pair-le-total, weight-le-total, total-gap}
use ee.ProCon.{
  Shared, Pc, p_loop, p_made, p_reserved, p_inside, p_loaded, p_stored, p_unlocked, c_loop, c_taken,
  c_inside, c_loaded, c_removed, c_unlocked, Move, produce, wait_empty, p_lock, insert, wait_full,
  c_lock, insert_item, remove_item, threads, System, Step, pick, start, Reach, begin, next,
}

-- Between `sem_wait(&mutex)` and `sem_post(&mutex)`.
abbrev pub critical : Pc → ℕ
critical (p_inside _ _) = 1
critical (p_loaded _ _ _) = 1
critical (p_stored _) = 1
critical (c_inside _) = 1
critical (c_loaded _ _) = 1
critical (c_removed _ _) = 1
critical _ = 0

-- Between the first semaphore of a round and the last.
abbrev pub pending : Pc → ℕ
pending (p_loop _) = 0
pending (p_made _ _) = 0
pending (c_loop _) = 0
pending _ = 1

-- An item that is in the buffer and that `full` does not count.
abbrev pub filled : Pc → ℕ
filled (p_stored _) = 1
filled (p_unlocked _) = 1
filled (c_taken _) = 1
filled (c_inside _) = 1
filled (c_loaded _ _) = 1
filled _ = 0

-- How many items a thread has yet to insert, and to remove.
abbrev pub to_insert : Pc → ℕ
to_insert (p_loop k) = k
to_insert (p_made k _) = k + 1
to_insert (p_reserved k _) = k + 1
to_insert (p_inside k _) = k + 1
to_insert (p_loaded k _ _) = k + 1
to_insert (p_stored k) = k
to_insert (p_unlocked k) = k
to_insert _ = 0

abbrev pub to_remove : Pc → ℕ
to_remove (c_loop k) = k
to_remove (c_taken k) = k + 1
to_remove (c_inside k) = k + 1
to_remove (c_loaded k _) = k + 1
to_remove (c_removed k _) = k
to_remove (c_unlocked k _) = k
to_remove _ = 0

abbrev pub IsFresh : Shared → Pc → Type 0
IsFresh m (p_loaded _ _ c) = m.count ≡ c
IsFresh m (c_loaded _ c) = m.count ≡ c
IsFresh m _ = Unit

pub record Inv (m : Shared) (pc : ℕ → Pc) : Type 0 where
  pub alone : m.mutex + total critical threads pc ≡ 1
  pub slots : m.empty + m.full + total pending threads pc ≡ 100
  pub items : m.count ≡ m.full + total filled threads pc
  pub balance : m.count + total to_insert threads pc ≡ total to_remove threads pc
  pub cells : length m.buffer ≡ 100
  pub in_bounds : m.fault ≡ false
  pub fresh : (t : ℕ) → t < threads → IsFresh m (pc t)

pub filled-le-pending : (p : Pc) → filled p ≤ pending p
filled-le-pending p = ground arith

-- How the counts of `Inv` change when thread `t` goes from `p` to `p'`.
record Mover (pc : ℕ → Pc) (t : ℕ) (p p' : Pc) : Type 0 where
  at_p : pc t ≡ p
  criticals :
      total critical threads (update pc t p') + critical p ≡ total critical threads pc + critical p'
  pendings :
      total pending threads (update pc t p') + pending p ≡ total pending threads pc + pending p'
  filleds : total filled threads (update pc t p') + filled p ≡ total filled threads pc + filled p'
  inserts :
      total to_insert threads (update pc t p') + to_insert p
      ≡ total to_insert threads pc + to_insert p'
  removes :
      total to_remove threads (update pc t p') + to_remove p
      ≡ total to_remove threads pc + to_remove p'
  pending_in : pending p ≤ total pending threads pc
  filled_in : filled p ≤ total filled threads pc
  filled_pending : total filled threads pc + pending p ≤ total pending threads pc + filled p

mover : (pc : ℕ → Pc) (t : ℕ) (p' : Pc) → t < threads → Mover pc t (pc t) p'
mover pc t p' h = record {
  at_p = refl;
  criticals = total-update critical threads pc t p' h;
  pendings = total-update pending threads pc t p' h;
  filleds = total-update filled threads pc t p' h;
  inserts = total-update to_insert threads pc t p' h;
  removes = total-update to_remove threads pc t p' h;
  pending_in = weight-le-total pending threads pc t h;
  filled_in = weight-le-total filled threads pc t h;
  filled_pending = total-gap filled pending filled-le-pending threads pc t h;
}

module _ {m : Shared} {pc : ℕ → Pc} (inv : Inv m pc) (t : ℕ) where
  -- The counted fields, for each step.
  record Counts (m' : Shared) (pc' : ℕ → Pc) : Type 0 where
    alone : m'.mutex + total critical threads pc' ≡ 1
    slots : m'.empty + m'.full + total pending threads pc' ≡ 100
    items : m'.count ≡ m'.full + total filled threads pc'
    balance : m'.count + total to_insert threads pc' ≡ total to_remove threads pc'
    cells : length m'.buffer ≡ 100
    in_bounds : m'.fault ≡ false

  Move-Counts :
      {p p' : Pc} {m' : Shared}
      → Move m p m' p'
      → Mover pc t p p'
      → IsFresh m p
      → Counts m' (update pc t p')
  unfolding insert_item remove_item
  Move-Counts (produce r) f own = ground arith
  Move-Counts (insert {k} {v} {c}) f own = ground (arith, length-set m.buffer c v)
  Move-Counts (wait_empty h) f own = ground arith
  Move-Counts (p_lock h) f own = ground arith
  Move-Counts (wait_full h) f own = ground arith
  Move-Counts (c_lock h) f own = ground arith
  Move-Counts mv f own = ground arith

  -- Two threads are not inside together.
  apart : (u : ℕ) → t < threads → u < threads → t ≢ u → critical (pc t) + critical (pc u) ≤ 1
  apart u ht hu ne =
      omega (arith, inv.alone, pair-le-total critical threads pc t u (p_loop 0) refl ht hu ne)

  Move-IsFresh :
      {p p' : Pc} {m' : Shared}
      → Move m p m' p'
      → pc t ≡ p
      → t < threads
      → (u : ℕ) → u < threads
      → IsFresh m' (update pc t p' u)
  unfolding insert_item remove_item
  Move-IsFresh (produce r) e ht u hu = ground (arith, inv.fresh u hu)
  Move-IsFresh mv e ht u hu = ground (arith, inv.fresh u hu, apart u ht hu)

-- Every step keeps the invariant.
pub Step-Inv : {s s' : System} → Step s s' → Inv s.mem s.pc → Inv s'.mem s'.pc
Step-Inv {s} (pick t {m} {p} lt mv) inv = record {
  alone = alone;
  slots = slots;
  items = items;
  balance = balance;
  cells = cells;
  in_bounds = in_bounds;
  fresh = Move-IsFresh inv t mv refl lt;
}
  where
    open (Move-Counts inv t mv (mover s.pc t p lt) (inv.fresh t lt)) use {
      alone, slots, items, balance, cells, in_bounds,
    }

start-Inv : Inv start.mem start.pc
unfolding total
start-Inv = record {
  alone = refl;
  slots = refl;
  items = refl;
  balance = refl;
  cells = length-replicate {A = ℕ} 100 0;
  in_bounds = refl;
  fresh = λ t h. ground arith;
}

pub Reach-Inv : {s : System} → Reach s → Inv s.mem s.pc
Reach-Inv begin = start-Inv
Reach-Inv (next r st) = Step-Inv st (Reach-Inv r)
