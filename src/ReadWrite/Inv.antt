-- ===== src/ReadWrite/Inv.antt =====
-- The invariant of hw2/read_write.c: who holds `db`, and that every step keeps it.
use ee.Base.{ℕ, ◌+◌, ◌≤◌, ◌<◌, ◌≡◌, ◌≢◌, refl, arith, ◌==◌, if◌then◌else◌}
use ee.Base.Update.{update, total, total-update, pair-le-total, weight-le-total, total-gap}
use ee.ReadWrite.{
  Shared, Pc, r_loop, r_locked, r_got, r_counted, r_waiting, r_entered, r_reading, r_read,
  r_relocked, r_regot, r_discounted, r_posting, r_leaving, w_loop, w_inside, w_written, Move, lock,
  first, not_first, wait_db, relock, last, not_last, w_wait, threads, System, Step, pick, start,
  Reach, begin, next,
}

-- Between `sem_wait(&mutex)` and `sem_post(&mutex)`.
abbrev pub critical : Pc → ℕ
critical r_locked = 1
critical (r_got _) = 1
critical (r_counted _) = 1
critical r_waiting = 1
critical r_entered = 1
critical (r_relocked _) = 1
critical (r_regot _ _) = 1
critical (r_discounted _ _) = 1
critical (r_posting _) = 1
critical (r_leaving _) = 1
critical _ = 0

-- A reader that `reader_num` counts.
abbrev pub registered : Pc → ℕ
registered (r_counted _) = 1
registered r_waiting = 1
registered r_entered = 1
registered r_reading = 1
registered (r_read _) = 1
registered (r_relocked _) = 1
registered (r_regot _ _) = 1
registered _ = 0

-- The first reader, before it has `db`.
abbrev pub opening : Pc → ℕ
opening (r_counted n) = if n == 1 then 1 else 0
opening r_waiting = 1
opening _ = 0

-- The last reader, before it gives `db` back.
abbrev pub closing : Pc → ℕ
closing (r_discounted _ n) = if n == 0 then 1 else 0
closing (r_posting _) = 1
closing _ = 0

-- A writer that has `db`.
abbrev pub writing : Pc → ℕ
writing w_inside = 1
writing w_written = 1
writing _ = 0

abbrev pub IsFresh : Shared → Pc → Type 0
IsFresh m (r_got n) = m.reader_num ≡ n
IsFresh m (r_counted n) = m.reader_num ≡ n
IsFresh m r_waiting = m.reader_num ≡ 1
IsFresh m (r_regot _ n) = m.reader_num ≡ n
IsFresh m (r_discounted _ n) = m.reader_num ≡ n
IsFresh m (r_posting _) = m.reader_num ≡ 0
IsFresh m _ = Unit

-- A thread that runs `reader`.
abbrev pub IsReader : Pc → Type 0
IsReader w_loop = ⊥
IsReader w_inside = ⊥
IsReader w_written = ⊥
IsReader _ = Unit

-- 1 while some reader is counted.
abbrev pub occupied : ℕ → ℕ
occupied n = if n == 0 then 0 else 1

pub record Inv (m : Shared) (pc : ℕ → Pc) : Type 0 where
  pub alone : m.mutex + total critical threads pc ≡ 1
  pub counted : m.reader_num ≡ total registered threads pc
  pub owned :
      m.db + total writing threads pc + occupied m.reader_num + total closing threads pc
      ≡ 1 + total opening threads pc
  pub fresh : (t : ℕ) → t < threads → IsFresh m (pc t)
  pub reader : IsReader (pc 0)

-- How the counts of `Inv` change when thread `t` goes from `p` to `p'`.
record Mover (pc : ℕ → Pc) (t : ℕ) (p p' : Pc) : Type 0 where
  at_p : pc t ≡ p
  criticals :
      total critical threads (update pc t p') + critical p ≡ total critical threads pc + critical p'
  registereds :
      total registered threads (update pc t p') + registered p
      ≡ total registered threads pc + registered p'
  openings :
      total opening threads (update pc t p') + opening p ≡ total opening threads pc + opening p'
  closings :
      total closing threads (update pc t p') + closing p ≡ total closing threads pc + closing p'
  writings :
      total writing threads (update pc t p') + writing p ≡ total writing threads pc + writing p'
  registered_in : registered p ≤ total registered threads pc
  critical_in : critical p ≤ total critical threads pc
  opening_gap : total opening threads pc + critical p ≤ total critical threads pc + opening p
  closing_gap : total closing threads pc + critical p ≤ total critical threads pc + closing p

pub opening-le : (p : Pc) → opening p ≤ critical p
opening-le p = ground arith

pub closing-le : (p : Pc) → closing p ≤ critical p
closing-le p = ground arith

mover : (pc : ℕ → Pc) (t : ℕ) (p' : Pc) → t < threads → Mover pc t (pc t) p'
mover pc t p' h = record {
  at_p = refl;
  criticals = total-update critical threads pc t p' h;
  registereds = total-update registered threads pc t p' h;
  openings = total-update opening threads pc t p' h;
  closings = total-update closing threads pc t p' h;
  writings = total-update writing threads pc t p' h;
  registered_in = weight-le-total registered threads pc t h;
  critical_in = weight-le-total critical threads pc t h;
  opening_gap = total-gap opening critical opening-le threads pc t h;
  closing_gap = total-gap closing critical closing-le threads pc t h;
}

-- The counted fields of `Inv`.
record Counts (m : Shared) (pc : ℕ → Pc) : Type 0 where
  alone : m.mutex + total critical threads pc ≡ 1
  counted : m.reader_num ≡ total registered threads pc
  owned :
      m.db + total writing threads pc + occupied m.reader_num + total closing threads pc
      ≡ 1 + total opening threads pc

module _ {m : Shared} {pc : ℕ → Pc} (inv : Inv m pc) (t : ℕ) where
  Move-Counts :
      {id : ℕ} {p p' : Pc} {m' : Shared}
      → Move id m p m' p'
      → Mover pc t p p'
      → IsFresh m p
      → Counts m' (update pc t p')
  Move-Counts (lock h) f own = ground arith
  Move-Counts (first e) f own = ground arith
  Move-Counts (not_first e) f own = ground arith
  Move-Counts (wait_db h) f own = ground arith
  Move-Counts (relock h) f own = ground arith
  Move-Counts (last e) f own = ground arith
  Move-Counts (not_last e) f own = ground arith
  Move-Counts (w_wait h) f own = ground arith
  Move-Counts mv f own = ground arith

  apart : (u : ℕ) → t < threads → u < threads → t ≢ u → critical (pc t) + critical (pc u) ≤ 1
  apart u ht hu ne =
      omega (arith, inv.alone, pair-le-total critical threads pc t u r_loop refl ht hu ne)

  Move-IsFresh :
      {id : ℕ} {p p' : Pc} {m' : Shared}
      → Move id m p m' p'
      → pc t ≡ p
      → t < threads
      → (u : ℕ) → u < threads
      → IsFresh m' (update pc t p' u)
  Move-IsFresh (first g) e ht u hu = ground (arith, inv.fresh t ht, inv.fresh u hu, apart u ht hu)
  Move-IsFresh (last g) e ht u hu = ground (arith, inv.fresh t ht, inv.fresh u hu, apart u ht hu)
  Move-IsFresh mv e ht u hu = ground (arith, inv.fresh t ht, inv.fresh u hu, apart u ht hu)

  Move-IsReader :
      {id : ℕ} {p p' : Pc} {m' : Shared}
      → Move id m p m' p'
      → pc t ≡ p
      → IsReader (update pc t p' 0)
  Move-IsReader (lock h) e = ground (arith, inv.reader)
  Move-IsReader mv e = ground (arith, inv.reader)

-- Every step keeps the invariant.
pub Step-Inv : {s s' : System} → Step s s' → Inv s.mem s.pc → Inv s'.mem s'.pc
Step-Inv {s} (pick t {m} {p} lt mv) inv = record {
  alone = alone;
  counted = counted;
  owned = owned;
  fresh = Move-IsFresh inv t mv refl lt;
  reader = Move-IsReader inv t mv refl;
}
  where
    open (Move-Counts inv t mv (mover s.pc t p lt) (inv.fresh t lt)) use {alone, counted, owned}

start-Inv : Inv start.mem start.pc
unfolding total
start-Inv = record {
  alone = refl;
  counted = refl;
  owned = refl;
  fresh = λ t h. ground arith;
  reader = tt;
}

pub Reach-Inv : {s : System} → Reach s → Inv s.mem s.pc
Reach-Inv begin = start-Inv
Reach-Inv (next r st) = Step-Inv st (Reach-Inv r)
