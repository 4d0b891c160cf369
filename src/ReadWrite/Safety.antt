-- ===== src/ReadWrite/Safety.antt =====
-- What holds in every state that the threads of hw2/read_write.c reach.
use ee.Base.{
  ℕ, ◌+◌, ◌≤◌, ◌<◌, ◌≡◌, ◌≢◌, refl, ap, sym, ◌∙◌, arith, ◌⊎◌, inl, inr, dec_lt, ℕ_discrete,
}
use ee.Base.Update.{
  total, pair-le-total, weight-le-total, member_of_total, total-le-total, total-gap,
}
use ee.ReadWrite.{
  Shared, Pc, r_loop, r_locked, r_got, r_counted, r_waiting, r_entered, r_reading, r_read,
  r_relocked, r_regot, r_discounted, r_posting, r_leaving, w_loop, w_inside, w_written, Move, lock,
  load, count, first, not_first, wait_db, unlock, read_db, relock, reload, discount, last, not_last,
  post_db, leave, write_db, w_post, threads, id_of, System, Step, pick, Reach,
}
use ee.ReadWrite.Inv.{
  critical, registered, opening, closing, writing, IsFresh, IsReader, Inv, Reach-Inv, opening-le,
  closing-le,
}

module _ {s : System} (inv : Inv s.mem s.pc) where
  -- The first reader is alone among the counted ones.
  opening_alone : 0 < total opening threads s.pc → s.mem.reader_num ≡ 1
  opening_alone h =
      let (t, lt, w) = member_of_total opening threads s.pc h in
      ground (arith, inv.fresh t lt, only (s.pc t))
    where
      only : (p : Pc) → 0 < opening p → IsFresh s.mem p → s.mem.reader_num ≡ 1
      only p h f = ground arith

  opening-le-one : total opening threads s.pc ≤ 1
  opening-le-one = omega (arith, inv.alone, total-le-total opening critical opening-le threads s.pc)

  writing-le-one : total writing threads s.pc ≤ 1
  writing-le-one = elim (dec_lt 0 (total opening threads s.pc)) [
    | yes h ↦ ground (arith, inv.owned, opening_alone h, opening-le-one)
    | no h ↦ omega (arith, inv.owned)
  ]

  -- While one thread reads and another has `db` for writing.
  no_both : (t u : ℕ) → t < threads → u < threads → s.pc t ≡ r_reading → writing (s.pc u) ≡ 1 → ⊥
  no_both t u ht hu rd wr =
      let reg = weight-le-total registered threads s.pc t ht in
      let wri = weight-le-total writing threads s.pc u hu in
      elim (dec_lt 0 (total opening threads s.pc)) [
        | yes h ↦
            let (v, hv, w) = member_of_total opening threads s.pc h in
            absurd (two v hv w (opening_alone h))
        | no h ↦ absurd (ground (arith, inv.owned, inv.counted))
      ]
    where
      opens : (p : Pc) → 0 < opening p → registered p ≡ 1
      opens p h = ground arith

      two : (v : ℕ) → v < threads → 0 < opening (s.pc v) → s.mem.reader_num ≡ 1 → ⊥
      two v hv w one =
          let ne : t ≢ v = λ e.
            let z : opening (s.pc v) ≡ 0 = ap (λ x. opening (s.pc x)) (sym e) ∙ ap opening rd in
            absurd (omega (arith, z)) in
          absurd (
            omega (
              arith,
              inv.counted,
              pair-le-total registered threads s.pc t v r_loop refl ht hv ne,
              opens (s.pc v) w,
              ap registered rd,
            ))

-- While a thread reads the byte, no thread is between `sem_wait(&db)` and `sem_post(&db)` of `writer`.
pub readers_exclude_writers :
    {s : System} (t u : ℕ)
    → Reach s
    → t < threads
    → u < threads
    → s.pc t ≡ r_reading
    → writing (s.pc u) ≡ 0
readers_exclude_writers {s} t u r ht hu rd = elim (ℕ_discrete (writing (s.pc u)) 1) [
  | yes w ↦ absurd (no_both (Reach-Inv r) t u ht hu rd w)
  | no n ↦ ground (arith, small (s.pc u))
]
  where
    small : (p : Pc) → writing p ≤ 1
    small p = ground arith

-- At most one thread is between `sem_wait(&db)` and `sem_post(&db)` of `writer`.
one_writer :
    {s : System} (t u : ℕ)
    → Reach s
    → t < threads
    → u < threads
    → writing (s.pc t) ≡ 1
    → writing (s.pc u) ≡ 1
    → t ≡ u
one_writer {s} t u r ht hu a b = elim (ℕ_discrete t u) [
  | yes e ↦ e
  | no ne ↦ absurd (
      omega (
        arith,
        writing-le-one (Reach-Inv r),
        pair-le-total writing threads s.pc t u w_loop refl ht hu ne,
      ))
]

abbrev Next : ℕ → Shared → Pc → Type 0
Next id m p = (m' : Shared) × (p' : Pc) × Move id m p m' p'

-- A thread inside the mutex can go on unless it waits for `db`.
inside_moves : (id : ℕ) (m : Shared) (p : Pc) → 0 < critical p → p ≢ r_waiting → Next id m p
inside_moves id m r_locked h n = (_, _, load)
inside_moves id m (r_got k) h n = (_, _, count)
inside_moves id m (r_counted k) h n = elim (ℕ_discrete m.reader_num 1) [
  | yes e ↦ (_, _, first e)
  | no e ↦ (_, _, not_first e)
]
inside_moves id m r_waiting h n = absurd (n refl)
inside_moves id m r_entered h n = (_, _, unlock)
inside_moves id m (r_relocked v) h n = (_, _, reload)
inside_moves id m (r_regot v k) h n = (_, _, discount)
inside_moves id m (r_discounted v k) h n = elim (ℕ_discrete m.reader_num 0) [
  | yes e ↦ (_, _, last e)
  | no e ↦ (_, _, not_last e)
]
inside_moves id m (r_posting v) h n = (_, _, post_db)
inside_moves id m (r_leaving v) h n = (_, _, leave)
inside_moves id m _ h n = absurd (omega arith)

outside_moves :
    (id : ℕ) (m : Shared) (p : Pc) → IsReader p → critical p ≡ 0 → 0 < m.mutex → Next id m p
outside_moves id m r_loop r h g = (_, _, lock g)
outside_moves id m r_reading r h g = (_, _, read_db)
outside_moves id m (r_read v) r h g = (_, _, relock g)
outside_moves id m w_loop r h g = absurd r
outside_moves id m w_inside r h g = absurd r
outside_moves id m w_written r h g = absurd r
outside_moves id m _ r h g = absurd (omega arith)

writer_moves : (id : ℕ) (m : Shared) (p : Pc) → 0 < writing p → Next id m p
writer_moves id m w_inside h = (_, _, write_db)
writer_moves id m w_written h = (_, _, w_post)
writer_moves id m _ h = absurd (omega arith)

is_waiting : (p : Pc) → (p ≡ r_waiting) ⊎ (p ≢ r_waiting)
is_waiting r_waiting = inl refl
is_waiting p = inr (λ e. cc)

module _ {s : System} (inv : Inv s.mem s.pc) where
  stepping : (t : ℕ) → t < threads → Next (id_of t) s.mem (s.pc t) → (s' : System) × Step s s'
  stepping t lt (m, p, mv) = (_, pick t lt mv)

  -- While the first reader waits for `db`, it is free or a writer has it.
  waiting_moves : (t : ℕ) → t < threads → s.pc t ≡ r_waiting → (s' : System) × Step s s'
  waiting_moves t lt e = elim (dec_lt 0 s.mem.db) [
    | yes h ↦ stepping t lt (rw e (_, _, wait_db h))
    | no h ↦
        let (u, hu, w) = member_of_total writing threads s.pc (omega (arith, held)) in
        stepping u hu (writer_moves (id_of u) s.mem (s.pc u) w)
  ]
    where
      first_in : opening (s.pc t) ≡ 1
      first_in = ap opening e

      held : 0 < s.mem.db + total writing threads s.pc
      held = ground (
        arith,
        inv.owned,
        inv.alone,
        first_in,
        ap critical e,
        ap closing e,
        weight-le-total opening threads s.pc t lt,
        total-gap closing critical closing-le threads s.pc t lt,
      )

-- No deadlock: in every state that is reached some thread can take a step.
pub readers_no_deadlock : {s : System} → Reach s → (s' : System) × Step s s'
readers_no_deadlock {s} r =
    let inv = Reach-Inv r in
    elim (dec_lt 0 (total critical threads s.pc)) [
      | yes h ↦
          let (t, lt, w) = member_of_total critical threads s.pc h in
          elim (is_waiting (s.pc t)) [
            | inl e ↦ waiting_moves inv t lt e
            | inr n ↦ stepping inv t lt (inside_moves (id_of t) s.mem (s.pc t) w n)
          ]
      | no h ↦ stepping inv 0 (omega arith) (
          outside_moves 1 s.mem (s.pc 0) inv.reader
            (omega (arith, weight-le-total critical threads s.pc 0 (omega arith)))
            (omega (arith, inv.alone)))
    ]
