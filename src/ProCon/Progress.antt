-- ===== src/ProCon/Progress.antt =====
-- How the threads of hw2/pro_con.c get on: how many steps they have, and who can take one.
use ee.Base.{ℕ, zero, suc, ◌+◌, ◌*◌, ◌<◌, ◌≡◌, inl, inr, refl, arith, dec_lt}
use ee.Base.Update.{total, total-update, member_of_total, weight-le-total, total-le-total}
use ee.ProCon.{
  Shared, Pc, p_loop, p_made, p_reserved, p_inside, p_loaded, p_stored, p_unlocked, c_loop, c_taken,
  c_inside, c_loaded, c_removed, c_unlocked, Move, produce, wait_empty, p_lock, p_load, insert,
  p_unlock, post_full, wait_full, c_lock, c_load, remove, c_unlock, post_empty, threads, System,
  Step, pick, Reach, begin, next,
}
use ee.ProCon.Safety.{IsDone}
use ee.ProCon.Inv.{
  critical, pending, filled, to_insert, to_remove, Inv, Reach-Inv, filled-le-pending,
}

-- The steps that a thread has yet to take.
abbrev pub to_go : Pc → ℕ
to_go (p_loop k) = 7 * k
to_go (p_made k _) = 7 * k + 6
to_go (p_reserved k _) = 7 * k + 5
to_go (p_inside k _) = 7 * k + 4
to_go (p_loaded k _ _) = 7 * k + 3
to_go (p_stored k) = 7 * k + 2
to_go (p_unlocked k) = 7 * k + 1
to_go (c_loop k) = 6 * k
to_go (c_taken k) = 6 * k + 5
to_go (c_inside k) = 6 * k + 4
to_go (c_loaded k _) = 6 * k + 3
to_go (c_removed k _) = 6 * k + 2
to_go (c_unlocked k _) = 6 * k + 1

Move-to_go : {m m' : Shared} {p p' : Pc} → Move m p m' p' → to_go p ≡ to_go p' + 1
Move-to_go (produce r) = omega arith
Move-to_go mv = omega arith

pub length_of : {s : System} → Reach s → ℕ
length_of begin = 0
length_of (next r st) = length_of r + 1

-- However the threads are scheduled, the program is over after 2600 steps at most: the steps taken
-- and the steps that the threads have yet to take always make up 2600.
steps_total : {s : System} (r : Reach s) → length_of r + total to_go threads s.pc ≡ 2600
unfolding length_of
steps_total begin = unfold total in refl
steps_total (next {s} r (pick t {m} {p} lt mv)) =
    omega (arith, steps_total r, total-update to_go threads s.pc t p lt, Move-to_go mv)

-- A move that a thread can make.
abbrev Next : Shared → Pc → Type 0
Next m p = (m' : Shared) × (p' : Pc) × Move m p m' p'

inside_moves : (m : Shared) (p : Pc) → 0 < critical p → Next m p
inside_moves m (p_inside k v) h = (_, _, p_load)
inside_moves m (p_loaded k v c) h = (_, _, insert)
inside_moves m (p_stored k) h = (_, _, p_unlock)
inside_moves m (c_inside k) h = (_, _, c_load)
inside_moves m (c_loaded k c) h = (_, _, remove)
inside_moves m (c_removed k v) h = (_, _, c_unlock)
inside_moves m _ h = absurd (omega arith)

pending_moves : (m : Shared) (p : Pc) → 0 < m.mutex → 0 < pending p → Next m p
pending_moves m (p_reserved k v) g h = (_, _, p_lock g)
pending_moves m (p_unlocked k) g h = (_, _, post_full)
pending_moves m (c_taken k) g h = (_, _, c_lock g)
pending_moves m (c_unlocked k v) g h = (_, _, post_empty)
pending_moves m (p_loop k) g h = absurd (omega arith)
pending_moves m (p_made k v) g h = absurd (omega arith)
pending_moves m (c_loop k) g h = absurd (omega arith)
pending_moves m p g h = inside_moves m p (omega arith)

remove_moves : (m : Shared) (p : Pc) → 0 < m.mutex → 0 < m.full → 0 < to_remove p → Next m p
remove_moves m (c_loop zero) g f h = absurd (omega arith)
remove_moves m (c_loop (suc k)) g f h = (_, _, wait_full f)
remove_moves m (c_taken k) g f h = pending_moves m (c_taken k) g (omega arith)
remove_moves m (c_inside k) g f h = pending_moves m (c_inside k) g (omega arith)
remove_moves m (c_loaded k c) g f h = pending_moves m (c_loaded k c) g (omega arith)
remove_moves m (c_removed k c) g f h = pending_moves m (c_removed k c) g (omega arith)
remove_moves m (c_unlocked k c) g f h = pending_moves m (c_unlocked k c) g (omega arith)
remove_moves m _ g f h = absurd (omega arith)

insert_moves : (m : Shared) (p : Pc) → 0 < m.mutex → 0 < m.empty → 0 < to_insert p → Next m p
insert_moves m (p_loop zero) g f h = absurd (omega arith)
insert_moves m (p_loop (suc k)) g f h = (_, _, produce 0)
insert_moves m (p_made k v) g f h = (_, _, wait_empty f)
insert_moves m (p_reserved k v) g f h = pending_moves m (p_reserved k v) g (omega arith)
insert_moves m (p_inside k v) g f h = pending_moves m (p_inside k v) g (omega arith)
insert_moves m (p_loaded k v c) g f h = pending_moves m (p_loaded k v c) g (omega arith)
insert_moves m (p_stored k) g f h = pending_moves m (p_stored k) g (omega arith)
insert_moves m (p_unlocked k) g f h = pending_moves m (p_unlocked k) g (omega arith)
insert_moves m _ g f h = absurd (omega arith)

module _ (s : System) (inv : Inv s.mem s.pc) where
  stepping : (t : ℕ) → t < threads → Next s.mem (s.pc t) → (s' : System) × Step s s'
  stepping t lt (m, p, mv) = (_, pick t lt mv)

  -- With no thread inside and none in the middle of a round, one can begin or end a wait.
  at_rest :
      0 < s.mem.mutex
      → total pending threads s.pc ≡ 0
      → 0 < total to_insert threads s.pc + total to_remove threads s.pc
      → (s' : System) × Step s s'
  at_rest g z h =
      let low = total-le-total filled pending filled-le-pending threads s.pc in
      elim (dec_lt 0 s.mem.full) [
        | yes f ↦
            let (t, lt, w) =
              member_of_total to_remove threads s.pc
                (omega (arith, inv.items, inv.balance, inv.slots)) in
            stepping t lt (remove_moves s.mem (s.pc t) g f w)
        | no f ↦
            let (t, lt, w) =
              member_of_total to_insert threads s.pc
                (omega (arith, inv.items, inv.balance, inv.slots)) in
            stepping t lt (insert_moves s.mem (s.pc t) g (omega (arith, inv.slots)) w)
      ]

  unfinished :
      0 < total to_go threads s.pc
      → total pending threads s.pc ≡ 0
      → 0 < total to_insert threads s.pc + total to_remove threads s.pc
  unfinished h z =
      let (t, lt, w) = member_of_total to_go threads s.pc h in
      let a = weight-le-total to_insert threads s.pc t lt in
      let b = weight-le-total to_remove threads s.pc t lt in
      let c = weight-le-total pending threads s.pc t lt in ground (arith, left (s.pc t))
    where
      left : (p : Pc) → 0 < to_go p → 0 < to_insert p + to_remove p + pending p
      left p h = ground arith

-- No deadlock: in every state that is reached, as long as some thread has steps to take, some thread
-- can take one.
pub producers_no_deadlock :
    {s : System} → Reach s → 0 < total to_go threads s.pc → (s' : System) × Step s s'
producers_no_deadlock {s} r h =
    let inv = Reach-Inv r in
    elim (dec_lt 0 (total critical threads s.pc)) [
      | yes c ↦
          let (t, lt, w) = member_of_total critical threads s.pc c in
          stepping s inv t lt (inside_moves s.mem (s.pc t) w)
      | no c ↦
          let g : 0 < s.mem.mutex = omega (arith, inv.alone) in
          elim (dec_lt 0 (total pending threads s.pc)) [
            | yes q ↦
                let (t, lt, w) = member_of_total pending threads s.pc q in
                stepping s inv t lt (pending_moves s.mem (s.pc t) g w)
            | no q ↦ at_rest s inv g (omega arith) (unfinished s inv h (omega arith))
          ]
    ]

IsDone-to_go : (p : Pc) → to_go p ≡ 0 → IsDone p
IsDone-to_go (p_loop zero) h = inl refl
IsDone-to_go (c_loop zero) h = inr refl
IsDone-to_go p h = absurd (omega arith)

length_next : {s t : System} (r : Reach s) (st : Step s t) → length_of (next r st) ≡ length_of r + 1
unfolding length_of
length_next r st = refl

-- Some steps of the threads, one after the other.
pub data Steps : System → System → Type 0 where
  rest : {s : System} → Steps s s
  first : {s t u : System} → Step s t → Steps t u → Steps s u

complete :
    (n : ℕ) {s : System}
    → Reach s
    → total to_go threads s.pc ≡ n
    → (s' : System) × Steps s s' × (total to_go threads s'.pc ≡ 0)
complete zero {s} r e = (s, rest, e)
complete (suc n) {s} r e =
    let (s', st) = producers_no_deadlock r (omega arith) in
    let (s'', run, z) =
      complete n (next r st)
        (omega (arith, e, steps_total r, steps_total (next r st), length_next r st)) in
    (s'', first st run, z)

-- From every state that is reached the threads can go on, by steps from that very state, until all have
-- done their rounds.
pub finishes :
    {s : System} → Reach s → (s' : System) × Steps s s' × ((t : ℕ) → t < threads → IsDone (s'.pc t))
finishes {s} r =
    let (s', r', z) = complete (total to_go threads s.pc) r refl in
    (
      s',
      r',
      λ t lt. IsDone-to_go (s'.pc t) (omega (arith, z, weight-le-total to_go threads s'.pc t lt)),
    )
