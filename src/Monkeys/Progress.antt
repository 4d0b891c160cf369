-- ===== src/Monkeys/Progress.antt =====
-- That the threads of project3/task1_training_monkeys.c never all wait for each other.
use mathlib.Core.Path.{subst}
use ee.Base.{ℕ, ℕ_discrete, ◌<◌, ◌≡◌, inl, inr, refl, sym, [], ◌∷◌, arith}
use ee.Base.Update.{member_of_total}
use ee.Monkeys.{
  Shared, Pc, new_monkey, inside_the_room, checking, locked, read_first, read_both, picking, picked,
  reserved, giving_up, takes_first_ball, takes_second_ball, released_first, outside_the_room,
  counting, counted, Monkey, Move, enter, check, lock_balls, get_first, get_second, both_free,
  not_free, give_up, pick_first, reserve_second, unlock_balls, think_first, release_first,
  release_second, leave_room, modify_counter, unlock_counter, get_nano_time_random_number, MainPc,
  main_loop, spawning, chosen, numbering, numbered, named, MainMove, wait_room, choose_balls,
  lock_identity, modify_identity, unlock_identity, System, Step, monkey, main, create, Reach,
}
use ee.Monkeys.{
  Shared, Pc, new_monkey, inside_the_room, checking, locked, read_first, read_both, picking, picked,
  reserved, giving_up, takes_first_ball, takes_second_ball, released_first, outside_the_room,
  counting, counted, Monkey, Move, enter, check, lock_balls, get_first, get_second, both_free,
  not_free, give_up, pick_first, reserve_second, unlock_balls, think_first, release_first,
  release_second, leave_room, modify_counter, unlock_counter, get_nano_time_random_number, MainPc,
  main_loop, spawning, chosen, numbering, numbered, named, MainMove, wait_room, choose_balls,
  lock_identity, modify_identity, unlock_identity, System, Step, monkey, main, create, Reach,
}
use ee.Monkeys.Weights.{ball_at, checking_at, room_at, counter_at, IsFresh}
use ee.Monkeys.Others.{main_room_at, main_counter_at}
use ee.Monkeys.Inv.{weight_of, ball_of, all, Each, Inv, Reach-Inv}

-- A monkey that can take a step.
abbrev Runnable : Shared → Monkey → Type 0
Runnable m k = (m' : Shared) × (p : Pc) × Move m k.first k.second k.pc m' p

-- Between the two operations on `ballCheckingMutex` it never waits.
checking_moves : (m : Shared) (k : Monkey) → Each m k → 0 < checking_at k.pc → Runnable m k
checking_moves m k e h = by_pc k.first k.second k.pc e.fresh h
  where
    by_pc :
        (x y : ℕ) (p : Pc)
        → IsFresh m x y p
        → 0 < checking_at p
        → (m' : Shared) × (p' : Pc) × Move m x y p m' p'
    by_pc x y locked f h = (_, _, get_first)
    by_pc x y (read_first b) f h = (_, _, get_second)
    by_pc x y (read_both b1 b2) f h = elim (ℕ_discrete b1 1) [
      | no ne ↦ (_, _, not_free (inl ne))
      | yes e ↦ elim (ℕ_discrete b2 1) [
        | no ne ↦ (_, _, not_free (inr ne))
        | yes e' ↦ (_, _, both_free e e')
      ]
    ]
    by_pc x y picking f h = (_, _, pick_first f.0)
    by_pc x y picked f h = (_, _, reserve_second f)
    by_pc x y reserved f h = (_, _, unlock_balls)
    by_pc x y giving_up f h = (_, _, give_up)
    by_pc x y p f h = absurd (ground arith)

-- A monkey with a ball can always take its next step, up to the release of the ball.
holder_moves :
    {s : System} (b t : ℕ)
    → Reach s
    → t < s.threads
    → 0 < ball_of b (s.monkeys t)
    → (m : Shared) × (p : Pc) × Move s.mem
        (s.monkeys t).first
        (s.monkeys t).second
        (s.monkeys t).pc
        m
        p
holder_moves {s} b t r lt h =
    by_pc (s.monkeys t).first (s.monkeys t).second (s.monkeys t).pc ((Reach-Inv r).each t lt).fresh
      h
  where
    by_pc :
        (x y : ℕ) (p : Pc)
        → IsFresh s.mem x y p
        → 0 < ball_at b x y p
        → (m : Shared) × (p' : Pc) × Move s.mem x y p m p'
    by_pc x y picked f h = (_, _, reserve_second f)
    by_pc x y reserved f h = (_, _, unlock_balls)
    by_pc x y takes_first_ball f h = (_, _, think_first)
    by_pc x y takes_second_ball f h = (_, _, release_first)
    by_pc x y released_first f h = (_, _, release_second)
    by_pc x y p f h = absurd (ground arith)

-- In the room it waits at most for `ballCheckingMutex`.
room_moves :
    (m : Shared) (k : Monkey) → Each m k → 0 < room_at k.pc → 0 < m.ball_checking → Runnable m k
room_moves m k e h c = by_pc k.pc (λ g. checking_moves m k e g) h
  where
    by_pc :
        (p : Pc)
        → (0 < checking_at p → (m' : Shared) × (p' : Pc) × Move m k.first k.second p m' p')
        → 0 < room_at p
        → (m' : Shared) × (p' : Pc) × Move m k.first k.second p m' p'
    by_pc new_monkey g h = (_, _, enter)
    by_pc inside_the_room g h = (_, _, check)
    by_pc checking g h = (_, _, lock_balls c)
    by_pc takes_first_ball g h = (_, _, think_first)
    by_pc takes_second_ball g h = (_, _, release_first)
    by_pc released_first g h = (_, _, release_second)
    by_pc outside_the_room g h = (_, _, leave_room)
    by_pc p g h = g (ground arith)

counter_moves : (m : Shared) (k : Monkey) → 0 < counter_at k.pc → Runnable m k
counter_moves m k h = by_pc k.pc h
  where
    by_pc :
        (p : Pc) → 0 < counter_at p → (m' : Shared) × (p' : Pc) × Move m k.first k.second p m' p'
    by_pc counting h = (_, _, modify_counter)
    by_pc (counted v) h = (_, _, unlock_counter)
    by_pc p h = absurd (ground arith)

abbrev pub CanStep : System → Type 0
CanStep s = (s' : System) × Step s s'

module _ {s : System} (inv : Inv s) where
  monkey_steps : (t : ℕ) → t < s.threads → Runnable s.mem (s.monkeys t) → CanStep s
  monkey_steps t lt (m, p, mv) = (_, monkey t lt mv)

  checking_steps : s.mem.ball_checking ≡ 0 → CanStep s
  checking_steps e =
      let (t, lt, h) =
        member_of_total (weight_of checking_at) s.threads s.monkeys (omega (arith, inv.checking)) in
      monkey_steps t lt (checking_moves s.mem (s.monkeys t) (inv.each t lt) h)

  full_room_steps : 0 < all (weight_of room_at) s → CanStep s
  full_room_steps h = elim (ℕ_discrete s.mem.ball_checking 0) [
    | yes e ↦ checking_steps e
    | no ne ↦
        let (t, lt, g) = member_of_total (weight_of room_at) s.threads s.monkeys h in
        monkey_steps t lt (room_moves s.mem (s.monkeys t) (inv.each t lt) g (omega arith))
  ]

  counter_steps : s.mem.counter_mutex ≡ 0 → main_counter_at s.main_pc ≡ 0 → CanStep s
  counter_steps e z =
      let (t, lt, h) =
        member_of_total (weight_of counter_at) s.threads s.monkeys (omega (arith, inv.counter)) in
      monkey_steps t lt (counter_moves s.mem (s.monkeys t) h)

  main_steps : {m : Shared} {p p' : MainPc} → s.main_pc ≡ p → MainMove s.mem p m p' → CanStep s
  main_steps {m} {p} {p'} e mv = (_, main (subst (λ x. MainMove s.mem x m p') (sym e) mv))

  by_main : (p : MainPc) → s.main_pc ≡ p → CanStep s
  unfolding get_nano_time_random_number
  by_main main_loop e = elim (ℕ_discrete s.mem.room 0) [
    | yes z ↦
        let here : main_room_at s.main_pc ≡ 0 = rw e refl in
        full_room_steps (omega (arith, inv.room, here))
    | no ne ↦ main_steps e (wait_room (omega arith))
  ]
  by_main spawning e = main_steps e (choose_balls {x = 0} {y = 1} (0 ∷ []) (1 ∷ []) refl refl)
  by_main (chosen x y) e = elim (ℕ_discrete s.mem.counter_mutex 0) [
    | yes z ↦ counter_steps z (rw e refl)
    | no ne ↦ main_steps e (lock_identity (omega arith))
  ]
  by_main (numbering x y) e = main_steps e modify_identity
  by_main (numbered x y v) e = main_steps e unlock_identity
  by_main (named x y v) e = (_, create e)

-- In every state that is reached some thread can take a step: monkeys, trainer and `main` never all wait
-- for each other, wherever each of them stands.
pub never_stuck : {s : System} → Reach s → CanStep s
never_stuck {s} r = by_main (Reach-Inv r) s.main_pc refl
