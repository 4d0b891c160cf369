-- ===== src/Monkeys/Inv.antt =====
-- The invariant of project3/task1_training_monkeys.c, and that every step keeps it.
use mathlib.Core.Path.{subst}
use ee.Base.{
  ℕ, zero, suc, ◌+◌, ◌≤◌, ◌<◌, ◌≡◌, ◌≢◌, ◌⊎◌, inl, inr, refl, ap, sym, ◌∙◌, Bool-cases, true, false,
  arith, ◌==◌,
}
use ee.Base.Update.{update}
use ee.Monkeys.{
  max_monkeys, target_training, Shared, Pc, new_monkey, bowl_locked, releasing, Monkey, Move,
  TrainerPc, TrainerMove, MainPc, main_loop, named, MainMove, System, moved, monkey, train, main,
  create, start, Reach, begin, next,
}
use ee.Base.Update.{update, total, total-update, weight-le-total, total-gap, pair-le-total}
use ee.Monkeys.{
  max_monkeys, target_training, Shared, Pc, new_monkey, bowl_locked, releasing, Monkey, Move,
  TrainerPc, TrainerMove, MainPc, main_loop, named, MainMove, System, moved, monkey, train, main,
  create, start, Reach, begin, next,
}
use ee.Monkeys.Weights.{
  ball_at, bowl_at, checking_at, room_at, full_at, bowls_at, waiting_at, counter_at, trained_at,
  IsSound, IsUsed, Move-ball, Move-bowl, Move-Kept, IsFresh, Move-IsFresh, Move-grows, Move-counter,
  Move-finished, IsFresh-other, Move-IsSound, Move-usage,
}
use ee.Monkeys.Others.{
  hand_at, IsSoundTrainer, TrainerMove-Trained, main_room_at, main_counter_at, AreBalls,
  IsSoundMain, MainMove-Mained,
}

-- A weight of where a monkey stands, and of all monkeys.
abbrev pub weight_of : (Pc → ℕ) → Monkey → ℕ
weight_of w k = w k.pc

abbrev pub ball_of : ℕ → Monkey → ℕ
ball_of b k = ball_at b k.first k.second k.pc

abbrev pub all : (Monkey → ℕ) → System → ℕ
all w s = total w s.threads s.monkeys

-- Each monkey.
pub record Each (m : Shared) (k : Monkey) : Type 0 where
  pub wants : AreBalls k.first k.second
  pub sound : IsSound k.pc
  pub fresh : IsFresh m k.first k.second k.pc

pub record Inv (s : System) : Type 0 where
  pub ball : (b : ℕ) → s.mem.balls b + all (ball_of b) s ≡ 1
  pub usage : (b : ℕ) → s.mem.bowls_usage b ≡ all (weight_of (bowl_at b)) s
  pub used_once : (b : ℕ) → s.mem.bowls_usage b ≤ 1
  pub checking : s.mem.ball_checking + all (weight_of checking_at) s ≡ 1
  pub room : s.mem.room + all (weight_of room_at) s + main_room_at s.main_pc ≡ max_monkeys
  pub full : s.mem.bowls_full + all (weight_of full_at) s ≡ 2
  pub bowls : s.mem.bowl_checking + all (weight_of bowls_at) s ≡ 1
  pub counter : s.mem.counter_mutex + all (weight_of counter_at) s + main_counter_at s.main_pc ≡ 1
  pub trained : s.mem.training_counter ≡ all (weight_of trained_at) s
  pub bananas :
      s.mem.bowls_empty + s.mem.bowls_detail 0 + s.mem.bowls_detail 1 + hand_at s.trainer
      ≤ all (weight_of waiting_at) s
  pub each : (t : ℕ) → t < s.threads → Each s.mem (s.monkeys t)
  pub trainer : IsSoundTrainer s.trainer
  pub main : IsSoundMain s.main_pc
  pub in_bounds : s.mem.fault ≡ false
  pub finished : s.mem.finished ≡ true → target_training ≤ s.mem.training_counter

total-add :
    (v w : Monkey → ℕ) (n : ℕ) (f : ℕ → Monkey)
    → total (λ k. v k + w k) n f ≡ total v n f + total w n f
unfolding total
total-add v w zero f = refl
total-add v w (suc n) f = omega (arith, total-add v w n f)

bowl-le-full : (p : Pc) → bowl_at 0 p + bowl_at 1 p ≤ full_at p
bowl-le-full p = ground arith

IsUsed-weight_of :
    (m : Shared) (p : Pc)
    → ((b : ℕ) → bowl_at b p ≤ m.bowls_usage b)
    → ((b : ℕ) → m.bowls_usage b ≤ 1)
    → IsUsed m p
IsUsed-weight_of m (releasing i) a b = ground (arith, a i, b i)
IsUsed-weight_of m p a b = ground arith

module _ {s : System} (inv : Inv s) (t : ℕ) (lt : t < s.threads) where
  abbrev k : Monkey
  k = s.monkeys t

  -- A monkey that is about to choose a bowl finds one.
  roomy : k.pc ≡ bowl_locked → (s.mem.bowls_usage 0 ≡ 0) ⊎ (s.mem.bowls_usage 1 ≡ 0)
  roomy e =
      let gap =
        total-gap (λ k. bowl_at 0 k.pc + bowl_at 1 k.pc) (weight_of full_at)
          (λ k. bowl-le-full k.pc) s.threads s.monkeys t lt in
      let sum = total-add (weight_of (bowl_at 0)) (weight_of (bowl_at 1)) s.threads s.monkeys in
      let here : full_at k.pc ≡ 1 = rw e refl in
      let none : bowl_at 0 k.pc + bowl_at 1 k.pc ≡ 0 = rw e refl in
      ground (arith, gap, sum, here, none, inv.usage 0, inv.usage 1, inv.full)

  freed : IsUsed s.mem k.pc
  freed =
      IsUsed-weight_of s.mem k.pc
        (λ b.
          omega
            (arith, inv.usage b, weight-le-total (weight_of (bowl_at b)) s.threads s.monkeys t lt))
        inv.used_once

  module _ {m : Shared} {p : Pc} (mv : Move s.mem k.first k.second k.pc m p) where
    abbrev s' : System
    s' = record s { mem = m; monkeys = update s.monkeys t (moved k p) }

    changed : (w : Monkey → ℕ) → all w s' + w k ≡ all w s + w (moved k p)
    changed w = total-update w s.threads s.monkeys t (moved k p) lt

    -- Who else is between the two operations on `ballCheckingMutex` is no other.
    alone :
        (u : ℕ) → u < s.threads → t ≢ u → checking_at k.pc ≡ 1 → checking_at (s.monkeys u).pc ≡ 0
    alone u lu ne e = ground (
      arith,
      inv.checking,
      pair-le-total (weight_of checking_at) s.threads s.monkeys t u (moved k new_monkey) refl lt lu
          ne,
    )

    each : (u : ℕ) → u < s.threads → Each m (update s.monkeys t (moved k p) u)
    each u lu = elim (Bool-cases (t == u)) [
      | inl e ↦
          let i = inv.each t lt in
          rw e (record {
            wants = i.wants;
            sound = Move-IsSound mv i.sound roomy;
            fresh = Move-IsFresh mv (i.wants.2) i.fresh;
          })
      | inr e ↦
          let i = inv.each u lu in
          let ne : t ≢ u = ground arith in
          let x = s.monkeys u in
          let apart : (b : ℕ) → (checking_at x.pc ≡ 0) ⊎ (s.mem.balls b ≤ m.balls b) =
            λ b. elim (Move-grows mv b) [ inl c ↦ inl (alone u lu ne c) | inr g ↦ inr g ] in
          rw e (record {
            wants = i.wants;
            sound = i.sound;
            fresh = IsFresh-other s.mem m x.first x.second x.pc i.fresh (Move-counter mv) apart;
          })
    ]

    monkey-Inv : Inv s'
    monkey-Inv =
        let i = inv.each t lt in
        let kept = Move-Kept mv i.sound in
        record {
          ball = λ b. omega (arith, Move-ball mv (i.wants.2) b, changed (ball_of b), inv.ball b);
          usage = λ b.
              omega
                (arith, Move-bowl mv i.sound freed b, changed (weight_of (bowl_at b)), inv.usage b);
          used_once = λ b. Move-usage mv b (inv.used_once b);
          checking = omega (arith, kept.balls, changed (weight_of checking_at), inv.checking);
          room = omega (arith, kept.room, changed (weight_of room_at), inv.room);
          full = omega (arith, kept.full, changed (weight_of full_at), inv.full);
          bowls = omega (arith, kept.bowls, changed (weight_of bowls_at), inv.bowls);
          counter = omega (arith, kept.counter, changed (weight_of counter_at), inv.counter);
          trained = omega (arith, kept.trained, changed (weight_of trained_at), inv.trained);
          bananas = omega (arith, kept.bananas, changed (weight_of waiting_at), inv.bananas);
          each = each;
          trainer = inv.trainer;
          main = inv.main;
          in_bounds = kept.fault ∙ inv.in_bounds;
          finished = λ e. ground (arith, Move-finished mv i.fresh e, inv.finished, Move-counter mv);
        }

module _ {s : System} (inv : Inv s) where
  abbrev KeptFresh : Shared → ℕ → Type 0
  KeptFresh m u = IsFresh m (s.monkeys u).first (s.monkeys u).second (s.monkeys u).pc

  unread :
      (m : Shared) (u : ℕ)
      → m.balls ≡ s.mem.balls
      → m.training_counter ≡ s.mem.training_counter
      → KeptFresh s.mem u
      → KeptFresh m u
  unread m u e c f =
      let x = s.monkeys u in
      IsFresh-other s.mem m x.first x.second x.pc f (omega (arith, c))
        (λ b. inr (ground (arith, ap (λ g. g b) e)))

  train-Inv :
      {m : Shared} {p : TrainerPc}
      → TrainerMove s.mem s.trainer m p
      → Inv (record s { mem = m; trainer = p })
  train-Inv {m} {p} mv =
      let t = TrainerMove-Trained mv inv.trainer in
      subst (λ x. Inv (record s { mem = x; trainer = p })) (sym t.same)
        (record {
          ball = inv.ball;
          usage = inv.usage;
          used_once = inv.used_once;
          checking = inv.checking;
          room = inv.room;
          full = inv.full;
          bowls = inv.bowls;
          counter = inv.counter;
          trained = inv.trained;
          bananas = omega (arith, t.bananas, inv.bananas);
          each = λ u lu.
              let i = inv.each u lu in
              record {
                wants = i.wants;
                sound = i.sound;
                fresh =
                    unread
                      (record s.mem { bowls_empty = m.bowls_empty; bowls_detail = m.bowls_detail })
                      u refl refl i.fresh;
              };
          trainer = t.sound;
          main = inv.main;
          in_bounds = inv.in_bounds;
          finished = inv.finished;
        })

  main-Inv :
      {m : Shared} {p : MainPc}
      → MainMove s.mem s.main_pc m p
      → Inv (record s { mem = m; main_pc = p })
  main-Inv {m} {p} mv =
      let t = MainMove-Mained mv inv.main in
      let m' = record s.mem {
        room = m.room;
        counter_mutex = m.counter_mutex;
        identity = m.identity;
      } in
      subst (λ x. Inv (record s { mem = x; main_pc = p })) (sym t.same)
        (record {
          ball = inv.ball;
          usage = inv.usage;
          used_once = inv.used_once;
          checking = inv.checking;
          room = omega (arith, t.room, inv.room);
          full = inv.full;
          bowls = inv.bowls;
          counter = omega (arith, t.counter, inv.counter);
          trained = inv.trained;
          bananas = inv.bananas;
          each = λ u lu.
              let i = inv.each u lu in
              record { wants = i.wants; sound = i.sound; fresh = unread m' u refl refl i.fresh };
          trainer = inv.trainer;
          main = t.sound;
          in_bounds = inv.in_bounds;
          finished = inv.finished;
        })

  module _ {x y v : ℕ} (e : s.main_pc ≡ named x y v) where
    abbrev born : Monkey
    born = record { id = v; first = x; second = y; pc = new_monkey }

    abbrev grown_system : System
    grown_system = record s {
      main_pc = main_loop;
      monkeys = update s.monkeys s.threads born;
      threads = suc s.threads;
    }

    grown : (w : Monkey → ℕ) → all w grown_system ≡ all w s + w born
    unfolding total
    grown w = omega (arith, total-update w (suc s.threads) s.monkeys s.threads born (omega arith))

    create-Inv : Inv grown_system
    create-Inv =
        let balls : AreBalls x y = subst IsSoundMain e inv.main in
        let here : main_room_at s.main_pc ≡ 1 = rw e refl in
        let none : main_counter_at s.main_pc ≡ 0 = rw e refl in
        record {
          ball = λ b. omega (arith, grown (ball_of b), inv.ball b);
          usage = λ b. omega (arith, grown (weight_of (bowl_at b)), inv.usage b);
          used_once = inv.used_once;
          checking = omega (arith, grown (weight_of checking_at), inv.checking);
          room = omega (arith, grown (weight_of room_at), inv.room, here);
          full = omega (arith, grown (weight_of full_at), inv.full);
          bowls = omega (arith, grown (weight_of bowls_at), inv.bowls);
          counter = omega (arith, grown (weight_of counter_at), inv.counter, none);
          trained = omega (arith, grown (weight_of trained_at), inv.trained);
          bananas = omega (arith, grown (weight_of waiting_at), inv.bananas);
          each = λ u lu. elim (Bool-cases (s.threads == u)) [
            | inl c ↦ rw c (record { wants = balls; sound = tt; fresh = tt })
            | inr c ↦ rw c (inv.each u (ground arith))
          ];
          trainer = inv.trainer;
          main = tt;
          in_bounds = inv.in_bounds;
          finished = inv.finished;
        }

start-Inv : (monkeys : ℕ → Monkey) → Inv (start monkeys)
unfolding total
start-Inv monkeys = record {
  ball = λ b. refl;
  usage = λ b. refl;
  used_once = λ b. omega arith;
  checking = refl;
  room = refl;
  full = refl;
  bowls = refl;
  counter = refl;
  trained = refl;
  bananas = omega arith;
  each = λ t lt. absurd (omega arith);
  trainer = tt;
  main = tt;
  in_bounds = refl;
  finished = λ e. cc e;
}

pub Reach-Inv : {s : System} → Reach s → Inv s
Reach-Inv (begin monkeys) = start-Inv monkeys
Reach-Inv (next r (monkey t lt mv)) = monkey-Inv (Reach-Inv r) t lt mv
Reach-Inv (next r (train mv)) = train-Inv (Reach-Inv r) mv
Reach-Inv (next r (main mv)) = main-Inv (Reach-Inv r) mv
Reach-Inv (next r (create e)) = create-Inv (Reach-Inv r) e
