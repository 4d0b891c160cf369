-- ===== src/Monkeys/Trainer.antt =====
-- How the trainer of project3/task1_training_monkeys.c can fill one bowl twice.
use mathlib.Core.Path.{subst}
use ee.Base.{ℕ, ◌+◌, ◌-◌, ◌≡◌, refl, sym, some, arith}
use ee.Monkeys.{
  Shared, Pc, waiting, Move, get_fed, TrainerPc, asleep, woken, TrainerMove, wake, first_used, feed,
  Monkey, System, train, Reach, next,
}

-- Steps of the trainer alone, one after the other.
pub data Trains (s : System) : System → Type 0 where
  rest : Trains s s
  then_moves :
      {t : System} {m : Shared} {p : TrainerPc}
      → Trains s t
      → TrainerMove t.mem t.trainer m p
      → Trains s (record t { mem = m; trainer = p })

abbrev pub CanTrain : System → Type 0
CanTrain s = (m : Shared) × (p : TrainerPc) × TrainerMove s.mem s.trainer m p

abbrev pub CanMove : System → Monkey → Type 0
CanMove s k = (m : Shared) × (p : Pc) × Move s.mem k.first k.second k.pc m p

not_woken : {m m' : Shared} {p : TrainerPc} → m.bowls_empty ≡ 0 → TrainerMove m asleep m' p → ⊥
not_woken e (wake h) = absurd (omega arith)

not_fed :
    {m m' : Shared} {x y : ℕ} {p : Pc}
    → m.bowls_detail 1 ≡ 0
    → Move m x y (waiting (some 1)) m' p
    → ⊥
not_fed e (get_fed h) = absurd (omega arith)

starved :
    {r s : System}
    → Trains r s
    → (k : Monkey) → s.mem.bowls_detail 1 ≡ 0
    → k.pc ≡ waiting (some 1)
    → ¬ CanMove s k
starved {s = s} run k d q (m, p, mv) =
    not_fed d (subst (λ x. Move s.mem k.first k.second x m p) q mv)

-- Whenever the trainer is asleep, he was woken twice, the first bowl is used, and a monkey waits at the
-- second bowl, which is empty: the trainer alone, by steps from that state, can put both bananas into the
-- first bowl. Then he is asleep with no wake-up left and can take no step, and neither can that monkey.
pub feeds_twice :
    {s : System} (t : ℕ)
    → Reach s
    → s.trainer ≡ asleep
    → s.mem.bowls_empty ≡ 2
    → s.mem.bowls_usage 0 ≡ 1
    → (s.monkeys t).pc ≡ waiting (some 1)
    → s.mem.bowls_detail 1 ≡ 0
    → (s' : System) × Trains s s'
      × Reach s'
      × (s'.monkeys ≡ s.monkeys)
      × (s'.mem.bowls_detail 0 ≡ s.mem.bowls_detail 0 + 2)
      × (s'.mem.bowls_empty ≡ 0)
      × (¬ CanTrain s')
      × (¬ CanMove s' (s'.monkeys t))
feeds_twice {s} t r a b u q d =
    let m1 = record s.mem { bowls_empty = s.mem.bowls_empty - 1 } in
    let w : TrainerMove s.mem s.trainer m1 woken =
      subst (λ x. TrainerMove s.mem x m1 woken) (sym a) (wake (omega (arith, b))) in
    let t1 = then_moves rest w in
    let t2 = then_moves t1 (first_used u) in
    let t3 = then_moves t2 feed in
    let t4 = then_moves t3 (wake (omega (arith, b))) in
    let t5 = then_moves t4 (first_used u) in
    let r3 = next (next (next r (train w)) (train (first_used u))) (train feed) in
    let r6 =
      next (next (next r3 (train (wake (omega (arith, b))))) (train (first_used u))) (train feed) in
    (
      _,
      then_moves t5 feed,
      r6,
      refl,
      ground arith,
      omega (arith, b),
      λ c. not_woken (omega (arith, b)) c.2,
      starved (then_moves t5 feed) (s.monkeys t) d q,
    )
