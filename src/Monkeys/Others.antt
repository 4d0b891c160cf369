-- ===== src/Monkeys/Others.antt =====
-- What the steps of the trainer and of `main` keep, in project3/task1_training_monkeys.c.
use ee.Base.{
  ℕ, ◌+◌, ◌≤◌, ◌<◌, ◌≡◌, ◌≢◌, inl, inr, refl, ap, Bool-cases, List, [], ◌∷◌, ◌%◌, Option, none,
  some, arith, ◌==◌,
}
use ee.Monkeys.{
  ball_count, Shared, TrainerPc, asleep, feeding, TrainerMove, wake, first_used, first_free,
  second_used, second_free, feed, get_nano_time_random_number, MainPc, main_loop, chosen, numbering,
  numbered, named, MainMove, wait_room, choose_balls, lock_identity, modify_identity,
  unlock_identity,
}

-- The trainer, with a banana in his hand.
abbrev pub hand_at : TrainerPc → ℕ
hand_at asleep = 0
hand_at _ = 1

abbrev pub IsSoundTrainer : TrainerPc → Type 0
IsSoundTrainer (feeding i) = i < 2
IsSoundTrainer _ = Unit {0}

pub record Trained (m : Shared) (p : TrainerPc) (m' : Shared) (p' : TrainerPc) : Type 0 where
  pub bananas :
      m'.bowls_empty + m'.bowls_detail 0 + m'.bowls_detail 1 + hand_at p'
      ≤ m.bowls_empty + m.bowls_detail 0 + m.bowls_detail 1 + hand_at p
  pub sound : IsSoundTrainer p'
  pub same : m' ≡ record m { bowls_empty = m'.bowls_empty; bowls_detail = m'.bowls_detail }

pub TrainerMove-Trained :
    {m m' : Shared} {p p' : TrainerPc}
    → TrainerMove m p m' p'
    → IsSoundTrainer p
    → Trained m p m' p'
TrainerMove-Trained (wake h) s = record { bananas = ground arith; sound = tt; same = refl }
TrainerMove-Trained (feed {i}) s = record { bananas = ground arith; sound = tt; same = refl }
TrainerMove-Trained (first_used h) s = record {
  bananas = ground arith;
  sound = ground arith;
  same = refl;
}
TrainerMove-Trained (first_free h) s = record { bananas = ground arith; sound = tt; same = refl }
TrainerMove-Trained (second_used h) s = record {
  bananas = ground arith;
  sound = ground arith;
  same = refl;
}
TrainerMove-Trained (second_free h) s = record { bananas = ground arith; sound = tt; same = refl }

-- `main`, for the monkey that it makes next.
abbrev pub main_room_at : MainPc → ℕ
main_room_at main_loop = 0
main_room_at _ = 1

abbrev pub main_counter_at : MainPc → ℕ
main_counter_at (numbering _ _) = 1
main_counter_at (numbered _ _ _) = 1
main_counter_at _ = 0

abbrev pub AreBalls : ℕ → ℕ → Type 0
AreBalls x y = (x < ball_count) × (y < ball_count) × (x ≢ y)

abbrev pub IsSoundMain : MainPc → Type 0
IsSoundMain (chosen x y) = AreBalls x y
IsSoundMain (numbering x y) = AreBalls x y
IsSoundMain (numbered x y _) = AreBalls x y
IsSoundMain (named x y _) = AreBalls x y
IsSoundMain _ = Unit {0}

random_in_range :
    (e : Option ℕ) (rs : List ℕ) (x : ℕ)
    → get_nano_time_random_number ball_count e rs ≡ some x
    → (x < ball_count) × (e ≢ some x)
unfolding get_nano_time_random_number
random_in_range e [] x h = cc h
random_in_range none (r ∷ rs) x h = (ground arith, λ k. cc k)
random_in_range (some e) (r ∷ rs) x h = elim (Bool-cases (r % ball_count == e)) [
  | inl c ↦ random_in_range (some e) rs x (rw c at h)
  | inr c ↦
      let k : some (r % ball_count) ≡ some x = rw c at h in
      (ground (arith, k), λ q. ground (arith, q, k, c))
]

pub record Mained (m : Shared) (p : MainPc) (m' : Shared) (p' : MainPc) : Type 0 where
  pub room : m'.room + main_room_at p' ≡ m.room + main_room_at p
  pub counter : m'.counter_mutex + main_counter_at p' ≡ m.counter_mutex + main_counter_at p
  pub sound : IsSoundMain p'
  pub same :
      m' ≡ record m { room = m'.room; counter_mutex = m'.counter_mutex; identity = m'.identity }

pub MainMove-Mained :
    {m m' : Shared} {p p' : MainPc} → MainMove m p m' p' → IsSoundMain p → Mained m p m' p'
MainMove-Mained (wait_room h) s = record {
  room = ground arith;
  counter = refl;
  sound = tt;
  same = refl;
}
MainMove-Mained (choose_balls {x} {y} rs ss a b) s =
    let (xl, _) = random_in_range none rs x a in
    let (yl, ne) = random_in_range (some x) ss y b in
    record { room = refl; counter = refl; sound = (xl, yl, λ e. ne (ap some e)); same = refl }
MainMove-Mained (lock_identity h) s = record {
  room = refl;
  counter = ground arith;
  sound = s;
  same = refl;
}
MainMove-Mained modify_identity s = record { room = refl; counter = refl; sound = s; same = refl }
MainMove-Mained unlock_identity s = record {
  room = refl;
  counter = ground arith;
  sound = s;
  same = refl;
}
