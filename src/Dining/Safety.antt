-- ===== src/Dining/Safety.antt =====
-- What holds in every state that the philosophers of project3/task1_dining_philosopher.c reach.
use ee.Base.{
  ℕ, ◌≡◌, ◌≢◌, ◌⊎◌, refl, true, ◌==◌, arith, Bool-cases, inl, inr, ℕ_discrete, dec_lt, ap, ◌∙◌,
}
use ee.Dining.{
  thinking, hungry, eating, Table, get_left, get_right, set_state, test, take_forks, put_forks, Pc,
  p_thinking, p_waiting, p_eating, System, IsPhilosopher, Step, take, acquire, put, Reach, begin,
  next,
}
use ee.Dining.Inv.{Local, Reach-Inv, left-IsPhilosopher, update_ne}

-- In any reachable state, while a philosopher eats, the one to the right does not.
pub neighbours_apart :
    {s : System} (i : ℕ)
    → Reach s
    → IsPhilosopher i
    → s.pc i ≡ p_eating
    → s.pc (get_right i) ≢ p_eating
neighbours_apart {s} i r p e f =
    let v = Reach-Inv r in
    let a : Local p_eating (s.table.state i) (s.table.sem i) = rw e at (v.local i p) in
    let b : Local p_eating (s.table.state (get_right i)) (s.table.sem (get_right i)) =
      rw f at (v.local (get_right i) (left-IsPhilosopher i p).1) in
    v.apart i p a.0 b.0

-- In any reachable state, a philosopher who waits with no permit in the own semaphore has a
-- neighbour whose state is EATING.
waits_for_neighbour :
    {s : System} (i : ℕ)
    → Reach s
    → IsPhilosopher i
    → s.pc i ≡ p_waiting
    → s.table.sem i ≡ 0
    → (s.table.state (get_left i) ≡ eating) ⊎ (s.table.state (get_right i) ≡ eating)
waits_for_neighbour {s} i r p e z =
    let v = Reach-Inv r in
    let l : Local p_waiting (s.table.state i) (s.table.sem i) = rw e at (v.local i p) in
    elim (ℕ_discrete (s.table.state (get_left i)) eating) [
      | yes a ↦ inl a
      | no a ↦ elim (ℕ_discrete (s.table.state (get_right i)) eating) [
        | yes b ↦ inr b
        | no b ↦ absurd (v.served i p refl (omega (arith, l.0)) a b)
      ]
    ]

-- A philosopher whose state is EATING can go on.
eater_moves :
    {s : System} (i : ℕ)
    → Reach s
    → IsPhilosopher i
    → s.table.state i ≡ eating
    → (s' : System) × Step s s'
eater_moves {s} i r p h = go (s.pc i) refl
  where
    go : (c : Pc) → s.pc i ≡ c → (s' : System) × Step s s'
    go p_thinking e = (_, take i p e)
    go p_waiting e =
        let l : Local p_waiting (s.table.state i) (s.table.sem i) =
          rw e at ((Reach-Inv r).local i p) in
        (_, acquire i p e (omega (arith, l.0)))
    go p_eating e = (_, put i p e)

-- In every reachable state some philosopher can take a step.
pub table_moves : {s : System} → Reach s → (s' : System) × Step s s'
table_moves {s} r = go (s.pc 1) refl
  where
    p : IsPhilosopher 1
    p = (omega arith, omega arith)

    go : (c : Pc) → s.pc 1 ≡ c → (s' : System) × Step s s'
    go p_thinking e = (_, take 1 p e)
    go p_eating e = (_, put 1 p e)
    go p_waiting e = elim (dec_lt 0 (s.table.sem 1)) [
      | yes up ↦ (_, acquire 1 p e up)
      | no down ↦ elim (waits_for_neighbour 1 r p e (omega arith)) [
        | inl a ↦ eater_moves (get_left 1) r (left-IsPhilosopher 1 p).0 a
        | inr b ↦ eater_moves (get_right 1) r (left-IsPhilosopher 1 p).1 b
      ]
    ]

fault-test : (k : ℕ) (m : Table) → m.fault ≡ true → (test k m).fault ≡ true
unfolding test
fault-test k m h = elim (Bool-cases (m.state k == hungry)) [
  | inr a ↦ rw (a, h) refl
  | inl a ↦ elim (Bool-cases (m.state (get_left k) == eating)) [
    | inl b ↦ rw (a, b, h) refl
    | inr b ↦ elim (Bool-cases (m.state (get_right k) == eating)) [
      | inl c ↦ rw (a, b, c, h) refl
      | inr c ↦ rw (a, b, c, h) refl
    ]
  ]
]

fault-take_forks : (i : ℕ) (m : Table) → m.fault ≡ true → (take_forks i m).fault ≡ true
unfolding take_forks
fault-take_forks i m h = fault-test i (set_state i hungry m) (rw h refl)

fault-put_forks : (i : ℕ) (m : Table) → m.fault ≡ true → (put_forks i m).fault ≡ true
unfolding put_forks
fault-put_forks i m h =
    fault-test (get_right i) (test (get_left i) (set_state i thinking m))
      (fault-test (get_left i) (set_state i thinking m) (rw h refl))

overrun-take_forks : (m : Table) → (take_forks 16 m).fault ≡ true
unfolding take_forks
overrun-take_forks m = fault-test 16 (set_state 16 hungry m) (ground arith)

overrun_at : {s : System} → Reach s → s.pc 16 ≢ p_thinking → s.table.fault ≡ true
overrun_at begin h = absurd (h refl)
overrun_at (next {s} r (take i p e)) h = elim (ℕ_discrete i 16) [
  | yes q ↦ rw q (overrun-take_forks s.table)
  | no n ↦ fault-take_forks i s.table (overrun_at r (λ q. h (update_ne s.pc i p_waiting 16 n ∙ q)))
]
overrun_at (next {s} r (acquire i p e up)) h =
    overrun_at r (λ q. h (update_ne s.pc i p_eating 16 (λ x. cc (ap s.pc x, e, q)) ∙ q))
overrun_at (next {s} r (put i p e)) h =
    fault-put_forks i s.table
      (overrun_at r (λ q. h (update_ne s.pc i p_thinking 16 (λ x. cc (ap s.pc x, e, q)) ∙ q)))

-- Some steps of the philosophers, one after the other.
pub data Steps (s : System) : System → Type 0 where
  here : Steps s s
  later : {t u : System} → Steps s t → Step t u → Steps s u

-- A flag that is set stays set.
overrun-Steps : {s s' : System} → Steps s s' → s.table.fault ≡ true → s'.table.fault ≡ true
overrun-Steps here h = h
overrun-Steps (later {t} r (take i p e)) h = fault-take_forks i t.table (overrun-Steps r h)
overrun-Steps (later {t} r (acquire i p e up)) h = overrun-Steps r h
overrun-Steps (later {t} r (put i p e)) h = fault-put_forks i t.table (overrun-Steps r h)

-- Once philosopher 16 is past `take_forks` in some reachable state, that is, waits or eats, the array
-- `state` was accessed outside its bounds, in that state and in all that follow it, whatever the
-- philosophers do.
pub state_overrun :
    {s s' : System} → Reach s → s.pc 16 ≢ p_thinking → Steps s s' → s'.table.fault ≡ true
state_overrun r h st = overrun-Steps st (overrun_at r h)
