-- ===== src/Dining/Inv.antt =====
-- What holds at the table of project3/task1_dining_philosopher.c between any two steps.
use ee.Base.{
  ℕ, ◌+◌, ◌-◌, ◌<◌, ◌≤◌, ◌≡◌, ◌≢◌, refl, Bool, true, false, not, ◌&&◌, ◌||◌, ◌==◌, if◌then◌else◌,
  arith, Bool-cases, ℕ_discrete, sym, ap, ◌∙◌, inl, inr,
}
use ee.Base.Update.{update}
use ee.Dining.{
  thinking, hungry, eating, Table, get_left, get_right, set_state, test, take_forks, put_forks, Pc,
  p_thinking, p_waiting, p_eating, System, IsPhilosopher, Step, take, acquire, put, Reach, begin,
  next,
}

-- What `state[i]` and `sem[i]` are, by where the philosopher stands.
abbrev pub Local : Pc → (state sem : ℕ) → Type 0
Local p_thinking state sem = (state ≡ thinking) × (sem ≡ 0)
Local p_waiting state sem = (state ≡ hungry + sem) × (sem ≤ 1)
Local p_eating state sem = (state ≡ eating) × (sem ≡ 0)

-- `skip` are philosophers that have not been tested yet.
pub record Inv (pc : ℕ → Pc) (state sem : ℕ → ℕ) (skip : ℕ → Bool) : Type 0 where
  pub apart : (j : ℕ) → IsPhilosopher j → state j ≡ eating → state (get_right j) ≡ eating → ⊥
  pub served :
      (j : ℕ)
      → IsPhilosopher j
      → skip j ≡ false
      → state j ≡ hungry
      → state (get_left j) ≢ eating
      → state (get_right j) ≢ eating
      → ⊥
  pub local : (j : ℕ) → IsPhilosopher j → Local (pc j) (state j) (sem j)

-- The condition of `test`.
abbrev ready : ℕ → (ℕ → ℕ) → Bool
ready k state =
    state k == hungry && (not (state (get_left k) == eating) && not (state (get_right k) == eating))

test_lem :
    (k : ℕ) (m : Table)
    → ((test k m).state ≡ (if ready k m.state then update m.state k eating else m.state))
      × ((test k m).sem ≡ (if ready k m.state then update m.sem k (m.sem k + 1) else m.sem))
unfolding test
test_lem k m = elim (Bool-cases (m.state k == hungry)) [
  | inr a ↦ rw a (refl, refl)
  | inl a ↦ elim (Bool-cases (m.state (get_left k) == eating)) [
    | inl b ↦ rw (a, b) (refl, refl)
    | inr b ↦ elim (Bool-cases (m.state (get_right k) == eating)) [
      | inl c ↦ rw (a, b, c) (refl, refl)
      | inr c ↦ rw (a, b, c) (refl, refl)
    ]
  ]
]

Local-serve :
    (p : Pc) (state sem : ℕ) → Local p state sem → state ≡ hungry → Local p eating (sem + 1)
Local-serve p_thinking state sem l h = absurd (omega (arith, l.0))
Local-serve p_waiting state sem l h = omega (arith, l.0, l.1)
Local-serve p_eating state sem l h = absurd (omega (arith, l.0))

left-right : (j : ℕ) → IsPhilosopher j → get_left (get_right j) ≡ j
left-right j p = ground (arith, p.0, p.1)

right-ne : (j : ℕ) → IsPhilosopher j → get_right j ≢ j
right-ne j p e = ground (arith, p.0, p.1, e)

update_eq : {A : Type 0} (f : ℕ → A) (i : ℕ) (v : A) (j : ℕ) → i ≡ j → update f i v j ≡ v
update_eq f i v j e = ground arith

pub update_ne : {A : Type 0} (f : ℕ → A) (i : ℕ) (v : A) (j : ℕ) → i ≢ j → update f i v j ≡ f j
update_ne f i v j e = ground arith

record IsReady (k : ℕ) (state : ℕ → ℕ) : Type 0 where
  wants : state k ≡ hungry
  left : state (get_left k) ≢ eating
  right : state (get_right k) ≢ eating

ready-IsReady : (k : ℕ) (state : ℕ → ℕ) → ready k state ≡ true → IsReady k state
ready-IsReady k state r = record {
  wants = ground (arith, r);
  left = λ e. ground (arith, r, e);
  right = λ e. ground (arith, r, e);
}

-- A test serves the one it is made for.
serve-Inv :
    (k : ℕ) (pc : ℕ → Pc) (state sem : ℕ → ℕ) (skip : ℕ → Bool)
    → IsPhilosopher k
    → IsReady k state
    → Inv pc state sem skip
    → Inv pc (update state k eating) (update sem k (sem k + 1)) (λ j. skip j && not (j == k))
serve-Inv k pc state sem skip pk r v = record {
  apart = λ j pj a b. elim (ℕ_discrete k j) [
    | yes e ↦ r.right (
        ap (λ i. state (get_right i)) e
        ∙ sym (update_ne state k eating (get_right j) (λ q. right-ne j pj (sym q ∙ e)))
        ∙ b)
    | no n ↦ elim (ℕ_discrete k (get_right j)) [
      | yes e ↦ r.left (
          ap (λ i. state (get_left i)) e
          ∙ ap state (left-right j pj)
          ∙ sym (update_ne state k eating j n)
          ∙ a)
      | no m ↦
          v.apart j pj (sym (update_ne state k eating j n) ∙ a)
            (sym (update_ne state k eating (get_right j) m) ∙ b)
    ]
  ];
  served = λ j pj s h a b. elim (ℕ_discrete k j) [
    | yes e ↦ ground (arith, update_eq state k eating j e)
    | no n ↦
        v.served j pj (ground (arith, s)) (sym (update_ne state k eating j n) ∙ h)
          (λ q. a (ground (arith, q))) (λ q. b (ground (arith, q)))
  ];
  local = λ j pj. elim (ℕ_discrete k j) [
    | yes e ↦
        rw (update_eq state k eating j e, update_eq sem k (sem k + 1) j e, e)
          (Local-serve (pc j) (state j) (sem j) (v.local j pj) (ap state (sym e) ∙ r.wants))
    | no n ↦ rw (update_ne state k eating j n, update_ne sem k (sem k + 1) j n) (v.local j pj)
  ];
}

unready-Inv :
    (k : ℕ) (pc : ℕ → Pc) (state sem : ℕ → ℕ) (skip : ℕ → Bool)
    → ready k state ≡ false
    → Inv pc state sem skip
    → Inv pc state sem (λ j. skip j && not (j == k))
unready-Inv k pc state sem skip r v = record {
  apart = v.apart;
  served = λ j pj s h a b. elim (ℕ_discrete j k) [
    | yes e ↦
        let wants : (state j == hungry) ≡ true = ground (arith, h) in
        let left : (state (get_left j) == eating) ≡ false = ground (arith, a) in
        let right : (state (get_right j) == eating) ≡ false = ground (arith, b) in
        let now : ready j state ≡ true = rw (wants, left, right) refl in
        cc (sym now ∙ ap (λ i. ready i state) e ∙ r)
    | no n ↦ v.served j pj (ground (arith, s)) h a b
  ];
  local = v.local;
}

test-Inv :
    (k : ℕ) (pc : ℕ → Pc) (m : Table) (skip : ℕ → Bool)
    → IsPhilosopher k
    → Inv pc m.state m.sem skip
    → Inv pc (test k m).state (test k m).sem (λ j. skip j && not (j == k))
test-Inv k pc m skip pk v = elim (Bool-cases (ready k m.state)) [
  | inl e ↦
      rw ((test_lem k m).0, (test_lem k m).1, e)
        (serve-Inv k pc m.state m.sem skip pk (ready-IsReady k m.state e) v)
  | inr e ↦ rw ((test_lem k m).0, (test_lem k m).1, e) (unready-Inv k pc m.state m.sem skip e v)
]

Inv-skip :
    (pc : ℕ → Pc) (state sem : ℕ → ℕ) (old new : ℕ → Bool)
    → ((j : ℕ) → new j ≡ false → old j ≡ false)
    → Inv pc state sem old
    → Inv pc state sem new
Inv-skip pc state sem old new le v = record {
  apart = v.apart;
  served = λ j pj s. v.served j pj (le j s);
  local = v.local;
}

-- Philosopher `i` gets hungry.
hungry-Inv :
    (i : ℕ) (s : System)
    → s.pc i ≡ p_thinking
    → IsPhilosopher i
    → Inv s.pc s.table.state s.table.sem (λ _. false)
    → Inv (update s.pc i p_waiting) (update s.table.state i hungry) s.table.sem (λ j. j == i)
hungry-Inv i s e pi v =
    let l : Local p_thinking (s.table.state i) (s.table.sem i) = rw e at (v.local i pi) in
    record {
      apart = λ j pj a b. v.apart j pj (ground (arith, a)) (ground (arith, b));
      served = λ j pj n h a b.
          v.served j pj refl (ground (arith, n, h)) (λ q. a (ground (arith, l.0, q)))
            (λ q. b (ground (arith, l.0, q)));
      local = λ j pj. elim (ℕ_discrete i j) [
        | yes q ↦
            rw (update_eq s.pc i p_waiting j q, update_eq s.table.state i hungry j q, sym q)
              (omega (arith, l.1), omega (arith, l.1))
        | no q ↦
            rw (update_ne s.pc i p_waiting j q, update_ne s.table.state i hungry j q) (v.local j pj)
      ];
    }

left_apart :
    (i j : ℕ)
    → IsPhilosopher i
    → IsPhilosopher j
    → (j == get_left i || j == get_right i) ≡ false
    → i ≢ get_left j
left_apart i j pi pj n x = ground (arith, pi.0, pi.1, pj.0, pj.1, n, x)

right_apart :
    (i j : ℕ)
    → IsPhilosopher i
    → IsPhilosopher j
    → (j == get_left i || j == get_right i) ≡ false
    → i ≢ get_right j
right_apart i j pi pj n x = ground (arith, pi.0, pi.1, pj.0, pj.1, n, x)

-- Philosopher `i` stops eating.
thinking-Inv :
    (i : ℕ) (s : System)
    → s.pc i ≡ p_eating
    → IsPhilosopher i
    → Inv s.pc s.table.state s.table.sem (λ _. false)
    → Inv
        (update s.pc i p_thinking)
        (update s.table.state i thinking)
        s.table.sem
        (λ j. j == get_left i || j == get_right i)
thinking-Inv i s e pi v =
    let l : Local p_eating (s.table.state i) (s.table.sem i) = rw e at (v.local i pi) in
    record {
      apart = λ j pj a b. v.apart j pj (ground (arith, a)) (ground (arith, b));
      served = λ j pj n h a b.
          v.served j pj refl (ground (arith, h))
            (λ q.
              a (
                update_ne s.table.state i thinking (get_left j) (λ x. left_apart i j pi pj n x)
                ∙ q))
            (λ q. b (
              update_ne s.table.state i thinking (get_right j) (λ x. right_apart i j pi pj n x)
              ∙ q));
      local = λ j pj. elim (ℕ_discrete i j) [
        | yes q ↦
            rw (update_eq s.pc i p_thinking j q, update_eq s.table.state i thinking j q, sym q)
              (refl, l.1)
        | no q ↦
            rw (update_ne s.pc i p_thinking j q, update_ne s.table.state i thinking j q)
              (v.local j pj)
      ];
    }

pub left-IsPhilosopher :
    (i : ℕ) → IsPhilosopher i → IsPhilosopher (get_left i) × IsPhilosopher (get_right i)
left-IsPhilosopher i p = (
  (ground (arith, p.0, p.1), ground (arith, p.0, p.1)),
  (ground (arith, p.0, p.1), ground (arith, p.0, p.1)),
)

-- Philosopher `i` passes `sem_wait(&sem[i])`.
acquire-Inv :
    (i : ℕ) (s : System)
    → s.pc i ≡ p_waiting
    → IsPhilosopher i
    → 0 < s.table.sem i
    → Inv s.pc s.table.state s.table.sem (λ _. false)
    → Inv
        (update s.pc i p_eating)
        s.table.state
        (update s.table.sem i (s.table.sem i - 1))
        (λ _. false)
acquire-Inv i s e pi up v =
    let l : Local p_waiting (s.table.state i) (s.table.sem i) = rw e at (v.local i pi) in
    record {
      apart = v.apart;
      served = v.served;
      local = λ j pj. elim (ℕ_discrete i j) [
        | yes q ↦
            rw
              (
                update_eq s.pc i p_eating j q,
                update_eq s.table.sem i (s.table.sem i - 1) j q,
                sym q,
              )
              (omega (arith, l.0, l.1), omega (arith, l.1))
        | no q ↦
            rw (update_ne s.pc i p_eating j q, update_ne s.table.sem i (s.table.sem i - 1) j q)
              (v.local j pj)
      ];
    }

pub Step-Inv :
    {s s' : System}
    → Step s s'
    → Inv s.pc s.table.state s.table.sem (λ _. false)
    → Inv s'.pc s'.table.state s'.table.sem (λ _. false)
unfolding take_forks put_forks
Step-Inv {s = s} (take i pi e) v =
    let m = set_state i hungry s.table in
    Inv-skip _ _ _ (λ j. (j == i) && not (j == i)) (λ _. false) (λ j h. ground arith)
      (test-Inv i (update s.pc i p_waiting) m (λ j. j == i) pi (hungry-Inv i s e pi v))
Step-Inv {s = s} (acquire i pi e up) v = acquire-Inv i s e pi up v
Step-Inv {s = s} (put i pi e) v =
    let m = set_state i thinking s.table in
    let (pl, pr) = left-IsPhilosopher i pi in
    Inv-skip _ _ _
      (λ j.
        ((j == get_left i || j == get_right i) && not (j == get_left i)) && not (j == get_right i))
      (λ _. false) (λ j h. ground arith)
      (test-Inv (get_right i) (update s.pc i p_thinking) (test (get_left i) m) _ pr
        (test-Inv (get_left i) (update s.pc i p_thinking) m _ pl (thinking-Inv i s e pi v)))

pub Reach-Inv : {s : System} → Reach s → Inv s.pc s.table.state s.table.sem (λ _. false)
Reach-Inv begin = record {
  apart = λ j pj a b. ground (arith, a);
  served = λ j pj n h a b. ground (arith, h);
  local = λ j pj. (refl, refl);
}
Reach-Inv (next r t) = Step-Inv t (Reach-Inv r)
