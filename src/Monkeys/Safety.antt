-- ===== src/Monkeys/Safety.antt =====
-- What holds in every state that project3/task1_training_monkeys.c reaches.
use ee.Base.{
  ℕ, ℕ_discrete, ◌+◌, ◌≤◌, ◌<◌, ◌≡◌, ◌⊎◌, refl, none, some, ltb, if◌then◌else◌, false, arith,
}
use ee.Base.Update.{total-eq-zero, pair-le-total}
use ee.Monkeys.{
  Pc, bowl_chosen, bowl_known, waiting, fed, releasing, max_monkeys, target_training, new_monkey,
  Monkey, System, Reach,
}
use ee.Monkeys.{max_monkeys, target_training, new_monkey, Monkey, System, Reach}
use ee.Monkeys.Weights.{bowl_at, room_at, full_at, waiting_at, trained_at, IsSound}
use ee.Monkeys.Inv.{weight_of, ball_of, all, Reach-Inv}

-- Members with a share of one unit are one.
one_holder :
    (s : System) (w : Monkey → ℕ) (t u : ℕ) (x : Monkey)
    → w x ≡ 0
    → all w s ≤ 1
    → t < s.threads
    → u < s.threads
    → 0 < w (s.monkeys t)
    → 0 < w (s.monkeys u)
    → t ≡ u
one_holder s w t u x z le lt lu a b = elim (ℕ_discrete t u) [
  | yes e ↦ e
  | no ne ↦ absurd (omega (arith, pair-le-total w s.threads s.monkeys t u x z lt lu ne))
]

abbrev outsider : Monkey
outsider = record { id = 0; first = 0; second = 0; pc = new_monkey }

-- No two monkeys have the same ball, taken or reserved.
pub ball_exclusive :
    {s : System} (b t u : ℕ)
    → Reach s
    → t < s.threads
    → u < s.threads
    → 0 < ball_of b (s.monkeys t)
    → 0 < ball_of b (s.monkeys u)
    → t ≡ u
ball_exclusive {s} b t u r lt lu x y =
    one_holder s (ball_of b) t u outsider refl (omega (arith, (Reach-Inv r).ball b)) lt lu x y

-- A monkey that `acquireProperBowl` gave no bowl, or one that there is not.
abbrev pub bowlless_at : Pc → ℕ
bowlless_at (bowl_chosen none) = 1
bowlless_at (bowl_known none) = 1
bowlless_at (waiting none) = 1
bowlless_at (bowl_chosen (some i)) = if ltb i 2 then 0 else 1
bowlless_at (bowl_known (some i)) = if ltb i 2 then 0 else 1
bowlless_at (waiting (some i)) = if ltb i 2 then 0 else 1
bowlless_at (fed i) = if ltb i 2 then 0 else 1
bowlless_at (releasing i) = if ltb i 2 then 0 else 1
bowlless_at _ = 0

bowlless_sound : (p : Pc) → IsSound p → bowlless_at p ≡ 0
bowlless_sound (bowl_chosen o) (i, e, lt) = rw e (ground arith)
bowlless_sound (bowl_known o) (i, e, lt) = rw e (ground arith)
bowlless_sound (waiting o) (i, e, lt) = rw e (ground arith)
bowlless_sound (fed i) h = ground arith
bowlless_sound (releasing i) h = ground arith
bowlless_sound p h = ground arith

-- In every state that is reached: each bowl is used by one monkey at most, and the array `bowls_usage`
-- says how many use it; no monkey came out of `acquireProperBowl` without one of the two bowls; and
-- `bowls_detail` was never accessed outside its bounds.
pub bowl_exclusive :
    {s : System} (b : ℕ)
    → Reach s
    → (all (weight_of (bowl_at b)) s ≤ 1)
      × (s.mem.bowls_usage b ≡ all (weight_of (bowl_at b)) s)
      × (all (weight_of bowlless_at) s ≡ 0)
      × (s.mem.fault ≡ false)
bowl_exclusive {s} b r =
    let inv = Reach-Inv r in
    (
      omega (arith, inv.usage b, inv.used_once b),
      inv.usage b,
      total-eq-zero (weight_of bowlless_at) s.threads s.monkeys
          (λ t lt. bowlless_sound (s.monkeys t).pc (inv.each t lt).sound),
      inv.in_bounds,
    )

-- At most four monkeys are in the room and at most two have a claim on a bowl; the bananas that are on
-- their way or in the bowls are no more than the monkeys that wait for one; and the program ends only
-- after 300 monkeys have ended their training.
room_and_bowls :
    {s : System}
    → Reach s
    → (all (weight_of room_at) s ≤ max_monkeys)
      × (all (weight_of full_at) s ≤ 2)
      × (s.mem.bowls_detail 0 + s.mem.bowls_detail 1 ≤ all (weight_of waiting_at) s)
      × ((s.mem.finished ≡ false) ⊎ (target_training ≤ all (weight_of trained_at) s))
room_and_bowls {s} r =
    let inv = Reach-Inv r in
    (
      omega (arith, inv.room),
      omega (arith, inv.full),
      omega (arith, inv.bananas),
      ground (arith, inv.finished, inv.trained),
    )
