-- ===== src/Flasher/Flips.antt =====
-- What the LEDs of project5/task2_3/task2_3.c do.
use mathlib.Core.Path.{subst}
use mathlib.Core.Bool.{true≢false}
use ee.Base.{
  ℕ, zero, suc, ◌+◌, ◌%◌, ◌<◌, ◌≡◌, ◌≢◌, refl, sym, ◌∙◌, true, false, ltb, ◌==◌, if◌then◌else◌,
  arith, ℕ_discrete, ==_refl, ◌⊎◌, inl, inr, not, Bool, Option, some, none,
}
use ee.Base.Update.{update}
use ee.Flasher.{
  num_led, led0_gpio, Board, add_timer, del_timer, stop_timer, stop_from, darken, bb_module_init,
  start_from, start_timer, button_isr, timer_timeout, flip, Reach, loaded, next, pressed, released,
  expired, handled, Handler, entered, flipping, timing, adding, Flashing, flashing, Step,
}

-- An LED that is off, with its timer.
pub record IsOff (b : Board) (i : ℕ) : Type 0 where
  pub dark : b.pins (led0_gpio + i) ≡ 0
  pub idle : b.pending i ≡ false

-- The timer that is handled.
abbrev pub handles : Option Handler → ℕ → Bool
handles none i = false
handles (some (entered ptr)) i = ptr == i
handles (some (flipping ptr cur)) i = ptr == i
handles (some (timing ptr)) i = ptr == i
handles (some (adding ptr)) i = ptr == i

-- 1 for an LED that is still to be flipped by the handler of its timer.
abbrev pub owed : Option Handler → ℕ → ℕ
owed (some (entered ptr)) i = if ptr == i then 1 else 0
owed (some (flipping ptr cur)) i = if ptr == i then 1 else 0
owed h i = 0

-- An LED that has been flipped, or is to be flipped by the handler that runs, `n` times since it was dark,
-- and whose timer has the LED's number and is pending unless it is handled.
pub record IsFlashing (b : Board) (h : Option Handler) (n i : ℕ) : Type 0 where
  pub shown : b.pins (led0_gpio + i) ≡ (n + owed h i) % 2
  pub armed : b.pending i ≡ not (handles h i)
  pub own : b.ptr i ≡ i

-- The handler has a timer's number, and what it read of its pin still stands there.
abbrev pub IsCurrent : Board → Handler → Type 0
IsCurrent b (entered ptr) = ptr < num_led
IsCurrent b (flipping ptr cur) = (ptr < num_led) × (b.pins (led0_gpio + ptr) ≡ cur)
IsCurrent b (timing ptr) = ptr < num_led
IsCurrent b (adding ptr) = ptr < num_led

-- Flashing is off: all LEDs are off, and no timer is handled.
abbrev pub IsDark : Board → Option Handler → Type 0
IsDark b none = (b.timer_activated ≡ 0) × ((i : ℕ) → i < num_led → IsOff b i)
IsDark b (some h) = ⊥

-- Flashing is on.
abbrev pub IsRunning : Board → Option Handler → (ℕ → ℕ) → Type 0
IsRunning b none flips =
    (b.timer_activated ≡ 1) × ((i : ℕ) → i < num_led → IsFlashing b none (flips i) i)
IsRunning b (some h) flips =
    (b.timer_activated ≡ 1)
    × ((i : ℕ) → i < num_led → IsFlashing b (some h) (flips i) i)
    × IsCurrent b h

pub each : (P : ℕ → Type 0) → P 0 → P 1 → P 2 → P 3 → (i : ℕ) → i < num_led → P i
each P a b c d zero h = a
each P a b c d (suc zero) h = b
each P a b c d (suc (suc zero)) h = c
each P a b c d (suc (suc (suc zero))) h = d
each P a b c d (suc (suc (suc (suc i)))) h = absurd (omega arith)

abbrev pub Inv : Flashing → Type 0
Inv (flashing b h flips) = (b.fault ≡ false) × (IsDark b h ⊎ IsRunning b h flips)

loading : (pins : ℕ → ℕ) → Inv (flashing (bb_module_init pins) none (λ i. 0))
unfolding bb_module_init darken
loading pins = (
  refl,
  inl (
    refl,
    each (IsOff (bb_module_init pins)) (record { dark = refl; idle = refl })
        (record { dark = refl; idle = refl }) (record { dark = refl; idle = refl })
        (record { dark = refl; idle = refl }),
  ),
)

stopping :
    (b : Board)
    → b.fault ≡ false
    → Inv (flashing (record (stop_timer b) { timer_activated = 0 }) none (λ i. 0))
unfolding stop_timer stop_from
stopping b f = (
  f,
  inl (
    refl,
    each (IsOff (record (stop_timer b) { timer_activated = 0 }))
        (record { dark = refl; idle = refl }) (record { dark = refl; idle = refl })
        (record { dark = refl; idle = refl }) (record { dark = refl; idle = refl }),
  ),
)

Busy : Option Handler → Type 0
Busy none = ⊥
Busy (some h) = Unit

module _ (hz : ℕ) where
  starting :
      (now : ℕ) (b : Board)
      → b.fault ≡ false
      → ((i : ℕ) → i < num_led → IsOff b i)
      → Inv (flashing (record (start_timer hz now b) { timer_activated = 1 }) none (λ i. 0))
  unfolding start_timer start_from
  starting now b f off = (
    rw
        (
          (off 0 (omega arith)).idle,
          (off 1 (omega arith)).idle,
          (off 2 (omega arith)).idle,
          (off 3 (omega arith)).idle,
          f,
        )
        refl,
    inr (
      refl,
      each (IsFlashing (record (start_timer hz now b) { timer_activated = 1 }) none 0)
          (record { shown = (off 0 (omega arith)).dark; armed = refl; own = refl })
          (record { shown = (off 1 (omega arith)).dark; armed = refl; own = refl })
          (record { shown = (off 2 (omega arith)).dark; armed = refl; own = refl })
          (record { shown = (off 3 (omega arith)).dark; armed = refl; own = refl }),
    ),
  )

  flip_lem : (cur n : ℕ) → cur ≡ (n + 1) % 2 → flip cur ≡ (n + 0) % 2
  flip_lem cur n e = ground arith

  pub started :
      (now : ℕ) (b : Board)
      → b.timer_activated ≡ 0
      → button_isr hz 0 now b ≡ record (start_timer hz now b) { timer_activated = 1 }
  unfolding button_isr
  started now b a = by_state a
    where
      by_state :
          {t : ℕ}
          → t ≡ 0
          → (if t == 0
              then record (start_timer hz now b) { timer_activated = 1 }
              else record (stop_timer b) { timer_activated = 0 })
            ≡ record (start_timer hz now b) { timer_activated = 1 }
      by_state e = rw e refl

  pub stopped :
      (now : ℕ) (b : Board)
      → b.timer_activated ≡ 1
      → button_isr hz 0 now b ≡ record (stop_timer b) { timer_activated = 0 }
  unfolding button_isr
  stopped now b a = by_state a
    where
      by_state :
          {t : ℕ}
          → t ≡ 1
          → (if t == 0
              then record (start_timer hz now b) { timer_activated = 1 }
              else record (stop_timer b) { timer_activated = 0 })
            ≡ record (stop_timer b) { timer_activated = 0 }
      by_state e = rw e refl

  unpressed : (state now : ℕ) (b : Board) → state ≢ 0 → button_isr hz state now b ≡ b
  unfolding button_isr
  unpressed state now b ne = rw up refl
    where
      up : (state == 0) ≡ false
      up = ground arith

  -- The handler of timer `i` starts.
  expiring :
      (b : Board) (flips : ℕ → ℕ) (i : ℕ)
      → b.fault ≡ false
      → IsRunning b none flips
      → i < num_led
      → Inv (flashing (del_timer i b) (some (entered i)) (update flips i (suc (flips i))))
  expiring b flips i f (a, fl) lt = (f, inr (a, by_led, lt))
    where
      by_led :
          (j : ℕ)
          → j < num_led
          → IsFlashing (del_timer i b) (some (entered i)) (update flips i (suc (flips i)) j) j
      by_led j h = elim (ℕ_discrete i j) [
        | yes e ↦
            subst
              (λ j.
                IsFlashing (del_timer i b) (some (entered i)) (update flips i (suc (flips i)) j) j)
              e
              (record {
                shown = rw (==_refl i, (fl i lt).shown) (twice (flips i));
                armed = rw (==_refl i) refl;
                own = (fl i lt).own;
              })
        | no ne ↦ record {
          shown = rw (differ ne) (fl j h).shown;
          armed = rw (differ ne) (fl j h).armed;
          own = (fl j h).own;
        }
      ]
        where
          differ : i ≢ j → (i == j) ≡ false
          differ ne = ground arith

          twice : (n : ℕ) → (n + 0) % 2 ≡ (suc n + 1) % 2
          twice n = omega arith

  -- What a step of the handler does to an LED.
  handling :
      (b : Board) (flips : ℕ → ℕ) (h : Handler) (now : ℕ)
      → b.fault ≡ false
      → IsRunning b (some h) flips
      → Inv (flashing (timer_timeout hz now h b).0 (timer_timeout hz now h b).1 flips)
  unfolding timer_timeout
  handling b flips (entered ptr) now f (a, fl, lt) = rw (below) (f, inr (a, by_led, (lt, refl)))
    where
      below : ltb ptr 4 ≡ true
      below = ground arith

      by_led :
          (i : ℕ)
          → i < num_led
          → IsFlashing b (some (flipping ptr (b.pins (led0_gpio + ptr)))) (flips i) i
      by_led i h = record { shown = (fl i h).shown; armed = (fl i h).armed; own = (fl i h).own }
  handling b flips (flipping ptr cur) now f (a, fl, (lt, e)) = (f, inr (a, by_led, lt))
    where
      flipped : Board
      flipped = record b { pins = update b.pins (led0_gpio + ptr) (flip cur) }

      by_led : (i : ℕ) → i < num_led → IsFlashing flipped (some (timing ptr)) (flips i) i
      by_led i h = elim (ℕ_discrete ptr i) [
        | yes q ↦
            subst (λ i. IsFlashing flipped (some (timing ptr)) (flips i) i) q
              (record {
                shown =
                    rw (==_refl (led0_gpio + ptr)) (
                      flip_lem cur (flips ptr) (sym e ∙ (fl ptr lt).shown ∙ rw (==_refl ptr) refl));
                armed = (fl ptr lt).armed;
                own = (fl ptr lt).own;
              })
        | no ne ↦ record {
          shown = rw (others ne) ((fl i h).shown ∙ rw (differ ne) refl);
          armed = (fl i h).armed;
          own = (fl i h).own;
        }
      ]
        where
          differ : ptr ≢ i → (ptr == i) ≡ false
          differ ne = ground arith

          others : ptr ≢ i → (led0_gpio + ptr == led0_gpio + i) ≡ false
          others ne = ground arith
  handling b flips (timing ptr) now f (a, fl, lt) = (
    f,
    inr (
      a,
      (λ i h. record { shown = (fl i h).shown; armed = (fl i h).armed; own = (fl i h).own }),
      lt,
    ),
  )
  handling b flips (adding ptr) now f (a, fl, lt) =
      (rw (f, (fl ptr lt).armed, ==_refl ptr) refl, inr (a, by_led))
    where
      by_led : (i : ℕ) → i < num_led → IsFlashing (add_timer ptr b) none (flips i) i
      by_led i h = record {
        shown = (fl i h).shown;
        armed = by_handled (ptr == i) (fl i h).armed;
        own = (fl i h).own;
      }
        where
          by_handled : (c : Bool) → b.pending i ≡ not c → (if c then true else b.pending i) ≡ true
          by_handled true e = refl
          by_handled false e = e

  Step-Inv : {s t : Flashing} → Step hz true s t → Inv s → Inv t
  unfolding Busy
  Step-Inv (pressed {b} {h = none} {flips} q now) (f, inl (a, off)) =
      subst (λ c. Inv (flashing c none (λ i. 0))) (sym (started now b a)) (starting now b f off)
  Step-Inv (pressed {b} {h = none} {flips} q now) (f, inr (a, fl)) =
      subst (λ c. Inv (flashing c none (λ i. 0))) (sym (stopped now b a)) (stopping b f)
  Step-Inv (pressed {b} {h = some h} {flips} (inl e) now) v = absurd (true≢false e)
  Step-Inv (pressed {b} {h = some h} {flips} (inr e) now) v = absurd (subst Busy e tt)
  Step-Inv (released {b} {h} {flips} state now ne) v =
      subst (λ c. Inv (flashing c h flips)) (sym (unpressed state now b ne)) v
  Step-Inv (expired {b} {flips} i now lt p e) (f, inl (a, off)) =
      absurd (true≢false (sym p ∙ (off i lt).idle))
  Step-Inv (expired {b} {flips} i now lt p e) (f, inr (a, fl)) =
      subst
        (λ j. Inv (flashing (del_timer i b) (some (entered j)) (update flips i (suc (flips i)))))
        (sym (fl i lt).own) (expiring b flips i f (a, fl) lt)
  Step-Inv (handled {b} {flips} h now) (f, inl dark) = absurd dark
  Step-Inv (handled {b} {flips} h now) (f, inr v) = handling b flips h now f v

-- If the button is never pressed while a timer is handled, then whatever the order of presses, releases,
-- expiries of the timers and steps of their handlers: no timer is added or initialised while it is
-- pending. If flashing is off, no timer is handled or pending and all LEDs are dark. If it is on, each LED
-- has been flipped once for each expiry of its timer since the button was pressed, except one that the
-- running handler is still to flip, and its timer, which has the LED's own number, is pending unless it is
-- being handled.
pub flashes : (hz : ℕ) {s : Flashing} → Reach hz true s → Inv s
flashes hz (loaded pins) = loading pins
flashes hz (next r t) = Step-Inv hz t (flashes hz r)
