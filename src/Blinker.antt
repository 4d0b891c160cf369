-- ===== src/Blinker.antt =====
-- project5/task2_4/task2_4.c: a driver that shows on four LEDs how often a button was pressed. The pins,
-- the timer and the clock are the kernel's: `hz` is its HZ, and each handler is given the time.
pub mod Shows
mod Tests
use ee.Base.{
  ℕ, zero, suc, ◌+◌, ◌-◌, ◌*◌, ◌/◌, ◌%◌, ◌^◌, ◌<◌, ◌≤◌, ◌≡◌, Bool, true, false, List, [], ◌∷◌, leb,
  ◌==◌, if◌then◌else◌,
}
use ee.Base.Update.{update}

abbrev pub num_led : ℕ
num_led = 4

abbrev pub led0_gpio : ℕ
led0_gpio = 53

abbrev pub lightup : ℕ
lightup = 0x06

abbrev pub lightdown : ℕ
lightdown = 0x07

abbrev pub int_max : ℕ
int_max = 2 ^ 31 - 1

-- `timerFactor`, with its field `data` as `ptr`.
pub record TimerList : Type 0 where
  pub expires : ℕ
  pub ptr : ℕ

-- The values of the output pins, the variables, and whether the timer was added and did not expire.
pub record Board : Type 0 where
  pub pins : ℕ → ℕ
  pub counter : ℕ
  pub start_time : ℕ
  pub timer_factor : TimerList
  pub pending : Bool

-- `counter & (1 << i)` is not zero.
abbrev pub bit : ℕ → ℕ → ℕ
bit c i = c / 2 ^ i % 2

-- The two loops of `timer_timeout` over the LEDs, from `i` on.
unfoldable pub light : (rounds i : ℕ) → ℕ → (ℕ → ℕ) → ℕ → ℕ
light zero i c pins = pins
light (suc k) i c pins =
    light k (suc i) c (if bit c i == 0 then pins else update pins (led0_gpio + i) 1)

unfoldable pub darken : (rounds i : ℕ) → (ℕ → ℕ) → ℕ → ℕ
darken zero i pins = pins
darken (suc k) i pins = darken k (suc i) (update pins (led0_gpio + i) 0)

-- The count that a short press gives.
unfoldable pub count_up : ℕ → ℕ
count_up c = if suc c == int_max then 0 else suc c

module _ (hz : ℕ) where
  -- `state` is the value of the pin of the button: zero when it goes down.
  unfoldable pub button_isr : (state now : ℕ) → Board → Board
  button_isr state now b =
      if state == 0
      then record b { start_time = now }
      else if leb ((now + 2 ^ 64 - b.start_time) % 2 ^ 64) hz
      then record b { counter = count_up b.counter }
      else record b { counter = 0 }

  -- Called when the timer is no longer pending.
  unfoldable pub timer_timeout : (now ptr : ℕ) → Board → Board
  timer_timeout now ptr b =
      if ptr == lightdown
      then record b {
        pins = light num_led 0 b.counter b.pins;
        timer_factor = record { expires = now + 8 * hz / 10; ptr = lightup };
        pending = true;
      }
      else if ptr == lightup
      then record b {
        pins = darken num_led 0 b.pins;
        timer_factor = record { expires = now + 2 * hz / 10; ptr = lightdown };
        pending = true;
      }
      else record b { pending = true }

  unfoldable pub start_timer : ℕ → Board → Board
  start_timer now b = record b {
    timer_factor = record { expires = now + 2 * hz / 10; ptr = lightdown };
    pending = true;
  }

  -- `init_gpios` with all requests granted, then `start_timer`; `pins` is what the pins were.
  unfoldable pub bb_module_init : (now : ℕ) → (ℕ → ℕ) → Board
  bb_module_init now pins = start_timer now (record {
    pins = darken num_led 0 pins;
    counter = 0;
    start_time = 0;
    timer_factor = record { expires = 0; ptr = 0 };
    pending = false;
  })

  -- A press or release of the button, or the timer once it has expired.
  pub data Step : Board → Board → Type 0 where
    button : {b : Board} → (state now : ℕ) → Step b (button_isr state now b)
    timer :
        {b : Board}
        → (now : ℕ) → b.pending ≡ true
        → b.timer_factor.expires ≤ now
        → Step b (timer_timeout now b.timer_factor.ptr (record b { pending = false }))

  pub data Reach : Board → Type 0 where
    loaded : (now : ℕ) (pins : ℕ → ℕ) → Reach (bb_module_init now pins)
    next : {b c : Board} → Reach b → Step b c → Reach c

-- `stop_timer`
unfoldable pub stop_timer : Board → Board
stop_timer b = record b { pins = darken num_led 0 b.pins; pending = false }
