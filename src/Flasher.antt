-- ===== src/Flasher.antt =====
-- project5/task2_3/task2_3.c: a driver with a button that starts and stops the flashing of four LEDs, each
-- with its own timer. The pins, the timers and the clock are the kernel's: `hz` is its HZ, and each handler
-- is given the time. They run on one processor: the handler of the button is not interrupted, but it can
-- interrupt the handler of a timer between any two of its accesses.
pub mod Flips
pub mod Race
mod Tests
use ee.Base.{
  ℕ, zero, suc, ◌+◌, ◌*◌, ◌/◌, ◌<◌, ◌≤◌, ◌≡◌, ◌≢◌, Bool, true, false, ◌||◌, ◌⊎◌, Option, some, none,
  ltb, ◌==◌, if◌then◌else◌,
}
use ee.Base.Update.{update}

abbrev pub num_led : ℕ
num_led = 4

abbrev pub led0_gpio : ℕ
led0_gpio = 53

-- The values of the output pins and the variables. `expires`, `ptr` (the field `data`) and `pending` are of
-- the timers in `timerFactor`; `fault` is set when a timer that is pending is initialised or added, which
-- the kernel forbids.
pub record Board : Type 0 where
  pub pins : ℕ → ℕ
  pub timer_activated : ℕ
  pub expires : ℕ → ℕ
  pub ptr : ℕ → ℕ
  pub pending : ℕ → Bool
  pub fault : Bool

-- `init_timer`, `add_timer` and `del_timer`.
abbrev pub init_timer : ℕ → Board → Board
init_timer i b = record b { pending = update b.pending i false; fault = b.fault || b.pending i }

abbrev pub add_timer : ℕ → Board → Board
add_timer i b = record b { pending = update b.pending i true; fault = b.fault || b.pending i }

abbrev pub del_timer : ℕ → Board → Board
del_timer i b = record b { pending = update b.pending i false }

abbrev pub set_timer : (i at ptr : ℕ) → Board → Board
set_timer i at ptr b = record b { expires = update b.expires i at; ptr = update b.ptr i ptr }

-- The loops of `stop_timer` and `init_gpios` over the LEDs, from `i` on.
unfoldable pub stop_from : (rounds i : ℕ) → Board → Board
stop_from zero i b = b
stop_from (suc k) i b =
    let b' = del_timer i b in
    stop_from k (suc i) (record b' { pins = update b'.pins (led0_gpio + i) 0 })

unfoldable pub stop_timer : Board → Board
stop_timer b = stop_from num_led 0 b

unfoldable pub darken : (rounds i : ℕ) → (ℕ → ℕ) → ℕ → ℕ
darken zero i pins = pins
darken (suc k) i pins = darken k (suc i) (update pins (led0_gpio + i) 0)

-- `init_gpios` with all requests granted; `pins` is what the pins were.
unfoldable pub bb_module_init : (ℕ → ℕ) → Board
bb_module_init pins = record {
  pins = darken num_led 0 pins;
  timer_activated = 0;
  expires = λ i. 0;
  ptr = λ i. 0;
  pending = λ i. false;
  fault = false;
}

abbrev pub flip : ℕ → ℕ
flip cur = if cur == 0 then 1 else 0

-- Where `timer_timeout` is, with its argument and what it has read: before it reads the pin, before it
-- writes it, before it sets `expires` and before it adds the timer.
pub data Handler : Type 0 where
  entered : (ptr : ℕ) → Handler
  flipping : (ptr cur : ℕ) → Handler
  timing adding : (ptr : ℕ) → Handler

-- The board, the handler of a timer that runs, and how often each timer expired since the button was last
-- pressed.
pub data Flashing : Type 0 where
  flashing : (b : Board) (h : Option Handler) (flips : ℕ → ℕ) → Flashing

module _ (hz : ℕ) where
  unfoldable pub start_from : (rounds i now : ℕ) → Board → Board
  start_from zero i now b = b
  start_from (suc k) i now b =
      start_from k (suc i) now
        (add_timer i (set_timer i (now + (i + 1) * hz / 10) i (init_timer i b)))

  unfoldable pub start_timer : (now : ℕ) → Board → Board
  start_timer now b = start_from num_led 0 now b

  -- `state` is the value of the pin of the button: zero when it goes down.
  unfoldable pub button_isr : (state now : ℕ) → Board → Board
  button_isr state now b =
      if state == 0
      then if b.timer_activated == 0
        then record (start_timer now b) { timer_activated = 1 }
        else record (stop_timer b) { timer_activated = 0 }
      else b

  -- One access by `timer_timeout`, which is called when the timer is no longer pending.
  unfoldable pub timer_timeout : (now : ℕ) → Handler → Board → Board × Option Handler
  timer_timeout now (entered ptr) b =
      if ltb ptr 4 then (b, some (flipping ptr (b.pins (led0_gpio + ptr)))) else (b, none)
  timer_timeout now (flipping ptr cur) b =
      (record b { pins = update b.pins (led0_gpio + ptr) (flip cur) }, some (timing ptr))
  timer_timeout now (timing ptr) b =
      (record b { expires = update b.expires ptr (now + (ptr + 1) * hz / 10) }, some (adding ptr))
  timer_timeout now (adding ptr) b = (add_timer ptr b, none)

  -- Presses and releases of the button, timers once they have expired, and the handler of a timer, one at a
  -- time. If `apart`, the button is not pressed while a timer is handled.
  pub data Step (apart : Bool) : Flashing → Flashing → Type 0 where
    pressed :
        {b : Board} {h : Option Handler} {flips : ℕ → ℕ}
        → apart ≡ false ⊎ h ≡ none
        → (now : ℕ) → Step apart (flashing b h flips) (flashing (button_isr 0 now b) h (λ i. 0))
    released :
        {b : Board} {h : Option Handler} {flips : ℕ → ℕ} (state now : ℕ)
        → state ≢ 0
        → Step apart (flashing b h flips) (flashing (button_isr state now b) h flips)
    expired :
        {b : Board} {flips : ℕ → ℕ} (i now : ℕ)
        → i < num_led
        → b.pending i ≡ true
        → b.expires i ≤ now
        → Step apart
            (flashing b none flips)
            (flashing (del_timer i b) (some (entered (b.ptr i))) (update flips i (suc (flips i))))
    handled :
        {b : Board} {flips : ℕ → ℕ} (h : Handler) (now : ℕ)
        → Step apart
            (flashing b (some h) flips)
            (flashing (timer_timeout now h b).0 (timer_timeout now h b).1 flips)

  pub data Steps (apart : Bool) : Flashing → Flashing → Type 0 where
    still : {s : Flashing} → Steps apart s s
    more : {s t u : Flashing} → Steps apart s t → Step apart t u → Steps apart s u

  -- What happens from the loading of the module on, whatever the pins were.
  pub data Reach (apart : Bool) : Flashing → Type 0 where
    loaded : (pins : ℕ → ℕ) → Reach apart (flashing (bb_module_init pins) none (λ i. 0))
    next : {s t : Flashing} → Reach apart s → Step apart s t → Reach apart t
