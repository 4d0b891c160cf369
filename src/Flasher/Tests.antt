-- ===== src/Flasher/Tests.antt =====
-- A press of the button of project5/task2_3/task2_3.c, an expiry of the first timer, and a press while it is
-- handled.
use ee.Base.{ℕ, some, none, false, true, refl, arith, inr}
use ee.Base.Update.{update}
use ee.Flasher.{
  Board, entered, flipping, timing, adding, flashing, Step, Steps, Reach, loaded, next, pressed,
  expired, handled, bb_module_init, button_isr, timer_timeout, del_timer, darken, start_timer,
  start_from,
}
use ee.Flasher.Flips.{Inv, flashes}
use ee.Flasher.Race.{IsLeftBehind, stop_race}

abbrev on : Board
on = button_isr 100 0 1000 (bb_module_init (λ i. 1))

abbrev one_flip : ℕ → ℕ
one_flip = update (λ i. 0) 0 1

abbrev expiry : Board
expiry = del_timer 0 on

abbrev lit : Board
lit = (timer_timeout 100 1010 (flipping 0 0) expiry).0

abbrev set : Board
set = (timer_timeout 100 1010 (timing 0) lit).0

abbrev once : Board
once = (timer_timeout 100 1011 (adding 0) set).0

entered-Reach : Reach 100 true (flashing expiry (some (entered 0)) one_flip)
unfolding bb_module_init button_isr darken start_timer start_from
entered-Reach =
    next (next (loaded (λ i. 1)) (pressed (inr refl) 1000))
      (expired 0 1010 (omega arith) refl (omega arith))

once-Reach : Reach 100 true (flashing once none one_flip)
unfolding bb_module_init button_isr timer_timeout darken start_timer start_from
once-Reach =
    next
      (next (next (next entered-Reach (handled (entered 0) 1010)) (handled (flipping 0 0) 1010))
        (handled (timing 0) 1010))
      (handled (adding 0) 1011)

flashes_example : Inv (flashing once none one_flip)
flashes_example = flashes 100 once-Reach

stop_race_example :
    Step 100 false
      (flashing expiry (some (entered 0)) one_flip)
      (flashing (button_isr 100 0 1010 expiry) (some (entered 0)) (λ i. 0))
    × (c : Board) × Steps 100 true
        (flashing (button_isr 100 0 1010 expiry) (some (entered 0)) (λ i. 0))
        (flashing c none (λ i. 0))
    × IsLeftBehind 100 0 c
stop_race_example = stop_race 100 entered-Reach 1010
