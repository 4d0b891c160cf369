-- ===== src/Blinker/Tests.antt =====
-- The LEDs of project5/task2_4/task2_4.c on concrete presses.
use ee.Base.{◌≡◌, refl}
use ee.Blinker.{Board, button_isr, bb_module_init, count_up, start_timer}

-- A press of half a second and its release, at 100 ticks in a second.
abbrev pressed : Board
pressed = button_isr 100 1 150 (button_isr 100 0 100 (bb_module_init 100 7 (λ p. 1)))

counted : pressed.counter ≡ 1
unfolding button_isr bb_module_init start_timer count_up
counted = refl
