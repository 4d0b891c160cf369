-- ===== src/Blinker/Shows.antt =====
-- What the LEDs of project5/task2_4/task2_4.c show.
use mathlib.Core.Path.{subst}
use ee.Base.{
  ℕ, zero, suc, ◌+◌, ◌*◌, ◌/◌, ◌<◌, ◌≤◌, ◌≡◌, ◌≢◌, ◌⊎◌, refl, sym, ◌∙◌, arith, ◌==◌, if◌then◌else◌,
  true, ℕ_discrete,
}
use ee.Base.Update.{update}
use ee.Blinker.{num_led, led0_gpio, lightup, lightdown, int_max, Board, bit, light, darken}

-- All LEDs are off, or they show the low bits of a count.
abbrev pub IsDark : (ℕ → ℕ) → Type 0
IsDark pins = (i : ℕ) → i < num_led → pins (led0_gpio + i) ≡ 0

abbrev pub Shows : ℕ → (ℕ → ℕ) → Type 0
Shows c pins = (i : ℕ) → i < num_led → pins (led0_gpio + i) ≡ bit c i

darken_before :
    (k i : ℕ) (pins : ℕ → ℕ) (j : ℕ)
    → j < i
    → darken k i pins (led0_gpio + j) ≡ pins (led0_gpio + j)
unfolding darken
darken_before zero i pins j lt = refl
darken_before (suc k) i pins j lt =
    ground (arith, darken_before k (suc i) (update pins (led0_gpio + i) 0) j)

darken-at :
    (k i : ℕ) (pins : ℕ → ℕ) (j : ℕ) → i ≤ j → j < i + k → darken k i pins (led0_gpio + j) ≡ 0
unfolding darken
darken-at zero i pins j le lt = absurd (omega arith)
darken-at (suc k) i pins j le lt = ground (
  arith,
  darken_before k (suc i) (update pins (led0_gpio + i) 0) j,
  darken-at k (suc i) (update pins (led0_gpio + i) 0) j,
)

pub darken-IsDark : (pins : ℕ → ℕ) → IsDark (darken num_led 0 pins)
darken-IsDark pins i lt = darken-at num_led 0 pins i (omega arith) lt

light_before :
    (k i c : ℕ) (pins : ℕ → ℕ) (j : ℕ)
    → j < i
    → light k i c pins (led0_gpio + j) ≡ pins (led0_gpio + j)
unfolding light
light_before zero i c pins j lt = refl
light_before (suc k) i c pins j lt = ground (
  arith,
  light_before k (suc i) c (if bit c i == 0 then pins else update pins (led0_gpio + i) 1) j,
)

bit_lit :
    (c i : ℕ) (pins : ℕ → ℕ)
    → pins (led0_gpio + i) ≡ 0
    → (if bit c i == 0 then pins else update pins (led0_gpio + i) 1) (led0_gpio + i) ≡ bit c i
bit_lit c i pins z = ground arith

bit_other :
    (c i j : ℕ) (pins : ℕ → ℕ)
    → i ≢ j
    → (if bit c i == 0 then pins else update pins (led0_gpio + i) 1) (led0_gpio + j)
      ≡ pins (led0_gpio + j)
bit_other c i j pins ne = ground arith

light-at :
    (k i c : ℕ) (pins : ℕ → ℕ) (j : ℕ)
    → i ≤ j
    → j < i + k
    → pins (led0_gpio + j) ≡ 0
    → light k i c pins (led0_gpio + j) ≡ bit c j
unfolding light
light-at zero i c pins j le lt z = absurd (omega arith)
light-at (suc k) i c pins j le lt z =
    let after = if bit c i == 0 then pins else update pins (led0_gpio + i) 1 in
    elim (ℕ_discrete i j) [
      | yes e ↦
          light_before k (suc i) c after j (omega arith)
          ∙ subst
              (λ x.
                (if bit c x == 0 then pins else update pins (led0_gpio + x) 1) (led0_gpio + j)
                ≡ bit c j)
              (sym e) (bit_lit c j pins z)
      | no ne ↦
          light-at k (suc i) c after j (omega arith) (omega arith) (bit_other c i j pins ne ∙ z)
    ]

pub light-Shows : (c : ℕ) (pins : ℕ → ℕ) → IsDark pins → Shows c (light num_led 0 c pins)
light-Shows c pins d i lt = light-at num_led 0 c pins i (omega arith) lt (d i lt)

-- What holds of the board while the module is loaded.
pub record IsValid (b : Board) : Type 0 where
  pub pending : b.pending ≡ true
  pub counted : b.counter < int_max
  pub phase : ((b.timer_factor.ptr ≡ lightdown) × IsDark b.pins) ⊎ (b.timer_factor.ptr ≡ lightup)

module _ (hz : ℕ) where
  -- The LEDs and the timer after it expired.
  pub record Expired (now : ℕ) (b c : Board) : Type 0 where
    pub pending : c.pending ≡ true
    pub counter : c.counter ≡ b.counter
    pub phase :
        ((b.timer_factor.ptr ≡ lightdown)
          × (c.timer_factor ≡ record { expires = now + 8 * hz / 10; ptr = lightup })
          × Shows b.counter c.pins)
        ⊎ ((b.timer_factor.ptr ≡ lightup)
            × (c.timer_factor ≡ record { expires = now + 2 * hz / 10; ptr = lightdown })
            × IsDark c.pins)
