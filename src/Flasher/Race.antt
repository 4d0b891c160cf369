-- ===== src/Flasher/Race.antt =====
-- A press of the button of project5/task2_3/task2_3.c while a timer is handled.
use mathlib.Core.Path.{subst}
use ee.Base.{
  ◌⊎◌, ◌∙◌, ap, ℕ, ◌+◌, ◌<◌, ◌≡◌, refl, Bool, true, false, ◌||◌, some, none, ltb, arith, ==_refl,
  inl, inr,
}
use ee.Flasher.{
  num_led, led0_gpio, Board, Handler, entered, flipping, timing, adding, Flashing, flashing, Step,
  Steps, still, more, Reach, pressed, handled, button_isr, timer_timeout, start_timer, start_from,
}
use ee.Flasher.Flips.{Inv, flashes, each, started, stopped, IsCurrent}

-- The number of the timer that is handled.
abbrev pub timer_of : Handler → ℕ
timer_of (entered ptr) = ptr
timer_of (flipping ptr cur) = ptr
timer_of (timing ptr) = ptr
timer_of (adding ptr) = ptr

-- Flashing is off and no timer is handled, but timer `i` is pending, so the next press initialises a timer
-- that is pending.
abbrev pub IsLeftBehind : (hz i : ℕ) → Board → Type 0
IsLeftBehind hz i b =
    (b.timer_activated ≡ 0)
    × (b.pending i ≡ true)
    × ((at : ℕ) → (button_isr hz 0 at b).fault ≡ true)

-- How the handler that is in `h` ends: with a board of which the timer is pending.
abbrev EndsPending : (hz : ℕ) → Board → Handler → (ℕ → ℕ) → Type 0
EndsPending hz b h flips =
    (b' : Board) × Steps hz true (flashing b (some h) flips) (flashing b' none flips)
    × (b'.timer_activated ≡ b.timer_activated)
    × (b'.pending (timer_of h) ≡ true)

module _ (hz : ℕ) (flips : ℕ → ℕ) where
  prefix :
      {b c : Board} {h k : Handler} {b' : Board}
      → Step hz true (flashing b (some h) flips) (flashing c (some k) flips)
      → Steps hz true (flashing c (some k) flips) (flashing b' none flips)
      → Steps hz true (flashing b (some h) flips) (flashing b' none flips)
  prefix s r = first s r
    where
      first : {s t u : Flashing} → Step hz true s t → Steps hz true t u → Steps hz true s u
      first s still = more still s
      first s (more r t) = more (first s r) t

  adding_ends : (b : Board) (ptr : ℕ) → EndsPending hz b (adding ptr) flips
  unfolding timer_timeout
  adding_ends b ptr = (_, more still (handled (adding ptr) 0), refl, rw (==_refl ptr) refl)

  timing_ends : (b : Board) (ptr : ℕ) → EndsPending hz b (timing ptr) flips
  unfolding timer_timeout
  timing_ends b ptr =
      let (b', r, a, p) = adding_ends (timer_timeout hz 0 (timing ptr) b).0 ptr in
      (b', prefix (handled (timing ptr) 0) r, a, p)

  flipping_ends : (b : Board) (ptr cur : ℕ) → EndsPending hz b (flipping ptr cur) flips
  unfolding timer_timeout
  flipping_ends b ptr cur =
      let (b', r, a, p) = timing_ends (timer_timeout hz 0 (flipping ptr cur) b).0 ptr in
      (b', prefix (handled (flipping ptr cur) 0) r, a, p)

  entered_ends : (b : Board) (ptr : ℕ) → ptr < num_led → EndsPending hz b (entered ptr) flips
  unfolding timer_timeout
  entered_ends b ptr lt =
      let (b', r, a, p) = flipping_ends b ptr (b.pins (led0_gpio + ptr)) in
      (
        b',
        prefix
            (subst (Step hz true (flashing b (some (entered ptr)) flips)) entering
              (handled (entered ptr) 0))
            r,
        a,
        p,
      )
    where
      entering :
          flashing
            (timer_timeout hz 0 (entered ptr) b).0
            (timer_timeout hz 0 (entered ptr) b).1
            flips
          ≡ flashing b (some (flipping ptr (b.pins (led0_gpio + ptr)))) flips
      entering = rw (below) refl
        where
          below : ltb ptr 4 ≡ true
          below = ground arith

  ends : (b : Board) (h : Handler) → timer_of h < num_led → EndsPending hz b h flips
  ends b (entered ptr) lt = entered_ends b ptr lt
  ends b (flipping ptr cur) lt = flipping_ends b ptr cur
  ends b (timing ptr) lt = timing_ends b ptr
  ends b (adding ptr) lt = adding_ends b ptr

  faulty :
      (b : Board) (i now : ℕ)
      → i < num_led
      → b.pending i ≡ true
      → (start_timer hz now b).fault ≡ true
  unfolding start_timer start_from
  faulty b i now lt =
      each (λ i. b.pending i ≡ true → (start_timer hz now b).fault ≡ true)
        (λ e. by_pending (b.pending 0) (b.pending 1) (b.pending 2) (b.pending 3) b.fault (inl e))
        (λ e.
          by_pending (b.pending 0) (b.pending 1) (b.pending 2) (b.pending 3) b.fault (inr (inl e)))
        (λ e.
          by_pending (b.pending 0) (b.pending 1) (b.pending 2) (b.pending 3) b.fault
            (inr (inr (inl e))))
        (λ e.
          by_pending (b.pending 0) (b.pending 1) (b.pending 2) (b.pending 3) b.fault
            (inr (inr (inr e))))
        i lt
    where
      by_pending :
          (p q r s f : Bool)
          → p ≡ true ⊎ (q ≡ true ⊎ (r ≡ true ⊎ s ≡ true))
          → (((((((f || p) || false) || q) || false) || r) || false) || s) || false ≡ true
      by_pending p q r s f e = ground arith

  IsCurrent-timer_of : (b : Board) (h : Handler) → IsCurrent b h → timer_of h < num_led
  IsCurrent-timer_of b (entered ptr) c = c
  IsCurrent-timer_of b (flipping ptr cur) c = c.0
  IsCurrent-timer_of b (timing ptr) c = c
  IsCurrent-timer_of b (adding ptr) c = c

-- If the button is pressed while a timer of flashing LEDs is handled, at any access of the handler, and is
-- then left alone, the handler can end with flashing off but its timer pending. The next press, at
-- whatever time, then initialises a timer that is pending.
pub stop_race :
    (hz : ℕ) {b : Board} {h : Handler} {flips : ℕ → ℕ}
    → Reach hz true (flashing b (some h) flips)
    → (now : ℕ)
    → Step hz false (flashing b (some h) flips) (flashing (button_isr hz 0 now b) (some h) (λ i. 0))
      × (c : Board) × Steps hz true
          (flashing (button_isr hz 0 now b) (some h) (λ i. 0))
          (flashing c none (λ i. 0))
      × IsLeftBehind hz (timer_of h) c
stop_race hz {b} {h} {flips} r now = by_mode (flashes hz r)
  where
    by_mode :
        Inv (flashing b (some h) flips)
        → Step hz false
            (flashing b (some h) flips)
            (flashing (button_isr hz 0 now b) (some h) (λ i. 0))
          × (c : Board) × Steps hz true
              (flashing (button_isr hz 0 now b) (some h) (λ i. 0))
              (flashing c none (λ i. 0))
          × IsLeftBehind hz (timer_of h) c
    by_mode (f, inl dark) = absurd dark
    by_mode (f, inr (a, fl, c)) =
        let lt = IsCurrent-timer_of hz flips b h c in
        let (d, r', a', p) = ends hz (λ i. 0) (button_isr hz 0 now b) h lt in
        let off = a' ∙ ap (λ b. b.timer_activated) (stopped hz now b a) in
        (
          pressed (inl refl) now,
          d,
          r',
          (
            off,
            p,
            λ at. ap (λ b. b.fault) (started hz at d off) ∙ faulty hz flips d (timer_of h) at lt p,
          ),
        )
