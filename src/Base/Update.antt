-- ===== src/Base/Update.antt =====
-- Families `ℕ → A` indexed by thread or address: update at one index, sums over the first `n`.
use Prim.Native.Nat.{ℕ, zero, suc, ◌+◌, ◌≤◌, ◌<◌}
use mathlib.Core.Path.{◌≡◌, refl}
use mathlib.Core.Logic.{◌≢◌}
use native.Mathlib.Decide.{dec_lt}
use native.Mathlib.Omega.{arith}
use ee.Base.Tests.{◌==◌, ltb, if◌then◌else◌}

abbrev pub update {ℓ} : {A : Type ℓ} → (ℕ → A) → ℕ → A → ℕ → A
update f i a j = if i == j then a else f j

module _ {ℓ} {A : Type ℓ} (w : A → ℕ) where
  -- What the members below a bound weigh together.
  unfoldable pub total : (bound : ℕ) → (ℕ → A) → ℕ
  total zero f = 0
  total (suc k) f = w (f k) + total k f

  -- An update replaces one weight, if its index is below the bound at all.
  total-update_if :
      (k i : ℕ) (a : A) (f : ℕ → A)
      → total k (update f i a) + (if ltb i k then w (f i) else 0)
        ≡ total k f + (if ltb i k then w a else 0)
  unfolding total
  total-update_if zero i a f = ground arith
  total-update_if (suc k) i a f = ground (arith, total-update_if k i a f)

  pub total-update :
      (k : ℕ) (f : ℕ → A) (i : ℕ) (a : A)
      → i < k
      → total k (update f i a) + w (f i) ≡ total k f + w a
  total-update k f i a lt = ground (arith, total-update_if k i a f)

  pub weight-le-total : (n : ℕ) (f : ℕ → A) (i : ℕ) → i < n → w (f i) ≤ total n f
  unfolding total
  weight-le-total zero f i h = absurd (omega arith)
  weight-le-total (suc n) f i h = elim (dec_lt i n) [
    | yes below ↦ omega (arith, weight-le-total n f i below)
    | no last ↦ ground arith
  ]

  -- Members that weigh nothing weigh nothing together.
  pub total-eq-zero : (k : ℕ) (f : ℕ → A) → ((i : ℕ) → i < k → w (f i) ≡ 0) → total k f ≡ 0
  unfolding total
  total-eq-zero zero f none_weighs = refl
  total-eq-zero (suc k) f none_weighs =
      let front = total-eq-zero k f (λ i lt. none_weighs i (omega arith)) in
      omega (arith, front, none_weighs k (omega arith))

  -- Two members weigh no more than all.
  pub pair-le-total :
      (n : ℕ) (f : ℕ → A) (i j : ℕ) (a : A)
      → w a ≡ 0
      → i < n
      → j < n
      → i ≢ j
      → w (f i) + w (f j) ≤ total n f
  pair-le-total n f i j a z hi hj ne =
      ground (arith, total-update n f i a, weight-le-total n (update f i a) j)

  -- If all together weigh something, one of them does.
  pub member_of_total : (n : ℕ) (f : ℕ → A) → 0 < total n f → (i : ℕ) × (i < n) × (0 < w (f i))
  unfolding total
  member_of_total zero f h = absurd (omega arith)
  member_of_total (suc n) f h = elim (dec_lt 0 (w (f n))) [
    | yes here ↦ (n, omega arith, here)
    | no none ↦ let (i, lt, pos) = member_of_total n f (omega arith) in (i, omega arith, pos)
  ]

-- One weight below another, summed; the gap at one member shows in the sums.
module _ {ℓ} {A : Type ℓ} (v w : A → ℕ) (le : (a : A) → v a ≤ w a) where
  pub total-le-total : (n : ℕ) (f : ℕ → A) → total v n f ≤ total w n f
  unfolding total
  total-le-total zero f = omega arith
  total-le-total (suc n) f = omega (arith, total-le-total n f, le (f n))

  pub total-gap :
      (n : ℕ) (f : ℕ → A) (i : ℕ) → i < n → total v n f + w (f i) ≤ total w n f + v (f i)
  unfolding total
  total-gap zero f i h = absurd (omega arith)
  total-gap (suc n) f i h = elim (dec_lt i n) [
    | yes below ↦ omega (arith, total-gap n f i below, le (f n))
    | no last ↦ ground (arith, total-le-total n f)
  ]
