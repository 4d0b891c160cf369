-- ===== src/StackDriver/Valid.antt =====
-- The invariant of hw1/hw1_driver.c, and the values that its stack holds.
use ee.Base.{
  ℕ, zero, suc, ◌≤◌, ◌<◌, ◌≡◌, refl, List, [], ◌∷◌, arith, ap, length, get_or, set, All,
  get_or-set_ne,
}
use ee.Base.Int.{ℤ, pos, pos_part, neg_part, suc_ℤ}
use ee.StackDriver.{Driver}

-- The values of the cells below index `n`, the highest first.
abbrev pub view : List ℤ → ℕ → List ℤ
view xs zero = []
view xs (suc n) = get_or xs n (pos 0) ∷ view xs n

abbrev pub count : Driver → ℕ
count d = pos_part (suc_ℤ d.stackpointer)

-- The values on the stack, the top first.
abbrev pub contents : Driver → List ℤ
contents d = view d.stack (count d)

-- A value that a signed byte can have.
abbrev pub IsChar : ℤ → Type 0
IsChar z = (pos_part z < 128) × (neg_part z ≤ 128)

pub record IsValid (d : Driver) : Type 0 where
  pub cells : length d.stack ≡ 257
  pub low : neg_part d.stackpointer ≤ 1
  pub high : pos_part d.stackpointer ≤ 255
  pub chars : All IsChar (contents d)

pub length-view : (xs : List ℤ) (n : ℕ) → length (view xs n) ≡ n
length-view xs zero = refl
length-view xs (suc n) = ap suc (length-view xs n)

pub view-set : (xs : List ℤ) (n i : ℕ) (v : ℤ) → n ≤ i → view (set xs i v) n ≡ view xs n
view-set xs zero i v h = refl
view-set xs (suc n) i v h =
    ground (arith, view-set xs n i v, get_or-set_ne xs {i = i} {j = n} v (pos 0))
