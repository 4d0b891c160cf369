-- ===== src/Sorting.antt =====
-- Sorting by a comparison function, as the kernel's `list_sort` documents it: into ascending order,
-- and stable. `IsListSort` is what project3/mysemaphore.c relies on.
pub mod Insertion
pub mod Unique
use mathlib.Core.Bool.{Bool-set}
use mathlib.Core.Logic.Or
use mathlib.Core.List.{Perm, Mem, head?, mem-cons, not-mem-nil}
use mathlib.Core.List.Perm
use ee.Base.{
  ℕ, ◌≡◌, refl, Bool, true, false, List, [], ◌∷◌, arith, ltb, if◌then◌else◌, Option, some,
}
use ee.Base.Int.{ℤ, pos, negsuc, ltb_ℤ, leb_ℤ, eqb_ℤ, three_way}

module _ {A : Type 0} (cmp : A → A → ℤ) where
  -- `cmp a b <= 0` and `cmp a b == 0`
  abbrev pub at_most : A → A → Bool
  at_most a b = leb_ℤ (cmp a b) (pos 0)

  abbrev pub same : A → A → Bool
  same a b = eqb_ℤ (cmp a b) (pos 0)

  -- A comparison function that `list_sort` accepts.
  pub record IsPreorder : Type 0 where
    pub self : (a : A) → same a a ≡ true
    pub total : (a b : A) → at_most a b ≡ false → at_most b a ≡ true
    pub trans : (a b c : A) → at_most a b ≡ true → at_most b c ≡ true → at_most a c ≡ true
    pub both : (a b : A) → same a b ≡ true → (at_most a b ≡ true) × (at_most b a ≡ true)

  -- Each element is at most the next.
  abbrev pub IsAscending : List A → Type 0
  IsAscending [] = Unit
  IsAscending (x ∷ []) = Unit
  IsAscending (x ∷ y ∷ l) = (at_most x y ≡ true) × IsAscending (y ∷ l)

  -- The elements that compare equal to `a`, in their order.
  abbrev pub equals : A → List A → List A
  equals a [] = []
  equals a (x ∷ l) = if same a x then x ∷ equals a l else equals a l

pub record IsListSort {A : Type 0} (sort : (A → A → ℤ) → List A → List A) : Type 0 where
  pub perm : (cmp : A → A → ℤ) (l : List A) → Perm (sort cmp l) l
  pub ascending : (cmp : A → A → ℤ) → IsPreorder cmp → (l : List A) → IsAscending cmp (sort cmp l)
  pub stable :
      (cmp : A → A → ℤ)
      → IsPreorder cmp
      → (a : A) (l : List A) → equals cmp a (sort cmp l) ≡ equals cmp a l

-- Comparing by a key is a comparison function.
pub three_way-IsPreorder :
    {A : Type 0} (key : A → ℤ) → IsPreorder (λ a b. three_way (key a) (key b))
three_way-IsPreorder key = record {
  self = λ a. ground arith;
  total = λ a b h. ground arith;
  trans = λ a b c h k. ground arith;
  both = λ a b h. ground arith;
}

module _ {A : Type 0} (cmp : A → A → ℤ) (pre : IsPreorder cmp) where
  -- The first element of an ascending list is at most each of them.
  first_at_most :
      (x : A) (l : List A)
      → IsAscending cmp (x ∷ l)
      → (y : A) → Mem y (x ∷ l)
      → at_most cmp x y ≡ true
  first_at_most x [] h y m =
      Or.elim (Bool-set _ _) (mem-cons.0 m) (λ e. rw e (pre.both x x (pre.self x)).0)
        (λ k. absurd (not-mem-nil k))
  first_at_most x (z ∷ l) h y m =
      Or.elim (Bool-set _ _) (mem-cons.0 m) (λ e. rw e (pre.both x x (pre.self x)).0)
        (λ k. pre.trans x z y h.0 (first_at_most z l h.1 y k))

  -- What `list_first_entry` finds after `list_sort`.
  pub record IsFirst (l : List A) (v : A) (rest : List A) : Type 0 where
    pub perm : Perm (v ∷ rest) l
    pub least : (y : A) → Mem y l → at_most cmp v y ≡ true
    pub earliest : head? (equals cmp v l) ≡ some v

  pub sorted-IsFirst :
      (sort : (A → A → ℤ) → List A → List A)
      → IsListSort sort
      → (l : List A) (v : A) (rest : List A) → sort cmp l ≡ v ∷ rest
      → IsFirst l v rest
  sorted-IsFirst sort is l v rest e = record {
    perm = rw e at (is.perm cmp l);
    least = λ y m.
        first_at_most v rest (rw e at (is.ascending cmp pre l)) y
          ((Perm.mem_iff (rw e at (is.perm cmp l))).1 m);
    earliest = rw (← is.stable cmp pre v l, e, pre.self v);
  }
