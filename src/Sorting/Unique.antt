-- ===== src/Sorting/Unique.antt =====
-- A stable sort has one possible result: two ascending lists with the same classes are equal.
use ee.Base.{◌≡◌, refl, sym, ap, ◌∙◌, true, List, [], ◌∷◌, arith, Bool-cases, inl, inr}
use ee.Base.Int.{ℤ}
use ee.Sorting.{at_most, same, equals, IsPreorder, IsAscending}

module _ {A : Type 0} (cmp : A → A → ℤ) (pre : IsPreorder cmp) where
  abbrev SameClasses : List A → List A → Type 0
  SameClasses l r = (a : A) → equals cmp a l ≡ equals cmp a r

  nil-classes : (y : A) (r : List A) → SameClasses [] (y ∷ r) → ⊥
  nil-classes y r h = ground (arith, h y, pre.self y)

  -- The head of an ascending list is at most each element that has a class there.
  head-at_most :
      (x : A) (l : List A) (y : A) (c : List A)
      → IsAscending cmp (x ∷ l)
      → equals cmp y (x ∷ l) ≡ y ∷ c
      → at_most cmp x y ≡ true
  head-at_most x [] y c asc e = elim (Bool-cases (same cmp y x)) [
    | inl h ↦ (pre.both y x h).1
    | inr h ↦ cc (rw h at e)
  ]
  head-at_most x (z ∷ l) y c asc e = elim (Bool-cases (same cmp y x)) [
    | inl h ↦ (pre.both y x h).1
    | inr h ↦ pre.trans x z y asc.0 (head-at_most z l y c asc.1 (rw h at e))
  ]

  equals_self : (x : A) (l : List A) → equals cmp x (x ∷ l) ≡ x ∷ equals cmp x l
  equals_self x l = rw (pre.self x)

  tail-Ascending : (x : A) (l : List A) → IsAscending cmp (x ∷ l) → IsAscending cmp l
  tail-Ascending x [] h = tt
  tail-Ascending x (y ∷ l) h = h.1

  tail-classes : (x : A) (l r : List A) → SameClasses (x ∷ l) (x ∷ r) → SameClasses l r
  tail-classes x l r h a = elim (Bool-cases (same cmp a x)) [
    | inl e ↦ cc (rw e at (h a))
    | inr e ↦ rw e at (h a)
  ]

  module _
      (anti : (a b : A)
        → at_most cmp a b ≡ true
        → at_most cmp b a ≡ true
        → same cmp a b ≡ true) where
    heads-eq :
        (x : A) (l : List A) (y : A) (r : List A)
        → IsAscending cmp (x ∷ l)
        → IsAscending cmp (y ∷ r)
        → SameClasses (x ∷ l) (y ∷ r)
        → x ≡ y
    heads-eq x l y r al ar h =
        let down = head-at_most y r x _ ar (sym (h x) ∙ equals_self x l) in
        let up = head-at_most x l y _ al (h y ∙ equals_self y r) in
        cc (rw (pre.self x, anti x y up down) at (h x))

    pub ascending-eq :
        (l r : List A) → IsAscending cmp l → IsAscending cmp r → SameClasses l r → l ≡ r
    ascending-eq [] [] al ar h = refl
    ascending-eq [] (y ∷ r) al ar h = absurd (nil-classes y r h)
    ascending-eq (x ∷ l) [] al ar h = absurd (nil-classes x l (λ a. sym (h a)))
    ascending-eq (x ∷ l) (y ∷ r) al ar h =
        let e = heads-eq x l y r al ar h in
        let t = tail-classes x l r (λ a. h a ∙ ap (λ z. equals cmp a (z ∷ r)) (sym e)) in
        ap (λ z. z ∷ l) e
        ∙ ap (◌∷◌ y) (ascending-eq l r (tail-Ascending x l al) (tail-Ascending y r ar) t)
