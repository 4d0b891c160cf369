-- ===== src/Sorting/Insertion.antt =====
-- A stable sort, which shows that the interface of `list_sort` can be met.
use mathlib.Core.List.{Perm}
use mathlib.Core.List.Perm
use ee.Base.{◌≡◌, refl, true, List, [], ◌∷◌, arith, if◌then◌else◌, Bool-cases, inl, inr, ◌∙◌}
use ee.Base.Int.{ℤ}
use ee.Sorting.{at_most, same, equals, IsPreorder, IsAscending, IsListSort}

module _ {A : Type 0} (cmp : A → A → ℤ) where
  insert : A → List A → List A
  insert x [] = x ∷ []
  insert x (y ∷ l) = if at_most cmp x y then x ∷ y ∷ l else y ∷ insert x l

  unfoldable pub insertion_sort : List A → List A
  unfolding insert
  insertion_sort [] = []
  insertion_sort (x ∷ l) = insert x (insertion_sort l)

  insert-perm : (x : A) (l : List A) → Perm (insert x l) (x ∷ l)
  unfolding insert
  insert-perm x [] = Perm.refl _
  insert-perm x (y ∷ l) = elim (Bool-cases (at_most cmp x y)) [
    | inl h ↦ rw h (Perm.refl _)
    | inr h ↦ rw h (Perm.trans (Perm.cons y (insert-perm x l)) (Perm.swap x y l))
  ]

  sort-perm : (l : List A) → Perm (insertion_sort l) l
  unfolding insertion_sort
  sort-perm [] = Perm.refl _
  sort-perm (x ∷ l) = Perm.trans (insert-perm x (insertion_sort l)) (Perm.cons x (sort-perm l))

  module _ (pre : IsPreorder cmp) where
    insert-IsAscending : (x : A) (l : List A) → IsAscending cmp l → IsAscending cmp (insert x l)
    unfolding insert
    insert-IsAscending x [] h = tt
    insert-IsAscending x (y ∷ []) h = ground (arith, pre.total x y)
    insert-IsAscending x (y ∷ z ∷ l) h =
        ground (arith, pre.total x y, insert-IsAscending x (z ∷ l) h.1)

    sort-IsAscending : (l : List A) → IsAscending cmp (insertion_sort l)
    unfolding insertion_sort
    sort-IsAscending [] = tt
    sort-IsAscending (x ∷ l) = insert-IsAscending x (insertion_sort l) (sort-IsAscending l)

    -- Two elements that compare equal to `a` are in order either way.
    of_same : (a x y : A) → same cmp a x ≡ true → same cmp a y ≡ true → at_most cmp x y ≡ true
    of_same a x y h k = pre.trans x a y (pre.both a x h).1 (pre.both a y k).0

    equals-insert : (a x : A) (l : List A) → equals cmp a (insert x l) ≡ equals cmp a (x ∷ l)
    unfolding insert
    equals-insert a x [] = refl
    equals-insert a x (y ∷ l) = elim (Bool-cases (at_most cmp x y)) [
      | inl h ↦ rw h refl
      | inr h ↦ rw h (elim (Bool-cases (same cmp a x)) [
        | inl ax ↦ elim (Bool-cases (same cmp a y)) [
          | inl ay ↦ cc (of_same a x y ax ay)
          | inr ay ↦ rw (ay, ax, equals-insert a x l, ax)
        ]
        | inr ax ↦ rw (equals-insert a x l, ax)
      ])
    ]

    equals-sort : (a : A) (l : List A) → equals cmp a (insertion_sort l) ≡ equals cmp a l
    unfolding insertion_sort
    equals-sort a [] = refl
    equals-sort a (x ∷ l) = equals-insert a x (insertion_sort l) ∙ rw (equals-sort a l)

pub insertion_sort-IsListSort : {A : Type 0} → IsListSort {A = A} insertion_sort
insertion_sort-IsListSort = record {
  perm = λ cmp l. sort-perm cmp l;
  ascending = λ cmp pre l. sort-IsAscending cmp pre l;
  stable = λ cmp pre a l. equals-sort cmp pre a l;
}
