-- ===== src/RedBlackTree/Insert/Order.antt =====
-- The values of the tree after `insertNode` of hw4/hw4_redblacktree.c, as a sorted list.
use ee.Base.{
  ℕ, ◌≡◌, refl, Bool, true, false, ◌||◌, Option, none, some, List, [], ◌∷◌, ◌++◌, arith,
  if◌then◌else◌, Bool-cases, inl, inr,
}
use ee.Base.Int.{ℤ, ltb_ℤ, eqb_ℤ}
use ee.RedBlackTree.Holds.{RbTree, tip, branch, values, AllBelow, AllAbove, IsSearch}
use ee.RedBlackTree.Insert.Place.{place, plant}

-- A sorted list without repetitions, with `v` in it.
abbrev pub insert_value : ℤ → List ℤ → List ℤ
insert_value v [] = v ∷ []
insert_value v (x ∷ l) =
    let rest = insert_value v l in
    if ltb_ℤ v x then v ∷ x ∷ l else if ltb_ℤ x v then x ∷ rest else x ∷ l

abbrev pub mem_value : ℤ → List ℤ → Bool
mem_value v [] = false
mem_value v (x ∷ l) = eqb_ℤ v x || mem_value v l

insert_value-left :
    (v x : ℤ) (l r : List ℤ)
    → ltb_ℤ v x ≡ true
    → insert_value v (l ++ x ∷ r) ≡ insert_value v l ++ x ∷ r
insert_value-left v x [] r lt = ground arith
insert_value-left v x (y ∷ l) r lt = ground (arith, insert_value-left v x l r lt)

insert_value-right :
    (v x : ℤ) (l r : List ℤ)
    → AllBelow x l
    → ltb_ℤ v x ≡ false
    → insert_value v (l ++ x ∷ r) ≡ l ++ insert_value v (x ∷ r)
insert_value-right v x [] r b lt = refl
insert_value-right v x (y ∷ l) r b lt = ground (arith, insert_value-right v x l r b.1 lt)

insert_value-again :
    (v x : ℤ) (l : List ℤ) → ltb_ℤ v x ≡ false → ltb_ℤ x v ≡ false → insert_value v (x ∷ l) ≡ x ∷ l
insert_value-again v x l a b = ground arith

pub values-plant :
    (v : ℤ) (pid k q : ℕ) (t : RbTree)
    → IsSearch t
    → values (plant v pid k q t) ≡ insert_value v (values t)
unfolding plant
values-plant v pid k q (tip p n) s = refl
values-plant v pid k q (branch p n l r) s = elim (Bool-cases (ltb_ℤ v n.value)) [
  | inl c ↦
      rw (c, insert_value-left v n.value (values l) (values r) c, values-plant v pid k p l s.2) refl
  | inr c ↦
      rw (c, insert_value-right v n.value (values l) (values r) s.0 c)
        (elim (Bool-cases (ltb_ℤ n.value v)) [
          | inl d ↦ rw (d, c, values-plant v pid k p r s.3) refl
          | inr d ↦ rw (d, c) refl
        ])
]

insert_value-AllBelow :
    (v x : ℤ) (l : List ℤ) → ltb_ℤ v x ≡ true → AllBelow x l → AllBelow x (insert_value v l)
insert_value-AllBelow v x [] lt b = (lt, tt)
insert_value-AllBelow v x (y ∷ l) lt b = ground (arith, insert_value-AllBelow v x l lt b.1)

insert_value-AllAbove :
    (v x : ℤ) (l : List ℤ) → ltb_ℤ x v ≡ true → AllAbove x l → AllAbove x (insert_value v l)
insert_value-AllAbove v x [] lt b = (lt, tt)
insert_value-AllAbove v x (y ∷ l) lt b = ground (arith, insert_value-AllAbove v x l lt b.1)

pub plant-IsSearch : (v : ℤ) (pid k q : ℕ) (t : RbTree) → IsSearch t → IsSearch (plant v pid k q t)
unfolding plant
plant-IsSearch v pid k q (tip p n) s = (tt, tt, tt, tt)
plant-IsSearch v pid k q (branch p n l r) s = elim (Bool-cases (ltb_ℤ v n.value)) [
  | inl c ↦
      rw (c, values-plant v pid k p l s.2)
        (insert_value-AllBelow v n.value (values l) c s.0, s.1, plant-IsSearch v pid k p l s.2, s.3)
  | inr c ↦ elim (Bool-cases (ltb_ℤ n.value v)) [
    | inl d ↦
        rw (c, d, values-plant v pid k p r s.3)
          (
            s.0,
            insert_value-AllAbove v n.value (values r) d s.1,
            s.2,
            plant-IsSearch v pid k p r s.3,
          )
    | inr d ↦ rw (c, d) s
  ]
]

mem_value-append : (v : ℤ) (l r : List ℤ) → mem_value v (l ++ r) ≡ (mem_value v l || mem_value v r)
mem_value-append v [] r = refl
mem_value-append v (x ∷ l) r = ground (arith, mem_value-append v l r)

above-absent : (v x : ℤ) (l : List ℤ) → ltb_ℤ v x ≡ true → AllAbove x l → mem_value v l ≡ false
above-absent v x [] lt b = refl
above-absent v x (y ∷ l) lt b = ground (arith, above-absent v x l lt b.1)

below-absent : (v x : ℤ) (l : List ℤ) → ltb_ℤ x v ≡ true → AllBelow x l → mem_value v l ≡ false
below-absent v x [] lt b = refl
below-absent v x (y ∷ l) lt b = ground (arith, below-absent v x l lt b.1)

abbrev pub is_none : {A : Type 0} → Option A → Bool
is_none none = true
is_none (some a) = false

pub place-mem_value :
    (v : ℤ) (q : ℕ) (t : RbTree) → IsSearch t → is_none (place v q t) ≡ mem_value v (values t)
unfolding place
place-mem_value v q (tip p n) s = refl
place-mem_value v q (branch p n l r) s =
    rw (mem_value-append v (values l) (n.value ∷ values r)) (elim (Bool-cases (ltb_ℤ v n.value)) [
      | inl c ↦ ground (arith, place-mem_value v p l s.2, above-absent v n.value (values r) c s.1)
      | inr c ↦ elim (Bool-cases (ltb_ℤ n.value v)) [
        | inl d ↦ ground (arith, place-mem_value v p r s.3, below-absent v n.value (values l) d s.0)
        | inr d ↦ ground arith
      ]
    ])

pub plant-present : (v : ℤ) (pid k q : ℕ) (t : RbTree) → place v q t ≡ none → plant v pid k q t ≡ t
unfolding plant place
plant-present v pid k q (tip p n) e = cc e
plant-present v pid k q (branch p n l r) e =
    ground (arith, plant-present v pid k p l, plant-present v pid k p r)
