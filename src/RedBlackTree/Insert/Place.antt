-- ===== src/RedBlackTree/Insert/Place.antt =====
-- Where `insertNode` of hw4/hw4_redblacktree.c puts a value, in the tree that the nodes form.
use ee.Base.{
  ℕ, zero, suc, ◌+◌, ◌≡◌, ◌≢◌, refl, sym, ◌∙◌, true, false, ◌||◌, Option, none, some, arith, ◌==◌,
  if◌then◌else◌, ◌<◌, ◌≤◌, Bool-cases, inl, inr,
}
use ee.Base.Int.{ℤ, ltb_ℤ}
use ee.RedBlackTree.Memory.{nil, RbtNode, Memory, ok, load}
use ee.RedBlackTree.Holds.{RbTree, tip, branch, addr, has, Holds, Apart, IsBelow, frame}
use ee.RedBlackTree.Insert.{search_place}
use ee.RedBlackTree.Insert.Fill.{red_node, nil_node}

-- The number of nodes, the nil ones included.
abbrev pub size : RbTree → ℕ
size (tip p n) = 1
size (branch p n l r) = suc (size l + size r)

-- The nil node for a value and the parent it is found with.
unfoldable pub place : ℤ → ℕ → RbTree → Option (ℕ × ℕ)
place v q (tip p n) = some (p, q)
place v q (branch p n l r) =
    let below = place v p l in
    let above = place v p r in
    if ltb_ℤ v n.value then below else if ltb_ℤ n.value v then above else none

-- The tree with a new red node there, its nil nodes at `fresh` and the address after it.
unfoldable pub plant : ℤ → (pid fresh : ℕ) → ℕ → RbTree → RbTree
plant v pid fresh q (tip p n) =
    branch p (red_node v pid q fresh (suc fresh)) (tip fresh (nil_node p))
      (tip (suc fresh) (nil_node p))
plant v pid fresh q (branch p n l r) =
    let below = plant v pid fresh p l in
    let above = plant v pid fresh p r in
    if ltb_ℤ v n.value
    then branch p n below r
    else if ltb_ℤ n.value v
    then branch p n l above
    else branch p n l r

pub search_place_lem :
    (fuel : ℕ) (v : ℤ) (q q' : ℕ) (t : RbTree) (m : Memory)
    → Holds m.nodes q' t
    → size t ≤ fuel
    → search_place fuel v (addr t) q m ≡ ok (place v q t) m
unfolding search_place place load
search_place_lem zero v q q' (tip p n) m h lt = absurd (omega arith)
search_place_lem zero v q q' (branch p n l r) m h lt = absurd (omega arith)
search_place_lem (suc fuel) v q q' (tip p n) m (e, t) lt =
    let z : (n.type == nil) ≡ true = ground arith in rw (search_place, load, e, z) refl
search_place_lem (suc fuel) v q q' (branch p n l r) m ((e, t, u, a, b), hl, hr) lt =
    let z : (n.type == nil) ≡ false = ground arith in
    elim (Bool-cases (ltb_ℤ v n.value)) [
      | inl c ↦
          rw (search_place, load, e, z, c, a) (search_place_lem fuel v p p l m hl (omega arith))
      | inr c ↦ elim (Bool-cases (ltb_ℤ n.value v)) [
        | inl d ↦
            rw (search_place, load, e, z, c, d, b)
              (search_place_lem fuel v p p r m hr (omega arith))
        | inr d ↦ rw (search_place, load, e, z, c, d) refl
      ]
    ]

-- The place is a node of the tree.
pub place-has : (v : ℤ) (q : ℕ) (t : RbTree) (a b : ℕ) → place v q t ≡ some (a, b) → has a t ≡ true
unfolding place
place-has v q (tip p n) a b e = ground arith
place-has v q (branch p n l r) a b e = ground (arith, place-has v p l a b, place-has v p r a b)

has-plant :
    (v : ℤ) (pid k q : ℕ) (t : RbTree) (a : ℕ)
    → has a (plant v pid k q t) ≡ true
    → (has a t || (a == k || a == suc k)) ≡ true
unfolding plant
has-plant v pid k q (tip p n) a e = ground arith
has-plant v pid k q (branch p n l r) a e =
    ground (arith, has-plant v pid k p l a, has-plant v pid k p r a)

pub plant-Below :
    (v : ℤ) (pid k q : ℕ) (t : RbTree) → IsBelow k t → IsBelow (suc (suc k)) (plant v pid k q t)
plant-Below v pid k q t b a e = ground (arith, has-plant v pid k q t a e, b a)

pub plant-absent :
    (v : ℤ) (pid k q : ℕ) (t : RbTree) (a : ℕ)
    → a < k
    → has a t ≡ false
    → has a (plant v pid k q t) ≡ false
plant-absent v pid k q t a lt e = ground (arith, has-plant v pid k q t a)

pub plant-Apart :
    (v : ℤ) (pid k q : ℕ) (t : RbTree) → IsBelow k t → Apart t → Apart (plant v pid k q t)
unfolding plant
plant-Apart v pid k q (tip p n) b s =
    (ground (arith, b p), ground (arith, b p), λ a e. ground (arith, e), record {}, record {})
plant-Apart v pid k q (branch p n l r) b s =
    let bl : IsBelow k l = λ a e. b a (ground (arith, e)) in
    let br : IsBelow k r = λ a e. b a (ground (arith, e)) in
    elim (Bool-cases (ltb_ℤ v n.value)) [
      | inl c ↦ rw c (
        plant-absent v pid k p l p (b p (ground arith)) s.0,
        s.1,
        λ a e. ground (arith, has-plant v pid k p l a e, s.2 a, br a),
        plant-Apart v pid k p l bl s.3,
        s.4,
      )
      | inr c ↦ elim (Bool-cases (ltb_ℤ n.value v)) [
        | inl d ↦
            rw (c, d)
              (
                s.0,
                plant-absent v pid k p r p (b p (ground arith)) s.1,
                λ a e. plant-absent v pid k p r a (bl a e) (s.2 a e),
                s.3,
                plant-Apart v pid k p r br s.4,
              )
        | inr d ↦ rw (c, d) s
      ]
    ]

pub addr-plant : (v : ℤ) (pid k q : ℕ) (t : RbTree) → addr (plant v pid k q t) ≡ addr t
unfolding plant
addr-plant v pid k q (tip p n) = refl
addr-plant v pid k q (branch p n l r) = ground arith

pub plant-Holds :
    (v : ℤ) (pid k q : ℕ) (t : RbTree) (h g : ℕ → Option RbtNode) (a pa : ℕ)
    → place v q t ≡ some (a, pa)
    → Holds h q t
    → Apart t
    → IsBelow k t
    → g a ≡ some (red_node v pid pa k (suc k))
    → g k ≡ some (nil_node a)
    → g (suc k) ≡ some (nil_node a)
    → ((b : ℕ) → b ≢ a → b < k → g b ≡ h b)
    → Holds g q (plant v pid k q t)
unfolding plant place
plant-Holds v pid k q (tip p n) h g a pa e w s b ga gk gs same =
    let ea : a ≡ p = ground arith in
    let eq : pa ≡ q = ground arith in
    ((rw (ea, eq) at ga, refl, refl, refl, refl), (rw ea at gk, refl), (rw ea at gs, refl))
plant-Holds v pid k q (branch p n l r) h g a pa e w s b ga gk gs same =
    let bl : IsBelow k l = λ a e. b a (ground (arith, e)) in
    let br : IsBelow k r = λ a e. b a (ground (arith, e)) in
    elim (Bool-cases (ltb_ℤ v n.value)) [
      | inl c ↦
          let f : place v p l ≡ some (a, pa) = rw c at e in
          let i = place-has v p l a pa f in
          let ne : p ≢ a = λ x. ground (arith, s.0, i, x) in
          rw c (
            (
              same p ne (b p (ground arith)) ∙ w.0.0,
              w.0.1,
              w.0.2,
              w.0.3 ∙ sym (addr-plant v pid k p l),
              w.0.4,
            ),
            plant-Holds v pid k p l h g a pa f w.1 s.3 bl ga gk gs same,
            frame h g p r w.2 (λ x m. same x (λ y. ground (arith, s.2 x, i, y)) (br x m)),
          )
      | inr c ↦ elim (Bool-cases (ltb_ℤ n.value v)) [
        | inl d ↦
            let f : place v p r ≡ some (a, pa) = rw (c, d) at e in
            let i = place-has v p r a pa f in
            let ne : p ≢ a = λ x. ground (arith, s.1, i, x) in
            rw (c, d)
              (
                (
                  same p ne (b p (ground arith)) ∙ w.0.0,
                  w.0.1,
                  w.0.2,
                  w.0.3,
                  w.0.4 ∙ sym (addr-plant v pid k p r),
                ),
                frame h g p l w.1 (λ x m. same x (λ y. ground (arith, s.2 x, i, y)) (bl x m)),
                plant-Holds v pid k p r h g a pa f w.2 s.4 br ga gk gs same,
              )
        | inr d ↦ cc (rw (c, d) at e)
      ]
    ]
