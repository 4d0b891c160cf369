-- ===== src/RedBlackTree/Insert/Leftmost.antt =====
-- `leftmostNode` of hw4/hw4_redblacktree.c.
use mathlib.Core.Path.{subst}
use ee.Base.{
  ℕ, zero, suc, ◌≡◌, refl, sym, ap, ◌∙◌, true, false, some, List, [], ◌∷◌, ◌++◌, arith, ◌==◌, ◌≤◌,
}
use ee.Base.Int.{ℤ, ltb_ℤ}
use ee.RedBlackTree.Memory.{null, nil, RbtNode, Memory, ok, load}
use ee.RedBlackTree.Holds.{
  RbTree, tip, branch, addr, Holds, values, IsSearch, IsLinked, AllAbove, AllBelow,
}
use ee.RedBlackTree.Insert.{descend_left, leftmost_node}
use ee.RedBlackTree.Insert.Place.{size}
use ee.RedBlackTree.Insert.Whole.{IsTree, root-≢}

-- The parent field of the nil node at the left end.
abbrev end_parent : RbTree → ℕ
end_parent (tip p n) = n.parent
end_parent (branch p n l r) = end_parent l

descend_left_lem :
    (fuel q : ℕ) (t : RbTree) (m : Memory)
    → Holds m.nodes q t
    → size t ≤ fuel
    → descend_left fuel (addr t) m ≡ ok (end_parent t) m
unfolding descend_left load
descend_left_lem zero q (tip p n) m h lt = absurd (omega arith)
descend_left_lem zero q (branch p n l r) m h lt = absurd (omega arith)
descend_left_lem (suc fuel) q (tip p n) m (e, t) lt =
    let z : (n.type == nil) ≡ true = ground arith in rw (descend_left, load, e, z) refl
descend_left_lem (suc fuel) q (branch p n l r) m ((e, t, u, a, b), hl, hr) lt =
    let z : (n.type == nil) ≡ false = ground arith in
    rw (descend_left, load, e, z, a) (descend_left_lem fuel p l m hl (omega arith))

-- The value of that node is the first, and the others are larger.
abbrev pub IsLeast : Memory → ℕ → List ℤ → Type 0
IsLeast m a l =
    (x : RbtNode) × (rest : List ℤ) × (m.nodes a ≡ some x)
    × (l ≡ x.value ∷ rest)
    × AllAbove x.value rest

above_trans : (v w : ℤ) (l : List ℤ) → ltb_ℤ v w ≡ true → AllAbove w l → AllAbove v l
above_trans v w [] lt b = tt
above_trans v w (x ∷ l) lt b = (ground arith, above_trans v w l lt b.1)

AllAbove-middle :
    (v w : ℤ) (l r : List ℤ)
    → AllAbove v l
    → ltb_ℤ v w ≡ true
    → AllAbove w r
    → AllAbove v (l ++ w ∷ r)
AllAbove-middle v w [] r a lt b = (lt, above_trans v w r lt b)
AllAbove-middle v w (x ∷ l) r a lt b = (a.0, AllAbove-middle v w l r a.1 lt b)

end-IsLeast :
    (p : ℕ) (n : RbtNode) (l r : RbTree) (q : ℕ) (m : Memory)
    → Holds m.nodes q (branch p n l r)
    → IsSearch (branch p n l r)
    → IsLinked q (branch p n l r)
    → IsLeast m (end_parent l) (values (branch p n l r))
end-IsLeast p n (tip p' n') r q m h s k = (n, values r, ap m.nodes k.0 ∙ h.0.0, refl, s.1)
end-IsLeast p n (branch p' n' l' r') r q m h s k =
    let (x, rest, e, f, g) = end-IsLeast p' n' l' r' p m h.1 s.2 k.0 in
    (
      x,
      rest ++ n.value ∷ values r,
      e,
      ap (λ z. z ++ n.value ∷ values r) f,
      AllAbove-middle x.value n.value rest (values r) g (subst (AllBelow n.value) f s.0).0 s.1,
    )

-- On a whole search tree with a node, in which the nil nodes know their parents, and with fuel for all
-- nodes, `leftmostNode` of the root ends with the node of the first value, which is below all others,
-- and changes nothing.
pub leftmost_node_lem :
    (fuel p : ℕ) (n : RbtNode) (l r : RbTree) (m : Memory)
    → IsTree m (branch p n l r)
    → IsLinked null (branch p n l r)
    → size (branch p n l r) ≤ fuel
    → (a : ℕ) × (leftmost_node fuel m.root m ≡ ok a m) × IsLeast m a (values (branch p n l r))
unfolding leftmost_node
leftmost_node_lem fuel p n l r m i k lt =
    let down =
      subst (λ x. descend_left fuel x m ≡ ok (end_parent l) m) (sym i.root)
        (descend_left_lem fuel null (branch p n l r) m i.holds lt) in
    (
      end_parent l,
      rw (leftmost_node, root-≢ m (branch p n l r) i, down) refl,
      end-IsLeast p n l r null m i.holds i.search k,
    )
