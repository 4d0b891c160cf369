-- ===== src/RedBlackTree/Rotate/Stale.antt =====
-- The variable `root` of hw4/hw4_redblacktree.c after a rotation at the top of the tree.
use ee.Base.{ℕ, ◌≡◌, ◌∙◌, arith}
use ee.RedBlackTree.Memory.{null, RbtNode, Memory, ok}
use ee.RedBlackTree.Holds.{RbTree, Holds, values}
use ee.RedBlackTree.Insert.Whole.{IsTree}
use ee.RedBlackTree.Rotate.{rotate_left, rotate_right}
use ee.RedBlackTree.Rotate.Left.Tree as LeftTree
use ee.RedBlackTree.Rotate.Right.Tree as RightTree

module _ (m : Memory) (p c : ℕ) (n y : RbtNode) (l b r : RbTree) where
  -- On a whole search tree at `root`, `rotateLeft` of its top node ends with the nodes in the form of
  -- the rotated tree, with the same values in order, but `root` is still the old top, which is no
  -- longer the top: the memory does not hold that tree at `root`.
  pub stale_left :
      IsTree m (LeftTree.upright p c n y l b r)
      → (m' : Memory) × (rotate_left p m ≡ ok tt m')
        × Holds m'.nodes null (LeftTree.turned p c n y l b r null)
        × (values (LeftTree.turned p c n y l b r null) ≡ values (LeftTree.upright p c n y l b r))
        × (m'.root ≡ p)
        × ¬ IsTree m' (LeftTree.turned p c n y l b r null)
  stale_left i =
      let (m', run, v, e) = LeftTree.rotate_left_root m p c n y l b r i.holds i.apart i.positive in
      let s = v.root ∙ i.root in (m', run, v.holds, e, s, λ j. ground (arith, s, j.root, i.apart.1))

  -- The same for `rotateRight`.
  pub stale_right :
      IsTree m (RightTree.upright p c n y l b r)
      → (m' : Memory) × (rotate_right p m ≡ ok tt m')
        × Holds m'.nodes null (RightTree.turned p c n y l b r null)
        × (values (RightTree.turned p c n y l b r null) ≡ values (RightTree.upright p c n y l b r))
        × (m'.root ≡ p)
        × ¬ IsTree m' (RightTree.turned p c n y l b r null)
  stale_right i =
      let (m', run, v, e) =
        RightTree.rotate_right_root m p c n y l b r i.holds i.apart i.positive in
      let s = v.root ∙ i.root in (m', run, v.holds, e, s, λ j. ground (arith, s, j.root, i.apart.0))
