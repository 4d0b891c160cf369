-- ===== src/RedBlackTree/Zip.antt =====
-- The colours and the rotations of hw4/hw4_redblacktree.c anywhere in the tree.
pub mod Turn
pub mod Frames
use ee.Base.{
  ℕ, ◌≡◌, ◌≢◌, refl, sym, ap, ◌∙◌, Bool, true, false, ◌||◌, Option, some, List, [], ◌∷◌, arith,
  ◌==◌, if◌then◌else◌, Bool-cases, inl, inr,
}
use ee.Base.Update.{update}
use ee.RedBlackTree.Memory.{null, RbtNode, Memory, ok, load, modify, set_color, ◌>>=◌, ◌>>◌}
use ee.RedBlackTree.Holds.{RbTree, tip, branch, addr, has, Holds, Apart, values, frame}
use ee.RedBlackTree.Context.{
  Frame, on_left, on_right, plug, parent_of, Holds-sub, Apart-sub, has-sub, has-plug, plug-Apart,
  values-plug, replace-Holds,
}
use ee.RedBlackTree.Cells.{put}
use ee.RedBlackTree.Rotate.{rotate_left, rotate_right}
use ee.RedBlackTree.Rotate.Hang.{top, top_cell, addr-has, Turned}
use ee.RedBlackTree.Rotate.Left.Tree as LeftTree
use ee.RedBlackTree.Rotate.Right.Tree as RightTree

-- The nodes form this tree.
pub record Forms (m : Memory) (t : RbTree) : Type 0 where
  pub holds : Holds m.nodes null t
  pub apart : Apart t
  pub positive : has null t ≡ false

-- The nodes form a tree in which `t` is the subtree below `fs`.
abbrev pub Zip : Memory → List Frame → RbTree → Type 0
Zip m fs t = Forms m (plug fs t)

-- The top node in another colour.
abbrev pub paint : ℕ → RbTree → RbTree
paint c (tip p n) = tip p (record n { color = c })
paint c (branch p n l r) = branch p (record n { color = c }) l r

has-paint : (c : ℕ) (t : RbTree) (a : ℕ) → has a (paint c t) ≡ has a t
has-paint c (tip p n) a = refl
has-paint c (branch p n l r) a = refl

addr-paint : (c : ℕ) (t : RbTree) → addr (paint c t) ≡ addr t
addr-paint c (tip p n) = refl
addr-paint c (branch p n l r) = refl

paint-Apart : (c : ℕ) (t : RbTree) → Apart t → Apart (paint c t)
paint-Apart c (tip p n) s = s
paint-Apart c (branch p n l r) s = s

paint-Holds :
    (h : ℕ → Option RbtNode) (c q : ℕ) (t : RbTree)
    → Holds h q t
    → Apart t
    → Holds (update h (addr t) (some (record (top t) { color = c }))) q (paint c t)
paint-Holds h c q (tip p n) w s = (ground arith, w.1)
paint-Holds h c q (branch p n l r) w s = (
  (ground arith, w.0.1, w.0.2, w.0.3, w.0.4),
  frame h _ p l w.1 (λ a e. ground (arith, s.0, e)),
  frame h _ p r w.2 (λ a e. ground (arith, s.1, e)),
)

abbrev pub painted : Memory → ℕ → RbTree → Memory
painted m c t = put m (addr t) (record (top t) { color = c })

module _ (m : Memory) (fs : List Frame) where
  pub set_color-Zip :
      (t : RbTree) (c : ℕ)
      → Zip m fs t
      → (set_color (addr t) c m ≡ ok tt (painted m c t)) × Zip (painted m c t) fs (paint c t)
  unfolding load modify
  set_color-Zip t c z =
      let w = Holds-sub m.nodes fs t z.holds in
      let s = Apart-sub fs t z.apart in
      let e = top_cell m.nodes (parent_of fs) t w in
      (
        rw (modify, load, e) refl,
        record {
          holds =
              replace-Holds m.nodes (painted m c t).nodes fs t (paint c t) z.holds z.apart
                (paint-Holds m.nodes c (parent_of fs) t w s) (addr-paint c t)
                (λ a f. ground (arith, addr-has t, f));
          apart = plug-Apart fs t (paint c t) (has-paint c t) (paint-Apart c t s) z.apart;
          positive = has-plug fs t (paint c t) (has-paint c t) null ∙ z.positive;
        },
      )

  pub load-Zip : (t : RbTree) → Zip m fs t → load (addr t) m ≡ ok (top t) m
  unfolding load
  load-Zip t z = rw (load, top_cell m.nodes (parent_of fs) t (Holds-sub m.nodes fs t z.holds)) refl

  -- The pointers of a node are those of the tree.
  pub load_branch :
      (p : ℕ) (n : RbtNode) (l r : RbTree)
      → Zip m fs (branch p n l r)
      → load p m ≡ ok (record n { parent = parent_of fs; left = addr l; right = addr r }) m
  load_branch p n l r z =
      let w = Holds-sub m.nodes fs (branch p n l r) z.holds in
      load-Zip (branch p n l r) z
      ∙ ap (λ x. ok (record n { parent = x }) m) w.0.2
      ∙ ap (λ x. ok (record n { parent = parent_of fs; left = x }) m) w.0.3
      ∙ ap (λ x. ok (record n { parent = parent_of fs; left = addr l; right = x }) m) w.0.4
