-- ===== src/RedBlackTree/Insert/Lift.antt =====
-- The round of `verifyInsertion` of hw4/hw4_redblacktree.c for a red uncle, on the colours.
use ee.Base.{suc, ◌≡◌, refl, sym, ap, ◌∙◌, inl, inr, arith}
use ee.RedBlackTree.Memory.{black, red}
use ee.RedBlackTree.Holds.{RbTree, tip, branch, values}
use ee.RedBlackTree.Context.{Frame, on_left, on_right, join, node_of, other}
use ee.RedBlackTree.Zip.{paint}
use ee.RedBlackTree.Zip.Frames.{recolor, recolor_other}
use ee.RedBlackTree.Colors.{color_of, Colored, black_height, Even}

-- The grandparent's subtree after it.
abbrev pub lifted : Frame → Frame → RbTree → RbTree
lifted f g t = join (recolor red (recolor_other black g)) (join (recolor black f) t)

paint-Colored : (d : RbTree) → Colored d → Colored (paint black d)
paint-Colored (tip p n) k = refl
paint-Colored (branch p n l r) k = (inl refl, k.1, k.2)

paint-color : (d : RbTree) → color_of (paint black d) ≡ black
paint-color (tip p n) = refl
paint-color (branch p n l r) = refl

paint-height :
    (d : RbTree)
    → color_of d ≡ red
    → Colored d
    → black_height (paint black d) ≡ suc (black_height d)
paint-height (tip p n) e k = absurd (omega arith)
paint-height (branch p n l r) e k = ground arith

paint-Even : (d : RbTree) → Even d → Even (paint black d)
paint-Even (tip p n) k = k
paint-Even (branch p n l r) k = k

values-paint : (d : RbTree) → values (paint black d) ≡ values d
values-paint (tip p n) = refl
values-paint (branch p n l r) = refl

below-color : (f : Frame) (t : RbTree) → color_of (join (recolor black f) t) ≡ black
below-color (on_left p n s) t = refl
below-color (on_right p n s) t = refl

below-Colored :
    (f : Frame) (t : RbTree) → Colored (other f) → Colored t → Colored (join (recolor black f) t)
below-Colored (on_left p n s) t k c = (inl refl, c, k)
below-Colored (on_right p n s) t k c = (inl refl, k, c)

below-height :
    (f : Frame) (t : RbTree)
    → (node_of f).color ≡ red
    → black_height (join (recolor black f) t) ≡ suc (black_height (join f t))
below-height (on_left p n s) t e = ground arith
below-height (on_right p n s) t e = ground arith

below-Even : (f : Frame) (t : RbTree) → Even (join f t) → Even (join (recolor black f) t)
below-Even (on_left p n s) t k = k
below-Even (on_right p n s) t k = k

below-values : (f : Frame) (t : RbTree) → values (join (recolor black f) t) ≡ values (join f t)
below-values (on_left p n s) t = refl
below-values (on_right p n s) t = refl

pub lifted-Colored :
    (f g : Frame) (t : RbTree)
    → Colored t
    → Colored (other f)
    → Colored (other g)
    → Colored (lifted f g t)
lifted-Colored f (on_left q x d) t kt kf kg =
    (inr (refl, below-color f t, paint-color d), below-Colored f t kf kt, paint-Colored d kg)
lifted-Colored f (on_right q x d) t kt kf kg =
    (inr (refl, paint-color d, below-color f t), paint-Colored d kg, below-Colored f t kf kt)

pub lifted-Even :
    (f g : Frame) (t : RbTree)
    → (node_of f).color ≡ red
    → color_of (other g) ≡ red
    → Colored (other g)
    → Even (join g (join f t))
    → Even (lifted f g t)
lifted-Even f (on_left q x d) t hf hu kg e = (
  below-height f t hf ∙ ap suc e.0 ∙ sym (paint-height d hu kg),
  below-Even f t e.1,
  paint-Even d e.2,
)
lifted-Even f (on_right q x d) t hf hu kg e = (
  paint-height d hu kg ∙ ap suc e.0 ∙ sym (below-height f t hf),
  paint-Even d e.1,
  below-Even f t e.2,
)

pub lifted-height :
    (f g : Frame) (t : RbTree)
    → (node_of f).color ≡ red
    → (node_of g).color ≡ black
    → color_of (other g) ≡ red
    → Colored (other g)
    → black_height (lifted f g t) ≡ black_height (join g (join f t))
lifted-height f (on_left q x d) t hf hg hu kg = ground (arith, below-height f t hf)
lifted-height f (on_right q x d) t hf hg hu kg = ground (arith, paint-height d hu kg)

pub lifted-values : (f g : Frame) (t : RbTree) → values (lifted f g t) ≡ values (join g (join f t))
lifted-values f (on_left q x d) t = rw (below-values f t, values-paint d) refl
lifted-values f (on_right q x d) t = rw (below-values f t, values-paint d) refl
