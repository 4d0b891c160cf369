-- ===== src/RedBlackTree/Insert/Round.antt =====
-- A round of `verifyInsertion` of hw4/hw4_redblacktree.c: on with the grandparent, or a rotation.
use ee.Base.{ℕ, suc, ◌≡◌, refl, ◌∙◌, true, false, List, ◌∷◌, arith, ◌==◌}
use ee.RedBlackTree.Memory.{null, black, red, RbtNode, Memory}
use ee.RedBlackTree.Holds.{RbTree, branch, addr}
use ee.RedBlackTree.Context.{Frame, on_left, on_right, join, at, node_of, other, plug}
use ee.RedBlackTree.Zip.{Forms, Zip, paint, load_branch}
use ee.RedBlackTree.Zip.Frames.{
  recolor, load_frame, load-other, set_color_frame, set_color-other, at-≢, other-≢,
  grandparent_above, uncle_above,
}
use ee.RedBlackTree.Colors.{color_of}
use ee.RedBlackTree.Insert.{verify_insertion, rebalance}
use ee.RedBlackTree.Insert.Lift.{lifted}

-- A round for a red uncle goes on with the grandparent.
pub record Lifted (fuel : ℕ) (m : Memory) (f g : Frame) (fs : List Frame) (p : ℕ) (t : RbTree)
    : Type 0 where
  pub memory : Memory
  pub runs : verify_insertion (suc fuel) p m ≡ verify_insertion fuel (at g) memory
  pub forms : Forms memory (plug fs (lifted f g t))
  pub root : memory.root ≡ m.root
  pub next : memory.next ≡ m.next

module _ (fuel : ℕ) (m : Memory) (p : ℕ) (n : RbtNode) (l r : RbTree) where
  abbrev t : RbTree
  t = branch p n l r

  module _ (f g : Frame) (fs : List Frame) (z : Zip m (f ∷ g ∷ fs) t)
      (hf : ((node_of f).color == black) ≡ false) where
    f0 : (at f == null) ≡ false
    f0 = let e = at-≢ m (g ∷ fs) f t z in ground arith

    u0 : (addr (other g) == null) ≡ false
    u0 = let e = other-≢ m fs g (join f t) z in ground arith

    pub not_red :
        (color_of (other g) == red) ≡ false → verify_insertion (suc fuel) p m ≡ rebalance p m
    unfolding verify_insertion
    not_red hu =
        rw
          (
            verify_insertion,
            load_branch m (f ∷ g ∷ fs) p n l r z,
            f0,
            load_frame m (g ∷ fs) f t z,
            hf,
            uncle_above m f fs p n l r g z,
            u0,
            load-other m fs g (join f t) z,
            hu,
          )
          refl

  pub lift :
      (f g : Frame) (fs : List Frame)
      → Zip m (f ∷ g ∷ fs) t
      → ((node_of f).color == black) ≡ false
      → (color_of (other g) == red) ≡ true
      → Lifted fuel m f g fs p t
  unfolding verify_insertion
  lift f (on_left q x d) fs z hf hu =
      let g = on_left q x d in
      let g' = on_left q x (paint black d) in
      let s1 = set_color_frame m (g ∷ fs) f t black z in
      let s2 = set_color-other s1.memory fs g (join (recolor black f) t) black s1.forms in
      let s3 = set_color_frame s2.memory fs g' (join (recolor black f) t) red s2.forms in
      record {
        memory = s3.memory;
        runs =
            rw
              (
                verify_insertion,
                load_branch m (f ∷ g ∷ fs) p n l r z,
                f0 f g fs z hf,
                load_frame m (g ∷ fs) f t z,
                hf,
                uncle_above m f fs p n l r g z,
                u0 f g fs z hf,
                load-other m fs g (join f t) z,
                hu,
                s1.runs,
                s2.runs,
                grandparent_above s2.memory (recolor black f) g' fs p n l r s2.forms,
                s3.runs,
              )
              refl;
        forms = s3.forms;
        root = s3.root ∙ s2.root ∙ s1.root;
        next = s3.next ∙ s2.next ∙ s1.next;
      }
  lift f (on_right q x d) fs z hf hu =
      let g = on_right q x d in
      let g' = on_right q x (paint black d) in
      let s1 = set_color_frame m (g ∷ fs) f t black z in
      let s2 = set_color-other s1.memory fs g (join (recolor black f) t) black s1.forms in
      let s3 = set_color_frame s2.memory fs g' (join (recolor black f) t) red s2.forms in
      record {
        memory = s3.memory;
        runs =
            rw
              (
                verify_insertion,
                load_branch m (f ∷ g ∷ fs) p n l r z,
                f0 f g fs z hf,
                load_frame m (g ∷ fs) f t z,
                hf,
                uncle_above m f fs p n l r g z,
                u0 f g fs z hf,
                load-other m fs g (join f t) z,
                hu,
                s1.runs,
                s2.runs,
                grandparent_above s2.memory (recolor black f) g' fs p n l r s2.forms,
                s3.runs,
              )
              refl;
        forms = s3.forms;
        root = s3.root ∙ s2.root ∙ s1.root;
        next = s3.next ∙ s2.next ∙ s1.next;
      }
