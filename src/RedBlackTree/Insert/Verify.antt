-- ===== src/RedBlackTree/Insert/Verify.antt =====
-- `verifyInsertion` of hw4/hw4_redblacktree.c: the colours and the order of the values after it.
use ee.Base.{
  ℕ, zero, suc, ◌≡◌, refl, ◌∙◌, true, false, List, [], ◌∷◌, inl, inr, arith, ◌==◌, ◌<◌, Bool-cases,
  length,
}
use ee.RedBlackTree.Memory.{null, black, red, RbtNode, Memory}
use ee.RedBlackTree.Holds.{RbTree, tip, branch}
use ee.RedBlackTree.Context.{
  Frame, on_left, on_right, join, at, node_of, other, plug, parent_of, values-plug,
}
use ee.RedBlackTree.Zip.{Zip, load_branch}
use ee.RedBlackTree.Zip.Frames.{load_frame, set_color_branch, at-≢}
use ee.RedBlackTree.Colors.{
  color_of, Colored, Even, is_black, ColoredAbove, plug-Colored, plug-Even, Even-sub,
}
use ee.RedBlackTree.Insert.{verify_insertion, rebalance}
use ee.RedBlackTree.Insert.Balance.{
  Verified, Makes-Verified, outer_left-Balanced, outer_right-Balanced, inner_left-Balanced,
  inner_right-Balanced,
}
use ee.RedBlackTree.Insert.Rebalance.{outer_left, outer_right, inner_left, inner_right}
use ee.RedBlackTree.Insert.Round.{Lifted, lift, not_red}
use ee.RedBlackTree.Insert.Lift.{lifted, lifted-Colored, lifted-Even, lifted-height, lifted-values}

abbrev Ready : List Frame → RbTree → Type 0
Ready fs t = Colored t × ColoredAbove fs × Even (plug fs t)

module _ (fuel : ℕ) (m : Memory) (p : ℕ) (n : RbtNode) (l r : RbTree) (ht : n.color ≡ red) where
  at_root :
      Zip m [] (branch p n l r)
      → Ready [] (branch p n l r)
      → Verified m (verify_insertion (suc fuel) p) (branch p n l r)
  unfolding verify_insertion
  at_root z (c, a, e) =
      let s = set_color_branch m [] p n l r black z in
      record {
        memory = s.memory;
        tree = branch p (record n { color = black }) l r;
        runs = rw (verify_insertion, load_branch m [] p n l r z) s.runs;
        forms = s.forms;
        red_black = record { top_black = refl; colored = (inl refl, c.1, c.2); even = e };
        ordered = refl;
        root = s.root;
        next = s.next;
      }

  below_black :
      (f : Frame) (fs : List Frame)
      → Zip m (f ∷ fs) (branch p n l r)
      → ((node_of f).color == black) ≡ true
      → Ready (f ∷ fs) (branch p n l r)
      → Verified m (verify_insertion (suc fuel) p) (plug (f ∷ fs) (branch p n l r))
  unfolding verify_insertion
  below_black f fs z hf (c, a, e) =
      let f0 : (at f == null) ≡ false = let x = at-≢ m fs f (branch p n l r) z in ground arith in
      let (colored, top_black) = plug-Colored (f ∷ fs) (branch p n l r) a c (inr hf) in
      record {
        memory = m;
        tree = plug (f ∷ fs) (branch p n l r);
        runs =
            rw
              (
                verify_insertion,
                load_branch m (f ∷ fs) p n l r z,
                f0,
                load_frame m fs f (branch p n l r) z,
                hf,
              )
              refl;
        forms = z;
        red_black = record { top_black = top_black; colored = colored; even = e };
        ordered = refl;
        root = refl;
        next = refl;
      }

  turned :
      (f g : Frame) (fs : List Frame)
      → Zip m (f ∷ g ∷ fs) (branch p n l r)
      → (node_of f).color ≡ red
      → color_of (other f) ≡ black
      → (node_of g).color ≡ black
      → color_of (other g) ≡ black
      → Ready (f ∷ g ∷ fs) (branch p n l r)
      → Verified m (rebalance p) (plug (f ∷ g ∷ fs) (branch p n l r))
  turned (on_left q x c) (on_left g y d) fs z hf bc hg bd (k, (_, kc, (_, kd, a)), e) =
      Makes-Verified m (rebalance p) q fs _ _ (outer_left m fs g q p y x n l r c d z)
        (outer_left-Balanced g q p (parent_of fs) y x n l r c d hg hf ht k kc kd bc bd
          (Even-sub fs _ e))
        a e
  turned (on_right q x c) (on_right g y d) fs z hf bc hg bd (k, (_, kc, (_, kd, a)), e) =
      Makes-Verified m (rebalance p) q fs _ _ (outer_right m fs g q p y x n l r c d z)
        (outer_right-Balanced g q p (parent_of fs) y x n l r c d hg hf ht k kc kd bc bd
          (Even-sub fs _ e))
        a e
  turned (on_right q x c) (on_left g y d) fs z hf bc hg bd (k, (_, kc, (_, kd, a)), e) =
      Makes-Verified m (rebalance p) p fs _ _ (inner_left m fs g q p y x n l r c d z)
        (inner_left-Balanced g q p (parent_of fs) y x n l r c d hg hf ht k kc kd bc bd
          (Even-sub fs _ e))
        a e
  turned (on_left q x c) (on_right g y d) fs z hf bc hg bd (k, (_, kc, (_, kd, a)), e) =
      Makes-Verified m (rebalance p) p fs _ _ (inner_right m fs g q p y x n l r c d z)
        (inner_right-Balanced g q p (parent_of fs) y x n l r c d hg hf ht k kc kd bc bd
          (Even-sub fs _ e))
        a e

  after_lift :
      (f g : Frame) (fs : List Frame) (v : Lifted fuel m f g fs p (branch p n l r))
      → Verified v.memory (verify_insertion fuel (at g)) (plug fs (lifted f g (branch p n l r)))
      → Verified m (verify_insertion (suc fuel) p) (plug (f ∷ g ∷ fs) (branch p n l r))
  after_lift f g fs v k = record {
    memory = k.memory;
    tree = k.tree;
    runs = v.runs ∙ k.runs;
    forms = k.forms;
    red_black = k.red_black;
    ordered =
        k.ordered
        ∙ values-plug fs (join g (join f (branch p n l r))) (lifted f g (branch p n l r))
            (lifted-values f g (branch p n l r));
    root = k.root ∙ v.root;
    next = k.next ∙ v.next;
  }

  after_turn :
      (T : RbTree)
      → verify_insertion (suc fuel) p m ≡ rebalance p m
      → Verified m (rebalance p) T
      → Verified m (verify_insertion (suc fuel) p) T
  after_turn T e k = record {
    memory = k.memory;
    tree = k.tree;
    runs = e ∙ k.runs;
    forms = k.forms;
    red_black = k.red_black;
    ordered = k.ordered;
    root = k.root;
    next = k.next;
  }

  lifted-Ready :
      (f g : Frame) (fs : List Frame)
      → (node_of f).color ≡ red
      → (node_of g).color ≡ black
      → color_of (other g) ≡ red
      → Ready (f ∷ g ∷ fs) (branch p n l r)
      → Ready fs (lifted f g (branch p n l r))
  lifted-Ready f g fs hf hg hu (k, (_, kf, (_, kg, a)), e) =
      let t = branch p n l r in
      (
        lifted-Colored f g t k kf kg,
        a,
        plug-Even fs (join g (join f t)) (lifted f g t) (lifted-height f g t hf hg hu kg)
            (lifted-Even f g t hf hu kg (Even-sub fs (join g (join f t)) e)) e,
      )

other_color : (t : RbTree) → Colored t → (color_of t == red) ≡ false → color_of t ≡ black
other_color (tip p n) k e = k
other_color (branch p n l r) (inl b, _, _) e = b
other_color (branch p n l r) (inr (b, _, _), _, _) e = ground arith

above_red :
    (f : Frame) (fs : List Frame)
    → ColoredAbove (f ∷ fs)
    → ((node_of f).color == black) ≡ false
    → ((node_of f).color ≡ red) × (color_of (other f) ≡ black) × (is_black fs ≡ true)
above_red f fs (inl b, _, _) h = ground arith
above_red f fs (inr k, _, _) h = k

-- Where the nodes form a tree with the new red node in it, all ways down have the same number of black
-- nodes, and no red node has a red child except perhaps the new node's parent, which is then below a
-- black node: with fuel for the nodes above it, `verifyInsertion` ends with the nodes forming a
-- red-black tree with the same values in the same order. `root` and the next address are as before.
pub verify_insertion_lem :
    (fuel : ℕ) (m : Memory) (fs : List Frame) (p : ℕ) (n : RbtNode) (l r : RbTree)
    → n.color ≡ red
    → Zip m fs (branch p n l r)
    → Colored (branch p n l r)
    → ColoredAbove fs
    → Even (plug fs (branch p n l r))
    → length fs < fuel
    → Verified m (verify_insertion fuel p) (plug fs (branch p n l r))
verify_insertion_lem zero m fs p n l r ht z c a e lt = absurd (omega arith)
verify_insertion_lem (suc fuel) m [] p n l r ht z c a e lt = at_root fuel m p n l r ht z (c, a, e)
verify_insertion_lem (suc fuel) m (f ∷ []) p n l r ht z c a e lt =
    elim (Bool-cases ((node_of f).color == black)) [
      | inl hf ↦ below_black fuel m p n l r ht f [] z hf (c, a, e)
      | inr hf ↦ cc ((above_red f [] a hf).2)
    ]
verify_insertion_lem (suc fuel) m (f ∷ on_left q x d ∷ fs) p n l r ht z c a e lt =
    let g = on_left q x d in
    elim (Bool-cases ((node_of f).color == black)) [
      | inl hf ↦ below_black fuel m p n l r ht f (g ∷ fs) z hf (c, a, e)
      | inr hf ↦
          let (rf, bf, bg) = above_red f (g ∷ fs) a hf in
          let hg : x.color ≡ black = ground arith in
          elim (Bool-cases (color_of d == red)) [
            | inl hu ↦
                let v = lift fuel m p n l r f g fs z hf hu in
                let (c', a', e') =
                  lifted-Ready fuel m p n l r ht f g fs rf hg (ground arith) (c, a, e) in
                after_lift fuel m p n l r ht f g fs v (
                  verify_insertion_lem fuel v.memory fs q _ _ _ refl v.forms c' a' e' (omega arith))
            | inr hu ↦
                after_turn fuel m p n l r ht _ (not_red fuel m p n l r f g fs z hf hu)
                  (turned fuel m p n l r ht f g fs z rf bf hg (other_color d a.2.1 hu) (c, a, e))
          ]
    ]
verify_insertion_lem (suc fuel) m (f ∷ on_right q x d ∷ fs) p n l r ht z c a e lt =
    let g = on_right q x d in
    elim (Bool-cases ((node_of f).color == black)) [
      | inl hf ↦ below_black fuel m p n l r ht f (g ∷ fs) z hf (c, a, e)
      | inr hf ↦
          let (rf, bf, bg) = above_red f (g ∷ fs) a hf in
          let hg : x.color ≡ black = ground arith in
          elim (Bool-cases (color_of d == red)) [
            | inl hu ↦
                let v = lift fuel m p n l r f g fs z hf hu in
                let (c', a', e') =
                  lifted-Ready fuel m p n l r ht f g fs rf hg (ground arith) (c, a, e) in
                after_lift fuel m p n l r ht f g fs v (
                  verify_insertion_lem fuel v.memory fs q _ _ _ refl v.forms c' a' e' (omega arith))
            | inr hu ↦
                after_turn fuel m p n l r ht _ (not_red fuel m p n l r f g fs z hf hu)
                  (turned fuel m p n l r ht f g fs z rf bf hg (other_color d a.2.1 hu) (c, a, e))
          ]
    ]
