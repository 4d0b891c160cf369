-- ===== src/RedBlackTree/Insert/Balance.antt =====
-- The colours of the subtree that the rotations of `verifyInsertion` of hw4/hw4_redblacktree.c leave.
use ee.Base.{ℕ, ◌≡◌, refl, ap, ◌∙◌, List, [], ◌∷◌, ◌++◌, inl, inr, arith}
use ee.RedBlackTree.Memory.{black, red, RbtNode, Memory, Cmd, ok}
use ee.RedBlackTree.Holds.{RbTree, branch, values, addr}
use ee.RedBlackTree.Rotate.Hang.{hang}
use ee.RedBlackTree.Rotate.Left.Tree as LeftTree
use ee.RedBlackTree.Rotate.Right.Tree as RightTree
use ee.RedBlackTree.Context.{Frame, on_left, on_right, plug, values-plug}
use ee.RedBlackTree.Zip.{Forms}
use ee.RedBlackTree.Zip.Frames.{Makes}
use ee.RedBlackTree.Zip.Turn.{relinked}
use ee.RedBlackTree.Colors.{
  color_of, Colored, black_height, Even, IsRedBlack, ColoredAbove, plug-Colored, plug-Even,
  relinked-Above, relinked-Even, hang-color, hang-Colored, hang-Even, hang-height,
}

-- A black subtree in place of another.
pub record Balanced (t t' : RbTree) : Type 0 where
  pub top_black : color_of t' ≡ black
  pub colored : Colored t'
  pub even : Even t'
  pub height : black_height t' ≡ black_height t
  pub ordered : values t' ≡ values t

module _ (g p t q : ℕ) (ng np nt : RbtNode) (a b c d : RbTree) (hg : ng.color ≡ black)
    (hp : np.color ≡ red) (ht : nt.color ≡ red) (kt : Colored (branch t nt a b)) (kc : Colored c)
    (kd : Colored d) (bc : color_of c ≡ black) (bd : color_of d ≡ black) where
  pub outer_left-Balanced :
      Even (branch g ng (branch p np (branch t nt a b) c) d)
      → Balanced (branch g ng (branch p np (branch t nt a b) c) d) (
          RightTree.turned g p
            (record ng { color = red })
            (record np { color = black })
            d
            c
            (branch t nt a b)
            q)
  outer_left-Balanced e = record {
    top_black = refl;
    colored = (inl refl, kt, (inr (refl, hang-color g c ∙ bc, bd), hang-Colored g c kc, kd));
    even = (
      ground (arith, e.0, e.1.0, hang-height g c),
      e.1.1,
      (ground (arith, e.0, e.1.0, hang-height g c), hang-Even g c e.1.2, e.2),
    );
    height = ground arith;
    ordered =
        RightTree.turned-values g p (record ng { color = red }) (record np { color = black }) d c
          (branch t nt a b) q;
  }

  pub outer_right-Balanced :
      Even (branch g ng d (branch p np c (branch t nt a b)))
      → Balanced (branch g ng d (branch p np c (branch t nt a b))) (
          LeftTree.turned g p
            (record ng { color = red })
            (record np { color = black })
            d
            c
            (branch t nt a b)
            q)
  outer_right-Balanced e = record {
    top_black = refl;
    colored = (inl refl, (inr (refl, bd, hang-color g c ∙ bc), kd, hang-Colored g c kc), kt);
    even = (
      ground (arith, e.0, e.2.0, hang-height g c),
      (ground (arith, e.0, e.2.0, hang-height g c), e.1, hang-Even g c e.2.1),
      e.2.2,
    );
    height = ground (arith, e.0, e.2.0, hang-height g c);
    ordered =
        LeftTree.turned-values g p (record ng { color = red }) (record np { color = black }) d c
          (branch t nt a b) q;
  }

  red_children : (color_of a ≡ black) × (color_of b ≡ black)
  red_children = elim kt.0 [ inl e ↦ absurd (omega arith) | inr (_, ka, kb) ↦ (ka, kb) ]

  pub inner_left-Balanced :
      Even (branch g ng (branch p np c (branch t nt a b)) d)
      → Balanced (branch g ng (branch p np c (branch t nt a b)) d) (
          RightTree.turned g t
            (record ng { left = t; color = red })
            (record nt { left = p; parent = g; color = black })
            d
            b
            (branch p (record np { right = addr a; parent = t }) c (hang p a))
            q)
  inner_left-Balanced e =
      let (ba, bb) = red_children in
      record {
        top_black = refl;
        colored = (
          inl refl,
          (inr (hp, bc, hang-color p a ∙ ba), kc, hang-Colored p a kt.1),
          (inr (refl, hang-color g b ∙ bb, bd), hang-Colored g b kt.2, kd),
        );
        even = (
          ground (arith, e.0, e.1.0, e.1.2.0, hang-height p a, hang-height g b),
          (ground (arith, e.1.0, hang-height p a), e.1.1, hang-Even p a e.1.2.1),
          (ground (arith, e.0, e.1.0, e.1.2.0, hang-height g b), hang-Even g b e.1.2.2, e.2),
        );
        height = ground arith;
        ordered =
            RightTree.turned-values g t (record ng { left = t; color = red })
              (record nt { left = p; parent = g; color = black }) d b
              (branch p (record np { right = addr a; parent = t }) c (hang p a)) q
            ∙ ap (λ l. l ++ ng.value ∷ values d) (LeftTree.turned-values p t np nt c a b g);
      }

  pub inner_right-Balanced :
      Even (branch g ng d (branch p np (branch t nt a b) c))
      → Balanced (branch g ng d (branch p np (branch t nt a b) c)) (
          LeftTree.turned g t
            (record ng { right = t; color = red })
            (record nt { right = p; parent = g; color = black })
            d
            a
            (branch p (record np { left = addr b; parent = t }) (hang p b) c)
            q)
  inner_right-Balanced e =
      let (ba, bb) = red_children in
      record {
        top_black = refl;
        colored = (
          inl refl,
          (inr (refl, bd, hang-color g a ∙ ba), kd, hang-Colored g a kt.1),
          (inr (hp, hang-color p b ∙ bb, bc), hang-Colored p b kt.2, kc),
        );
        even = (
          ground (arith, e.0, e.2.0, e.2.1.0, hang-height p b, hang-height g a),
          (ground (arith, e.0, e.2.0, e.2.1.0, hang-height g a), e.1, hang-Even g a e.2.1.1),
          (ground (arith, e.2.0, e.2.1.0, hang-height p b), hang-Even p b e.2.1.2, e.2.2),
        );
        height = ground (arith, e.0, e.2.0, e.2.1.0, hang-height g a);
        ordered =
            LeftTree.turned-values g t (record ng { right = t; color = red })
              (record nt { right = p; parent = g; color = black }) d a
              (branch p (record np { left = addr b; parent = t }) (hang p b) c) q
            ∙ ap (λ l. values d ++ ng.value ∷ l) (RightTree.turned-values p t np nt c b a g);
      }

-- What `verifyInsertion` is to do: a red-black tree with the same values in the same order.
pub record Verified (m : Memory) (c : Cmd (Unit {0})) (t : RbTree) : Type 0 where
  pub memory : Memory
  pub tree : RbTree
  pub runs : c m ≡ ok tt memory
  pub forms : Forms memory tree
  pub red_black : IsRedBlack tree
  pub ordered : values tree ≡ values t
  pub root : memory.root ≡ m.root
  pub next : memory.next ≡ m.next

values-relinked :
    (a : ℕ) (fs : List Frame) (t : RbTree) → values (plug (relinked a fs) t) ≡ values (plug fs t)
values-relinked a [] t = refl
values-relinked a (on_left p n s ∷ fs) t = values-plug fs (branch p n t s) _ refl
values-relinked a (on_right p n s ∷ fs) t = values-plug fs (branch p n s t) _ refl

pub Makes-Verified :
    (m : Memory) (c : Cmd (Unit {0})) (a : ℕ) (fs : List Frame) (t t' : RbTree)
    → Makes m c (plug (relinked a fs) t')
    → Balanced t t'
    → ColoredAbove fs
    → Even (plug fs t)
    → Verified m c (plug fs t)
Makes-Verified m c a fs t t' k b above even =
    let (colored, top_black) =
      plug-Colored (relinked a fs) t' (relinked-Above a fs above) b.colored (inl b.top_black) in
    record {
      memory = k.memory;
      tree = plug (relinked a fs) t';
      runs = k.runs;
      forms = k.forms;
      red_black = record {
        top_black = top_black;
        colored = colored;
        even = relinked-Even a fs t' (plug-Even fs t t' b.height b.even even);
      };
      ordered = values-relinked a fs t' ∙ values-plug fs t t' b.ordered;
      root = k.root;
      next = k.next;
    }
