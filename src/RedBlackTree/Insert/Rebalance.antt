-- ===== src/RedBlackTree/Insert/Rebalance.antt =====
-- The four cases of `verifyInsertion` of hw4/hw4_redblacktree.c that end with a rotation.
use ee.Base.{ℕ, ◌≡◌, refl, ◌∙◌, true, false, List, ◌∷◌, arith, ◌==◌}
use ee.RedBlackTree.Memory.{null, black, red, RbtNode, Memory}
use ee.RedBlackTree.Holds.{RbTree, branch, addr}
use ee.RedBlackTree.Context.{Frame, on_left, on_right, plug, parent_of, has-sub, Apart-sub}
use ee.RedBlackTree.Rotate.Hang.{hang, addr-has}
use ee.RedBlackTree.Rotate.Left.Tree as LeftTree
use ee.RedBlackTree.Rotate.Right.Tree as RightTree
use ee.RedBlackTree.Insert.{rebalance}
use ee.RedBlackTree.Zip.{Zip, set_color-Zip, load_branch}
use ee.RedBlackTree.Zip.Frames.{Makes, grandparent_lem}
use ee.RedBlackTree.Zip.Turn.{relinked, rotate_left-Zip, rotate_right-Zip}

module _ (m : Memory) (fs : List Frame) (g p t : ℕ) (ng np nt : RbtNode) (a b c d : RbTree) where
  module _ (z : Zip m fs (branch g ng (branch p np (branch t nt a b) c) d)) where
    pub outer_left : Makes m (rebalance t) (
        plug (relinked p fs) (
          RightTree.turned g p
            (record ng { color = red })
            (record np { color = black })
            d
            c
            (branch t nt a b)
            (parent_of fs)))
    unfolding rebalance
    outer_left =
        let s = Apart-sub fs (branch g ng (branch p np (branch t nt a b) c) d) z.apart in
        let n0 = has-sub fs (branch g ng (branch p np (branch t nt a b) c) d) null z.positive in
        let e1 = load_branch m (on_left p np c ∷ on_left g ng d ∷ fs) t nt a b z in
        let e2 = load_branch m (on_left g ng d ∷ fs) p np (branch t nt a b) c z in
        let e3 = load_branch m fs g ng (branch p np (branch t nt a b) c) d z in
        let tn : (t == null) ≡ false = ground arith in
        let pn : (p == null) ≡ false = ground arith in
        let tc : (t == addr c) ≡ false = ground (arith, addr-has c, s.3.2 t) in
        let pd : (p == addr d) ≡ false = ground (arith, addr-has d, s.2 p) in
        let tt' : (t == t) ≡ true = ground arith in
        let up = grandparent_lem m t _ _ (ground arith) (ground arith) e1 e2 in
        let (s1, z1) =
          set_color-Zip m (on_left g ng d ∷ fs) (branch p np (branch t nt a b) c) black z in
        let (s2, z2) =
          set_color-Zip _ fs
            (branch g ng (branch p (record np { color = black }) (branch t nt a b) c) d) red z1 in
        let e4 =
          load_branch _ (on_left g (record ng { color = red }) d ∷ fs) p
            (record np { color = black }) (branch t nt a b) c z2 in
        let (m', run, v) =
          rotate_right-Zip _ g p (record ng { color = red }) (record np { color = black }) d c
            (branch t nt a b) fs z2 in
        record {
          memory = m';
          runs = rw (rebalance, up, e1, e2, e3, tc, pd, tt', e1, s1, s2, e4, tt', run) refl;
          forms = v.zip;
          root = v.root;
          next = v.next;
        }

  module _ (z : Zip m fs (branch g ng d (branch p np c (branch t nt a b)))) where
    pub outer_right : Makes m (rebalance t) (
        plug (relinked p fs) (
          LeftTree.turned g p
            (record ng { color = red })
            (record np { color = black })
            d
            c
            (branch t nt a b)
            (parent_of fs)))
    unfolding rebalance
    outer_right =
        let s = Apart-sub fs (branch g ng d (branch p np c (branch t nt a b))) z.apart in
        let n0 = has-sub fs (branch g ng d (branch p np c (branch t nt a b))) null z.positive in
        let e1 = load_branch m (on_right p np c ∷ on_right g ng d ∷ fs) t nt a b z in
        let e2 = load_branch m (on_right g ng d ∷ fs) p np c (branch t nt a b) z in
        let e3 = load_branch m fs g ng d (branch p np c (branch t nt a b)) z in
        let tc : (t == addr c) ≡ false = ground (arith, addr-has c, s.4.2 (addr c)) in
        let pd : (p == addr d) ≡ false = ground (arith, addr-has d, s.2 (addr d)) in
        let tt' : (t == t) ≡ true = ground arith in
        let up = grandparent_lem m t _ _ (ground arith) (ground arith) e1 e2 in
        let (s1, z1) =
          set_color-Zip m (on_right g ng d ∷ fs) (branch p np c (branch t nt a b)) black z in
        let (s2, z2) =
          set_color-Zip _ fs
            (branch g ng d (branch p (record np { color = black }) c (branch t nt a b))) red z1 in
        let e4 =
          load_branch _ (on_right g (record ng { color = red }) d ∷ fs) p
            (record np { color = black }) c (branch t nt a b) z2 in
        let (m', run, v) =
          rotate_left-Zip _ g p (record ng { color = red }) (record np { color = black }) d c
            (branch t nt a b) fs z2 in
        record {
          memory = m';
          runs = rw (rebalance, up, e1, e2, e3, tt', pd, tc, e1, s1, s2, e4, tc, run) refl;
          forms = v.zip;
          root = v.root;
          next = v.next;
        }

  module _ (z : Zip m fs (branch g ng (branch p np c (branch t nt a b)) d)) where
    pub inner_left : Makes m (rebalance t) (
        plug (relinked t fs) (
          RightTree.turned g t
            (record ng { left = t; color = red })
            (record nt { left = p; parent = g; color = black })
            d
            b
            (branch p (record np { right = addr a; parent = t }) c (hang p a))
            (parent_of fs)))
    unfolding rebalance
    inner_left =
        let n0 = has-sub fs (branch g ng (branch p np c (branch t nt a b)) d) null z.positive in
        let e1 = load_branch m (on_right p np c ∷ on_left g ng d ∷ fs) t nt a b z in
        let e2 = load_branch m (on_left g ng d ∷ fs) p np c (branch t nt a b) z in
        let e3 = load_branch m fs g ng (branch p np c (branch t nt a b)) d z in
        let tt' : (t == t) ≡ true = ground arith in
        let pp : (p == p) ≡ true = ground arith in
        let up = grandparent_lem m t _ _ (ground arith) (ground arith) e1 e2 in
        let (m1, turn, v1) = rotate_left-Zip m p t np nt c a b (on_left g ng d ∷ fs) z in
        let nt' = record nt { left = p; parent = g } in
        let np' = record np { right = addr a; parent = t } in
        let ng' = record ng { left = t } in
        let P = branch p np' c (hang p a) in
        let e5 = load_branch m1 (on_left g ng' d ∷ fs) t nt' P b v1.zip in
        let e6 =
          load_branch m1 (on_left t nt' b ∷ on_left g ng' d ∷ fs) p np' c (hang p a) v1.zip in
        let (s1, z1) = set_color-Zip m1 (on_left g ng' d ∷ fs) (branch t nt' P b) black v1.zip in
        let (s2, z2) =
          set_color-Zip _ fs (branch g ng' (branch t (record nt' { color = black }) P b) d) red
            z1 in
        let e7 =
          load_branch _ (on_left g (record ng' { color = red }) d ∷ fs) t
            (record nt' { color = black }) P b z2 in
        let (m', run, v) =
          rotate_right-Zip _ g t (record ng' { color = red }) (record nt' { color = black }) d b P
            fs z2 in
        record {
          memory = m';
          runs = rw (rebalance, up, e1, e2, e3, tt', pp, turn, e5, e6, s1, s2, e7, pp, run) refl;
          forms = v.zip;
          root = v.root ∙ v1.root;
          next = v.next ∙ v1.next;
        }

  module _ (z : Zip m fs (branch g ng d (branch p np (branch t nt a b) c))) where
    pub inner_right : Makes m (rebalance t) (
        plug (relinked t fs) (
          LeftTree.turned g t
            (record ng { right = t; color = red })
            (record nt { right = p; parent = g; color = black })
            d
            a
            (branch p (record np { left = addr b; parent = t }) (hang p b) c)
            (parent_of fs)))
    unfolding rebalance
    inner_right =
        let s = Apart-sub fs (branch g ng d (branch p np (branch t nt a b) c)) z.apart in
        let n0 = has-sub fs (branch g ng d (branch p np (branch t nt a b) c)) null z.positive in
        let e1 = load_branch m (on_left p np c ∷ on_right g ng d ∷ fs) t nt a b z in
        let e2 = load_branch m (on_right g ng d ∷ fs) p np (branch t nt a b) c z in
        let e3 = load_branch m fs g ng d (branch p np (branch t nt a b) c) z in
        let tc : (t == addr c) ≡ false = ground (arith, addr-has c, s.4.2 t) in
        let pa : (p == addr a) ≡ false = ground (arith, addr-has a, s.4.0) in
        let tt' : (t == t) ≡ true = ground arith in
        let pp : (p == p) ≡ true = ground arith in
        let up = grandparent_lem m t _ _ (ground arith) (ground arith) e1 e2 in
        let (m1, turn, v1) = rotate_right-Zip m p t np nt c b a (on_right g ng d ∷ fs) z in
        let nt' = record nt { right = p; parent = g } in
        let np' = record np { left = addr b; parent = t } in
        let ng' = record ng { right = t } in
        let P = branch p np' (hang p b) c in
        let e5 = load_branch m1 (on_right g ng' d ∷ fs) t nt' a P v1.zip in
        let e6 =
          load_branch m1 (on_right t nt' a ∷ on_right g ng' d ∷ fs) p np' (hang p b) c v1.zip in
        let (s1, z1) = set_color-Zip m1 (on_right g ng' d ∷ fs) (branch t nt' a P) black v1.zip in
        let (s2, z2) =
          set_color-Zip _ fs (branch g ng' d (branch t (record nt' { color = black }) a P)) red
            z1 in
        let e7 =
          load_branch _ (on_right g (record ng' { color = red }) d ∷ fs) t
            (record nt' { color = black }) a P z2 in
        let (m', run, v) =
          rotate_left-Zip _ g t (record ng' { color = red }) (record nt' { color = black }) d a P fs
            z2 in
        record {
          memory = m';
          runs =
              rw (rebalance, up, e1, e2, e3, tc, tt', pp, turn, e5, e6, s1, s2, e7, pa, run) refl;
          forms = v.zip;
          root = v.root ∙ v1.root;
          next = v.next ∙ v1.next;
        }
