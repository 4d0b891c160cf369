-- ===== src/RedBlackTree/Zip/Turn.antt =====
-- The rotations of hw4/hw4_redblacktree.c anywhere in the tree.
use ee.Base.{ℕ, ◌≡◌, ◌≢◌, refl, ◌∙◌, true, false, Option, some, List, [], ◌∷◌, arith, ◌==◌}
use ee.RedBlackTree.Memory.{null, RbtNode, Memory, ok}
use ee.RedBlackTree.Holds.{RbTree, branch, addr, has, Holds, Apart, frame}
use ee.RedBlackTree.Context.{
  Frame, on_left, on_right, plug, parent_of, Holds-sub, Apart-sub, has-sub, has-plug, plug-Apart,
  replace-Holds,
}
use ee.RedBlackTree.Rotate.{rotate_left, rotate_right}
use ee.RedBlackTree.Rotate.Hang.{addr-has, Turned}
use ee.RedBlackTree.Rotate.Left.Tree as LeftTree
use ee.RedBlackTree.Rotate.Right.Tree as RightTree
use ee.RedBlackTree.Zip.{Zip}

-- The lowest node above points to another address.
abbrev pub relinked : ℕ → List Frame → List Frame
relinked a [] = []
relinked a (on_left p n s ∷ fs) = on_left p (record n { left = a }) s ∷ fs
relinked a (on_right p n s ∷ fs) = on_right p (record n { right = a }) s ∷ fs

abbrev IsLink : (ℕ → Option RbtNode) → ℕ → List Frame → Type 0
IsLink g a [] = Unit {0}
IsLink g a (on_left p n s ∷ fs) = g p ≡ some (record n { left = a })
IsLink g a (on_right p n s ∷ fs) = g p ≡ some (record n { right = a })

relinked-Holds :
    (h g : ℕ → Option RbtNode) (fs : List Frame) (t t' : RbTree)
    → Holds h null (plug fs t)
    → Apart (plug fs t)
    → Holds g (parent_of fs) t'
    → ((a : ℕ) → has a t ≡ false → a ≢ parent_of fs → g a ≡ h a)
    → IsLink g (addr t') fs
    → Holds g null (plug (relinked (addr t') fs) t')
relinked-Holds h g [] t t' w s v same e = v
relinked-Holds h g (on_left p n u ∷ fs) t t' w s v same e =
    let k = Apart-sub fs (branch p n t u) s in
    let x = Holds-sub h fs (branch p n t u) w in
    replace-Holds h g fs (branch p n t u) (branch p (record n { left = addr t' }) t' u) w s
      (
        (e, x.0.1, x.0.2, refl, x.0.4),
        v,
        frame h g p u x.2
            (λ a m. same a (ground (arith, k.2 a, m)) (λ y. ground (arith, k.1, m, y))),
      )
      refl (λ a m. same a (ground (arith, m)) (λ y. ground (arith, m, y)))
relinked-Holds h g (on_right p n u ∷ fs) t t' w s v same e =
    let k = Apart-sub fs (branch p n u t) s in
    let x = Holds-sub h fs (branch p n u t) w in
    replace-Holds h g fs (branch p n u t) (branch p (record n { right = addr t' }) u t') w s
      (
        (e, x.0.1, x.0.2, x.0.3, refl),
        frame h g p u x.1 (λ a m. same a (k.2 a m) (λ y. ground (arith, k.0, m, y))),
        v,
      )
      refl (λ a m. same a (ground (arith, m)) (λ y. ground (arith, m, y)))

has-relinked :
    (c : ℕ) (fs : List Frame) (t : RbTree) (a : ℕ)
    → has a (plug (relinked c fs) t) ≡ has a (plug fs t)
has-relinked c [] t a = refl
has-relinked c (on_left p n s ∷ fs) t a = has-plug fs _ _ (λ a. refl) a
has-relinked c (on_right p n s ∷ fs) t a = has-plug fs _ _ (λ a. refl) a

relinked-Apart :
    (c : ℕ) (fs : List Frame) (t : RbTree) → Apart (plug fs t) → Apart (plug (relinked c fs) t)
relinked-Apart c [] t s = s
relinked-Apart c (on_left p n u ∷ fs) t s =
    plug-Apart fs (branch p n t u) _ (λ a. refl) (Apart-sub fs (branch p n t u) s) s
relinked-Apart c (on_right p n u ∷ fs) t s =
    plug-Apart fs (branch p n u t) _ (λ a. refl) (Apart-sub fs (branch p n u t) s) s

relinked-Zip :
    (m m' : Memory) (fs : List Frame) (t t' : RbTree)
    → Zip m fs t
    → Turned m (parent_of fs) t t' m'
    → ((a : ℕ) → has a t' ≡ has a t)
    → Apart t'
    → IsLink m'.nodes (addr t') fs
    → Zip m' (relinked (addr t') fs) t'
relinked-Zip m m' fs t t' z v e d k = record {
  holds = relinked-Holds m.nodes m'.nodes fs t t' z.holds z.apart v.holds v.others k;
  apart = relinked-Apart (addr t') fs t' (plug-Apart fs t t' e d z.apart);
  positive = has-relinked (addr t') fs t' null ∙ has-plug fs t t' e null ∙ z.positive;
}

parent-≢ :
    (m : Memory) (p : ℕ) (n : RbtNode) (l r : RbTree) (fs : List Frame)
    → Zip m fs (branch p n l r)
    → p ≢ null
parent-≢ m p n l r fs z e = ground (arith, has-sub fs (branch p n l r) null z.positive, e)

-- What a rotation at a place does: it ends, with the new subtree there, and `root` is as before.
pub record Rotated (m : Memory) (fs : List Frame) (t : RbTree) (m' : Memory) : Type 0 where
  pub zip : Zip m' (relinked (addr t) fs) t
  pub root : m'.root ≡ m.root
  pub next : m'.next ≡ m.next

module _ (m : Memory) (p c : ℕ) (n y : RbtNode) (l b r : RbTree) where
  pub rotate_left-Zip :
      (fs : List Frame)
      → Zip m fs (LeftTree.upright p c n y l b r)
      → (m' : Memory) × (rotate_left p m ≡ ok tt m')
        × Rotated m fs (LeftTree.turned p c n y l b r (parent_of fs)) m'
  rotate_left-Zip [] z =
      let (m', run, v, _) = LeftTree.rotate_left_root m p c n y l b r z.holds z.apart z.positive in
      (
        m',
        run,
        record {
          zip =
              relinked-Zip m m' [] _ _ z v (LeftTree.turned-has p c n y l b r null)
                (LeftTree.turned-Apart p c n y l b r null z.apart) tt;
          root = v.root;
          next = v.next;
        },
      )
  rotate_left-Zip (on_left q x u ∷ fs) z =
      let t = LeftTree.upright p c n y l b r in
      let w = Holds-sub m.nodes fs (branch q x t u) z.holds in
      let s = Apart-sub fs (branch q x t u) z.apart in
      let nq : q ≢ null = parent-≢ m q x t u fs z in
      let (m', run, v, e, _) =
        LeftTree.rotate_left_below m q p c n y l b r w.1 s.3
          (has-sub (on_left q x u ∷ fs) t null z.positive) x nq s.0 w.0.0 in
      let side : (x.left == p) ≡ true = ground (arith, w.0.3) in
      (
        m',
        run,
        record {
          zip =
              relinked-Zip m m' (on_left q x u ∷ fs) _ _ z v (LeftTree.turned-has p c n y l b r q)
                (LeftTree.turned-Apart p c n y l b r q s.3) (rw side at e);
          root = v.root;
          next = v.next;
        },
      )
  rotate_left-Zip (on_right q x u ∷ fs) z =
      let t = LeftTree.upright p c n y l b r in
      let w = Holds-sub m.nodes fs (branch q x u t) z.holds in
      let s = Apart-sub fs (branch q x u t) z.apart in
      let nq : q ≢ null = parent-≢ m q x u t fs z in
      let (m', run, v, e, _) =
        LeftTree.rotate_left_below m q p c n y l b r w.2 s.4
          (has-sub (on_right q x u ∷ fs) t null z.positive) x nq s.1 w.0.0 in
      let side : (x.left == p) ≡ false = ground (arith, w.0.3, addr-has u, s.2 (addr u)) in
      (
        m',
        run,
        record {
          zip =
              relinked-Zip m m' (on_right q x u ∷ fs) _ _ z v (LeftTree.turned-has p c n y l b r q)
                (LeftTree.turned-Apart p c n y l b r q s.4) (rw side at e);
          root = v.root;
          next = v.next;
        },
      )

module _ (m : Memory) (p c : ℕ) (n y : RbtNode) (l b r : RbTree) where
  pub rotate_right-Zip :
      (fs : List Frame)
      → Zip m fs (RightTree.upright p c n y l b r)
      → (m' : Memory) × (rotate_right p m ≡ ok tt m')
        × Rotated m fs (RightTree.turned p c n y l b r (parent_of fs)) m'
  rotate_right-Zip [] z =
      let (m', run, v, _) =
        RightTree.rotate_right_root m p c n y l b r z.holds z.apart z.positive in
      (
        m',
        run,
        record {
          zip =
              relinked-Zip m m' [] _ _ z v (RightTree.turned-has p c n y l b r null)
                (RightTree.turned-Apart p c n y l b r null z.apart) tt;
          root = v.root;
          next = v.next;
        },
      )
  rotate_right-Zip (on_left q x u ∷ fs) z =
      let t = RightTree.upright p c n y l b r in
      let w = Holds-sub m.nodes fs (branch q x t u) z.holds in
      let s = Apart-sub fs (branch q x t u) z.apart in
      let nq : q ≢ null = parent-≢ m q x t u fs z in
      let (m', run, v, e, _) =
        RightTree.rotate_right_below m q p c n y l b r w.1 s.3
          (has-sub (on_left q x u ∷ fs) t null z.positive) x nq s.0 w.0.0 in
      let side : (x.right == p) ≡ false = ground (arith, w.0.4, addr-has u, s.2 p (ground arith)) in
      (
        m',
        run,
        record {
          zip =
              relinked-Zip m m' (on_left q x u ∷ fs) _ _ z v (RightTree.turned-has p c n y l b r q)
                (RightTree.turned-Apart p c n y l b r q s.3) (rw side at e);
          root = v.root;
          next = v.next;
        },
      )
  rotate_right-Zip (on_right q x u ∷ fs) z =
      let t = RightTree.upright p c n y l b r in
      let w = Holds-sub m.nodes fs (branch q x u t) z.holds in
      let s = Apart-sub fs (branch q x u t) z.apart in
      let nq : q ≢ null = parent-≢ m q x u t fs z in
      let (m', run, v, e, _) =
        RightTree.rotate_right_below m q p c n y l b r w.2 s.4
          (has-sub (on_right q x u ∷ fs) t null z.positive) x nq s.1 w.0.0 in
      let side : (x.right == p) ≡ true = ground (arith, w.0.4) in
      (
        m',
        run,
        record {
          zip =
              relinked-Zip m m' (on_right q x u ∷ fs) _ _ z v (RightTree.turned-has p c n y l b r q)
                (RightTree.turned-Apart p c n y l b r q s.4) (rw side at e);
          root = v.root;
          next = v.next;
        },
      )
