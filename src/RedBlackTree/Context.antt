-- ===== src/RedBlackTree/Context.antt =====
-- A subtree of the tree of hw4/hw4_redblacktree.c in its place: the nodes above it, the lowest first.
use ee.Base.{ℕ, ◌≡◌, refl, sym, ap, ◌∙◌, false, Option, List, [], ◌∷◌, ◌++◌, arith}
use ee.RedBlackTree.Memory.{null, RbtNode}
use ee.RedBlackTree.Holds.{RbTree, branch, addr, has, Holds, Apart, values, frame}

-- The subtree is the left or the right child of `p`, next to the other child `s`.
pub data Frame : Type 0 where
  on_left : (p : ℕ) (n : RbtNode) (s : RbTree) → Frame
  on_right : (p : ℕ) (n : RbtNode) (s : RbTree) → Frame

abbrev pub join : Frame → RbTree → RbTree
join (on_left p n s) t = branch p n t s
join (on_right p n s) t = branch p n s t

abbrev pub at : Frame → ℕ
at (on_left p n s) = p
at (on_right p n s) = p

abbrev pub node_of : Frame → RbtNode
node_of (on_left p n s) = n
node_of (on_right p n s) = n

abbrev pub other : Frame → RbTree
other (on_left p n s) = s
other (on_right p n s) = s

abbrev pub plug : List Frame → RbTree → RbTree
plug [] t = t
plug (f ∷ fs) t = plug fs (join f t)

abbrev pub parent_of : List Frame → ℕ
parent_of [] = null
parent_of (f ∷ fs) = at f

pub Holds-sub :
    (h : ℕ → Option RbtNode) (fs : List Frame) (t : RbTree)
    → Holds h null (plug fs t)
    → Holds h (parent_of fs) t
Holds-sub h [] t w = w
Holds-sub h (on_left p n s ∷ fs) t w = (Holds-sub h fs (branch p n t s) w).1
Holds-sub h (on_right p n s ∷ fs) t w = (Holds-sub h fs (branch p n s t) w).2

pub Apart-sub : (fs : List Frame) (t : RbTree) → Apart (plug fs t) → Apart t
Apart-sub [] t s = s
Apart-sub (on_left p n u ∷ fs) t s = (Apart-sub fs (branch p n t u) s).3
Apart-sub (on_right p n u ∷ fs) t s = (Apart-sub fs (branch p n u t) s).4

pub has-sub : (fs : List Frame) (t : RbTree) (a : ℕ) → has a (plug fs t) ≡ false → has a t ≡ false
has-sub [] t a e = e
has-sub (on_left p n s ∷ fs) t a e = ground (arith, has-sub fs (branch p n t s) a e)
has-sub (on_right p n s ∷ fs) t a e = ground (arith, has-sub fs (branch p n s t) a e)

-- A tree with the same addresses in the same place
pub has-plug :
    (fs : List Frame) (t t' : RbTree)
    → ((a : ℕ) → has a t' ≡ has a t)
    → (a : ℕ) → has a (plug fs t') ≡ has a (plug fs t)
has-plug [] t t' e = e
has-plug (on_left p n s ∷ fs) t t' e =
    has-plug fs (branch p n t s) (branch p n t' s) (λ a. rw (e a) refl)
has-plug (on_right p n s ∷ fs) t t' e =
    has-plug fs (branch p n s t) (branch p n s t') (λ a. rw (e a) refl)

pub plug-Apart :
    (fs : List Frame) (t t' : RbTree)
    → ((a : ℕ) → has a t' ≡ has a t)
    → Apart t'
    → Apart (plug fs t)
    → Apart (plug fs t')
plug-Apart [] t t' e d s = d
plug-Apart (on_left p n u ∷ fs) t t' e d s =
    let k = Apart-sub fs (branch p n t u) s in
    plug-Apart fs (branch p n t u) (branch p n t' u) (λ a. rw (e a) refl)
      (e p ∙ k.0, k.1, λ a x. k.2 a (sym (e a) ∙ x), d, k.4) s
plug-Apart (on_right p n u ∷ fs) t t' e d s =
    let k = Apart-sub fs (branch p n u t) s in
    plug-Apart fs (branch p n u t) (branch p n u t') (λ a. rw (e a) refl)
      (k.0, e p ∙ k.1, λ a x. e a ∙ k.2 a x, k.3, d) s

pub values-plug :
    (fs : List Frame) (t t' : RbTree)
    → values t' ≡ values t
    → values (plug fs t') ≡ values (plug fs t)
values-plug [] t t' e = e
values-plug (on_left p n s ∷ fs) t t' e =
    values-plug fs (branch p n t s) (branch p n t' s) (ap (λ l. l ++ n.value ∷ values s) e)
values-plug (on_right p n s ∷ fs) t t' e =
    values-plug fs (branch p n s t) (branch p n s t') (ap (λ l. values s ++ n.value ∷ l) e)

-- A change that keeps the address of the top is no change for the nodes above.
pub replace-Holds :
    (h g : ℕ → Option RbtNode) (fs : List Frame) (t t' : RbTree)
    → Holds h null (plug fs t)
    → Apart (plug fs t)
    → Holds g (parent_of fs) t'
    → addr t' ≡ addr t
    → ((a : ℕ) → has a t ≡ false → g a ≡ h a)
    → Holds g null (plug fs t')
replace-Holds h g [] t t' w s v e same = v
replace-Holds h g (on_left p n u ∷ fs) t t' w s v e same =
    let k = Apart-sub fs (branch p n t u) s in
    let x = Holds-sub h fs (branch p n t u) w in
    replace-Holds h g fs (branch p n t u) (branch p n t' u) w s
      (
        (same p k.0 ∙ x.0.0, x.0.1, x.0.2, x.0.3 ∙ sym e, x.0.4),
        v,
        frame h g p u x.2 (λ a m. same a (ground (arith, k.2 a, m))),
      )
      refl (λ a m. same a (ground (arith, m)))
replace-Holds h g (on_right p n u ∷ fs) t t' w s v e same =
    let k = Apart-sub fs (branch p n u t) s in
    let x = Holds-sub h fs (branch p n u t) w in
    replace-Holds h g fs (branch p n u t) (branch p n u t') w s
      (
        (same p k.1 ∙ x.0.0, x.0.1, x.0.2, x.0.3, x.0.4 ∙ sym e),
        frame h g p u x.1 (λ a m. same a (k.2 a m)),
        v,
      )
      refl (λ a m. same a (ground (arith, m)))
