-- ===== src/RedBlackTree/Colors.antt =====
-- The colours of the tree of hw4/hw4_redblacktree.c.
use ee.Base.{
  ℕ, ◌+◌, ◌≡◌, refl, sym, ◌∙◌, Bool, true, false, List, [], ◌∷◌, ◌⊎◌, inl, inr, arith, ◌==◌,
  if◌then◌else◌,
}
use ee.RedBlackTree.Memory.{black, red}
use ee.RedBlackTree.Holds.{RbTree, tip, branch}
use ee.RedBlackTree.Rotate.Hang.{top, hang}
use ee.RedBlackTree.Context.{Frame, on_left, on_right, node_of, other, plug}
use ee.RedBlackTree.Zip.Turn.{relinked}

abbrev pub color_of : RbTree → ℕ
color_of t = (top t).color

-- The children of a red node are black.
abbrev pub Colored : RbTree → Type 0
Colored (tip p n) = n.color ≡ black
Colored (branch p n l r) =
    ((n.color ≡ black) ⊎ ((n.color ≡ red) × (color_of l ≡ black) × (color_of r ≡ black)))
    × Colored l
    × Colored r

-- The black nodes on the way to the left end.
abbrev pub black_height : RbTree → ℕ
black_height (tip p n) = 0
black_height (branch p n l r) = black_height l + (if n.color == black then 1 else 0)

-- The ways down have the same number of black nodes.
abbrev pub Even : RbTree → Type 0
Even (tip p n) = Unit {0}
Even (branch p n l r) = (black_height l ≡ black_height r) × Even l × Even r

pub record IsRedBlack (t : RbTree) : Type 0 where
  pub top_black : color_of t ≡ black
  pub colored : Colored t
  pub even : Even t

abbrev pub is_black : List Frame → Bool
is_black [] = false
is_black (f ∷ fs) = (node_of f).color == black

-- The nodes above a place have the right colours, whatever is there; a red one is below a black one.
abbrev pub ColoredAbove : List Frame → Type 0
ColoredAbove [] = Unit {0}
ColoredAbove (f ∷ fs) =
    (((node_of f).color ≡ black)
      ⊎ (((node_of f).color ≡ red) × (color_of (other f) ≡ black) × (is_black fs ≡ true)))
    × Colored (other f)
    × ColoredAbove fs

pub plug-Colored :
    (fs : List Frame) (t : RbTree)
    → ColoredAbove fs
    → Colored t
    → (color_of t ≡ black) ⊎ (is_black fs ≡ true)
    → Colored (plug fs t) × (color_of (plug fs t) ≡ black)
plug-Colored [] t a c (inl e) = (c, e)
plug-Colored [] t a c (inr e) = cc e
plug-Colored (on_left p n s ∷ fs) t (inl b, d, a) c k =
    plug-Colored fs (branch p n t s) a (inl b, c, d) (inl b)
plug-Colored (on_right p n s ∷ fs) t (inl b, d, a) c k =
    plug-Colored fs (branch p n s t) a (inl b, d, c) (inl b)
plug-Colored (on_left p n s ∷ fs) t (inr (r, b, e), d, a) c (inl k) =
    plug-Colored fs (branch p n t s) a (inr (r, k, b), c, d) (inr e)
plug-Colored (on_right p n s ∷ fs) t (inr (r, b, e), d, a) c (inl k) =
    plug-Colored fs (branch p n s t) a (inr (r, b, k), d, c) (inr e)
plug-Colored (on_left p n s ∷ fs) t (inr (r, b, e), d, a) c (inr k) = ground arith
plug-Colored (on_right p n s ∷ fs) t (inr (r, b, e), d, a) c (inr k) = ground arith

pub Even-sub : (fs : List Frame) (t : RbTree) → Even (plug fs t) → Even t
Even-sub [] t e = e
Even-sub (on_left p n s ∷ fs) t e = (Even-sub fs (branch p n t s) e).1
Even-sub (on_right p n s ∷ fs) t e = (Even-sub fs (branch p n s t) e).2

pub plug-Even :
    (fs : List Frame) (t t' : RbTree)
    → black_height t' ≡ black_height t
    → Even t'
    → Even (plug fs t)
    → Even (plug fs t')
plug-Even [] t t' h v e = v
plug-Even (on_left p n s ∷ fs) t t' h v e =
    let k = Even-sub fs (branch p n t s) e in
    plug-Even fs (branch p n t s) (branch p n t' s) (rw h refl) (h ∙ k.0, v, k.2) e
plug-Even (on_right p n s ∷ fs) t t' h v e =
    let k = Even-sub fs (branch p n s t) e in
    plug-Even fs (branch p n s t) (branch p n s t') refl (k.0 ∙ sym h, k.1, v) e

pub relinked-Above : (a : ℕ) (fs : List Frame) → ColoredAbove fs → ColoredAbove (relinked a fs)
relinked-Above a [] c = c
relinked-Above a (on_left p n s ∷ fs) c = c
relinked-Above a (on_right p n s ∷ fs) c = c

pub relinked-Even :
    (a : ℕ) (fs : List Frame) (t : RbTree) → Even (plug fs t) → Even (plug (relinked a fs) t)
relinked-Even a [] t e = e
relinked-Even a (on_left p n s ∷ fs) t e =
    plug-Even fs (branch p n t s) _ refl (Even-sub fs (branch p n t s) e) e
relinked-Even a (on_right p n s ∷ fs) t e =
    plug-Even fs (branch p n s t) _ refl (Even-sub fs (branch p n s t) e) e

pub hang-color : (q : ℕ) (t : RbTree) → color_of (hang q t) ≡ color_of t
hang-color q (tip p n) = refl
hang-color q (branch p n l r) = refl

pub hang-Colored : (q : ℕ) (t : RbTree) → Colored t → Colored (hang q t)
hang-Colored q (tip p n) c = c
hang-Colored q (branch p n l r) c = c

pub hang-Even : (q : ℕ) (t : RbTree) → Even t → Even (hang q t)
hang-Even q (tip p n) c = c
hang-Even q (branch p n l r) c = c

pub hang-height : (q : ℕ) (t : RbTree) → black_height (hang q t) ≡ black_height t
hang-height q (tip p n) = refl
hang-height q (branch p n l r) = refl
