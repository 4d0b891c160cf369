-- ===== src/RedBlackTree/Zip/Frames.antt =====
-- Reads and writes near a place in the tree of hw4/hw4_redblacktree.c.
use ee.Base.{ℕ, ◌≡◌, ◌≢◌, refl, true, false, List, ◌∷◌, arith, ◌==◌}
use ee.RedBlackTree.Memory.{null, RbtNode, Memory, Cmd, ok, load, set_color, grandparent, uncle}
use ee.RedBlackTree.Holds.{RbTree, branch, addr, has}
use ee.RedBlackTree.Context.{
  Frame, on_left, on_right, join, at, node_of, other, plug, parent_of, has-sub, Apart-sub,
}
use ee.RedBlackTree.Rotate.Hang.{top, addr-has}
use ee.RedBlackTree.Zip.{Forms, Zip, paint, painted, set_color-Zip, load-Zip, load_branch}

-- `c` ends, and the nodes form the tree `t'`; `root` and the next address are as before.
pub record Makes (m : Memory) (c : Cmd (Unit {0})) (t' : RbTree) : Type 0 where
  pub memory : Memory
  pub runs : c m ≡ ok tt memory
  pub forms : Forms memory t'
  pub root : memory.root ≡ m.root
  pub next : memory.next ≡ m.next

pub grandparent_lem :
    (m : Memory) (t : ℕ) (x y : RbtNode)
    → t ≢ null
    → x.parent ≢ null
    → load t m ≡ ok x m
    → load x.parent m ≡ ok y m
    → grandparent t m ≡ ok y.parent m
unfolding grandparent
grandparent_lem m t x y a b e f =
    let c : (t == null) ≡ false = ground arith in
    let d : (x.parent == null) ≡ false = ground arith in rw (grandparent, c, e, d, f) refl

-- The lowest node above in another colour, and its other child.
abbrev pub recolor : ℕ → Frame → Frame
recolor c (on_left p n s) = on_left p (record n { color = c }) s
recolor c (on_right p n s) = on_right p (record n { color = c }) s

abbrev pub recolor_other : ℕ → Frame → Frame
recolor_other c (on_left p n s) = on_left p n (paint c s)
recolor_other c (on_right p n s) = on_right p n (paint c s)

abbrev pub left_of : Frame → RbTree → RbTree
left_of (on_left p n s) t = t
left_of (on_right p n s) t = s

abbrev pub right_of : Frame → RbTree → RbTree
right_of (on_left p n s) t = s
right_of (on_right p n s) t = t

pub addr-join : (f : Frame) (t : RbTree) → addr (join f t) ≡ at f
addr-join (on_left p n s) t = refl
addr-join (on_right p n s) t = refl

module _ (m : Memory) (fs : List Frame) where
  pub load_frame :
      (f : Frame) (t : RbTree)
      → Zip m (f ∷ fs) t
      → load (at f) m
        ≡ ok
            (record (node_of f) {
              parent = parent_of fs;
              left = addr (left_of f t);
              right = addr (right_of f t);
            })
            m
  load_frame (on_left p n s) t z = load_branch m fs p n t s z
  load_frame (on_right p n s) t z = load_branch m fs p n s t z

  set_color_made :
      (t : RbTree) (c : ℕ) → Zip m fs t → Makes m (set_color (addr t) c) (plug fs (paint c t))
  set_color_made t c z =
      let (e, y) = set_color-Zip m fs t c z in
      record { memory = painted m c t; runs = e; forms = y; root = refl; next = refl }

  pub set_color_branch :
      (p : ℕ) (n : RbtNode) (l r : RbTree) (c : ℕ)
      → Zip m fs (branch p n l r)
      → Makes m (set_color p c) (plug fs (branch p (record n { color = c }) l r))
  set_color_branch p n l r c z = set_color_made (branch p n l r) c z

  pub set_color_frame :
      (f : Frame) (t : RbTree) (c : ℕ)
      → Zip m (f ∷ fs) t
      → Makes m (set_color (at f) c) (plug (recolor c f ∷ fs) t)
  set_color_frame (on_left p n s) t c z = set_color_made (branch p n t s) c z
  set_color_frame (on_right p n s) t c z = set_color_made (branch p n s t) c z

module _ (m : Memory) (fs : List Frame) where
  pub set_color-other :
      (f : Frame) (t : RbTree) (c : ℕ)
      → Zip m (f ∷ fs) t
      → Makes m (set_color (addr (other f)) c) (plug (recolor_other c f ∷ fs) t)
  set_color-other (on_left p n s) t c z = set_color_made m (on_right p n t ∷ fs) s c z
  set_color-other (on_right p n s) t c z = set_color_made m (on_left p n t ∷ fs) s c z

  pub load-other :
      (f : Frame) (t : RbTree) → Zip m (f ∷ fs) t → load (addr (other f)) m ≡ ok (top (other f)) m
  load-other (on_left p n s) t z = load-Zip m (on_right p n t ∷ fs) s z
  load-other (on_right p n s) t z = load-Zip m (on_left p n t ∷ fs) s z

  pub at-≢ : (f : Frame) (t : RbTree) → Zip m (f ∷ fs) t → at f ≢ null
  at-≢ (on_left p n s) t z e = ground (arith, has-sub fs (branch p n t s) null z.positive, e)
  at-≢ (on_right p n s) t z e = ground (arith, has-sub fs (branch p n s t) null z.positive, e)

  pub other-≢ : (f : Frame) (t : RbTree) → Zip m (f ∷ fs) t → addr (other f) ≢ null
  other-≢ (on_left p n s) t z e =
      ground (arith, has-sub fs (branch p n t s) null z.positive, addr-has s, e)
  other-≢ (on_right p n s) t z e =
      ground (arith, has-sub fs (branch p n s t) null z.positive, addr-has s, e)

-- The nodes around a node that has a grandparent.
module _ (m : Memory) (f g : Frame) (fs : List Frame) (p : ℕ) (n : RbtNode) (l r : RbTree)
    (z : Zip m (f ∷ g ∷ fs) (branch p n l r)) where
  pub grandparent_above : grandparent p m ≡ ok (at g) m
  grandparent_above =
      grandparent_lem m p _ _
        (λ e. ground (arith, has-sub (f ∷ g ∷ fs) (branch p n l r) null z.positive, e))
        (at-≢ m (g ∷ fs) f (branch p n l r) z) (load_branch m (f ∷ g ∷ fs) p n l r z)
        (load_frame m (g ∷ fs) f (branch p n l r) z)

pub at-has : (f : Frame) (t : RbTree) → has (at f) (join f t) ≡ true
at-has (on_left p n s) t = ground arith
at-has (on_right p n s) t = ground arith

module _ (m : Memory) (f : Frame) (fs : List Frame) (p : ℕ) (n : RbtNode) (l r : RbTree) where
  pub uncle_above :
      (g : Frame) → Zip m (f ∷ g ∷ fs) (branch p n l r) → uncle p m ≡ ok (addr (other g)) m
  unfolding uncle
  uncle_above (on_left q x d) z =
      let side : (at f == addr (join f (branch p n l r))) ≡ true =
        ground (arith, addr-join f (branch p n l r)) in
      let nq = at-≢ m fs (on_left q x d) (join f (branch p n l r)) z in
      let g0 : (q == null) ≡ false = ground arith in
      rw
        (
          uncle,
          grandparent_above m f (on_left q x d) fs p n l r z,
          g0,
          load_branch m (f ∷ on_left q x d ∷ fs) p n l r z,
          load_frame m fs (on_left q x d) (join f (branch p n l r)) z,
          side,
        )
        refl
  uncle_above (on_right q x d) z =
      let t = join f (branch p n l r) in
      let s = Apart-sub fs (branch q x d t) z.apart in
      let side : (at f == addr d) ≡ false =
        ground (arith, s.2 (addr d), addr-has d, at-has f (branch p n l r)) in
      let nq = at-≢ m fs (on_right q x d) t z in
      let g0 : (q == null) ≡ false = ground arith in
      rw
        (
          uncle,
          grandparent_above m f (on_right q x d) fs p n l r z,
          g0,
          load_branch m (f ∷ on_right q x d ∷ fs) p n l r z,
          load_frame m fs (on_right q x d) t z,
          side,
        )
        refl
