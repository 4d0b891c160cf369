-- ===== src/RedBlackTree/Rotate/Hang.antt =====
-- A subtree that a rotation of hw4/hw4_redblacktree.c moves below another parent.
use ee.Base.{ℕ, ◌≡◌, ◌≢◌, refl, true, false, Option, some, arith}
use ee.RedBlackTree.Memory.{RbtNode, Memory}
use ee.RedBlackTree.Holds.{RbTree, tip, branch, addr, has, Holds, Apart, values, frame}

abbrev pub top : RbTree → RbtNode
top (tip p n) = n
top (branch p n l r) = n

abbrev pub hang : ℕ → RbTree → RbTree
hang q (tip p n) = tip p (record n { parent = q })
hang q (branch p n l r) = branch p (record n { parent = q }) l r

pub addr-hang : (q : ℕ) (t : RbTree) → addr (hang q t) ≡ addr t
addr-hang q (tip p n) = refl
addr-hang q (branch p n l r) = refl

pub values-hang : (q : ℕ) (t : RbTree) → values (hang q t) ≡ values t
values-hang q (tip p n) = refl
values-hang q (branch p n l r) = refl

pub top_cell :
    (h : ℕ → Option RbtNode) (q : ℕ) (t : RbTree) → Holds h q t → h (addr t) ≡ some (top t)
top_cell h q (tip p n) w = w.0
top_cell h q (branch p n l r) w = w.0.0

pub addr-has : (t : RbTree) → has (addr t) t ≡ true
addr-has (tip p n) = ground arith
addr-has (branch p n l r) = ground arith

pub hang-Holds :
    (h g : ℕ → Option RbtNode) (q q' : ℕ) (t : RbTree)
    → Holds h q t
    → Apart t
    → g (addr t) ≡ some (record (top t) { parent = q' })
    → ((a : ℕ) → has a t ≡ true → a ≢ addr t → g a ≡ h a)
    → Holds g q' (hang q' t)
hang-Holds h g q q' (tip p n) w s e same = (e, w.1)
hang-Holds h g q q' (branch p n l r) w s e same = (
  (e, w.0.1, refl, w.0.3, w.0.4),
  frame h g p l w.1 (λ a k. same a (ground (arith, k)) (λ x. ground (arith, s.0, k, x))),
  frame h g p r w.2 (λ a k. same a (ground (arith, k)) (λ x. ground (arith, s.1, k, x))),
)

-- After a rotation: the tree there, and what the rest of the memory keeps.
pub record Turned (m : Memory) (q : ℕ) (before after : RbTree) (m' : Memory) : Type 0 where
  pub holds : Holds m'.nodes q after
  pub root : m'.root ≡ m.root
  pub next : m'.next ≡ m.next
  pub others : (a : ℕ) → has a before ≡ false → a ≢ q → m'.nodes a ≡ m.nodes a

pub has-hang : (q : ℕ) (t : RbTree) (a : ℕ) → has a (hang q t) ≡ has a t
has-hang q (tip p n) a = refl
has-hang q (branch p n l r) a = refl

pub hang-Apart : (q : ℕ) (t : RbTree) → Apart t → Apart (hang q t)
hang-Apart q (tip p n) s = s
hang-Apart q (branch p n l r) s = s
