-- ===== src/RedBlackTree/Rotate.antt =====
-- `rotateLeft` and `rotateRight` of hw4/hw4_redblacktree.c. They do not touch `root`.
pub mod Hang
pub mod Stale
pub mod Left
pub mod Right
use ee.Base.{ℕ, not, ◌==◌, if◌then◌else◌}
use ee.RedBlackTree.Memory.{null, Cmd, skip, load, set_parent, set_left, set_right, ◌>>=◌, ◌>>◌}

unfoldable pub rotate_left : ℕ → Cmd (Unit {0})
rotate_left n = do
  x ← load n
  let c = x.right
  let p = x.parent
  y ← load c
  if y.left == null then skip else set_parent y.left n
  z ← load c
  set_right n z.left
  set_parent n c
  set_left c n
  set_parent c p
  if p == null then skip else (load p >>= λ q. if q.left == n then set_left p c else set_right p c)

unfoldable pub rotate_right : ℕ → Cmd (Unit {0})
rotate_right n = do
  x ← load n
  let c = x.left
  let p = x.parent
  y ← load c
  if y.right == null then skip else set_parent y.right n
  z ← load c
  set_left n z.right
  set_parent n c
  set_right c n
  set_parent c p
  if p == null then skip else (load p >>= λ q. if q.right == n then set_right p c else set_left p c)
