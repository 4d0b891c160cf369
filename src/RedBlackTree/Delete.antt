-- ===== src/RedBlackTree/Delete.antt =====
-- `deleteNode` of hw4/hw4_redblacktree.c with `getMaximum` and the functions `delete_case1` to
-- `delete_case6`, and `main`.
use ee.Base.{ℕ, zero, suc, Bool, false, ◌&&◌, ◌==◌, if◌then◌else◌, List, [], ◌∷◌}
use ee.Base.Int.{ℤ, pos}
use ee.RedBlackTree.Memory.{
  null, black, red, nil, allocated, RbtNode, Cmd, pure, skip, out_of_fuel, load, modify, set_parent,
  set_left, set_right, set_color, set_type, set_root, get_root, free, sibling, ◌>>=◌, ◌>>◌,
}
use ee.RedBlackTree.Rotate.{rotate_left, rotate_right}
use ee.RedBlackTree.Insert.{insert_node, verify_insertion, leftmost_node}

unfoldable pub descend_right : ℕ → ℕ → Cmd ℕ
descend_right zero ret = λ m. out_of_fuel
descend_right (suc fuel) ret = do
  x ← load ret
  if x.type == nil then pure x.parent else descend_right fuel x.right

unfoldable pub get_maximum : ℕ → ℕ → Cmd ℕ
get_maximum fuel target = if target == null then pure null else descend_right fuel target

abbrev pub has_color : ℕ → ℕ → Cmd Bool
has_color p c = do n ← load p; pure (n.color == c)

-- `&&` of two tests that read nodes.
abbrev pub and_also : Cmd Bool → Cmd Bool → Cmd Bool
and_also a b = do x ← a; if x then b else pure false

-- Whether both children of `s` are black.
abbrev pub children_black : RbtNode → Cmd Bool
children_black s = and_also (has_color s.left black) (has_color s.right black)

unfoldable pub delete_case6 : ℕ → Cmd (Unit {0})
delete_case6 n = do
  s ← sibling n
  x ← load n
  p ← load x.parent
  set_color s p.color
  set_color x.parent black
  q ← load x.parent
  y ← load s
  if n == q.left
      then (set_color y.right black >> rotate_left x.parent)
      else (set_color y.left black >> rotate_right x.parent)

-- The sibling `s` is black; `y` and `p` are its node and the parent's.
unfoldable pub turn_sibling : ℕ → ℕ → RbtNode → RbtNode → Cmd (Unit {0})
turn_sibling n s y p = do
  a ← and_also (pure (n == p.left)) (and_also (has_color y.right black) (has_color y.left red))
  if a then (set_color s red >> (set_color y.left black >> rotate_right s)) else (do
    b ← and_also (pure (n == p.right)) (and_also (has_color y.left black) (has_color y.right red))
    if b then (set_color s red >> (set_color y.right black >> rotate_left s)) else skip)

unfoldable pub delete_case5 : ℕ → Cmd (Unit {0})
delete_case5 n = do
  s ← sibling n
  y ← load s
  x ← load n
  p ← load x.parent
  if y.color == black then turn_sibling n s y p else skip
  delete_case6 n

unfoldable pub delete_case4 : ℕ → Cmd (Unit {0})
delete_case4 n = do
  s ← sibling n
  x ← load n
  p ← load x.parent
  y ← load s
  if p.color == red && y.color == black
      then (do
        b ← children_black y
        if b then (set_color s red >> set_color x.parent black) else delete_case5 n)
      else delete_case5 n

-- `again` is `delete_case1`.
unfoldable pub delete_case3 : (ℕ → Cmd (Unit {0})) → ℕ → Cmd (Unit {0})
delete_case3 again n = do
  s ← sibling n
  x ← load n
  p ← load x.parent
  y ← load s
  if p.color == black && y.color == black
      then (do
        b ← children_black y
        if b then (set_color s red >> again x.parent) else delete_case4 n)
      else delete_case4 n

unfoldable pub delete_case2 : (ℕ → Cmd (Unit {0})) → ℕ → Cmd (Unit {0})
delete_case2 again n = do
  s ← sibling n
  y ← load s
  if y.color == red
      then (do
        x ← load n
        set_color x.parent red
        set_color s black
        p ← load x.parent
        if n == p.left then rotate_left x.parent else rotate_right x.parent)
      else skip
  delete_case3 again n

unfoldable pub delete_case1 : ℕ → ℕ → Cmd (Unit {0})
delete_case1 zero n = λ m. out_of_fuel
delete_case1 (suc fuel) n = do
  x ← load n
  if x.parent == null then skip else delete_case2 (delete_case1 fuel) n

-- A node without children becomes a nil node.
unfoldable pub delete_leaf : ℕ → RbtNode → Cmd (Unit {0})
delete_leaf target t = do
  free t.right
  free t.left
  set_right target null
  set_left target null
  set_type target nil
  r ← get_root
  if target == r then set_root null else skip

-- The predecessor moves into a node with two children, and is deleted in its place. Its own value
-- is overwritten twice, as in the source.
unfoldable pub exchange : ℕ → ℕ → RbtNode → Cmd ℕ
exchange fuel target t = do
  d ← get_maximum fuel t.left
  x ← load d
  modify d (λ n. record n { value = t.value })
  modify d (λ n. record n { value = pos t.pid })
  modify target (λ n. record n { value = x.value; pid = x.pid })
  pure d

-- `child` takes the place of `d`.
unfoldable pub replace : (d child : ℕ) → RbtNode → Cmd (Unit {0})
replace d child x = if x.parent == null then (set_parent child null >> set_root child) else (do
  p ← load x.parent
  if p.left == d then set_left x.parent child else set_right x.parent child
  set_parent child x.parent)

-- The part of `deleteNode` for a node that has a child.
unfoldable pub delete_inner : ℕ → ℕ → RbtNode → Cmd (Unit {0})
delete_inner fuel target t = do
  l ← load t.left
  r ← load t.right
  d ← (if r.type == allocated && l.type == allocated then exchange fuel target t else pure target)
  x ← load d
  y ← load x.right
  let child = if y.type == nil then x.left else x.right
  replace d child x
  z ← load child
  if x.color == black
      then (if z.color == red then set_color child black else delete_case1 fuel child)
      else skip
  set_left d null
  set_right d null
  set_type d nil

unfoldable pub delete_node : ℕ → ℕ → Cmd (Unit {0})
delete_node fuel target = do
  t ← load target
  r ← load t.right
  l ← load t.left
  if r.type == nil && l.type == nil then delete_leaf target t else delete_inner fuel target t

-- The loops of `main`: the values go in with their numbers, and come out as pids from the left.
unfoldable pub insert_all : ℕ → ℕ → List ℤ → Cmd (Unit {0})
insert_all fuel i [] = skip
insert_all fuel i (v ∷ vs) = do
  n ← insert_node fuel v i
  verify_insertion fuel n
  insert_all fuel (suc i) vs

unfoldable pub drain : ℕ → Cmd (List ℕ)
drain zero = λ m. out_of_fuel
drain (suc fuel) = do
  r ← get_root
  if r == null then pure [] else (do
    p ← leftmost_node fuel r
    x ← load p
    delete_node fuel p
    rest ← drain fuel
    pure (x.pid ∷ rest))
