-- ===== src/RedBlackTree/Insert.antt =====
-- `insertNode` and `verifyInsertion` of hw4/hw4_redblacktree.c, and `leftmostNode`. A loop has as
-- many rounds as its fuel.
pub mod Fill
pub mod Place
pub mod Order
pub mod Whole
pub mod First
pub mod Leftmost
pub mod Rebalance
pub mod Balance
pub mod Lift
pub mod Round
pub mod Verify
pub mod Both
use ee.Base.{ℕ, zero, suc, Bool, false, ◌&&◌, Option, none, some, ◌==◌, if◌then◌else◌}
use ee.Base.Int.{ℤ, ltb_ℤ}
use ee.RedBlackTree.Memory.{
  null, black, red, nil, allocated, zeroed, Cmd, pure, skip, out_of_fuel, load, modify, set_parent,
  set_left, set_right, set_color, set_type, set_root, get_root, calloc, grandparent, uncle, ◌>>=◌,
  ◌>>◌,
}
use ee.RedBlackTree.Rotate.{rotate_left, rotate_right}

-- The loop that looks for the place of a value: the nil node and its parent, or none if the value is
-- there already.
unfoldable pub search_place : ℕ → ℤ → (ret parent : ℕ) → Cmd (Option (ℕ × ℕ))
search_place zero v ret parent = λ m. out_of_fuel
search_place (suc fuel) v ret parent = do
  x ← load ret
  if x.type == nil
      then pure (some (ret, parent))
      else if ltb_ℤ v x.value
      then search_place fuel v x.left ret
      else if ltb_ℤ x.value v
      then search_place fuel v x.right ret
      else pure none

-- `root == NULL`: the parents of the two nil nodes stay null.
unfoldable pub insert_first : ℤ → ℕ → Cmd ℕ
insert_first v pid = do
  r ← calloc zeroed
  set_root r
  modify r (λ n. record n { value = v; pid = pid; color = black; type = allocated })
  a ← calloc zeroed
  set_left r a
  b ← calloc zeroed
  set_right r b
  set_color a black
  set_color b black
  set_type a nil
  set_type b nil
  pure r

-- The nil node that was found becomes a red node with two nil nodes.
unfoldable pub fill : ℤ → ℕ → (ret parent : ℕ) → Cmd ℕ
fill v pid ret parent = do
  modify ret (λ n. record n { color = red; value = v; pid = pid; type = allocated })
  a ← calloc zeroed
  set_left ret a
  b ← calloc zeroed
  set_right ret b
  set_color a black
  set_color b black
  set_parent ret parent
  set_parent b ret
  set_parent a ret
  set_type a nil
  set_type b nil
  pure ret

abbrev pub fill_found : ℤ → ℕ → Option (ℕ × ℕ) → Cmd ℕ
fill_found v pid none = pure null
fill_found v pid (some (ret, parent)) = fill v pid ret parent

-- The result is null if the value is there already.
unfoldable pub insert_node : ℕ → ℤ → ℕ → Cmd ℕ
insert_node fuel v pid = do
  r ← get_root
  if r == null
      then insert_first v pid
      else (search_place fuel v r r >>= λ found. fill_found v pid found)

-- The part of `verifyInsertion` for a red parent and an uncle that is not red.
unfoldable pub rebalance : ℕ → Cmd (Unit {0})
rebalance target = do
  g ← grandparent target
  t ← load target
  p ← load t.parent
  y ← load g
  moved ←
      (if target == p.right && t.parent == y.left
        then (do rotate_left t.parent; x ← load target; pure x.left)
        else if target == p.left && t.parent == y.right
        then (do rotate_right t.parent; x ← load target; pure x.right)
        else pure target)
  x ← load moved
  set_color x.parent black
  set_color g red
  q ← load x.parent
  if moved == q.left then rotate_right g else rotate_left g

-- `u != NULL && u->color == RED`
abbrev pub is_red : ℕ → Cmd Bool
is_red u = if u == null then pure false else (load u >>= λ x. pure (x.color == red))

unfoldable pub verify_insertion : ℕ → ℕ → Cmd (Unit {0})
verify_insertion zero target = λ m. out_of_fuel
verify_insertion (suc fuel) target = do
  t ← load target
  if t.parent == null then set_color target black else (do
    p ← load t.parent
    if p.color == black then skip else (do
      u ← uncle target
      r ← is_red u
      if r
          then (do
            set_color t.parent black
            set_color u black
            g ← grandparent target
            set_color g red
            verify_insertion fuel g)
          else rebalance target))

-- The loop of `leftmostNode`, then the parent of the nil node where it ends.
unfoldable pub descend_left : ℕ → ℕ → Cmd ℕ
descend_left zero ret = λ m. out_of_fuel
descend_left (suc fuel) ret = do
  x ← load ret
  if x.type == nil then pure x.parent else descend_left fuel x.left

unfoldable pub leftmost_node : ℕ → ℕ → Cmd ℕ
leftmost_node fuel target = if target == null then pure null else descend_left fuel target
