-- ===== src/RedBlackTree/Tests.antt =====
-- The tree of hw4/hw4_redblacktree.c on concrete values.
use ee.Base.{ℕ, ◌≡◌, refl, Option, none, some, List, [], ◌∷◌, arith, inl, inr}
use ee.Base.Int.{ℤ, pos}
use ee.Base.Update.{update}
use ee.RedBlackTree.Memory.{
  null, black, red, nil, allocated, zeroed, RbtNode, Memory, Run, ok, fault, out_of_fuel, load,
  modify, calloc, free, grandparent, uncle, sibling, ◌>>◌,
}
use ee.RedBlackTree.Holds.{RbTree, tip, branch, Holds, Apart}
use ee.RedBlackTree.Rotate.{rotate_left, rotate_right}
use ee.RedBlackTree.Rotate.Left.Tree as LeftTree
use ee.RedBlackTree.Rotate.Stale.{stale_left}
use ee.RedBlackTree.Insert.{
  insert_node, leftmost_node, search_place, insert_first, fill, verify_insertion, rebalance,
  descend_left,
}
use ee.RedBlackTree.Insert.Whole.{IsTree, Inserted, insert_node_lem}
use ee.RedBlackTree.Insert.First.{singleton, first_lem}
use ee.RedBlackTree.Insert.Leftmost.{IsLeast, leftmost_node_lem}
use ee.RedBlackTree.Colors.{IsRedBlack}
use ee.RedBlackTree.Insert.Both.{Grown, insert_node-verify_insertion}
use ee.RedBlackTree.Delete.{
  insert_all, drain, delete_node, delete_leaf, delete_inner, exchange, replace, get_maximum,
  descend_right, delete_case1, delete_case2, delete_case3, delete_case4, delete_case5, delete_case6,
  turn_sibling,
}

abbrev empty : Memory
empty = record { nodes = λ p. none; root = 0; next = 1 }

abbrev vrt : List ℤ
vrt = pos 27 ∷ pos 19 ∷ pos 34 ∷ pos 65 ∷ pos 37 ∷ pos 7 ∷ pos 49 ∷ pos 2 ∷ pos 98 ∷ []

abbrev pids : Run (List ℕ) → Option (List ℕ)
pids (ok l m) = some l
pids fault = none
pids out_of_fuel = none

main_run :
    pids ((insert_all 40 0 vrt >> drain 40) empty) ≡ some (7 ∷ 5 ∷ 1 ∷ 0 ∷ 2 ∷ 4 ∷ 6 ∷ 3 ∷ 8 ∷ [])
unfolding insert_all drain insert_node search_place insert_first fill verify_insertion rebalance
    leftmost_node descend_left delete_node delete_leaf delete_inner exchange replace get_maximum
    descend_right delete_case1 delete_case2 delete_case3 delete_case4 delete_case5 delete_case6
    turn_sibling rotate_left rotate_right grandparent uncle sibling load modify calloc free
main_run = refl

-- `root` stays at the first node, whose nil node on the left has no parent.
ascending_run : (insert_all 40 0 (pos 1 ∷ pos 2 ∷ pos 3 ∷ []) >> drain 40) empty ≡ fault
unfolding insert_all drain insert_node search_place insert_first fill verify_insertion rebalance
    leftmost_node descend_left delete_node rotate_left rotate_right grandparent uncle load modify
    calloc
ascending_run = refl

abbrev node : (parent left right value color : ℕ) → RbtNode
node q l r v c = record {
  parent = q;
  right = r;
  left = l;
  pid = 0;
  value = pos v;
  color = c;
  type = allocated;
}

abbrev leaf : ℕ → RbtNode
leaf q = record zeroed { parent = q; color = black; type = nil }

-- A node of value 5 at address 1, below it one of value 7 at address 3.
abbrev chain : ℕ → RbTree
chain q =
    LeftTree.upright 1 3 (node q 2 3 5 black) (node 1 4 5 7 red) (tip 2 (leaf 1)) (tip 4 (leaf 3))
      (tip 5 (leaf 3))

abbrev store_chain : ℕ → (ℕ → Option RbtNode) → ℕ → Option RbtNode
store_chain q h =
    update
      (update
        (update (update (update h 1 (some (node q 2 3 5 black))) 2 (some (leaf 1))) 3
          (some (node 1 4 5 7 red)))
        4 (some (leaf 3)))
      5 (some (leaf 3))

abbrev chained : Memory
chained = record { nodes = store_chain 0 (λ p. none); root = 1; next = 6 }

chain-Apart : (q : ℕ) → Apart (chain q)
chain-Apart q =
    (refl, refl, λ a e. ground (arith, e), tt, (refl, refl, λ a e. ground (arith, e), tt, tt))

chained-IsTree : IsTree chained (chain 0)
chained-IsTree = record {
  holds = (
    (refl, refl, refl, refl, refl),
    (refl, refl),
    ((refl, refl, refl, refl, refl), (refl, refl), (refl, refl)),
  );
  apart = chain-Apart 0;
  below = λ a e. ground (arith, e);
  search = (tt, (refl, tt), tt, (tt, tt, tt, tt));
  root = refl;
  positive = refl;
}

insert_node_lem_example : Inserted chained (chain 0) (pos 6) 7 9
insert_node_lem_example =
    insert_node_lem 7 (pos 6) 9 chained 1 (node 0 2 3 5 black) (tip 2 (leaf 1))
      (branch 3 (node 1 4 5 7 red) (tip 4 (leaf 3)) (tip 5 (leaf 3))) chained-IsTree (omega arith)

leftmost_node_lem_example :
    (a : ℕ) × (leftmost_node 7 1 chained ≡ ok a chained) × IsLeast chained a (pos 5 ∷ pos 7 ∷ [])
leftmost_node_lem_example =
    leftmost_node_lem 7 1 (node 0 2 3 5 black) (tip 2 (leaf 1))
      (branch 3 (node 1 4 5 7 red) (tip 4 (leaf 3)) (tip 5 (leaf 3))) chained chained-IsTree
      (refl, (refl, refl)) (omega arith)

first_lem_example :
    (m' : Memory) × (insert_node 0 (pos 27) 0 empty ≡ ok 1 m')
    × IsTree m' (singleton (pos 27) 0 1)
    × (leftmost_node 2 1 m' ≡ ok 0 m')
first_lem_example = first_lem 0 (pos 27) 0 empty refl (λ e. ground (arith, e))

stale_left_example :
    (m' : Memory) × (rotate_left 1 chained ≡ ok tt m')
    × Holds m'.nodes null (
        LeftTree.turned 1 3
          (node 0 2 3 5 black)
          (node 1 4 5 7 red)
          (tip 2 (leaf 1))
          (tip 4 (leaf 3))
          (tip 5 (leaf 3))
          0)
    × (pos 5 ∷ pos 7 ∷ [] ≡ pos 5 ∷ pos 7 ∷ [])
    × (m'.root ≡ 1)
    × ¬ IsTree m' (
        LeftTree.turned 1 3
          (node 0 2 3 5 black)
          (node 1 4 5 7 red)
          (tip 2 (leaf 1))
          (tip 4 (leaf 3))
          (tip 5 (leaf 3))
          0)
stale_left_example =
    stale_left chained 1 3 (node 0 2 3 5 black) (node 1 4 5 7 red) (tip 2 (leaf 1)) (tip 4 (leaf 3))
      (tip 5 (leaf 3)) chained-IsTree

chained-IsRedBlack : IsRedBlack (chain 0)
chained-IsRedBlack = record {
  top_black = refl;
  colored = (inl refl, refl, (inr (refl, refl, refl), refl, refl));
  even = (refl, tt, (refl, tt, tt));
}

insert_node-verify_insertion_example : Grown 7 chained (pos 6) 9 (chain 0)
insert_node-verify_insertion_example =
    insert_node-verify_insertion 7 (pos 6) 9 chained 1 (node 0 2 3 5 black) (tip 2 (leaf 1))
      (branch 3 (node 1 4 5 7 red) (tip 4 (leaf 3)) (tip 5 (leaf 3))) chained-IsTree
      chained-IsRedBlack refl (omega arith)
