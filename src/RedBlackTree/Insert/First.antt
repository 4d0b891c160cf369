-- ===== src/RedBlackTree/Insert/First.antt =====
-- The first `insertNode` of hw4/hw4_redblacktree.c, on an empty tree.
use ee.Base.{ℕ, suc, ◌≡◌, ◌≢◌, refl, true, false, [], ◌∷◌, arith, ◌==◌}
use ee.Base.Int.{ℤ}
use ee.RedBlackTree.Memory.{null, black, nil, allocated, zeroed, RbtNode, Memory, ok, load}
use ee.RedBlackTree.Holds.{RbTree, tip, branch}
use ee.RedBlackTree.Cells.{At, Distinct, modify-At, calloc-At}
use ee.RedBlackTree.Insert.{insert_node, insert_first, descend_left, leftmost_node}
use ee.RedBlackTree.Insert.Fill.{nil_node}
use ee.RedBlackTree.Insert.Whole.{IsTree}

abbrev black_node : ℤ → (pid left right : ℕ) → RbtNode
black_node v pid left right = record {
  parent = null;
  right = right;
  left = left;
  pid = pid;
  value = v;
  color = black;
  type = allocated;
}

-- The tree of one node, whose nil nodes have no parent.
abbrev pub singleton : ℤ → (pid k : ℕ) → RbTree
singleton v pid k =
    branch k (black_node v pid (suc k) (suc (suc k))) (tip (suc k) (nil_node null))
      (tip (suc (suc k)) (nil_node null))

insert_first_lem :
    (v : ℤ) (pid : ℕ) (m : Memory)
    → (m' : Memory) × (insert_first v pid m ≡ ok m.next m')
      × At
          (record m { root = m.next })
          (suc (suc (suc m.next)))
          m'
          (suc (suc m.next) ∷ suc m.next ∷ m.next ∷ [])
          (nil_node null ∷ nil_node null ∷ black_node v pid (suc m.next) (suc (suc m.next)) ∷ [])
unfolding insert_first
insert_first_lem v pid m =
    let k = m.next in
    let d1 : Distinct (k ∷ []) = ground arith in
    let d2 : Distinct (suc k ∷ k ∷ []) = ground arith in
    let d3 : Distinct (suc (suc k) ∷ suc k ∷ k ∷ []) = ground arith in
    let s0 : At m k m [] [] = record {
      cells = tt;
      others = λ p e. refl;
      root = refl;
      next = refl;
    } in
    let (m1, r1, s1) = calloc-At _ _ s0 zeroed refl in
    let m2 = record m1 { root = k } in
    let s2 : At (record m { root = k }) (suc k) m2 (k ∷ []) (zeroed ∷ []) = record {
      cells = s1.cells;
      others = s1.others;
      root = refl;
      next = s1.next;
    } in
    let (r3, s3) =
      modify-At _ _ s2 0 (λ n. record n { value = v; pid = pid; color = black; type = allocated })
        d1 (omega arith) in
    let (m4, r4, s4) = calloc-At _ _ s3 zeroed (ground arith) in
    let (r5, s5) = modify-At _ _ s4 1 (λ n. record n { left = suc k }) d2 (omega arith) in
    let (m6, r6, s6) = calloc-At _ _ s5 zeroed (ground arith) in
    let (r7, s7) = modify-At _ _ s6 2 (λ n. record n { right = suc (suc k) }) d3 (omega arith) in
    let (r8, s8) = modify-At _ _ s7 1 (λ n. record n { color = black }) d3 (omega arith) in
    let (r9, s9) = modify-At _ _ s8 0 (λ n. record n { color = black }) d3 (omega arith) in
    let (r10, s10) = modify-At _ _ s9 1 (λ n. record n { type = nil }) d3 (omega arith) in
    let (r11, s11) = modify-At _ _ s10 0 (λ n. record n { type = nil }) d3 (omega arith) in
    (_, rw (insert_first, r1, r3, r4, r5, r6, r7, r8, r9, r10, r11) refl, s11)

-- When `root` is null, and with an address other than null for the new node, `insertNode` ends with a whole
-- tree of one node. `leftmostNode` then returns null for it, as its nil nodes have no parent.
pub first_lem :
    (fuel : ℕ) (v : ℤ) (pid : ℕ) (m : Memory)
    → m.root ≡ null
    → m.next ≢ null
    → (m' : Memory) × (insert_node fuel v pid m ≡ ok m.next m')
      × IsTree m' (singleton v pid m.next)
      × (leftmost_node (suc (suc fuel)) m.next m' ≡ ok null m')
unfolding insert_node leftmost_node descend_left load
first_lem fuel v pid m e ne =
    let (m', r, s) = insert_first_lem v pid m in
    let k = m.next in
    let z : (m.root == null) ≡ true = ground arith in
    let y : (k == null) ≡ false = ground arith in
    (
      m',
      rw (insert_node, z) r,
      record {
        holds = ((s.cells.1.1.0, refl, refl, refl, refl), (s.cells.1.0, refl), (s.cells.0, refl));
        apart = (ground arith, ground arith, λ a e. ground (arith, e), tt, tt);
        below = λ a h. rw s.next (ground (arith, h));
        search = (tt, tt, tt, tt);
        root = s.root;
        positive = ground arith;
      },
      rw (leftmost_node, y, descend_left, load, s.cells.1.1.0, s.cells.1.0) refl,
    )
