-- ===== src/RedBlackTree/Insert/Fill.antt =====
-- What `insertNode` of hw4/hw4_redblacktree.c makes of the nil node that it found.
use ee.Base.{ℕ, suc, ◌≡◌, refl, some, List, [], ◌∷◌, arith, ◌<◌}
use ee.Base.Int.{ℤ}
use ee.RedBlackTree.Memory.{black, red, nil, allocated, zeroed, RbtNode, Memory, ok}
use ee.RedBlackTree.Cells.{At, Distinct, modify-At, calloc-At}
use ee.RedBlackTree.Insert.{fill}

-- The new red node, and the nil nodes below it.
abbrev pub red_node : ℤ → (pid parent left right : ℕ) → RbtNode
red_node v pid parent left right = record {
  parent = parent;
  right = right;
  left = left;
  pid = pid;
  value = v;
  color = red;
  type = allocated;
}

abbrev pub nil_node : ℕ → RbtNode
nil_node parent = record zeroed { parent = parent; color = black; type = nil }

abbrev filled : ℕ → Memory → List ℕ
filled ret m = suc m.next ∷ m.next ∷ ret ∷ []

pub fill_lem :
    (v : ℤ) (pid ret parent : ℕ) (m : Memory) (n : RbtNode)
    → m.nodes ret ≡ some n
    → ret < m.next
    → (m' : Memory) × (fill v pid ret parent m ≡ ok ret m')
      × At m
          (suc (suc m.next))
          m'
          (filled ret m)
          (nil_node ret ∷ nil_node ret ∷ red_node v pid parent m.next (suc m.next) ∷ [])
unfolding fill
fill_lem v pid ret parent m n h lt =
    let a = m.next in
    let b = suc m.next in
    let d1 : Distinct (ret ∷ []) = ground arith in
    let d2 : Distinct (a ∷ ret ∷ []) = ground arith in
    let d3 : Distinct (filled ret m) = ground arith in
    let s0 : At m a m (ret ∷ []) (n ∷ []) = record {
      cells = (h, tt);
      others = λ p e. refl;
      root = refl;
      next = refl;
    } in
    let (r1, s1) =
      modify-At _ _ s0 0 (λ n. record n { color = red; value = v; pid = pid; type = allocated }) d1
        (omega arith) in
    let (m2, r2, s2) = calloc-At _ _ s1 zeroed (ground arith) in
    let (r3, s3) = modify-At _ _ s2 1 (λ n. record n { left = a }) d2 (omega arith) in
    let (m4, r4, s4) = calloc-At _ _ s3 zeroed (ground arith) in
    let (r5, s5) = modify-At _ _ s4 2 (λ n. record n { right = b }) d3 (omega arith) in
    let (r6, s6) = modify-At _ _ s5 1 (λ n. record n { color = black }) d3 (omega arith) in
    let (r7, s7) = modify-At _ _ s6 0 (λ n. record n { color = black }) d3 (omega arith) in
    let (r8, s8) = modify-At _ _ s7 2 (λ n. record n { parent = parent }) d3 (omega arith) in
    let (r9, s9) = modify-At _ _ s8 0 (λ n. record n { parent = ret }) d3 (omega arith) in
    let (r10, s10) = modify-At _ _ s9 1 (λ n. record n { parent = ret }) d3 (omega arith) in
    let (r11, s11) = modify-At _ _ s10 1 (λ n. record n { type = nil }) d3 (omega arith) in
    let (r12, s12) = modify-At _ _ s11 0 (λ n. record n { type = nil }) d3 (omega arith) in
    (_, rw (fill, r1, r2, r3, r4, r5, r6, r7, r8, r9, r10, r11, r12) refl, s12)
