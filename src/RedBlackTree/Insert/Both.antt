-- ===== src/RedBlackTree/Insert/Both.antt =====
-- `insertNode` of hw4/hw4_redblacktree.c and `verifyInsertion` of its result, as `main` calls them.
use mathlib.Core.Path.{subst}
use ee.Base.{
  ℕ, suc, ◌+◌, ◌≡◌, refl, sym, ap, ◌∙◌, true, false, some, List, [], ◌∷◌, ◌⊎◌, inl, inr, arith, ◌<◌,
  ◌≤◌, Bool-cases, Option-cases, length,
}
use ee.Base.Int.{ℤ, ltb_ℤ}
use ee.RedBlackTree.Memory.{null, black, RbtNode, Memory, ok, ◌>>=◌}
use ee.RedBlackTree.Holds.{RbTree, tip, branch, values}
use ee.RedBlackTree.Context.{Frame, on_left, on_right, plug}
use ee.RedBlackTree.Zip.{Forms}
use ee.RedBlackTree.Colors.{
  color_of, Colored, black_height, Even, IsRedBlack, is_black, ColoredAbove,
}
use ee.RedBlackTree.Insert.{insert_node, verify_insertion}
use ee.RedBlackTree.Insert.Fill.{red_node, nil_node}
use ee.RedBlackTree.Insert.Place.{size, place, plant}
use ee.RedBlackTree.Insert.Order.{insert_value, mem_value, is_none, place-mem_value, values-plant}
use ee.RedBlackTree.Insert.Whole.{IsTree, insert_absent}
use ee.RedBlackTree.Insert.Verify.{verify_insertion_lem}

plant-height :
    (v : ℤ) (pid k q : ℕ) (t : RbTree) → black_height (plant v pid k q t) ≡ black_height t
unfolding plant
plant-height v pid k q (tip p n) = refl
plant-height v pid k q (branch p n l r) = ground (arith, plant-height v pid k p l)

plant-Even : (v : ℤ) (pid k q : ℕ) (t : RbTree) → Even t → Even (plant v pid k q t)
unfolding plant
plant-Even v pid k q (tip p n) e = (refl, tt, tt)
plant-Even v pid k q (branch p n l r) e = elim (Bool-cases (ltb_ℤ v n.value)) [
  | inl c ↦ rw c (plant-height v pid k p l ∙ e.0, plant-Even v pid k p l e.1, e.2)
  | inr c ↦ elim (Bool-cases (ltb_ℤ n.value v)) [
    | inl d ↦ rw (c, d) (e.0 ∙ sym (plant-height v pid k p r), e.1, plant-Even v pid k p r e.2)
    | inr d ↦ rw (c, d) e
  ]
]

-- Where the new red node is.
record Planted (v : ℤ) (pid k a pa : ℕ) (whole : RbTree) (rounds : ℕ) : Type 0 where
  above : List Frame
  shape :
      whole
      ≡ plug above
          (branch a (red_node v pid pa k (suc k)) (tip k (nil_node a)) (tip (suc k) (nil_node a)))
  colored : ColoredAbove above
  short : length above < rounds

down_left :
    (fs : List Frame) (p : ℕ) (n : RbtNode) (l r : RbTree)
    → Colored (branch p n l r)
    → ColoredAbove fs
    → (n.color ≡ black) ⊎ (is_black fs ≡ true)
    → ColoredAbove (on_left p n r ∷ fs)
      × ((color_of l ≡ black) ⊎ (is_black (on_left p n r ∷ fs) ≡ true))
down_left fs p n l r (inl b, cl, cr) a k = ((inl b, cr, a), inr (ground arith))
down_left fs p n l r (inr (e, bl, br), cl, cr) a (inl k) = absurd (omega arith)
down_left fs p n l r (inr (e, bl, br), cl, cr) a (inr k) = ((inr (e, br, k), cr, a), inl bl)

down_right :
    (fs : List Frame) (p : ℕ) (n : RbtNode) (l r : RbTree)
    → Colored (branch p n l r)
    → ColoredAbove fs
    → (n.color ≡ black) ⊎ (is_black fs ≡ true)
    → ColoredAbove (on_right p n l ∷ fs)
      × ((color_of r ≡ black) ⊎ (is_black (on_right p n l ∷ fs) ≡ true))
down_right fs p n l r (inl b, cl, cr) a k = ((inl b, cl, a), inr (ground arith))
down_right fs p n l r (inr (e, bl, br), cl, cr) a (inl k) = absurd (omega arith)
down_right fs p n l r (inr (e, bl, br), cl, cr) a (inr k) = ((inr (e, bl, k), cl, a), inl br)

planted :
    (v : ℤ) (pid k q a pa : ℕ) (t : RbTree) (fs : List Frame)
    → place v q t ≡ some (a, pa)
    → Colored t
    → ColoredAbove fs
    → (color_of t ≡ black) ⊎ (is_black fs ≡ true)
    → Planted v pid k a pa (plug fs (plant v pid k q t)) (length fs + size t)
unfolding plant place
planted v pid k q a pa (tip p n) fs e c above top =
    let ea : a ≡ p = ground arith in
    let eq : pa ≡ q = ground arith in
    record { above = fs; shape = rw (ea, eq) refl; colored = above; short = omega arith }
planted v pid k q a pa (branch p n l r) fs e c above top = elim (Bool-cases (ltb_ℤ v n.value)) [
  | inl x ↦
      let (b, f) = down_left fs p n l r c above top in
      let h : place v p l ≡ some (a, pa) = rw x at e in
      let i = planted v pid k p a pa l (on_left p n r ∷ fs) h c.1 b f in
      record {
        above = i.above;
        shape = rw x i.shape;
        colored = i.colored;
        short = omega (arith, i.short);
      }
  | inr x ↦ elim (Bool-cases (ltb_ℤ n.value v)) [
    | inl y ↦
        let (b, f) = down_right fs p n l r c above top in
        let h : place v p r ≡ some (a, pa) = rw (x, y) at e in
        let i = planted v pid k p a pa r (on_right p n l ∷ fs) h c.2 b f in
        record {
          above = i.above;
          shape = rw (x, y) i.shape;
          colored = i.colored;
          short = omega (arith, i.short);
        }
    | inr y ↦ cc (rw (x, y) at e)
  ]
]

-- The nodes after both.
pub record Grown (fuel : ℕ) (m : Memory) (v : ℤ) (pid : ℕ) (t : RbTree) : Type 0 where
  pub memory : Memory
  pub tree : RbTree
  pub runs : (insert_node fuel v pid >>= verify_insertion fuel) m ≡ ok tt memory
  pub forms : Forms memory tree
  pub red_black : IsRedBlack tree
  pub ordered : values tree ≡ insert_value v (values t)
  pub root : memory.root ≡ m.root

-- On a whole red-black search tree with a node, for a value that is not in it and with fuel for all
-- nodes, `insertNode` and then `verifyInsertion` of its result end, and the nodes form a red-black tree
-- again, with the old values in order and the new value at its place. `root` is never changed.
pub insert_node-verify_insertion :
    (fuel : ℕ) (v : ℤ) (pid : ℕ) (m : Memory) (p : ℕ) (n : RbtNode) (l r : RbTree)
    → IsTree m (branch p n l r)
    → IsRedBlack (branch p n l r)
    → mem_value v (values (branch p n l r)) ≡ false
    → size (branch p n l r) ≤ fuel
    → Grown fuel m v pid (branch p n l r)
insert_node-verify_insertion fuel v pid m p n l r i b absent enough =
    let t = branch p n l r in
    let k = m.next in
    elim (Option-cases (place v null t)) [
      | inl e ↦ cc (sym (ap is_none e) ∙ place-mem_value v null t i.search ∙ absent)
      | inr ((a, pa), e) ↦
          let (m', run, valid, _, root) = insert_absent fuel v pid m p n l r i enough a pa e in
          let s = planted v pid k null a pa t [] e b.colored tt (inl b.top_black) in
          let forms : Forms m' (plant v pid k null t) = record {
            holds = valid.holds;
            apart = valid.apart;
            positive = valid.positive;
          } in
          let even = plant-Even v pid k null t b.even in
          let w =
            verify_insertion_lem fuel m' s.above a _ _ _ refl (subst (Forms m') s.shape forms)
              (inr (refl, refl, refl), refl, refl) s.colored (subst Even s.shape even)
              (omega (arith, s.short)) in
          record {
            memory = w.memory;
            tree = w.tree;
            runs = rw run w.runs;
            forms = w.forms;
            red_black = w.red_black;
            ordered = w.ordered ∙ ap values (sym s.shape) ∙ values-plant v pid k null t i.search;
            root = w.root ∙ root;
          }
    ]
