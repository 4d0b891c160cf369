-- ===== src/RedBlackTree/Rotate/Right/Tree.antt =====
-- `rotateRight` of hw4/hw4_redblacktree.c on the tree that the nodes form.
use mathlib.Core.List
use ee.Base.{ℕ, ◌≡◌, ◌≢◌, refl, sym, ap, ◌∙◌, true, false, Option, some, [], ◌∷◌, arith}
use ee.RedBlackTree.Memory.{null, RbtNode, Memory, ok}
use ee.RedBlackTree.Holds.{RbTree, branch, addr, has, Holds, Apart, values, frame}
use ee.RedBlackTree.Cells.{At, Distinct, mem}
use ee.RedBlackTree.Rotate.{rotate_right}
use ee.RedBlackTree.Rotate.Hang.{
  top, top_cell, hang, hang-Holds, addr-hang, values-hang, Turned, addr-has, has-hang, hang-Apart,
}
use ee.RedBlackTree.Rotate.Right.{relink, turn_root, turn_below}

module _ (p c : ℕ) (n y : RbtNode) (l b r : RbTree) where
  -- Before and after, below the parent `q`.
  abbrev pub upright : RbTree
  upright = branch p n (branch c y r b) l

  abbrev pub turned : ℕ → RbTree
  turned q =
      branch c (record y { right = p; parent = q }) r
        (branch p (record n { left = addr b; parent = c }) (hang p b) l)

  pub turned-values : (q : ℕ) → values (turned q) ≡ values upright
  turned-values q =
      rw (values-hang p b)
        (sym (List.append_assoc (values r) (y.value ∷ values b) (n.value ∷ values l)))

  pub turned-has : (q a : ℕ) → has a (turned q) ≡ has a upright
  turned-has q a = ground (arith, has-hang p b a)

  pub turned-Apart : (q : ℕ) → Apart upright → Apart (turned q)
  turned-Apart q s = (
    s.3.0,
    ground (arith, s.0, s.2 c, has-hang p b c),
    λ a e. ground (arith, e, s.0, s.2 a, s.3.2 a, has-hang p b a),
    s.3.3,
    (
      ground (arith, s.0, has-hang p b p),
      s.1,
      λ a e. ground (arith, s.2 a, e, has-hang p b a),
      hang-Apart p b s.3.4,
      s.4,
    ),
  )

module _ (h g : ℕ → Option RbtNode) (q p c : ℕ) (n y : RbtNode) (l b r : RbTree)
    (w : Holds h q (upright p c n y l b r)) (s : Apart (upright p c n y l b r)) where
  pub turned-Holds :
      g p ≡ some (record n { left = addr b; parent = c })
      → g c ≡ some (record y { right = p; parent = q })
      → g (addr b) ≡ some (record (top b) { parent = p })
      → ((a : ℕ) → has a (upright p c n y l b r) ≡ true → a ≢ p → a ≢ c → a ≢ addr b → g a ≡ h a)
      → Holds g q (turned p c n y l b r q)
  turned-Holds gp gc gb same =
      let f : (a : ℕ) → has a l ≡ true → g a ≡ h a = λ a k.
        same a (ground (arith, k)) (λ x. ground (arith, s.1, k, x))
          (λ x. ground (arith, s.2 a, k, x)) (λ x. ground (arith, s.2 a, k, x, addr-has b)) in
      let e : (a : ℕ) → has a r ≡ true → g a ≡ h a = λ a k.
        same a (ground (arith, k)) (λ x. ground (arith, s.0, k, x))
          (λ x. ground (arith, s.3.0, k, x)) (λ x. ground (arith, s.3.2 a k, x, addr-has b)) in
      let d : (a : ℕ) → has a b ≡ true → a ≢ addr b → g a ≡ h a = λ a k.
        same a (ground (arith, k)) (λ x. ground (arith, s.0, k, x))
          (λ x. ground (arith, s.3.1, k, x)) in
      (
        (gc, w.1.0.1, refl, w.1.0.3, refl),
        frame h g c r w.1.1 e,
        (
          (gp, w.0.1, refl, sym (addr-hang p b), w.0.4),
          hang-Holds h g c p b w.1.2 s.3.4 gb d,
          frame h g p l w.2 f,
        ),
      )

module _ (m : Memory) (q p c : ℕ) (n y : RbtNode) (l b r : RbTree)
    (w : Holds m.nodes q (upright p c n y l b r)) (s : Apart (upright p c n y l b r))
    (z : has null (upright p c n y l b r) ≡ false) where
  abbrev t : RbTree
  t = upright p c n y l b r

  distinct : Distinct (p ∷ c ∷ addr b ∷ [])
  distinct = (ground (arith, s.0, addr-has b), (ground (arith, s.3.1, addr-has b), (refl, tt)))

  cell_p : m.nodes p ≡ some (record n { left = c; parent = q })
  cell_p =
      w.0.0
      ∙ ap (λ x. some (record n { parent = x })) w.0.2
      ∙ ap (λ x. some (record n { parent = q; left = x })) w.0.3

  cell_c : m.nodes c ≡ some (record y { right = addr b })
  cell_c = w.1.0.0 ∙ ap (λ x. some (record y { right = x })) w.1.0.4

  in_subtree : (a : ℕ) → has a b ≡ true → has a t ≡ true
  in_subtree a e = ground (arith, e)

  not_null : addr b ≢ null
  not_null e = ground (arith, z, in_subtree (addr b) (addr-has b), e)

  cell_others : (a : ℕ) → has a t ≡ false → mem a (p ∷ c ∷ addr b ∷ []) ≡ false
  cell_others a e = ground (arith, e, in_subtree (addr b) (addr-has b))

  turned_tree :
      (m' : Memory)
      → At m m.next m' (p ∷ c ∷ addr b ∷ []) (
          record n { left = addr b; parent = c }
          ∷ record y { right = p; parent = q }
          ∷ record (top b) { parent = p }
          ∷ [])
      → Turned m q t (turned p c n y l b r q) m'
  turned_tree m' v = record {
    holds =
        turned-Holds m.nodes m'.nodes q p c n y l b r w s v.cells.0 v.cells.1.0 v.cells.1.1.0
          (λ a e x y z. v.others a (ground (arith, x, y, z)));
    root = v.root;
    next = v.next;
    others = λ a e x. v.others a (cell_others a e);
  }

  turned_below :
      (m' : Memory) (x : RbtNode)
      → has q t ≡ false
      → At m m.next m' (q ∷ p ∷ c ∷ addr b ∷ []) (
          x
          ∷ record n { left = addr b; parent = c }
          ∷ record y { right = p; parent = q }
          ∷ record (top b) { parent = p }
          ∷ [])
      → Turned m q t (turned p c n y l b r q) m'
  turned_below m' x f v = record {
    holds =
        turned-Holds m.nodes m'.nodes q p c n y l b r w s v.cells.1.0 v.cells.1.1.0 v.cells.1.1.1.0
          (λ a e x y z. v.others a (ground (arith, x, y, z, f)));
    root = v.root;
    next = v.next;
    others = λ a e x. v.others a (ground (arith, cell_others a e));
  }

  -- Below a parent with a node `x` that is not in the subtree, `rotateRight` ends. The nodes then form the
  -- rotated subtree, with the same values in the same order; the parent's node points to the new top;
  -- all other nodes, `root` and the next address are unchanged.
  pub rotate_right_below :
      (x : RbtNode)
      → q ≢ null
      → has q t ≡ false
      → m.nodes q ≡ some x
      → (m' : Memory) × (rotate_right p m ≡ ok tt m')
        × Turned m q t (turned p c n y l b r q) m'
        × (m'.nodes q ≡ some (relink x p c))
        × (values (turned p c n y l b r q) ≡ values t)
  rotate_right_below x nq f e =
      let d : Distinct (q ∷ p ∷ c ∷ addr b ∷ []) =
        (ground (arith, f, in_subtree (addr b) (addr-has b)), distinct) in
      let (m', run, v) =
        turn_below m p c (addr b) n y (top b) distinct not_null cell_c (top_cell m.nodes c b w.1.2)
          q x d nq cell_p e in
      (m', run, turned_below m' _ f v, v.cells.0, turned-values p c n y l b r q)

module _ (m : Memory) (p c : ℕ) (n y : RbtNode) (l b r : RbTree)
    (w : Holds m.nodes null (upright p c n y l b r)) (s : Apart (upright p c n y l b r))
    (z : has null (upright p c n y l b r) ≡ false) where
  pub rotate_right_root :
      (m' : Memory) × (rotate_right p m ≡ ok tt m')
      × Turned m null (upright p c n y l b r) (turned p c n y l b r null) m'
      × (values (turned p c n y l b r null) ≡ values (upright p c n y l b r))
  rotate_right_root =
      let (m', run, v) =
        turn_root m p c (addr b) n y (top b) (distinct m null p c n y l b r w s z)
          (not_null m null p c n y l b r w s z) (cell_c m null p c n y l b r w s z)
          (top_cell m.nodes c b w.1.2) (cell_p m null p c n y l b r w s z) in
      (m', run, turned_tree m null p c n y l b r w s z m' v, turned-values p c n y l b r null)
