-- ===== src/RedBlackTree/Insert/Whole.antt =====
-- `insertNode` and `leftmostNode` of hw4/hw4_redblacktree.c on a whole tree.
use mathlib.Core.Path.{subst}
use ee.Base.{
  ℕ, suc, ◌≡◌, ◌≢◌, refl, sym, ap, ◌∙◌, true, false, Option, none, some, [], ◌∷◌, arith, ◌==◌, ◌<◌,
  ◌≤◌, Bool-cases, Option-cases, ◌⊎◌, inl, inr,
}
use ee.Base.Int.{ℤ}
use ee.RedBlackTree.Memory.{null, red, RbtNode, Memory, ok}
use ee.RedBlackTree.Holds.{RbTree, tip, branch, addr, has, Holds, Apart, values, IsSearch, IsBelow}
use ee.RedBlackTree.Cells.{mem}
use ee.RedBlackTree.Insert.{search_place, insert_node, fill_found}
use ee.RedBlackTree.Insert.Fill.{red_node, fill_lem}
use ee.RedBlackTree.Insert.Place.{
  size, place, plant, search_place_lem, place-has, plant-Below, plant-absent, plant-Apart,
  addr-plant, plant-Holds,
}
use ee.RedBlackTree.Insert.Order.{
  insert_value, mem_value, is_none, values-plant, plant-IsSearch, place-mem_value, plant-present,
}

-- The memory holds this search tree, at the variable `root`.
pub record IsTree (m : Memory) (t : RbTree) : Type 0 where
  pub holds : Holds m.nodes null t
  pub apart : Apart t
  pub below : IsBelow m.next t
  pub search : IsSearch t
  pub root : m.root ≡ addr t
  pub positive : has null t ≡ false

addr-has : (t : RbTree) → has (addr t) t ≡ true
addr-has (tip p n) = ground arith
addr-has (branch p n l r) = ground arith

node_at :
    (h : ℕ → Option RbtNode) (q : ℕ) (t : RbTree) (a : ℕ)
    → Holds h q t
    → has a t ≡ true
    → (x : RbtNode) × (h a ≡ some x)
node_at h q (tip p n) a w e = let e : a ≡ p = ground arith in (n, rw e w.0)
node_at h q (branch p n l r) a w e = elim (Bool-cases (a == p)) [
  | inl c ↦ let e : a ≡ p = ground arith in (n, rw e w.0.0)
  | inr c ↦ elim (Bool-cases (has a l)) [
    | inl d ↦ node_at h p l a w.1 d
    | inr d ↦ node_at h p r a w.2 (ground arith)
  ]
]

pub absent-≢ : (a : ℕ) (t : RbTree) → has a t ≡ true → has null t ≡ false → (a == null) ≡ false
absent-≢ a t h e = ground arith

other_cell : (a k b : ℕ) → b ≢ a → b < k → mem b (suc k ∷ k ∷ a ∷ []) ≡ false
other_cell a k b ne lt = ground arith

pub root-≢ : (m : Memory) (t : RbTree) → IsTree m t → (m.root == null) ≡ false
root-≢ m t i = ground (arith, i.root, i.positive, addr-has t)

-- The nodes after the value went in, or did not because it was there.
pub record Inserted (m : Memory) (t : RbTree) (v : ℤ) (fuel pid : ℕ) : Type 0 where
  pub result : ℕ
  pub memory : Memory
  pub tree : RbTree
  pub returns : insert_node fuel v pid m ≡ ok result memory
  pub valid : IsTree memory tree
  pub ordered : values tree ≡ insert_value v (values t)
  pub duplicate : (result == null) ≡ mem_value v (values t)
  pub stored :
      ((result ≡ null) × (memory ≡ m))
      ⊎ ((x : RbtNode) × (memory.nodes result ≡ some x)
          × (x.value ≡ v)
          × (x.pid ≡ pid)
          × (x.color ≡ red))

module _ (fuel : ℕ) (v : ℤ) (pid : ℕ) (m : Memory) (p : ℕ) (n : RbtNode) (l r : RbTree)
    (i : IsTree m (branch p n l r)) (enough : size (branch p n l r) ≤ fuel) where
  abbrev whole : RbTree
  whole = branch p n l r

  from_root : search_place fuel v m.root m.root m ≡ ok (place v null whole) m
  unfolding place
  from_root =
      subst (λ x. search_place fuel v x x m ≡ ok (place v null whole) m) (sym i.root)
        (search_place_lem fuel v p null whole m i.holds enough)

  found :
      (o : Option (ℕ × ℕ))
      → place v null whole ≡ o
      → insert_node fuel v pid m ≡ fill_found v pid o m
  unfolding insert_node
  found o e = rw (insert_node, root-≢ m whole i, from_root, e) refl

  insert_present : place v null whole ≡ none → Inserted m whole v fuel pid
  insert_present e = record {
    result = null;
    memory = m;
    tree = whole;
    returns = found none e;
    valid = i;
    ordered =
        ap values (sym (plant-present v pid m.next null whole e))
        ∙ values-plant v pid m.next null whole i.search;
    duplicate = sym (ap is_none e) ∙ place-mem_value v null whole i.search;
    stored = inl (refl, refl);
  }

  pub insert_absent :
      (a pa : ℕ)
      → place v null whole ≡ some (a, pa)
      → (m' : Memory) × (insert_node fuel v pid m ≡ ok a m')
        × IsTree m' (plant v pid m.next null whole)
        × (m'.nodes a ≡ some (red_node v pid pa m.next (suc m.next)))
        × (m'.root ≡ m.root)
  insert_absent a pa e =
      let k = m.next in
      let h = place-has v null whole a pa e in
      let (x, hx) = node_at m.nodes null whole a i.holds h in
      let (m', r, s) = fill_lem v pid a pa m x hx (i.below a h) in
      let holds =
        plant-Holds v pid k null whole m.nodes m'.nodes a pa e i.holds i.apart i.below s.cells.1.1.0
          s.cells.1.0 s.cells.0 (λ b ne lt. s.others b (other_cell a k b ne lt)) in
      (
        m',
        found (some (a, pa)) e ∙ r,
        record {
          holds = holds;
          apart = plant-Apart v pid k null whole i.below i.apart;
          below =
              subst (λ j. IsBelow j (plant v pid k null whole)) (sym s.next)
                (plant-Below v pid k null whole i.below);
          search = plant-IsSearch v pid k null whole i.search;
          root = s.root ∙ i.root ∙ sym (addr-plant v pid k null whole);
          positive = plant-absent v pid k null whole null (omega (arith, i.below a h)) i.positive;
        },
        s.cells.1.1.0,
        s.root,
      )

  insert_new : (a pa : ℕ) → place v null whole ≡ some (a, pa) → Inserted m whole v fuel pid
  insert_new a pa e =
      let (m', run, valid, cell, _) = insert_absent a pa e in
      record {
        result = a;
        memory = m';
        tree = plant v pid m.next null whole;
        returns = run;
        valid = valid;
        ordered = values-plant v pid m.next null whole i.search;
        duplicate =
            absent-≢ a whole (place-has v null whole a pa e) i.positive
            ∙ sym (ap is_none e)
            ∙ place-mem_value v null whole i.search;
        stored = inr (_, cell, refl, refl, refl);
      }

  -- On a whole search tree with a node, with fuel for all its nodes, `insertNode` ends and leaves a whole
  -- search tree at `root`, whose values are the old ones with the new value at its place. The result is
  -- null, and the memory unchanged, exactly if the value was there; else it is a red node with the
  -- value and the pid.
  pub insert_node_lem : Inserted m whole v fuel pid
  insert_node_lem = elim (Option-cases (place v null whole)) [
    | inl e ↦ insert_present e
    | inr ((a, pa), e) ↦ insert_new a pa e
  ]
