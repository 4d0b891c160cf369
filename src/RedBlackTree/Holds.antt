-- ===== src/RedBlackTree/Holds.antt =====
-- The tree that the nodes of hw4/hw4_redblacktree.c form, with its nodes at their addresses.
use ee.Base.{ℕ, ◌≡◌, Bool, true, false, ◌||◌, Option, some, List, [], ◌∷◌, ◌++◌, arith, ◌==◌, ◌<◌}
use ee.Base.Int.{ℤ, ltb_ℤ}
use ee.RedBlackTree.Memory.{nil, allocated, RbtNode}

pub data RbTree : Type 0 where
  tip : (p : ℕ) (n : RbtNode) → RbTree
  branch : (p : ℕ) (n : RbtNode) (l r : RbTree) → RbTree

abbrev pub addr : RbTree → ℕ
addr (tip p n) = p
addr (branch p n l r) = p

abbrev pub has : ℕ → RbTree → Bool
has a (tip p n) = a == p
has a (branch p n l r) = (a == p) || (has a l || has a r)

-- Below the parent `q` the nodes form this tree. A nil node may have any parent field.
abbrev pub Holds : (ℕ → Option RbtNode) → ℕ → RbTree → Type 0
Holds h q (tip p n) = (h p ≡ some n) × (n.type ≡ nil)
Holds h q (branch p n l r) =
    ((h p ≡ some n)
      × (n.type ≡ allocated)
      × (n.parent ≡ q)
      × (n.left ≡ addr l)
      × (n.right ≡ addr r))
    × Holds h p l
    × Holds h p r

-- No two of its nodes share an address.
abbrev pub Apart : RbTree → Type 0
Apart (tip p n) = Unit {0}
Apart (branch p n l r) =
    (has p l ≡ false)
    × (has p r ≡ false)
    × ((a : ℕ) → has a l ≡ true → has a r ≡ false)
    × Apart l
    × Apart r

abbrev pub values : RbTree → List ℤ
values (tip p n) = []
values (branch p n l r) = values l ++ n.value ∷ values r

abbrev pub AllBelow : ℤ → List ℤ → Type 0
AllBelow v [] = Unit {0}
AllBelow v (x ∷ l) = (ltb_ℤ x v ≡ true) × AllBelow v l

abbrev pub AllAbove : ℤ → List ℤ → Type 0
AllAbove v [] = Unit {0}
AllAbove v (x ∷ l) = (ltb_ℤ v x ≡ true) × AllAbove v l

-- A search tree with all values distinct.
abbrev pub IsSearch : RbTree → Type 0
IsSearch (tip p n) = Unit {0}
IsSearch (branch p n l r) =
    AllBelow n.value (values l) × AllAbove n.value (values r) × IsSearch l × IsSearch r

-- The parent fields of the nil nodes too.
abbrev pub IsLinked : ℕ → RbTree → Type 0
IsLinked q (tip p n) = n.parent ≡ q
IsLinked q (branch p n l r) = IsLinked p l × IsLinked p r

abbrev pub IsBelow : ℕ → RbTree → Type 0
IsBelow k t = (a : ℕ) → has a t ≡ true → a < k

pub frame :
    (h g : ℕ → Option RbtNode) (q : ℕ) (t : RbTree)
    → Holds h q t
    → ((a : ℕ) → has a t ≡ true → g a ≡ h a)
    → Holds g q t
frame h g q (tip p n) v same = ground (arith, same p)
frame h g q (branch p n l r) v same = (
  ground (arith, same p),
  frame h g p l v.1 (λ a e. same a (ground (arith, e))),
  frame h g p r v.2 (λ a e. same a (ground (arith, e))),
)
