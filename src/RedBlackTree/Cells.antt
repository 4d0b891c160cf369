-- ===== src/RedBlackTree/Cells.antt =====
-- Running the commands of hw4/hw4_redblacktree.c on a few nodes at known addresses.
use ee.Base.{
  ℕ, zero, suc, ◌≡◌, ◌<◌, refl, Bool, true, false, ◌||◌, Option, some, List, [], ◌∷◌, arith, ◌==◌,
  length, get_or,
}
use ee.Base.Update.{update}
use ee.RedBlackTree.Memory.{RbtNode, zeroed, Memory, Cmd, ok, load, modify, calloc}

abbrev pub mem : ℕ → List ℕ → Bool
mem a [] = false
mem a (p ∷ ps) = (a == p) || mem a ps

abbrev pub Distinct : List ℕ → Type 0
Distinct [] = Unit {0}
Distinct (p ∷ ps) = (mem p ps ≡ false) × Distinct ps

abbrev pub Cells : (ℕ → Option RbtNode) → List ℕ → List RbtNode → Type 0
Cells h [] [] = Unit {0}
Cells h [] (x ∷ xs) = ⊥
Cells h (p ∷ ps) [] = ⊥
Cells h (p ∷ ps) (x ∷ xs) = (h p ≡ some x) × Cells h ps xs

abbrev pub alter : ℕ → (RbtNode → RbtNode) → List RbtNode → List RbtNode
alter i f [] = []
alter zero f (x ∷ xs) = f x ∷ xs
alter (suc i) f (x ∷ xs) = x ∷ alter i f xs

-- The nodes at `ps` are `xs`, all others are as in `m₀`, the next allocation is at `fresh`.
pub record At (m₀ : Memory) (fresh : ℕ) (m : Memory) (ps : List ℕ) (xs : List RbtNode)
    : Type 0 where
  pub cells : Cells m.nodes ps xs
  pub others : (a : ℕ) → mem a ps ≡ false → m.nodes a ≡ m₀.nodes a
  pub root : m.root ≡ m₀.root
  pub next : m.next ≡ fresh

abbrev pub put : Memory → ℕ → RbtNode → Memory
put m p x = record m { nodes = update m.nodes p (some x) }

Cells-update :
    (h : ℕ → Option RbtNode) (p : ℕ) (x : RbtNode) (ps : List ℕ) (xs : List RbtNode)
    → mem p ps ≡ false
    → Cells h ps xs
    → Cells (update h p (some x)) ps xs
Cells-update h p x [] [] d c = tt
Cells-update h p x [] (y ∷ xs) d c = elim c [ ]
Cells-update h p x (q ∷ ps) [] d c = elim c [ ]
Cells-update h p x (q ∷ ps) (y ∷ xs) d c =
    (ground arith, Cells-update h p x ps xs (ground arith) c.1)

mem-get_or : (i : ℕ) (ps : List ℕ) → i < length ps → mem (get_or ps i 0) ps ≡ true
mem-get_or i [] lt = absurd (omega arith)
mem-get_or zero (p ∷ ps) lt = ground arith
mem-get_or (suc i) (p ∷ ps) lt = ground (arith, mem-get_or i ps)

Cells-alter :
    (h : ℕ → Option RbtNode) (i : ℕ) (f : RbtNode → RbtNode) (ps : List ℕ) (xs : List RbtNode)
    → Distinct ps
    → i < length ps
    → Cells h ps xs
    → Cells (update h (get_or ps i 0) (some (f (get_or xs i zeroed)))) ps (alter i f xs)
Cells-alter h i f [] xs d lt c = absurd (omega arith)
Cells-alter h zero f (p ∷ ps) [] d lt c = elim c [ ]
Cells-alter h (suc i) f (p ∷ ps) [] d lt c = elim c [ ]
Cells-alter h zero f (p ∷ ps) (x ∷ xs) d lt c = (ground arith, Cells-update h p (f x) ps xs d.0 c.1)
Cells-alter h (suc i) f (p ∷ ps) (x ∷ xs) d lt c =
    (ground (arith, mem-get_or i ps), Cells-alter h i f ps xs d.1 (omega arith) c.1)

Cells-get_or :
    (h : ℕ → Option RbtNode) (i : ℕ) (ps : List ℕ) (xs : List RbtNode)
    → i < length ps
    → Cells h ps xs
    → h (get_or ps i 0) ≡ some (get_or xs i zeroed)
Cells-get_or h i [] xs lt c = absurd (omega arith)
Cells-get_or h i (p ∷ ps) [] lt c = elim c [ ]
Cells-get_or h zero (p ∷ ps) (x ∷ xs) lt c = c.0
Cells-get_or h (suc i) (p ∷ ps) (x ∷ xs) lt c = Cells-get_or h i ps xs (omega arith) c.1

module _ {m₀ : Memory} {fresh : ℕ} {m : Memory} (ps : List ℕ) (xs : List RbtNode)
    (v : At m₀ fresh m ps xs) where
  pub load_at : (i : ℕ) → i < length ps → load (get_or ps i 0) m ≡ ok (get_or xs i zeroed) m
  unfolding load
  load_at i lt = rw (load, Cells-get_or m.nodes i ps xs lt v.cells) refl

  pub modify-At :
      (i : ℕ) (f : RbtNode → RbtNode)
      → Distinct ps
      → i < length ps
      → (modify (get_or ps i 0) f m ≡ ok tt (put m (get_or ps i 0) (f (get_or xs i zeroed))))
        × At m₀ fresh (put m (get_or ps i 0) (f (get_or xs i zeroed))) ps (alter i f xs)
  unfolding modify
  modify-At i f d lt = (
    rw (modify, load_at i lt) refl,
    record {
      cells = Cells-alter m.nodes i f ps xs d lt v.cells;
      others = λ a e. ground (arith, mem-get_or i ps, v.others a);
      root = v.root;
      next = v.next;
    },
  )

  pub calloc-At :
      (x : RbtNode)
      → mem fresh ps ≡ false
      → (m' : Memory) × (calloc x m ≡ ok fresh m') × At m₀ (suc fresh) m' (fresh ∷ ps) (x ∷ xs)
  unfolding calloc
  calloc-At x d = (
    record m { nodes = update m.nodes fresh (some x); next = suc fresh },
    rw (calloc, v.next) refl,
    record {
      cells = (ground arith, Cells-update m.nodes fresh x ps xs d v.cells);
      others = λ a e. ground (arith, v.others a);
      root = v.root;
      next = refl;
    },
  )

pub finished :
    {m₀ : Memory} {fresh : ℕ} {m : Memory} {ps : List ℕ} {xs : List RbtNode}
    → (c : Cmd (Unit {0})) → At m₀ fresh m ps xs
    → c m₀ ≡ ok tt m
    → (m' : Memory) × (c m₀ ≡ ok tt m') × At m₀ fresh m' ps xs
finished c v e = (_, e, v)
