-- ===== src/RedBlackTree/Memory.antt =====
-- The nodes of hw4/hw4_redblacktree.c at their addresses, and the commands that read and write them.
-- A command ends with a result, with a fault (a null pointer or a freed node that is followed), or
-- when its fuel is used up.
use ee.Base.{ℕ, suc, Option, none, some, ◌==◌, if◌then◌else◌}
use ee.Base.Int.{ℤ, pos}
use ee.Base.Update.{update}

abbrev pub null : ℕ
null = 0

abbrev pub black : ℕ
black = 0x106

abbrev pub red : ℕ
red = 0x107

abbrev pub nil : ℕ
nil = 0xA08

abbrev pub allocated : ℕ
allocated = 0xA09

-- `struct rbtnode`
pub record RbtNode : Type 0 where
  pub parent : ℕ
  pub right : ℕ
  pub left : ℕ
  pub pid : ℕ
  pub value : ℤ
  pub color : ℕ
  pub type : ℕ

abbrev pub zeroed : RbtNode
zeroed = record { parent = 0; right = 0; left = 0; pid = 0; value = pos 0; color = 0; type = 0 }

-- `next` is the address of the next allocation.
pub record Memory : Type 0 where
  pub nodes : ℕ → Option RbtNode
  pub root : ℕ
  pub next : ℕ

pub data Run (A : Type 0) : Type 0 where
  ok : A → Memory → Run A
  fault : Run A
  out_of_fuel : Run A

abbrev pub Cmd : Type 0 → Type 0
Cmd A = Memory → Run A

abbrev pub pure : {A : Type 0} → A → Cmd A
pure = ok

module _ {A B : Type 0} where
  abbrev pub and_then : Run A → (A → Cmd B) → Run B
  and_then (ok a m) k = k a m
  and_then fault k = fault
  and_then out_of_fuel k = out_of_fuel

  infixl 5 ◌>>=◌ ◌>>◌
  abbrev pub ◌>>=◌ : Cmd A → (A → Cmd B) → Cmd B
  c >>= k = λ m. and_then (c m) k

  abbrev pub ◌>>◌ : Cmd A → Cmd B → Cmd B
  c >> d = c >>= λ _. d

abbrev pub skip : Cmd (Unit {0})
skip = ok tt

-- `*p`
abbrev pub fetch : Option RbtNode → Memory → Run RbtNode
fetch none m = fault
fetch (some n) m = ok n m

unfoldable pub load : ℕ → Cmd RbtNode
load p m = fetch (m.nodes p) m

abbrev pub store : ℕ → Option RbtNode → Cmd (Unit {0})
store p o m = ok tt (record m { nodes = update m.nodes p o })

-- A write to some fields of `*p`.
unfoldable pub modify : ℕ → (RbtNode → RbtNode) → Cmd (Unit {0})
modify p f = do n ← load p; store p (some (f n))

abbrev pub set_parent : ℕ → ℕ → Cmd (Unit {0})
set_parent p q = modify p (λ n. record n { parent = q })

abbrev pub set_left : ℕ → ℕ → Cmd (Unit {0})
set_left p q = modify p (λ n. record n { left = q })

abbrev pub set_right : ℕ → ℕ → Cmd (Unit {0})
set_right p q = modify p (λ n. record n { right = q })

abbrev pub set_color : ℕ → ℕ → Cmd (Unit {0})
set_color p c = modify p (λ n. record n { color = c })

abbrev pub set_type : ℕ → ℕ → Cmd (Unit {0})
set_type p t = modify p (λ n. record n { type = t })

abbrev pub set_root : ℕ → Cmd (Unit {0})
set_root p m = ok tt (record m { root = p })

abbrev pub get_root : Cmd ℕ
get_root m = ok m.root m

-- `calloc` never fails here.
unfoldable pub calloc : RbtNode → Cmd ℕ
calloc n m = ok m.next (record m { nodes = update m.nodes m.next (some n); next = suc m.next })

unfoldable pub free : ℕ → Cmd (Unit {0})
free p = load p >> store p none

-- The relatives of a node; null where there is none.
unfoldable pub grandparent : ℕ → Cmd ℕ
grandparent n = if n == null then pure null else (do
  x ← load n
  if x.parent == null then pure null else (load x.parent >>= λ p. pure p.parent))

unfoldable pub uncle : ℕ → Cmd ℕ
uncle n = do
  g ← grandparent n
  if g == null
      then pure null
      else (do x ← load n; y ← load g; pure (if x.parent == y.left then y.right else y.left))

unfoldable pub sibling : ℕ → Cmd ℕ
sibling n = if n == null then pure null else (do
  x ← load n
  if x.parent == null
      then pure null
      else (load x.parent >>= λ p. pure (if n == p.left then p.right else p.left)))
