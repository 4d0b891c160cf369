-- ===== src/RedBlackTree/Rotate/Right.antt =====
-- What `rotateRight` of hw4/hw4_redblacktree.c writes: three nodes, and the parent if there is one.
pub mod Tree
use ee.Base.{
  ℕ, zero, suc, ◌≡◌, ◌≢◌, refl, Bool, true, false, Option, some, List, [], ◌∷◌, arith, ◌==◌,
  if◌then◌else◌, ◌<◌, Bool-cases, inl, inr,
}
use ee.RedBlackTree.Memory.{null, RbtNode, Memory, ok, load, modify, ◌>>=◌, ◌>>◌}
use ee.RedBlackTree.Cells.{At, Distinct, finished, load_at, modify-At}
use ee.RedBlackTree.Rotate.{rotate_right}

-- The parent's pointer moves to the other node.
abbrev pub relink : RbtNode → (p c : ℕ) → RbtNode
relink x p c = if x.right == p then record x { right = c } else record x { left = c }

module _ (m : Memory) (p c b : ℕ) (n y z : RbtNode) (d : Distinct (p ∷ c ∷ b ∷ [])) (ne : b ≢ null)
    (hc : m.nodes c ≡ some (record y { right = b })) (hb : m.nodes b ≡ some z) where
  pub turn_root :
      m.nodes p ≡ some (record n { left = c; parent = null })
      → (m' : Memory) × (rotate_right p m ≡ ok tt m')
        × At m m.next m' (p ∷ c ∷ b ∷ []) (
            record n { left = b; parent = c }
            ∷ record y { right = p; parent = null }
            ∷ record z { parent = p }
            ∷ [])
  unfolding rotate_right
  turn_root hp =
      let e : (b == null) ≡ false = ground arith in
      let s0 : At m m.next m (p ∷ c ∷ b ∷ [])
          (record n { left = c; parent = null } ∷ record y { right = b } ∷ z ∷ []) =
        record { cells = (hp, (hc, (hb, tt))); others = λ a f. refl; root = refl; next = refl } in
      let (r1, s1) = modify-At _ _ s0 2 (λ n. record n { parent = p }) d (omega arith) in
      let (r2, s2) = modify-At _ _ s1 0 (λ n. record n { left = b }) d (omega arith) in
      let (r3, s3) = modify-At _ _ s2 0 (λ n. record n { parent = c }) d (omega arith) in
      let (r4, s4) = modify-At _ _ s3 1 (λ n. record n { right = p }) d (omega arith) in
      let (r5, s5) = modify-At _ _ s4 1 (λ n. record n { parent = null }) d (omega arith) in
      (
        _,
        rw
            (
              rotate_right,
              load_at _ _ s0 0 (omega arith),
              load_at _ _ s0 1 (omega arith),
              e,
              r1,
              load_at _ _ s1 1 (omega arith),
              r2,
              r3,
              r4,
              r5,
            )
            refl,
        s5,
      )

  pub turn_below :
      (q : ℕ) (x : RbtNode)
      → Distinct (q ∷ p ∷ c ∷ b ∷ [])
      → q ≢ null
      → m.nodes p ≡ some (record n { left = c; parent = q })
      → m.nodes q ≡ some x
      → (m' : Memory) × (rotate_right p m ≡ ok tt m')
        × At m m.next m' (q ∷ p ∷ c ∷ b ∷ []) (
            relink x p c
            ∷ record n { left = b; parent = c }
            ∷ record y { right = p; parent = q }
            ∷ record z { parent = p }
            ∷ [])
  unfolding rotate_right
  turn_below q x d4 nq hp hq =
      let e : (b == null) ≡ false = ground arith in
      let f : (q == null) ≡ false = ground arith in
      let s0 : At m m.next m (q ∷ p ∷ c ∷ b ∷ [])
          (x ∷ record n { left = c; parent = q } ∷ record y { right = b } ∷ z ∷ []) =
        record {
          cells = (hq, (hp, (hc, (hb, tt))));
          others = λ a f. refl;
          root = refl;
          next = refl;
        } in
      let (r1, s1) = modify-At _ _ s0 3 (λ n. record n { parent = p }) d4 (omega arith) in
      let (r2, s2) = modify-At _ _ s1 1 (λ n. record n { left = b }) d4 (omega arith) in
      let (r3, s3) = modify-At _ _ s2 1 (λ n. record n { parent = c }) d4 (omega arith) in
      let (r4, s4) = modify-At _ _ s3 2 (λ n. record n { right = p }) d4 (omega arith) in
      let (r5, s5) = modify-At _ _ s4 2 (λ n. record n { parent = q }) d4 (omega arith) in
      let (_, s6) = modify-At _ _ s5 0 (λ x. relink x p c) d4 (omega arith) in
      finished (rotate_right p) s6 (elim (Bool-cases (x.right == p)) [
        | inl g ↦
            let (r7, s7) = modify-At _ _ s5 0 (λ n. record n { right = c }) d4 (omega arith) in
            rw
              (
                rotate_right,
                load_at _ _ s0 1 (omega arith),
                load_at _ _ s0 2 (omega arith),
                e,
                r1,
                load_at _ _ s1 2 (omega arith),
                r2,
                r3,
                r4,
                r5,
                f,
                load_at _ _ s5 0 (omega arith),
                g,
                r7,
              )
              refl
        | inr g ↦
            let (r7, s7) = modify-At _ _ s5 0 (λ n. record n { left = c }) d4 (omega arith) in
            rw
              (
                rotate_right,
                load_at _ _ s0 1 (omega arith),
                load_at _ _ s0 2 (omega arith),
                e,
                r1,
                load_at _ _ s1 2 (omega arith),
                r2,
                r3,
                r4,
                r5,
                f,
                load_at _ _ s5 0 (omega arith),
                g,
                r7,
              )
              refl
      ])
