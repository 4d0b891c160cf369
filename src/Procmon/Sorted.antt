-- ===== src/Procmon/Sorted.antt =====
-- The bubble sort of project2/procmon.c and the rows that /proc/procmon shows.
use ee.Base.{
  ℕ, zero, suc, ◌+◌, ◌-◌, ◌≤◌, ◌<◌, ◌≡◌, refl, sym, ◌∙◌, true, not, none, some, List, [], ◌∷◌,
  arith, ltb, leb, if◌then◌else◌, length, Bool-cases, inl, inr, map,
}
use ee.Base.Int.{ℤ, three_way}
use ee.Sorting.{at_most, same, equals, IsPreorder, IsAscending, three_way-IsPreorder}
use ee.Sorting.Insertion.{insertion_sort, insertion_sort-IsListSort}
use ee.Sorting.Unique.{ascending-eq}
use ee.Procmon.{
  Criterion, pid, virt, rss, io, MyData, out_of_order, inner, outer, bubblesort, Task, measure,
  collect, proc_show, max_process_count,
}

-- The order that each criterion stands for: pids ascending, sizes descending.
abbrev pub order : Criterion → MyData → MyData → ℤ
order pid a b = three_way a.pid b.pid
order virt a b = three_way b.virt a.virt
order rss a b = three_way b.rss a.rss
order io a b = three_way b.totalio a.totalio

order-IsPreorder : (c : Criterion) → IsPreorder (order c)
order-IsPreorder pid = three_way-IsPreorder (λ (a : MyData). a.pid)
order-IsPreorder virt = record {
  self = λ a. ground arith;
  total = λ a b h. ground arith;
  trans = λ a b c h k. ground arith;
  both = λ a b h. ground arith;
}
order-IsPreorder rss = record {
  self = λ a. ground arith;
  total = λ a b h. ground arith;
  trans = λ a b c h k. ground arith;
  both = λ a b h. ground arith;
}
order-IsPreorder io = record {
  self = λ a. ground arith;
  total = λ a b h. ground arith;
  trans = λ a b c h k. ground arith;
  both = λ a b h. ground arith;
}

order-anti :
    (c : Criterion) (a b : MyData)
    → at_most (order c) a b ≡ true
    → at_most (order c) b a ≡ true
    → same (order c) a b ≡ true
order-anti pid a b h k = ground arith
order-anti virt a b h k = ground arith
order-anti rss a b h k = ground arith
order-anti io a b h k = ground arith

out_of_order-eq : (c : Criterion) (a b : MyData) → out_of_order c a b ≡ not (at_most (order c) a b)
unfolding out_of_order
out_of_order-eq pid a b = ground arith
out_of_order-eq virt a b = ground arith
out_of_order-eq rss a b = ground arith
out_of_order-eq io a b = ground arith

-- One comparison of the inner loop puts two neighbours in order and keeps the classes.
abbrev lower : Criterion → MyData → MyData → MyData
lower c x y = if out_of_order c x y then y else x

abbrev upper : Criterion → MyData → MyData → MyData
upper c x y = if out_of_order c x y then x else y

module _ (c : Criterion) where
  le : MyData → MyData → Type 0
  le x y = at_most (order c) x y ≡ true

  le_trans : (x y z : MyData) → le x y → le y z → le x z
  unfolding le
  le_trans x y z = (order-IsPreorder c).trans x y z

  swap-le : (x y : MyData) → le (lower c x y) (upper c x y) × le x (upper c x y)
  unfolding le
  swap-le x y = elim (Bool-cases (at_most (order c) x y)) [
    | inl h ↦ rw (out_of_order-eq c x y, h) (h, h)
    | inr h ↦
        rw (out_of_order-eq c x y, h)
          (
            (order-IsPreorder c).total x y h,
            ((order-IsPreorder c).both x x ((order-IsPreorder c).self x)).0,
          )
  ]

  swap-classes :
      (a x y : MyData) (l : List MyData)
      → equals (order c) a (lower c x y ∷ upper c x y ∷ l) ≡ equals (order c) a (x ∷ y ∷ l)
  swap-classes a x y l = elim (Bool-cases (at_most (order c) x y)) [
    | inl h ↦ rw (out_of_order-eq c x y, h) refl
    | inr h ↦
        rw (out_of_order-eq c x y, h)
          (elim (Bool-cases (same (order c) a x)) [
            | inr ax ↦ rw ax refl
            | inl ax ↦ elim (Bool-cases (same (order c) a y)) [
              | inr ay ↦ rw ay refl
              | inl ay ↦
                  let pre = order-IsPreorder c in
                  cc (pre.trans x a y (pre.both a x ax).1 (pre.both a y ay).0)
            ]
          ])
  ]

  inner-classes :
      (n : ℕ) (l : List MyData) (a : MyData)
      → equals (order c) a (inner c n l) ≡ equals (order c) a l
  unfolding inner
  inner-classes zero l a = refl
  inner-classes (suc n) [] a = refl
  inner-classes (suc n) (x ∷ []) a = refl
  inner-classes (suc n) (x ∷ y ∷ l) a =
      rw (inner-classes n (upper c x y ∷ l) a) (swap-classes a x y l)

  outer-classes :
      (n : ℕ) (l : List MyData) (a : MyData)
      → equals (order c) a (outer c n l) ≡ equals (order c) a l
  unfolding outer
  outer-classes zero l a = refl
  outer-classes (suc n) l a = outer-classes n (inner c (suc n) l) a ∙ inner-classes (suc n) l a

  -- `x` is at most the element at a place, if there is one.
  AtMostAt : MyData → ℕ → List MyData → Type 0
  AtMostAt x n [] = Unit
  AtMostAt x zero (y ∷ l) = le x y
  AtMostAt x (suc n) (y ∷ l) = AtMostAt x n l

  -- From place `n` on the list is ascending, and all that stands before is at most what stands there.
  Settled : ℕ → List MyData → Type 0
  Settled zero l = IsAscending (order c) l
  Settled (suc n) [] = Unit
  Settled (suc n) (x ∷ l) = AtMostAt x n l × Settled n l

  inner-AtMostAt :
      (z : MyData) (n : ℕ) (b : MyData) (l : List MyData)
      → le z b
      → AtMostAt z n (inner c n (b ∷ l))
  unfolding inner AtMostAt
  inner-AtMostAt z zero b l h = h
  inner-AtMostAt z (suc n) b [] h = tt
  inner-AtMostAt z (suc n) b (y ∷ l) h =
      inner-AtMostAt z n (upper c b y) l (le_trans z b (upper c b y) h (swap-le b y).1)

  AtMostAt-upper :
      (x y : MyData) (n : ℕ) (l : List MyData)
      → AtMostAt x n l
      → AtMostAt y n l
      → AtMostAt (upper c x y) n l
  AtMostAt-upper x y n l h k = elim (Bool-cases (out_of_order c x y)) [
    | inl e ↦ rw e h
    | inr e ↦ rw e k
  ]

  Settled-nil : (n : ℕ) → Settled n []
  unfolding Settled
  Settled-nil zero = tt
  Settled-nil (suc n) = tt

  inner-Settled : (n : ℕ) (l : List MyData) → Settled (suc n) l → Settled n (inner c n l)
  unfolding inner AtMostAt Settled le
  inner-Settled zero [] s = tt
  inner-Settled zero (x ∷ []) s = tt
  inner-Settled zero (x ∷ y ∷ l) s = (s.0, s.1)
  inner-Settled (suc n) [] s = tt
  inner-Settled (suc n) (x ∷ []) s = (tt, Settled-nil n)
  inner-Settled (suc n) (x ∷ y ∷ l) s = (
    inner-AtMostAt (lower c x y) n (upper c x y) l (swap-le x y).0,
    inner-Settled n (upper c x y ∷ l) (AtMostAt-upper x y n l s.0 s.1.0, s.1.1),
  )

  outer-Ascending :
      (n : ℕ) (l : List MyData) → Settled (suc n) l → IsAscending (order c) (outer c n l)
  unfolding outer Settled inner
  outer-Ascending zero l s = inner-Settled zero l s
  outer-Ascending (suc n) l s = outer-Ascending n (inner c (suc n) l) (inner-Settled (suc n) l s)

  AtMostAt-length : (x : MyData) (l : List MyData) → AtMostAt x (length l) l
  unfolding AtMostAt
  AtMostAt-length x [] = tt
  AtMostAt-length x (y ∷ l) = AtMostAt-length x l

  Settled-length : (l : List MyData) → Settled (length l) l
  unfolding Settled
  Settled-length [] = tt
  Settled-length (x ∷ l) = (AtMostAt-length x l, Settled-length l)

  bubblesort-Ascending : (l : List MyData) → IsAscending (order c) (bubblesort c l)
  unfolding bubblesort outer
  bubblesort-Ascending [] = tt
  bubblesort-Ascending (x ∷ l) =
      let e : suc (suc (length l) - 1) ≡ suc (length l) = omega arith in
      outer-Ascending (suc (length l) - 1) (x ∷ l) (rw e (Settled-length (x ∷ l)))

  -- For every criterion the bubble sort returns what the stable insertion sort by that order returns:
  -- pids ascending, sizes descending, processes that compare equal in the order they had.
  pub bubblesort_lem : (l : List MyData) → bubblesort c l ≡ insertion_sort (order c) l
  unfolding bubblesort
  bubblesort_lem l =
      ascending-eq (order c) (order-IsPreorder c) (order-anti c) (bubblesort c l)
        (insertion_sort (order c) l) (bubblesort-Ascending l)
        (insertion_sort-IsListSort.ascending (order c) (order-IsPreorder c) l)
        (λ a.
          outer-classes (length l - 1) l a
          ∙ sym (insertion_sort-IsListSort.stable (order c) (order-IsPreorder c) a l))

collect_lem :
    (n : ℕ) (ps : List Task)
    → n + length ps ≤ max_process_count
    → collect n ps ≡ some (map measure ps)
unfolding collect
collect_lem n [] h = refl
collect_lem n (p ∷ ps) h =
    let e : ltb n max_process_count ≡ true = ground arith in
    rw (e, collect_lem (suc n) ps (omega arith)) refl

collect_overrun :
    (n : ℕ) (ps : List Task)
    → n ≤ max_process_count
    → max_process_count < n + length ps
    → collect n ps ≡ none
unfolding collect
collect_overrun n [] le h = absurd (omega arith)
collect_overrun n (p ∷ ps) le h = elim (Bool-cases (ltb n max_process_count)) [
  | inr e ↦ rw e refl
  | inl e ↦ rw (e, collect_overrun (suc n) ps (ground arith) (omega arith)) refl
]

-- /proc/procmon shows one row for each process, in the order of the criterion and stable, as long as
-- there are at most 2048; with more of them the rows run over the end of the array.
pub proc_show_lem :
    (c : Criterion) (ps : List Task)
    → proc_show c ps ≡ (
        if leb (length ps) max_process_count
        then some (insertion_sort (order c) (map measure ps))
        else none)
unfolding proc_show
proc_show_lem c ps = elim (Bool-cases (leb (length ps) max_process_count)) [
  | inl e ↦
      let fits = collect_lem 0 ps (ground arith) in
      rw (e, proc_show, fits, bubblesort_lem c (map measure ps)) refl
  | inr e ↦
      let over = collect_overrun 0 ps (omega arith) (ground arith) in rw (e, proc_show, over) refl
]
