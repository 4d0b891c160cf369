-- ===== src/LinkedList/Bag.antt =====
-- The list of project5/task1/linkedlist_skel.c as a bag of digits: how often each value occurs.
use ee.Base.{
  ℕ, zero, suc, ◌+◌, ◌-◌, ◌%◌, ◌^◌, ◌≤◌, ◌<◌, ◌≡◌, refl, Bool, true, false, ◌&&◌, ◌||◌, Option,
  some, List, [], ◌∷◌, ltb, ◌==◌, if◌then◌else◌, arith, Bool-cases, inl, inr, length, sym, ap, ◌∙◌,
}
use ee.Base.Int.{ℤ, pos, negsuc, leb_ℤ, eqb_ℤ, signed_char}
use ee.LinkedList.{
  Sll, null, node, Device, insert_after, alloc_linked_list_randomly, delete_after, delete_inner,
  delete_head, get_first_matched, free_nodes, release_sll, dummy_read, dummy_write, Request, read,
  write, close, serve, run,
}

-- How many nodes a list has, and how many of them with a value.
unfoldable pub count : Sll → ℕ
count null = 0
count (node v next) = suc (count next)

abbrev pub times : ℤ → ℤ → ℕ
times w v = if eqb_ℤ v w then 1 else 0

unfoldable pub occurs : ℤ → Sll → ℕ
occurs w null = 0
occurs w (node v next) = times w v + occurs w next

abbrev pub IsDigit : ℤ → Type 0
IsDigit v = leb_ℤ (pos 0) v && leb_ℤ v (pos 9) ≡ true

unfoldable pub IsDigits : Sll → Type 0
IsDigits null = Unit
IsDigits (node v next) = IsDigit v × IsDigits next

pub record IsValid (d : Device) : Type 0 where
  pub counted : d.size ≡ count d.head
  pub digits : IsDigits d.head

eqb_ℤ_eq : (a b : ℤ) → eqb_ℤ a b ≡ true → a ≡ b
eqb_ℤ_eq (pos a) (pos b) h = ground arith
eqb_ℤ_eq (pos a) (negsuc b) h = ground arith
eqb_ℤ_eq (negsuc a) (pos b) h = ground arith
eqb_ℤ_eq (negsuc a) (negsuc b) h = ground arith

-- Insertion after a node that is there.
record Inserted (v : ℤ) (l : Sll) (out : Option Sll) : Type 0 where
  list : Sll
  result : out ≡ some list
  longer : count list ≡ suc (count l)
  more : (w : ℤ) → occurs w list ≡ occurs w l + times w v
  digits : IsDigits list

insert_after-Inserted :
    (moves : ℕ) (v : ℤ) (l : Sll)
    → moves < count l
    → IsDigit v
    → IsDigits l
    → Inserted v l (insert_after moves v l)
unfolding insert_after count occurs IsDigits
insert_after-Inserted moves v null lt dv ds = absurd (omega arith)
insert_after-Inserted zero v (node u next) lt dv ds = record {
  list = node u (node v next);
  result = refl;
  longer = refl;
  more = λ w. omega arith;
  digits = (ds.0, (dv, ds.1));
}
insert_after-Inserted (suc moves) v (node u next) lt dv ds =
    let i = insert_after-Inserted moves v next (omega arith) dv ds.1 in
    record {
      list = node u i.list;
      result = rw i.result refl;
      longer = ap suc i.longer;
      more = λ w. omega (arith, i.more w);
      digits = (ds.0, i.digits);
    }

-- What a device is after a digit was added.
pub record Added (v : ℤ) (d d' : Device) : Type 0 where
  pub valid : IsValid d'
  pub size : d'.size ≡ d.size + 1
  pub more : (w : ℤ) → occurs w d'.head ≡ occurs w d.head + times w v

abbrev device : Sll → ℕ → Device
device h n = record { head = h; size = n }

alloc-Added :
    (v : ℤ) (random : ℕ) (h : Sll) (n : ℕ)
    → IsValid (device h n)
    → n + 1 < 2 ^ 32
    → IsDigit v
    → (d' : Device) × (alloc_linked_list_randomly v random (device h n) ≡ some d')
      × Added v (device h n) d'
unfolding alloc_linked_list_randomly count occurs IsDigits
alloc-Added v random null n valid room dig = (
  device (node v null) ((n + 1) % 2 ^ 32),
  refl,
  record {
    valid = record { counted = omega (arith, valid.counted); digits = (dig, record {}) };
    size = omega arith;
    more = λ w. omega arith;
  },
)
alloc-Added v random (node u next) n valid room dig =
    let i =
      insert_after-Inserted (random % n) v (node u next) (omega (arith, valid.counted)) dig
        valid.digits in
    let e : (n == 0) ≡ false = ground (arith, valid.counted) in
    (
      device i.list ((n + 1) % 2 ^ 32),
      rw (e, i.result) refl,
      record {
        valid = record { counted = omega (arith, valid.counted, i.longer); digits = i.digits };
        size = omega arith;
        more = i.more;
      },
    )

-- A write of a digit, in a valid device with room in the counter, succeeds wherever the random
-- number puts it. The device is still valid, with one node more; the digit occurs once more,
-- every other value as often as before.
pub write-Added :
    (length b random : ℕ) (d : Device)
    → IsValid d
    → d.size + 1 < 2 ^ 32
    → 0 < length
    → IsDigit (signed_char b)
    → (d' : Device) × (dummy_write length b random d ≡ some (pos 1, d'))
      × Added (signed_char b) d d'
unfolding dummy_write
write-Added length b random d valid room len dig =
    let (d', e, a) = alloc-Added (signed_char b) random d.head d.size valid room dig in
    let l : ltb 0 length ≡ true = ground arith in (d', rw (l, dig, e) refl, a)

-- Deletion of the first match after a node.
unfoldable pub has : ℤ → Sll → Bool
has v null = false
has v (node u next) = eqb_ℤ u v || has v next

erase : ℤ → Sll → Sll
erase v null = null
erase v (node u next) = if eqb_ℤ u v then next else node u (erase v next)

delete_after_lem :
    (rounds : ℕ) (v u : ℤ) (next : Sll)
    → rounds ≡ count next
    → delete_after rounds v (node u next) ≡ some (has v next, node u (erase v next))
unfolding delete_after has erase count
delete_after_lem zero v u null e = refl
delete_after_lem zero v u (node w next) e = absurd (omega arith)
delete_after_lem (suc rounds) v u null e = absurd (omega arith)
delete_after_lem (suc rounds) v u (node w next) e = elim (Bool-cases (eqb_ℤ w v)) [
  | inl same ↦ rw same refl
  | inr other ↦ rw (other, delete_after_lem rounds v w next (omega arith)) refl
]

get_first_matched_lem :
    (v : ℤ) (h : Sll) (n : ℕ)
    → n ≡ count h
    → get_first_matched v (device h n)
      ≡ some (if has v h then (v, device (erase v h) (n - 1)) else (negsuc 0, device h n))
unfolding get_first_matched delete_head delete_inner has erase count
get_first_matched_lem v null n e = rw e refl
get_first_matched_lem v (node u next) n e =
    let p : ltb 0 n ≡ true = ground arith in
    elim (Bool-cases (eqb_ℤ u v)) [
      | inl same ↦ rw (p, same) refl
      | inr other ↦
          rw (p, other, delete_inner, delete_after_lem (n - 1) v u next (omega arith))
            (elim (Bool-cases (has v next)) [ inl found ↦ rw found refl | inr lost ↦ rw lost refl ])
    ]

has-occurs : (v : ℤ) (h : Sll) → has v h ≡ ltb 0 (occurs v h)
unfolding has occurs
has-occurs v null = refl
has-occurs v (node u next) = ground (arith, has-occurs v next)

-- A list without the first match.
record Erased (v : ℤ) (h : Sll) : Type 0 where
  shorter : suc (count (erase v h)) ≡ count h
  fewer : (w : ℤ) → occurs w (erase v h) + times w v ≡ occurs w h
  digits : IsDigits (erase v h)

erase-Erased : (v : ℤ) (h : Sll) → has v h ≡ true → IsDigits h → Erased v h
unfolding has erase count occurs IsDigits
erase-Erased v null found ds = cc
erase-Erased v (node u next) found ds = elim (Bool-cases (eqb_ℤ u v)) [
  | inl same ↦ record {
    shorter = rw same refl;
    fewer = λ w. rw (same, eqb_ℤ_eq u v same) (omega arith);
    digits = rw same ds.1;
  }
  | inr other ↦
      let e = erase-Erased v next (rw other at found) ds.1 in
      record {
        shorter = rw other (ap suc e.shorter);
        fewer = λ w. rw other (omega (arith, e.fewer w));
        digits = rw other (ds.0, e.digits);
      }
]

-- A read of at least two bytes of a valid device follows no null pointer and leaves it valid. It
-- answers the wanted value and removes one occurrence of it if there is one, else it answers -1;
-- all other values occur as often as before.
pub read-Removed :
    (length b : ℕ) (d : Device)
    → IsValid d
    → 1 < length
    → (k : ℤ) × (d' : Device) × (dummy_read length b d ≡ some (k, d'))
      × IsValid d'
      × (d'.size ≡ (if ltb 0 (occurs (signed_char b) d.head) then d.size - 1 else d.size))
      × (k ≡ (if ltb 0 (occurs (signed_char b) d.head) then signed_char b else negsuc 0))
      × ((w : ℤ)
          → occurs w d.head
            ≡ occurs w d'.head
              + (if ltb 0 (occurs (signed_char b) d.head) then times w (signed_char b) else 0))
unfolding dummy_read
read-Removed length b d valid len =
    let l : ltb 1 length ≡ true = ground arith in
    let v = signed_char b in
    let g = get_first_matched_lem v d.head d.size valid.counted in
    let o = sym (has-occurs v d.head) in
    elim (Bool-cases (has v d.head)) [
      | inl found ↦
          let e = erase-Erased v d.head found valid.digits in
          (
            v,
            device (erase v d.head) (d.size - 1),
            rw (l, g, found) refl,
            record { counted = omega (arith, valid.counted, e.shorter); digits = e.digits },
            rw (o, found) refl,
            rw (o, found) refl,
            λ w. rw (o, found) (sym (e.fewer w)),
          )
      | inr lost ↦ (
        negsuc 0,
        d,
        rw (l, g, lost) refl,
        valid,
        rw (o, lost) refl,
        rw (o, lost) refl,
        λ w. rw (o, lost) (omega arith),
      )
    ]

free_nodes_lem : (h : Sll) → free_nodes (count h) h ≡ some null
unfolding free_nodes count
free_nodes_lem null = refl
free_nodes_lem (node v next) = free_nodes_lem next

-- Closing a valid device frees every node and leaves an empty device.
release_lem :
    (d : Device) → IsValid d → release_sll d ≡ some (null, record { head = null; size = 0 })
unfolding release_sll
release_lem d valid =
    let f = ap (λ n. free_nodes n d.head) valid.counted ∙ free_nodes_lem d.head in
    rw (release_sll, f) refl

pub empty-IsValid : IsValid (device null 0)
unfolding count IsDigits
empty-IsValid = record { counted = refl; digits = record {} }

-- A request keeps a device valid and lengthens the list by one node at most.
serve-IsValid :
    (r : Request) (d : Device)
    → IsValid d
    → d.size + 1 < 2 ^ 32
    → (k : ℤ) × (d' : Device) × (serve r d ≡ some (k, d')) × IsValid d' × (d'.size ≤ d.size + 1)
unfolding serve dummy_read dummy_write
serve-IsValid (read length b) d valid room = elim (Bool-cases (ltb 1 length)) [
  | inl long ↦
      let (k, d', e, w, n, answer, rest) = read-Removed length b d valid (ground arith) in
      (k, d', e, w, ground (arith, n))
  | inr short ↦ (negsuc 0, d, rw (dummy_read, short) refl, valid, omega arith)
]
serve-IsValid (write length b random) d valid room =
    elim (Bool-cases
      (ltb 0 length && (leb_ℤ (pos 0) (signed_char b) && leb_ℤ (signed_char b) (pos 9)))) [
        | inl good ↦
            let (d', e, a) =
              write-Added length b random d valid room (ground (arith, good))
                (ground (arith, good)) in
            (pos 1, d', e, a.valid, omega (arith, a.size))
        | inr bad ↦ (negsuc 0, d, rw (dummy_write, bad) refl, valid, omega arith)
      ]
serve-IsValid close d valid room =
    (pos 0, device null 0, rw (serve, release_lem d valid) refl, empty-IsValid, omega arith)

-- Any requests in a row on a valid device, as long as the counter could not wrap if all were
-- writes, follow no null pointer and take no remainder by zero; the counter is then the number of
-- nodes, and all nodes hold digits.
pub run-IsValid :
    (rs : List Request) (d : Device)
    → IsValid d
    → d.size + length rs < 2 ^ 32
    → (d' : Device) × (run rs d ≡ some d') × IsValid d'
unfolding run
run-IsValid [] d valid room = (d, refl, valid)
run-IsValid (r ∷ rs) d valid room =
    let (k, d', e, w, le) = serve-IsValid r d valid (omega arith) in
    let (d'', e', w') = run-IsValid rs d' w (omega arith) in (d'', rw (run, e) e', w')
