-- ===== src/LinkedList.antt =====
-- project5/task1/linkedlist_skel.c: a character device that keeps single digits in a linked list, with
-- its length in `size`. Each function on the list holds the semaphore `sem` throughout, so a call is
-- one step. A node is owned by its one predecessor, so the list is a data type here. `none` as a
-- result stands for a null pointer that was followed, or a remainder by zero.
pub mod Bag
pub mod Clients
mod Tests
use ee.Base.{
  ℕ, zero, suc, ◌+◌, ◌-◌, ◌%◌, ◌^◌, Bool, true, false, ◌&&◌, Option, none, some, List, [], ◌∷◌, ltb,
  ◌==◌, if◌then◌else◌,
}
use ee.Base.Int.{ℤ, pos, negsuc, leb_ℤ, eqb_ℤ, signed_char}

-- `struct sll *`
pub data Sll : Type 0 where
  null : Sll
  node : (v : ℤ) (next : Sll) → Sll

-- `head` and `size`
pub record Device : Type 0 where
  pub head : Sll
  pub size : ℕ

-- `while(pos--) cur = cur->next`, then the new node is linked in after `cur`.
unfoldable pub insert_after : (moves : ℕ) → ℤ → Sll → Option Sll
insert_after moves v null = none
insert_after zero v (node u next) = some (node u (node v next))
insert_after (suc moves) v (node u next) = elim (insert_after moves v next) [
  | none ↦ none
  | some l ↦ some (node u l)
]

-- `random` is what `get_random_bytes` stores.
unfoldable pub alloc_linked_list_randomly : ℤ → (random : ℕ) → Device → Option Device
alloc_linked_list_randomly v random d = elim d.head [
  | null ↦ some (record { head = node v null; size = (d.size + 1) % 2 ^ 32 })
  | node u next ↦ if d.size == 0 then none else (elim (insert_after (random % d.size) v d.head) [
    | none ↦ none
    | some l ↦ some (record { head = l; size = (d.size + 1) % 2 ^ 32 })
  ])
]

-- The loop `for(i=0;i<size-1;i++)` with the rounds that are left, and the deletion after it: whether
-- a node after `cur` matched, and the list from `cur` on.
unfoldable pub delete_after : (rounds : ℕ) → ℤ → Sll → Option (Bool × Sll)
delete_after zero v cur = some (false, cur)
delete_after (suc rounds) v null = none
delete_after (suc rounds) v (node u null) = none
delete_after (suc rounds) v (node u (node w next)) =
    let later = delete_after rounds v (node w next) in
    if eqb_ℤ w v
    then some (true, node u next)
    else (elim later [ none ↦ none | some out ↦ some (out.0, node u out.1) ])

-- What the function does once `head` is known not to match.
unfoldable pub delete_inner : ℤ → Device → Option (ℤ × Device)
delete_inner v d = elim (delete_after (d.size - 1) v d.head) [
  | none ↦ none
  | some out ↦
      if out.0 then some (v, record { head = out.1; size = d.size - 1 }) else some (negsuc 0, d)
]

unfoldable pub delete_head : ℤ → Sll → Device → Option (ℤ × Device)
delete_head v null d = none
delete_head v (node u next) d =
    if eqb_ℤ u v then some (v, record { head = next; size = d.size - 1 }) else delete_inner v d

-- `getFirstMatchedSllNodeWithDeleteOperation`
unfoldable pub get_first_matched : ℤ → Device → Option (ℤ × Device)
get_first_matched v d = if ltb 0 d.size then delete_head v d.head d else some (negsuc 0, d)

-- The loop of `releaseSll`: what is left of the list after that many nodes are freed.
unfoldable pub free_nodes : (rounds : ℕ) → Sll → Option Sll
free_nodes zero cur = some cur
free_nodes (suc rounds) null = none
free_nodes (suc rounds) (node v next) = free_nodes rounds next

-- The nodes that were not freed, and the device.
unfoldable pub release_sll : Device → Option (Sll × Device)
release_sll d = elim (free_nodes d.size d.head) [
  | none ↦ none
  | some l ↦ some (l, record { head = null; size = 0 })
]

-- `buffer` is the first byte; the result also goes to `buffer[1]`.
unfoldable pub dummy_read : (length buffer : ℕ) → Device → Option (ℤ × Device)
dummy_read length buffer d =
    if ltb 1 length then get_first_matched (signed_char buffer) d else some (negsuc 0, d)

unfoldable pub dummy_write : (length buffer random : ℕ) → Device → Option (ℤ × Device)
dummy_write length buffer random d =
    let v = signed_char buffer in
    if ltb 0 length && (leb_ℤ (pos 0) v && leb_ℤ v (pos 9))
    then (elim (alloc_linked_list_randomly v random d) [ none ↦ none | some d' ↦ some (pos 1, d') ])
    else some (negsuc 0, d)

-- The calls of a client. `close` is `dummy_release`.
pub data Request : Type 0 where
  read : (length buffer : ℕ) → Request
  write : (length buffer random : ℕ) → Request
  close : Request

unfoldable pub serve : Request → Device → Option (ℤ × Device)
serve (read length buffer) d = dummy_read length buffer d
serve (write length buffer random) d = dummy_write length buffer random d
serve close d = elim (release_sll d) [ none ↦ none | some (l, d') ↦ some (pos 0, d') ]

unfoldable pub run : List Request → Device → Option Device
run [] d = some d
run (r ∷ rs) d = elim (serve r d) [ none ↦ none | some (k, d') ↦ run rs d' ]
