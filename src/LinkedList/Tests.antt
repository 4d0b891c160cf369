-- ===== src/LinkedList/Tests.antt =====
-- The linked list of project5/task1/linkedlist_skel.c on concrete requests.
use ee.Base.{◌+◌, ◌≡◌, refl, some, List, [], ◌∷◌, arith, All}
use ee.Base.Int.{ℤ, pos, negsuc}
use ee.LinkedList.{
  null, node, Device, dummy_read, Request, read, write, close, run, serve, dummy_write,
  alloc_linked_list_randomly, insert_after, get_first_matched, delete_head,
}
use ee.LinkedList.Clients.{
  Message, write_succeeded, read_succeeded, System, after_round, Step, Reach, begin, next, reader,
  writer, start, read_func, write_func,
}
use ee.LinkedList.Clients.Ledger.{round, stored, taken, IsFine, nothing_lost, round_served}
use ee.LinkedList.Bag.{IsValid, occurs, count, IsDigits, run-IsValid}

abbrev three : Device
three = record { head = node (pos 7) (node (pos 5) (node (pos 7) null)); size = 3 }

three-IsValid : IsValid three
unfolding count IsDigits
three-IsValid = record { counted = refl; digits = (refl, (refl, (refl, record {}))) }

abbrev script : List Request
script = write 1 3 8 ∷ read 2 7 ∷ read 2 4 ∷ close ∷ write 1 200 0 ∷ []

run-IsValid_example : (d' : Device) × (run script three ≡ some d') × IsValid d'
run-IsValid_example = run-IsValid script three three-IsValid (omega arith)

abbrev error_is_minus_one : ℤ → ℤ
error_is_minus_one (pos n) = pos n
error_is_minus_one (negsuc n) = negsuc 0

-- The first writer stores 3, the second 5, and the first reader takes 3.
abbrev wrote : System
wrote = after_round 10 (write_succeeded 3) (record { head = node (pos 3) null; size = 1 }) start

abbrev wrote_twice : System
wrote_twice =
    after_round 11 (write_succeeded 5)
      (record { head = node (pos 3) (node (pos 5) null); size = 2 }) wrote

abbrev took : System
took =
    after_round 0 (read_succeeded (pos 3)) (record { head = node (pos 5) null; size = 1 })
      wrote_twice

took-Reach : Reach error_is_minus_one took
unfolding read_func write_func serve dummy_read dummy_write alloc_linked_list_randomly insert_after
    get_first_matched delete_head
took-Reach =
    next
      (next (next begin (writer 10 23 7 (omega arith) (omega arith) (omega arith) refl))
        (writer 11 15 4 (omega arith) (omega arith) (omega arith) refl))
      (reader 0 33 (omega arith) (omega arith) refl)

nothing_lost_example :
    IsValid took.device
    × All IsFine took.printed
    × ((w : ℤ) → stored w took.printed ≡ taken w took.printed + occurs w took.device.head)
nothing_lost_example = nothing_lost error_is_minus_one (λ n. refl) refl took-Reach

round_served_example :
    (m : Message) × (d : Device) × (round error_is_minus_one 0 9 1 took.device ≡ some (m, d))
    × Step error_is_minus_one took (after_round 0 m d took)
round_served_example =
    round_served error_is_minus_one (λ n. refl) refl took-Reach 0 9 1 (omega arith) (omega arith)
