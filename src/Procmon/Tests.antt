-- ===== src/Procmon/Tests.antt =====
-- The listing and the selection of project2/procmon.c on concrete processes and texts.
use ee.Base.{
  ℕ, ◌≡◌, ◌≤◌, refl, true, false, Bool, ◌||◌, ◌==◌, some, List, [], ◌∷◌, ◌++◌, map, arith,
}
use ee.Base.Int.{pos, negsuc}
use ee.Sorting.Insertion.{insertion_sort}
use ee.Procmon.{
  Criterion, pid, rss, io, virt, MyData, Task, measure, proc_show, word, selection_write, select,
  trim, text, max_process_count, bubblesort,
}
use ee.Procmon.Sorted.{order, proc_show_lem}
use ee.Procmon.Selection.{IsSpaces, selection_write-word}

abbrev process : ℕ → ℕ → Task
process n size = record {
  pid = pos n;
  comm = 115 ∷ 104 ∷ [];
  active_mm = some (record { total_vm = size; filepages = pos 2; anonpages = negsuc 4 });
  ioac = (4096, 0) ∷ (1024, 2048) ∷ [];
}

abbrev processes : List Task
processes = process 7 10 ∷ process 3 20 ∷ process 5 20 ∷ []

abbrev row : ℕ → ℕ → MyData
row n size = record {
  pid = pos n;
  name = 115 ∷ 104 ∷ [];
  virt = pos size;
  rss = pos 8;
  diskread = pos 5;
  diskwrite = pos 2;
  totalio = pos 7;
}

shown_by_virt : proc_show virt processes ≡ some (row 3 80 ∷ row 5 80 ∷ row 7 40 ∷ [])
unfolding proc_show measure bubblesort ee.Procmon.collect ee.Procmon.outer ee.Procmon.inner
    ee.Procmon.out_of_order ee.Procmon.read_bytes ee.Procmon.write_bytes
shown_by_virt = refl

proc_show_lem_example :
    proc_show virt processes ≡ some (insertion_sort (order virt) (map measure processes))
proc_show_lem_example = proc_show_lem virt processes

abbrev is_blank : ℕ → Bool
is_blank b = b == 32 || b == 10

is_blank-letters : (b : ℕ) → 97 ≤ b → b ≤ 122 → is_blank b ≡ false
is_blank-letters b h k = ground arith

is_blank-IsSpaces : IsSpaces is_blank (32 ∷ 10 ∷ [])
is_blank-IsSpaces = (refl, (refl, record {}))

selection_write-word_example :
    selection_write is_blank true (word io ++ 32 ∷ 10 ∷ []) rss ≡ some (pos 4, io)
selection_write-word_example =
    selection_write-word is_blank io rss (32 ∷ 10 ∷ []) is_blank-letters is_blank-IsSpaces
      (ground arith) (omega arith)
