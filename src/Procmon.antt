-- ===== src/Procmon.antt =====
-- project2/procmon.c: a module that lists the processes in /proc/procmon, sorted by what was last
-- written to /proc/procmon_sorting. Its only lasting variable is the criterion `currentValue`.
-- The list of processes is the kernel's, and so are `isspace` and what `copy_from_user` copies. The
-- layout of the printed lines is left out: what is shown is the rows in their order.
pub mod Sorted
pub mod Selection
mod Tests
use ee.Base.{
  ℕ, zero, suc, ◌+◌, ◌-◌, ◌*◌, ◌/◌, ◌%◌, ◌^◌, Bool, true, false, Option, none, some, List, [], ◌∷◌,
  ltb, leb, ◌==◌, if◌then◌else◌, length, get_or, take,
}
use ee.Base.Int.{ℤ, pos, negsuc, ltb_ℤ}

-- The enumeration of the criteria.
pub data Criterion : Type 0 where
  pid virt rss io : Criterion

-- `struct mydata`, with the name as its bytes.
pub record MyData : Type 0 where
  pub pid : ℤ
  pub name : List ℕ
  pub virt : ℤ
  pub rss : ℤ
  pub diskread : ℤ
  pub diskwrite : ℤ
  pub totalio : ℤ

-- The condition of each branch of the `switch`: these two neighbours change places.
unfoldable pub out_of_order : Criterion → MyData → MyData → Bool
out_of_order pid a b = ltb_ℤ b.pid a.pid
out_of_order virt a b = ltb_ℤ a.virt b.virt
out_of_order rss a b = ltb_ℤ a.rss b.rss
out_of_order io a b = ltb_ℤ a.totalio b.totalio

-- The inner loop from a place on, with the rounds that are left. It never gets past the end.
unfoldable pub inner : Criterion → (rounds : ℕ) → List MyData → List MyData
inner c zero l = l
inner c (suc k) [] = []
inner c (suc k) (x ∷ []) = x ∷ []
inner c (suc k) (x ∷ y ∷ l) =
    let wrong = out_of_order c x y in
    (if wrong then y else x) ∷ inner c k ((if wrong then x else y) ∷ l)

-- The outer loop: `len - i - 1` rounds of the inner one, for each `i` below `len - 1`.
unfoldable pub outer : Criterion → ℕ → List MyData → List MyData
outer c zero l = l
outer c (suc k) l = outer c k (inner c (suc k) l)

unfoldable pub bubblesort : Criterion → List MyData → List MyData
bubblesort c l = outer c (length l - 1) l

-- What the loop of `procmon_proc_show` reads of a process. `active_mm` is absent for a null pointer;
-- the counters of pages are signed. `ioac` has the bytes read and written of the signal structure
-- and of each thread.
pub record MmStruct : Type 0 where
  pub total_vm : ℕ
  pub filepages : ℤ
  pub anonpages : ℤ

pub record Task : Type 0 where
  pub pid : ℤ
  pub comm : List ℕ
  pub active_mm : Option MmStruct
  pub ioac : List (ℕ × ℕ)

abbrev pub page_size : ℕ
page_size = 4096

abbrev pub max_process_count : ℕ
max_process_count = 2048

-- A negative count is left out.
abbrev pub pages : ℤ → ℕ
pages (pos n) = n
pages (negsuc n) = 0

abbrev pub virt_of : Option MmStruct → ℤ
virt_of none = pos 0
virt_of (some m) = pos (m.total_vm * page_size % 2 ^ 64 / 1024)

abbrev pub rss_of : Option MmStruct → ℤ
rss_of none = pos 0
rss_of (some m) = pos ((pages m.filepages + pages m.anonpages) * (page_size / 1024))

-- `task_io_accounting_add` for each of them, in 64 bits.
unfoldable pub read_bytes : List (ℕ × ℕ) → ℕ
read_bytes [] = 0
read_bytes ((r, w) ∷ l) = (r + read_bytes l) % 2 ^ 64

unfoldable pub write_bytes : List (ℕ × ℕ) → ℕ
write_bytes [] = 0
write_bytes ((r, w) ∷ l) = (w + write_bytes l) % 2 ^ 64

unfoldable pub measure : Task → MyData
measure p =
    let diskread = read_bytes p.ioac / 1024 in
    let diskwrite = write_bytes p.ioac / 1024 in
    record {
      pid = p.pid;
      name = p.comm;
      virt = virt_of p.active_mm;
      rss = rss_of p.active_mm;
      diskread = pos diskread;
      diskwrite = pos diskwrite;
      totalio = pos (diskread + diskwrite);
    }

-- The loop `for_each_process` with `processCount`; `none` is a write behind the end of `dataset`,
-- which C leaves undefined.
unfoldable pub collect : (process_count : ℕ) → List Task → Option (List MyData)
collect n [] = some []
collect n (p ∷ ps) =
    let rest = collect (suc n) ps in
    if ltb n max_process_count
    then (elim rest [ none ↦ none | some l ↦ some (measure p ∷ l) ])
    else none

unfoldable pub proc_show : Criterion → List Task → Option (List MyData)
proc_show c ps = elim (collect 0 ps) [ none ↦ none | some l ↦ some (bubblesort c l) ]

abbrev pub buf_size : ℕ
buf_size = 512

-- The texts that select the criteria: "pid", "virt", "rss" and "io".
abbrev pub word : Criterion → List ℕ
word pid = 112 ∷ 105 ∷ 100 ∷ []
word virt = 118 ∷ 105 ∷ 114 ∷ 116 ∷ []
word rss = 114 ∷ 115 ∷ 115 ∷ []
word io = 105 ∷ 111 ∷ []

-- `strcmp(a, b) == 0` of texts.
abbrev pub same_text : List ℕ → List ℕ → Bool
same_text [] [] = true
same_text [] (y ∷ ys) = false
same_text (x ∷ xs) [] = false
same_text (x ∷ xs) (y ∷ ys) = let rest = same_text xs ys in if x == y then rest else false

-- The comparisons at the end of `procmon_proc_selection_write`, with the criterion so far.
unfoldable pub select : List ℕ → Criterion → Criterion
select t c =
    if same_text t (word pid)
    then pid
    else if same_text t (word virt)
    then virt
    else if same_text t (word rss)
    then rss
    else if same_text t (word io)
    then io
    else c

-- What is in `sortingBuf` as a C string, of the bytes that were copied into the zeroed buffer.
abbrev pub text : List ℕ → List ℕ
text [] = []
text (b ∷ l) = let rest = text l in if b == 0 then [] else b ∷ rest

module _ (isspace : ℕ → Bool) where
  -- The loop over `i` from `len - 1` down: a zero at `i` ends the string there.
  unfoldable pub trim : ℕ → List ℕ → List ℕ
  trim zero t = t
  trim (suc i) t = let shorter = trim i (take i t) in if isspace (get_or t i 0) then shorter else t

  -- `copied` says whether `copy_from_user` succeeds. The result is the count, or -EFAULT. With 512
  -- bytes and no zero among them `strlen` runs on behind the buffer, which is `none`.
  unfoldable pub selection_write : (copied : Bool) → List ℕ → Criterion → Option (ℤ × Criterion)
  selection_write copied buf c =
      let bytes = take buf_size buf in
      let t = text bytes in
      if copied
      then (if length t == buf_size
          then none
          else some (pos (length bytes), select (trim (length t) t) c))
      else some (negsuc 13, c)

-- `procmon_proc_selection_show`: the criteria in order, each with whether it is in brackets.
unfoldable pub selection_show : Criterion → List (List ℕ × Bool)
selection_show pid =
    (word pid, true) ∷ (word virt, false) ∷ (word rss, false) ∷ (word io, false) ∷ []
selection_show virt =
    (word pid, false) ∷ (word virt, true) ∷ (word rss, false) ∷ (word io, false) ∷ []
selection_show rss =
    (word pid, false) ∷ (word virt, false) ∷ (word rss, true) ∷ (word io, false) ∷ []
selection_show io =
    (word pid, false) ∷ (word virt, false) ∷ (word rss, false) ∷ (word io, true) ∷ []
