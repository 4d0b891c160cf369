-- ===== src/ProCon.antt =====
-- hw2/pro_con.c: two producers and two consumers on a buffer of 100 cells, under the semaphores
-- `mutex`, `empty` and `full`. The threads take steps in any order; a step is one access to shared
-- data or one semaphore operation. `count++` and `--count` are a load and a store.
pub mod Inv
pub mod Safety
pub mod Progress
mod Tests
use ee.Base.{
  ℕ, zero, suc, ◌+◌, ◌-◌, ◌%◌, ◌<◌, ◌≡◌, Bool, true, false, ◌||◌, List, [], ltb, leb, ◌==◌,
  if◌then◌else◌, get_or, set, replicate,
}
use ee.Base.Update.{update}

-- The shared variables. `fault` records an access outside `buffer`.
pub record Shared : Type 0 where
  pub mutex : ℕ
  pub empty : ℕ
  pub full : ℕ
  pub buffer : List ℕ
  pub count : ℕ
  pub fault : Bool

-- Where a thread stands in `producer` or `consumer`, with the rounds that are left after this one
-- and the local variables that are live there.
pub data Pc : Type 0 where
  p_loop : (left : ℕ) → Pc
  p_made : (left item : ℕ) → Pc
  p_reserved : (left item : ℕ) → Pc
  p_inside : (left item : ℕ) → Pc
  p_loaded : (left item c : ℕ) → Pc
  p_stored : (left : ℕ) → Pc
  p_unlocked : (left : ℕ) → Pc
  c_loop : (left : ℕ) → Pc
  c_taken : (left : ℕ) → Pc
  c_inside : (left : ℕ) → Pc
  c_loaded : (left c : ℕ) → Pc
  c_removed : (left item : ℕ) → Pc
  c_unlocked : (left item : ℕ) → Pc

-- `buffer[count++] = v` after `count` was loaded as `c`
unfoldable pub insert_item : ℕ → ℕ → Shared → Shared
insert_item v c m = record m {
  buffer = set m.buffer c v;
  count = c + 1;
  fault = m.fault || leb 100 c;
}

-- `buffer[--count]` after `count` was loaded as `c`
unfoldable pub remove_item : ℕ → Shared → Shared
remove_item c m = record m { count = c - 1; fault = m.fault || (c == 0 || leb 101 c) }

-- `rand() % 256`
abbrev pub produce_item : ℕ → ℕ
produce_item r = r % 256

-- One step of one thread. `sem_wait` is enabled while the value is positive.
pub data Move (m : Shared) : Pc → Shared → Pc → Type 0 where
  produce : {k : ℕ} (r : ℕ) → Move m (p_loop (suc k)) m (p_made k (produce_item r))
  wait_empty :
      {k v : ℕ}
      → 0 < m.empty
      → Move m (p_made k v) (record m { empty = m.empty - 1 }) (p_reserved k v)
  p_lock :
      {k v : ℕ}
      → 0 < m.mutex
      → Move m (p_reserved k v) (record m { mutex = m.mutex - 1 }) (p_inside k v)
  p_load : {k v : ℕ} → Move m (p_inside k v) m (p_loaded k v m.count)
  insert : {k v c : ℕ} → Move m (p_loaded k v c) (insert_item v c m) (p_stored k)
  p_unlock : {k : ℕ} → Move m (p_stored k) (record m { mutex = m.mutex + 1 }) (p_unlocked k)
  post_full : {k : ℕ} → Move m (p_unlocked k) (record m { full = m.full + 1 }) (p_loop k)
  wait_full :
      {k : ℕ} → 0 < m.full → Move m (c_loop (suc k)) (record m { full = m.full - 1 }) (c_taken k)
  c_lock :
      {k : ℕ} → 0 < m.mutex → Move m (c_taken k) (record m { mutex = m.mutex - 1 }) (c_inside k)
  c_load : {k : ℕ} → Move m (c_inside k) m (c_loaded k m.count)
  remove :
      {k c : ℕ} → Move m (c_loaded k c) (remove_item c m) (c_removed k (get_or m.buffer (c - 1) 0))
  c_unlock : {k v : ℕ} → Move m (c_removed k v) (record m { mutex = m.mutex + 1 }) (c_unlocked k v)
  post_empty : {k v : ℕ} → Move m (c_unlocked k v) (record m { empty = m.empty + 1 }) (c_loop k)

abbrev pub threads : ℕ
threads = 4

pub record System : Type 0 where
  pub mem : Shared
  pub pc : ℕ → Pc

pub data Step (s : System) : System → Type 0 where
  pick :
      (t : ℕ) {m : Shared} {p : Pc}
      → t < threads
      → Move s.mem (s.pc t) m p
      → Step s (record { mem = m; pc = update s.pc t p })

-- `main` after the semaphores are initialized and the threads created: 100 rounds for each, the
-- first two threads producers.
abbrev pub start : System
start = record {
  mem = record {
    mutex = 1;
    empty = 100;
    full = 0;
    buffer = replicate 100 0;
    count = 0;
    fault = false;
  };
  pc = λ t. if ltb t 2 then p_loop 100 else c_loop 100;
}

pub data Reach : System → Type 0 where
  begin : Reach start
  next : {s t : System} → Reach s → Step s t → Reach t
