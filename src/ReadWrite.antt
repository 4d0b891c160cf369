-- ===== src/ReadWrite.antt =====
-- hw2/read_write.c: three readers and three writers of one byte, under the semaphores `mutex` (for
-- `reader_num`) and `db`. A step of a thread is one access to shared data or one semaphore operation;
-- `reader_num++` and `reader_num--` are a load and a store. The loops never end.
pub mod Inv
pub mod Safety
mod Tests
use ee.Base.{ℕ, zero, suc, ◌+◌, ◌-◌, ◌<◌, ◌≡◌, ◌≢◌, ltb, if◌then◌else◌}
use ee.Base.Update.{update}

pub record Shared : Type 0 where
  pub mutex : ℕ
  pub db : ℕ
  pub reader_num : ℕ
  pub db_file : ℕ

-- Where a thread stands in `reader` or `writer`, with the local variables that are live there. `n` is
-- a value of `reader_num` that the thread loaded or has just stored, `value` the byte that it read.
pub data Pc : Type 0 where
  r_loop : Pc
  r_locked : Pc
  r_got : (n : ℕ) → Pc
  r_counted : (n : ℕ) → Pc
  r_waiting : Pc
  r_entered : Pc
  r_reading : Pc
  r_read : (value : ℕ) → Pc
  r_relocked : (value : ℕ) → Pc
  r_regot : (value n : ℕ) → Pc
  r_discounted : (value n : ℕ) → Pc
  r_posting : (value : ℕ) → Pc
  r_leaving : (value : ℕ) → Pc
  w_loop : Pc
  w_inside : Pc
  w_written : Pc

-- One step of the thread with number `id`. `sem_wait` is enabled while the value is positive.
pub data Move (id : ℕ) (m : Shared) : Pc → Shared → Pc → Type 0 where
  lock : 0 < m.mutex → Move id m r_loop (record m { mutex = m.mutex - 1 }) r_locked
  load : Move id m r_locked m (r_got m.reader_num)
  count : {n : ℕ} → Move id m (r_got n) (record m { reader_num = n + 1 }) (r_counted (n + 1))
  first : {n : ℕ} → m.reader_num ≡ 1 → Move id m (r_counted n) m r_waiting
  not_first : {n : ℕ} → m.reader_num ≢ 1 → Move id m (r_counted n) m r_entered
  wait_db : 0 < m.db → Move id m r_waiting (record m { db = m.db - 1 }) r_entered
  unlock : Move id m r_entered (record m { mutex = m.mutex + 1 }) r_reading
  read_db : Move id m r_reading m (r_read m.db_file)
  relock :
      {v : ℕ} → 0 < m.mutex → Move id m (r_read v) (record m { mutex = m.mutex - 1 }) (r_relocked v)
  reload : {v : ℕ} → Move id m (r_relocked v) m (r_regot v m.reader_num)
  discount :
      {v n : ℕ} → Move id m (r_regot v n) (record m { reader_num = n - 1 }) (r_discounted v (n - 1))
  last : {v n : ℕ} → m.reader_num ≡ 0 → Move id m (r_discounted v n) m (r_posting v)
  not_last : {v n : ℕ} → m.reader_num ≢ 0 → Move id m (r_discounted v n) m (r_leaving v)
  post_db : {v : ℕ} → Move id m (r_posting v) (record m { db = m.db + 1 }) (r_leaving v)
  leave : {v : ℕ} → Move id m (r_leaving v) (record m { mutex = m.mutex + 1 }) r_loop
  w_wait : 0 < m.db → Move id m w_loop (record m { db = m.db - 1 }) w_inside
  write_db : Move id m w_inside (record m { db_file = id }) w_written
  w_post : Move id m w_written (record m { db = m.db + 1 }) w_loop

abbrev pub threads : ℕ
threads = 6

-- `p[6] = {1,2,3,1,2,3}`
abbrev pub id_of : ℕ → ℕ
id_of t = if ltb t 3 then t + 1 else t - 2

pub record System : Type 0 where
  pub mem : Shared
  pub pc : ℕ → Pc

pub data Step (s : System) : System → Type 0 where
  pick :
      (t : ℕ) {m : Shared} {p : Pc}
      → t < threads
      → Move (id_of t) s.mem (s.pc t) m p
      → Step s (record { mem = m; pc = update s.pc t p })

-- `main` after the semaphores are initialized and the threads created.
abbrev pub start : System
start = record {
  mem = record { mutex = 1; db = 1; reader_num = 0; db_file = 0 };
  pc = λ t. if ltb t 3 then r_loop else w_loop;
}

pub data Reach : System → Type 0 where
  begin : Reach start
  next : {s t : System} → Reach s → Step s t → Reach t
