-- ===== src/LinkedList/Clients.antt =====
-- project5/task1/reader_writer_skel.c: ten readers and ten writers on the device, threads of one program.
-- One round of a thread is one step; `rand` is what its random number is made of, `random` what the device
-- takes for its own, and `libc` what the library makes of the result of a system call.
pub mod Ledger
use ee.Base.{ℕ, suc, ◌+◌, ◌%◌, ◌<◌, ◌≤◌, ◌≡◌, Option, none, some, List, [], ◌∷◌, if◌then◌else◌}
use ee.Base.Int.{ℤ, negsuc, eqb_ℤ}
use ee.Base.Update.{update}
use ee.LinkedList.{null, Device, Request, read, write, serve}

abbrev pub num_read : ℕ
num_read = 10

abbrev pub num_write : ℕ
num_write = 10

abbrev pub num_loop : ℕ
num_loop = 100

-- What the threads print, without their ids.
pub data Message : Type 0 where
  write_failed write_succeeded : (v : ℕ) → Message
  read_failed : (v : ℕ) → Message
  read_succeeded : (v : ℤ) → Message

abbrev pub write_message : ℕ → ℤ → Message
write_message v ret = if eqb_ℤ ret (negsuc 0) then write_failed v else write_succeeded v

-- `kept` is `buf[1]`, where the device leaves what it returns.
abbrev pub read_message : ℕ → (kept ret : ℤ) → Message
read_message v kept ret = if eqb_ℤ ret (negsuc 0) then read_failed v else read_succeeded kept

-- The device, the rounds that each thread has done, readers first, and what was printed, the last first.
pub record System : Type 0 where
  pub device : Device
  pub rounds : ℕ → ℕ
  pub printed : List Message

-- The system after a round of thread `t`.
abbrev pub after_round : ℕ → Message → Device → System → System
after_round t m d s = record {
  device = d;
  rounds = update s.rounds t (suc (s.rounds t));
  printed = m ∷ s.printed;
}

-- The device as the module is loaded, and the threads at their first rounds.
abbrev pub start : System
start = record { device = record { head = null; size = 0 }; rounds = λ t. 0; printed = [] }

module _ (libc : ℤ → ℤ) where
  unfoldable pub write_func : (rand random : ℕ) → Device → Option (Message × Device)
  write_func rand random d = elim (serve (write 4 (rand % 10) random) d) [
    | none ↦ none
    | some (k, d') ↦ some (write_message (rand % 10) (libc k), d')
  ]

  unfoldable pub read_func : (rand : ℕ) → Device → Option (Message × Device)
  read_func rand d = elim (serve (read 4 (rand % 10)) d) [
    | none ↦ none
    | some (k, d') ↦ some (read_message (rand % 10) k (libc k), d')
  ]

  pub data Step (s : System) : System → Type 0 where
    reader :
        (t rand : ℕ) {m : Message} {d : Device}
        → t < num_read
        → s.rounds t < num_loop
        → read_func rand s.device ≡ some (m, d)
        → Step s (after_round t m d s)
    writer :
        (t rand random : ℕ) {m : Message} {d : Device}
        → num_read ≤ t
        → t < num_read + num_write
        → s.rounds t < num_loop
        → write_func rand random s.device ≡ some (m, d)
        → Step s (after_round t m d s)

  pub data Reach : System → Type 0 where
    begin : Reach start
    next : {s s' : System} → Reach s → Step s s' → Reach s'
